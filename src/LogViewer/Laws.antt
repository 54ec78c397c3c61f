-- ===== src/LogViewer/Laws.antt =====
-- The requests of the log viewer for pages: one at a time, with two exceptions.
use emailjachai.Common.{
  ℕ, String, ◌≡◌, refl, ap, sym, subst, ◌∙◌, Bool, true, false, Option, some, List, [], ◌∷◌, ◌++◌,
  arith, length, length-append, take, if◌then◌else◌,
}
use emailjachai.Common.Text.{trim, confirms}
use emailjachai.Stores.Logs as Logs
use emailjachai.Stores.Logs.{
  LogEntry, max_buffer, LogsStore, unique_logs, append_logs, clear_logs, set_initial,
}
use emailjachai.Stores.Reply.{Reply, replied}
use emailjachai.LogViewer.{
  Viewer, Request, Render, ListResponse, Mode, reset, append, render, begin_load, begin_again,
  finish_load, hydrate, change_filter, observe, handle_refresh, handle_open_clear_dialog, arrive,
  begin_clear, finish_clear, page_of, take_reply, is_empty, build_list_url, cursor_for,
}

-- What happens to the viewer while no removal is confirmed.
infix 40 ◌⟶◌
pub data ◌⟶◌ : Viewer → Viewer → Type 0 where
  mounts : (p : Logs.Page) {s : Viewer} → s ⟶ hydrate p s
  filters :
      (level : Option String) (search : String) {s : Viewer} → s ⟶ change_filter level search s
  sees : {s : Viewer} → s ⟶ observe s
  refreshes : {s : Viewer} → s ⟶ handle_refresh s
  opens : {s : Viewer} → s ⟶ handle_open_clear_dialog s
  brings : (log : LogEntry) {s : Viewer} → s ⟶ arrive log s
  answers :
      (before : List Request) (q : Request) (after : List Request) (r : Reply ListResponse)
      {s : Viewer}
      → s.flights ≡ before ++ q ∷ after
      → s ⟶ finish_load before q after r s

infix 40 ◌⟶*◌
pub data ◌⟶*◌ : Viewer → Viewer → Type 0 where
  here : {s : Viewer} → s ⟶* s
  then_ : {s t u : Viewer} → s ⟶* t → t ⟶ u → s ⟶* u

-- A request is on its way exactly while the viewer is loading, and there is one then.
abbrev Inv : Viewer → Type 0
Inv s = length s.flights ≡ (if s.is_loading then 1 else 0)

if-Inv :
    (b : Bool) (s t : Viewer) → (b ≡ true → Inv s) → (b ≡ false → Inv t) → Inv (if b then s else t)
if-Inv true s t v w = v refl
if-Inv false s t v w = w refl

begin_load-Inv :
    (mode : Mode) (r : Render) (s : Viewer)
    → r.is_loading ≡ s.is_loading
    → Inv s
    → Inv (begin_load mode r s)
unfolding begin_load
begin_load-Inv mode r s e v = if-Inv r.is_loading s _ (λ h. v) (λ h. ground arith)

begin_again-Inv :
    (r : Render) (s : Viewer) → r.is_loading ≡ s.is_loading → Inv s → Inv (begin_again r s)
unfolding begin_again
begin_again-Inv r s e v =
    begin_load-Inv reset r (record s { is_initial = true; store = clear_logs s.store }) e v

begin_load-render : (mode : Mode) (s : Viewer) → Inv s → Inv (begin_load mode (render s) s)
unfolding render
begin_load-render mode s v = begin_load-Inv mode (render s) s refl v

begin_again-render : (s : Viewer) → Inv s → Inv (begin_again (render s) s)
unfolding render
begin_again-render s v = begin_again-Inv (render s) s refl v

hydrate-Inv : (p : Logs.Page) (s : Viewer) → Inv s → Inv (hydrate p s)
unfolding hydrate render
hydrate-Inv p s v =
    if-Inv (is_empty p.logs) _ (record s { store = set_initial p s.store })
      (λ h.
        begin_load-Inv reset (render s)
          (record s { store = set_initial p s.store; is_initial = true }) refl v)
      (λ h. v)

finish_load-Inv :
    (before : List Request) (q : Request) (after : List Request) (r : Reply ListResponse)
    (s : Viewer)
    → s.flights ≡ before ++ q ∷ after
    → Inv s
    → Inv (finish_load before q after r s)
unfolding finish_load
finish_load-Inv before q after r s e v =
    ground (arith, ap length e, length-append before (q ∷ after), length-append before after)

step-Inv : {s t : Viewer} → Inv s → s ⟶ t → Inv t
unfolding change_filter observe handle_refresh handle_open_clear_dialog arrive
step-Inv v (mounts p {s}) = hydrate-Inv p s v
step-Inv v (filters level search {s}) =
    begin_again-render (record s { level_filter = level; debounced_search = trim search }) v
step-Inv v (sees {s}) = if-Inv _ _ s (λ h. begin_load-render append s v) (λ h. v)
step-Inv v (refreshes {s}) = if-Inv s.is_loading s _ (λ h. v) (λ h. begin_again-render s v)
step-Inv v opens = v
step-Inv v (brings log) = v
step-Inv v (answers before q after r {s} e) = finish_load-Inv before q after r s e v

-- Whatever is clicked, typed, scrolled and answered, in any order, while no removal is confirmed: a
-- request for a page is on its way exactly while the viewer shows that it is loading, and it is the
-- only one, if that held at first.
pub one_load :
    {s t : Viewer}
    → length s.flights ≡ (if s.is_loading then 1 else 0)
    → s ⟶* t
    → length t.flights ≡ (if t.is_loading then 1 else 0)
one_load v here = v
one_load v (then_ ws h) = step-Inv (one_load v ws) h

-- The viewer after a change of the filter that sends nothing.
abbrev refiltered : Option String → String → Viewer → Viewer
refiltered level search s = record s {
  level_filter = level;
  debounced_search = trim search;
  store = clear_logs s.store;
  is_initial = true;
}

change_filter-refiltered :
    (level : Option String) (search : String) (s : Viewer)
    → s.is_loading ≡ true
    → change_filter level search s ≡ refiltered level search s
unfolding change_filter begin_again begin_load render
change_filter-refiltered level search s h = rw h refl

-- The rows of a page in an empty store: the first page as it is, a next page with each log once.
abbrev pub rows_of : Mode → List LogEntry → List LogEntry
rows_of reset xs = xs
rows_of append xs = unique_logs [] xs

take_reply-cleared :
    (mode : Mode) (m : String) (d : ListResponse) (s : LogsStore)
    → (take_reply mode (replied true (some d) m) (clear_logs s)).logs
      ≡ take max_buffer (rows_of mode (page_of d).logs)
unfolding take_reply set_initial append_logs clear_logs
take_reply-cleared reset m d s = refl
take_reply-cleared append m d s = refl

-- A filter that is changed while a page is loading, the first or a next one, sends no request of its
-- own: the page of the old filter arrives, fills the emptied store, and is shown under the new filter,
-- with nothing on its way.
pub filter_while_loading :
    (level : Option String) (search m : String) (q : Request) (d : ListResponse) (s : Viewer)
    → s.is_loading ≡ true
    → s.flights ≡ q ∷ []
    → ((change_filter level search s).flights ≡ q ∷ [])
      × ((change_filter level search s).store.logs ≡ [])
      × ((finish_load [] q [] (replied true (some d) m) (change_filter level search s)).store.logs
          ≡ take max_buffer (rows_of q.mode (page_of d).logs))
      × ((finish_load [] q [] (replied true (some d) m) (change_filter level search s)).level_filter
          ≡ level)
      × ((finish_load [] q [] (replied true (some d) m) (change_filter level search s)).flights
          ≡ [])
unfolding finish_load clear_logs
filter_while_loading level search m q d s h e =
    subst
      (λ u.
        (u.flights ≡ q ∷ [])
        × (u.store.logs ≡ [])
        × ((finish_load [] q [] (replied true (some d) m) u).store.logs
            ≡ take max_buffer (rows_of q.mode (page_of d).logs))
        × ((finish_load [] q [] (replied true (some d) m) u).level_filter ≡ level)
        × ((finish_load [] q [] (replied true (some d) m) u).flights ≡ []))
      (sym (change_filter-refiltered level search s h))
      (e, refl, take_reply-cleared q.mode m d s.store, refl, refl)

-- The viewer with a confirmed removal, and with a request for the next page on its way besides.
abbrev confirmed : Viewer → Viewer
confirmed s = record s { is_clearing = true; clears = render s ∷ s.clears }

begin_clear-confirmed :
    (s : Viewer)
    → s.is_clearing ≡ false
    → confirms "CLEAR" s.clear_confirm_text ≡ true
    → begin_clear s ≡ confirmed s
unfolding begin_clear
begin_clear-confirmed s f g = rw (f, g) refl

abbrev request_of : Mode → Render → Request
request_of mode r = record { mode = mode; query = build_list_url r (cursor_for mode r) }

begin_load_idle :
    (mode : Mode) (r : Render) (s : Viewer)
    → r.is_loading ≡ false
    → (begin_load mode r s).flights ≡ request_of mode r ∷ s.flights
unfolding begin_load
begin_load_idle mode r s h = rw h refl

observe_idle :
    (s : Viewer)
    → s.is_loading ≡ false
    → s.is_initial ≡ false
    → s.store.has_more ≡ true
    → (q : Request) × (observe s ≡ record s { is_loading = true; flights = q ∷ s.flights })
unfolding observe begin_load render
observe_idle s a b c = (request_of append (render s), rw (a, b, c) refl)

-- A removal that was confirmed while the viewer was idle goes on with what it saw then: where the list
-- was scrolled to its end in the meantime, the removal sends a second request, and the first answer
-- makes the viewer show that it is idle while the other request is still on its way.
pub load_after_clear :
    (m : String) (deleted : Option (Option ℕ)) (r : Reply ListResponse) (s : Viewer)
    → s.is_loading ≡ false
    → s.is_initial ≡ false
    → s.store.has_more ≡ true
    → s.flights ≡ []
    → s.is_clearing ≡ false
    → confirms "CLEAR" s.clear_confirm_text ≡ true
    → (first second : Request) × ((finish_clear []
          (render s)
          []
          (replied true deleted m)
          (observe (begin_clear s))).flights
        ≡ first ∷ second ∷ [])
      × ((finish_load [] first (second ∷ []) r (
            finish_clear []
              (render s)
              []
              (replied true deleted m)
              (observe (begin_clear s)))).is_loading
          ≡ false)
unfolding finish_clear render finish_load
load_after_clear m deleted r s a b c d f g =
    let (q, seen) = observe_idle (confirmed s) a b c in
    (
      request_of reset (render s),
      q,
      begin_load_idle reset (render s) _ a
          ∙ ap (λ u. request_of reset (render s) ∷ u.flights)
              (ap observe (begin_clear-confirmed s f g) ∙ seen)
          ∙ ap (λ xs. request_of reset (render s) ∷ q ∷ xs) d,
      refl,
    )
