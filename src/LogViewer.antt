-- ===== src/LogViewer.antt =====
-- frontend/app/admin/logs/logs-client.tsx: the log viewer of the admin panel, over the log store.
pub mod Laws
mod Tests
use emailjachai.Common.{
  ℕ, suc, ◌+◌, ◌-◌, String, Bool, true, false, not, ◌||◌, ◌&&◌, Option, none, some, List, [], ◌∷◌,
  ◌++◌, map, str_eq, leb, ◌==◌, if◌then◌else◌, length,
}
use emailjachai.Common.Text.{codes, includes, trim, text_or, nullish, confirms}
use emailjachai.Stores.Logs as Logs
use emailjachai.Stores.Logs.{
  LogEntry, LogsStore, set_initial, append_logs, add_live_log, clear_logs,
}
use emailjachai.Stores.Reply.{Reply, replied, rejected}
use emailjachai.Realtime.LogFields.{Clock, cut_iso, cut_text}

abbrev pub page_size : ℕ
page_size = 50

unfoldable pub display_ip : Option String → String
unfolding trim
display_ip ip =
    let value = trim (text_or ip "") in
    if str_eq value "" || str_eq value "127.0.0.1" || str_eq value "0.0.0.0" then "—" else value

unfoldable pub display_time : Clock → LogEntry → String
display_time c log =
    let raw = text_or log.time (text_or log.created_at "") in
    if str_eq raw ""
    then "—"
    else if includes (codes raw) (codes "T")
    then elim (c.to_iso raw) [ none ↦ cut_text raw | some iso ↦ cut_iso iso ]
    else cut_text raw

pub data Mode : Type 0 where
  reset append : Mode

-- The parameters of a request for a page; the position stands for two of them.
pub record Query : Type 0 where
  pub limit : ℕ
  pub level : Option String
  pub q : Option String
  pub before : Option (ℕ × String)

-- A request on its way: which page it asks for, and what becomes of it.
pub record Request : Type 0 where
  pub mode : Mode
  pub query : Query

-- What a function made at one rendering of the component sees of its state.
pub record Render : Type 0 where
  pub is_loading : Bool
  pub level_filter : Option String
  pub debounced_search : String
  pub next_before_id : Option ℕ
  pub next_before_created_at : Option String

-- The component, the store it shows, the requests for pages and for a removal that are on their way;
-- a removal goes on with the functions of the rendering in which it was confirmed.
pub record Viewer : Type 0 where
  pub store : LogsStore
  pub is_loading : Bool
  pub is_initial : Bool
  pub search_term : String
  pub debounced_search : String
  pub level_filter : Option String
  pub is_clear_dialog_open : Bool
  pub clear_confirm_text : String
  pub is_clearing : Bool
  pub flights : List Request
  pub clears : List Render

unfoldable pub render : Viewer → Render
render s = record {
  is_loading = s.is_loading;
  level_filter = s.level_filter;
  debounced_search = s.debounced_search;
  next_before_id = s.store.next_before_id;
  next_before_created_at = s.store.next_before_created_at;
}

-- A text, or none where it is empty.
abbrev pub nonempty : String → Option String
nonempty s = if str_eq s "" then none else some s

-- `nextBeforeId && nextBeforeCreatedAt`: zero and the empty text count as missing.
abbrev pub cursor : Option ℕ → Option String → Option (ℕ × String)
cursor none at = none
cursor (some id) at =
    if id == 0 || str_eq (text_or at "") "" then none else some (id, text_or at "")

abbrev pub cursor_for : Mode → Render → Option (ℕ × String)
cursor_for reset r = none
cursor_for append r = cursor r.next_before_id r.next_before_created_at

unfoldable pub build_list_url : Render → Option (ℕ × String) → Query
build_list_url r at = record {
  limit = page_size;
  level = nonempty (text_or r.level_filter "");
  q = nonempty r.debounced_search;
  before = at;
}

-- `loadPage` up to its request, as the function of the rendering `r`.
unfoldable pub begin_load : Mode → Render → Viewer → Viewer
unfolding build_list_url
begin_load mode r s = if r.is_loading then s else record s {
  is_loading = true;
  flights = record { mode = mode; query = build_list_url r (cursor_for mode r) } ∷ s.flights;
}

pub record ListResponse : Type 0 where
  pub logs : Option (List LogEntry)
  pub total : Option ℕ
  pub has_more : Option Bool
  pub next_before_id : Option ℕ
  pub next_before_created_at : Option String

abbrev pub nonzero : Option ℕ → Option ℕ
nonzero none = none
nonzero (some n) = if n == 0 then none else some n

unfoldable pub page_of : ListResponse → Logs.Page
page_of d = record {
  logs = nullish d.logs [];
  total = nullish d.total 0;
  has_more = nullish d.has_more false;
  next_before_id = nonzero d.next_before_id;
  next_before_created_at = nonempty (text_or d.next_before_created_at "");
}

abbrev pub take_page : Mode → Logs.Page → LogsStore → LogsStore
unfolding set_initial append_logs
take_page reset p store = set_initial p store
take_page append p store = append_logs p store

-- What a reply writes into the store.
unfoldable pub take_reply : Mode → Reply ListResponse → LogsStore → LogsStore
unfolding page_of set_initial append_logs
take_reply mode rejected store = store
take_reply mode (replied false body m) store = store
take_reply mode (replied true none m) store = store
take_reply mode (replied true (some d) m) store = take_page mode (page_of d) store

-- The reply to the request after the first `before` ones.
unfoldable pub finish_load :
    List Request → Request → List Request → Reply ListResponse → Viewer → Viewer
unfolding take_reply
finish_load before q after r s = record s {
  store = take_reply q.mode r s.store;
  is_loading = false;
  is_initial = false;
  flights = before ++ after;
}

-- An empty store is filled anew: what a changed filter, the refresh button and a removal share.
unfoldable pub begin_again : Render → Viewer → Viewer
unfolding begin_load clear_logs
begin_again r s = begin_load reset r (record s { is_initial = true; store = clear_logs s.store })

abbrev pub is_empty {ℓ} : {A : Type ℓ} → List A → Bool
is_empty [] = true
is_empty (x ∷ xs) = false

-- The effect at the first rendering, with the page that the server rendered.
unfoldable pub hydrate : Logs.Page → Viewer → Viewer
unfolding set_initial begin_load render
hydrate p s =
    let t = record s { store = set_initial p s.store } in
    if is_empty p.logs then begin_load reset (render s) (record t { is_initial = true }) else t

-- A change of the level or of the search text, once it has settled, and the effect that follows it.
unfoldable pub change_filter : Option String → String → Viewer → Viewer
unfolding begin_again render
change_filter level search s =
    let t = record s { level_filter = level; debounced_search = trim search } in
    begin_again (render t) t

-- The sentinel at the end of the list comes into view.
unfoldable pub observe : Viewer → Viewer
unfolding begin_load render
observe s =
    if s.store.has_more && not s.is_loading && not s.is_initial
    then begin_load append (render s) s
    else s

-- The button is disabled while a page is loading.
unfoldable pub handle_refresh : Viewer → Viewer
unfolding begin_again render
handle_refresh s = if s.is_loading then s else begin_again (render s) s

unfoldable pub handle_open_clear_dialog : Viewer → Viewer
handle_open_clear_dialog s = record s { clear_confirm_text = ""; is_clear_dialog_open = true }

-- `handleConfirmClear` up to its request. The button is disabled while a removal is under way and
-- without the phrase.
unfoldable pub begin_clear : Viewer → Viewer
unfolding confirms render
begin_clear s =
    if s.is_clearing || not (confirms "CLEAR" s.clear_confirm_text)
    then s
    else record s { is_clearing = true; clears = render s ∷ s.clears }

unfoldable pub finish_clear :
    List Render → Render → List Render → Reply (Option ℕ) → Viewer → Viewer
unfolding begin_load clear_logs
finish_clear before r after (replied true body m) s =
    record (begin_load reset r (record s {
      store = clear_logs s.store;
      is_clear_dialog_open = false;
      clear_confirm_text = "";
      is_initial = true;
      clears = before ++ after;
    })) { is_clearing = false }
finish_clear before r after (replied false body m) s = record s {
  is_clearing = false;
  clears = before ++ after;
}
finish_clear before r after rejected s = record s { is_clearing = false; clears = before ++ after }

unfoldable pub arrive : LogEntry → Viewer → Viewer
unfolding add_live_log
arrive log s = record s { store = add_live_log log s.store }
