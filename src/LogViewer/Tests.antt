-- ===== src/LogViewer/Tests.antt =====
-- A viewer with one log and a page that is on its way.
use emailjachai.Common.{◌≡◌, refl, true, false, none, some, [], ◌∷◌, take, length, if◌then◌else◌}
use emailjachai.Common.Text.{confirms}
use emailjachai.Stores.Logs.{max_buffer}
use emailjachai.Stores.Reply.{rejected, replied}
use emailjachai.LogViewer.{
  Viewer, Request, ListResponse, reset, append, page_of, render, observe, begin_clear, finish_clear,
  finish_load, change_filter,
}
use emailjachai.LogViewer.Laws.{
  ◌⟶*◌, here, then_, sees, filters, one_load, rows_of, filter_while_loading, load_after_clear,
}

abbrev idle : Viewer
idle = record {
  store = record {
    logs = [];
    total = 0;
    has_more = true;
    next_before_id = some 7;
    next_before_created_at = some "2026-01-01";
  };
  is_loading = false;
  is_initial = false;
  search_term = "";
  debounced_search = "";
  level_filter = none;
  is_clear_dialog_open = true;
  clear_confirm_text = " clear";
  is_clearing = false;
  flights = [];
  clears = [];
}

abbrev first : Request
first = record {
  mode = reset;
  query = record { limit = 50; level = none; q = none; before = none };
}

abbrev loading : Viewer
loading = record idle { is_loading = true; flights = first ∷ [] }

abbrev response : ListResponse
response = record {
  logs = some (
      record {
        id = some 3;
        user_id = none;
        level = "WARN";
        source = "System";
        message = "slow";
        ip = none;
        created_at = none;
        time = none;
      }
      ∷ []);
  total = some 1;
  has_more = some false;
  next_before_id = none;
  next_before_created_at = none;
}

trace : idle ⟶* change_filter (some "WARN") "x" (observe idle)
trace = then_ (then_ here sees) (filters (some "WARN") "x")

one_load_example :
    length (change_filter (some "WARN") "x" (observe idle)).flights
    ≡ (if (change_filter (some "WARN") "x" (observe idle)).is_loading then 1 else 0)
one_load_example = one_load refl trace

-- The next page is on its way.
abbrev second : Request
second = record {
  mode = append;
  query = record { limit = 50; level = none; q = none; before = some (3, "today") };
}

abbrev scrolling : Viewer
scrolling = record idle { is_loading = true; flights = second ∷ [] }

filter_while_loading_example :
    ((change_filter (some "ERROR") "" scrolling).flights ≡ second ∷ [])
    × ((change_filter (some "ERROR") "" scrolling).store.logs ≡ [])
    × ((finish_load [] second []
          (replied true (some response) "")
          (change_filter (some "ERROR") "" scrolling)).store.logs
        ≡ take max_buffer (rows_of append (page_of response).logs))
    × ((finish_load [] second []
          (replied true (some response) "")
          (change_filter (some "ERROR") "" scrolling)).level_filter
        ≡ some "ERROR")
    × ((finish_load [] second []
          (replied true (some response) "")
          (change_filter (some "ERROR") "" scrolling)).flights
        ≡ [])
filter_while_loading_example =
    filter_while_loading (some "ERROR") "" "" second response scrolling refl refl

phrase : confirms "CLEAR" " clear" ≡ true
unfolding confirms
phrase = refl

load_after_clear_example :
    (one two : Request) × ((finish_clear []
        (render idle)
        []
        (replied true none "")
        (observe (begin_clear idle))).flights
      ≡ one ∷ two ∷ [])
    × ((finish_load [] one (two ∷ []) rejected (
          finish_clear []
            (render idle)
            []
            (replied true none "")
            (observe (begin_clear idle)))).is_loading
        ≡ false)
load_after_clear_example = load_after_clear "" none rejected idle refl refl refl refl refl phrase
