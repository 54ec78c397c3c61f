-- ===== src/Stores/Logs/Tests.antt =====
-- Runs of the log store, and its theorems at small buffers.
use emailjachai.Common.{ℕ, String, true, none, some, List, [], ◌∷◌}
use emailjachai.Common.Keyed.{text_key}
use emailjachai.Stores.Logs.{LogEntry, LogsStore, Page, initial, more, live, init, run}
use emailjachai.Stores.Logs.Laws.{IsValid, run-IsValid}

abbrev entry : ℕ → String → LogEntry
entry n message = record {
  id = some n;
  user_id = none;
  level = "INFO";
  source = "api";
  message = message;
  ip = none;
  created_at = none;
  time = none;
}

abbrev page : List LogEntry → Page
page logs = record {
  logs = logs;
  total = 9;
  has_more = true;
  next_before_id = some 3;
  next_before_created_at = none;
}

abbrev one_log : LogsStore
one_log = record init { logs = entry 1 "started" ∷ [] }

run-IsValid_example : IsValid (
    run
      (initial (page (entry 1 "started" ∷ []))
        ∷ more (page (entry 1 "started" ∷ entry 2 "stopped" ∷ []))
        ∷ live (entry 3 "again")
        ∷ [])
      init)
run-IsValid_example =
    run-IsValid
      (initial (page (entry 1 "started" ∷ []))
        ∷ more (page (entry 1 "started" ∷ entry 2 "stopped" ∷ []))
        ∷ live (entry 3 "again")
        ∷ [])
      ((tt, tt), (tt, (tt, tt)))
