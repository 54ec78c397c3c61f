-- ===== src/Stores/Logs.antt =====
-- frontend/stores/logs-store.ts: the buffer of system logs in the admin panel.
pub mod Laws
mod Tests
use emailjachai.Common.{
  ℕ, zero, suc, ◌+◌, String, ◌≡◌, Bool, true, false, Option, none, some, List, [], ◌∷◌, ◌++◌, map,
  leb, str_eq, if◌then◌else◌, length, take, any,
}
use emailjachai.Common.Text.{◌&◌, show_num, text_or}

-- `LogEntry` of frontend/app/admin/logs/logs-client.tsx; a field that is null or absent is `none`.
pub record LogEntry : Type 0 where
  pub id : Option ℕ
  pub user_id : Option ℕ
  pub level : String
  pub source : String
  pub message : String
  pub ip : Option String
  pub created_at : Option String
  pub time : Option String

pub record LogsStore : Type 0 where
  pub logs : List LogEntry
  pub total : ℕ
  pub has_more : Bool
  pub next_before_id : Option ℕ
  pub next_before_created_at : Option String

abbrev pub max_buffer : ℕ
max_buffer = 500

unfoldable pub log_key : LogEntry → String
log_key log = elim log.id [
  | some n ↦ "id:" & show_num n
  | none ↦
      text_or log.created_at (text_or log.time "")
      & ":"
      & log.level
      & ":"
      & log.source
      & ":"
      & log.message
]

unfoldable pub init : LogsStore
init = record {
  logs = [];
  total = 0;
  has_more = true;
  next_before_id = none;
  next_before_created_at = none;
}

-- What the server sends with a page: `setInitial` and `appendLogs` take the same arguments.
pub record Page : Type 0 where
  pub logs : List LogEntry
  pub total : ℕ
  pub has_more : Bool
  pub next_before_id : Option ℕ
  pub next_before_created_at : Option String

unfoldable pub set_initial : Page → LogsStore → LogsStore
set_initial p s = record {
  logs = take max_buffer p.logs;
  total = p.total;
  has_more = p.has_more;
  next_before_id = p.next_before_id;
  next_before_created_at = p.next_before_created_at;
}

-- The filter of `appendLogs` with its growing set of seen keys.
unfoldable pub unique_logs : List String → List LogEntry → List LogEntry
unique_logs seen [] = []
unique_logs seen (log ∷ rest) =
    let skipped = unique_logs seen rest in
    let kept = log ∷ unique_logs (log_key log ∷ seen) rest in
    if any (str_eq (log_key log)) seen then skipped else kept

unfoldable pub append_logs : Page → LogsStore → LogsStore
append_logs p s =
    let unique = unique_logs (map log_key s.logs) p.logs in
    record {
      logs = take max_buffer (s.logs ++ unique);
      total = p.total;
      has_more = if leb max_buffer (length s.logs + length unique) then false else p.has_more;
      next_before_id = p.next_before_id;
      next_before_created_at = p.next_before_created_at;
    }

unfoldable pub add_live_log : LogEntry → LogsStore → LogsStore
add_live_log log s =
    if any (λ existing. str_eq (log_key existing) (log_key log)) s.logs
    then s
    else record s { logs = take max_buffer (log ∷ s.logs); total = s.total + 1 }

unfoldable pub clear_logs : LogsStore → LogsStore
clear_logs s = record {
  logs = [];
  total = 0;
  has_more = false;
  next_before_id = none;
  next_before_created_at = none;
}

-- A call of one of the store's actions.
pub data Action : Type 0 where
  initial more : Page → Action
  live : LogEntry → Action
  clear : Action

unfoldable pub step : Action → LogsStore → LogsStore
unfolding set_initial append_logs add_live_log clear_logs
step (initial p) s = set_initial p s
step (more p) s = append_logs p s
step (live log) s = add_live_log log s
step clear s = clear_logs s

unfoldable pub run : List Action → LogsStore → LogsStore
run [] s = s
run (a ∷ rest) s = run rest (step a s)
