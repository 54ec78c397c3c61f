-- ===== src/Realtime/LogFields.antt =====
-- frontend/hooks/use-logs-web-socket.ts: a log from the fields of a socket message.
use Prim.Native.Char.{code}
use Prim.Native.String.{[], ◌∷◌}
use Prim.Native.String
use emailjachai.Common.{
  ℕ, zero, suc, String, Option, none, some, leb, ◌==◌, str_eq, if◌then◌else◌, length,
}
use emailjachai.Common.Text.{codes, includes, show_num}
use emailjachai.Stores.Dashboard.{Field, missing, number, text, other}
use emailjachai.Stores.Logs.{LogEntry}

-- What the browser gives at a message: the time, and the texts of dates. `to_iso` is the ISO text of a
-- date that is read from a text, where there is one; `parse_number` is `Number` of a text that is not
-- empty, which the model takes to be a whole number.
pub record Clock : Type 0 where
  pub now : ℕ
  pub now_iso : String
  pub time_of_day : String
  pub to_iso : String → Option String
  pub parse_number : String → ℕ

pub record WsLog : Type 0 where
  pub id : Field
  pub user_id : Field
  pub level : Field
  pub source : Field
  pub message : Field
  pub ip : Field
  pub created_at : Field
  pub time : Field

unfoldable pub ws_field_string : Field → String → String
ws_field_string missing fallback = fallback
ws_field_string (number n) fallback = show_num n
ws_field_string (text s) fallback = s
ws_field_string (other s) fallback = fallback

unfoldable pub ws_field_number : Clock → Field → ℕ → ℕ
ws_field_number c missing fallback = fallback
ws_field_number c (number n) fallback = n
ws_field_number c (text s) fallback = if str_eq s "" then fallback else c.parse_number s
ws_field_number c (other s) fallback = fallback

-- Null and undefined are both `none`.
unfoldable pub ws_field_optional_number : Clock → Field → Option ℕ
ws_field_optional_number c missing = none
ws_field_optional_number c (number n) = some n
ws_field_optional_number c (text s) = if str_eq s "" then none else some (c.parse_number s)
ws_field_optional_number c (other s) = none

-- `s.replace('T', ' ')`: the first one only.
abbrev pub replace_t : String → String
replace_t String.[] = ""
replace_t (String.◌∷◌ c s) =
    let rest = replace_t s in if code c == b'T' then String.◌++◌ " " s else String.◌∷◌ c rest

-- `s.substring(0, n)`.
abbrev pub substring : ℕ → String → String
substring zero s = ""
substring (suc n) String.[] = ""
substring (suc n) (String.◌∷◌ c s) = String.◌∷◌ c (substring n s)

abbrev pub cut_iso : String → String
cut_iso iso = substring 19 (replace_t iso)

-- A text of fewer than nineteen characters is its own beginning.
abbrev pub cut_text : String → String
cut_text raw = if leb 19 (length (codes raw)) then substring 19 raw else raw

unfoldable pub format_log_time : Clock → String → String
format_log_time c raw =
    if str_eq raw ""
    then cut_iso c.now_iso
    else if includes (codes raw) (codes "T")
    then elim (c.to_iso raw) [ none ↦ cut_text raw | some iso ↦ cut_iso iso ]
    else cut_text raw

abbrev pub or_text : String → String → String
or_text s t = if str_eq s "" then t else s

unfoldable pub format_log : Clock → WsLog → LogEntry
unfolding ws_field_string ws_field_number ws_field_optional_number format_log_time
format_log c d =
    let time =
      format_log_time c (or_text (ws_field_string d.time "") (ws_field_string d.created_at "")) in
    let ip = ws_field_string d.ip "" in
    record {
      id = some (ws_field_number c d.id c.now);
      user_id = ws_field_optional_number c d.user_id;
      level = ws_field_string d.level "INFO";
      source = ws_field_string d.source "System";
      message = ws_field_string d.message "";
      ip = if str_eq ip "" then none else some ip;
      created_at = some time;
      time = some time;
    }
