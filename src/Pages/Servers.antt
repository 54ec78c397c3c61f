-- ===== src/Pages/Servers.antt =====
-- frontend/app/admin/server/server-client.tsx: the worker servers, their display, and the worker key.
pub mod Commands
pub mod Laws
use emailjachai.Common.{
  ℕ, suc, zero, ◌+◌, ◌≤◌, String, ◌≡◌, refl, ap, sym, subst, ◌∙◌, Bool, true, false, not, ◌||◌,
  ◌&&◌, Option, none, some, List, [], ◌∷◌, arith, if◌then◌else◌, str_eq, filter, length, Bool-cases,
  inl, inr, leb, ltb, eq_iff,
}
use emailjachai.Common.Text.{
  ◌&◌, codes, includes, starts_with, to_lower, trim, text_or, nullish, confirms,
}
use emailjachai.Stores.Servers.{
  ServerNode, ServerStore, WorkerHeartbeatPayload, set_servers, beat, stays_active,
}
use emailjachai.Stores.Reply.{Reply, replied, rejected}

pub data DisplayStatus : Type 0 where
  active warmup offline inactive : DisplayStatus

unfoldable pub is_warmup_in_progress : ServerNode → Bool
is_warmup_in_progress server =
    let stage = to_lower (text_or server.warmup_stage "") in
    if not (nullish server.warmup_enabled false)
    then false
    else not (starts_with stage (codes "completed") || starts_with stage (codes "disabled"))

unfoldable pub resolve_display_status : ServerNode → DisplayStatus
unfolding is_warmup_in_progress
resolve_display_status server =
    if str_eq server.status "disabled" || not server.config.enabled
    then inactive
    else if str_eq server.status "offline"
    then offline
    else if str_eq server.status "active" && is_warmup_in_progress server
    then warmup
    else if str_eq server.status "active"
    then active
    else offline

pub record StatusCounts : Type 0 where
  pub active : ℕ
  pub warmup : ℕ
  pub offline : ℕ
  pub inactive : ℕ

abbrev pub count_one : DisplayStatus → StatusCounts → StatusCounts
count_one active c = record c { active = c.active + 1 }
count_one warmup c = record c { warmup = c.warmup + 1 }
count_one offline c = record c { offline = c.offline + 1 }
count_one inactive c = record c { inactive = c.inactive + 1 }

-- The loop of `statusCounts`, from counters that were begun.
unfoldable pub count_from : StatusCounts → List ServerNode → StatusCounts
unfolding resolve_display_status
count_from c [] = c
count_from c (s ∷ rest) = count_from (count_one (resolve_display_status s) c) rest

unfoldable pub status_counts : List ServerNode → StatusCounts
unfolding count_from
status_counts xs = count_from (record { active = 0; warmup = 0; offline = 0; inactive = 0 }) xs

unfoldable pub haystack : ServerNode → String
haystack s =
    s.name
    & " "
    & s.address
    & " "
    & (s.address & ":" & s.port)
    & " "
    & s.status
    & " "
    & s.current_job
    & " "
    & s.ip_reputation

unfoldable pub filtered_servers : String → List ServerNode → List ServerNode
unfolding haystack trim
filtered_servers search_term servers =
    if str_eq (trim search_term) ""
    then servers
    else filter (λ s. includes (to_lower (haystack s)) (to_lower (trim search_term))) servers

pub data PasswordModal : Type 0 where
  reveal rotate : PasswordModal

-- The part of the page's state that has to do with the worker key.
pub record KeyPanel : Type 0 where
  pub worker_key : String
  pub is_key_loading : Bool
  pub copied : Bool
  pub show_api_key : Bool
  pub password_modal : Option PasswordModal

unfoldable pub init_panel : KeyPanel
init_panel = record {
  worker_key = "";
  is_key_loading = false;
  copied = false;
  show_api_key = false;
  password_modal = none;
}

-- `onPasswordAction` up to its request, with the password that is sent, and from its reply on, with the
-- modal it was called in.
unfoldable pub begin_password_action : KeyPanel → Option (PasswordModal × KeyPanel)
begin_password_action s = elim s.password_modal [
  | none ↦ none
  | some m ↦ some (m, record s { is_key_loading = true })
]

abbrev pub granted_key : Option (Option String) → String
granted_key body = text_or (nullish body none) ""

unfoldable pub finish_password_action : PasswordModal → Reply (Option String) → KeyPanel → KeyPanel
finish_password_action reveal (replied true body m) s = record s {
  is_key_loading = false;
  worker_key = granted_key body;
  show_api_key = true;
  password_modal = none;
}
finish_password_action rotate (replied true body m) s = record s {
  is_key_loading = false;
  worker_key = granted_key body;
  show_api_key = true;
  password_modal = none;
  copied = false;
}
finish_password_action a (replied false body m) s = record s { is_key_loading = false }
finish_password_action a rejected s = record s { is_key_loading = false }

unfoldable pub toggle_reveal : KeyPanel → KeyPanel
toggle_reveal s =
    if s.show_api_key
    then record s { show_api_key = false }
    else if not (str_eq s.worker_key "")
    then record s { show_api_key = true }
    else record s { password_modal = some reveal }

-- The text that is written to the clipboard, where one is; `allowed` tells what the browser says.
unfoldable pub copy_to_clipboard : Bool → KeyPanel → KeyPanel × Option String
copy_to_clipboard allowed s =
    if str_eq s.worker_key ""
    then (record s { password_modal = some reveal }, none)
    else if allowed
    then (record s { copied = true }, some s.worker_key)
    else (s, none)

unfoldable pub open_modal : Option PasswordModal → KeyPanel → KeyPanel
open_modal m s = record s { password_modal = m }

-- The server that is managed, and the text that confirms its removal.
pub record Managed : Type 0 where
  pub manage_server : Option ServerNode
  pub delete_confirm_text : String

-- `doDeleteServer` up to its request, which names the server.
unfoldable pub do_delete_server : Managed → Option (ℕ × Managed)
unfolding confirms
do_delete_server s = elim s.manage_server [
  | none ↦ none
  | some server ↦
      if confirms "DELETE" s.delete_confirm_text
      then some (server.id, record { manage_server = none; delete_confirm_text = "" })
      else none
]

-- The rows that are shown: those of the store, or those the server rendered while the store has none.
unfoldable pub shown_servers : ServerStore → List ServerNode → List ServerNode
shown_servers store initial = elim store.servers [ [] ↦ initial | s ∷ rest ↦ s ∷ rest ]
