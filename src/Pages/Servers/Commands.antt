-- ===== src/Pages/Servers/Commands.antt =====
-- frontend/app/admin/server/server-client.tsx: the list's load, and the commands to a worker server.
use emailjachai.Common.{
  ℕ, ◌≤◌, String, ◌≡◌, refl, Bool, true, false, not, ◌||◌, Option, none, some, List, [], ◌∷◌, arith,
  if◌then◌else◌, leb,
}
use emailjachai.Common.Text.{text_or, nullish}
use emailjachai.Stores.Reply.{Reply, replied, rejected}
use emailjachai.Stores.Servers.{ServerNode, ServerStore, set_servers}
use emailjachai.Pages.Servers.{shown_servers}

-- The page with its dialog for one server. The rate is a number of at least zero.
pub record ServersPage : Type 0 where
  pub store : ServerStore
  pub initial_data : List ServerNode
  pub is_loading : Bool
  pub show_add_form : Bool
  pub manage_server : Option ServerNode
  pub warmup_mode : String
  pub warmup_enabled : Bool
  pub warmup_saving : Bool
  pub rate_limit_rpm : ℕ

abbrev pub has_rows : List ServerNode → Bool
has_rows [] = false
has_rows (s ∷ rest) = true

unfoldable pub begin_fetch : Bool → ServersPage → ServersPage
unfolding shown_servers
begin_fetch silent s =
    if not silent || not (has_rows (shown_servers s.store s.initial_data))
    then record s { is_loading = true }
    else s

-- A granted answer without a list empties the store.
unfoldable pub finish_fetch : Reply (List ServerNode) → ServersPage → ServersPage
unfolding set_servers
finish_fetch (replied true rows m) s = record s {
  store = set_servers (nullish rows []) s.store;
  is_loading = false;
}
finish_fetch (replied false rows m) s = record s { is_loading = false }
finish_fetch rejected s = record s { is_loading = false }

-- `onAddServer` and `handleToggleServer` from their answers on: a grant begins a silent load.
unfoldable pub finish_add : {A : Type 0} → Reply A → ServersPage → ServersPage
unfolding begin_fetch
finish_add (replied true body m) s = begin_fetch true (record s { show_add_form = false })
finish_add (replied false body m) s = s
finish_add rejected s = s

unfoldable pub finish_toggle : {A : Type 0} → Reply A → ServersPage → ServersPage
unfolding begin_fetch
finish_toggle (replied true body m) s = begin_fetch true s
finish_toggle (replied false body m) s = s
finish_toggle rejected s = s

-- The dialog opens with the values of its server.
unfoldable pub manage : ServerNode → ServersPage → ServersPage
manage server s = record s {
  manage_server = some server;
  warmup_enabled = nullish server.warmup_enabled true;
  warmup_mode = text_or server.warmup_mode "medium";
  rate_limit_rpm = server.config.rate_limit;
}

-- What the two requests of a save send.
pub record WarmupSave : Type 0 where
  pub id : ℕ
  pub warmup_enabled : Bool
  pub warmup_mode : String
  pub rate_limit : ℕ

-- `handleWarmupSave` up to its requests. The button is disabled while a save is under way.
unfoldable pub begin_warmup_save : ServersPage → Option (WarmupSave × ServersPage)
begin_warmup_save s = elim s.manage_server [
  | none ↦ none
  | some server ↦
      if s.warmup_saving || not (leb s.rate_limit_rpm 1000000)
      then none
      else some (
        record {
          id = server.id;
          warmup_enabled = s.warmup_enabled;
          warmup_mode = s.warmup_mode;
          rate_limit = s.rate_limit_rpm;
        },
        record s { warmup_saving = true },
      )
]

-- `handleWarmupSave` after both answers: only where both requests are granted the dialog closes.
unfoldable pub finish_warmup_save : {A B : Type 0} → Reply A → Reply B → ServersPage → ServersPage
unfolding begin_fetch
finish_warmup_save (replied true a m) (replied true b n) s =
    begin_fetch true (record s { manage_server = none; warmup_saving = false })
finish_warmup_save (replied true a m) (replied false b n) s = record s { warmup_saving = false }
finish_warmup_save (replied false a m) (replied granted b n) s = record s { warmup_saving = false }
finish_warmup_save (replied ok a m) rejected s = record s { warmup_saving = false }
finish_warmup_save rejected b s = record s { warmup_saving = false }

-- Opened for a server that allows at most a million requests a minute, the dialog saves at once what
-- the server has, with the defaults for what it does not say, and sends nothing more until both
-- answers are there.
pub begin_warmup_save-manage :
    (server : ServerNode) (s : ServersPage)
    → s.warmup_saving ≡ false
    → server.config.rate_limit ≤ 1000000
    → (begin_warmup_save (manage server s)
        ≡ some (
          record {
            id = server.id;
            warmup_enabled = nullish server.warmup_enabled true;
            warmup_mode = text_or server.warmup_mode "medium";
            rate_limit = server.config.rate_limit;
          },
          record (manage server s) { warmup_saving = true },
        ))
      × (begin_warmup_save (record (manage server s) { warmup_saving = true }) ≡ none)
unfolding begin_warmup_save manage
begin_warmup_save-manage server s h le =
    let small : leb server.config.rate_limit 1000000 ≡ true = ground arith in
    (rw (h, small) refl, refl)
