-- ===== src/Stores/Servers.antt =====
-- frontend/stores/server-store.ts: the worker servers, and the heartbeats that change them.
pub mod Laws
use emailjachai.Common.{
  ℕ, String, Bool, true, false, not, Option, none, some, List, [], map, str_eq, if◌then◌else◌,
}
use emailjachai.Common.Text.{trim, text_or, nullish}

-- `ServerNode` of frontend/app/admin/server/server-client.tsx.
pub record Config : Type 0 where
  pub rate_limit : ℕ
  pub chunk_size : ℕ
  pub enabled : Bool

pub record ServerNode : Type 0 where
  pub id : ℕ
  pub name : String
  pub address : String
  pub port : String
  pub status : String
  pub ping : String
  pub running_time : String
  pub emails_verified : ℕ
  pub emails_verified_today : Option ℕ
  pub current_job : String
  pub ip_reputation : String
  pub worker_count : ℕ
  pub warmup_enabled : Option Bool
  pub warmup_mode : Option String
  pub warmup_stage : Option String
  pub config : Config

pub record WorkerHeartbeatPayload : Type 0 where
  pub server_name : Option String
  pub ip_address : Option String
  pub status : Option String
  pub enabled : Option Bool
  pub worker_count : Option ℕ
  pub last_ping : Option String

pub record ServerStore : Type 0 where
  pub servers : List ServerNode

unfoldable pub init : ServerStore
init = record { servers = [] }

unfoldable pub set_servers : List ServerNode → ServerStore → ServerStore
set_servers servers s = record { servers = servers }

abbrev pub says_disabled : Option String → Bool
says_disabled none = false
says_disabled (some st) = str_eq st "disabled"

-- Whether a heartbeat leaves the server active.
abbrev pub stays_active : WorkerHeartbeatPayload → ServerNode → Bool
stays_active p server =
    if nullish p.enabled server.config.enabled then not (says_disabled p.status) else false

unfoldable pub beat : WorkerHeartbeatPayload → ServerNode → ServerNode
beat p server = record server {
  address = text_or p.ip_address server.address;
  status = if stays_active p server then "active" else "disabled";
  ping = if stays_active p server then "live" else "--";
  running_time = if stays_active p server then "Just now" else server.running_time;
  worker_count = nullish p.worker_count server.worker_count;
  config = record (server.config) { enabled = nullish p.enabled server.config.enabled };
}

unfoldable pub apply_worker_heartbeat : WorkerHeartbeatPayload → ServerStore → ServerStore
unfolding beat trim
apply_worker_heartbeat p s =
    let name = trim (text_or p.server_name "") in
    if str_eq name "" then s else record {
      servers = map (λ server. if str_eq server.name name then beat p server else server) s.servers;
    }
