-- ===== src/Socket.antt =====
-- frontend/hooks/use-socket.ts: the one realtime connection of the page as a state machine. The refs of
-- the hook are the fields of `Conn`; what the browser and the server do are its steps. The code runs
-- in the browser (`typeof window` is defined).
pub mod Backoff
pub mod Life
pub mod Retry
mod Tests
use Prim.Native.Nat.{min}
use mathlib.Core.List.{Memᴰ as Mem}
use emailjachai.Common.{
  ℕ, ◌+◌, ◌*◌, ◌^◌, String, Bool, true, false, not, ◌&&◌, ◌||◌, Option, none, some, List, [], ◌∷◌,
  ◌==◌, ◌≡◌, str_eq, if◌then◌else◌, filter, map, find,
}
use emailjachai.Common.Text.{◌&◌, codes, trim, starts_with}

pub data ReadyState : Type 0 where
  connecting open_state closing : ReadyState

-- A socket whose `onclose` is attached and has not fired yet.
pub record Socket : Type 0 where
  pub id : ℕ
  pub ready : ReadyState

pub record Conn : Type 0 where
  pub is_connected : Bool
  -- `socketRef`, by the socket's id.
  pub socket : Option ℕ
  -- `reconnectTimeoutRef`, by the delay of the pending timer.
  pub timer : Option ℕ
  pub attempt : ℕ
  pub is_connecting : Bool
  pub enabled : Bool
  -- All attached sockets, whether or not the ref still names them.
  pub live : List Socket
  pub next_id : ℕ

-- `enabled` is false until the effect runs.
unfoldable pub init : Conn
init = record {
  is_connected = false;
  socket = none;
  timer = none;
  attempt = 0;
  is_connecting = false;
  enabled = false;
  live = [];
  next_id = 0;
}

unfoldable pub clear_reconnect_timer : Conn → Conn
clear_reconnect_timer s = record s { timer = none }

unfoldable pub backoff : ℕ → ℕ
backoff n = min 30000 (1000 * 2 ^ n)

abbrev pub is_set : Option ℕ → Bool
is_set none = false
is_set (some d) = true

unfoldable pub schedule_reconnect : Conn → Conn
schedule_reconnect s =
    if not s.enabled || is_set s.timer
    then s
    else record s { timer = some (backoff s.attempt); attempt = s.attempt + 1 }

abbrev pub is_busy : ReadyState → Bool
is_busy connecting = true
is_busy open_state = true
is_busy closing = false

-- `socketRef.current?.readyState` is OPEN or CONNECTING; a socket that is not attached has closed.
abbrev pub busy_in : List Socket → Option ℕ → Bool
busy_in ws none = false
busy_in ws (some i) = elim (find (λ w. w.id == i) ws) [ none ↦ false | some w ↦ is_busy w.ready ]

-- `connect` up to the request for a token; where it returns at once the state is left.
unfoldable pub begin_connect : Conn → Conn
begin_connect s =
    if not s.enabled || s.is_connecting || busy_in s.live s.socket
    then s
    else record s { is_connecting = true }

-- The answer of /next-api/auth/ws-token: no answer (or no JSON), or its status, `res.ok`, and the
-- token of a body with status success.
pub data TokenReply : Type 0 where
  unreachable : TokenReply
  answer : (status : ℕ) (is_ok : Bool) (token : Option String) → TokenReply

pub data TokenResult : Type 0 where
  thrown : TokenResult
  no_token : TokenResult
  token : String → TokenResult

abbrev pub truthy_token : Option String → TokenResult
truthy_token none = no_token
truthy_token (some t) = if str_eq t "" then no_token else token t

unfoldable pub fetch_ws_token : TokenReply → TokenResult
fetch_ws_token unreachable = thrown
fetch_ws_token (answer status is_ok t) =
    if status == 401 then no_token else if not is_ok then thrown else truthy_token t

-- `new WebSocket(…)` and `socketRef.current = ws`.
abbrev pub attach : Conn → Conn
attach s = record s {
  socket = some s.next_id;
  live = record { id = s.next_id; ready = connecting } ∷ s.live;
  next_id = s.next_id + 1;
}

-- `connect` from the token on; `made` says whether the WebSocket constructor succeeds.
unfoldable pub resume_connect : TokenResult → Bool → Conn → Conn
unfolding schedule_reconnect
resume_connect thrown made s = record (schedule_reconnect s) { is_connecting = false }
resume_connect no_token made s =
    if not s.enabled
    then record s { is_connecting = false }
    else record s { is_connected = false; is_connecting = false }
resume_connect (token t) made s =
    if not s.enabled
    then record s { is_connecting = false }
    else if made
    then record (attach s) { is_connecting = false }
    else record (schedule_reconnect s) { is_connecting = false }

abbrev pub set_ready : ℕ → ReadyState → List Socket → List Socket
set_ready i r = map (λ w. if w.id == i then record w { ready = r } else w)

abbrev pub without : ℕ → List Socket → List Socket
without i = filter (λ w. not (w.id == i))

unfoldable pub on_open : ℕ → Conn → Conn
unfolding clear_reconnect_timer
on_open i s =
    clear_reconnect_timer
      (record s { live = set_ready i open_state s.live; is_connected = true; attempt = 0 })

-- `onerror` closes the socket; its close event comes later.
unfoldable pub on_error : ℕ → Conn → Conn
on_error i s = record s { live = set_ready i closing s.live }

abbrev pub unref : ℕ → Option ℕ → Option ℕ
unref i none = none
unref i (some j) = if j == i then none else some j

unfoldable pub on_close : ℕ → Conn → Conn
unfolding schedule_reconnect
on_close i s =
    schedule_reconnect
      (record s { is_connected = false; socket = unref i s.socket; live = without i s.live })

unfoldable pub on_timer : Conn → Conn
unfolding begin_connect
on_timer s = begin_connect (record s { timer = none })

-- `onclose = null`, `close(…)` and `socketRef.current = null`.
abbrev pub drop_socket : Conn → Conn
drop_socket s = elim s.socket [
  | none ↦ s
  | some i ↦ record s { socket = none; live = without i s.live }
]

-- The function that the effect returns.
unfoldable pub cleanup : Conn → Conn
unfolding clear_reconnect_timer
cleanup s = drop_socket (clear_reconnect_timer (record s { enabled = false }))

-- The effect's body for each value of `enabled`.
unfoldable pub run_effect : Bool → Conn → Conn
unfolding begin_connect clear_reconnect_timer
run_effect true s = begin_connect (record s { enabled = true })
run_effect false s = record (drop_socket (clear_reconnect_timer (record s { enabled = false }))) {
  is_connected = false;
}

-- `sendMessage`: whether the text goes out.
abbrev pub is_open_state : ReadyState → Bool
is_open_state connecting = false
is_open_state open_state = true
is_open_state closing = false

unfoldable pub can_send : Conn → Bool
can_send s = elim s.socket [
  | none ↦ false
  | some i ↦ elim (find (λ w. w.id == i) s.live) [ none ↦ false | some w ↦ is_open_state w.ready ]
]

-- What can happen next: the hook's effect is cleaned up and perhaps run again, a pending request or
-- timer ends, or the browser reports an event of an attached socket.
pub data Step (s : Conn) : Conn → Type 0 where
  rerun : (enable : Bool) → Step s (run_effect enable (cleanup s))
  unmount : Step s (cleanup s)
  token_arrives :
      (r : TokenReply) (made : Bool)
      → s.is_connecting ≡ true
      → Step s (resume_connect (fetch_ws_token r) made s)
  fires : (d : ℕ) → s.timer ≡ some d → Step s (on_timer s)
  opened : (w : Socket) → Mem w s.live → Step s (on_open w.id s)
  failed : (w : Socket) → Mem w s.live → Step s (on_error w.id s)
  closed : (w : Socket) → Mem w s.live → Step s (on_close w.id s)

pub data Reach (s : Conn) : Conn → Type 0 where
  here : Reach s s
  next : {t u : Conn} → Reach s t → Step t u → Reach s u
