-- ===== src/Socket/Retry.antt =====
-- A lost connection is retried, for as long as it takes.
use mathlib.Core.List.{Memᴰ as Mem}
use emailjachai.Common.{
  ℕ, suc, ◌+◌, ◌≡◌, refl, sym, subst, String, Bool, true, false, not, if◌then◌else◌, Option, none,
  some, arith, List, [], ◌∷◌, length, ◌==◌, str_eq,
}
use emailjachai.Socket.{
  Socket, connecting, closing, set_ready, Conn, TokenReply, TokenResult, no_token, unreachable,
  answer, thrown, token, init, backoff, fetch_ws_token, resume_connect, on_close, on_error,
  on_timer, Reach, here, next, fires, token_arrives, failed, closed,
}
use emailjachai.Socket.Life.{Inv, Mem-shape, Reach-Inv}

-- A socket of a reachable state that closes leaves a retry pending after the delay of the current
-- attempt, and counts it.
pub retry_after_close :
    (s : Conn) (w : Socket)
    → Reach init s
    → Mem w s.live
    → ((on_close w.id s).timer ≡ some (backoff s.attempt))
      × ((on_close w.id s).attempt ≡ s.attempt + 1)
unfolding on_close
retry_after_close s w r m =
    let (l, so, en, t) = Mem-shape s w (Reach-Inv r) m in (ground arith, ground arith)

-- Whether the request for a token, or the socket made with it, fails in a way that is retried.
abbrev pub fails : TokenResult → Bool → Bool
fails thrown made = true
fails no_token made = false
fails (token t) made = not made

answer_lem :
    (r : TokenResult) (made : Bool) (s : Conn)
    → Inv s
    → s.enabled ≡ true
    → s.is_connecting ≡ true
    → ((resume_connect r made s).timer ≡ (if fails r made then some (backoff s.attempt) else none))
      × ((resume_connect r made s).attempt ≡ (if fails r made then s.attempt + 1 else s.attempt))
      × ((resume_connect r made s).is_connecting ≡ false)
unfolding resume_connect
answer_lem thrown made s v e c =
    (ground (arith, v.pending), ground (arith, v.pending), ground (arith, v.pending))
answer_lem no_token made s v e c =
    (ground (arith, v.pending), ground (arith, v.pending), ground (arith, v.pending))
answer_lem (token t) made s v e c =
    (ground (arith, v.pending), ground (arith, v.pending), ground (arith, v.pending))

-- What an answer leaves of a connection that is under way while the hook is enabled: a request that
-- fails, or a socket that cannot be made, leaves a retry pending after the delay of the current attempt
-- and counts it; after an answer with no token (a 401 among them) and after a socket that was made no
-- retry is pending and the count stays. In every case the next connection may begin.
pub retry_after_answer :
    (s : Conn) (r : TokenReply) (made : Bool)
    → Reach init s
    → s.enabled ≡ true
    → s.is_connecting ≡ true
    → ((resume_connect (fetch_ws_token r) made s).timer
        ≡ (if fails (fetch_ws_token r) made then some (backoff s.attempt) else none))
      × ((resume_connect (fetch_ws_token r) made s).attempt
          ≡ (if fails (fetch_ws_token r) made then s.attempt + 1 else s.attempt))
      × ((resume_connect (fetch_ws_token r) made s).is_connecting ≡ false)
retry_after_answer s r made reach e c = answer_lem (fetch_ws_token r) made s (Reach-Inv reach) e c

-- A round of an outage, from the timer on: the request for a token gets no answer, or an answer with a
-- status of failure; or there is a token, and the socket cannot be made, or it closes before it opened,
-- after an error event or without one.
pub data Round : Type 0 where
  no_answer : Round
  bad_status : (status : ℕ) (t : Option String) → Round
  no_socket : (t : String) → Round
  turned_away : (t : String) (has_error : Bool) → Round

-- A status of failure is not 401, which stands for no session, and a token is not empty.
abbrev pub IsLost : Round → Type 0
IsLost no_answer = Unit
IsLost (bad_status status t) = status == 401 ≡ false
IsLost (no_socket t) = str_eq t "" ≡ false
IsLost (turned_away t has_error) = str_eq t "" ≡ false

abbrev pub AllLost : List Round → Type 0
AllLost [] = Unit
AllLost (x ∷ xs) = IsLost x × AllLost xs

-- The socket that was made last closes.
abbrev pub close_last : Bool → ℕ → Conn → Conn
close_last true i s = on_close i (on_error i s)
close_last false i s = on_close i s

unfoldable pub play : Round → Conn → Conn
play no_answer s = resume_connect (fetch_ws_token unreachable) true (on_timer s)
play (bad_status status t) s =
    resume_connect (fetch_ws_token (answer status false t)) true (on_timer s)
play (no_socket t) s = resume_connect (fetch_ws_token (answer 200 true (some t))) false (on_timer s)
play (turned_away t has_error) s =
    close_last has_error s.next_id
      (resume_connect (fetch_ws_token (answer 200 true (some t))) true (on_timer s))

unfoldable pub outage : List Round → Conn → Conn
unfolding play
outage [] s = s
outage (x ∷ xs) s = outage xs (play x s)

record IsWaiting (s : Conn) (n : ℕ) : Type 0 where
  enabled : s.enabled ≡ true
  quiet : s.is_connecting ≡ false
  socket : s.socket ≡ none
  timer : s.timer ≡ some (backoff n)
  counted : s.attempt ≡ suc n

play-IsWaiting :
    (x : Round) (s : Conn) (n : ℕ) → IsLost x → IsWaiting s n → IsWaiting (play x s) (suc n)
unfolding play resume_connect fetch_ws_token on_timer on_close on_error
play-IsWaiting no_answer s n h w = ground arith
play-IsWaiting (bad_status status t) s n h w = ground arith
play-IsWaiting (no_socket t) s n h w = ground arith
play-IsWaiting (turned_away t true) s n h w = ground arith
play-IsWaiting (turned_away t false) s n h w = ground arith

-- The socket that a token leads to, and after its error event.
attached_live :
    (t : String) (s : Conn) (n : ℕ)
    → str_eq t "" ≡ false
    → IsWaiting s n
    → (resume_connect (fetch_ws_token (answer 200 true (some t))) true (on_timer s)).live
      ≡ record { id = s.next_id; ready = connecting } ∷ s.live
unfolding resume_connect fetch_ws_token on_timer
attached_live t s n h w = ground arith

itself : (i : ℕ) → i == i ≡ true
itself i = ground arith

Mem-first : (w : Socket) (ws us : List Socket) → us ≡ w ∷ ws → Mem w us
Mem-first w ws us e = subst (Mem w) (sym e) (Mem.head refl)

failed_live :
    (i : ℕ) (ws : List Socket) (u : Conn)
    → u.live ≡ record { id = i; ready = connecting } ∷ ws
    → Mem (record { id = i; ready = closing }) (on_error i u).live
unfolding on_error
failed_live i ws u e =
    subst (λ l. Mem (record { id = i; ready = closing }) (set_ready i closing l)) (sym e)
      (Mem-first _ (set_ready i closing ws) _ (rw (itself i) refl))

under_way : (s : Conn) (n : ℕ) → IsWaiting s n → (on_timer s).is_connecting ≡ true
unfolding on_timer
under_way s n w = ground arith

asked_Reach :
    (r : TokenReply) (made : Bool) (s : Conn) (n : ℕ)
    → IsWaiting s n
    → Reach s (resume_connect (fetch_ws_token r) made (on_timer s))
asked_Reach r made s n w =
    next (next here (fires (backoff n) w.timer)) (token_arrives r made (under_way s n w))

-- A round is a course of steps.
play-Reach : (x : Round) (s : Conn) (n : ℕ) → IsLost x → IsWaiting s n → Reach s (play x s)
unfolding play
play-Reach no_answer s n h w = asked_Reach unreachable true s n w
play-Reach (bad_status status t) s n h w = asked_Reach (answer status false t) true s n w
play-Reach (no_socket t) s n h w = asked_Reach (answer 200 true (some t)) false s n w
play-Reach (turned_away t false) s n h w =
    next (asked_Reach (answer 200 true (some t)) true s n w) (
      closed (record { id = s.next_id; ready = connecting })
        (Mem-first _ s.live _ (attached_live t s n h w)))
play-Reach (turned_away t true) s n h w =
    next
      (next (asked_Reach (answer 200 true (some t)) true s n w) (
        failed (record { id = s.next_id; ready = connecting })
          (Mem-first _ s.live _ (attached_live t s n h w))))
      (closed (record { id = s.next_id; ready = closing })
        (failed_live s.next_id s.live _ (attached_live t s n h w)))

outage_from :
    (xs : List Round) (k : ℕ) (s : Conn)
    → AllLost xs
    → IsWaiting s k
    → IsWaiting (outage xs s) (length xs + k)
unfolding outage
outage_from [] k s h w = subst (IsWaiting s) (omega arith) w
outage_from (x ∷ xs) k s (l, h) w =
    subst (IsWaiting (outage (x ∷ xs) s)) (omega arith)
      (outage_from xs (suc k) (play x s) h (play-IsWaiting x s k l w))

IsWaiting-after_close :
    (s : Conn) (w : Socket) → Inv s → Mem w s.live → IsWaiting (on_close w.id s) s.attempt
unfolding on_close
IsWaiting-after_close s w v m = ground (arith, Mem-shape s w v m, v.shape)

Reach-trans : {s t u : Conn} → Reach s t → Reach t u → Reach s u
Reach-trans r here = r
Reach-trans r (next q st) = next (Reach-trans r q) st

outage-Reach :
    (xs : List Round) (k : ℕ) (s : Conn) → AllLost xs → IsWaiting s k → Reach s (outage xs s)
unfolding outage
outage-Reach [] k s h w = here
outage-Reach (x ∷ xs) k s (l, h) w =
    Reach-trans (play-Reach x s k l w)
      (outage-Reach xs (suc k) (play x s) h (play-IsWaiting x s k l w))

-- After a socket of a reachable state closes, any number of rounds is a course of steps that leaves a
-- retry pending, with the delay that belongs to as many more attempts, where in each round the request
-- for a token gets no answer or one with a status of failure other than 401, or a token comes and the
-- socket cannot be made or closes before it opened.
pub outage_lem :
    (xs : List Round) (s : Conn) (w : Socket)
    → Reach init s
    → Mem w s.live
    → AllLost xs
    → Reach init (outage xs (on_close w.id s))
      × ((outage xs (on_close w.id s)).timer ≡ some (backoff (length xs + s.attempt)))
outage_lem xs s w r m h =
    let v = IsWaiting-after_close s w (Reach-Inv r) m in
    (
      Reach-trans (next r (closed w m)) (outage-Reach xs s.attempt (on_close w.id s) h v),
      (outage_from xs s.attempt (on_close w.id s) h v).timer,
    )
