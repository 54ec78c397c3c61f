-- ===== src/Socket/Tests.antt =====
-- A connection that is opened, and its loss.
use mathlib.Core.List.{Memᴰ as Mem}
use emailjachai.Common.{◌+◌, ◌≡◌, refl, true, false, none, some, List, length, [], ◌∷◌, ◌⊎◌}
use emailjachai.Socket.{
  connecting, Socket, Conn, answer, init, backoff, run_effect, cleanup, fetch_ws_token,
  resume_connect, on_close, Reach, here, next, rerun, token_arrives,
}
use emailjachai.Socket.Life.{one_connection}
use emailjachai.Socket.Retry.{
  Round, no_answer, bad_status, no_socket, turned_away, outage, outage_lem,
}

abbrev asking : Conn
asking = run_effect true (cleanup init)

abbrev attached : Conn
attached = resume_connect (fetch_ws_token (answer 200 true (some "t"))) true asking

asking-Reach : Reach init asking
asking-Reach = next here (rerun true)

attached-Reach : Reach init attached
unfolding run_effect cleanup init
attached-Reach = next asking-Reach (token_arrives (answer 200 true (some "t")) true refl)

abbrev first : Socket
first = record { id = 0; ready = connecting }

first-Mem : Mem first attached.live
unfolding init cleanup run_effect fetch_ws_token resume_connect
first-Mem = Mem.head refl

one_connection_example :
    (((attached.live ≡ []) × (attached.socket ≡ none))
      ⊎ ((w : Socket) × (attached.live ≡ w ∷ [])
          × (attached.socket ≡ some w.id)
          × (attached.enabled ≡ true)
          × (attached.is_connecting ≡ false)
          × (attached.timer ≡ none)))
    × ((attached.timer ≡ none) ⊎ ((attached.is_connecting ≡ false) × (attached.enabled ≡ true)))
one_connection_example = one_connection attached attached-Reach

-- The server's address is not found, its gateway is broken, and it turns sockets away.
abbrev rounds : List Round
rounds = no_answer ∷ bad_status 502 none ∷ no_socket "t" ∷ turned_away "t" true ∷ []

outage_lem_example :
    Reach init (outage rounds (on_close 0 attached))
    × ((outage rounds (on_close 0 attached)).timer
        ≡ some (backoff (length rounds + attached.attempt)))
outage_lem_example =
    outage_lem rounds attached first attached-Reach first-Mem (tt, (refl, (refl, (refl, tt))))
