-- ===== src/Socket/Life.antt =====
-- One connection at a time: what holds in every state that the hook can reach.
use mathlib.Core.List.{Memᴰ as Mem}
use emailjachai.Common.{
  ℕ, ◌≡◌, refl, Bool, true, false, none, some, List, [], ◌∷◌, arith, ◌⊎◌, inl, inr,
}
use emailjachai.Socket.{
  Socket, Conn, TokenResult, thrown, no_token, token, init, fetch_ws_token, resume_connect, on_open,
  on_error, on_close, on_timer, cleanup, run_effect, Step, rerun, unmount, token_arrives, fires,
  opened, failed, closed, Reach, here, next,
}

-- No socket, or one that the ref names, with nothing else pending.
abbrev pub Shape : Conn → Type 0
Shape s =
    ((s.live ≡ []) × (s.socket ≡ none))
    ⊎ ((w : Socket) × (s.live ≡ w ∷ [])
        × (s.socket ≡ some w.id)
        × (s.enabled ≡ true)
        × (s.is_connecting ≡ false)
        × (s.timer ≡ none))

-- A timer runs only while the hook is enabled and no token is asked for.
abbrev pub Pending : Conn → Type 0
Pending s = (s.timer ≡ none) ⊎ ((s.is_connecting ≡ false) × (s.enabled ≡ true))

pub record Inv (s : Conn) : Type 0 where
  pub shape : Shape s
  pub pending : Pending s

-- No socket is attached and no timer runs.
abbrev IsQuiet : Conn → Type 0
IsQuiet s = (s.live ≡ []) × (s.socket ≡ none) × (s.timer ≡ none)

not-mem : {w : Socket} (xs : List Socket) → xs ≡ [] → Mem w xs → ⊥
not-mem [] e m = elim m [ ]
not-mem (x ∷ xs) e m = cc

only : {w x : Socket} (xs : List Socket) → xs ≡ x ∷ [] → Mem w xs → w ≡ x
only [] e m = cc
only (y ∷ ys) e (Mem.head h) = ground arith
only (y ∷ ys) e (Mem.tail m) = absurd (not-mem ys (ground arith) m)

-- An attached socket is the only one.
pub Mem-shape :
    (s : Conn) (w : Socket)
    → Inv s
    → Mem w s.live
    → (s.live ≡ w ∷ []) × (s.socket ≡ some w.id) × (s.enabled ≡ true) × (s.timer ≡ none)
Mem-shape s w v m = elim (v.shape) [
  | inl (l, _) ↦ absurd (not-mem s.live l m)
  | inr (x, l, r, e, c, t) ↦ let same = only s.live l m in ground arith
]

cleanup-IsQuiet : (s : Conn) → Inv s → IsQuiet (cleanup s)
unfolding cleanup
cleanup-IsQuiet s v = ground arith

on_timer-Inv : (s : Conn) (d : ℕ) → Inv s → s.timer ≡ some d → Inv (on_timer s)
unfolding on_timer
on_timer-Inv s d v h = ground arith

run_effect-Inv : (b : Bool) (s : Conn) → IsQuiet s → Inv (run_effect b s)
unfolding run_effect
run_effect-Inv true s q = ground arith
run_effect-Inv false s q = ground arith

resume_connect-Inv :
    (r : TokenResult) (made : Bool) (s : Conn)
    → Inv s
    → s.is_connecting ≡ true
    → Inv (resume_connect r made s)
unfolding resume_connect
resume_connect-Inv thrown made s v h = ground arith
resume_connect-Inv no_token made s v h = ground arith
resume_connect-Inv (token t) made s v h = ground arith

on_open-Inv : (i : ℕ) (s : Conn) → Inv s → Inv (on_open i s)
unfolding on_open
on_open-Inv i s v = ground arith

on_error-Inv : (i : ℕ) (s : Conn) → Inv s → Inv (on_error i s)
unfolding on_error
on_error-Inv i s v = ground arith

on_close-Inv :
    (i : ℕ) (s : Conn) (w : Socket) → Inv s → Mem w s.live → w.id ≡ i → Inv (on_close i s)
unfolding on_close
on_close-Inv i s w v m e = ground (arith, Mem-shape s w v m)

Step-Inv : {s t : Conn} → Step s t → Inv s → Inv t
Step-Inv {s} (rerun enable) v = run_effect-Inv enable (cleanup s) (cleanup-IsQuiet s v)
Step-Inv {s} unmount v =
    let (l, r, t) = cleanup-IsQuiet s v in record { shape = inl (l, r); pending = inl t }
Step-Inv {s} (token_arrives r made h) v = resume_connect-Inv (fetch_ws_token r) made s v h
Step-Inv {s} (fires d h) v = on_timer-Inv s d v h
Step-Inv {s} (opened w m) v = on_open-Inv w.id s v
Step-Inv {s} (failed w m) v = on_error-Inv w.id s v
Step-Inv {s} (closed w m) v = on_close-Inv w.id s w v m refl

pub Reach-Inv : {s : Conn} → Reach init s → Inv s
unfolding init
Reach-Inv here = record { shape = inl (refl, refl); pending = inl refl }
Reach-Inv (next r st) = Step-Inv st (Reach-Inv r)

-- In every state that the hook can reach, either no socket is attached and the ref names none, or
-- exactly one is, it is the one that the ref names, the hook is enabled, no token is asked for and no
-- retry is pending; and a retry is pending only while the hook is enabled and no token is asked for.
pub one_connection :
    (s : Conn)
    → Reach init s
    → (((s.live ≡ []) × (s.socket ≡ none))
        ⊎ ((w : Socket) × (s.live ≡ w ∷ [])
            × (s.socket ≡ some w.id)
            × (s.enabled ≡ true)
            × (s.is_connecting ≡ false)
            × (s.timer ≡ none)))
      × ((s.timer ≡ none) ⊎ ((s.is_connecting ≡ false) × (s.enabled ≡ true)))
one_connection s r = let v = Reach-Inv r in (v.shape, v.pending)
