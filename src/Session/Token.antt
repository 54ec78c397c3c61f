-- ===== src/Session/Token.antt =====
-- A token scheme that meets the laws of `Jwt`, so that they can be met: the numbers are written in unary
-- in front of the role.
use Prim.Native.Char.{code}
use Prim.Native.String.{String, [], ◌∷◌}
use emailjachai.Common.{
  ℕ, zero, suc, ◌+◌, ◌<◌, ◌≤◌, ◌≡◌, ◌≢◌, refl, ◌∙◌, Option, none, some, [], ◌∷◌, arith, ltb, ◌==◌,
  if◌then◌else◌,
}
use emailjachai.Session.{Claims, session, websocket, role_of, Jwt}
use text.Mathlib.TextLemmas.{cons≢nil}

unfoldable pub write : ℕ → String → String
write zero s = "." ∷ s
write (suc n) s = "1" ∷ write n s

unfoldable pub read_on : Option (ℕ × String) → Option (ℕ × String)
read_on none = none
read_on (some (n, s)) = some (suc n, s)

unfoldable pub scan : String → Option (ℕ × String)
scan [] = none
scan (c ∷ s) = let rest = scan s in if code c == b'1' then read_on rest else some (0, s)

scan-write : (n : ℕ) (s : String) → scan (write n s) ≡ some (n, s)
unfolding scan write read_on
scan-write zero s = refl
scan-write (suc n) s = rw (scan-write n s) refl

unfoldable pub kind : Claims → ℕ
kind (session id role) = 0
kind (websocket none role) = 1
kind (websocket (some id) role) = 2

unfoldable pub id_of : Claims → ℕ
id_of (session id role) = id
id_of (websocket none role) = 0
id_of (websocket (some id) role) = id

abbrev sign_plain : Claims → ℕ → ℕ → String
sign_plain c issued lifetime =
    write (kind c) (write (id_of c) (write (issued + lifetime) (role_of c)))

unfoldable pub rebuild : ℕ → ℕ → String → Claims
rebuild zero id role = session id role
rebuild (suc zero) id role = websocket none role
rebuild (suc (suc k)) id role = websocket (some id) role

unfoldable pub within : ℕ → ℕ → ℕ → ℕ → String → Option Claims
within now k id expires role = if ltb now expires then some (rebuild k id role) else none

unfoldable pub verify_plain : ℕ → String → Option Claims
verify_plain now s = elim (scan s) [
  | none ↦ none
  | some (k, s₁) ↦ elim (scan s₁) [
    | none ↦ none
    | some (id, s₂) ↦ elim (scan s₂) [ none ↦ none | some (e, role) ↦ within now k id e role ]
  ]
]

verify-sign_plain :
    (c : Claims) (issued lifetime now : ℕ)
    → verify_plain now (sign_plain c issued lifetime)
      ≡ within now (kind c) (id_of c) (issued + lifetime) (role_of c)
unfolding verify_plain
verify-sign_plain c issued lifetime now =
    rw (scan-write (kind c) _, verify_plain)
      (rw (scan-write (id_of c) _) (rw (scan-write (issued + lifetime) (role_of c)) refl))

rebuild_lem : (c : Claims) → rebuild (kind c) (id_of c) (role_of c) ≡ c
unfolding rebuild kind id_of
rebuild_lem (session id role) = refl
rebuild_lem (websocket none role) = refl
rebuild_lem (websocket (some id) role) = refl

pub write-ne-empty : (n : ℕ) (s : String) → write n s ≢ ""
unfolding write
write-ne-empty zero s e = cons≢nil e
write-ne-empty (suc n) s e = cons≢nil e

pub valid_plain :
    (c : Claims) (issued lifetime now : ℕ)
    → now < issued + lifetime
    → verify_plain now (sign_plain c issued lifetime) ≡ some c
unfolding within
valid_plain c issued lifetime now h =
    verify-sign_plain c issued lifetime now ∙ ground (arith, rebuild_lem c)

pub expired_plain :
    (c : Claims) (issued lifetime now : ℕ)
    → issued + lifetime ≤ now
    → verify_plain now (sign_plain c issued lifetime) ≡ none
unfolding within
expired_plain c issued lifetime now h = verify-sign_plain c issued lifetime now ∙ ground arith

abbrev pub plain_jwt : Jwt
plain_jwt = record {
  sign = sign_plain;
  verify = verify_plain;
  sign-ne-empty = λ c i l. write-ne-empty (kind c) _;
  verify-sign = valid_plain;
  verify-sign_expired = expired_plain;
}
