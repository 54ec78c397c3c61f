-- ===== src/Session/Sockets.antt =====
-- frontend/app/next-api/auth/ws-token/route.ts: the short-lived token for the realtime connection.
use emailjachai.Common.{
  ℕ, zero, suc, ◌+◌, ◌*◌, ◌<◌, ◌≡◌, refl, subst, ap, ◌∙◌, String, true, Option, none, some, [],
  arith, str_eq-false,
}
use emailjachai.Session.{
  Claims, websocket, role_of, user_id_of, Jwt, Env, Jar, set_for, verify_user, Answer, failure,
}
use emailjachai.Session.Reading.{read-set_for, verify_user_of_read}

abbrev pub ws_token_sec : ℕ
ws_token_sec = 5 * 60

abbrev pub token_for : Jwt → Env → Option Claims → Answer String
token_for jwt env none = failure 401 "Unauthorized"
token_for jwt env (some c) = record {
  status = 200;
  success = true;
  message = "";
  payload = some (jwt.sign (websocket (user_id_of c) (role_of c)) env.now ws_token_sec);
}

unfoldable pub ws_token : Jwt → Env → Jar → Answer String
ws_token jwt env jar = token_for jwt env (verify_user jwt env none jar)

-- Whoever is verified by the token itself.
abbrev pub verified : Jwt → ℕ → String → Option Claims
verified jwt now token = verify_user jwt (record { now = now; is_prod = true }) (some token) []

verified_sign :
    (jwt : Jwt) (c : Claims) (issued lifetime now : ℕ)
    → now < issued + lifetime
    → verified jwt now (jwt.sign c issued lifetime) ≡ some c
unfolding verify_user
verified_sign jwt c issued lifetime now h =
    rw (str_eq-false _ "" (jwt.sign-ne-empty c issued lifetime), verify_user)
      (jwt.verify-sign c issued lifetime now h)

-- A token for the socket is a session token too: for five minutes `verifyUser` accepts it, with the role
-- of the user who asked for it.
pub ws_token_verifies :
    (jwt : Jwt) (env : Env) (jar : Jar) (c : Claims) (later : ℕ)
    → verify_user jwt env none jar ≡ some c
    → later < env.now + ws_token_sec
    → (token : String) × ((ws_token jwt env jar).payload ≡ some token)
      × (verified jwt later token ≡ some (websocket (user_id_of c) (role_of c)))
unfolding ws_token
ws_token_verifies jwt env jar c later h l = (
  jwt.sign (websocket (user_id_of c) (role_of c)) env.now ws_token_sec,
  rw (h, ws_token) refl,
  verified_sign jwt (websocket (user_id_of c) (role_of c)) env.now ws_token_sec later l,
)

-- A client that asks for the next token every four minutes, with the last one as its cookie.
abbrev pub round_at : ℕ → ℕ → ℕ
round_at start n = start + n * 240

abbrev pub at_time : ℕ → Env
at_time t = record { now = t; is_prod = true }

-- The cookie that the client sends at a moment.
abbrev pub holding : ℕ → String → Jar
holding t token = set_for (at_time t) "auth_token" token 1 []

abbrev pub token_or : Option String → String → String
token_or none t = t
token_or (some s) t = s

unfoldable pub renewed : Jwt → ℕ → String → ℕ → String
unfolding ws_token
renewed jwt start token zero = token
renewed jwt start token (suc n) =
    let held = renewed jwt start token n in
    token_or (ws_token jwt (at_time (round_at start n)) (holding (round_at start n) held)).payload
      held

verified_holding :
    (jwt : Jwt) (c : Claims) (issued t : ℕ)
    → t < issued + ws_token_sec
    → verify_user jwt (at_time t) none (holding t (jwt.sign c issued ws_token_sec)) ≡ some c
verified_holding jwt c issued t h = verify_user_of_read jwt (at_time t) c issued ws_token_sec _ h (
    read-set_for (at_time t) t "auth_token" "auth_token" (jwt.sign c issued ws_token_sec) 1 []
    ∙ ground arith)

next_token :
    (jwt : Jwt) (start : ℕ) (token : String) (d : Claims) (n : ℕ)
    → verify_user jwt
        (at_time (round_at start n))
        none
        (holding (round_at start n) (renewed jwt start token n))
      ≡ some d
    → renewed jwt start token (suc n)
      ≡ jwt.sign (websocket (user_id_of d) (role_of d)) (round_at start n) ws_token_sec
unfolding renewed ws_token
next_token jwt start token d n v = rw (v, renewed, ws_token) refl

-- The twenty-four hours of a session do not bind such a client: from a token that is verified at the
-- start, the token that it holds is verified at every round, however many, with the role of the start.
pub renewed_lem :
    (jwt : Jwt) (start : ℕ) (token : String) (c : Claims) (n : ℕ)
    → verify_user jwt (at_time start) none (holding start token) ≡ some c
    → (d : Claims) × (verify_user jwt
          (at_time (round_at start n))
          none
          (holding (round_at start n) (renewed jwt start token n))
        ≡ some d)
      × (role_of d ≡ role_of c)
unfolding renewed
renewed_lem jwt start token c zero h = (
  c,
  subst (λ t. verify_user jwt (at_time t) none (holding t token) ≡ some c) (omega arith) h,
  refl,
)
renewed_lem jwt start token c (suc n) h =
    let (d, v, e) = renewed_lem jwt start token c n h in
    (
      websocket (user_id_of d) (role_of d),
      ap
            (λ t.
              verify_user jwt (at_time (round_at start (suc n))) none
                (holding (round_at start (suc n)) t))
            (next_token jwt start token d n v)
          ∙ verified_holding jwt (websocket (user_id_of d) (role_of d)) (round_at start n)
              (round_at start (suc n)) (omega arith),
      e,
    )
