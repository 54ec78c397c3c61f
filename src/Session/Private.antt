-- ===== src/Session/Private.antt =====
-- What the routes of one call ask of a session.
use emailjachai.Common.{
  ℕ, ◌≡◌, refl, ap, ◌∙◌, String, true, false, ◌⊎◌, inl, inr, Option, none, some, arith,
}
use emailjachai.Common.Text.{◌&◌, show_num, text_or}
use emailjachai.Http.Headers.{Headers, empty, get, set, same_name, get-set}
use emailjachai.ClientIp.Select.{is_ip_name, get-apply_client_ip_headers}
use emailjachai.Session.{Claims, Jwt, Env, Jar, verify_user, Answer, Request, Backend}
use emailjachai.Session.Routes.{refuse, send, Plan-cases}
use emailjachai.Session.Impersonation.{Holds, truthy_inv}
use emailjachai.Session.Gates.{
  Me, me_headers, ask_me, plan_me, finish_me, me, upload_type, upload_headers, ask_upload,
  plan_upload,
}

ask_me_sent :
    {A : Type 0} (c : Option Claims) (key : Option String) (r : Request (Unit {0}))
    → ask_me {A = A} c key ≡ send r
    → (claims : Claims) × (k : String) × (c ≡ some claims)
      × (key ≡ some k)
      × (r.headers ≡ me_headers k)
ask_me_sent none key r h = cc
ask_me_sent (some c) none r h = cc
ask_me_sent (some c) (some k) r h = (c, k, refl, refl, ground arith)

ask_upload_sent :
    {A : Type 0} (received : ℕ) (source : Headers) (c : Option Claims) (key : Option String)
    (r : Request (Unit {0}))
    → ask_upload {A = A} received source c key ≡ send r
    → (claims : Claims) × (k : String) × (c ≡ some claims)
      × (key ≡ some k)
      × (r.headers ≡ upload_headers received k source)
ask_upload_sent received source none key r h = cc
ask_upload_sent received source (some c) none r h = cc
ask_upload_sent received source (some c) (some k) r h = (c, k, refl, refl, ground arith)

ask_me_refused :
    {A : Type 0} (c : Option Claims) (key : Option String) (a : Answer (Me A))
    → ask_me c key ≡ refuse a
    → a.success ≡ false
ask_me_refused none key a h = ground arith
ask_me_refused (some c) none a h = ground arith
ask_me_refused (some c) (some k) a h = cc

-- A profile is given only for cookies with a token that is verified and a key that is not empty, and it
-- is the backend's answer to a request under that key.
pub me_lem :
    {A : Type 0} (jwt : Jwt) (env : Env) (thrown : String)
    (backend : Request (Unit {0}) → Backend A) (jar : Jar)
    → ((me jwt env thrown backend jar).success ≡ false)
      ⊎ ((claims : Claims) × (key : String) × (r : Request (Unit {0})) × (verify_user jwt env none
              jar
            ≡ some claims)
          × Holds env.now jar "user_api_key" key
          × (r.headers ≡ me_headers key)
          × (me jwt env thrown backend jar ≡ finish_me thrown env (backend r) jar))
unfolding me plan_me
me_lem {A} jwt env thrown backend jar = elim (Plan-cases (plan_me {A = A} jwt env jar)) [
  | inl (a, e) ↦ inl (rw (e, me) (ask_me_refused _ _ a e))
  | inr (r, e) ↦
      let (c, k, v, q, hs) = ask_me_sent _ _ r e in
      inr (c, k, r, v, truthy_inv _ k q, hs, rw (e, me) refl)
]

get-upload_type :
    (o : Option String) (k : String) (h : Headers)
    → same_name "Content-Type" k ≡ false
    → get k (upload_type o h) ≡ get k h
get-upload_type none k h n = refl
get-upload_type (some t) k h n = ground (arith, get-set "Content-Type" k t h)

authorization_apart :
    (is_ip_name "Authorization" ≡ false)
    × (same_name "X-Request-ID" "Authorization" ≡ false)
    × (same_name "Authorization" "Authorization" ≡ true)
unfolding same_name
authorization_apart = (refl, refl, refl)

get-upload_headers :
    (received : ℕ) (key : String) (source : Headers)
    → get "Authorization" (upload_headers received key source) ≡ some ("Bearer " & key)
unfolding upload_headers
get-upload_headers received key source =
    get-apply_client_ip_headers _ source "Authorization"
    ∙ ground (
      arith,
      authorization_apart,
      get-set "X-Request-ID" "Authorization"
          (text_or (get "x-request-id" source) ("upload_" & show_num received))
          (set "Authorization" ("Bearer " & key) (upload_type (get "content-type" source) empty)),
      get-set "Authorization" "Authorization" ("Bearer " & key)
          (upload_type (get "content-type" source) empty),
    )

-- A file is passed on only for cookies with a token that is verified and a key that is not empty, and
-- the backend gets that key as its Authorization, whatever headers came with the file.
pub plan_upload_lem :
    {A : Type 0} (jwt : Jwt) (env : Env) (received : ℕ) (source : Headers) (jar : Jar)
    (r : Request (Unit {0}))
    → plan_upload {A = A} jwt env received source jar ≡ send r
    → (claims : Claims) × (key : String) × (verify_user jwt env none jar ≡ some claims)
      × Holds env.now jar "user_api_key" key
      × (get "Authorization" r.headers ≡ some ("Bearer " & key))
unfolding plan_upload
plan_upload_lem jwt env received source jar r h =
    let (c, k, v, q, hs) = ask_upload_sent received source _ _ r h in
    (c, k, v, truthy_inv _ k q, ap (get "Authorization") hs ∙ get-upload_headers received k source)
