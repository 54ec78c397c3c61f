-- ===== src/Session/Impersonation.antt =====
-- Acting as another user, and coming back.
use emailjachai.Common.{
  ℕ, ◌<◌, ◌≡◌, ◌≢◌, refl, sym, subst, ap, ◌∙◌, String, Bool, true, false, not, ◌&&◌, ◌||◌,
  if◌then◌else◌, Option, none, some, arith, ◌⊎◌, inl, inr, Bool-cases, Option-cases, eq_iff,
}
use emailjachai.Http.Headers.{Headers}
use emailjachai.Session.{
  Jar, read, Jwt, Env, truthy, verify_user, is_ok, Answer, failure, Request, Backend, unreachable,
  answered,
}
use emailjachai.Session.Reading.{truthy_of_ne}
use emailjachai.Session.Routes.{
  BackendUser, Granted, Plan, refuse, send, Plan-cases, given, target_of, is_admin, name_target,
  plan_impersonate, take_over, grant_impersonation, finish_impersonate, impersonate,
}

-- A value that is there and not empty.
abbrev pub Holds : ℕ → Jar → String → String → Type 0
Holds now jar name v = (read now name jar ≡ some v) × (v ≢ "")

pub truthy_inv : (o : Option String) (s : String) → truthy o ≡ some s → (o ≡ some s) × (s ≢ "")
truthy_inv none s h = cc
truthy_inv (some t) s h = (ground arith, λ e. ground (arith, eq_iff t ""))

pub truthy_of_Holds :
    (now : ℕ) (jar : Jar) (name v : String)
    → Holds now jar name v
    → truthy (read now name jar) ≡ some v
truthy_of_Holds now jar name v (h, n) = ap truthy h ∙ truthy_of_ne v n

-- A request goes out only for an admin with a token and a key.
plan_impersonate_sent :
    (jwt : Jwt) (env : Env) (body : Option (Option ℕ)) (source : Headers) (jar : Jar)
    (r : Request ℕ)
    → plan_impersonate jwt env body source jar ≡ send r
    → (is_admin (verify_user jwt env none jar) ≡ true)
      × ((key : String) × Holds env.now jar "user_api_key" key)
unfolding plan_impersonate
plan_impersonate_sent jwt env body source jar r h = (ground arith, key_of h)
  where
    key_of :
        plan_impersonate jwt env body source jar ≡ send r
        → (key : String) × Holds env.now jar "user_api_key" key
    key_of h = elim (Option-cases (truthy (read env.now "user_api_key" jar))) [
      | inl e ↦ absurd (ground arith)
      | inr (k, e) ↦ (k, truthy_inv _ k e)
    ]

token_of_admin :
    (jwt : Jwt) (env : Env) (jar : Jar)
    → is_admin (verify_user jwt env none jar) ≡ true
    → (token : String) × Holds env.now jar "auth_token" token
unfolding verify_user
token_of_admin jwt env jar h = elim (Option-cases (truthy (read env.now "auth_token" jar))) [
  | inl e ↦ absurd (cc (rw (e, verify_user) at h))
  | inr (k, e) ↦ (k, truthy_inv _ k e)
]

abbrev pub granted_of : Option BackendUser → Option String → Option (BackendUser × Option String)
granted_of none key = none
granted_of (some u) key = some (u, key)

abbrev pub granted_body : Option Granted → Option (BackendUser × Option String)
granted_body none = none
granted_body (some g) = granted_of g.user g.api_key

-- The user for whom the backend's answer grants an impersonation, and the key.
abbrev pub granted : Backend Granted → Option (BackendUser × Option String)
granted unreachable = none
granted (answered status is_error message body) =
    if is_error || not (is_ok status) then none else granted_body body

-- The session taken over by the user that the backend granted, or else a refusal that leaves the jar.
abbrev pub TakesOver :
    Jwt → Env → Jar → Option (BackendUser × Option String) → Answer (Unit {0}) × Jar → Type 0
TakesOver jwt env jar none r = (r.0.success ≡ false) × (r.1 ≡ jar)
TakesOver jwt env jar (some (u, k)) r = (r.0.success ≡ true) × (r.1 ≡ take_over jwt env u k jar)

grant-TakesOver :
    (jwt : Jwt) (env : Env) (body : Option Granted) (jar : Jar)
    → TakesOver jwt env jar (granted_body body) (grant_impersonation jwt env body jar)
unfolding grant_impersonation
grant-TakesOver jwt env none jar = (refl, refl)
grant-TakesOver jwt env (some g) jar = elim (Option-cases g.user) [
  | inl e ↦
      subst
        (λ o.
          TakesOver jwt env jar (granted_of o g.api_key) (grant_impersonation jwt env (some g) jar))
        (sym e) (rw (e, grant_impersonation) refl, rw (e, grant_impersonation) refl)
  | inr (u, e) ↦
      subst
        (λ o.
          TakesOver jwt env jar (granted_of o g.api_key) (grant_impersonation jwt env (some g) jar))
        (sym e) (rw (e, grant_impersonation) refl, rw (e, grant_impersonation) refl)
]

finish-TakesOver :
    (jwt : Jwt) (env : Env) (b : Backend Granted) (jar : Jar)
    → TakesOver jwt env jar (granted b) (finish_impersonate jwt env b jar)
unfolding finish_impersonate
finish-TakesOver jwt env unreachable jar = (refl, refl)
finish-TakesOver jwt env (answered status true message body) jar = (refl, refl)
finish-TakesOver jwt env (answered status false message body) jar =
    elim (Bool-cases (is_ok status)) [
      | inl ok ↦ rw (ok, finish_impersonate) (grant-TakesOver jwt env body jar)
      | inr bad ↦ rw (bad, finish_impersonate) (refl, refl)
    ]

-- Whether the request names a user and the cookies hold a key.
abbrev pub names_user : Option (Option ℕ) → Bool
names_user none = false
names_user (some user_id) = elim (target_of user_id) [ none ↦ false | some n ↦ true ]

plan_impersonate_refused :
    (jwt : Jwt) (env : Env) (body : Option (Option ℕ)) (source : Headers) (jar : Jar)
    (a : Answer (Unit {0}))
    → is_admin (verify_user jwt env none jar) ≡ true
    → plan_impersonate jwt env body source jar ≡ refuse a
    → (names_user body && given (read env.now "user_api_key" jar) ≡ false) × (a.success ≡ false)
unfolding plan_impersonate
plan_impersonate_refused jwt env none source jar a y e = (refl, ground arith)
plan_impersonate_refused jwt env (some b) source jar a y e = (ground arith, ground arith)

plan_impersonate_403 :
    (jwt : Jwt) (env : Env) (body : Option (Option ℕ)) (source : Headers) (jar : Jar)
    → is_admin (verify_user jwt env none jar) ≡ false
    → plan_impersonate jwt env body source jar
      ≡ refuse (failure 403 "Unauthorized. Admin privileges required.")
unfolding plan_impersonate
plan_impersonate_403 jwt env body source jar n = rw (n, plan_impersonate) refl

-- A request that goes out is for the user that the body names, by an id other than zero.
name_target_sent :
    (body : Option (Option ℕ)) (key : Option String) (source : Headers) (r : Request ℕ)
    → name_target body key source ≡ send r
    → (body ≡ some (some r.body)) × (0 < r.body) × (r.path ≡ "/admin/impersonate")
name_target_sent none key source r e = absurd (cc e)
name_target_sent (some none) key source r e = absurd (cc e)
name_target_sent (some (some n)) none source r e = absurd (ground arith)
name_target_sent (some (some n)) (some k) source r e = (ground arith, ground arith, ground arith)

plan_impersonate_target :
    (jwt : Jwt) (env : Env) (body : Option (Option ℕ)) (source : Headers) (jar : Jar)
    (r : Request ℕ)
    → plan_impersonate jwt env body source jar ≡ send r
    → (body ≡ some (some r.body)) × (0 < r.body) × (r.path ≡ "/admin/impersonate")
unfolding plan_impersonate
plan_impersonate_target jwt env body source jar r h =
    name_target_sent body (truthy (read env.now "user_api_key" jar)) source r (ground arith)

-- Only an admin can act as another user. Without an admin's token the answer is 403 and the cookies
-- stay, whatever the backend would say. With one, a request that names no user, or cookies with no key,
-- fail and the cookies stay. Otherwise one request goes out, for the user that is named, by an id other
-- than zero, and the backend's answer decides: where it grants no user the cookies stay; where it grants
-- one, that user takes the session over.
pub impersonate_lem :
    (jwt : Jwt) (env : Env) (backend : Request ℕ → Backend Granted) (body : Option (Option ℕ))
    (source : Headers) (jar : Jar)
    → ((is_admin (verify_user jwt env none jar) ≡ false)
        × (impersonate jwt env backend body source jar
            ≡ (failure 403 "Unauthorized. Admin privileges required.", jar)))
      ⊎ ((is_admin (verify_user jwt env none jar) ≡ true)
          × (names_user body && given (read env.now "user_api_key" jar) ≡ false)
          × ((impersonate jwt env backend body source jar).0.success ≡ false)
          × ((impersonate jwt env backend body source jar).1 ≡ jar))
      ⊎ ((r : Request ℕ) × (plan_impersonate jwt env body source jar ≡ send r)
          × (is_admin (verify_user jwt env none jar) ≡ true)
          × ((key : String) × Holds env.now jar "user_api_key" key)
          × (body ≡ some (some r.body))
          × (0 < r.body)
          × (r.path ≡ "/admin/impersonate")
          × TakesOver jwt env jar
              (granted (backend r))
              (impersonate jwt env backend body source jar))
unfolding impersonate
impersonate_lem jwt env backend body source jar =
    elim (Bool-cases (is_admin (verify_user jwt env none jar))) [
      | inr n ↦ inl (n, ap perform (plan_impersonate_403 jwt env body source jar n))
      | inl y ↦ elim (Plan-cases (plan_impersonate jwt env body source jar)) [
        | inl (a, e) ↦
            let (lacks, failed) = plan_impersonate_refused jwt env body source jar a y e in
            inr (
              inl (y, lacks, ap (λ p. (perform p).0.success) e ∙ failed, ap (λ p. (perform p).1) e))
        | inr (r, e) ↦
            let (named, positive, path) = plan_impersonate_target jwt env body source jar r e in
            inr (
              inr (
                r,
                e,
                y,
                (plan_impersonate_sent jwt env body source jar r e).1,
                named,
                positive,
                path,
                subst (TakesOver jwt env jar (granted (backend r))) (sym (ap perform e))
                    (finish-TakesOver jwt env (backend r) jar),
              ))
      ]
    ]
  where
    perform : Plan (Unit {0}) ℕ → Answer (Unit {0}) × Jar
    perform p = elim p [ refuse a ↦ (a, jar) | send r ↦ finish_impersonate jwt env (backend r) jar ]
