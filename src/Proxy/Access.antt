-- ===== src/Proxy/Access.antt =====
-- Who reaches the backend through the proxy, and what comes back.
use emailjachai.Common.{
  ℕ, ◌≡◌, refl, sym, ap, ◌∙◌, String, true, false, not, ◌||◌, Option, none, some, List, [], ◌∷◌,
  ◌++◌, ◌⊎◌, inl, inr, arith, str_eq, append_nil, append_snoc, Bool-cases, Option-cases,
}
use emailjachai.Common.Text.{◌&◌, trim}
use emailjachai.Http.Headers.{Headers, empty, get, set, append_set_cookie}
use emailjachai.Session.{Jwt, Env, Jar, Claims, read, truthy, verify_user}
use emailjachai.Session.Impersonation.{Holds, truthy_inv}
use emailjachai.Proxy.{
  Incoming, Call, call, is_public_route, join, call_headers, should_cache, make_call, send_call,
  body_of, with_user, plan,
}
use emailjachai.Common.Keyed.{IsDistinct}
use emailjachai.Http.Headers.{same_name, name_key}
use emailjachai.Proxy.Passing.{header_name, bearer, get-call_headers}
use emailjachai.Proxy.Reply.{
  Response, Content, Answer, caught, is_in_range, is_null_body, respond, failed, is_download,
  header_allow_list, set_filled, copy_headers, copy_cookies, pass_download, pass_data, pass_on,
}

send_call_sent :
    (key : Option String) (r : Incoming) (c : Call)
    → send_call key r ≡ call c
    → (c.headers ≡ call_headers key r) × (c.force_cache ≡ should_cache r.method (join r.slug))
unfolding send_call make_call
send_call_sent key r c h = elim (Option-cases (body_of r)) [
  | inl e ↦ absurd (cc (rw (e, send_call) at h))
  | inr (b, e) ↦ ground (arith, rw (e, send_call) at h)
]

with_user_sent :
    (v : Option Claims) (k : Option String) (r : Incoming) (c : Call)
    → with_user v k r ≡ call c
    → (claims : Claims) × (key : String) × (v ≡ some claims)
      × (k ≡ some key)
      × (send_call (some key) r ≡ call c)
with_user_sent none k r c h = cc
with_user_sent (some claims) none r c h = cc
with_user_sent (some claims) (some key) r c h = (claims, key, refl, refl, h)

private_uncached :
    (method slug : String) → is_public_route slug ≡ false → should_cache method slug ≡ false
unfolding should_cache
private_uncached method slug h = ground arith

authorization_of :
    (key : Option String) (r : Incoming) (c : Call)
    → IsDistinct header_name r.headers.entries
    → c.headers ≡ call_headers key r
    → get "Authorization" c.headers ≡ bearer key
unfolding same_name
authorization_of key r c d e = ap (get "Authorization") e ∙ get-call_headers key r "Authorization" d

-- No call of the backend goes out on a route that is not public unless the cookies hold a token that is
-- verified and a key that is not empty; the call then has that key in its Authorization header and is
-- never cached. A call on a public route has no Authorization header. (The request has each header
-- once.)
pub plan_lem :
    (jwt : Jwt) (env : Env) (jar : Jar) (r : Incoming) (c : Call)
    → IsDistinct header_name r.headers.entries
    → plan jwt env jar r ≡ call c
    → ((is_public_route (join r.slug) ≡ true)
        × (c.headers ≡ call_headers none r)
        × (get "Authorization" c.headers ≡ none))
      ⊎ ((claims : Claims) × (key : String) × (verify_user jwt env none jar ≡ some claims)
          × Holds env.now jar "user_api_key" key
          × (c.headers ≡ call_headers (some key) r)
          × (get "Authorization" c.headers ≡ some ("Bearer " & key))
          × (c.force_cache ≡ false))
unfolding plan
plan_lem jwt env jar r c d h = elim (Bool-cases (is_public_route (join r.slug))) [
  | inl p ↦
      let hs = (send_call_sent none r c (rw (p, plan) at h)).0 in
      inl (p, hs, authorization_of none r c d hs)
  | inr q ↦ inr (private q (rw (q, plan) at h))
]
  where
    private :
        is_public_route (join r.slug) ≡ false
        → with_user (verify_user jwt env none jar) (truthy (read env.now "user_api_key" jar)) r
          ≡ call c
        → (claims : Claims) × (key : String) × (verify_user jwt env none jar ≡ some claims)
          × Holds env.now jar "user_api_key" key
          × (c.headers ≡ call_headers (some key) r)
          × (get "Authorization" c.headers ≡ some ("Bearer " & key))
          × (c.force_cache ≡ false)
    private q g =
        let (claims, key, v, k, sent) = with_user_sent _ _ r c g in
        let (hs, fc) = send_call_sent (some key) r c sent in
        (
          claims,
          key,
          v,
          truthy_inv _ key k,
          hs,
          authorization_of (some key) r c d hs,
          fc ∙ private_uncached r.method (join r.slug) q,
        )

copy_cookies_lem :
    (cs : List String) (h : Headers)
    → ((copy_cookies cs h).set_cookies ≡ h.set_cookies ++ cs)
      × ((copy_cookies cs h).entries ≡ h.entries)
unfolding copy_cookies append_set_cookie
copy_cookies_lem [] h = (sym (append_nil h.set_cookies), refl)
copy_cookies_lem (c ∷ cs) h =
    let (p, q) = copy_cookies_lem cs (append_set_cookie c h) in
    (p ∙ append_snoc h.set_cookies c cs, q)

copy_headers-cookies :
    (names : List String) (source h : Headers)
    → (copy_headers names source h).set_cookies ≡ h.set_cookies
unfolding copy_headers set
copy_headers-cookies [] source h = refl
copy_headers-cookies (name ∷ rest) source h =
    copy_headers-cookies rest source _ ∙ kept (get name source)
  where
    kept : (o : Option String) → (set_filled name o h).set_cookies ≡ h.set_cookies
    kept none = refl
    kept (some v) = ground arith

-- The status and the cookies of the response.
abbrev Kept : {J : Type 0} → Response → Answer J → Type 0
Kept s a = (a.status ≡ s.status) × (a.headers.set_cookies ≡ s.headers.set_cookies)

-- A status that a response with a body cannot have.
abbrev pub IsRefused : ℕ → Type 0
IsRefused status = (is_in_range status ≡ false) ⊎ (is_null_body status ≡ true)

IsRefused-cases :
    (status : ℕ) → is_null_body status || not (is_in_range status) ≡ true → IsRefused status
IsRefused-cases status h = elim (Bool-cases (is_null_body status)) [
  | inl n ↦ inr n
  | inr n ↦ inl (ground arith)
]

respond-Kept :
    {J : Type 0} (s : Response) (h : Headers) (content : Content J)
    → h.set_cookies ≡ s.headers.set_cookies
    → Kept s (caught (respond s.status h content))
      ⊎ ((caught (respond s.status h content) ≡ failed) × IsRefused s.status)
unfolding respond
respond-Kept s h content e =
    elim (Bool-cases (is_null_body s.status || not (is_in_range s.status))) [
      | inl n ↦ inr (rw (n, respond) refl, IsRefused-cases s.status n)
      | inr n ↦ inl (rw (n, respond) refl, rw (n, respond) e)
    ]

pass_data-Kept :
    {J : Type 0} (parse : String → Option J) (s : Response) (raw : String)
    → Kept s (caught (pass_data parse s raw))
      ⊎ ((caught (pass_data parse s raw) ≡ failed) × IsRefused s.status)
unfolding pass_data set
pass_data-Kept parse s raw = elim (Bool-cases (str_eq (trim raw) "")) [
  | inl e ↦ rw (e, pass_data) (respond-Kept s _ _ (copy_cookies_lem s.headers.set_cookies empty).0)
  | inr n ↦ rw (n, pass_data) (respond-Kept s _ _ (copy_cookies_lem s.headers.set_cookies empty).0)
]

-- The browser's answer has the status of the backend's response and its cookies, in their order, or it
-- is the 500 of the proxy. It is that 500 only where the status lies outside 200 to 599, or where the
-- response is no download and its body cannot be read or its status allows no body.
pub pass_on_lem :
    {J : Type 0} (parse : String → Option J) (s : Response)
    → (((pass_on parse s).status ≡ s.status)
        × ((pass_on parse s).headers.set_cookies ≡ s.headers.set_cookies))
      ⊎ ((pass_on parse s ≡ failed)
          × ((is_in_range s.status ≡ false)
              ⊎ ((is_download s.headers ≡ false)
                  × ((s.text ≡ none) ⊎ (is_null_body s.status ≡ true)))))
unfolding pass_on pass_download
pass_on_lem parse s = elim (Bool-cases (is_download s.headers)) [
  | inl d ↦
      rw (d, pass_on)
        (elim (Bool-cases (is_in_range s.status)) [
          | inr o ↦ rw (o, pass_download) (inr (refl, inl refl))
          | inl i ↦
              rw (i, pass_download)
                (inl (
                  refl,
                  (copy_cookies_lem s.headers.set_cookies
                        (copy_headers header_allow_list s.headers empty)).0
                      ∙ ap (λ cs. cs ++ s.headers.set_cookies)
                          (copy_headers-cookies header_allow_list s.headers empty),
                ))
        ])
  | inr n ↦
      rw (n, pass_on)
        (elim (Option-cases s.text) [
          | inl e ↦ rw (e, pass_on) (inr (refl, inr (refl, inl refl)))
          | inr (raw, e) ↦
              rw (e, pass_on)
                (elim (pass_data-Kept parse s raw) [
                  | inl k ↦ inl k
                  | inr (f, inl o) ↦ inr (f, inl o)
                  | inr (f, inr b) ↦ inr (f, inr (refl, inr b))
                ])
        ])
]

-- A response whose status allows no body, such as 204, and that is no download reaches the browser as
-- the proxy's 500, whatever it holds.
pub pass_on_null_body :
    {J : Type 0} (parse : String → Option J) (s : Response)
    → is_null_body s.status ≡ true
    → is_download s.headers ≡ false
    → pass_on parse s ≡ failed
unfolding pass_on pass_data respond
pass_on_null_body parse s n d =
    rw (d, pass_on)
      (elim (Option-cases s.text) [
        | inl e ↦ rw (e, pass_on) refl
        | inr (raw, e) ↦
            rw (e, pass_on)
              (elim (Bool-cases (str_eq (trim raw) "")) [
                | inl t ↦ rw (t, pass_data, n, respond) refl
                | inr t ↦ rw (t, pass_data, n, respond) refl
              ])
      ])
