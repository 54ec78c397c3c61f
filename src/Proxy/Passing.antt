-- ===== src/Proxy/Passing.antt =====
-- The headers that reach the backend.
use emailjachai.Common.{
  ℕ, ◌≡◌, refl, sym, subst, ap, ◌∙◌, String, true, false, ◌&&◌, ◌||◌, Option, none, some, List, [],
  ◌∷◌, arith, str_eq, if◌then◌else◌, inl, inr, Bool-cases, Option-cases,
}
use emailjachai.Common.Text.{
  ◌&◌, show_num, text_or, nullish, over, to_lower, codes, codes_eq, codes_eq_iff, includes,
}
use emailjachai.Common.Keyed.{Fresh, IsDistinct}
use emailjachai.Http.Headers.{
  Name, name_key, Headers, empty, lookup, lookup-insert, get, same_name, get-set,
}
use emailjachai.ClientIp.{get_client_ip, is_public, apply_client_ip_headers}
use emailjachai.ClientIp.Select.{is_ip_name, get-apply_client_ip_headers}
use emailjachai.Proxy.{
  Incoming, is_whitelisted, forward_header, forward_whitelisted, set_authorization, set_request_id,
  content_type_of, is_multipart, keep_boundary, call_headers,
}

abbrev pub header_name : Name × String → Name
header_name e = e.0

lookup_of_Fresh :
    (n : Name) (xs : List (Name × String)) → Fresh header_name n xs → lookup n xs ≡ none
unfolding lookup
lookup_of_Fresh n [] h = refl
lookup_of_Fresh n ((k, v) ∷ xs) h = ground (arith, lookup_of_Fresh n xs)

lookup-forward_header :
    (n k : Name) (v : String) (h : Headers)
    → lookup n (forward_header k v h).entries
      ≡ (if is_whitelisted k && codes_eq k n then some v else lookup n h.entries)
unfolding forward_header
lookup-forward_header n k v h = ground (arith, lookup-insert k n v h.entries)

whitelisted_same : (k n : Name) → codes_eq k n ≡ true → is_whitelisted k ≡ is_whitelisted n
whitelisted_same k n h = ap is_whitelisted ((codes_eq_iff k n).0 h)

absent_same :
    (k n : Name) (xs : List (Name × String))
    → Fresh header_name k xs
    → codes_eq k n ≡ true
    → lookup n xs ≡ none
absent_same k n xs f h =
    lookup_of_Fresh n xs (subst (λ m. Fresh header_name m xs) ((codes_eq_iff k n).0 h) f)

lookup-forward_whitelisted :
    (n : Name) (xs : List (Name × String)) (h : Headers)
    → IsDistinct header_name xs
    → lookup n (forward_whitelisted xs h).entries
      ≡ (if is_whitelisted n then over (lookup n xs) (lookup n h.entries) else lookup n h.entries)
unfolding lookup forward_whitelisted
lookup-forward_whitelisted n [] h d = ground arith
lookup-forward_whitelisted n ((k, v) ∷ xs) h (f, d) =
    lookup-forward_whitelisted n xs (forward_header k v h) d
    ∙ ground (arith, lookup-forward_header n k v h, whitelisted_same k n, absent_same k n xs f)

-- Which of the names of the proxy a name is, by its lower case.
at_name {ℓ} :
    (P : Name → Type ℓ) (name k : String)
    → same_name name k ≡ true
    → P (to_lower name)
    → P (to_lower k)
unfolding same_name
at_name P name k h p = subst P ((codes_eq_iff (to_lower name) (to_lower k)).0 h) p

authorization_apart :
    (k : String)
    → same_name "Authorization" k ≡ true
    → (is_whitelisted (to_lower k) ≡ false)
      × (is_ip_name k ≡ false)
      × (same_name "Content-Type" k ≡ false)
      × (same_name "X-Request-ID" k ≡ false)
unfolding same_name is_whitelisted
authorization_apart k h =
    at_name
      (λ n.
        (is_whitelisted n ≡ false)
        × ((codes_eq (to_lower "X-Forwarded-For") n
              || codes_eq (to_lower "X-Real-IP") n
              || codes_eq (to_lower "X-EJP-Client-IP") n
              || codes_eq (to_lower "CF-Connecting-IP") n)
            ≡ false)
        × (codes_eq (to_lower "Content-Type") n ≡ false)
        × (codes_eq (to_lower "X-Request-ID") n ≡ false))
      "Authorization" k h (refl, refl, refl, refl)

request_id_apart :
    (k : String)
    → same_name "X-Request-ID" k ≡ true
    → (is_whitelisted (to_lower k) ≡ true)
      × (is_ip_name k ≡ false)
      × (same_name "Content-Type" k ≡ false)
      × (same_name "Authorization" k ≡ false)
unfolding same_name is_whitelisted
request_id_apart k h =
    at_name
      (λ n.
        (is_whitelisted n ≡ true)
        × ((codes_eq (to_lower "X-Forwarded-For") n
              || codes_eq (to_lower "X-Real-IP") n
              || codes_eq (to_lower "X-EJP-Client-IP") n
              || codes_eq (to_lower "CF-Connecting-IP") n)
            ≡ false)
        × (codes_eq (to_lower "Content-Type") n ≡ false)
        × (codes_eq (to_lower "Authorization") n ≡ false))
      "X-Request-ID" k h (refl, refl, refl, refl)

content_type_apart :
    (k : String)
    → same_name "Content-Type" k ≡ true
    → (is_whitelisted (to_lower k) ≡ true)
      × (is_ip_name k ≡ false)
      × (same_name "X-Request-ID" k ≡ false)
      × (same_name "Authorization" k ≡ false)
unfolding same_name is_whitelisted
content_type_apart k h =
    at_name
      (λ n.
        (is_whitelisted n ≡ true)
        × ((codes_eq (to_lower "X-Forwarded-For") n
              || codes_eq (to_lower "X-Real-IP") n
              || codes_eq (to_lower "X-EJP-Client-IP") n
              || codes_eq (to_lower "CF-Connecting-IP") n)
            ≡ false)
        × (codes_eq (to_lower "X-Request-ID") n ≡ false)
        × (codes_eq (to_lower "Authorization") n ≡ false))
      "Content-Type" k h (refl, refl, refl, refl)

get_same : (m k : String) (h : Headers) → same_name m k ≡ true → get k h ≡ get m h
unfolding get same_name
get_same m k h e = ap (λ n. lookup n h.entries) (sym ((codes_eq_iff (to_lower m) (to_lower k)).0 e))

get-forwarded :
    (k : String) (r : Incoming)
    → IsDistinct header_name r.headers.entries
    → get k (forward_whitelisted r.headers.entries empty)
      ≡ (if is_whitelisted (to_lower k) then get k r.headers else none)
unfolding get lookup
get-forwarded k r d =
    lookup-forward_whitelisted (to_lower k) r.headers.entries empty d
    ∙ elim (Option-cases (lookup (to_lower k) r.headers.entries)) [
      | inl e ↦ rw e refl
      | inr (v, e) ↦ rw e refl
    ]

-- The key in the form of the Authorization header.
abbrev pub bearer : Option String → Option String
bearer none = none
bearer (some key) = some ("Bearer " & key)

get-set_authorization :
    (key : Option String) (k : String) (h : Headers)
    → get k (set_authorization key h)
      ≡ (if same_name "Authorization" k then over (bearer key) (get k h) else get k h)
get-set_authorization none k h = ground arith
get-set_authorization (some key) k h = get-set "Authorization" k ("Bearer " & key) h

get-set_request_id :
    (received : ℕ) (k : String) (h : Headers)
    → get k (set_request_id received h) ≡ (
        if same_name "X-Request-ID" k
        then some (nullish (get k h) ("proxy_" & show_num received))
        else get k h)
unfolding set_request_id
get-set_request_id received k h = elim (Option-cases (get "X-Request-ID" h)) [
  | inl e ↦
      rw (e, set_request_id)
        (get-set "X-Request-ID" k _ h ∙ ground (arith, get_same "X-Request-ID" k h))
  | inr (v, e) ↦ rw (e, set_request_id) (ground (arith, get_same "X-Request-ID" k h))
]

-- A multipart body has a content type, and keeping its boundary sets the one that was forwarded.
multipart_text :
    (o : Option String)
    → includes (to_lower (text_or o "")) (codes "multipart/form-data") ≡ true
    → o ≡ some (text_or o "")
multipart_text none h = cc
multipart_text (some v) h = elim (Bool-cases (str_eq v "")) [
  | inl e ↦ absurd (cc (rw e at h))
  | inr n ↦ rw n refl
]

content_type_given :
    (h : Headers) → is_multipart h ≡ true → get "Content-Type" h ≡ some (content_type_of h)
unfolding is_multipart content_type_of get
content_type_given h e = multipart_text (get "content-type" h) e

get-keep_boundary :
    (k : String) (r h : Headers)
    → get "Content-Type" h ≡ get "Content-Type" r
    → get k (keep_boundary r h) ≡ get k h
unfolding keep_boundary
get-keep_boundary k r h e = elim (Bool-cases (is_multipart r)) [
  | inl m ↦
      rw (m, keep_boundary)
        (get-set "Content-Type" k (content_type_of r) h
          ∙ ground (arith, get_same "Content-Type" k h, content_type_given r m))
  | inr n ↦ rw (n, keep_boundary) refl
]

-- The header of the call under a name, from the headers of the request.
abbrev pub call_header : Option String → Incoming → String → Option String
call_header key r k =
    if same_name "X-Request-ID" k
    then some (nullish (get k r.headers) ("proxy_" & show_num r.received))
    else if same_name "Authorization" k
    then bearer key
    else if is_public (get_client_ip r.headers) && is_ip_name k
    then some (get_client_ip r.headers)
    else if is_whitelisted (to_lower k)
    then get k r.headers
    else none

same_content_type : same_name "Content-Type" "Content-Type" ≡ true
unfolding same_name
same_content_type = refl

-- The header before the request's id and the key are set.
abbrev base_header : Incoming → String → Option String
base_header r k =
    if is_public (get_client_ip r.headers) && is_ip_name k
    then some (get_client_ip r.headers)
    else if is_whitelisted (to_lower k)
    then get k r.headers
    else none

get-base :
    (r : Incoming) (k : String)
    → IsDistinct header_name r.headers.entries
    → get k (apply_client_ip_headers (forward_whitelisted r.headers.entries empty) r.headers)
      ≡ base_header r k
get-base r k d =
    get-apply_client_ip_headers (forward_whitelisted r.headers.entries empty) r.headers k
    ∙ rw (get-forwarded k r d) refl

settled :
    (key : Option String) (r : Incoming) (k : String)
    → (if same_name "X-Request-ID" k
        then some (
            nullish
              (if same_name "Authorization" k
                then over (bearer key) (base_header r k)
                else base_header r k)
              ("proxy_" & show_num r.received))
        else if same_name "Authorization" k
        then over (bearer key) (base_header r k)
        else base_header r k)
      ≡ call_header key r k
settled none r k = ground (arith, authorization_apart k, request_id_apart k)
settled (some key) r k = ground (arith, authorization_apart k, request_id_apart k)

get-with_id :
    (key : Option String) (r : Incoming) (k : String)
    → IsDistinct header_name r.headers.entries
    → get k (
        set_request_id r.received (
          set_authorization key
            (apply_client_ip_headers (forward_whitelisted r.headers.entries empty) r.headers)))
      ≡ call_header key r k
get-with_id key r k d =
    get-set_request_id r.received k _
    ∙ rw (get-set_authorization key k _) (rw (get-base r k d) (settled key r k))

content_type_header :
    (key : Option String) (r : Incoming)
    → call_header key r "Content-Type" ≡ get "Content-Type" r.headers
content_type_header key r = ground (arith, content_type_apart "Content-Type" same_content_type)

-- The backend gets an id of the request, its own or a new one; the key as Authorization and no other;
-- the caller's address under the four names that carry it, if it is public; and of the rest what the
-- request has under the names of the whitelist, and nothing else. (The request has each name once.)
pub get-call_headers :
    (key : Option String) (r : Incoming) (k : String)
    → IsDistinct header_name r.headers.entries
    → get k (call_headers key r) ≡ call_header key r k
unfolding call_headers
get-call_headers key r k d =
    get-keep_boundary k r.headers _ (get-with_id key r "Content-Type" d ∙ content_type_header key r)
    ∙ get-with_id key r k d
