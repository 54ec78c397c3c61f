-- ===== src/Proxy.antt =====
-- frontend/app/next-api/proxy/[...slug]/route.ts: the one door from the browser to the backend.
pub mod Reply
pub mod Access
pub mod Passing
mod Tests
use emailjachai.Common.{
  ℕ, ◌≡◌, String, Bool, true, false, not, ◌&&◌, ◌||◌, Option, none, some, List, [], ◌∷◌, str_eq,
  any, if◌then◌else◌,
}
use emailjachai.Common.Text.{◌&◌, show_num, text_or, to_lower, codes, codes_eq, includes}
use emailjachai.Http.Headers.{Name, Headers, empty, get, set, insert}
use emailjachai.ClientIp.{apply_client_ip_headers}
use emailjachai.Session.{Jwt, Env, Jar, Claims, read, truthy, verify_user}

abbrev pub public_proxy_routes : List String
public_proxy_routes =
    "settings/public" ∷ "auth/login" ∷ "auth/register" ∷ "auth/forgot-password"
    ∷ "auth/reset-password" ∷ "auth/verify-email" ∷ "auth/resend-verification" ∷ "auth/resend-reset"
    ∷ "jobs/verify-public" ∷ "jobs/verify-public/status" ∷ "packages/list" ∷ "contact" ∷ []

unfoldable pub is_public_route : String → Bool
is_public_route slug = any (str_eq slug) public_proxy_routes

-- `slug.join('/')`.
pub join : List String → String
join [] = ""
join (s ∷ []) = s
join (s ∷ t ∷ rest) = s & "/" & join (t ∷ rest)

-- What the route reads of a request; `text` is `none` where reading the body fails, and `received` is
-- `Date.now()`.
pub record Incoming : Type 0 where
  pub method : String
  pub slug : List String
  pub search : String
  pub headers : Headers
  pub text : Option String
  pub received : ℕ

-- A body: none, the incoming stream itself, or a text.
pub data Body : Type 0 where
  no_body stream : Body
  whole : String → Body

-- What is handed to `fetch`; the URL is API_BASE_URL, a slash and `path`.
pub record Call : Type 0 where
  pub method : String
  pub path : String
  pub headers : Headers
  pub body : Body
  pub force_cache : Bool
  pub revalidate : ℕ
  pub half_duplex : Bool

abbrev pub whitelist : List String
whitelist = "accept" ∷ "content-type" ∷ "user-agent" ∷ "x-request-id" ∷ "cookie" ∷ []

unfoldable pub is_whitelisted : Name → Bool
is_whitelisted key = any (λ w. codes_eq (codes w) key) whitelist

-- The `forEach` over the incoming headers, on the headers collected so far.
unfoldable pub forward_header : Name → String → Headers → Headers
forward_header key value h =
    if is_whitelisted key then record h { entries = insert key value h.entries } else h

unfoldable pub forward_whitelisted : List (Name × String) → Headers → Headers
forward_whitelisted [] h = h
forward_whitelisted ((key, value) ∷ rest) h = forward_whitelisted rest (forward_header key value h)

abbrev pub set_authorization : Option String → Headers → Headers
set_authorization none h = h
set_authorization (some key) h = set "Authorization" ("Bearer " & key) h

unfoldable pub set_request_id : ℕ → Headers → Headers
set_request_id received h = elim (get "X-Request-ID" h) [
  | none ↦ set "X-Request-ID" ("proxy_" & show_num received) h
  | some v ↦ h
]

unfoldable pub content_type_of : Headers → String
content_type_of h = text_or (get "content-type" h) ""

unfoldable pub is_multipart : Headers → Bool
is_multipart h = includes (to_lower (content_type_of h)) (codes "multipart/form-data")

unfoldable pub keep_boundary : Headers → Headers → Headers
keep_boundary source h =
    if is_multipart source then set "Content-Type" (content_type_of source) h else h

-- The headers of the call, with the API key of a route that is not public.
unfoldable pub call_headers : Option String → Incoming → Headers
unfolding forward_whitelisted set_request_id keep_boundary
call_headers key r = keep_boundary r.headers (
    set_request_id r.received (
      set_authorization key
        (apply_client_ip_headers (forward_whitelisted r.headers.entries empty) r.headers)))

abbrev pub has_body : String → Bool
has_body method = not (str_eq method "GET") && not (str_eq method "HEAD")

-- `none` where the body cannot be read.
unfoldable pub body_of : Incoming → Option Body
body_of r =
    if not (has_body r.method)
    then some no_body
    else if is_multipart r.headers
    then some stream
    else elim r.text [ none ↦ none | some t ↦ some (whole t) ]

unfoldable pub should_cache : String → String → Bool
should_cache method slug =
    str_eq method "GET"
    && is_public_route slug
    && not (str_eq slug "settings/public" || str_eq slug "jobs/verify-public/status")

unfoldable pub make_call : Option String → Incoming → Body → Call
unfolding should_cache
make_call key r body = record {
  method = r.method;
  path = join r.slug & r.search;
  headers = call_headers key r;
  body = body;
  force_cache = should_cache r.method (join r.slug);
  revalidate = if should_cache r.method (join r.slug) then 300 else 0;
  half_duplex = is_multipart r.headers;
}

-- A refusal with its message, a failure inside the `try`, or a call.
pub data Outgoing : Type 0 where
  refuse : (message : String) → Outgoing
  broken : Outgoing
  call : Call → Outgoing

unfoldable pub send_call : Option String → Incoming → Outgoing
send_call key r = elim (body_of r) [ none ↦ broken | some b ↦ call (make_call key r b) ]

abbrev pub with_key : Option String → Incoming → Outgoing
with_key none r = refuse "API Key not found in session"
with_key (some key) r = send_call (some key) r

abbrev pub with_user : Option Claims → Option String → Incoming → Outgoing
with_user none key r = refuse "Unauthorized proxy access"
with_user (some c) key r = with_key key r

-- `proxyRequest` up to `fetch`.
unfoldable pub plan : Jwt → Env → Jar → Incoming → Outgoing
unfolding send_call
plan jwt env jar r =
    if is_public_route (join r.slug)
    then send_call none r
    else with_user (verify_user jwt env none jar) (truthy (read env.now "user_api_key" jar)) r
