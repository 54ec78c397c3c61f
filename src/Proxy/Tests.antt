-- ===== src/Proxy/Tests.antt =====
-- A signed-in browser at the proxy.
use emailjachai.Common.{◌≡◌, refl, String, true, false, none, some, [], ◌∷◌, ◌⊎◌}
use emailjachai.Common.Keyed.{IsDistinct}
use emailjachai.Common.Text.{◌&◌}
use emailjachai.Http.Headers.{name_key, empty, lookup, insert, get, set, append_set_cookie}
use emailjachai.Session.{Cookie, Jar, Claims, session, Env, find_cookie, read, verify_user}
use emailjachai.Session.Impersonation.{Holds}
use emailjachai.Session.Token.{
  plain_jwt, verify_plain, scan, read_on, kind, id_of, rebuild, within, write,
}
use emailjachai.Proxy.{
  Incoming, Call, call, no_body, is_public_route, join, call_headers, body_of, make_call, send_call,
  plan,
}
use emailjachai.Proxy.Reply.{Response, is_in_range, is_null_body, is_download, failed, pass_on}
use emailjachai.Proxy.Access.{plan_lem, pass_on_lem, pass_on_null_body}
use emailjachai.Proxy.Passing.{call_header, header_name, get-call_headers}

abbrev env : Env
env = record { now = 100; is_prod = true }

abbrev token : String
token = plain_jwt.sign (session 7 "user") 0 200

abbrev cookie : String → Cookie
cookie v = record {
  value = v;
  http_only = true;
  secure = true;
  same_site = "lax";
  expires = 90000;
  path = "/";
}

abbrev jar : Jar
jar = ("auth_token", cookie token) ∷ ("user_api_key", cookie "key") ∷ []

abbrev jobs : Incoming
jobs = record {
  method = "GET";
  slug = "jobs" ∷ "list" ∷ [];
  search = "?page=1";
  headers = set "Cookie" "auth_token=t" (set "Authorization" "Bearer forged" empty);
  text = none;
  received = 5;
}

jobs-IsDistinct : IsDistinct header_name jobs.headers.entries
unfolding set insert
jobs-IsDistinct = ((refl, tt), (tt, tt))

sent : Call
sent = make_call (some "key") jobs no_body

jobs_sent : plan plain_jwt env jar jobs ≡ call sent
unfolding sent plan is_public_route join verify_user read find_cookie verify_plain scan read_on kind
    id_of rebuild within write send_call body_of
jobs_sent = refl

plan_lem_example :
    ((is_public_route (join jobs.slug) ≡ true)
      × (sent.headers ≡ call_headers none jobs)
      × (get "Authorization" sent.headers ≡ none))
    ⊎ ((claims : Claims) × (key : String) × (verify_user plain_jwt env none jar ≡ some claims)
        × Holds env.now jar "user_api_key" key
        × (sent.headers ≡ call_headers (some key) jobs)
        × (get "Authorization" sent.headers ≡ some ("Bearer " & key))
        × (sent.force_cache ≡ false))
plan_lem_example = plan_lem plain_jwt env jar jobs sent jobs-IsDistinct jobs_sent

get-call_headers_example :
    get "authorization" (call_headers (some "key") jobs)
    ≡ call_header (some "key") jobs "authorization"
get-call_headers_example = get-call_headers (some "key") jobs "authorization" jobs-IsDistinct

-- A deletion answered with no content.
abbrev deleted : Response
deleted = record { status = 204; headers = append_set_cookie "a=b" empty; text = some "" }

abbrev listed : Response
listed = record { status = 200; headers = append_set_cookie "a=b" empty; text = some "[]" }

pass_on_lem_example :
    (((pass_on (λ t. some t) listed).status ≡ listed.status)
      × ((pass_on (λ t. some t) listed).headers.set_cookies ≡ listed.headers.set_cookies))
    ⊎ ((pass_on (λ t. some t) listed ≡ failed)
        × ((is_in_range listed.status ≡ false)
            ⊎ ((is_download listed.headers ≡ false)
                × ((listed.text ≡ none) ⊎ (is_null_body listed.status ≡ true)))))
pass_on_lem_example = pass_on_lem (λ t. some t) listed

deleted_data : is_download deleted.headers ≡ false
unfolding is_download get lookup append_set_cookie
deleted_data = refl

pass_on_null_body_example : pass_on (λ t. some t) deleted ≡ failed
pass_on_null_body_example = pass_on_null_body (λ t. some t) deleted refl deleted_data
