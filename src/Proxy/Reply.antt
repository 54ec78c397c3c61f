-- ===== src/Proxy/Reply.antt =====
-- The second half of the proxy: what the browser gets of the backend's response.
use emailjachai.Common.{
  ℕ, String, Bool, false, not, leb, ◌&&◌, ◌||◌, Option, none, some, List, [], ◌∷◌, str_eq, ◌==◌,
  if◌then◌else◌,
}
use emailjachai.Common.Text.{text_or, to_lower, codes, includes, trim}
use emailjachai.Http.Headers.{Headers, empty, get, set, append_set_cookie}
use emailjachai.Session.{Jwt, Env, Jar, is_ok}
use emailjachai.Proxy.{Incoming, Call, refuse, broken, call, join, plan}

-- A response of the backend; `text` is `none` where reading the body fails.
pub record Response : Type 0 where
  pub status : ℕ
  pub headers : Headers
  pub text : Option String

-- `none` where `fetch` fails.
abbrev pub Backend : Type 0
Backend = Call → Option Response

-- The body that the browser gets: an error with its message, `{ status: 'success', data: null }`, the
-- parsed value of a text, a text, or the backend's stream.
pub data Content (J : Type 0) : Type 0 where
  error : String → Content J
  null_data passed_on : Content J
  value : J → Content J
  plain : String → Content J

pub record Answer (J : Type 0) : Type 0 where
  pub status : ℕ
  pub headers : Headers
  pub content : Content J

-- The statuses that `Response` takes; it throws for any other.
abbrev pub is_in_range : ℕ → Bool
is_in_range status = leb 200 status && leb status 599

-- A status with which a response has no body: `Response` throws when it is given one.
abbrev pub is_null_body : ℕ → Bool
is_null_body status =
    status == 101 || status == 103 || status == 204 || status == 205 || status == 304

-- `new NextResponse(…)` and `NextResponse.json(…)` with a body; `none` where it throws. The Content-Type
-- that the second adds where there is none is left out.
unfoldable pub respond : {J : Type 0} → ℕ → Headers → Content J → Option (Answer J)
respond status headers content =
    if is_null_body status || not (is_in_range status)
    then none
    else some (record { status = status; headers = headers; content = content })

-- The details that are added outside production are left out.
abbrev pub failed : {J : Type 0} → Answer J
failed = record { status = 500; headers = empty; content = error "Internal Proxy Error" }

-- The outer `catch`.
abbrev pub caught : {J : Type 0} → Option (Answer J) → Answer J
caught none = failed
caught (some a) = a

unfoldable pub is_download : Headers → Bool
is_download h =
    includes (to_lower (text_or (get "content-disposition" h) "")) (codes "attachment")
    || includes (to_lower (text_or (get "content-type" h) "")) (codes "text/csv")
    || includes (to_lower (text_or (get "content-type" h) "")) (codes "application/x-ndjson")

abbrev pub header_allow_list : List String
header_allow_list =
    "content-type" ∷ "content-disposition" ∷ "cache-control" ∷ "pragma" ∷ "expires"
    ∷ "content-length" ∷ []

abbrev pub set_filled : String → Option String → Headers → Headers
set_filled name none h = h
set_filled name (some v) h = if str_eq v "" then h else set name v h

unfoldable pub copy_headers : List String → Headers → Headers → Headers
copy_headers [] source h = h
copy_headers (name ∷ rest) source h = copy_headers rest source (set_filled name (get name source) h)

unfoldable pub copy_cookies : List String → Headers → Headers
copy_cookies [] h = h
copy_cookies (c ∷ rest) h = copy_cookies rest (append_set_cookie c h)

-- The stream of a response whose status allows no body is null, so that only the range counts here.
unfoldable pub pass_download : {J : Type 0} → Response → Option (Answer J)
pass_download s =
    if not (is_in_range s.status)
    then none
    else some (record {
      status = s.status;
      headers = copy_cookies s.headers.set_cookies (copy_headers header_allow_list s.headers empty);
      content = passed_on;
    })

module _ {J : Type 0} (parse : String → Option J) where
  abbrev pub data_content : String → Option J → Content J
  data_content text none = plain text
  data_content text (some j) = value j

  abbrev pub data_type : Response → Option J → String
  data_type s none = text_or (get "Content-Type" s.headers) "text/plain"
  data_type s (some j) = "application/json"

  -- The part after the text is read; `getSetCookie` is there.
  unfoldable pub pass_data : Response → String → Option (Answer J)
  pass_data s raw =
      let text = trim raw in
      let h = copy_cookies s.headers.set_cookies empty in
      if str_eq text ""
      then respond s.status h null_data
      else respond s.status (set "Content-Type" (data_type s (parse text)) h)
          (data_content text (parse text))

  unfoldable pub pass_on : Response → Answer J
  pass_on s =
      if is_download s.headers
      then caught (pass_download s)
      else elim s.text [ none ↦ failed | some raw ↦ caught (pass_data s raw) ]

  abbrev pub reply_of : Option Response → Answer J
  reply_of none = failed
  reply_of (some s) = pass_on s

  -- The whole route.
  unfoldable pub proxy_request : Jwt → Env → Backend → Jar → Incoming → Answer J
  proxy_request jwt env backend jar r = elim (plan jwt env jar r) [
    | refuse message ↦ record { status = 401; headers = empty; content = error message }
    | broken ↦ failed
    | call c ↦ reply_of (backend c)
  ]

abbrev pub settings_routes : String → Bool
settings_routes slug =
    str_eq slug "admin/settings/update"
    || str_eq slug "admin/settings/brand"
    || str_eq slug "admin/settings/payment"

-- Whether the tag `public-settings` is revalidated after a response.
unfoldable pub revalidates : Incoming → Option Response → Bool
revalidates r none = false
revalidates r (some s) = settings_routes (join r.slug) && str_eq r.method "POST" && is_ok s.status
