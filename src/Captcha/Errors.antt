-- ===== src/Captcha/Errors.antt =====
-- frontend/lib/turnstile.ts: what an error of the backend says, and the settings of the captcha.
use emailjachai.Common.{String, Bool, true, false, ◌||◌, Option, none, some, str_eq, if◌then◌else◌}
use emailjachai.Common.Text.{codes, includes, to_lower, trim, text_or}
use emailjachai.Stores.Dashboard.{Field, missing, number, text, other}
use emailjachai.Stores.Reply.{Reply, replied, rejected}

pub record ErrorBody : Type 0 where
  pub code : Field
  pub message : Field

-- A value that may be an error: no object at all, or an object with the fields that are read.
-- `error_message` is the message of an instance of `Error`.
pub record ErrorObject : Type 0 where
  pub code : Field
  pub api_error_code : Field
  pub message : Field
  pub response_data : Option ErrorBody
  pub error_message : Option String

abbrev pub Source : Type 0
Source = Option ErrorObject

-- `a ?? b`.
abbrev pub field_or : Field → Field → Field
field_or missing d = d
field_or (number n) d = number n
field_or (text s) d = text s
field_or (other s) d = other s

unfoldable pub read_error_body : Source → Option ErrorBody
read_error_body none = none
read_error_body (some e) = elim e.response_data [
  | none ↦ some (record { code = field_or e.api_error_code e.code; message = e.message })
  | some body ↦ some body
]

abbrev pub as_text : Field → Option String
as_text missing = none
as_text (number n) = none
as_text (text s) = some s
as_text (other s) = none

unfoldable pub get_api_error_code : Source → Option String
unfolding read_error_body
get_api_error_code source = elim (read_error_body source) [
  | none ↦ none
  | some body ↦ as_text body.code
]

-- A text with more than white space in it.
abbrev pub filled_text : Option String → Option String
filled_text none = none
filled_text (some s) = if str_eq (trim s) "" then none else some s

abbrev pub body_message : Option ErrorBody → Option String
body_message none = none
body_message (some body) = filled_text (as_text body.message)

abbrev pub own_message : Source → Option String
own_message none = none
own_message (some e) = filled_text e.error_message

unfoldable pub get_api_error_message : Source → String → String
unfolding read_error_body trim
get_api_error_message source fallback = elim (body_message (read_error_body source)) [
  | some m ↦ m
  | none ↦ elim (own_message source) [ some m ↦ m | none ↦ fallback ]
]

abbrev pub is_code : Option String → String → Bool
is_code none c = false
is_code (some s) c = str_eq s c

unfoldable pub is_captcha_error : Source → Bool
unfolding get_api_error_code get_api_error_message
is_captcha_error source =
    is_code (get_api_error_code source) "ERR_CAPTCHA"
    || includes (to_lower (get_api_error_message source "")) (codes "captcha")

pub record PublicSettings : Type 0 where
  pub turnstile_site_key : Option String
  pub turnstile_required : Option String

pub record TurnstilePublicConfig : Type 0 where
  pub site_key : String
  pub is_required : Bool

unfoldable pub fetch_turnstile_config : Reply PublicSettings → Option TurnstilePublicConfig
unfolding trim
fetch_turnstile_config rejected = none
fetch_turnstile_config (replied false body m) = none
fetch_turnstile_config (replied true none m) = none
fetch_turnstile_config (replied true (some d) m) = some (record {
  site_key = trim (text_or d.turnstile_site_key "");
  is_required = is_code d.turnstile_required "1";
})
