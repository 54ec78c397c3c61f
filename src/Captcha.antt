-- ===== src/Captcha.antt =====
-- frontend/components/home/home-email-verifier.tsx: the free check on the home page, and the captcha
-- that it may ask for.
pub mod Errors
pub mod Laws
pub mod Flights
mod Tests
use emailjachai.Common.{
  ℕ, suc, ◌+◌, String, Bool, true, false, not, ◌||◌, ◌&&◌, Option, none, some, List, [], ◌∷◌,
  str_eq, leb, if◌then◌else◌,
}
use emailjachai.Common.Text.{codes, includes, to_lower, trim, text_or, codes_eq}
use emailjachai.Stores.Reply.{Reply, replied, rejected}
use emailjachai.Captcha.Errors.{
  Source, PublicSettings, fetch_turnstile_config, get_api_error_message, is_captcha_error, is_code,
}

-- The component's state. A ref that follows a state variable (`emailRef`, `turnstileSiteKeyRef`) is that
-- variable. The counts that `localStorage` keeps are those of the state.
pub record Home : Type 0 where
  pub is_maintenance : Bool
  pub email : String
  pub is_loading : Bool
  pub status : Option String
  pub limit : Option ℕ
  pub remaining : Option ℕ
  pub is_initializing : Bool
  pub token : Option String
  pub reset_key : ℕ
  pub is_captcha_visible : Bool
  pub site_key : String
  pub is_required : Bool
  pub is_loading_ref : Bool
  pub is_pending_ref : Bool

-- The component as it mounts: the settings, and the counts that `localStorage` kept.
unfoldable pub init : Bool → Option String → Option String → Option ℕ → Option ℕ → Home
init is_maintenance site_key required limit remaining = record {
  is_maintenance = is_maintenance;
  email = "";
  is_loading = false;
  status = none;
  limit = limit;
  remaining = remaining;
  is_initializing = true;
  token = none;
  reset_key = 0;
  is_captcha_visible = false;
  site_key = text_or site_key "";
  is_required = is_code required "1";
  is_loading_ref = false;
  is_pending_ref = false;
}

pub record PublicStatus : Type 0 where
  pub limit : ℕ
  pub remaining : ℕ
  pub turnstile_required : Option Bool
  pub turnstile_site_key : Option String

abbrev pub or_else {ℓ} : {A : Type ℓ} → Option A → A → A
or_else none d = d
or_else (some a) d = a

-- `fetchStatus`, from its reply on.
unfoldable pub finish_status : Reply PublicStatus → Home → Home
finish_status rejected s = record s { is_initializing = false }
finish_status (replied false body m) s = record s { is_initializing = false }
finish_status (replied true none m) s = record s { is_initializing = false }
finish_status (replied true (some d) m) s = record s {
  is_initializing = false;
  limit = some d.limit;
  remaining = some d.remaining;
  site_key = text_or d.turnstile_site_key s.site_key;
  is_required = or_else d.turnstile_required s.is_required;
}

-- The effect that follows the settings.
unfoldable pub follow_settings : PublicSettings → Home → Home
follow_settings d s = record s {
  site_key = text_or d.turnstile_site_key s.site_key;
  is_required = elim d.turnstile_required [ none ↦ s.is_required | some v ↦ str_eq v "1" ];
}

abbrev pub needs_captcha : Home → Bool
needs_captcha s = s.is_required && not (str_eq s.site_key "")

-- `recoverCaptchaChallenge`: up to the request for the settings, and from there on.
abbrev pub begin_recovery : Home → Home
begin_recovery s = record s { token = none; is_required = true }

abbrev pub challenge : Home → Home
challenge s = record s {
  is_captcha_visible = true;
  reset_key = s.reset_key + 1;
  is_pending_ref = true;
}

abbrev pub give_up : Home → Home
give_up s = record s { is_captcha_visible = false; is_pending_ref = false }

unfoldable pub finish_recovery : Reply PublicSettings → Home → Home
unfolding fetch_turnstile_config
finish_recovery r s = elim (fetch_turnstile_config r) [
  | none ↦ give_up s
  | some c ↦
      if str_eq c.site_key "" then give_up s else challenge (record s { site_key = c.site_key })
]

pub record Request : Type 0 where
  pub email : String
  pub turnstile_token : String

-- `submitVerify` up to its request; `none` where it returns at once.
unfoldable pub begin_submit : Option String → Home → Option (Request × Home)
unfolding trim
begin_submit token s =
    if s.is_loading_ref || s.is_maintenance || str_eq (trim s.email) ""
    then none
    else some (
      record { email = trim s.email; turnstile_token = text_or token "" },
      record s { is_loading_ref = true; is_pending_ref = false; is_loading = true; status = none },
    )

-- An answer: its status is `success`, `error` or another, with the result's own status, the error as a
-- source of codes and messages, and its message.
pub data Answer : Type 0 where
  success : (result : Option String) → Answer
  failure : (error : Source) (message : Option String) → Answer
  unknown : (message : Option String) → Answer
  thrown : (error : Source) → Answer

-- `finally`.
abbrev pub end_submit : Home → Home
end_submit s = record s { is_loading_ref = false; is_loading = false }

abbrev pub drop_captcha : Home → Home
drop_captcha s = record s { token = none; is_captcha_visible = false }

-- What an answer leads to: the submission ends, or the settings are asked for first. `refresh` tells
-- that the counts are asked for again.
pub data Next : Type 0 where
  ended : (refresh : Bool) → Home → Next
  asking : Home → Next

unfoldable pub recover : Home → Next
recover s =
    let t = begin_recovery s in
    if str_eq t.site_key "" then asking t else ended false (end_submit (challenge t))

unfoldable pub finish_submit : Answer → Home → Next
unfolding recover is_captcha_error get_api_error_message
finish_submit (success result) s =
    ended true (end_submit (drop_captcha (record s { status = some (text_or result "Verified") })))
finish_submit (failure error message) s =
    let t = record s { status = some (text_or message "Error") } in
    if is_captcha_error error then recover t else ended false (end_submit (drop_captcha t))
finish_submit (unknown message) s =
    ended false (end_submit (drop_captcha (record s { status = some (text_or message "Unknown") })))
finish_submit (thrown error) s =
    let t = record s { status = some (get_api_error_message error "Error connecting to server") } in
    if is_captcha_error error then recover t else ended false (end_submit (drop_captcha t))

-- What the visitor's action leads to: nothing more, the registration page, or a request.
pub data Outcome : Type 0 where
  stay register : Home → Outcome
  send : Request → Home → Outcome

abbrev pub submit : Option String → Home → Outcome
submit token s = elim (begin_submit token s) [ none ↦ stay s | some (r, t) ↦ send r t ]

abbrev pub is_used_up : Option ℕ → Bool
is_used_up none = false
is_used_up (some n) = leb n 0

-- A token that is null or empty counts as none.
abbrev pub has_token : Option String → Bool
has_token none = false
has_token (some t) = not (str_eq t "")

unfoldable pub handle_verify : Home → Outcome
unfolding begin_submit trim
handle_verify s =
    let begun = submit s.token s in
    if str_eq (trim s.email) "" || s.is_maintenance || s.is_loading_ref
    then stay s
    else if not s.is_initializing && is_used_up s.remaining
    then register s
    else if needs_captcha s && not (has_token s.token)
    then stay (record s { is_pending_ref = true; is_captcha_visible = true; status = none })
    else begun

unfoldable pub handle_turnstile_token : Option String → Home → Outcome
unfolding begin_submit
handle_turnstile_token token s =
    let t = record s { token = token } in
    let begun = submit token t in if has_token token && s.is_pending_ref then begun else stay t

unfoldable pub handle_email_change : String → Home → Home
handle_email_change email s = record s { email = email; status = none }

pub data Look : Type 0 where
  plain disabled waiting good bad fair : Look

abbrev pub status_look : List ℕ → Look
status_look s =
    if includes s (codes "valid")
      && not (includes s (codes "invalid"))
      && not (includes s (codes "captcha"))
    then good
    else if includes s (codes "invalid")
        || includes s (codes "error")
        || includes s (codes "captcha")
    then bad
    else fair

-- The text and the style of the button.
unfoldable pub button : Home → String × Look
button s =
    if s.is_maintenance
    then ("Maintenance Active", disabled)
    else if s.is_loading
    then ("Verifying...", waiting)
    else if s.is_captcha_visible && not (has_token s.token)
    then ("Complete check", plain)
    else if str_eq (text_or s.status "") ""
    then ("Verify Now", plain)
    else (text_or s.status "", status_look (to_lower (text_or s.status "")))
