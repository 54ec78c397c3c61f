-- ===== src/Captcha/Tests.antt =====
-- The home page's form with one address.
use emailjachai.Common.{◌+◌, ◌≡◌, refl, true, false, none, some, if◌then◌else◌, str_eq}
use emailjachai.Common.Text.{trim}
use emailjachai.Stores.Dashboard.{missing, text}
use emailjachai.Captcha.Errors.{Source, is_captcha_error}
use emailjachai.Captcha.{Home, Request, ended, send, init, finish_submit, handle_email_change}
use emailjachai.Captcha.Laws.{
  verify, token, act, IsAdmitted, act-IsAdmitted, turned_down, retry_with_token,
}
use emailjachai.Captcha.Flights.{start, ◌⟶*◌, here, then_, sends, types, one_check}

abbrev filled : Home
filled = record {
  is_maintenance = false;
  email = "a@b";
  is_loading = false;
  status = none;
  limit = none;
  remaining = none;
  is_initializing = true;
  token = none;
  reset_key = 0;
  is_captcha_visible = false;
  site_key = "site";
  is_required = false;
  is_loading_ref = false;
  is_pending_ref = false;
}

abbrev checking : Home
checking = record filled { is_loading_ref = true; is_loading = true }

abbrev request : Request
request = record { email = "a@b"; turnstile_token = "" }

filled-sends : act verify filled ≡ send request checking
unfolding act
filled-sends = refl

act-IsAdmitted_example : IsAdmitted filled request checking
act-IsAdmitted_example = act-IsAdmitted verify filled checking request filled-sends

-- The error that is thrown for an answer with the status 400.
abbrev refusal : Source
refusal = some (record {
  code = text "ERR_BAD_REQUEST";
  api_error_code = missing;
  message = text "Request failed with status code 400";
  response_data = some (record { code = text "ERR_CAPTCHA"; message = text "Check needed" });
  error_message = some "Request failed with status code 400";
})

refusal-captcha : is_captcha_error refusal ≡ true
unfolding is_captcha_error
refusal-captcha = refl

address_filled : str_eq (trim "a@b") "" ≡ false
unfolding trim
address_filled = refl

retry_with_token_example :
    (u v : Home) × (finish_submit (turned_down true refusal none) checking ≡ ended false u)
    × (u.token ≡ none)
    × (u.is_captcha_visible ≡ true)
    × (u.reset_key ≡ checking.reset_key + 1)
    × (act (token (some "t")) u ≡ send (record { email = trim "a@b"; turnstile_token = "t" }) v)
retry_with_token_example =
    retry_with_token true refusal none "t" checking refusal-captcha refl refl address_filled refl

trace :
    start (init false (some "site") none none none)
    ⟶* record { home = checking; checks = 1; recoveries = 0 }
unfolding init handle_email_change
trace = then_ (then_ here (types "a@b")) (sends verify filled-sends)

one_check_example :
    (1 + 0 ≡ (if checking.is_loading_ref then 1 else 0))
    × (checking.is_loading ≡ checking.is_loading_ref)
one_check_example = one_check false (some "site") none none none trace
