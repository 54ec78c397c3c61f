-- ===== src/Captcha/Laws.antt =====
-- Which checks are sent, and how a refused one goes on.
use emailjachai.Common.{
  ◌+◌, String, ◌≡◌, refl, subst, Bool, true, false, not, ◌||◌, ◌&&◌, Option, none, some, arith,
  str_eq, Bool-cases, inl, inr,
}
use emailjachai.Common.Text.{trim, text_or}
use emailjachai.Captcha.Errors.{Source, get_api_error_message, is_captcha_error}
use emailjachai.Captcha.{
  Home, Request, Answer, Outcome, stay, register, send, failure, thrown, ended, needs_captcha,
  has_token, is_used_up, submit, begin_submit, handle_verify, handle_turnstile_token, finish_submit,
  recover,
}

-- What a visitor does that may send a check: the button, or the captcha, which gives a token or takes
-- it back.
pub data Action : Type 0 where
  verify : Action
  token : Option String → Action

unfoldable pub act : Action → Home → Outcome
unfolding handle_verify handle_turnstile_token
act verify s = handle_verify s
act (token t) s = handle_turnstile_token t s

-- A check that may be sent from a state.
pub record IsAdmitted (s : Home) (r : Request) (t : Home) : Type 0 where
  pub open_to_visitors : s.is_maintenance ≡ false
  pub idle : s.is_loading_ref ≡ false
  pub address : r.email ≡ trim s.email
  pub filled : str_eq r.email "" ≡ false
  pub answered : (needs_captcha s && str_eq r.turnstile_token "") ≡ false
  pub busy : t.is_loading_ref ≡ true
  pub shown : t.is_loading ≡ true

abbrev Admits : Home → Outcome → Type 0
Admits s (stay t) = Unit
Admits s (register t) = Unit
Admits s (send r t) = IsAdmitted s r t

token_answered :
    (k : Option String) (n : Bool)
    → (n && not (has_token k)) ≡ false
    → (n && str_eq (text_or k "") "") ≡ false
token_answered none n h = h
token_answered (some t) n h = ground arith

submit-Admits :
    (k o : Option String) (s : Home)
    → (needs_captcha s && not (has_token k)) ≡ false
    → Admits s (submit k (record s { token = o }))
unfolding begin_submit
submit-Admits k o s h =
    elim (Bool-cases (s.is_loading_ref || s.is_maintenance || str_eq (trim s.email) "")) [
      | inl e ↦ rw (e, Admits) tt
      | inr e ↦
          rw (e, Admits)
            (record {
              open_to_visitors = ground arith;
              idle = ground arith;
              address = refl;
              filled = ground arith;
              answered = token_answered k (needs_captcha s) h;
              busy = refl;
              shown = refl;
            })
    ]

act-Admits : (a : Action) (s : Home) → Admits s (act a s)
unfolding act handle_verify handle_turnstile_token
act-Admits verify s =
    elim (Bool-cases (str_eq (trim s.email) "" || s.is_maintenance || s.is_loading_ref)) [
      | inl e ↦ rw e tt
      | inr e ↦ elim (Bool-cases (not s.is_initializing && is_used_up s.remaining)) [
        | inl f ↦ rw (e, f) tt
        | inr f ↦ elim (Bool-cases (needs_captcha s && not (has_token s.token))) [
          | inl g ↦ rw (e, f, g) tt
          | inr g ↦ rw (e, f, g) (submit-Admits s.token s.token s g)
        ]
      ]
    ]
act-Admits (token k) s = elim (Bool-cases (has_token k && s.is_pending_ref)) [
  | inl e ↦ rw e (submit-Admits k k s (ground arith))
  | inr e ↦ rw e tt
]

-- A check goes out only while the site is open and no other is under way, for an address that is not
-- blank, and, where a captcha is needed, with a token; the button then shows that it is under way.
pub act-IsAdmitted : (a : Action) (s t : Home) (r : Request) → act a s ≡ send r t → IsAdmitted s r t
act-IsAdmitted a s t r h = subst (Admits s) h (act-Admits a s)

abbrev renewed : String → Home → Home
renewed shown s = record s {
  token = none;
  is_required = true;
  is_captcha_visible = true;
  reset_key = s.reset_key + 1;
  is_pending_ref = true;
  is_loading_ref = false;
  is_loading = false;
  status = some shown;
}

abbrev checking : String → String → Home → Home
checking k shown s = record (renewed shown s) {
  token = some k;
  is_loading_ref = true;
  is_pending_ref = false;
  is_loading = true;
  status = none;
}

-- An error in an answer, with its message, or one that the request throws, as it does for an answer with
-- a status of failure.
abbrev pub turned_down : Bool → Source → Option String → Answer
turned_down true error message = thrown error
turned_down false error message = failure error message

-- A check that the captcha turns down while the site's key is known, be it in an answer or by an error
-- that the request throws, asks for a new token and takes none of the old: the page then holds no token
-- and shows the captcha afresh. As soon as a token arrives, the check goes out again with it, for the
-- address that stands there, with no press of the button.
pub retry_with_token :
    (is_thrown : Bool) (error : Source) (message : Option String) (k : String) (s : Home)
    → is_captcha_error error ≡ true
    → str_eq s.site_key "" ≡ false
    → s.is_maintenance ≡ false
    → str_eq (trim s.email) "" ≡ false
    → str_eq k "" ≡ false
    → (u v : Home) × (finish_submit (turned_down is_thrown error message) s ≡ ended false u)
      × (u.token ≡ none)
      × (u.is_captcha_visible ≡ true)
      × (u.reset_key ≡ s.reset_key + 1)
      × (act (token (some k)) u ≡ send (record { email = trim s.email; turnstile_token = k }) v)
unfolding act finish_submit recover handle_turnstile_token begin_submit
retry_with_token false error message k s c known public filled fresh =
    let shown = text_or message "Error" in
    (
      renewed shown s,
      checking k shown s,
      rw (c, known) refl,
      refl,
      refl,
      refl,
      rw (fresh, public, submit, filled) refl,
    )
retry_with_token true error message k s c known public filled fresh =
    let shown = get_api_error_message error "Error connecting to server" in
    (
      renewed shown s,
      checking k shown s,
      rw (c, known) refl,
      refl,
      refl,
      refl,
      rw (fresh, public, submit, filled) refl,
    )

-- An action that sends nothing leaves what is under way as it was.
abbrev Keeps : Home → Outcome → Type 0
Keeps s (stay t) = (t.is_loading_ref ≡ s.is_loading_ref) × (t.is_loading ≡ s.is_loading)
Keeps s (register t) = Unit
Keeps s (send r t) = Unit

submit-Keeps : (k o : Option String) (s : Home) → Keeps s (submit k (record s { token = o }))
unfolding begin_submit
submit-Keeps k o s =
    elim (Bool-cases (s.is_loading_ref || s.is_maintenance || str_eq (trim s.email) "")) [
      | inl e ↦ rw (e, Keeps) (refl, refl)
      | inr e ↦ rw (e, Keeps) tt
    ]

act-Keeps : (a : Action) (s : Home) → Keeps s (act a s)
unfolding act handle_verify handle_turnstile_token
act-Keeps verify s =
    elim (Bool-cases (str_eq (trim s.email) "" || s.is_maintenance || s.is_loading_ref)) [
      | inl e ↦ rw (e, Keeps) (refl, refl)
      | inr e ↦ elim (Bool-cases (not s.is_initializing && is_used_up s.remaining)) [
        | inl f ↦ rw (e, f, Keeps) tt
        | inr f ↦ elim (Bool-cases (needs_captcha s && not (has_token s.token))) [
          | inl g ↦ rw (e, f, g, Keeps) (refl, refl)
          | inr g ↦ rw (e, f, g) (submit-Keeps s.token s.token s)
        ]
      ]
    ]
act-Keeps (token k) s = elim (Bool-cases (has_token k && s.is_pending_ref)) [
  | inl e ↦ rw e (submit-Keeps k k s)
  | inr e ↦ rw (e, Keeps) (refl, refl)
]

pub act_kept :
    (a : Action) (s t : Home)
    → act a s ≡ stay t
    → (t.is_loading_ref ≡ s.is_loading_ref) × (t.is_loading ≡ s.is_loading)
act_kept a s t h = subst (Keeps s) h (act-Keeps a s)
