-- ===== src/Captcha/Flights.antt =====
-- The requests of the home page's form as they come and go.
use emailjachai.Common.{
  ℕ, suc, ◌+◌, String, ◌≡◌, refl, ap, sym, subst, ◌∙◌, Bool, true, false, Option, none, some, arith,
  str_eq, Bool-cases, inl, inr, if◌then◌else◌,
}
use emailjachai.Stores.Reply.{Reply, replied, rejected}
use emailjachai.Captcha.Errors.{PublicSettings, is_captcha_error}
use emailjachai.Captcha.{
  Home, Request, stay, send, Answer, success, failure, unknown, thrown, Next, ended, asking,
  PublicStatus, init, finish_status, follow_settings, handle_email_change, finish_submit,
  finish_recovery, recover, end_submit,
}
use emailjachai.Captcha.Laws.{Action, act, act-IsAdmitted, act_kept}

-- The component, the number of checks under way, and the number of requests for the captcha's settings.
pub record World : Type 0 where
  pub home : Home
  pub checks : ℕ
  pub recoveries : ℕ

abbrev pub start : Home → World
start s = record { home = s; checks = 0; recoveries = 0 }

-- What can happen: an action of the visitor, an answer to a check, the settings of the captcha, and
-- what changes the component while requests are under way.
infix 40 ◌⟶◌
pub data ◌⟶◌ : World → World → Type 0 where
  stays :
      (a : Action) {s t : Home} {c r : ℕ}
      → act a s ≡ stay t
      → record { home = s; checks = c; recoveries = r }
        ⟶ record { home = t; checks = c; recoveries = r }
  sends :
      (a : Action) {s t : Home} {q : Request} {c r : ℕ}
      → act a s ≡ send q t
      → record { home = s; checks = c; recoveries = r }
        ⟶ record { home = t; checks = suc c; recoveries = r }
  ends :
      (a : Answer) {s t : Home} {refresh : Bool} {c r : ℕ}
      → finish_submit a s ≡ ended refresh t
      → record { home = s; checks = suc c; recoveries = r }
        ⟶ record { home = t; checks = c; recoveries = r }
  asks :
      (a : Answer) {s t : Home} {c r : ℕ}
      → finish_submit a s ≡ asking t
      → record { home = s; checks = suc c; recoveries = r }
        ⟶ record { home = t; checks = c; recoveries = suc r }
  recovers :
      (d : Reply PublicSettings) {s : Home} {c r : ℕ}
      → record { home = s; checks = c; recoveries = suc r }
        ⟶ record { home = end_submit (finish_recovery d s); checks = c; recoveries = r }
  counts :
      (d : Reply PublicStatus) {s : Home} {c r : ℕ}
      → record { home = s; checks = c; recoveries = r }
        ⟶ record { home = finish_status d s; checks = c; recoveries = r }
  settles :
      (d : PublicSettings) {s : Home} {c r : ℕ}
      → record { home = s; checks = c; recoveries = r }
        ⟶ record { home = follow_settings d s; checks = c; recoveries = r }
  types :
      (email : String) {s : Home} {c r : ℕ}
      → record { home = s; checks = c; recoveries = r }
        ⟶ record { home = handle_email_change email s; checks = c; recoveries = r }

infix 40 ◌⟶*◌
pub data ◌⟶*◌ : World → World → Type 0 where
  here : {w : World} → w ⟶* w
  then_ : {w x y : World} → w ⟶* x → x ⟶ y → w ⟶* y

abbrev one_if : Bool → ℕ
one_if b = if b then 1 else 0

-- The flag that keeps a second check away counts what is under way, and the button shows the flag.
abbrev pub Inv : World → Type 0
Inv w =
    (w.checks + w.recoveries ≡ one_if w.home.is_loading_ref)
    × (w.home.is_loading ≡ w.home.is_loading_ref)

-- An answer ends the check or keeps what is under way for the request that follows it.
abbrev Ends : Home → Next → Type 0
Ends s (ended refresh t) = (t.is_loading_ref ≡ false) × (t.is_loading ≡ false)
Ends s (asking t) = (t.is_loading_ref ≡ s.is_loading_ref) × (t.is_loading ≡ s.is_loading)

recover-Ends : (s : Home) (status : Option String) → Ends s (recover (record s { status = status }))
unfolding recover
recover-Ends s status = elim (Bool-cases (str_eq s.site_key "")) [
  | inl e ↦ rw (e, Ends) (refl, refl)
  | inr e ↦ rw (e, Ends) (refl, refl)
]

if-Ends : (b : Bool) (s : Home) (m n : Next) → Ends s m → Ends s n → Ends s (if b then m else n)
if-Ends true s m n h k = h
if-Ends false s m n h k = k

finish_submit-Ends : (a : Answer) (s : Home) → Ends s (finish_submit a s)
unfolding finish_submit
finish_submit-Ends (success result) s = (refl, refl)
finish_submit-Ends (failure error message) s =
    if-Ends (is_captcha_error error) s _ _ (recover-Ends s _) (refl, refl)
finish_submit-Ends (unknown message) s = (refl, refl)
finish_submit-Ends (thrown error) s =
    if-Ends (is_captcha_error error) s _ _ (recover-Ends s _) (refl, refl)

finish_status-Inv :
    (d : Reply PublicStatus) (s : Home)
    → ((finish_status d s).is_loading_ref ≡ s.is_loading_ref)
      × ((finish_status d s).is_loading ≡ s.is_loading)
unfolding finish_status
finish_status-Inv (replied true (some d) m) s = (refl, refl)
finish_status-Inv (replied true none m) s = (refl, refl)
finish_status-Inv (replied false body m) s = (refl, refl)
finish_status-Inv rejected s = (refl, refl)

step-Inv : {w x : World} → Inv w → w ⟶ x → Inv x
unfolding follow_settings handle_email_change
step-Inv (n, l) (stays a {s} {t} h) =
    let (p, q) = act_kept a s t h in (n ∙ ap one_if (sym p), q ∙ l ∙ sym p)
step-Inv (n, l) (sends a {s} {t} {q} h) =
    let v = act-IsAdmitted a s t q h in ground (arith, v.idle, v.busy, v.shown)
step-Inv (n, l) (ends a {s} {t} {refresh = b} h) =
    let (p, q) = subst (Ends s) h (finish_submit-Ends a s) in ground arith
step-Inv (n, l) (asks a {s} {t} h) =
    let (p, q) = subst (Ends s) h (finish_submit-Ends a s) in ground arith
step-Inv (n, l) (recovers d {s}) = (ground arith, refl)
step-Inv (n, l) (counts d {s}) =
    let (p, q) = finish_status-Inv d s in (n ∙ ap one_if (sym p), q ∙ l ∙ sym p)
step-Inv (n, l) (settles d) = (n, l)
step-Inv (n, l) (types email) = (n, l)

steps-Inv : {w x : World} → Inv w → w ⟶* x → Inv x
steps-Inv v here = v
steps-Inv v (then_ ws h) = step-Inv (steps-Inv v ws) h

-- From the component as it mounts, whatever the visitor does and whatever answers arrive, in any order,
-- at most one check or one request for the captcha's settings is under way; the flag that keeps a
-- second one away is set exactly then, and so is the one that shows it on the button.
pub one_check :
    (m : Bool) (key required : Option String) (limit remaining : Option ℕ) {w : World}
    → start (init m key required limit remaining) ⟶* w
    → (w.checks + w.recoveries ≡ (if w.home.is_loading_ref then 1 else 0))
      × (w.home.is_loading ≡ w.home.is_loading_ref)
unfolding init
one_check m key required limit remaining h = steps-Inv (refl, refl) h
