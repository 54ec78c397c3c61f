-- ===== src/Pages/JobControl/Laws.antt =====
-- Which limits are saved, and which removals are sent.
use emailjachai.Common.{
  ℕ, ◌≤◌, String, ◌≡◌, ◌⊎◌, refl, sym, subst, Bool, true, false, not, ◌||◌, Option, none, some,
  arith, str_eq, eq_iff, any, Bool-cases, inl, inr, if◌then◌else◌,
}
use mathlib.Core.Option.{some-injective}
use emailjachai.Common.Text.{confirms}
use emailjachai.Amount.{to_number}
use emailjachai.Stores.Reply.{Reply, replied, rejected}
use emailjachai.Pages.JobControl.{
  within, is_between, Settings, accepts, Cleanup, deleting, confirm, success, allowed_cleanup_days,
  begin_cleanup, finish_cleanup, CleanupResult,
}

-- A text of digits whose number lies between two bounds.
abbrev pub Between : ℕ → ℕ → String → Type 0
Between lo hi s = (n : ℕ) × (to_number s ≡ some n) × (lo ≤ n) × (n ≤ hi)

within-Between :
    (lo hi : ℕ) (o : Option ℕ)
    → within lo hi o ≡ true
    → (n : ℕ) × (o ≡ some n) × (lo ≤ n) × (n ≤ hi)
within-Between lo hi none h = absurd (cc h)
within-Between lo hi (some n) h = (n, refl, ground arith, ground arith)

is_between-Between : (lo hi : ℕ) (s : String) → is_between lo hi s ≡ true → Between lo hi s
unfolding is_between
is_between-Between lo hi s h = within-Between lo hi (to_number s) (ground arith)

-- Limits that the form accepts are numbers: at most a million and at least ten addresses for a job, at
-- most ten thousand jobs of a user at a time, one to ten preparations and one to a hundred workers.
pub accepts-Between :
    (s : Settings)
    → accepts s ≡ true
    → Between 10 1000000 s.max_emails_per_job
      × Between 0 10000 s.max_active_jobs_per_user
      × Between 1 10 s.prepare_concurrency
      × Between 1 100 s.worker_concurrency
unfolding accepts
accepts-Between s h = (
  is_between-Between 10 1000000 s.max_emails_per_job (ground arith),
  is_between-Between 0 10000 s.max_active_jobs_per_user (ground arith),
  is_between-Between 1 10 s.prepare_concurrency (ground arith),
  is_between-Between 1 100 s.worker_concurrency (ground arith),
)

-- What a text is, where it is one of those given.
to_number_of :
    (n : ℕ) (days lit : String)
    → to_number lit ≡ some n
    → str_eq days lit ≡ true
    → to_number days ≡ some n
to_number_of n days lit e h = subst (λ d. to_number d ≡ some n) (sym ((eq_iff days lit).0 h)) e

abbrev pub OfferedDays : Option ℕ → Type 0
OfferedDays d = (d ≡ some 7) ⊎ (d ≡ some 14) ⊎ (d ≡ some 21) ⊎ (d ≡ some 30)

allowed_days :
    (days : String) → any (str_eq days) allowed_cleanup_days ≡ true → OfferedDays (to_number days)
unfolding to_number
allowed_days days h = elim (Bool-cases (str_eq days "7")) [
  | inl e ↦ inl (to_number_of 7 days "7" refl e)
  | inr a ↦ elim (Bool-cases (str_eq days "14")) [
    | inl e ↦ inr (inl (to_number_of 14 days "14" refl e))
    | inr b ↦ elim (Bool-cases (str_eq days "21")) [
      | inl e ↦ inr (inr (inl (to_number_of 21 days "21" refl e)))
      | inr c ↦ inr (inr (inr (to_number_of 30 days "30" refl (ground arith))))
    ]
  ]
]

-- Whether the server granted a request.
abbrev pub is_granted : {A : Type 0} → Reply A → Bool
is_granted (replied granted body m) = granted
is_granted rejected = false

finish_cleanup_lem :
    (r : Reply CleanupResult) (t : Cleanup)
    → ((finish_cleanup r t).is_cleaning ≡ false)
      × ((finish_cleanup r t).step ≡ (if is_granted r then success else confirm))
unfolding finish_cleanup
finish_cleanup_lem (replied true body m) t = (refl, refl)
finish_cleanup_lem (replied false body m) t = (refl, refl)
finish_cleanup_lem rejected t = (refl, refl)

-- A removal of old jobs goes out only after the phrase, for seven, fourteen, twenty-one or thirty days,
-- and none while another is under way; the dialog then shows that it runs until its answer comes: a
-- success is shown as one, anything else leads back to the confirmation.
pub begin_cleanup_lem :
    (s t : Cleanup) (days : Option ℕ) (r : Reply CleanupResult)
    → begin_cleanup s ≡ some (days, t)
    → (s.is_cleaning ≡ false)
      × (confirms "DELETE" s.confirm_text ≡ true)
      × OfferedDays days
      × (begin_cleanup t ≡ none)
      × (t.step ≡ deleting)
      × ((finish_cleanup r t).is_cleaning ≡ false)
      × ((finish_cleanup r t).step ≡ (if is_granted r then success else confirm))
unfolding begin_cleanup
begin_cleanup_lem s t days r h =
    elim (Bool-cases (
      s.is_cleaning
      || not (any (str_eq s.days) allowed_cleanup_days)
      || not (confirms "DELETE" s.confirm_text))) [
        | inl e ↦ absurd (cc (rw (e, begin_cleanup) at h))
        | inr e ↦
            let k = some-injective _ _ (rw (e, begin_cleanup) at h) in
            let (clean, done) = finish_cleanup_lem r t in
            (
              ground arith,
              ground arith,
              subst (λ x. OfferedDays x.0) k (allowed_days s.days (ground arith)),
              subst (λ x. begin_cleanup x.1 ≡ none) k refl,
              subst (λ x. x.1.step ≡ deleting) k refl,
              clean,
              done,
            )
      ]
