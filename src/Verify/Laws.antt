-- ===== src/Verify/Laws.antt =====
-- The debit before the answer, and what takes it back.
use mathlib.Core.Option.{some-injective}
use emailjachai.Common.{
  ℕ, ◌-◌, String, ◌≡◌, refl, ap, subst, ◌∙◌, Bool, true, false, not, Option, none, some,
  Option-cases, inl, inr, Bool-cases, str_eq, ◌||◌,
}
use emailjachai.Common.Text.{to_lower, trim, text_or}
use emailjachai.Amount.{parse_credits}
use emailjachai.Amount.Digits.{parse_credits-format_number}
use emailjachai.Stores.Credits.{deduct_credits, set_balance}
use emailjachai.Stores.Dashboard.{DashboardStats, set_stats}
use emailjachai.Verify.{Desk, debit_stats}
use emailjachai.Verify.Single.{
  Form, Pending, Answer, answered, thrown, begin_verify, finish_verify, undo_answered, undo_thrown,
}

-- The number that figures show, where they are loaded and show one.
abbrev pub shown_by : Option DashboardStats → Option ℕ
shown_by none = none
shown_by (some d) = parse_credits d.credits_remaining

-- The figures and the balance show the same number.
abbrev pub Agree : Desk → Type 0
Agree s = shown_by s.dashboard.stats ≡ some s.credits.balance

pub debit_stats-credits :
    (o : Option DashboardStats) (n now : ℕ) (s : Desk) → (debit_stats o n now s).credits ≡ s.credits
unfolding debit_stats
debit_stats-credits none n now s = refl
debit_stats-credits (some d) n now s = elim (Option-cases (parse_credits d.credits_remaining)) [
  | inl e ↦ rw (e, debit_stats) refl
  | inr (c, e) ↦ rw (e, debit_stats) refl
]

shown_by-debit_stats :
    (o : Option DashboardStats) (n c now : ℕ) (s : Desk)
    → shown_by o ≡ some c
    → shown_by (debit_stats o n now s).dashboard.stats ≡ some (c - n)
unfolding debit_stats set_stats
shown_by-debit_stats none n c now s h = absurd (cc h)
shown_by-debit_stats (some d) n c now s h =
    rw (h, debit_stats) (parse_credits-format_number (c - n))

-- What a submission begins with.
abbrev begun : String → ℕ → Form → Desk → Pending × Form × Desk
begun key now f s = (
  record {
    email = to_lower (trim f.email);
    key = key;
    previous_stats = s.dashboard.stats;
    previous_balance = s.credits.balance;
  },
  record f { is_submitting = true; is_loading = true; error = none },
  record (debit_stats s.dashboard.stats 1 now s) {
    credits = deduct_credits 1 (debit_stats s.dashboard.stats 1 now s).credits;
  },
)

begin_verify-begun :
    (m : Bool) (key : String) (now : ℕ) (f : Form) (s : Desk) (r : Pending × Form × Desk)
    → begin_verify m key now f s ≡ some r
    → begun key now f s ≡ r
unfolding begin_verify
begin_verify-begun m key now f s r h =
    elim (Bool-cases (str_eq f.email "" || m || f.is_submitting)) [
      | inl e ↦ absurd (cc (rw (e, begin_verify) at h))
      | inr e ↦ some-injective _ _ (rw (e, begin_verify) at h)
    ]

-- When the figures and the balance show one number, they still do once a verification has begun: both
-- show one credit less, and none less than zero.
pub begin_verify-Agree :
    (m : Bool) (key : String) (now : ℕ) (f : Form) (s : Desk) (r : Pending × Form × Desk)
    → Agree s
    → begin_verify m key now f s ≡ some r
    → Agree r.2 × (r.2.credits.balance ≡ s.credits.balance - 1)
unfolding deduct_credits
begin_verify-Agree m key now f s r a h =
    subst (λ x. Agree x.2 × (x.2.credits.balance ≡ s.credits.balance - 1))
      (begin_verify-begun m key now f s r h)
      (rw (debit_stats-credits s.dashboard.stats 1 now s)
        (shown_by-debit_stats s.dashboard.stats 1 s.credits.balance now s a, refl))

-- Whether an answer is no success.
abbrev pub fails : {R : Type 0} → Answer R → Bool
fails (answered success result m) = not success
fails (thrown m) = true

-- What a failure leaves of the figures: the ones that were found, or those of now with the credits
-- that were found.
abbrev pub undone :
    {R : Type 0} → Answer R → Option DashboardStats → Option DashboardStats → Option DashboardStats
undone (answered success result m) none now = now
undone (thrown m) none now = now
undone (answered success result m) (some d) now = some d
undone (thrown m) (some d) none = none
undone (thrown m) (some d) (some e) = some (record e { credits_remaining = d.credits_remaining })

-- What a failure shows as its message.
abbrev pub failure_message : {R : Type 0} → Answer R → String
failure_message (answered success result m) = text_or m "Failed to verify email"
failure_message (thrown m) = m

-- A form that is enabled again, with the address that it had and the message of the failure.
abbrev pub IsReady : {R : Type 0} → Answer R → Form → Form → Type 0
IsReady a before after =
    (after.is_submitting ≡ false)
    × (after.is_loading ≡ false)
    × (after.email ≡ before.email)
    × (after.error ≡ some (failure_message a))

finish_verify-undone :
    {R : Type 0} (p : Pending) (a : Answer R) (now : ℕ) (g : Form) (u : Desk)
    → fails a ≡ true
    → ((finish_verify p a now g u).0.credits ≡ set_balance p.previous_balance u.credits)
      × ((finish_verify p a now g u).0.dashboard.stats
          ≡ undone a p.previous_stats u.dashboard.stats)
      × IsReady a g (finish_verify p a now g u).1
unfolding finish_verify undo_answered undo_thrown set_stats
finish_verify-undone p (answered true result m) now g u h = absurd (cc h)
finish_verify-undone p (answered false result m) now g u h = elim (Option-cases p.previous_stats) [
  | inl e ↦ rw e (refl, refl, (refl, refl, refl, refl))
  | inr (d, e) ↦ rw e (refl, refl, (refl, refl, refl, refl))
]
finish_verify-undone p (thrown m) now g u h = elim (Option-cases p.previous_stats) [
  | inl e ↦ rw e (refl, refl, (refl, refl, refl, refl))
  | inr (d, e) ↦ elim (Option-cases u.dashboard.stats) [
    | inl k ↦ rw (e, k) (refl, refl, (refl, refl, refl, refl))
    | inr (c, k) ↦ rw (e, k) (refl, refl, (refl, refl, refl, refl))
  ]
]

-- A debit of figures that are still there is undone.
undone-debit_stats :
    {R : Type 0} (a : Answer R) (o : Option DashboardStats) (now : ℕ) (s : Desk)
    → s.dashboard.stats ≡ o
    → undone a o (debit_stats o 1 now s).dashboard.stats ≡ o
unfolding debit_stats set_stats
undone-debit_stats (answered x y m) none now s h = h
undone-debit_stats (thrown m) none now s h = h
undone-debit_stats (answered x y m) (some d) now s h = refl
undone-debit_stats (thrown m) (some d) now s h =
    elim (Option-cases (parse_credits d.credits_remaining)) [
      | inl k ↦ rw (k, debit_stats, h) refl
      | inr (c, k) ↦ rw (k, debit_stats) refl
    ]

-- A verification that fails with nothing in between leaves the figures and the credits as they were
-- before it began. The form then has the address that it had and the message of the failure, and is
-- neither loading nor submitting.
pub finish-begin_verify :
    {R : Type 0} (m : Bool) (key : String) (now later : ℕ) (f : Form) (s : Desk)
    (r : Pending × Form × Desk) (a : Answer R)
    → begin_verify m key now f s ≡ some r
    → fails a ≡ true
    → ((finish_verify r.0 a later r.1 r.2).0.dashboard.stats ≡ s.dashboard.stats)
      × ((finish_verify r.0 a later r.1 r.2).0.credits ≡ s.credits)
      × IsReady a f (finish_verify r.0 a later r.1 r.2).1
unfolding set_balance deduct_credits
finish-begin_verify m key now later f s r a h k =
    subst
      (λ x.
        ((finish_verify x.0 a later x.1 x.2).0.dashboard.stats ≡ s.dashboard.stats)
        × ((finish_verify x.0 a later x.1 x.2).0.credits ≡ s.credits)
        × IsReady a f (finish_verify x.0 a later x.1 x.2).1)
      (begin_verify-begun m key now f s r h)
      (let x = begun key now f s in
        let (b, c, e) = finish_verify-undone x.0 a later x.1 x.2 k in
        (
          c ∙ undone-debit_stats a s.dashboard.stats now s refl,
          b
              ∙ ap (λ y. set_balance s.credits.balance (deduct_credits 1 y))
                  (debit_stats-credits s.dashboard.stats 1 now s),
          e,
        ))

-- A verification that fails sets the balance back to what it was before the verification began,
-- whatever the stores came to hold in between: a balance that arrived in that time is lost. So are all
-- the figures that arrived in that time, where the server answered; where the request itself failed,
-- only their credits are.
pub failure_overwrites :
    {R : Type 0} (m : Bool) (key : String) (now later : ℕ) (f g : Form) (s u : Desk)
    (r : Pending × Form × Desk) (a : Answer R)
    → begin_verify m key now f s ≡ some r
    → fails a ≡ true
    → ((finish_verify r.0 a later g u).0.credits.balance ≡ s.credits.balance)
      × ((finish_verify r.0 a later g u).0.dashboard.stats
          ≡ undone a s.dashboard.stats u.dashboard.stats)
unfolding set_balance
failure_overwrites m key now later f g s u r a h k =
    subst
      (λ x.
        ((finish_verify x.0 a later g u).0.credits.balance ≡ s.credits.balance)
        × ((finish_verify x.0 a later g u).0.dashboard.stats
            ≡ undone a s.dashboard.stats u.dashboard.stats))
      (begin_verify-begun m key now f s r h)
      (let (b, c, e) = finish_verify-undone (begun key now f s).0 a later g u k in
        (ap (λ x. x.balance) b, c))
