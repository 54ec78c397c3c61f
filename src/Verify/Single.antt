-- ===== src/Verify/Single.antt =====
-- frontend/features/single-verify/components/form.tsx: one address is verified for one credit.
use emailjachai.Common.{
  ℕ, String, Bool, true, false, ◌||◌, Option, none, some, List, str_eq, if◌then◌else◌,
}
use emailjachai.Common.Text.{trim, to_lower, text_or}
use emailjachai.Stores.Credits.{deduct_credits, set_balance}
use emailjachai.Stores.Dashboard.{DashboardStats}
use emailjachai.Verify.{Desk, with_stats, debit_stats, refetch}

pub record Form : Type 0 where
  pub email : String
  pub is_loading : Bool
  pub error : Option String
  pub is_submitting : Bool

-- What the handler holds while its request is under way: the address it sends, as code points, the
-- key, and the figures and the balance that it found.
pub record Pending : Type 0 where
  pub email : List ℕ
  pub key : String
  pub previous_stats : Option DashboardStats
  pub previous_balance : ℕ

-- An answer with its status, the result it carries, and its message, or an exception with a message.
pub data Answer (R : Type 0) : Type 0 where
  answered : (success : Bool) (result : Option R) (message : Option String) → Answer R
  thrown : (message : String) → Answer R

unfoldable pub begin_verify : Bool → String → ℕ → Form → Desk → Option (Pending × Form × Desk)
unfolding debit_stats deduct_credits trim
begin_verify is_maintenance key now f s =
    if str_eq f.email "" || is_maintenance || f.is_submitting
    then none
    else some (
      record {
        email = to_lower (trim f.email);
        key = key;
        previous_stats = s.dashboard.stats;
        previous_balance = s.credits.balance;
      },
      record f { is_submitting = true; is_loading = true; error = none },
      let t = debit_stats s.dashboard.stats 1 now s in
          record t { credits = deduct_credits 1 t.credits },
    )

-- An answer that is no success puts back the figures as they were found; an exception puts the
-- credits that were found into the figures as they are now. Both put back the balance.
unfoldable pub undo_answered : Pending → ℕ → Desk → Desk
undo_answered p now s = elim p.previous_stats [ none ↦ s | some d ↦ with_stats d now s ]

unfoldable pub undo_thrown : Pending → ℕ → Desk → Desk
undo_thrown p now s = elim p.previous_stats [
  | none ↦ s
  | some d ↦ elim s.dashboard.stats [
    | none ↦ s
    | some e ↦ with_stats (record e { credits_remaining = d.credits_remaining }) now s
  ]
]

abbrev pub put_back : ℕ → Desk → Desk
unfolding set_balance
put_back balance s = record s { credits = set_balance balance s.credits }

abbrev pub leave : Option String → Form → Form
leave error f = record f { is_submitting = false; is_loading = false; error = error }

-- The stores, the form, and the result that is handed on.
unfoldable pub finish_verify :
    {R : Type 0} → Pending → Answer R → ℕ → Form → Desk → Desk × Form × Option R
unfolding undo_answered undo_thrown refetch set_balance
finish_verify p (answered true result m) now f s = (refetch s, leave f.error f, result)
finish_verify p (answered false result m) now f s = (
  put_back p.previous_balance (undo_answered p now s),
  leave (some (text_or m "Failed to verify email")) f,
  none,
)
finish_verify p (thrown m) now f s =
    (put_back p.previous_balance (undo_thrown p now s), leave (some m) f, none)
