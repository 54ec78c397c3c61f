-- ===== src/Socket/Backoff.antt =====
-- The delays between attempts to reconnect.
use native.Mathlib.Nat.{pow-le-pow_right, le-add_right}
use emailjachai.Common.{ℕ, ◌+◌, ◌^◌, ◌≤◌, ◌≡◌, arith}
use emailjachai.Socket.{backoff}

two_pow_mono : (n k : ℕ) → 2 ^ n ≤ 2 ^ (n + k)
two_pow_mono n k = pow-le-pow_right (omega arith) (le-add_right n k)

-- Every delay lies between one and thirty seconds, delays never fall from one attempt to a later one,
-- and from the sixth attempt on each is thirty seconds.
pub backoff_bounds :
    (n k : ℕ)
    → (1000 ≤ backoff n)
      × (backoff n ≤ 30000)
      × (backoff n ≤ backoff (n + k))
      × (backoff (5 + k) ≡ 30000)
unfolding backoff
backoff_bounds n k = (
  omega (arith, pow-le-pow_right {n = 2} (omega arith) {i = 0} {j = n} (omega arith)),
  omega arith,
  omega (arith, two_pow_mono n k),
  omega (arith, two_pow_mono 5 k),
)
