-- ===== src/Common/Keyed.antt =====
-- Lists of entries told apart by a key: what the stores keep, and the laws their updates share.
use mathlib.Core.Path.{◌≡◌, refl}
use mathlib.Core.Logic.{◌↔◌}
use mathlib.Core.Bool.{Bool, true, false, not}
use mathlib.Core.List.{List, [], ◌∷◌, map}
use mathlib.Core.Option.{none}
use Prim.Native.Nat.{ℕ, zero, suc}
use Prim.Native.String.{String}
use native.Mathlib.Omega.{arith}
use text.Mathlib.TextEquality.{eq_iff}
use emailjachai.Common.Tests.{◌==◌, str_eq}
use emailjachai.Common.Lists.{All, any, filter, find, take}

-- A key type with the test `===`.
pub record Key (K : Type 0) : Type 0 where
  pub same : K → K → Bool
  pub same_iff : (a b : K) → (same a b ≡ true) ↔ (a ≡ b)

pub num_iff : (a b : ℕ) → ((a == b) ≡ true) ↔ (a ≡ b)
num_iff a b = ground arith

instance abbrev pub num_key : Key ℕ
num_key = record { same = ◌==◌; same_iff = num_iff }

instance abbrev pub text_key : Key String
text_key = record { same = str_eq; same_iff = eq_iff }

module _ {A K : Type 0} (key : A → K) ⦃e : Key K⦄ where
  abbrev pub has_key : K → A → Bool
  has_key k a = e.same (key a) k

  -- No entry has the key.
  abbrev pub Fresh : K → List A → Type 0
  Fresh k = All (λ a. has_key k a ≡ false)

  -- No two entries have the same key.
  abbrev pub IsDistinct : List A → Type 0
  IsDistinct [] = Unit
  IsDistinct (a ∷ xs) = Fresh (key a) xs × IsDistinct xs

  pub Fresh-of_any : (k : K) (xs : List A) → any (has_key k) xs ≡ false → Fresh k xs
  Fresh-of_any k [] h = tt
  Fresh-of_any k (a ∷ xs) h = ground (arith, Fresh-of_any k xs)

  pub Fresh-remove : (k : K) (xs : List A) → Fresh k (filter (λ a. not (has_key k a)) xs)
  Fresh-remove k [] = tt
  Fresh-remove k (a ∷ xs) = ground (arith, Fresh-remove k xs)

  pub Fresh-take : (k : K) (n : ℕ) (xs : List A) → Fresh k xs → Fresh k (take n xs)
  Fresh-take k zero xs h = tt
  Fresh-take k (suc n) [] h = tt
  Fresh-take k (suc n) (a ∷ xs) (p, h) = (p, Fresh-take k n xs h)

  pub Fresh-filter : (k : K) (q : A → Bool) (xs : List A) → Fresh k xs → Fresh k (filter q xs)
  Fresh-filter k q [] h = tt
  Fresh-filter k q (a ∷ xs) (p, h) = ground (arith, Fresh-filter k q xs h)

  pub IsDistinct-take : (n : ℕ) (xs : List A) → IsDistinct xs → IsDistinct (take n xs)
  IsDistinct-take zero xs h = tt
  IsDistinct-take (suc n) [] h = tt
  IsDistinct-take (suc n) (a ∷ xs) (f, h) = (Fresh-take (key a) n xs f, IsDistinct-take n xs h)

  pub IsDistinct-filter : (q : A → Bool) (xs : List A) → IsDistinct xs → IsDistinct (filter q xs)
  IsDistinct-filter q [] h = tt
  IsDistinct-filter q (a ∷ xs) (f, h) =
      ground (arith, Fresh-filter (key a) q xs f, IsDistinct-filter q xs h)

  pub Fresh-map :
      (f : A → A)
      → ((a : A) → key (f a) ≡ key a)
      → (k : K) (xs : List A) → Fresh k xs
      → Fresh k (map f xs)
  Fresh-map f keeps k [] h = tt
  Fresh-map f keeps k (a ∷ xs) (p, h) = (rw (keeps a, has_key) p, Fresh-map f keeps k xs h)

  -- An update that keeps every key keeps the keys distinct.
  pub IsDistinct-map :
      (f : A → A)
      → ((a : A) → key (f a) ≡ key a)
      → (xs : List A) → IsDistinct xs
      → IsDistinct (map f xs)
  IsDistinct-map f keeps [] h = tt
  IsDistinct-map f keeps (a ∷ xs) (p, h) =
      (rw (keeps a) (Fresh-map f keeps (key a) xs p), IsDistinct-map f keeps xs h)

  pub find_of_Fresh : (k : K) (xs : List A) → Fresh k xs → find (has_key k) xs ≡ none
  find_of_Fresh k [] h = refl
  find_of_Fresh k (a ∷ xs) h = ground (arith, find_of_Fresh k xs)

  -- A search past a removed key is the search before the removal.
  pub find-remove_ne :
      (k j : K) (xs : List A)
      → e.same k j ≡ false
      → find (has_key j) (filter (λ a. not (has_key k a)) xs) ≡ find (has_key j) xs
  find-remove_ne k j [] h = refl
  find-remove_ne k j (a ∷ xs) h =
      ground (arith, find-remove_ne k j xs, e.same_iff (key a) k, e.same_iff (key a) j)
