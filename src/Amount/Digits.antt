-- ===== src/Amount/Digits.antt =====
-- A shown amount is read back.
use Prim.Native.Char.{code}
use Prim.Native.String.append as str_append
use emailjachai.Common.{
  ℕ, zero, suc, ◌+◌, ◌-◌, ◌*◌, ◌/◌, ◌%◌, ◌≤◌, ◌<◌, String, ◌≡◌, refl, sym, ap, subst, ◌∙◌, Option,
  none, some, arith, leb, ◌==◌, if◌then◌else◌, Bool-cases, inl, inr, Bool, true, false,
}
use emailjachai.Common.Text.{
  ◌&◌, digit_text, show_from, show_num, is_digit, is_space, trim, trim_end, trim_start,
}
use emailjachai.Amount.{
  three_digits, group_from, format_number, remove_commas, digits_value, to_number, parse_credits,
}

-- The reading of a text past its commas.
unfoldable read : ℕ → String → Option ℕ
read acc String.[] = some acc
read acc (String.◌∷◌ c s) =
    let skipped = read acc s in
    let taken = read (acc * 10 + (code c - b'0')) s in
    if code c == b',' then skipped else if is_digit (code c) then taken else none

-- The texts that the grouping writes: digits and commas.
abbrev is_shown : ℕ → Bool
is_shown c = if c == b',' then true else is_digit c

abbrev AllChars : (ℕ → Bool) → String → Type 0
AllChars p String.[] = Unit
AllChars p (String.◌∷◌ c s) = (p (code c) ≡ true) × AllChars p s

abbrev bind : Option ℕ → (ℕ → Option ℕ) → Option ℕ
bind none f = none
bind (some n) f = f n

read-append : (acc : ℕ) (s t : String) → read acc (s & t) ≡ bind (read acc s) (λ n. read n t)
unfolding read
read-append acc String.[] t = ap (read acc) (str_append.nil t)
read-append acc (String.◌∷◌ c s) t =
    ap (read acc) (str_append.cons c s t)
    ∙ ground (arith, read-append acc s t, read-append (acc * 10 + (code c - b'0')) s t)

read-digits_value : (acc : ℕ) (s : String) → digits_value acc (remove_commas s) ≡ read acc s
unfolding read digits_value remove_commas
read-digits_value acc String.[] = refl
read-digits_value acc (String.◌∷◌ c s) =
    ground (arith, read-digits_value acc s, read-digits_value (acc * 10 + (code c - b'0')) s)

read-digit_text :
    (acc n : ℕ)
    → n ≤ 9
    → (read acc (digit_text n) ≡ some (acc * 10 + n)) × AllChars is_shown (digit_text n)
unfolding read
read-digit_text acc zero h = (refl, (refl, tt))
read-digit_text acc (suc zero) h = (refl, (refl, tt))
read-digit_text acc (suc (suc zero)) h = (refl, (refl, tt))
read-digit_text acc (suc (suc (suc zero))) h = (refl, (refl, tt))
read-digit_text acc (suc (suc (suc (suc zero)))) h = (refl, (refl, tt))
read-digit_text acc (suc (suc (suc (suc (suc zero))))) h = (refl, (refl, tt))
read-digit_text acc (suc (suc (suc (suc (suc (suc zero)))))) h = (refl, (refl, tt))
read-digit_text acc (suc (suc (suc (suc (suc (suc (suc zero))))))) h = (refl, (refl, tt))
read-digit_text acc (suc (suc (suc (suc (suc (suc (suc (suc zero)))))))) h = (refl, (refl, tt))
read-digit_text acc (suc (suc (suc (suc (suc (suc (suc (suc (suc zero))))))))) h =
    (refl, (refl, tt))
read-digit_text acc (suc (suc (suc (suc (suc (suc (suc (suc (suc (suc n)))))))))) h =
    absurd (omega arith)

AllChars-append : (p : ℕ → Bool) (s t : String) → AllChars p s → AllChars p t → AllChars p (s & t)
AllChars-append p String.[] t h k = subst (AllChars p) (sym (str_append.nil t)) k
AllChars-append p (String.◌∷◌ c s) t (e, h) k =
    subst (AllChars p) (sym (str_append.cons c s t)) (e, AllChars-append p s t h k)

AllChars-remove_commas : (s : String) → AllChars is_shown s → AllChars is_digit (remove_commas s)
unfolding remove_commas
AllChars-remove_commas String.[] h = tt
AllChars-remove_commas (String.◌∷◌ c s) (e, h) = ground (arith, AllChars-remove_commas s h)

is_space-digit : (c : ℕ) → is_digit c ≡ true → is_space c ≡ false
unfolding is_space
is_space-digit c h = ground arith

trim_end-digits : (s : String) → AllChars is_digit s → trim_end s ≡ s
unfolding trim_end
trim_end-digits String.[] h = refl
trim_end-digits (String.◌∷◌ c s) (e, h) = rw (is_space-digit (code c) e, trim_end-digits s h) refl

trim_start-digits : (s : String) → AllChars is_digit s → trim_start s ≡ s
unfolding trim_start
trim_start-digits String.[] h = refl
trim_start-digits (String.◌∷◌ c s) (e, h) = rw (is_space-digit (code c) e) refl

-- A text that is shown, and read on from what was read before as a number.
abbrev Reads : ℕ → String → ℕ → Type 0
Reads acc s n = (read acc s ≡ some n) × AllChars is_shown s

Reads-append : (acc m n : ℕ) (s t : String) → Reads acc s m → Reads m t n → Reads acc (s & t) n
Reads-append acc m n s t (e, h) (g, k) =
    (read-append acc s t ∙ rw e g, AllChars-append is_shown s t h k)

Reads-digit_text : (acc n m : ℕ) → n ≤ 9 → acc * 10 + n ≡ m → Reads acc (digit_text n) m
Reads-digit_text acc n m h e = subst (Reads acc (digit_text n)) e (read-digit_text acc n h)

Reads-three_digits : (acc n : ℕ) → n ≤ 999 → Reads acc (three_digits n) (acc * 1000 + n)
Reads-three_digits acc n h =
    Reads-append acc (acc * 10 + n / 100) (acc * 1000 + n) _ _
      (Reads-digit_text acc (n / 100) _ (omega arith) refl)
      (Reads-append (acc * 10 + n / 100) (acc * 100 + n / 10) (acc * 1000 + n) _ _
        (Reads-digit_text _ (n / 10 % 10) _ (omega arith) (omega arith))
        (Reads-digit_text _ (n % 10) _ (omega arith) (omega arith)))

Reads-show_from : (f n : ℕ) → n < f → Reads 0 (show_from f n) n
unfolding show_from
Reads-show_from zero n h = absurd (omega arith)
Reads-show_from (suc f) n h = elim (Bool-cases (leb n 9)) [
  | inl small ↦ rw small (Reads-digit_text 0 n n (ground arith) (omega arith))
  | inr large ↦ rw large (
      Reads-append 0 (n / 10) n _ _ (Reads-show_from f (n / 10) (ground arith))
        (Reads-digit_text (n / 10) (n % 10) n (omega arith) (omega arith)))
]

Reads-comma : (acc : ℕ) → Reads acc "," acc
unfolding read
Reads-comma acc = (refl, (refl, tt))

Reads-group_from : (f n : ℕ) → n < f → Reads 0 (group_from f n) n
unfolding group_from show_num
Reads-group_from zero n h = absurd (omega arith)
Reads-group_from (suc f) n h = elim (Bool-cases (leb n 999)) [
  | inl small ↦ rw small (Reads-show_from (suc n) n (omega arith))
  | inr large ↦ rw large (
      Reads-append 0 (n / 1000) n _ _ (Reads-group_from f (n / 1000) (ground arith)) (
        Reads-append (n / 1000) (n / 1000) n _ _ (Reads-comma (n / 1000)) (
          subst (Reads (n / 1000) (three_digits (n % 1000))) (omega arith)
            (Reads-three_digits (n / 1000) (n % 1000) (omega arith)))))
]

-- A balance that is shown with its commas, in groups of three digits, is read back as the same balance.
pub parse_credits-format_number : (n : ℕ) → parse_credits (format_number n) ≡ some n
unfolding parse_credits to_number format_number trim
parse_credits-format_number n =
    let (e, h) = Reads-group_from (suc n) n (omega arith) in
    let d = AllChars-remove_commas (group_from (suc n) n) h in
    ap (digits_value 0) (ap trim_end (trim_start-digits _ d) ∙ trim_end-digits _ d)
    ∙ read-digits_value 0 (group_from (suc n) n)
    ∙ e
