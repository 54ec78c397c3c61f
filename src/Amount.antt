-- ===== src/Amount.antt =====
-- frontend/lib/helper/index.ts: `formatNumber`, and the reading of such a text back into a number that
-- frontend/features/single-verify/components/form.tsx and
-- frontend/features/bulk-upload/components/form.tsx share.
pub mod Digits
mod Tests
use Prim.Native.Char.{code}
use Prim.Native.String.{[], ◌∷◌}
use Prim.Native.String
use emailjachai.Common.{
  ℕ, zero, suc, ◌+◌, ◌-◌, ◌*◌, ◌/◌, ◌%◌, ◌≤◌, ◌<◌, String, ◌≡◌, refl, Option, none, some, arith,
  leb, ◌==◌, if◌then◌else◌,
}
use emailjachai.Common.Text.{◌&◌, digit_text, show_from, show_num, is_digit, trim}

-- Three digits of a number below a thousand.
abbrev pub three_digits : ℕ → String
three_digits n = digit_text (n / 100) & digit_text (n / 10 % 10) & digit_text (n % 10)

-- The groups of three that `Intl.NumberFormat('en-US')` writes, on fuel; `suc n` rounds are enough,
-- since each round divides by a thousand.
unfoldable pub group_from : ℕ → ℕ → String
group_from zero n = ""
group_from (suc f) n =
    let rest = group_from f (n / 1000) in
    if leb n 999 then show_num n else rest & "," & three_digits (n % 1000)

unfoldable pub format_number : ℕ → String
unfolding group_from
format_number n = group_from (suc n) n

-- `s.replace(/,/g, "")`.
unfoldable pub remove_commas : String → String
remove_commas String.[] = ""
remove_commas (String.◌∷◌ c s) =
    let rest = remove_commas s in if code c == b',' then rest else String.◌∷◌ c rest

-- The value of a text of digits, after the digits that were read before.
unfoldable pub digits_value : ℕ → String → Option ℕ
digits_value acc String.[] = some acc
digits_value acc (String.◌∷◌ c s) =
    let rest = digits_value (acc * 10 + (code c - b'0')) s in
    if is_digit (code c) then rest else none

-- `Number(s)` of a text of digits, white space around it removed; the empty text is zero. A text of
-- another form (a sign, a fraction, an exponent, a radix) is read as no finite number.
unfoldable pub to_number : String → Option ℕ
unfolding digits_value trim
to_number s = digits_value 0 (trim s)

-- `parseCreditsRemaining` of a text that is there.
unfoldable pub parse_credits : String → Option ℕ
unfolding remove_commas to_number
parse_credits s = to_number (remove_commas s)
