-- ===== src/Amount/Tests.antt =====
-- Amounts as they are shown.
use emailjachai.Common.{◌≡◌, refl, some}
use emailjachai.Common.Text.{show_num}
use emailjachai.Amount.Digits.{parse_credits-format_number}
use emailjachai.Amount.{format_number, parse_credits}

format_number_test : format_number 1234067 ≡ "1,234,067"
unfolding format_number show_num
format_number_test = refl

parse_credits_test : parse_credits "1,234,067" ≡ some 1234067
unfolding parse_credits
parse_credits_test = refl

parse_credits-format_number_example : parse_credits (format_number 1234067) ≡ some 1234067
parse_credits-format_number_example = parse_credits-format_number 1234067
