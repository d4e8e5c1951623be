-- ===== src/Text/Decimal.antt =====
-- `Display for u64` and `str::parse::<u64>`.
use lightining_pass.Base.{
  ℕ, zero, suc, ◌+◌, ◌-◌, ◌*◌, ◌/◌, ◌%◌, ◌≤◌, ◌<◌, ◌≡◌, ◌≢◌, refl, ◌∙◌, ◌||◌, [], ◌∷◌, Option, none,
  some, arith, Text, codes, u64_mod, ltb, ◌==◌, if◌then◌else◌,
}

-- The digits of `n` in front of `out`, at most `fuel` of them.
unfoldable pub show_digits : ℕ → ℕ → Text → Text
show_digits zero n out = out
show_digits (suc fuel) n out =
    let longer = (b'0' + n % 10) ∷ out in
    let rest = show_digits fuel (n / 10) longer in if ltb n 10 then longer else rest

-- `format!("{n}")`: a u64 has at most 20 digits.
unfoldable pub show_u64 : ℕ → Text
show_u64 n = show_digits 20 n []

-- The loop of `parse`: a digit is added unless the result would pass u64::MAX.
unfoldable pub scan : Text → ℕ → Option ℕ
scan [] n = some n
scan (c ∷ s) n =
    let next = n * 10 + (c - b'0') in
    let rest = scan s next in
    if ltb c b'0' || ltb b'9' c then none else if ltb next u64_mod then rest else none

after_sign : Text → Option ℕ
after_sign [] = none
after_sign (c ∷ s) = scan (c ∷ s) 0

-- `s.parse::<u64>().ok()`: one leading `+` is allowed, and at least one digit follows.
unfoldable pub parse_u64 : Text → Option ℕ
unfolding scan after_sign
parse_u64 [] = none
parse_u64 (c ∷ s) = if c == b'+' then after_sign s else scan (c ∷ s) 0

abbrev pow_ten : ℕ → ℕ
pow_ten zero = 1
pow_ten (suc k) = 10 * pow_ten k

scan_nil : (n : ℕ) → scan [] n ≡ some n
unfolding scan
scan_nil n = refl

scan_digit : (n : ℕ) (out : Text) → n < u64_mod → scan ((b'0' + n % 10) ∷ out) (n / 10) ≡ scan out n
unfolding scan
scan_digit n out h = ground arith

scan-show_digits :
    (fuel n : ℕ) (out : Text)
    → n < u64_mod
    → n < pow_ten fuel
    → scan (show_digits fuel n out) 0 ≡ scan out n
unfolding show_digits
scan-show_digits zero n out fits h = ground arith
scan-show_digits (suc fuel) n out fits h =
    ground (arith, scan_digit n out fits, scan-show_digits fuel (n / 10) ((b'0' + n % 10) ∷ out))

-- A printed number begins with a digit, so with no `+`.
abbrev IsDigitFirst : Text → Type 0
IsDigitFirst [] = ⊥
IsDigitFirst (c ∷ s) = (c ≢ b'+') × (b'0' ≤ c)

show_digits-first :
    (fuel n : ℕ) (out : Text) → IsDigitFirst out → IsDigitFirst (show_digits fuel n out)
unfolding show_digits
show_digits-first zero n out h = h
show_digits-first (suc fuel) n out h =
    ground (arith, show_digits-first fuel (n / 10) ((b'0' + n % 10) ∷ out))

parse_u64-scan : (s : Text) → IsDigitFirst s → parse_u64 s ≡ scan s 0
unfolding parse_u64
parse_u64-scan [] h = absurd h
parse_u64-scan (c ∷ s) h = ground arith

show_digits_nonempty : (fuel n : ℕ) → IsDigitFirst (show_digits (suc fuel) n [])
unfolding show_digits
show_digits_nonempty fuel n = ground (arith, show_digits-first fuel (n / 10) ((b'0' + n % 10) ∷ []))

parse_u64-show_digits :
    (fuel n : ℕ)
    → n < u64_mod
    → n < pow_ten (suc fuel)
    → parse_u64 (show_digits (suc fuel) n []) ≡ some n
parse_u64-show_digits fuel n fits h =
    parse_u64-scan (show_digits (suc fuel) n []) (show_digits_nonempty fuel n)
    ∙ scan-show_digits (suc fuel) n [] fits h
    ∙ scan_nil n

-- Every u64 is read back from its decimal print.
pub parse_u64-show_u64 : (n : ℕ) → n < u64_mod → parse_u64 (show_u64 n) ≡ some n
unfolding show_u64
parse_u64-show_u64 n h = parse_u64-show_digits 19 n h (omega arith)

show_u64_max : show_u64 18446744073709551615 ≡ codes "18446744073709551615"
unfolding show_u64 show_digits
show_u64_max = refl
