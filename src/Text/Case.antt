-- ===== src/Text/Case.antt =====
-- `str::eq_ignore_ascii_case` and lower case.
use lightining_pass.Base.{
  ℕ, ◌+◌, Bool, ◌&&◌, [], ◌∷◌, map, ◌≡◌, ◌↔◌, refl, arith, true, Text, text_eq, text_eq_iff, leb,
  if◌then◌else◌,
}

unfoldable pub to_ascii_lowercase : ℕ → ℕ
to_ascii_lowercase c = if leb b'A' c && leb c b'Z' then c + 32 else c

-- `str::to_lowercase` on ASCII text; other code points are kept.
unfoldable pub to_lowercase : Text → Text
unfolding to_ascii_lowercase
to_lowercase s = map to_ascii_lowercase s

-- `a.eq_ignore_ascii_case(b)`.
unfoldable pub eq_ignore_ascii_case : Text → Text → Bool
unfolding to_lowercase
eq_ignore_ascii_case a b = text_eq (to_lowercase a) (to_lowercase b)

pub eq_ignore_ascii_case_iff :
    (a b : Text) → (eq_ignore_ascii_case a b ≡ true) ↔ (to_lowercase a ≡ to_lowercase b)
unfolding eq_ignore_ascii_case
eq_ignore_ascii_case_iff a b = text_eq_iff _ _

pub eq_ignore_ascii_case_refl : (a : Text) → eq_ignore_ascii_case a a ≡ true
eq_ignore_ascii_case_refl a = (eq_ignore_ascii_case_iff a a).1 refl

to_ascii_lowercase_idem : (c : ℕ) → to_ascii_lowercase (to_ascii_lowercase c) ≡ to_ascii_lowercase c
unfolding to_ascii_lowercase
to_ascii_lowercase_idem c = ground arith

pub to_lowercase_idem : (s : Text) → to_lowercase (to_lowercase s) ≡ to_lowercase s
unfolding to_lowercase
to_lowercase_idem [] = refl
to_lowercase_idem (c ∷ s) = cc (to_ascii_lowercase_idem c, to_lowercase_idem s)
