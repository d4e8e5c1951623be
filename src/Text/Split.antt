-- ===== src/Text/Split.antt =====
-- `str::splitn(2, c)`: the part before the first `c`, and what stands behind it, if there is a `c`.
use lightining_pass.Base.{
  ℕ, [], ◌∷◌, ◌++◌, ◌≡◌, ◌≢◌, refl, arith, Option, none, some, Text, All, ◌==◌, if◌then◌else◌, ap,
  Bool-cases, ==_iff, inl, inr, ◌↔◌,
}

abbrev cons_first : ℕ → Text × Option Text → Text × Option Text
cons_first c (a, b) = (c ∷ a, b)

unfoldable pub split_once : ℕ → Text → Text × Option Text
split_once d [] = ([], none)
split_once d (c ∷ s) =
    let rest = split_once d s in if c == d then ([], some s) else cons_first c rest

abbrev pub Lacks : ℕ → Text → Type 0
Lacks d = All (λ c. c ≢ d)

-- Splitting at the first separator undoes joining by it.
pub split_once-append : (d : ℕ) (a b : Text) → Lacks d a → split_once d (a ++ d ∷ b) ≡ (a, some b)
unfolding split_once
split_once-append d [] b h = ground arith
split_once-append d (c ∷ a) b (n, h) = ground (arith, split_once-append d a b h)

-- A text with no separator is one part.
pub split_once-none : (d : ℕ) (s : Text) → Lacks d s → split_once d s ≡ (s, none)
unfolding split_once
split_once-none d [] h = refl
split_once-none d (c ∷ s) (n, h) = ground (arith, split_once-none d s h)

-- The parts joined give the text back, and the first has no separator.
abbrev pub Splits : ℕ → Text → Text × Option Text → Type 0
Splits d s (a, none) = (s ≡ a) × Lacks d a
Splits d s (a, some b) = (s ≡ a ++ d ∷ b) × Lacks d a

Splits-cons :
    (d c : ℕ) (s : Text) (r : Text × Option Text)
    → c ≢ d
    → Splits d s r
    → Splits d (c ∷ s) (cons_first c r)
Splits-cons d c s (a, none) n (e, l) = (ap (λ t. c ∷ t) e, (n, l))
Splits-cons d c s (a, some b) n (e, l) = (ap (λ t. c ∷ t) e, (n, l))

pub split_once-Splits : (d : ℕ) (s : Text) → Splits d s (split_once d s)
unfolding split_once
split_once-Splits d [] = (refl, tt)
split_once-Splits d (c ∷ s) = elim (Bool-cases (c == d)) [
  | inl e ↦ rw e (ap (λ n. n ∷ s) ((==_iff c d).0 e), tt)
  | inr e ↦ rw e (Splits-cons d c s (split_once d s) (ground arith) (split_once-Splits d s))
]

Splits-none : (d : ℕ) (s : Text) (r : Text × Option Text) → r.1 ≡ none → Splits d s r → Lacks d s
Splits-none d s (a, none) h (e, l) = rw e l
Splits-none d s (a, some b) h (e, l) = cc

-- A part behind the separator is there exactly when the text has one.
pub split_once-none_iff : (d : ℕ) (s : Text) → ((split_once d s).1 ≡ none) ↔ Lacks d s
split_once-none_iff d s = (
  λ h. Splits-none d s (split_once d s) h (split_once-Splits d s),
  λ h. rw (split_once-none d s h),
)
