-- ===== src/Text/Trim.antt =====
-- `str::trim` and `str::trim_end_matches`.
use lightining_pass.Base.{
  ℕ, Bool, true, false, ◌||◌, ◌&&◌, [], ◌∷◌, ◌++◌, ◌≡◌, refl, inl, inr, arith, Text, All, is_empty,
  leb, ◌==◌, if◌then◌else◌, Bool-cases,
}

-- `char::is_whitespace`: the code points with the Unicode property White_Space.
unfoldable pub is_whitespace : ℕ → Bool
is_whitespace c =
    (leb 9 c && leb c 13)
    || c == 32
    || c == 0x85
    || c == 0xa0
    || c == 0x1680
    || (leb 0x2000 c && leb c 0x200a)
    || c == 0x2028
    || c == 0x2029
    || c == 0x202f
    || c == 0x205f
    || c == 0x3000

module _ (p : ℕ → Bool) where
  unfoldable pub trim_start_by : Text → Text
  trim_start_by [] = []
  trim_start_by (c ∷ s) = let rest = trim_start_by s in if p c then rest else c ∷ s

  unfoldable pub trim_end_by : Text → Text
  trim_end_by [] = []
  trim_end_by (c ∷ s) = let rest = trim_end_by s in if p c && is_empty rest then [] else c ∷ rest

-- `s.trim_end_matches(c)`.
unfoldable pub trim_end_matches : ℕ → Text → Text
unfolding trim_end_by
trim_end_matches c s = trim_end_by (λ d. d == c) s

-- `s.trim()`.
unfoldable pub trim : Text → Text
unfolding trim_start_by trim_end_by is_whitespace
trim s = trim_end_by is_whitespace (trim_start_by is_whitespace s)

module _ (p : ℕ → Bool) where
  -- A cut text ends in a character that is kept, or is empty.
  pub trim_end_by_idem : (s : Text) → trim_end_by p (trim_end_by p s) ≡ trim_end_by p s
  unfolding trim_end_by
  trim_end_by_idem [] = refl
  trim_end_by_idem (c ∷ s) = ground (arith, trim_end_by_idem s)

  -- A suffix that is cut away whole makes no difference.
  pub trim_end_by-append :
      (s t : Text) → All (λ c. p c ≡ true) t → trim_end_by p (s ++ t) ≡ trim_end_by p s
  unfolding trim_end_by
  trim_end_by-append [] [] h = refl
  trim_end_by-append [] (c ∷ t) (e, h) = ground (arith, trim_end_by-append [] t h)
  trim_end_by-append (c ∷ s) t h = ground (arith, trim_end_by-append s t h)

  pub trim_start_by-append :
      (t s : Text) → All (λ c. p c ≡ true) t → trim_start_by p (t ++ s) ≡ trim_start_by p s
  unfolding trim_start_by
  trim_start_by-append [] s h = refl
  trim_start_by-append (c ∷ t) s (e, h) = rw e (trim_start_by-append t s h)

  trim_start_by-All : (s : Text) → All (λ c. p c ≡ true) s → trim_start_by p s ≡ []
  unfolding trim_start_by
  trim_start_by-All [] h = refl
  trim_start_by-All (c ∷ s) (e, h) = rw e (trim_start_by-All s h)

  pub trim_both-append :
      (s t : Text)
      → All (λ c. p c ≡ true) t
      → trim_end_by p (trim_start_by p (s ++ t)) ≡ trim_end_by p (trim_start_by p s)
  unfolding trim_start_by
  trim_both-append [] t h = rw (trim_start_by-All t h)
  trim_both-append (c ∷ s) t h = elim (Bool-cases (p c)) [
    | inl e ↦ rw e (trim_both-append s t h)
    | inr e ↦ rw e (trim_end_by-append (c ∷ s) t h)
  ]

  pub trim_start_by_keep : (c : ℕ) (s : Text) → p c ≡ false → trim_start_by p (c ∷ s) ≡ c ∷ s
  unfolding trim_start_by
  trim_start_by_keep c s e = rw e

  pub trim_end_by_keep :
      (s : Text) (c : ℕ) → p c ≡ false → trim_end_by p (s ++ c ∷ []) ≡ s ++ c ∷ []
  unfolding trim_end_by
  trim_end_by_keep [] c e = rw e
  trim_end_by_keep (d ∷ []) c e = ground (arith, trim_end_by_keep [] c e)
  trim_end_by_keep (d ∷ d' ∷ s) c e = ground (arith, trim_end_by_keep (d' ∷ s) c e)

  pub trim_start_by_none : (s : Text) → All (λ c. p c ≡ false) s → trim_start_by p s ≡ s
  unfolding trim_start_by
  trim_start_by_none [] h = refl
  trim_start_by_none (c ∷ s) (e, h) = rw e

  pub trim_end_by_none : (s : Text) → All (λ c. p c ≡ false) s → trim_end_by p s ≡ s
  unfolding trim_end_by
  trim_end_by_none [] h = refl
  trim_end_by_none (c ∷ s) (e, h) = rw (e, trim_end_by_none s h)

abbrev pub IsSpace : ℕ → Type 0
IsSpace c = is_whitespace c ≡ true

abbrev pub NoSpace : ℕ → Type 0
NoSpace c = is_whitespace c ≡ false

pub trim_none : (s : Text) → All NoSpace s → trim s ≡ s
unfolding trim
trim_none s h = rw (trim_start_by_none is_whitespace s h) (trim_end_by_none is_whitespace s h)

-- A text between two characters that are no space is left alone.
pub trim_between :
    (c : ℕ) (s : Text) (d : ℕ) → NoSpace c → NoSpace d → trim (c ∷ s ++ d ∷ []) ≡ c ∷ s ++ d ∷ []
unfolding trim
trim_between c s d hc hd =
    rw (trim_start_by_keep is_whitespace c (s ++ d ∷ []) hc)
      (trim_end_by_keep is_whitespace (c ∷ s) d hd)

-- White space after a text is cut off.
pub trim-append_right : (s t : Text) → All IsSpace t → trim (s ++ t) ≡ trim s
unfolding trim
trim-append_right s t h = trim_both-append is_whitespace s t h

-- White space before a text is cut off.
pub trim-append_left : (t s : Text) → All IsSpace t → trim (t ++ s) ≡ trim s
unfolding trim
trim-append_left t s h = rw (trim_start_by-append is_whitespace t s h)
