-- ===== src/Text/Cut.antt =====
-- What `str::trim_end_matches` cuts off, told without running it.
use lightining_pass.Base.{
  ℕ, true, false, ◌==◌, [], ◌∷◌, ◌++◌, ◌≡◌, ◌≢◌, ◌⊎◌, ◌↔◌, refl, sym, ap, ◌∙◌, subst, inl, inr,
  arith, Text, All, Bool, is_empty, ◌&&◌, if◌then◌else◌,
}
use lightining_pass.Text.Trim.{trim_end_by, trim_end_matches, trim_end_by-append, trim_end_by_keep}

-- `base` is `text` without the copies of `c` at its end.
pub record IsCut (c : ℕ) (text base : Text) : Type 0 where
  pub cut : Text
  pub whole : text ≡ base ++ cut
  pub all_cut : All (λ d. d ≡ c) cut
  pub ends : (base ≡ []) ⊎ ((init : Text) × (last : ℕ) × (base ≡ init ++ last ∷ []) × (last ≢ c))

same_char : (c d : ℕ) → (d == c) ≡ true → d ≡ c
same_char c d h = ground arith

other_char : (c d : ℕ) → (d == c) ≡ false → d ≢ c
other_char c d h e = ground arith

All-same : (c : ℕ) (s : Text) → All (λ d. d ≡ c) s → All (λ d. (d == c) ≡ true) s
All-same c [] h = tt
All-same c (d ∷ s) (e, h) = (ground arith, All-same c s h)

not_same : (c d : ℕ) → d ≢ c → (d == c) ≡ false
not_same c d h = ground arith

is_empty-nil : (s : Text) → is_empty s ≡ true → s ≡ []
is_empty-nil [] h = refl
is_empty-nil (d ∷ s) h = ground arith

module _ (c : ℕ) where
  keeps :
      (d : ℕ) (s rest : Text) (b : Bool)
      → (d == c) ≡ b
      → IsCut c s rest
      → IsCut c (d ∷ s) (if b && is_empty rest then [] else d ∷ rest)
  keeps d s [] true e i = record {
    cut = d ∷ s;
    whole = refl;
    all_cut = (same_char c d e, subst (All (λ d. d ≡ c)) (sym i.whole) i.all_cut);
    ends = inl refl;
  }
  keeps d s [] false e i = record {
    cut = i.cut;
    whole = ap (λ t. d ∷ t) i.whole;
    all_cut = i.all_cut;
    ends = inr ([], d, refl, other_char c d e);
  }
  keeps d s (r ∷ rest) b e i = subst (IsCut c (d ∷ s)) (sym (kept b)) (record {
    cut = i.cut;
    whole = ap (λ t. d ∷ t) i.whole;
    all_cut = i.all_cut;
    ends = elim i.ends [
      | inl none_left ↦ absurd (ground arith)
      | inr (init, last, e', other) ↦ inr (d ∷ init, last, ap (λ t. d ∷ t) e', other)
    ];
  })
    where
      kept : (b : Bool) → (if b && is_empty (r ∷ rest) then [] else d ∷ r ∷ rest) ≡ d ∷ r ∷ rest
      kept true = refl
      kept false = refl

  trim_end_matches-IsCut : (s : Text) → IsCut c s (trim_end_matches c s)
  unfolding trim_end_matches trim_end_by
  trim_end_matches-IsCut [] = record { cut = []; whole = refl; all_cut = tt; ends = inl refl }
  trim_end_matches-IsCut (d ∷ s) =
      keeps d s (trim_end_matches c s) (d == c) refl (trim_end_matches-IsCut s)

  IsCut-trim_end_matches : (s base : Text) → IsCut c s base → trim_end_matches c s ≡ base
  unfolding trim_end_matches
  IsCut-trim_end_matches s base i =
      ap (trim_end_by (λ d. d == c)) i.whole
      ∙ trim_end_by-append (λ d. d == c) base i.cut (All-same c i.cut i.all_cut)
      ∙ elim i.ends [
        | inl e ↦ ap (trim_end_by (λ d. d == c)) e ∙ (unfold trim_end_by in refl) ∙ sym e
        | inr (init, last, e, other) ↦
            ap (trim_end_by (λ d. d == c)) e
            ∙ trim_end_by_keep (λ d. d == c) init last (not_same c last other)
            ∙ sym e
      ]

  -- The cut is the only text of that description.
  pub trim_end_matches_iff : (s base : Text) → (trim_end_matches c s ≡ base) ↔ IsCut c s base
  trim_end_matches_iff s base =
      (λ e. subst (IsCut c s) e (trim_end_matches-IsCut s), IsCut-trim_end_matches s base)
