-- ===== src/Base/Lists.antt =====
-- Lists measured by native numbers, predicates on their members, and filters by a Boolean test.
use Prim.Native.Nat.{ℕ, suc, ◌+◌}
use mathlib.Core.Path.{◌≡◌, refl, sym, subst}
use mathlib.Core.Bool.{Bool, true}
use mathlib.Core.Logic.{◌≢◌, inl, inr}
use mathlib.Core.List.{List, [], ◌∷◌, ◌++◌, Memᴰ}
use mathlib.Core.List.Memᴰ
use native.Mathlib.Omega.{arith}
use lightining_pass.Base.Tests.{if◌then◌else◌, Bool-cases}

module _ {ℓ} {A : Type ℓ} where
  abbrev pub length : List A → ℕ
  length [] = 0
  length (x ∷ xs) = suc (length xs)

  pub length-append : (xs ys : List A) → length (xs ++ ys) ≡ length xs + length ys
  length-append [] ys = omega arith
  length-append (x ∷ xs) ys = omega (arith, length-append xs ys)

  -- `iter().filter(p)`.
  abbrev pub filter_by : (A → Bool) → List A → List A
  filter_by p [] = []
  filter_by p (x ∷ xs) = let rest = filter_by p xs in if p x then x ∷ rest else rest

  pub mem-filter_by :
      (p : A → Bool) (a : A) (xs : List A) → Memᴰ a xs → p a ≡ true → Memᴰ a (filter_by p xs)
  mem-filter_by p a [] h e = elim h [ ]
  mem-filter_by p a (x ∷ xs) (Memᴰ.head h) e = rw (← h, e) (Memᴰ.head refl)
  mem-filter_by p a (x ∷ xs) (Memᴰ.tail h) e = elim (Bool-cases (p x)) [
    | inl t ↦ rw t (Memᴰ.tail (mem-filter_by p a xs h e))
    | inr f ↦ rw f (mem-filter_by p a xs h e)
  ]

  mem_of_cons_filter_by :
      (p : A → Bool) (a x : A) (xs : List A)
      → p x ≡ true
      → (Memᴰ a (filter_by p xs) → Memᴰ a xs × (p a ≡ true))
      → Memᴰ a (x ∷ filter_by p xs)
      → Memᴰ a (x ∷ xs) × (p a ≡ true)
  mem_of_cons_filter_by p a x xs t ih (Memᴰ.head h) = (Memᴰ.head h, rw h t)
  mem_of_cons_filter_by p a x xs t ih (Memᴰ.tail h) = let (m, e) = ih h in (Memᴰ.tail m, e)

  pub mem_of_filter_by :
      (p : A → Bool) (a : A) (xs : List A) → Memᴰ a (filter_by p xs) → Memᴰ a xs × (p a ≡ true)
  mem_of_filter_by p a [] h = absurd (Memᴰ.not-nil h)
  mem_of_filter_by p a (x ∷ xs) h = elim (Bool-cases (p x)) [
    | inl t ↦ mem_of_cons_filter_by p a x xs t (mem_of_filter_by p a xs) (rw t at h)
    | inr f ↦ let (m, e) = mem_of_filter_by p a xs (rw f at h) in (Memᴰ.tail m, e)
  ]

module _ {ℓ κ} {A : Type ℓ} (P : A → Type κ) where
  abbrev pub All : List A → Type κ
  All [] = Unit
  All (x ∷ xs) = P x × All xs

  pub All-append : (xs ys : List A) → All xs → All ys → All (xs ++ ys)
  All-append [] ys hx hy = hy
  All-append (x ∷ xs) ys (p, hx) hy = (p, All-append xs ys hx hy)

  pub All-of_mem : (xs : List A) → ((a : A) → Memᴰ a xs → P a) → All xs
  All-of_mem [] h = tt
  All-of_mem (x ∷ xs) h = (h x (Memᴰ.head refl), All-of_mem xs (λ a m. h a (Memᴰ.tail m)))

-- Members have different keys under `f`.
module _ {ℓ κ} {A : Type ℓ} {K : Type κ} (f : A → K) where
  abbrev pub Once : List A → Type κ
  Once [] = Unit
  Once (x ∷ xs) = All (λ y. f y ≢ f x) xs × Once xs

  All-filter_by {ℓ'} :
      (P : A → Type ℓ') (p : A → Bool) (xs : List A) → All P xs → All P (filter_by p xs)
  All-filter_by P p [] h = tt
  All-filter_by P p (x ∷ xs) (hx, h) = elim (Bool-cases (p x)) [
    | inl e ↦ rw e (hx, All-filter_by P p xs h)
    | inr e ↦ rw e (All-filter_by P p xs h)
  ]

  pub filter_by-Once : (p : A → Bool) (xs : List A) → Once xs → Once (filter_by p xs)
  filter_by-Once p [] h = tt
  filter_by-Once p (x ∷ xs) (hx, h) = elim (Bool-cases (p x)) [
    | inl e ↦ rw e (All-filter_by (λ y. f y ≢ f x) p xs hx, filter_by-Once p xs h)
    | inr e ↦ rw e (filter_by-Once p xs h)
  ]

module _ {ℓ κ} {A : Type ℓ} (P : A → Type κ) where
  pub All_mem : (xs : List A) → All P xs → (a : A) → Memᴰ a xs → P a
  All_mem [] h a m = elim m [ ]
  All_mem (x ∷ xs) h a (Memᴰ.head e) = subst P (sym e) h.0
  All_mem (x ∷ xs) h a (Memᴰ.tail m) = All_mem xs h.1 a m

module _ {ℓ κ} {A : Type ℓ} (P Q : A → Type κ) (mono : (a : A) → P a → Q a) where
  pub All-mono : (xs : List A) → All P xs → All Q xs
  All-mono [] h = tt
  All-mono (x ∷ xs) (p, h) = (mono x p, All-mono xs h)

  -- An element is taken out, and others are put in its place.
  pub All-splice :
      (before : List A) (a : A) (after new : List A)
      → All P (before ++ a ∷ after)
      → All Q new
      → All Q (before ++ new ++ after)
  All-splice [] a after new (p, h) q = All-append Q new after q (All-mono after h)
  All-splice (x ∷ before) a after new (p, h) q = (mono x p, All-splice before a after new h q)

module _ {ℓ κ} {A : Type ℓ} (P : A → Type κ) where
  pub All-at : (before : List A) (a : A) (after : List A) → All P (before ++ a ∷ after) → P a
  All-at [] a after (p, h) = p
  All-at (x ∷ before) a after (p, h) = All-at before a after h
