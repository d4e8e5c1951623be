-- ===== src/Base/Dict.antt =====
-- `HashMap<String, V>`. Clients see `get`, `insert`, `entries` and the laws; the association list
-- stays here. The order of `entries` is some order: the source's map promises none.
use lightining_pass.Base.Tests.{if◌then◌else◌, Bool-cases}
use lightining_pass.Base.Lists.{Once, All-of_mem}
use lightining_pass.Base.Texts.{Text, text_eq, text_eq_iff, text_eq_refl}
use mathlib.Core.Path.{sym, ◌≡◌, refl, ap}
use mathlib.Core.Logic.{◌≢◌, inl, inr}
use mathlib.Core.Option.{Option, none, some}
use mathlib.Core.List.{List, [], ◌∷◌, map, Memᴰ}
use mathlib.Core.List.Memᴰ
use native.Mathlib.Omega.{arith}

module _ {ℓ} {V : Type ℓ} where
  unfoldable pub lookup : Text → List (Text × V) → Option V
  lookup k [] = none
  lookup k ((j, v) ∷ m) = if text_eq j k then some v else lookup k m

  -- No key stands twice.
  abbrev pub Distinct : List (Text × V) → Type ℓ
  Distinct [] = Unit
  Distinct ((k, v) ∷ m) = (lookup k m ≡ none) × Distinct m

  unfoldable pub without : Text → List (Text × V) → List (Text × V)
  without k [] = []
  without k ((j, v) ∷ m) = let rest = without k m in if text_eq j k then rest else (j, v) ∷ rest

  pub lookup-without :
      (k j : Text) (m : List (Text × V))
      → lookup j (without k m) ≡ (if text_eq k j then none else lookup j m)
  unfolding lookup without
  lookup-without k j [] = ground arith
  lookup-without k j ((i, v) ∷ m) =
      ground (arith, lookup-without k j m, text_eq_iff i k, text_eq_iff i j, text_eq_iff k j)

  without-Distinct : (k : Text) (m : List (Text × V)) → Distinct m → Distinct (without k m)
  unfolding without
  without-Distinct k [] d = tt
  without-Distinct k ((j, v) ∷ m) d = ground (arith, lookup-without k j m, without-Distinct k m d.1)

  unfoldable pub put : Text → V → List (Text × V) → List (Text × V)
  unfolding without
  put k v m = (k, v) ∷ without k m

  pub put-Distinct : (k : Text) (v : V) (m : List (Text × V)) → Distinct m → Distinct (put k v m)
  unfolding put
  put-Distinct k v m d = (rw (lookup-without, text_eq_refl), without-Distinct k m d)

  lookup_of_mem :
      (k : Text) (v : V) (m : List (Text × V)) → Distinct m → Memᴰ (k, v) m → lookup k m ≡ some v
  unfolding lookup
  lookup_of_mem k v [] d h = elim h [ ]
  lookup_of_mem k v ((j, w) ∷ m) d (Memᴰ.head h) =
      rw (← ap (λ (p : Text × V). p.0) h, text_eq_refl, ← ap (λ (p : Text × V). p.1) h)
  lookup_of_mem k v ((j, w) ∷ m) d (Memᴰ.tail h) =
      ground (arith, lookup_of_mem k v m d.1 h, text_eq_iff j k)

  mem_of_lookup : (k : Text) (v : V) (m : List (Text × V)) → lookup k m ≡ some v → Memᴰ (k, v) m
  unfolding lookup
  mem_of_lookup k v [] h = cc
  mem_of_lookup k v ((j, w) ∷ m) h = elim (Bool-cases (text_eq j k)) [
    | inl e ↦ Memᴰ.head (ground (arith, text_eq_iff j k))
    | inr e ↦ Memᴰ.tail (mem_of_lookup k v m (rw e at h))
  ]

  -- Where a key can be read off the value, the values differ in it.
  values-Once :
      (f : V → Text) (m : List (Text × V))
      → Distinct m
      → ((k : Text) (v : V) → Memᴰ (k, v) m → f v ≡ k)
      → Once f (map (λ e. e.1) m)
  values-Once f [] d h = tt
  values-Once f ((j, w) ∷ m) d h = (
    All-of_mem (λ y. f y ≢ f w) (map (λ e. e.1) m) differs,
    values-Once f m d.1 (λ k v p. h k v (Memᴰ.tail p)),
  )
    where
      differs : (y : V) → Memᴰ y (map (λ e. e.1) m) → f y ≢ f w
      differs y p e =
          let ((k, v), q, same) = Memᴰ.of_map (λ e. e.1) m p in
          cc (lookup_of_mem k v m d.1 q, h k v (Memᴰ.tail q), h j w (Memᴰ.head refl), d.0)

pub record Dict {ℓ} (V : Type ℓ) : Type ℓ where
  pub entries : List (Text × V)
  pub distinct : Distinct entries

module _ {ℓ} {V : Type ℓ} where
  unfoldable pub empty : Dict V
  empty = record { entries = []; distinct = tt }

  unfoldable pub get : Dict V → Text → Option V
  unfolding lookup
  get d k = lookup k d.entries

  unfoldable pub insert : Dict V → Text → V → Dict V
  unfolding put
  insert d k v = record {
    entries = put k v d.entries;
    distinct = put-Distinct k v d.entries d.distinct;
  }

  -- `HashMap::values`.
  unfoldable pub values : Dict V → List V
  values d = map (λ e. e.1) d.entries

  pub get-empty : (k : Text) → get empty k ≡ none
  unfolding get empty
  get-empty k = refl

  pub get-insert :
      (d : Dict V) (k j : Text) (v : V)
      → get (insert d k v) j ≡ (if text_eq k j then some v else get d j)
  unfolding get insert
  get-insert d k j v = ground (arith, lookup-without k j d.entries)

  pub get-insert_self : (d : Dict V) (k : Text) (v : V) → get (insert d k v) k ≡ some v
  get-insert_self d k v = rw (get-insert, text_eq_refl)

  pub get-insert_other : (d : Dict V) (k j : Text) (v : V) → j ≢ k → get (insert d k v) j ≡ get d j
  get-insert_other d k j v h = elim (Bool-cases (text_eq k j)) [
    | inl e ↦ absurd (h (sym ((text_eq_iff k j).0 e)))
    | inr e ↦ rw (get-insert, e) refl
  ]

  pub mem-values : (d : Dict V) (k : Text) (v : V) → get d k ≡ some v → Memᴰ v (values d)
  unfolding get values
  mem-values d k v h = Memᴰ.map (λ e. e.1) (mem_of_lookup k v d.entries h)

  pub mem_of_values : (d : Dict V) (v : V) → Memᴰ v (values d) → (k : Text) × (get d k ≡ some v)
  unfolding get values
  mem_of_values d v h =
      let (e, m, same) = Memᴰ.of_map (λ e. e.1) d.entries h in
      (e.0, rw (← same) (lookup_of_mem e.0 e.1 d.entries d.distinct m))

  pub values-Once' :
      (d : Dict V) (f : V → Text)
      → ((k : Text) (v : V) → get d k ≡ some v → f v ≡ k)
      → Once f (values d)
  unfolding get values
  values-Once' d f h =
      values-Once f d.entries d.distinct (λ k v m. h k v (lookup_of_mem k v d.entries d.distinct m))

pub ruleset dict_laws = (get-empty, get-insert)
