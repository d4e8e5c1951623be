-- ===== src/Random.antt =====
-- `rand::thread_rng().sample_iter(&Alphanumeric).take(n).map(char::from).collect()`. The generator is
-- not in the repository: the samples of one call are an argument, and a claim about them says so.
use lightining_pass.Base.{ℕ, zero, suc, ◌+◌, ◌≤◌, ◌≡◌, ◌⊎◌, refl, [], ◌∷◌, arith, Text, All, length}

abbrev pub Samples : Type 0
Samples = ℕ → ℕ

unfoldable pub random_text : ℕ → Samples → Text
random_text zero rng = []
random_text (suc n) rng = rng 0 ∷ random_text n (λ i. rng (i + 1))

-- What `Alphanumeric` draws: A-Z, a-z, 0-9.
abbrev pub IsAlphanumeric : ℕ → Type 0
IsAlphanumeric c = ((b'0' ≤ c) × (c ≤ b'9')) ⊎ ((b'A' ≤ c) × (c ≤ b'Z')) ⊎ ((b'a' ≤ c) × (c ≤ b'z'))

pub length-random_text : (n : ℕ) (rng : Samples) → length (random_text n rng) ≡ n
unfolding random_text
length-random_text zero rng = refl
length-random_text (suc n) rng = omega (arith, length-random_text n (λ i. rng (i + 1)))

pub All-random_text {ℓ} :
    (P : ℕ → Type ℓ) (n : ℕ) (rng : Samples) → ((i : ℕ) → P (rng i)) → All P (random_text n rng)
unfolding random_text
All-random_text P zero rng h = tt
All-random_text P (suc n) rng h = (h 0, All-random_text P n (λ i. rng (i + 1)) (λ i. h (i + 1)))
