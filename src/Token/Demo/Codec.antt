-- ===== src/Token/Demo/Codec.antt =====
-- Unary encodings for the concrete environment; they stand for no real format.
use lightining_pass.Base.{
  ℕ, zero, suc, ◌+◌, ◌≡◌, refl, arith, Option, none, some, Result, ok, err, ◌∷◌, [], ◌++◌, Text,
  Bytes, All, codes, ◌==◌, if◌then◌else◌, inl, inr,
}
use lightining_pass.Token.Env.{IsUrlSafe}

-- A number is that many `a`, and a `b`.
run_of : ℕ → Text → Text
run_of zero rest = b'b' ∷ rest
run_of (suc n) rest = b'a' ∷ run_of n rest

unfoldable pub encode_runs : Bytes → Text
unfolding run_of
encode_runs [] = []
encode_runs (n ∷ b) = run_of n (encode_runs b)

abbrev cons_ok : ℕ → Result Bytes Text → Result Bytes Text
cons_ok n (ok b) = ok (n ∷ b)
cons_ok n (err e) = err e

unfoldable pub decode_runs : ℕ → Text → Result Bytes Text
decode_runs zero [] = ok []
decode_runs (suc n) [] = err (codes "Invalid length")
decode_runs n (c ∷ s) =
    let more = decode_runs (n + 1) s in
    let next = cons_ok n (decode_runs 0 s) in
    if c == b'a' then more else if c == b'b' then next else err (codes "Invalid symbol")

decode_runs-run_of :
    (m n : ℕ) (rest : Text) → decode_runs m (run_of n rest) ≡ cons_ok (m + n) (decode_runs 0 rest)
unfolding decode_runs run_of
decode_runs-run_of m zero rest = ground arith
decode_runs-run_of m (suc n) rest = ground (arith, decode_runs-run_of (m + 1) n rest)

pub decode_runs-encode_runs : (b : Bytes) → decode_runs 0 (encode_runs b) ≡ ok b
unfolding encode_runs
decode_runs-encode_runs [] = unfold decode_runs in refl
decode_runs-encode_runs (n ∷ b) =
    ground (arith, decode_runs-run_of 0 n (encode_runs b), decode_runs-encode_runs b)

run_of-IsUrlSafe : (n : ℕ) (s : Text) → All IsUrlSafe s → All IsUrlSafe (run_of n s)
unfolding run_of
run_of-IsUrlSafe zero s h = (inl (inr (inr (omega arith))), h)
run_of-IsUrlSafe (suc n) s h = (inl (inr (inr (omega arith))), run_of-IsUrlSafe n s h)

pub encode_runs-IsUrlSafe : (b : Bytes) → All IsUrlSafe (encode_runs b)
unfolding encode_runs
encode_runs-IsUrlSafe [] = tt
encode_runs-IsUrlSafe (n ∷ b) = run_of-IsUrlSafe n (encode_runs b) (encode_runs-IsUrlSafe b)

-- Fields one behind the other: a character is marked by `x`, and `;` ends a field.
unfoldable pub put_text : Text → Text → Text
put_text [] rest = b';' ∷ rest
put_text (c ∷ s) rest = b'x' ∷ c ∷ put_text s rest

abbrev cons_first : ℕ → Option (Text × Text) → Option (Text × Text)
cons_first c none = none
cons_first c (some (s, rest)) = some (c ∷ s, rest)

unfoldable pub take_text : Text → Option (Text × Text)
take_text [] = none
take_text (m ∷ []) = if m == b';' then some ([], []) else none
take_text (m ∷ c ∷ rest) =
    let more = cons_first c (take_text rest) in if m == b';' then some ([], c ∷ rest) else more

pub take_text-put_text : (s rest : Text) → take_text (put_text s rest) ≡ some (s, rest)
unfolding take_text put_text
take_text-put_text [] [] = refl
take_text-put_text [] (c ∷ rest) = refl
take_text-put_text (c ∷ s) rest = rw (take_text-put_text s rest)

pub put_text-append : (s a b : Text) → put_text s (a ++ b) ≡ put_text s a ++ b
unfolding put_text
put_text-append [] a b = refl
put_text-append (c ∷ s) a b = rw (put_text-append s a b)

unfoldable pub put_number : ℕ → Text → Text
put_number zero rest = b';' ∷ rest
put_number (suc n) rest = b'x' ∷ put_number n rest

abbrev suc_first : Option (ℕ × Text) → Option (ℕ × Text)
suc_first none = none
suc_first (some (n, rest)) = some (suc n, rest)

unfoldable pub take_number : Text → Option (ℕ × Text)
take_number [] = none
take_number (m ∷ rest) =
    let more = suc_first (take_number rest) in if m == b';' then some (0, rest) else more

pub take_number-put_number :
    (n : ℕ) (rest : Text) → take_number (put_number n rest) ≡ some (n, rest)
unfolding take_number put_number
take_number-put_number zero rest = refl
take_number-put_number (suc n) rest = rw (take_number-put_number n rest)

pub put_number-append : (n : ℕ) (a b : Text) → put_number n (a ++ b) ≡ put_number n a ++ b
unfolding put_number
put_number-append zero a b = refl
put_number-append (suc n) a b = rw (put_number-append n a b)
