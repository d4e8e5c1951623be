-- ===== src/Token/Demo.antt =====
-- One concrete environment: it shows that the laws of Token/Env can hold together, and the tests run
-- in it.
mod Codec
mod Written
unfoldable pub use Written.{put_token, put_signed, put_payload}
use Written.{
  take_signed, take_payload, take_signed-put_signed, put_signed_object, take_payload-put_payload,
}
use Codec.{encode_runs, decode_runs, decode_runs-encode_runs, encode_runs-IsUrlSafe}
use lightining_pass.Base.{
  ◌≤◌, ◌≢◌, ◌%◌, All, ok_inj, false, inl, inr, subst, sym, ◌==◌, if◌then◌else◌, ℕ, zero, suc, ◌≡◌,
  refl, Option, none, some, Result, ok, err, ◌∷◌, [], ◌++◌, Text, Bytes, codes, length, text_eq,
  text_eq_refl, ap, sym, ◌∙◌, arith,
}
use lightining_pass.Text.Trim.{is_whitespace}
use lightining_pass.Token.Types.{SignedAccessToken, CompactAccessPayload}
use lightining_pass.Token.Env.{IsUrlSafe, IsByte, Ed25519, Base64, Serde, TokenEnv}

-- The last byte of each of the first 64 numbers of key and message, padded.
unfoldable pub pad : ℕ → Bytes → Bytes
pad zero b = []
pad (suc n) [] = 0 ∷ pad n []
pad (suc n) (c ∷ b) = c % 256 ∷ pad n b

pub pad-IsByte : (n : ℕ) (b : Bytes) → All IsByte (pad n b)
unfolding pad
pad-IsByte zero b = tt
pad-IsByte (suc n) [] = (omega arith, pad-IsByte n [])
pad-IsByte (suc n) (c ∷ b) = (omega arith, pad-IsByte n b)

pub length-pad : (n : ℕ) (b : Bytes) → length (pad n b) ≡ n
unfolding pad
length-pad zero b = refl
length-pad (suc n) [] = ap suc (length-pad n [])
length-pad (suc n) (c ∷ b) = ap suc (length-pad n b)

abbrev pub demo_sign : Bytes → Bytes → Bytes
demo_sign k m = pad 64 (k ++ m)

abbrev pub demo_ed : Ed25519
demo_ed = record {
  SigningKey = Bytes;
  VerifyingKey = Bytes;
  signing_key_from_bytes = λ b. b;
  verifying_key_from_bytes = λ b. ok b;
  verifying_key = λ k. k;
  sign = demo_sign;
  verify = λ k m s. text_eq s (demo_sign k m);
  length-sign = λ k m. length-pad 64 (k ++ m);
  sign-IsByte = λ k m. pad-IsByte 64 (k ++ m);
  verify-sign = λ k m. text_eq_refl (demo_sign k m);
}

abbrev pub demo_base64 : Base64
demo_base64 = record {
  encode = encode_runs;
  decode = decode_runs 0;
  decode-encode = λ b bytes. decode_runs-encode_runs b;
}

-- A payload in bytes: its numbers are written as runs of letters.
unfoldable pub payload_bytes : CompactAccessPayload → Bytes
payload_bytes p = encode_runs (put_payload p)

abbrev pub or_eof {ℓ} : {A : Type ℓ} → Option A → Result A Text
or_eof none = err (codes "EOF while parsing")
or_eof (some a) = ok a

unfoldable pub read_payload : Bytes → Result CompactAccessPayload Text
read_payload b = elim (decode_runs 0 b) [ ok s ↦ or_eof (take_payload s) | err e ↦ err e ]

pub from_str_lem :
    (s : SignedAccessToken) (t : Text)
    → ◌≡◌ {A = Result Text Text} (ok (put_signed s)) (ok t)
    → or_eof (take_signed t) ≡ ok s
from_str_lem s t h = ground (arith, take_signed-put_signed s)

pub from_slice_lem :
    (p : CompactAccessPayload) (b : Bytes)
    → ◌≡◌ {A = Result Bytes Text} (ok (payload_bytes p)) (ok b)
    → read_payload b ≡ ok p
unfolding payload_bytes read_payload
from_slice_lem p b h =
    ground (arith, take_payload-put_payload p, decode_runs-encode_runs (put_payload p))

IsUrlSafe-IsByte : (b : Bytes) → All IsUrlSafe b → All IsByte b
IsUrlSafe-IsByte [] h = tt
IsUrlSafe-IsByte (c ∷ b) (h, hs) = (ground arith, IsUrlSafe-IsByte b hs)

pub bytes_lem :
    (p : CompactAccessPayload) (b : Bytes)
    → ◌≡◌ {A = Result Bytes Text} (ok (payload_bytes p)) (ok b)
    → All IsByte b
unfolding payload_bytes
bytes_lem p b h =
    subst (All IsByte) (ok_inj (encode_runs (put_payload p)) b h)
      (IsUrlSafe-IsByte (encode_runs (put_payload p)) (encode_runs-IsUrlSafe (put_payload p)))

pub object_lem :
    (s : SignedAccessToken) (t : Text)
    → ◌≡◌ {A = Result Text Text} (ok (put_signed s)) (ok t)
    → (body : Text) × (t ≡ b'{' ∷ body ++ b'}' ∷ [])
object_lem s t h = let (body, e) = put_signed_object s in (body, ground arith)

pub first_lem :
    (c : ℕ) (t : Text)
    → c ≢ b'{'
    → c ≢ b'['
    → is_whitespace c ≡ false
    → (message : Text) × (or_eof (take_signed (c ∷ t)) ≡ err message)
unfolding take_signed
first_lem c t h h' h'' = (codes "EOF while parsing", ground arith)

pub rejects_lem :
    (c : ℕ) (t : Text) → ¬ IsUrlSafe c → (message : Text) × (decode_runs 0 (c ∷ t) ≡ err message)
unfolding decode_runs
rejects_lem c t h = (
  codes "Invalid symbol",
  ground (
    arith,
    other (letter b'a' (omega arith) (omega arith)),
    other (letter b'b' (omega arith) (omega arith)),
  ),
)
  where
    letter : (d : ℕ) → b'a' ≤ d → d ≤ b'z' → IsUrlSafe d
    letter d lo hi = inl (inr (inr (lo, hi)))

    other : {d : ℕ} → IsUrlSafe d → c ≢ d
    other u e = h (subst IsUrlSafe (sym e) u)

pub rejects_symbol :
    (c : ℕ) (t : Text) → c ≢ b'a' → c ≢ b'b' → decode_runs 0 (c ∷ t) ≡ err (codes "Invalid symbol")
unfolding decode_runs
rejects_symbol c t h h' = ground arith

abbrev pub demo_serde : Serde
demo_serde = record {
  token_to_vec = λ t. ok (put_token t []);
  signed_to_string = λ s. ok (put_signed s);
  signed_from_str = λ t. or_eof (take_signed t);
  payload_to_vec = λ p. ok (payload_bytes p);
  payload_from_slice = read_payload;
  signed_from_str-to_string = from_str_lem;
  payload_from_slice-to_vec = from_slice_lem;
  payload_to_vec-IsByte = bytes_lem;
  signed_object = object_lem;
  signed_from_str_first = first_lem;
}

-- In this environment base64 takes any numbers.
pub demo_decode-encode : (b : Bytes) → decode_runs 0 (encode_runs b) ≡ ok b
demo_decode-encode = decode_runs-encode_runs

pub demo_alphabet : (b : Bytes) → All IsUrlSafe (encode_runs b)
demo_alphabet = encode_runs-IsUrlSafe

abbrev pub demo : TokenEnv
demo = record {
  ed = demo_ed;
  standard = demo_base64;
  url_safe = demo_base64;
  serde = demo_serde;
  url_safe_alphabet = λ b bytes. encode_runs-IsUrlSafe b;
  url_safe_rejects = rejects_lem;
}
