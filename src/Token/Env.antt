-- ===== src/Token/Env.antt =====
-- What crates/access_token calls and the repository does not hold: ed25519-dalek, base64 and
-- serde_json. Each is a record of operations, with the documented laws that the code relies on.
use lightining_pass.Base.{
  ℕ, ◌<◌, ◌≡◌, ◌⊎◌, ◌≢◌, Bool, true, false, ◌∷◌, [], ◌++◌, Result, ok, err, Text, Bytes, All,
  length, ◌==◌, if◌then◌else◌,
}
use lightining_pass.Text.Trim.{is_whitespace}
use lightining_pass.Random.{IsAlphanumeric}
use lightining_pass.Token.Types.{AccessToken, SignedAccessToken, CompactAccessPayload}

-- What a `u8` holds.
abbrev pub IsByte : ℕ → Type 0
IsByte c = c < 256

-- ed25519-dalek. `sign` gives the 64 bytes of `to_bytes`; `verify` takes those of `from_bytes`.
pub record Ed25519 : Type 1 where
  pub SigningKey : Type 0
  pub VerifyingKey : Type 0
  pub signing_key_from_bytes : Bytes → SigningKey
  pub verifying_key_from_bytes : Bytes → Result VerifyingKey Text
  pub verifying_key : SigningKey → VerifyingKey
  pub sign : SigningKey → Bytes → Bytes
  pub verify : VerifyingKey → Bytes → Bytes → Bool
  pub length-sign : (k : SigningKey) (m : Bytes) → length (sign k m) ≡ 64
  pub sign-IsByte : (k : SigningKey) (m : Bytes) → All IsByte (sign k m)
  -- A signature verifies under the key of its signer.
  pub verify-sign : (k : SigningKey) (m : Bytes) → verify (verifying_key k) m (sign k m) ≡ true

-- One base64 engine.
pub record Base64 : Type 0 where
  pub encode : Bytes → Text
  pub decode : Text → Result Bytes Text
  pub decode-encode : (b : Bytes) → All IsByte b → decode (encode b) ≡ ok b

-- The alphabet of URL_SAFE_NO_PAD.
abbrev pub IsUrlSafe : ℕ → Type 0
IsUrlSafe c = IsAlphanumeric c ⊎ (c ≡ b'-') ⊎ (c ≡ b'_')

-- serde_json at the types of the crate.
pub record Serde : Type 0 where
  pub token_to_vec : AccessToken → Result Bytes Text
  pub signed_to_string : SignedAccessToken → Result Text Text
  pub signed_from_str : Text → Result SignedAccessToken Text
  pub payload_to_vec : CompactAccessPayload → Result Bytes Text
  pub payload_from_slice : Bytes → Result CompactAccessPayload Text
  -- Reading back what was written.
  pub signed_from_str-to_string :
      (s : SignedAccessToken) (t : Text) → signed_to_string s ≡ ok t → signed_from_str t ≡ ok s
  pub payload_from_slice-to_vec :
      (p : CompactAccessPayload) (b : Bytes) → payload_to_vec p ≡ ok b → payload_from_slice b ≡ ok p
  pub payload_to_vec-IsByte :
      (p : CompactAccessPayload) (b : Bytes) → payload_to_vec p ≡ ok b → All IsByte b
  -- A struct is written as an object, with no space around it.
  pub signed_object :
      (s : SignedAccessToken) (t : Text)
      → signed_to_string s ≡ ok t
      → (body : Text) × (t ≡ b'{' ∷ body ++ b'}' ∷ [])
  -- What reads as a struct begins with a brace or a bracket, or with white space.
  pub signed_from_str_first :
      (c : ℕ) (t : Text)
      → c ≢ b'{'
      → c ≢ b'['
      → is_whitespace c ≡ false
      → (message : Text) × (signed_from_str (c ∷ t) ≡ err message)

pub record TokenEnv : Type 1 where
  pub ed : Ed25519
  pub open ed use *
  pub standard : Base64
  pub url_safe : Base64
  pub serde : Serde
  pub open serde use *
  pub url_safe_alphabet : (b : Bytes) → All IsByte b → All IsUrlSafe (url_safe.encode b)
  -- A symbol outside the alphabet is not decoded.
  pub url_safe_rejects :
      (c : ℕ) (t : Text)
      → ¬ IsUrlSafe c
      → (message : Text) × (url_safe.decode (c ∷ t) ≡ err message)

-- `slice.try_into::<[u8; n]>()`: refused unless the length is `n`.
abbrev pub try_into_array {κ} : {E : Type κ} → ℕ → E → Bytes → Result Bytes E
try_into_array n e b = if length b == n then ok b else err e
