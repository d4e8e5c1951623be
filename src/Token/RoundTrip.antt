-- ===== src/Token/RoundTrip.antt =====
-- What is signed verifies, in both token formats.
use lightining_pass.Base.{
  ℕ, ◌≡◌, inl, inr, arith, Result, ok, err, ◌∷◌, [], ◌++◌, map_err, Text, All, leb, if◌then◌else◌,
  ◌≢◌, Result-cases,
}
use lightining_pass.Text.Split.{Lacks, split_once-append}
use lightining_pass.Token.Types.{
  serialize, AccessToken, SignedAccessToken, CompactAccessPayload, valid, invalid, expired,
  VerifyError,
}
use lightining_pass.Token.Env.{TokenEnv, IsUrlSafe}
use lightining_pass.Token.Sign.{sign_token, signed_token_to_json, sign_token_to_string}
use lightining_pass.Token.Verify.{
  verify_signed_token_at, verify_signed_token, verify_token_string, signed_token_from_json,
}
use lightining_pass.Token.Compact.{sign_compact_payload, verify_compact_token}

-- The outcome for an authentic token is decided by the clock alone.
abbrev pub unless_expired : ℕ → ℕ → Result (Unit {0}) VerifyError
unless_expired expires_at now = if leb expires_at now then err (expired now expires_at) else ok tt

IsUrlSafe-ne-dot : (c : ℕ) → IsUrlSafe c → c ≢ b'.'
IsUrlSafe-ne-dot c h e = omega arith

IsUrlSafe-Lacks : (s : Text) → All IsUrlSafe s → Lacks b'.' s
IsUrlSafe-Lacks [] h = tt
IsUrlSafe-Lacks (c ∷ s) (h, t) = (IsUrlSafe-ne-dot c h, IsUrlSafe-Lacks s t)

module _ (env : TokenEnv) where
  -- A token that was signed verifies under the signer's public key exactly while the clock is
  -- below its `expires_at`; from then on the result is `Expired`.
  pub verify-sign_token :
      (token : AccessToken) (key : env.SigningKey) (now : ℕ) (signed : SignedAccessToken)
      → sign_token env token key ≡ ok signed
      → verify_signed_token_at env signed (env.verifying_key key) now
        ≡ unless_expired token.expires_at now
  unfolding sign_token verify_signed_token_at
  verify-sign_token token key now signed h = elim (Result-cases (env.token_to_vec token)) [
    | inl (payload, e) ↦ ground (
      arith,
      env.standard.decode-encode (env.sign key payload) (env.sign-IsByte key payload),
      env.length-sign key payload,
      env.verify-sign key payload,
    )
    | inr (msg, e) ↦ ground arith
  ]

  -- A compact token that was signed verifies under the signer's public key and gives back the
  -- payload.
  pub verify-sign_compact_payload :
      (payload : CompactAccessPayload) (key : env.SigningKey) (token : Text)
      → sign_compact_payload env payload key ≡ ok token
      → verify_compact_token env token (env.verifying_key key) ≡ ok payload
  unfolding sign_compact_payload verify_compact_token
  verify-sign_compact_payload payload key token h =
      elim (Result-cases (env.payload_to_vec payload)) [
        | inl (bytes, e) ↦ ground (
          arith,
          env.url_safe.decode-encode (env.sign key bytes) (env.sign-IsByte key bytes),
          env.url_safe.decode-encode bytes (env.payload_to_vec-IsByte payload bytes e),
          env.length-sign key bytes,
          env.verify-sign key bytes,
          env.payload_from_slice-to_vec payload bytes,
          split_once-append b'.' (env.url_safe.encode bytes)
              (env.url_safe.encode (env.sign key bytes))
              (IsUrlSafe-Lacks (env.url_safe.encode bytes)
                (env.url_safe_alphabet bytes (env.payload_to_vec-IsByte payload bytes e))),
        )
        | inr (msg, e) ↦ ground arith
      ]

  -- A token that was signed and written as JSON is read back, and is valid under the signer's
  -- public key exactly while the clock is below its `expires_at`.
  pub verify_token_string-sign_token_to_string :
      (token : AccessToken) (key : env.SigningKey) (now : ℕ) (text : Text)
      → sign_token_to_string env token key ≡ ok text
      → verify_token_string env text (env.verifying_key key) now
        ≡ (if leb token.expires_at now then invalid else valid)
  unfolding sign_token_to_string signed_token_to_json verify_token_string signed_token_from_json
      verify_signed_token
  verify_token_string-sign_token_to_string token key now text h =
      elim (Result-cases (sign_token env token key)) [
        | inl (signed, e) ↦ elim (Result-cases (env.signed_to_string signed)) [
          | inl (t, e') ↦ ground (
            arith,
            verify-sign_token token key now signed e,
            env.signed_from_str-to_string signed t e',
          )
          | inr (m, e') ↦ ground arith
        ]
        | inr (e', e) ↦ ground arith
      ]

  -- The text of a signed token is its JSON, between braces.
  pub sign_token_to_string_object :
      (token : AccessToken) (key : env.SigningKey) (text : Text)
      → sign_token_to_string env token key ≡ ok text
      → (body : Text) × (text ≡ b'{' ∷ body ++ b'}' ∷ [])
  unfolding sign_token_to_string signed_token_to_json
  sign_token_to_string_object token key text h = elim (Result-cases (sign_token env token key)) [
    | inl (signed, e) ↦ env.signed_object signed text (written signed (rw e at h))
    | inr (m, e) ↦ absurd (ground arith)
  ]
    where
      written :
          (signed : SignedAccessToken)
          → map_err serialize (env.signed_to_string signed) ≡ ok text
          → env.signed_to_string signed ≡ ok text
      written signed h = elim (Result-cases (env.signed_to_string signed)) [
        | inl (t, e) ↦ ground arith
        | inr (m, e) ↦ absurd (ground arith)
      ]

  -- The parts of a signed compact token are written in the URL-safe alphabet.
  pub sign_compact_payload_parts :
      (payload : CompactAccessPayload) (key : env.SigningKey) (token : Text)
      → sign_compact_payload env payload key ≡ ok token
      → (a : Text) × (b : Text) × (token ≡ a ++ b'.' ∷ b) × All IsUrlSafe a × All IsUrlSafe b
  unfolding sign_compact_payload
  sign_compact_payload_parts payload key token h =
      elim (Result-cases (env.payload_to_vec payload)) [
        | inl (bytes, e) ↦ (
          env.url_safe.encode bytes,
          env.url_safe.encode (env.sign key bytes),
          ground arith,
          env.url_safe_alphabet bytes (env.payload_to_vec-IsByte payload bytes e),
          env.url_safe_alphabet (env.sign key bytes) (env.sign-IsByte key bytes),
        )
        | inr (m, e) ↦ absurd (ground arith)
      ]
