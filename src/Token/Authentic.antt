-- ===== src/Token/Authentic.antt =====
-- What an accepted token is: the checks of `verify_signed_token_at` and `verify_compact_token` as
-- predicates that do not mention the code.
use lightining_pass.Base.{
  ℕ, ◌≤◌, ◌<◌, ◌≡◌, ◌↔◌, arith, Bool, true, false, Option, Result, ok, err, some, none, ◌∷◌, ◌++◌,
  Text, Bytes, length, Result-cases, inl, inr,
}
use lightining_pass.Text.Split.{
  split_once, Lacks, Splits, split_once-append, split_once-Splits, split_once-none_iff,
}
use lightining_pass.Token.Types.{
  SignedAccessToken, CompactAccessPayload, VerifyError, expired, invalid_format,
}
use lightining_pass.Token.Env.{TokenEnv}
use lightining_pass.Token.Verify.{verify_signed_token_at}
use lightining_pass.Token.RoundTrip.{unless_expired}
use lightining_pass.Token.Compact.{verify_parts, verify_compact_token}

-- The results that the checks before the clock's let through.
abbrev passed : Result (Unit {0}) VerifyError → Bool
passed (ok u) = true
passed (err (expired now expires_at)) = true
passed (err e) = false

module _ (env : TokenEnv) where
  -- The signature is the base64 of 64 bytes that verify for the token's JSON.
  pub record IsAuthentic (signed : SignedAccessToken) (key : env.VerifyingKey) : Type 0 where
    pub payload : Bytes
    pub signature : Bytes
    pub written : env.token_to_vec signed.token ≡ ok payload
    pub decoded : env.standard.decode signed.signature ≡ ok signature
    pub sized : length signature ≡ 64
    pub verified : env.verify key payload signature ≡ true

  IsAuthentic-of_passed :
      (signed : SignedAccessToken) (key : env.VerifyingKey) (now : ℕ)
      → passed (verify_signed_token_at env signed key now) ≡ true
      → IsAuthentic signed key
  unfolding verify_signed_token_at
  IsAuthentic-of_passed signed key now h = elim (Result-cases (env.token_to_vec signed.token)) [
    | inl (payload, e) ↦ elim (Result-cases (env.standard.decode signed.signature)) [
      | inl (signature, e') ↦ record {
        payload = payload;
        signature = signature;
        written = e;
        decoded = e';
        sized = ground arith;
        verified = ground arith;
      }
      | inr (m, e') ↦ absurd (ground arith)
    ]
    | inr (m, e) ↦ absurd (ground arith)
  ]

  verify_of_IsAuthentic :
      (signed : SignedAccessToken) (key : env.VerifyingKey) (now : ℕ)
      → IsAuthentic signed key
      → verify_signed_token_at env signed key now ≡ unless_expired signed.token.expires_at now
  unfolding verify_signed_token_at
  verify_of_IsAuthentic signed key now a = ground (arith, a.written, a.decoded, a.sized, a.verified)

  -- A token is accepted exactly when it is authentic and the clock is below its `expires_at`.
  pub verify_iff :
      (signed : SignedAccessToken) (key : env.VerifyingKey) (now : ℕ)
      → (verify_signed_token_at env signed key now ≡ ok tt)
        ↔ (IsAuthentic signed key × (now < signed.token.expires_at))
  verify_iff signed key now = (
    λ h.
        let a = IsAuthentic-of_passed signed key now (rw h) in
        (a, ground (arith, verify_of_IsAuthentic signed key now a)),
    λ (a, h). ground (arith, verify_of_IsAuthentic signed key now a),
  )

  -- A token is reported as expired exactly when it is authentic and the clock has reached its
  -- `expires_at`; the report names the clock's reading and that time.
  pub expired_iff :
      (signed : SignedAccessToken) (key : env.VerifyingKey) (now now' expires_at : ℕ)
      → (verify_signed_token_at env signed key now ≡ err (expired now' expires_at)) ↔ (
          IsAuthentic signed key
          × (now' ≡ now)
          × (expires_at ≡ signed.token.expires_at)
          × (expires_at ≤ now))
  expired_iff signed key now now' expires_at = (
    λ h.
        let a = IsAuthentic-of_passed signed key now (rw h) in
        let e = verify_of_IsAuthentic signed key now a in
        (a, ground (arith, e), ground (arith, e), ground (arith, e)),
    λ (a, h, h', h''). ground (arith, verify_of_IsAuthentic signed key now a),
  )

  -- A token that is accepted at some time is accepted at every earlier time.
  pub verify_earlier :
      (signed : SignedAccessToken) (key : env.VerifyingKey) (now later : ℕ)
      → now ≤ later
      → verify_signed_token_at env signed key later ≡ ok tt
      → verify_signed_token_at env signed key now ≡ ok tt
  verify_earlier signed key now later h e =
      let (a, fresh) = (verify_iff signed key later).0 e in
      (verify_iff signed key now).1 (a, omega arith)

  -- The parts of an accepted compact token.
  pub record IsAuthenticCompact (token : Text) (key : env.VerifyingKey) (p : CompactAccessPayload)
      : Type 0 where
    pub payload_b64 : Text
    pub sig_b64 : Text
    pub payload : Bytes
    pub signature : Bytes
    pub joined : token ≡ payload_b64 ++ b'.' ∷ sig_b64
    pub first_dot : Lacks b'.' payload_b64
    pub payload_decoded : env.url_safe.decode payload_b64 ≡ ok payload
    pub signature_decoded : env.url_safe.decode sig_b64 ≡ ok signature
    pub sized : length signature ≡ 64
    pub verified : env.verify key payload signature ≡ true
    pub read : env.payload_from_slice payload ≡ ok p

  Splits-IsAuthenticCompact :
      (token : Text) (key : env.VerifyingKey) (p : CompactAccessPayload)
      (parts : Text × Option Text)
      → Splits b'.' token parts
      → verify_parts env parts key ≡ ok p
      → IsAuthenticCompact token key p
  unfolding verify_parts
  Splits-IsAuthenticCompact token key p (a, none) s h = absurd (ground arith)
  Splits-IsAuthenticCompact token key p (a, some b) s h =
      elim (Result-cases (env.url_safe.decode a)) [
        | inl (payload, e) ↦ elim (Result-cases (env.url_safe.decode b)) [
          | inl (signature, e') ↦ record {
            payload_b64 = a;
            sig_b64 = b;
            payload = payload;
            signature = signature;
            joined = s.0;
            first_dot = s.1;
            payload_decoded = e;
            signature_decoded = e';
            sized = ground arith;
            verified = ground arith;
            read = ground arith;
          }
          | inr (m, e') ↦ absurd (ground arith)
        ]
        | inr (m, e) ↦ absurd (ground arith)
      ]

  -- A compact token is accepted with the payload `p` exactly when it is two base64 texts joined by
  -- its first dot, the second of which is 64 bytes that verify for the first, from which `p` is
  -- read. The clock is not asked.
  pub verify_compact_iff :
      (token : Text) (key : env.VerifyingKey) (p : CompactAccessPayload)
      → (verify_compact_token env token key ≡ ok p) ↔ IsAuthenticCompact token key p
  unfolding verify_compact_token verify_parts
  verify_compact_iff token key p = (
    Splits-IsAuthenticCompact token key p (split_once b'.' token) (split_once-Splits b'.' token),
    λ a. ground (
      arith,
      a.joined,
      split_once-append b'.' a.payload_b64 a.sig_b64 a.first_dot,
      a.payload_decoded,
      a.signature_decoded,
      a.sized,
      a.verified,
      a.read,
    ),
  )

  -- `InvalidFormat` is reported exactly for a text with no dot.
  pub invalid_format_iff :
      (token : Text) (key : env.VerifyingKey)
      → (verify_compact_token env token key ≡ err invalid_format) ↔ Lacks b'.' token
  unfolding verify_compact_token verify_parts
  invalid_format_iff token key = (
    λ h. (split_once-none_iff b'.' token).0 (ground arith),
    λ h. ground (arith, (split_once-none_iff b'.' token).1 h),
  )
