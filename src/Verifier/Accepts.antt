-- ===== src/Verifier/Accepts.antt =====
-- What the verifier accepts.
use lightining_pass.Base.{
  ℕ, ◌≤◌, ◌<◌, ◌≡◌, ◌≢◌, inl, inr, refl, arith, Bool, true, false, none, Result, ok, err, Text,
  codes, Result-cases,
}
use lightining_pass.Text.Trim.{trim, trim_between, is_whitespace}
use lightining_pass.Token.Types.{
  SignedAccessToken, CompactAccessPayload, VerificationStatus, valid, invalid,
}
use lightining_pass.Token.Verify.{
  verify_token_string, signed_token_from_json, verify_signed_token, verify_signed_token_at,
}
use lightining_pass.Token.Compact.{verify_compact_token}
use lightining_pass.Token.Authentic.{
  IsAuthentic, verify_iff, IsAuthenticCompact, verify_compact_iff,
}
use lightining_pass.Verifier.{
  VerifierEnv, Args, is_expired, load_public_key, token_text, check_token, check_compact, run,
  report, main, placeholder_key, key_text,
}

placeholder_trim : trim placeholder_key ≡ placeholder_key
unfolding is_whitespace
placeholder_trim = trim_between b'R' (codes "EPLACE_WITH_BASE64_PUBLIC_KE") b'Y' refl refl

module _ (env : VerifierEnv) where
  -- What the verifier prints VALID for: the token, without the space around it, is an authentic JSON
  -- token below its `expires_at`, or an authentic compact token not above its.
  pub data Accepted (key : env.VerifyingKey) (token : Text) (now later : ℕ) : Type 0 where
    json :
        (signed : SignedAccessToken)
        → env.signed_from_str token ≡ ok signed
        → IsAuthentic env.tokens signed key
        → now < signed.token.expires_at
        → Accepted key token now later
    compact :
        (payload : CompactAccessPayload)
        → IsAuthenticCompact env.tokens token key payload
        → later ≤ payload.expires_at
        → Accepted key token now later

  valid-Accepted :
      (key : env.VerifyingKey) (token : Text) (now later : ℕ)
      → verify_token_string env.tokens token key now ≡ valid
      → Accepted key token now later
  unfolding verify_token_string signed_token_from_json verify_signed_token
  valid-Accepted key token now later h = elim (Result-cases (env.signed_from_str token)) [
    | inl (signed, e) ↦ elim (Result-cases (verify_signed_token_at env.tokens signed key now)) [
      | inl (u, passed) ↦
          let (a, fresh) = (verify_iff env.tokens signed key now).0 passed in json signed e a fresh
      | inr (m, failed) ↦ absurd (ground arith)
    ]
    | inr (m, e) ↦ absurd (ground arith)
  ]

  compact-Accepted :
      (key : env.VerifyingKey) (token : Text) (now later : ℕ)
      → check_compact env (verify_compact_token env.tokens token key) later ≡ ok true
      → Accepted key token now later
  unfolding check_compact is_expired
  compact-Accepted key token now later h =
      elim (Result-cases (verify_compact_token env.tokens token key)) [
        | inl (p, e) ↦ compact p ((verify_compact_iff env.tokens token key p).0 e) (ground arith)
        | inr (m, e) ↦ absurd (ground arith)
      ]

  check_token-Accepted :
      (key : env.VerifyingKey) (token : Text) (now later : ℕ)
      → check_token env (verify_token_string env.tokens token key now) token key later ≡ ok true
      → Accepted key token now later
  unfolding check_token
  check_token-Accepted key token now later h =
      go (verify_token_string env.tokens token key now) refl h
    where
      go :
          (status : VerificationStatus)
          → verify_token_string env.tokens token key now ≡ status
          → check_token env status token key later ≡ ok true
          → Accepted key token now later
      go valid e h = valid-Accepted key token now later e
      go invalid e h = compact-Accepted key token now later h

  report_err : (m : Text) → report env (err m) ≢ (codes "VALID", 0)
  unfolding report
  report_err m h = ground arith

  report_valid : (r : Result Bool Text) → report env r ≡ (codes "VALID", 0) → r ≡ ok true
  unfolding report
  report_valid (ok true) h = refl
  report_valid (ok false) h = absurd (ground arith)
  report_valid (err m) h = absurd (ground arith)

  -- The verifier prints VALID, and exits with 0, only for a token that it reads from its arguments
  -- and that is accepted under the key that it loads.
  pub main_sound :
      (args : Args) (now later : ℕ)
      → main env args now later ≡ (codes "VALID", 0)
      → (key : env.VerifyingKey) × (text : Text) × (load_public_key env args.public_key ≡ ok key)
        × (token_text env args.token args.qr_image ≡ ok text)
        × Accepted key (trim text) now later
  unfolding main run
  main_sound args now later h = elim (Result-cases (load_public_key env args.public_key)) [
    | inl (key, loaded) ↦ elim (Result-cases (token_text env args.token args.qr_image)) [
      | inl (text, given) ↦ (
        key,
        text,
        loaded,
        given,
        check_token-Accepted key (trim text) now later (report_valid _ (rw (loaded, given) at h)),
      )
      | inr (m, given) ↦ absurd (report_err m (rw (loaded, given) at h))
    ]
    | inr (m, loaded) ↦ absurd (report_err m (rw loaded at h))
  ]

  -- Without a key file the verifier decodes the text that stands in place of a key. That text has low
  -- lines, which are no symbols of base64: then every run prints INVALID.
  pub main_no_key :
      (args : Args) (now later : ℕ) (message : Text)
      → env.standard.decode placeholder_key ≡ err message
      → args.public_key ≡ none
      → main env args now later ≡ (codes "INVALID", 1)
  unfolding main run load_public_key key_text report
  main_no_key args now later message refused none_given =
      rw (main, none_given, placeholder_trim, refused) refl
