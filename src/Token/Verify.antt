-- ===== src/Token/Verify.antt =====
-- crates/access_token/src/verify.rs. The clock's reading is the argument `now`.
use lightining_pass.Base.{
  ℕ, Result, ok, err, ◌>>=◌, ◌>>◌, guard, map_err, is_ok, Text, leb, if◌then◌else◌,
}
use lightining_pass.Token.Types.{
  SignedAccessToken, VerificationStatus, valid, invalid, VerifyError, decode,
  invalid_signature_length, invalid_signature, invalid_token, expired,
}
use lightining_pass.Token.Env.{TokenEnv, try_into_array}

module _ (env : TokenEnv) where
  unfoldable pub signed_token_from_json : Text → Result SignedAccessToken VerifyError
  signed_token_from_json input = map_err invalid_token (env.signed_from_str input)

  unfoldable pub verify_signed_token_at :
      SignedAccessToken → env.VerifyingKey → ℕ → Result (Unit {0}) VerifyError
  verify_signed_token_at signed public_key now = do
    payload ← map_err invalid_token (env.token_to_vec signed.token)
    decoded ← map_err decode (env.standard.decode signed.signature)
    signature ← try_into_array 64 invalid_signature_length decoded
    guard (env.verify public_key payload signature) invalid_signature
    if leb signed.token.expires_at now then err (expired now signed.token.expires_at) else ok tt

  -- `verify_signed_token` reads the clock and calls the above.
  unfoldable pub verify_signed_token :
      SignedAccessToken → env.VerifyingKey → (now_secs : ℕ) → Result (Unit {0}) VerifyError
  verify_signed_token signed public_key now_secs = verify_signed_token_at signed public_key now_secs

  unfoldable pub verify_token_string : Text → env.VerifyingKey → ℕ → VerificationStatus
  verify_token_string input public_key now_secs = elim (signed_token_from_json input) [
    | ok signed ↦ if is_ok (verify_signed_token signed public_key now_secs) then valid else invalid
    | err e ↦ invalid
  ]
