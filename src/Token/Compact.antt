-- ===== src/Token/Compact.antt =====
-- crates/access_token/src/compact.rs
use lightining_pass.Base.{Result, ok, ◌>>=◌, ◌>>◌, guard, map_err, ok_or, Option, Text, ◌∷◌, ◌++◌}
use lightining_pass.Text.Split.{split_once}
use lightining_pass.Token.Types.{
  CompactAccessPayload, CompactVerifyError, invalid_format, invalid_payload, base64,
}
use lightining_pass.Token.Env.{TokenEnv, try_into_array}

module _ (env : TokenEnv) where
  unfoldable pub sign_compact_payload : CompactAccessPayload → env.SigningKey → Result Text Text
  sign_compact_payload payload signing_key = do
    payload_json ← env.payload_to_vec payload
    let signature = env.sign signing_key payload_json
    let payload_b64 = env.url_safe.encode payload_json
    let sig_b64 = env.url_safe.encode signature
    ok (payload_b64 ++ b'.' ∷ sig_b64)

  -- What `verify_compact_token` does with the parts of its text; the first `parts.next()` of a
  -- `splitn` is never `None`.
  unfoldable pub verify_parts :
      Text × Option Text → env.VerifyingKey → Result CompactAccessPayload CompactVerifyError
  verify_parts parts public_key = do
    sig_b64 ← ok_or invalid_format parts.1
    payload_bytes ← map_err base64 (env.url_safe.decode parts.0)
    decoded ← map_err base64 (env.url_safe.decode sig_b64)
    signature ← try_into_array 64 CompactVerifyError.invalid_signature_length decoded
    guard (env.verify public_key payload_bytes signature) CompactVerifyError.invalid_signature
    map_err invalid_payload (env.payload_from_slice payload_bytes)

  unfoldable pub verify_compact_token :
      Text → env.VerifyingKey → Result CompactAccessPayload CompactVerifyError
  unfolding verify_parts
  verify_compact_token token public_key = verify_parts (split_once b'.' token) public_key
