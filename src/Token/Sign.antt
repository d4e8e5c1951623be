-- ===== src/Token/Sign.antt =====
-- crates/access_token/src/sign.rs
use lightining_pass.Base.{Result, ok, ◌>>=◌, map_err, Text}
use lightining_pass.Token.Types.{AccessToken, SignedAccessToken, SignError, serialize}
use lightining_pass.Token.Env.{TokenEnv}

module _ (env : TokenEnv) where
  unfoldable pub sign_token : AccessToken → env.SigningKey → Result SignedAccessToken SignError
  sign_token token signing_key = do
    payload ← map_err serialize (env.token_to_vec token)
    let signature = env.sign signing_key payload
    let signature_b64 = env.standard.encode signature
    ok (record { token = token; signature = signature_b64 })

  unfoldable pub signed_token_to_json : SignedAccessToken → Result Text SignError
  signed_token_to_json signed = map_err serialize (env.signed_to_string signed)

  unfoldable pub sign_token_to_string : AccessToken → env.SigningKey → Result Text SignError
  sign_token_to_string token signing_key = do
    signed ← sign_token token signing_key
    signed_token_to_json signed
