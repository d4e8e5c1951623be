-- ===== src/Token/Types.antt =====
-- crates/access_token/src/token.rs, and the types of sign.rs, verify.rs and compact.rs.
use lightining_pass.Base.{ℕ, [], Text, codes, ◌++◌}
use lightining_pass.Random.{Samples, random_text}
use lightining_pass.Text.Decimal.{show_u64}

pub record AccessToken : Type 0 where
  pub version : ℕ
  pub event_id : Text
  pub payment_hash : Text
  pub tx_hash : Text
  pub source : Text
  pub amount : Text
  pub asset : Text
  pub memo : Text
  pub ledger : ℕ
  pub expires_at : ℕ
  pub nonce : Text

-- `AccessToken::new`.
unfoldable pub new : ℕ → Text → Text → ℕ → Text → AccessToken
new version event_id payment_hash expires_at nonce = record {
  version = version;
  event_id = event_id;
  payment_hash = payment_hash;
  tx_hash = [];
  source = [];
  amount = [];
  asset = [];
  memo = [];
  ledger = 0;
  expires_at = expires_at;
  nonce = nonce;
}

unfoldable pub new_stellar :
    ℕ → Text → Text → Text → Text → Text → Text → ℕ → ℕ → Text → AccessToken
new_stellar version event_id tx_hash source amount asset memo ledger expires_at nonce = record {
  version = version;
  event_id = event_id;
  payment_hash = [];
  tx_hash = tx_hash;
  source = source;
  amount = amount;
  asset = asset;
  memo = memo;
  ledger = ledger;
  expires_at = expires_at;
  nonce = nonce;
}

unfoldable pub with_random_nonce : ℕ → Text → Text → ℕ → Samples → AccessToken
unfolding new
with_random_nonce version event_id payment_hash expires_at rng =
    new version event_id payment_hash expires_at (random_text 16 rng)

unfoldable pub with_random_nonce_stellar :
    ℕ → Text → Text → Text → Text → Text → Text → ℕ → ℕ → Samples → AccessToken
unfolding new_stellar
with_random_nonce_stellar version event_id tx_hash source amount asset memo ledger expires_at rng =
    new_stellar version event_id tx_hash source amount asset memo ledger expires_at
      (random_text 16 rng)

pub record SignedAccessToken : Type 0 where
  pub token : AccessToken
  pub signature : Text

-- A `serde_json::Error` is its message.
pub data SignError : Type 0 where
  serialize : Text → SignError

pub data VerificationStatus : Type 0 where
  valid invalid : VerificationStatus

pub data VerifyError : Type 0 where
  decode : Text → VerifyError
  invalid_signature_length : VerifyError
  invalid_signature : VerifyError
  invalid_token : Text → VerifyError
  expired : (now expires_at : ℕ) → VerifyError

pub record CompactAccessPayload : Type 0 where
  pub payment_hash : Text
  pub expires_at : ℕ
  pub event_id : Text

pub data CompactVerifyError : Type 0 where
  invalid_format : CompactVerifyError
  invalid_payload : Text → CompactVerifyError
  invalid_signature : CompactVerifyError
  invalid_signature_length : CompactVerifyError
  base64 : Text → CompactVerifyError

-- `Display for SignError`.
unfoldable pub show_sign_error : SignError → Text
show_sign_error (serialize e) = codes "failed to serialize token: " ++ e

-- `Display for VerifyError`.
unfoldable pub show_verify_error : VerifyError → Text
show_verify_error (decode e) = codes "invalid base64 signature: " ++ e
show_verify_error invalid_signature_length = codes "signature length is invalid"
show_verify_error invalid_signature = codes "signature did not verify"
show_verify_error (invalid_token e) = codes "invalid token payload: " ++ e
show_verify_error (expired now expires_at) =
    codes "token expired at "
    ++ (show_u64 expires_at ++ (codes " (now " ++ (show_u64 now ++ codes ")")))
