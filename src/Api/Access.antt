-- ===== src/Api/Access.antt =====
-- crates/api_server/src/services/access_service.rs
pub mod Laws
use lightining_pass.Base.{Result, ok, ◌>>=◌, map_err, ℕ, Text}
use lightining_pass.Random.{Samples, random_text}
use lightining_pass.SharedTypes.{PaymentEvent}
use lightining_pass.Token.Types.{AccessToken, new_stellar, show_sign_error}
use lightining_pass.Token.Sign.{sign_token, signed_token_to_json}
use lightining_pass.Qr.{render_png_data_url, render_ascii_qr}
use lightining_pass.Api.Env.{ApiEnv}
use lightining_pass.Api.Sessions.{AccessArtifact}

-- The token that is issued for a payment.
unfoldable pub token_for : PaymentEvent → Text → ℕ → Text → AccessToken
unfolding new_stellar
token_for event event_id expires_at nonce =
    new_stellar 1 event_id event.tx_hash event.source_account event.amount event.asset event.memo
      event.ledger_sequence expires_at nonce

module _ (env : ApiEnv) where
  pub record AccessService : Type 0 where
    pub signing_key : env.SigningKey

  unfoldable pub issue_token :
      AccessService → PaymentEvent → Text → ℕ → Samples → Result AccessArtifact Text
  issue_token self event event_id expires_at rng = do
    let token = token_for event event_id expires_at (random_text 16 rng)
    signed ← map_err show_sign_error (sign_token env.tokens token self.signing_key)
    text ← map_err show_sign_error (signed_token_to_json env.tokens signed)
    qr_png ← render_png_data_url env.qr text 320
    qr_ascii ← render_ascii_qr env.qr text
    ok (record { token = text; qr_png = qr_png; qr_ascii = qr_ascii; tx_hash = event.tx_hash })
