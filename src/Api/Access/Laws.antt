-- ===== src/Api/Access/Laws.antt =====
-- An issued artifact carries a signed token for its payment.
use lightining_pass.Base.{ℕ, ◌≡◌, inl, inr, arith, ok, Text, Result-cases}
use lightining_pass.Random.{Samples, random_text}
use lightining_pass.SharedTypes.{PaymentEvent}
use lightining_pass.Token.Sign.{sign_token, signed_token_to_json, sign_token_to_string}
use lightining_pass.Qr.{render_png_data_url, render_ascii_qr}
use lightining_pass.Api.Env.{ApiEnv}
use lightining_pass.Api.Sessions.{AccessArtifact}
use lightining_pass.Api.Access.{token_for, AccessService, issue_token}

module _ (env : ApiEnv) (self : AccessService env) (event : PaymentEvent) (event_id : Text)
    (expires_at : ℕ) (rng : Samples) where
  -- The artifact's text is the signed token of the payment, as JSON, and its transaction is the
  -- payment's.
  pub issue_token-eq-ok :
      (a : AccessArtifact)
      → issue_token env self event event_id expires_at rng ≡ ok a
      → (sign_token_to_string env.tokens
            (token_for event event_id expires_at (random_text 16 rng))
            self.signing_key
          ≡ ok a.token)
        × (a.tx_hash ≡ event.tx_hash)
  unfolding issue_token sign_token_to_string
  issue_token-eq-ok a h =
      let token = token_for event event_id expires_at (random_text 16 rng) in
      elim (Result-cases (sign_token env.tokens token self.signing_key)) [
        | inl (signed, e) ↦ elim (Result-cases (signed_token_to_json env.tokens signed)) [
          | inl (text, written) ↦ elim (Result-cases (render_png_data_url env.qr text 320)) [
            | inl (png, drawn) ↦ elim (Result-cases (render_ascii_qr env.qr text)) [
              | inl (ascii, printed) ↦ (ground arith, ground arith)
              | inr (m, printed) ↦ absurd (ground arith)
            ]
            | inr (m, drawn) ↦ absurd (ground arith)
          ]
          | inr (m, written) ↦ absurd (ground arith)
        ]
        | inr (m, e) ↦ absurd (ground arith)
      ]
