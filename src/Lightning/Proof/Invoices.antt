-- ===== src/Lightning/Proof/Invoices.antt =====
-- What `create_invoice` does to the store.
use lightining_pass.Base.{
  ◌<◌, ◌↔◌, unwrap_or, add_u64, lt→ltb, ℕ, Option, none, Result, ok, err, Text, codes, ◌≡◌, ◌≢◌,
  ◌^◌, inl, inr, refl, ap, sym, subst, ◌∙◌, arith, Result-cases,
}
use lightining_pass.Base.Dict.{get-insert_self, get-insert_other}
use lightining_pass.Random.{Samples}
use lightining_pass.Token.Env.{TokenEnv}
use lightining_pass.Qr.{QrLib}
use lightining_pass.Lightning.Qr.{render_ascii_qr, render_png_data_url}
use lightining_pass.Lightning.Proof.{random_id}
use lightining_pass.Lightning.Gateway.{LightningInvoice, LightningGateway}
use lightining_pass.Lightning.Proof.{
  AccessSession, InvoiceResponse, StatusResponse, ProofError, internal, pending, ProofService,
  prepare_invoice, store_invoice, create_invoice, check_invoice, status_text,
}

module _ (tokens : TokenEnv) (qr : QrLib) where
  -- A new invoice as `check_invoice` shows it.
  unfoldable pub fresh_status : ℕ → StatusResponse
  fresh_status expires_at = record {
    status = codes "pending";
    expires_at = expires_at;
    access_token = none;
    access_qr_png = none;
    access_qr_ascii = none;
  }

  pub prepare_invoice_lem :
      {S : Type 0}
      → (self : ProofService tokens qr) (gateway : LightningGateway S) (amount : Option ℕ)
      → (description : Option Text) (rng : Samples) (now : ℕ)
      → (session : AccessSession) (response : InvoiceResponse)
      → prepare_invoice tokens qr self gateway amount description rng now ≡ ok (session, response)
      → (session.invoice_id ≡ response.invoice_id)
        × (session.status ≡ pending)
        × (session.expires_at ≡ response.expires_at)
        × (session.access_token ≡ none)
        × (session.access_qr_png ≡ none)
        × (session.access_qr_ascii ≡ none)
  unfolding prepare_invoice
  prepare_invoice_lem self gateway amount description rng now session response h = ground arith

  -- What `create_invoice` leaves: the store as it was, or with one new invoice.
  pub data Created (self : ProofService tokens qr) (r : Result InvoiceResponse ProofError)
      (after : ProofService tokens qr) : Type 0 where
    failed : (r ≡ err internal) → after ≡ self → Created self r after
    created :
        (response : InvoiceResponse)
        → r ≡ ok response
        → check_invoice tokens qr after response.invoice_id ≡ ok (fresh_status response.expires_at)
        → ((other : Text)
            → other ≢ response.invoice_id
            → check_invoice tokens qr after other ≡ check_invoice tokens qr self other)
        → Created self r after

  check_invoice-insert :
      (self : ProofService tokens qr) (session : AccessSession) (response : InvoiceResponse)
      → (session.invoice_id ≡ response.invoice_id)
        × (session.status ≡ pending)
        × (session.expires_at ≡ response.expires_at)
        × (session.access_token ≡ none)
        × (session.access_qr_png ≡ none)
        × (session.access_qr_ascii ≡ none)
      → Created self (ok response) (store_invoice tokens qr self (ok (session, response))).1
  unfolding store_invoice check_invoice fresh_status status_text
  check_invoice-insert self session response (e1, e2, e3, e4, e5, e6) =
      created response refl
        (subst
          (λ k.
            check_invoice tokens qr (store_invoice tokens qr self (ok (session, response))).1 k
            ≡ ok (fresh_status response.expires_at))
          e1 (rw (check_invoice, get-insert_self, e2, e3, e4, e5, e6) refl))
        (λ other h.
          rw
            (
              check_invoice,
              get-insert_other self.sessions session.invoice_id other session (λ q. h (q ∙ e1)),
            )
            refl)

  prepare_invoice-err :
      {S : Type 0}
      → (self : ProofService tokens qr) (gateway : LightningGateway S) (amount : Option ℕ)
      → (description : Option Text) (rng : Samples) (now : ℕ) → (e : ProofError)
      → prepare_invoice tokens qr self gateway amount description rng now ≡ err e
      → e ≡ internal
  unfolding prepare_invoice
  prepare_invoice-err self gateway amount description rng now e h = ground arith

  -- `create_invoice` fails with `Internal` and leaves the store as it was; or it answers with an invoice
  -- that `check_invoice` then shows as pending until the time of the answer, and changes no other one.
  pub create_invoice-Created :
      {S : Type 0}
      → (self : ProofService tokens qr) (gateway : LightningGateway S) (amount : Option ℕ)
      → (description : Option Text) (rng : Samples) (now : ℕ)
      → Created self
          (create_invoice tokens qr self gateway amount description rng now).0
          (create_invoice tokens qr self gateway amount description rng now).1
  unfolding create_invoice store_invoice
  create_invoice-Created self gateway amount description rng now =
      elim (Result-cases (prepare_invoice tokens qr self gateway amount description rng now)) [
        | inl ((session, response), e) ↦
            subst
              (λ x.
                Created self (store_invoice tokens qr self x).0 (store_invoice tokens qr self x).1)
              (sym e)
              (check_invoice-insert self session response
                (prepare_invoice_lem self gateway amount description rng now session response e))
        | inr (m, e) ↦
            subst
              (λ x.
                Created self (store_invoice tokens qr self x).0 (store_invoice tokens qr self x).1)
              (sym e)
              (failed (ap err (prepare_invoice-err self gateway amount description rng now m e))
                refl)
      ]

  -- What a new invoice went through, and what the answer says of it.
  pub data Offered {S : Type 0} (self : ProofService tokens qr) (gateway : LightningGateway S)
      (amount : Option ℕ) (description : Option Text) (rng : Samples) (now : ℕ)
      (response : InvoiceResponse) : Type 0 where
    offered :
        (invoice : LightningInvoice)
        → self.config.invoice_expiry_secs < 2 ^ 32
        → gateway.create_invoice
            (unwrap_or amount self.config.amount_msat)
            (unwrap_or description (codes "Lightning Pass access"))
            self.config.invoice_expiry_secs
          ≡ ok invoice
        → render_png_data_url qr invoice.invoice 320 ≡ ok response.invoice_qr_png
        → render_ascii_qr qr invoice.invoice ≡ ok response.invoice_qr_ascii
        → response.invoice ≡ invoice.invoice
        → response.invoice_id ≡ random_id rng
        → response.amount_msat ≡ unwrap_or amount self.config.amount_msat
        → response.expires_at ≡ add_u64 now self.config.invoice_expiry_secs
        → Offered self gateway amount description rng now response

  create_invoice-Offered :
      {S : Type 0}
      → (self : ProofService tokens qr) (gateway : LightningGateway S) (amount : Option ℕ)
      → (description : Option Text) (rng : Samples) (now : ℕ) (response : InvoiceResponse)
      → (create_invoice tokens qr self gateway amount description rng now).0 ≡ ok response
      → Offered self gateway amount description rng now response
  unfolding create_invoice prepare_invoice store_invoice
  create_invoice-Offered self gateway amount description rng now response h =
      elim (Result-cases (
        gateway.create_invoice (unwrap_or amount self.config.amount_msat)
          (unwrap_or description (codes "Lightning Pass access"))
          self.config.invoice_expiry_secs)) [
            | inl (invoice, e) ↦ elim (Result-cases (render_png_data_url qr invoice.invoice 320)) [
              | inl (png, e') ↦ elim (Result-cases (render_ascii_qr qr invoice.invoice)) [
                | inl (art, drawn) ↦
                    offered invoice (ground arith) (ground arith) (ground arith) (ground arith)
                      (ground arith) (ground arith) (ground arith) (ground arith)
                | inr (m, bad) ↦ absurd (ground arith)
              ]
              | inr (m, bad) ↦ absurd (ground arith)
            ]
            | inr (m, bad) ↦ absurd (ground arith)
          ]

  Offered-create_invoice :
      {S : Type 0}
      → (self : ProofService tokens qr) (gateway : LightningGateway S) (amount : Option ℕ)
      → (description : Option Text) (rng : Samples) (now : ℕ) (response : InvoiceResponse)
      → Offered self gateway amount description rng now response
      → (create_invoice tokens qr self gateway amount description rng now).0 ≡ ok response
  unfolding create_invoice prepare_invoice store_invoice
  Offered-create_invoice self gateway amount description rng now response
        (offered invoice fits e e' drawn e1 e2 e3 e4) =
      rw (lt→ltb _ _ fits, e, e', drawn, ← e1, ← e2, ← e3, ← e4) refl

  -- An invoice is answered exactly when its time to live fits in 32 bits, the gateway gives it and both
  -- of its codes can be drawn; the answer has the gateway's text, the drawn codes, the amount asked for
  -- or else the configured one, and the end of the time to live that the gateway was given.
  pub create_invoice-ok_iff :
      {S : Type 0}
      → (self : ProofService tokens qr) (gateway : LightningGateway S) (amount : Option ℕ)
      → (description : Option Text) (rng : Samples) (now : ℕ) (response : InvoiceResponse)
      → ((create_invoice tokens qr self gateway amount description rng now).0 ≡ ok response)
        ↔ Offered self gateway amount description rng now response
  create_invoice-ok_iff self gateway amount description rng now response = (
    create_invoice-Offered self gateway amount description rng now response,
    Offered-create_invoice self gateway amount description rng now response,
  )
