-- ===== src/Lightning/Proof/Payments.antt =====
-- What `handle_payment` does to the store.
use lightining_pass.Base.{
  ℕ, none, some, Result, ok, err, Text, codes, ◌≡◌, ◌⊎◌, inl, inr, refl, List, ◌++◌, ◌∷◌, ap, ◌∙◌,
  arith, Result-cases, Option-cases,
}
use lightining_pass.Base.Dict
use lightining_pass.Base.Dict.{get-insert_self, get-insert_other}
use lightining_pass.Token.Types.{CompactAccessPayload}
use lightining_pass.Token.Env.{TokenEnv}
use lightining_pass.Token.Compact.{verify_compact_token, sign_compact_payload}
use lightining_pass.Token.RoundTrip.{verify-sign_compact_payload}
use lightining_pass.Qr.{QrLib}
use lightining_pass.Lightning.Qr.{render_png_data_url, render_ascii_qr}
use lightining_pass.Lightning.Gateway.{PaymentEvent}
use lightining_pass.Lightning.Proof.{
  AccessSession, StatusResponse, InvoiceStatus, ProofError, internal, pending, settled,
  ProofService, access_payload, check_invoice, settle, after_settle, pay_session, pay_indexed,
  handle_payment, status_text,
}

pub InvoiceStatus-cases : (s : InvoiceStatus) → (s ≡ pending) ⊎ (s ≡ settled)
InvoiceStatus-cases pending = inl refl
InvoiceStatus-cases settled = inr refl

module _ (tokens : TokenEnv) (qr : QrLib) where
  -- A payment hash that there is nothing to do for: it has no invoice, or a settled one.
  pub data Idle (self : ProofService tokens qr) (hash : Text) : Type 0 where
    unknown : Dict.get self.payment_index hash ≡ none → Idle self hash
    gone :
        (id : Text)
        → Dict.get self.payment_index hash ≡ some id
        → Dict.get self.sessions id ≡ none
        → Idle self hash
    paid :
        (id : Text)
        → (session : AccessSession) → Dict.get self.payment_index hash ≡ some id
        → Dict.get self.sessions id ≡ some session
        → session.status ≡ settled
        → Idle self hash

  pub Idle-handle_payment :
      (self : ProofService tokens qr) (event : PaymentEvent)
      → Idle self event.payment_hash
      → handle_payment tokens qr self event ≡ (ok tt, self)
  unfolding handle_payment pay_indexed pay_session
  Idle-handle_payment self event (unknown e) = rw e refl
  Idle-handle_payment self event (gone id e e') = rw (e, e') refl
  Idle-handle_payment self event (paid id session e e' done) = rw (e, e', done) refl

  -- What `handle_payment` leaves: the store as it was, or with one pending invoice settled.
  pub data Handled (self : ProofService tokens qr) (event : PaymentEvent)
      (r : Result (Unit {0}) ProofError) (after : ProofService tokens qr) : Type 0 where
    unchanged : Idle self event.payment_hash → r ≡ ok tt → after ≡ self → Handled self event r after
    failed : r ≡ err internal → after ≡ self → Handled self event r after
    settles :
        (id : Text)
        → (session session' : AccessSession)
        → Dict.get self.payment_index event.payment_hash ≡ some id
        → Dict.get self.sessions id ≡ some session
        → session.status ≡ pending
        → settle tokens qr self event session ≡ ok session'
        → r ≡ ok tt
        → after ≡ record self { sessions = Dict.insert self.sessions id session' }
        → Handled self event r after

  settle-err :
      (self : ProofService tokens qr) (event : PaymentEvent) (session : AccessSession)
      (e : ProofError)
      → settle tokens qr self event session ≡ err e
      → e ≡ internal
  unfolding settle
  settle-err self event session e h = ground arith

  -- Every branch of `handle_payment`.
  pub handle_payment-Handled :
      (self : ProofService tokens qr) (event : PaymentEvent)
      → Handled self event
          (handle_payment tokens qr self event).0
          (handle_payment tokens qr self event).1
  unfolding handle_payment pay_indexed pay_session after_settle
  handle_payment-Handled self event =
      elim (Option-cases (Dict.get self.payment_index event.payment_hash)) [
        | inl e ↦ rw e (unchanged (unknown e) refl refl)
        | inr (id, e) ↦ elim (Option-cases (Dict.get self.sessions id)) [
          | inl e' ↦ rw (e, e') (unchanged (gone id e e') refl refl)
          | inr (session, e') ↦ elim (InvoiceStatus-cases session.status) [
            | inl waiting ↦ elim (Result-cases (settle tokens qr self event session)) [
              | inl (session', done) ↦
                  rw (e, e', waiting, done)
                    (settles id session session' e e' waiting done refl refl)
              | inr (m, fails) ↦
                  rw (e, e', waiting, fails)
                    (failed (ap err (settle-err self event session m fails)) refl)
            ]
            | inr done ↦ rw (e, e', done) (unchanged (paid id session e e' done) refl refl)
          ]
        ]
      ]

  pub settle_lem :
      (self : ProofService tokens qr) (event : PaymentEvent) (session session' : AccessSession)
      → settle tokens qr self event session ≡ ok session'
      → (session'.status ≡ settled)
        × (session'.expires_at ≡ session.expires_at)
        × (session'.payment_hash ≡ session.payment_hash)
        × (token : Text) × (session'.access_token ≡ some token)
        × (sign_compact_payload tokens (access_payload tokens qr self event session) self.keypair
            ≡ ok token)
  unfolding settle
  settle_lem self event session session' h =
      elim (Result-cases
        (sign_compact_payload tokens (access_payload tokens qr self event session) self.keypair)) [
          | inl (token, e) ↦
              (ground arith, ground arith, ground arith, token, ground arith, ground arith)
          | inr (m, e) ↦ absurd (ground arith)
        ]

  -- The answer for an id, from what is stored under it.
  check_invoice_of :
      (self : ProofService tokens qr) (id : Text) (session : AccessSession) (token : Text)
      → Dict.get self.sessions id ≡ some session
      → session.status ≡ settled
      → session.access_token ≡ some token
      → (response : StatusResponse) × (check_invoice tokens qr self id ≡ ok response)
        × (response.status ≡ codes "settled")
        × (response.expires_at ≡ session.expires_at)
        × (response.access_token ≡ some token)
  unfolding check_invoice status_text
  check_invoice_of self id session token h e e' = (
    record {
      status = codes "settled";
      expires_at = session.expires_at;
      access_token = some token;
      access_qr_png = session.access_qr_png;
      access_qr_ascii = session.access_qr_ascii;
    },
    rw (check_invoice, h, e, e') refl,
    refl,
    refl,
    refl,
  )

  handle_payment_of :
      (self : ProofService tokens qr) (event : PaymentEvent) (id : Text)
      (session session' : AccessSession)
      → Dict.get self.payment_index event.payment_hash ≡ some id
      → Dict.get self.sessions id ≡ some session
      → session.status ≡ pending
      → settle tokens qr self event session ≡ ok session'
      → handle_payment tokens qr self event
        ≡ (ok tt, record self { sessions = Dict.insert self.sessions id session' })
  unfolding handle_payment pay_indexed pay_session after_settle
  handle_payment_of self event id session session' e e' waiting done =
      rw (e, e', waiting, done) refl

  pub settle_total :
      (self : ProofService tokens qr) (event : PaymentEvent) (session : AccessSession)
      → ((p : CompactAccessPayload) → (b : List ℕ) × (tokens.payload_to_vec p ≡ ok b))
      → ((t : Text) → (png : Text) × (render_png_data_url qr t 320 ≡ ok png))
      → ((t : Text) → (art : Text) × (render_ascii_qr qr t ≡ ok art))
      → (session' : AccessSession) × (settle tokens qr self event session ≡ ok session')
  unfolding settle sign_compact_payload
  settle_total self event session written drawn art =
      let (b, e) = written (access_payload tokens qr self event session) in
      let token =
        tokens.url_safe.encode b ++ b'.' ∷ tokens.url_safe.encode (tokens.sign self.keypair b) in
      let (png, e') = drawn token in
      let (a, e'') = art token in
      (
        record session {
          status = settled;
          access_token = some token;
          access_qr_png = some png;
          access_qr_ascii = some a;
        },
        rw (e, e', e'') refl,
      )

  -- Where every payload can be written and every text drawn, a payment of a pending invoice settles
  -- it: `check_invoice` then shows a token that verifies, under the key of the service, to the
  -- payment's hash, the invoice's `expires_at` and the event of the configuration.
  pub handle_payment_settles :
      (self : ProofService tokens qr) (event : PaymentEvent) (id : Text) (session : AccessSession)
      → ((p : CompactAccessPayload) → (b : List ℕ) × (tokens.payload_to_vec p ≡ ok b))
      → ((t : Text) → (png : Text) × (render_png_data_url qr t 320 ≡ ok png))
      → ((t : Text) → (art : Text) × (render_ascii_qr qr t ≡ ok art))
      → Dict.get self.payment_index event.payment_hash ≡ some id
      → Dict.get self.sessions id ≡ some session
      → session.status ≡ pending
      → (response : StatusResponse) × (token : Text) × (check_invoice tokens qr
            (handle_payment tokens qr self event).1
            id
          ≡ ok response)
        × (response.status ≡ codes "settled")
        × (response.expires_at ≡ session.expires_at)
        × (response.access_token ≡ some token)
        × (verify_compact_token tokens token (tokens.verifying_key self.keypair)
            ≡ ok (access_payload tokens qr self event session))
  handle_payment_settles self event id session written drawn art indexed stored waiting =
      let (session', done) = settle_total self event session written drawn art in
      let (e1, e2, e3, token, e4, signed) = settle_lem self event session session' done in
      let (response, shown, s1, s2, s3) =
        check_invoice_of (record self { sessions = Dict.insert self.sessions id session' }) id
          session' token (get-insert_self self.sessions id session') e1 e4 in
      (
        response,
        token,
        rw (handle_payment_of self event id session session' indexed stored waiting done) shown,
        s1,
        s2 ∙ e2,
        s3,
        verify-sign_compact_payload tokens (access_payload tokens qr self event session)
            self.keypair token signed,
      )
