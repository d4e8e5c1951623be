-- ===== src/Lightning/Node/Alone.antt =====
-- A handler whose locks nobody takes in between: its tasks, one after the other, do what
-- crates/lightning_node/src/layers/proof.rs says in one piece.
use lightining_pass.Base.{
  ℕ, zero, suc, ◌≡◌, ◌≢◌, ◌⊎◌, refl, ap, Option, none, some, ok, err, List, [], ◌∷◌, ◌++◌, Text,
  text_eq, if◌then◌else◌,
}
use lightining_pass.Base.Dict
use lightining_pass.Base.Dict.{get-insert}
use mathlib.Core.Option
use lightining_pass.Token.Types.{CompactAccessPayload}
use lightining_pass.Lightning.Qr.{render_ascii_qr, render_png_data_url}
use lightining_pass.Random.{Samples}
use lightining_pass.Token.Env.{TokenEnv}
use lightining_pass.Token.Compact.{sign_compact_payload}
use lightining_pass.Qr.{QrLib}
use lightining_pass.Lightning.Gateway.{LightningGateway, PaymentEvent}
use lightining_pass.Lightning.Proof.{
  AccessSession, InvoiceResponse, ProofService, pending, settled, prepare_invoice, write_session,
  write_index, store_invoice, create_invoice,
}
use lightining_pass.Lightning.Node.{Task, storing, run_task}

module _ (tokens : TokenEnv) (qr : QrLib) where
  -- The tasks and what they leave to do, at most `fuel` of them: the service, and the tasks that
  -- are left.
  unfoldable pub run_alone :
      ℕ → List Task → ProofService tokens qr → ProofService tokens qr × List Task
  run_alone zero tasks self = (self, tasks)
  run_alone (suc fuel) [] self = (self, [])
  run_alone (suc fuel) (task ∷ rest) self =
      run_alone fuel ((run_task tokens qr task self).1 ++ rest) (run_task tokens qr task self).0

  -- The request for an invoice, where nothing runs between its two writes, ends and leaves the
  -- service that `create_invoice` returns: with the new session under its id, the id under its
  -- payment hash, and every other entry, the key and the configuration as they were.
  pub create_invoice-run_alone :
      {S : Type 0}
      → (self : ProofService tokens qr) (gateway : LightningGateway S)
      → (amount : Option ℕ) (description : Option Text) (rng : Samples) (now : ℕ)
      → (session : AccessSession) (response : InvoiceResponse) (k : Text)
      → prepare_invoice tokens qr self gateway amount description rng now ≡ ok (session, response)
      → let (after, left) = run_alone 2 (storing session ∷ []) self in
        (left ≡ [])
        × (create_invoice tokens qr self gateway amount description rng now ≡ (ok response, after))
        × (Dict.get after.sessions k
            ≡ (if text_eq session.invoice_id k then some session else Dict.get self.sessions k))
        × (Dict.get after.payment_index k ≡ (
            if text_eq session.payment_hash k
            then some session.invoice_id
            else Dict.get self.payment_index k))
        × (after.keypair ≡ self.keypair)
        × (after.config ≡ self.config)
  unfolding run_alone run_task create_invoice store_invoice write_session write_index
  create_invoice-run_alone self gateway amount description rng now session response k made = (
    refl,
    ap (store_invoice tokens qr self) made,
    get-insert self.sessions session.invoice_id k session,
    get-insert self.payment_index session.payment_hash k session.invoice_id,
    refl,
    refl,
  )

  -- What the token of a payment of the session is signed for.
  abbrev pass_of : ProofService tokens qr → PaymentEvent → AccessSession → CompactAccessPayload
  pass_of self event session = record {
    payment_hash = event.payment_hash;
    expires_at = session.expires_at;
    event_id = self.config.event_id;
  }

  -- The token cannot be made, or one of its two pictures cannot be drawn.
  abbrev IsFailed : ProofService tokens qr → PaymentEvent → AccessSession → Type 0
  IsFailed self event session =
      ((m : Text) × (sign_compact_payload tokens (pass_of self event session) self.keypair ≡ err m))
      ⊎ ((token : Text) × (m : Text) × (sign_compact_payload tokens (pass_of self event session)
              self.keypair
            ≡ ok token)
          × ((render_png_data_url qr token 320 ≡ err m) ⊎ (render_ascii_qr qr token ≡ err m)))

  -- What a payment changes under an id. Where the index leads there from the payment's hash and the
  -- session is pending, the session is settled, with a token that is signed for that hash and the
  -- session's expiry, or the token or a picture cannot be made; in every other case nothing changes.
  pub data Handled (event : PaymentEvent) (self after : ProofService tokens qr) (id : Text)
      : Type 0 where
    other :
        Dict.get self.payment_index event.payment_hash ≢ some id
        → Dict.get after.sessions id ≡ Dict.get self.sessions id
        → Handled event self after id
    missing :
        Dict.get self.sessions id ≡ none
        → Dict.get after.sessions id ≡ none
        → Handled event self after id
    already :
        (session : AccessSession)
        → Dict.get self.sessions id ≡ some session
        → session.status ≡ settled
        → Dict.get after.sessions id ≡ some session
        → Handled event self after id
    failed :
        (session : AccessSession)
        → Dict.get self.sessions id ≡ some session
        → session.status ≡ pending
        → IsFailed self event session
        → Dict.get after.sessions id ≡ some session
        → Handled event self after id
    paid :
        (session session' : AccessSession)
        → (token : Text) → Dict.get self.payment_index event.payment_hash ≡ some id
        → Dict.get self.sessions id ≡ some session
        → session.status ≡ pending
        → Dict.get after.sessions id ≡ some session'
        → session'.status ≡ settled
        → session'.payment_hash ≡ session.payment_hash
        → session'.expires_at ≡ session.expires_at
        → session'.access_token ≡ some token
        → sign_compact_payload tokens (pass_of self event session) self.keypair ≡ ok token
        → Handled event self after id
