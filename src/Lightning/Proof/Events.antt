-- ===== src/Lightning/Proof/Events.antt =====
-- An event of the Lightning node, from the forwarder to the proof service.
use lightining_pass.Base.{ℕ, List, some, ok, Text, codes, ◌≡◌}
use lightining_pass.Base.Dict
use lightining_pass.Token.Types.{CompactAccessPayload}
use lightining_pass.Token.Env.{TokenEnv}
use lightining_pass.Token.Compact.{verify_compact_token}
use lightining_pass.Qr.{QrLib}
use lightining_pass.Lightning.Qr.{render_ascii_qr, render_png_data_url}
use lightining_pass.Lightning.Gateway.{invoice_paid, InvoicePaidDetails, payload_of, on_event}
use lightining_pass.Lightning.Proof.{
  AccessSession, StatusResponse, pending, ProofService, check_invoice, handle,
}
use lightining_pass.Lightning.Proof.Payments.{handle_payment_settles}

module _ (tokens : TokenEnv) (qr : QrLib) where
  -- Where every payload can be written and every text drawn, an event of the node that a pending
  -- invoice is paid, forwarded to the proof service, settles it: `check_invoice` then shows a token
  -- that verifies to the invoice's payment hash and `expires_at` and the configured event.
  pub on_event_settles :
      (Other : Type 0)
      → (self : ProofService tokens qr) (details : InvoicePaidDetails) (timestamp : ℕ) (id : Text)
      → (session : AccessSession)
      → ((p : CompactAccessPayload) → (b : List ℕ) × (tokens.payload_to_vec p ≡ ok b))
      → ((t : Text) → (png : Text) × (render_png_data_url qr t 320 ≡ ok png))
      → ((t : Text) → (art : Text) × (render_ascii_qr qr t ≡ ok art))
      → Dict.get self.payment_index details.payment_hash ≡ some id
      → Dict.get self.sessions id ≡ some session
      → session.status ≡ pending
      → (response : StatusResponse) × (token : Text) × (check_invoice tokens qr
            (on_event {Other = Other}
              (some (handle tokens qr))
              (invoice_paid details)
              timestamp
              self)
            id
          ≡ ok response)
        × (response.status ≡ codes "settled")
        × (response.expires_at ≡ session.expires_at)
        × (response.access_token ≡ some token)
        × (verify_compact_token tokens token (tokens.verifying_key self.keypair)
            ≡ ok (record {
              payment_hash = details.payment_hash;
              expires_at = session.expires_at;
              event_id = self.config.event_id;
            }))
  unfolding on_event payload_of handle
  on_event_settles Other self details timestamp id session written drawn art indexed stored
        waiting =
      handle_payment_settles tokens qr self (payload_of details timestamp) id session written drawn
        art indexed stored waiting
