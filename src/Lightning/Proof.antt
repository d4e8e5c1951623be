-- ===== src/Lightning/Proof.antt =====
-- crates/lightning_node/src/layers/proof.rs. The two shared maps are a state that each operation takes
-- and returns; the clock's reading in a call is the argument `now`. Here an operation runs alone:
-- Lightning/Node takes it apart at its locks. The lines of demo mode only print.
pub mod Types
pub mod Invoices
pub mod Payments
pub mod Events
pub mod Tests
use lightining_pass.Base.{
  ℕ, true, false, Option, none, some, Result, ok, err, ◌>>=◌, ◌>>◌, map_err, ok_or, guard, [], ◌∷◌,
  Text, codes, ltb, if◌then◌else◌, add_u64, unwrap_or, ◌^◌,
}
use lightining_pass.Base.Dict
use lightining_pass.Base.Dict.{Dict}
use lightining_pass.Random.{Samples}
use lightining_pass.Token.Types.{CompactAccessPayload}
use lightining_pass.Token.Env.{TokenEnv}
use lightining_pass.Token.Compact.{sign_compact_payload}
use lightining_pass.Qr.{QrLib}
use lightining_pass.Lightning.Qr.{render_ascii_qr, render_png_data_url}
use lightining_pass.Lightning.Gateway.{LightningGateway, PaymentEvent}
unfoldable pub use Types.*

module _ (tokens : TokenEnv) (qr : QrLib) where
  pub record ProofService : Type 0 where
    pub keypair : tokens.SigningKey
    pub config : AppConfig
    pub sessions : Dict AccessSession
    pub payment_index : Dict Text

  unfoldable pub new_proof : tokens.SigningKey → AppConfig → ProofService
  new_proof keypair config = record {
    keypair = keypair;
    config = config;
    sessions = Dict.empty;
    payment_index = Dict.empty;
  }

  -- `create_invoice`, up to the writes to the store. `invoice` is the gateway's answer.
  unfoldable pub prepare_invoice :
      {S : Type 0}
      → ProofService
      → LightningGateway S
      → Option ℕ
      → Option Text
      → Samples
      → (now : ℕ) → Result (AccessSession × InvoiceResponse) ProofError
  prepare_invoice self gateway amount_override_msat description rng now = do
    let expiry = self.config.invoice_expiry_secs
    guard (ltb expiry (2 ^ 32)) internal
    let amount_msat = unwrap_or amount_override_msat self.config.amount_msat
    let memo = unwrap_or description (codes "Lightning Pass access")
    invoice ← map_err (λ e. internal) (gateway.create_invoice amount_msat memo expiry)
    let invoice_id = random_id rng
    let expires_at = add_u64 now expiry
    invoice_qr_png ← map_err (λ e. internal) (render_png_data_url qr invoice.invoice 320)
    invoice_qr_ascii ← map_err (λ e. internal) (render_ascii_qr qr invoice.invoice)
    ok (
      record {
        invoice_id = invoice_id;
        payment_hash = invoice.payment_hash;
        amount_msat = amount_msat;
        expires_at = expires_at;
        invoice_qr_png = invoice_qr_png;
        access_qr_ascii = none;
        status = pending;
        access_token = none;
        access_qr_png = none;
      },
      record {
        invoice_id = invoice_id;
        amount_msat = amount_msat;
        invoice = invoice.invoice;
        invoice_qr_png = invoice_qr_png;
        invoice_qr_ascii = invoice_qr_ascii;
        expires_at = expires_at;
      },
    )

  -- The two writes, each under a lock of its own.
  unfoldable pub write_session : ProofService → AccessSession → ProofService
  write_session self session = record self {
    sessions = Dict.insert self.sessions session.invoice_id session;
  }

  unfoldable pub write_index : ProofService → AccessSession → ProofService
  write_index self session = record self {
    payment_index = Dict.insert self.payment_index session.payment_hash session.invoice_id;
  }

  unfoldable pub store_invoice :
      ProofService
      → Result (AccessSession × InvoiceResponse) ProofError
      → Result InvoiceResponse ProofError × ProofService
  unfolding write_session write_index
  store_invoice self (err e) = (err e, self)
  store_invoice self (ok (session, response)) =
      (ok response, write_index (write_session self session) session)

  unfoldable pub create_invoice :
      {S : Type 0}
      → ProofService
      → LightningGateway S
      → Option ℕ
      → Option Text
      → Samples
      → (now : ℕ) → Result InvoiceResponse ProofError × ProofService
  unfolding store_invoice prepare_invoice
  create_invoice self gateway amount_override_msat description rng now =
      store_invoice self (prepare_invoice self gateway amount_override_msat description rng now)

  unfoldable pub check_invoice : ProofService → Text → Result StatusResponse ProofError
  unfolding status_text
  check_invoice self invoice_id = do
    session ← ok_or not_found (Dict.get self.sessions invoice_id)
    ok (record {
      status = status_text session.status;
      expires_at = session.expires_at;
      access_token = session.access_token;
      access_qr_png = session.access_qr_png;
      access_qr_ascii = session.access_qr_ascii;
    })

  unfoldable pub get_access_token : ProofService → Text → Result StatusResponse ProofError
  get_access_token self invoice_id = check_invoice self invoice_id

  -- The payload that `handle_payment` signs.
  abbrev pub access_payload : ProofService → PaymentEvent → AccessSession → CompactAccessPayload
  access_payload self event session = record {
    payment_hash = event.payment_hash;
    expires_at = session.expires_at;
    event_id = self.config.event_id;
  }

  -- The session with its access token, as `handle_payment` leaves it.
  unfoldable pub settle :
      ProofService → PaymentEvent → AccessSession → Result AccessSession ProofError
  settle self event session = do
    let payload = access_payload self event session
    token ← map_err (λ e. internal) (sign_compact_payload tokens payload self.keypair)
    qr_png ← map_err (λ e. internal) (render_png_data_url qr token 320)
    qr_ascii ← map_err (λ e. internal) (render_ascii_qr qr token)
    ok (record session {
      status = settled;
      access_token = some token;
      access_qr_png = some qr_png;
      access_qr_ascii = some qr_ascii;
    })

  unfoldable pub after_settle :
      ProofService
      → Text
      → Result AccessSession ProofError
      → Result (Unit {0}) ProofError × ProofService
  after_settle self invoice_id (err e) = (err e, self)
  after_settle self invoice_id (ok session) =
      (ok tt, record self { sessions = Dict.insert self.sessions invoice_id session })

  unfoldable pub pay_session :
      ProofService
      → PaymentEvent
      → Text
      → Option AccessSession
      → Result (Unit {0}) ProofError × ProofService
  pay_session self event invoice_id none = (ok tt, self)
  pay_session self event invoice_id (some session) = elim session.status [
    | settled ↦ (ok tt, self)
    | pending ↦ after_settle self invoice_id (settle self event session)
  ]

  unfoldable pub pay_indexed :
      ProofService → PaymentEvent → Option Text → Result (Unit {0}) ProofError × ProofService
  pay_indexed self event none = (ok tt, self)
  pay_indexed self event (some invoice_id) =
      pay_session self event invoice_id (Dict.get self.sessions invoice_id)

  unfoldable pub handle_payment :
      ProofService → PaymentEvent → Result (Unit {0}) ProofError × ProofService
  unfolding pay_indexed pay_session after_settle settle
  handle_payment self event =
      pay_indexed self event (Dict.get self.payment_index event.payment_hash)

  -- `PaymentEventHandler::handle`: the spawned task; its error is printed only.
  unfoldable pub handle : PaymentEvent → ProofService → ProofService
  handle event self = (handle_payment self event).1
