-- ===== src/Lightning/Gateway.antt =====
-- crates/lightning_node/src/layers/lightning.rs: the gateway to a Lightning node, and the forwarder of
-- its events. The crate breez_sdk_core is not in the repository: `Breez` holds what is called of it.
-- `Text` stands for the message of an `anyhow::Error`.
use lightining_pass.Base.{ℕ, Bool, true, Option, none, some, Result, ok, ◌>>=◌, Text, unwrap_or}
use mathlib.Core.Option

pub record LightningInvoice : Type 0 where
  pub invoice : Text
  pub payment_hash : Text

-- The trait, over what a payment's status is to the node.
pub record LightningGateway (PaymentStatus : Type 0) : Type 0 where
  pub create_invoice :
      (amount_msat : ℕ) (memo : Text) (expiry_secs : ℕ) → Result LightningInvoice Text
  pub new_onchain_address : Result Text Text
  pub pay_invoice : (bolt11 : Text) (amount_msat : Option ℕ) → Result PaymentStatus Text

pub record LnInvoice : Type 0 where
  pub bolt11 : Text
  pub payment_hash : Text

pub record Payment : Type 0 where
  pub amount_msat : ℕ

pub record InvoicePaidDetails : Type 0 where
  pub payment_hash : Text
  pub payment : Option Payment

-- The services of the SDK, with the fields of each request that the code sets.
pub record Breez : Type 1 where
  pub PaymentStatus : Type 0
  pub OtherEvent : Type 0
  pub receive_payment :
      (amount_msat : ℕ) (description : Text) (expiry : Option ℕ) → Result LnInvoice Text
  pub receive_onchain : Result Text Text
  pub send_payment :
      (bolt11 : Text) (use_trampoline : Bool) (amount_msat : Option ℕ) → Result PaymentStatus Text

pub data BreezEvent (Other : Type 0) : Type 0 where
  invoice_paid : InvoicePaidDetails → BreezEvent Other
  other : Other → BreezEvent Other

unfoldable pub breez_create_invoice : Breez → ℕ → Text → ℕ → Result LightningInvoice Text
breez_create_invoice services amount_msat memo expiry_secs = do
  invoice ← services.receive_payment amount_msat memo (some expiry_secs)
  ok (record { invoice = invoice.bolt11; payment_hash = invoice.payment_hash })

-- `BreezGateway`, with the trait's three operations.
unfoldable pub breez_gateway : (services : Breez) → LightningGateway services.PaymentStatus
unfolding breez_create_invoice
breez_gateway services = record {
  create_invoice = breez_create_invoice services;
  new_onchain_address = services.receive_onchain;
  pay_invoice = λ bolt11 amount_msat. services.send_payment bolt11 true amount_msat;
}

pub record PaymentEvent : Type 0 where
  pub payment_hash : Text
  pub amount_msat : ℕ
  pub timestamp : ℕ

-- What `on_event` makes of a paid invoice; the default of an amount is 0.
unfoldable pub payload_of : InvoicePaidDetails → ℕ → PaymentEvent
payload_of details timestamp = record {
  payment_hash = details.payment_hash;
  amount_msat = unwrap_or (Option.map (λ p. p.amount_msat) details.payment) 0;
  timestamp = timestamp;
}

-- `BreezEventForwarder::on_event`. A handler acts on a state `S`; its error is printed only.
unfoldable pub on_event {ℓ} :
    {S : Type ℓ}
    → {Other : Type 0} → Option (PaymentEvent → S → S)
    → BreezEvent Other
    → (timestamp : ℕ) → S
    → S
unfolding payload_of
on_event (some handler) (invoice_paid details) timestamp state =
    handler (payload_of details timestamp) state
on_event none (invoice_paid details) timestamp state = state
on_event handler (other event) timestamp state = state
