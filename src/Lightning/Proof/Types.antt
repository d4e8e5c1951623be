-- ===== src/Lightning/Proof/Types.antt =====
-- The types of crates/lightning_node/src/layers/proof.rs, its two configurations and its random ids.
use lightining_pass.Base.{ℕ, Bool, true, false, Option, Text, codes}
use lightining_pass.Random.{Samples, random_text}

pub record AppConfig : Type 0 where
  pub demo_mode : Bool
  pub event_id : Text
  pub invoice_expiry_secs : ℕ
  pub amount_msat : ℕ

pub data InvoiceStatus : Type 0 where
  pending : InvoiceStatus
  settled : InvoiceStatus

pub record AccessSession : Type 0 where
  pub invoice_id : Text
  pub payment_hash : Text
  pub amount_msat : ℕ
  pub expires_at : ℕ
  pub invoice_qr_png : Text
  pub access_qr_ascii : Option Text
  pub status : InvoiceStatus
  pub access_token : Option Text
  pub access_qr_png : Option Text

pub record InvoiceResponse : Type 0 where
  pub invoice_id : Text
  pub amount_msat : ℕ
  pub invoice : Text
  pub invoice_qr_png : Text
  pub invoice_qr_ascii : Text
  pub expires_at : ℕ

pub record StatusResponse : Type 0 where
  pub status : Text
  pub expires_at : ℕ
  pub access_token : Option Text
  pub access_qr_png : Option Text
  pub access_qr_ascii : Option Text

pub data ProofError : Type 0 where
  not_found : ProofError
  internal : ProofError

unfoldable pub show_proof_error : ProofError → Text
show_proof_error not_found = codes "invoice not found"
show_proof_error internal = codes "internal error"

unfoldable pub demo_config : AppConfig
demo_config = record {
  demo_mode = true;
  event_id = codes "demo-event";
  invoice_expiry_secs = 120;
  amount_msat = 250000;
}

unfoldable pub default_config : Text → AppConfig
default_config event_id = record {
  demo_mode = false;
  event_id = event_id;
  invoice_expiry_secs = 900;
  amount_msat = 250000;
}

unfoldable pub random_id : Samples → Text
random_id rng = random_text 12 rng

unfoldable pub status_text : InvoiceStatus → Text
status_text pending = codes "pending"
status_text settled = codes "settled"
