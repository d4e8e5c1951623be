-- ===== src/SharedTypes.antt =====
-- crates/shared_types/src/lib.rs. `Value` is serde_json's.
use lightining_pass.Base.{ℕ, Bool, Option, Text}

pub record CreatePaymentRequest : Type 0 where
  pub amount : Text
  pub asset : Text
  pub event_id : Text

pub record PaymentRequest : Type 0 where
  pub session_id : Text
  pub destination : Text
  pub amount : Text
  pub asset : Text
  pub memo : Text
  pub qr_payload : Text
  pub expires_at : ℕ

pub record PaymentEvent : Type 0 where
  pub tx_hash : Text
  pub source_account : Text
  pub destination_account : Text
  pub amount : Text
  pub asset : Text
  pub memo : Text
  pub ledger_sequence : ℕ
  pub confirmed_at : ℕ

pub record PaymentStatusResponse (Value : Type 0) : Type 0 where
  pub session_id : Text
  pub status : Text
  pub paid : Bool
  pub request_expires_at : ℕ
  pub expires_at : ℕ
  pub payment_request : PaymentRequest
  pub tx_hash : Option Text
  pub access_token : Option Value
  pub access_qr_png : Option Text
  pub access_qr_ascii : Option Text
