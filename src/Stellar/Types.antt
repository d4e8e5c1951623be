-- ===== src/Stellar/Types.antt =====
-- crates/stellar_adapter/src/types.rs
use lightining_pass.Base.{ℕ, Bool, Option, List, Text}

pub record PaymentRecord : Type 0 where
  pub id : Text
  pub transaction_hash : Text
  pub from : Text
  pub to : Text
  pub amount : Text
  pub asset_type : Text
  pub asset_code : Option Text
  pub transaction_successful : Bool
  pub created_at : Text
  pub memo : Option Text
  pub ledger : Option ℕ
  pub record_type : Text

pub record EmbeddedPayments : Type 0 where
  pub records : List PaymentRecord

pub record PaymentsResponse : Type 0 where
  pub embedded : EmbeddedPayments
