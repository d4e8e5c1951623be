-- ===== src/PaymentCore.antt =====
-- crates/payment_core/src/lib.rs: the trait behind which a payment network stands. `Net` is what
-- the network answers during one call; the samples of a call are its random numbers.
use lightining_pass.Base.{Option, Result, Text}
use lightining_pass.Random.{Samples}
use lightining_pass.SharedTypes.{CreatePaymentRequest, PaymentRequest, PaymentEvent}

pub record PaymentProvider (Net : Type 0) : Type 0 where
  pub create_payment_request : Samples → CreatePaymentRequest → Result PaymentRequest Text
  pub find_confirmed_payment :
      Net → (destination memo amount asset : Text) → Result (Option PaymentEvent) Text
