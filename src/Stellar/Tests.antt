-- ===== src/Stellar/Tests.antt =====
-- The search for a payment in one answer of Horizon.
use lightining_pass.Random.{Samples}
use lightining_pass.SharedTypes.{CreatePaymentRequest, PaymentRequest}
use lightining_pass.Stellar.Provider.{create_payment_request, generate_memo, payment_uri}
use lightining_pass.Stellar.Requests.{IsPayable, create_payment_request-IsPayable}
use lightining_pass.Base.{
  inr, arith, ◌≡◌, ◌↔◌, refl, inl, true, none, some, ok, [], ◌∷◌, Text, codes, All, text_eq,
}
use lightining_pass.Stellar.Parser.{parse_payment, asset_of}
use lightining_pass.Text.Case.{to_lowercase, to_ascii_lowercase, eq_ignore_ascii_case}
use lightining_pass.SharedTypes.{PaymentEvent}
use lightining_pass.Stellar.Types.{PaymentRecord, PaymentsResponse}
use lightining_pass.Stellar.Client.{Horizon, payments_for_account}
use lightining_pass.Stellar.Provider.{
  StellarProvider, find_payment, find_confirmed_payment, is_skipped, is_match,
}
use lightining_pass.Stellar.Confirms.{Confirms, IsFirst, event_of}
use lightining_pass.Stellar.Search.{find_confirmed_payment-IsFirst, find_confirmed_payment-none_iff}

abbrev pub test_provider : StellarProvider
test_provider = record {
  config = record { horizon_url = codes "h"; destination_address = codes "GD" };
  client = record { base_url = codes "h" };
}

abbrev pub test_record : Text → PaymentRecord
test_record memo = record {
  id = codes "1";
  transaction_hash = codes "tx";
  from = codes "GA";
  to = codes "GD";
  amount = codes "10";
  asset_type = codes "native";
  asset_code = none;
  transaction_successful = true;
  created_at = [];
  memo = some memo;
  ledger = some 7;
  record_type = codes "payment";
}

-- Horizon answers one payment, under the memo `memo`.
abbrev pub test_response : Text → PaymentsResponse
test_response memo = record { embedded = record { records = test_record memo ∷ [] } }

abbrev pub test_horizon : Text → Horizon
test_horizon memo url = ok (test_response memo)

pub test-Confirms :
    (memo : Text) → Confirms (codes "GD") memo (codes "10") (codes "xlm") (test_record memo)
unfolding to_lowercase to_ascii_lowercase
test-Confirms memo = record {
  successful = refl;
  payment = refl;
  to = refl;
  under = refl;
  paid = refl;
  denominated = inl (refl, refl);
}

pub test-Confirms_native :
    (memo : Text) → Confirms (codes "GD") memo (codes "10") (codes "XLM") (test_record memo)
test-Confirms_native memo = record {
  successful = refl;
  payment = refl;
  to = refl;
  under = refl;
  paid = refl;
  denominated = inl (refl, refl);
}

pub test_asked :
    (memo : Text)
    → payments_for_account test_provider.client (test_horizon memo) (codes "GD")
      ≡ ok (test_response memo)
unfolding payments_for_account
test_asked memo = refl

abbrev found_event : PaymentEvent
found_event = event_of (test_record (codes "m"))

found_first :
    find_confirmed_payment test_provider
      (test_horizon (codes "m"))
      (codes "GD")
      (codes "m")
      (codes "10")
      (codes "XLM")
    ≡ ok (some found_event)
unfolding find_confirmed_payment payments_for_account find_payment is_skipped is_match parse_payment
    asset_of eq_ignore_ascii_case to_lowercase to_ascii_lowercase text_eq
found_first = refl

find_confirmed_payment-IsFirst_example :
    (response : PaymentsResponse) × (payments_for_account test_provider.client
        (test_horizon (codes "m"))
        (codes "GD")
      ≡ ok response)
    × IsFirst
        (codes "GD")
        (codes "m")
        (codes "10")
        (codes "XLM")
        response.embedded.records
        found_event
find_confirmed_payment-IsFirst_example =
    find_confirmed_payment-IsFirst test_provider (test_horizon (codes "m")) (codes "GD") (codes "m")
      (codes "10") (codes "XLM") found_event found_first

find_confirmed_payment-none_iff_example :
    (find_confirmed_payment test_provider
        (test_horizon (codes "other"))
        (codes "GD")
        (codes "m")
        (codes "10")
        (codes "XLM")
      ≡ ok none)
    ↔ All
        (λ r. ¬ Confirms (codes "GD") (codes "m") (codes "10") (codes "XLM") r)
        (test_record (codes "other") ∷ [])
find_confirmed_payment-none_iff_example =
    find_confirmed_payment-none_iff test_provider (test_horizon (codes "other")) (codes "GD")
      (codes "m") (codes "10") (codes "XLM") (test_response (codes "other"))
      (test_asked (codes "other"))

abbrev asked : CreatePaymentRequest
asked = record { amount = codes "10"; asset = codes "XLM"; event_id = codes "e" }

abbrev letters : Samples
letters i = b'a'

abbrev asked_request : PaymentRequest
asked_request = record {
  session_id = generate_memo letters;
  destination = codes "GD";
  amount = codes "10";
  asset = codes "XLM";
  memo = generate_memo letters;
  qr_payload = payment_uri test_provider (codes "10") (generate_memo letters);
  expires_at = 0;
}

create_payment_request-IsPayable_example : IsPayable test_provider asked asked_request
unfolding create_payment_request
create_payment_request-IsPayable_example =
    create_payment_request-IsPayable test_provider letters asked asked_request
      (λ i. inr (inr (omega arith, omega arith))) refl
