-- ===== src/Stellar/Provider.antt =====
-- crates/stellar_adapter/src/provider.rs and memo.rs
use lightining_pass.Base.{
  Bool, ◌&&◌, ◌||◌, not, Option, none, some, Result, ok, ◌>>=◌, List, [], ◌∷◌, ◌++◌, Text, codes,
  text_eq, if◌then◌else◌,
}
use lightining_pass.Random.{Samples, random_text}
use lightining_pass.Text.Case.{eq_ignore_ascii_case}
use lightining_pass.SharedTypes.{CreatePaymentRequest, PaymentRequest, PaymentEvent}
use lightining_pass.PaymentCore.{PaymentProvider}
use lightining_pass.Stellar.Types.{PaymentRecord}
use lightining_pass.Stellar.Client.{Horizon, HorizonClient, new_client, payments_for_account}
use lightining_pass.Stellar.Parser.{parse_payment}

pub record StellarConfig : Type 0 where
  pub horizon_url : Text
  pub destination_address : Text

pub record StellarProvider : Type 0 where
  pub config : StellarConfig
  pub client : HorizonClient

-- `StellarProvider::new`.
unfoldable pub new_provider : StellarConfig → StellarProvider
new_provider config = record { config = config; client = new_client config.horizon_url }

unfoldable pub generate_memo : Samples → Text
generate_memo rng = random_text 12 rng

unfoldable pub payment_uri : StellarProvider → (amount memo : Text) → Text
payment_uri self amount memo =
    codes "web+stellar:pay?destination="
    ++ (self.config.destination_address
        ++ (codes "&amount=" ++ (amount ++ (codes "&memo=" ++ memo))))

unfoldable pub create_payment_request :
    StellarProvider → Samples → CreatePaymentRequest → Result PaymentRequest Text
create_payment_request self rng request =
    let memo = generate_memo rng in
    let session_id = memo in
    let qr_payload = payment_uri self request.amount memo in
    ok (record {
      session_id = session_id;
      destination = self.config.destination_address;
      amount = request.amount;
      asset = request.asset;
      memo = memo;
      qr_payload = qr_payload;
      expires_at = 0;
    })

-- The tests of the loop's body, on the record and on the event.
unfoldable pub is_skipped : PaymentRecord → Bool
is_skipped r = not r.transaction_successful || not (text_eq r.record_type (codes "payment"))

unfoldable pub is_match : (destination memo amount asset : Text) → PaymentEvent → Bool
is_match destination memo amount asset event =
    text_eq event.destination_account destination
    && text_eq event.memo memo
    && text_eq event.amount amount
    && eq_ignore_ascii_case event.asset asset

unfoldable pub find_payment :
    (destination memo amount asset : Text) → List PaymentRecord → Result (Option PaymentEvent) Text
find_payment destination memo amount asset [] = ok none
find_payment destination memo amount asset (r ∷ records) =
    let rest = find_payment destination memo amount asset records in
    let body = parse_payment r >>= λ event.
    if is_match destination memo amount asset event then ok (some event) else rest in
    if is_skipped r then rest else body

unfoldable pub find_confirmed_payment :
    StellarProvider
    → Horizon
    → (destination memo amount asset : Text) → Result (Option PaymentEvent) Text
find_confirmed_payment self horizon destination memo amount asset = do
  payments ← payments_for_account self.client horizon destination
  find_payment destination memo amount asset payments.embedded.records

-- `impl PaymentProvider for StellarProvider`.
abbrev pub stellar_provider : StellarProvider → PaymentProvider Horizon
stellar_provider self = record {
  create_payment_request = create_payment_request self;
  find_confirmed_payment = find_confirmed_payment self;
}
