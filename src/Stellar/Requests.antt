-- ===== src/Stellar/Requests.antt =====
-- The payment requests of crates/stellar_adapter/src/provider.rs.
use lightining_pass.Base.{ℕ, ◌≡◌, refl, subst, ok, ok_inj, All, length, ◌++◌, codes}
use lightining_pass.Random.{Samples, IsAlphanumeric, length-random_text, All-random_text}
use lightining_pass.SharedTypes.{CreatePaymentRequest, PaymentRequest}
use lightining_pass.Stellar.Provider.{
  StellarProvider, generate_memo, payment_uri, create_payment_request,
}

-- A request that a wallet can pay and the watcher can recognise.
pub record IsPayable (self : StellarProvider) (asked : CreatePaymentRequest) (r : PaymentRequest)
    : Type 0 where
  pub same_id : r.session_id ≡ r.memo
  pub memo_size : length r.memo ≡ 12
  pub memo_plain : All IsAlphanumeric r.memo
  pub destination : r.destination ≡ self.config.destination_address
  pub amount : r.amount ≡ asked.amount
  pub asset : r.asset ≡ asked.asset
  pub unset_expiry : r.expires_at ≡ 0
  pub uri :
      r.qr_payload
      ≡ codes "web+stellar:pay?destination="
        ++ (self.config.destination_address
            ++ (codes "&amount=" ++ (asked.amount ++ (codes "&memo=" ++ r.memo))))

-- Where the generator draws ASCII letters and digits, a request has a memo of twelve of them, which is
-- also its session's id; it asks for the given amount and asset at the configured account, and its
-- payload is "web+stellar:pay?destination=" with the account, "&amount=" with the amount and "&memo="
-- with the memo. The provider leaves the time of expiry at 0.
pub create_payment_request-IsPayable :
    (self : StellarProvider) (rng : Samples) (asked : CreatePaymentRequest) (r : PaymentRequest)
    → ((i : ℕ) → IsAlphanumeric (rng i))
    → create_payment_request self rng asked ≡ ok r
    → IsPayable self asked r
unfolding create_payment_request generate_memo payment_uri
create_payment_request-IsPayable self rng asked r plain made =
    subst (IsPayable self asked) (ok_inj _ r made) (record {
      same_id = refl;
      memo_size = length-random_text 12 rng;
      memo_plain = All-random_text IsAlphanumeric 12 rng plain;
      destination = refl;
      amount = refl;
      asset = refl;
      unset_expiry = refl;
      uri = refl;
    })
