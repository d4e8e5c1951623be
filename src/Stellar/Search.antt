-- ===== src/Stellar/Search.antt =====
-- The provider finds the first record of Horizon's answer that confirms a payment request.
use lightining_pass.Base.{
  ◌≡◌, ◌↔◌, inl, inr, arith, none, some, ok, err, Text, All, Result-cases, All_mem,
}
use mathlib.Core.List.{Memᴰ}
use lightining_pass.SharedTypes.{PaymentEvent}
use lightining_pass.Stellar.Types.{PaymentRecord, PaymentsResponse}
use lightining_pass.Stellar.Client.{Horizon, payments_for_account}
use lightining_pass.Stellar.Provider.{StellarProvider, find_confirmed_payment}
use lightining_pass.Stellar.Confirms.{
  Confirms, IsFirst, find_payment-total, find_payment-IsFirst, find_payment-none,
  find_payment-none_of_All,
}

module _ (self : StellarProvider) (horizon : Horizon) (destination memo amount asset : Text) where
  -- An event that is found is that of the first record, in the answer of Horizon, that confirms the
  -- request.
  pub find_confirmed_payment-IsFirst :
      (event : PaymentEvent)
      → find_confirmed_payment self horizon destination memo amount asset ≡ ok (some event)
      → (response : PaymentsResponse) × (payments_for_account self.client horizon destination
          ≡ ok response)
        × IsFirst destination memo amount asset response.embedded.records event
  unfolding find_confirmed_payment
  find_confirmed_payment-IsFirst event h =
      elim (Result-cases (payments_for_account self.client horizon destination)) [
        | inl (response, e) ↦ (
          response,
          e,
          find_payment-IsFirst destination memo amount asset response.embedded.records event
              (ground arith),
        )
        | inr (m, e) ↦ absurd (ground arith)
      ]

  -- Where Horizon answers, nothing is found exactly when no record of the answer confirms the
  -- request.
  pub find_confirmed_payment-none_iff :
      (response : PaymentsResponse)
      → payments_for_account self.client horizon destination ≡ ok response
      → (find_confirmed_payment self horizon destination memo amount asset ≡ ok none)
        ↔ All (λ r. ¬ Confirms destination memo amount asset r) response.embedded.records
  unfolding find_confirmed_payment
  find_confirmed_payment-none_iff response e = (
    λ h. find_payment-none destination memo amount asset response.embedded.records (ground arith),
    λ h. rw e (find_payment-none_of_All destination memo amount asset response.embedded.records h),
  )

  -- The search fails exactly when the request to Horizon fails, and with its error.
  pub find_confirmed_payment-err_iff :
      (message : Text)
      → (find_confirmed_payment self horizon destination memo amount asset ≡ err message)
        ↔ (payments_for_account self.client horizon destination ≡ err message)
  unfolding find_confirmed_payment
  find_confirmed_payment-err_iff message =
      elim (Result-cases (payments_for_account self.client horizon destination)) [
        | inl (response, e) ↦ (
          λ h. absurd (
              ground (
                arith,
                find_payment-total destination memo amount asset response.embedded.records,
              )),
          λ h. absurd (ground arith),
        )
        | inr (m, e) ↦ (λ h. ground arith, λ h. ground arith)
      ]

  -- A record of the answer that confirms the request is enough for an event to be found.
  pub find_confirmed_payment-of_mem :
      (response : PaymentsResponse) (r : PaymentRecord)
      → payments_for_account self.client horizon destination ≡ ok response
      → Memᴰ r response.embedded.records
      → Confirms destination memo amount asset r
      → (event : PaymentEvent) × (find_confirmed_payment self horizon destination memo amount asset
          ≡ ok (some event))
  unfolding find_confirmed_payment
  find_confirmed_payment-of_mem response r e m c =
      elim (find_payment-total destination memo amount asset response.embedded.records) [
        | inl n ↦ absurd (
            All_mem (λ x. ¬ Confirms destination memo amount asset x) response.embedded.records
              (find_payment-none destination memo amount asset response.embedded.records n) r m c)
        | inr (event, h) ↦ (event, rw e h)
      ]
