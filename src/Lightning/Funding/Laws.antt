-- ===== src/Lightning/Funding/Laws.antt =====
-- When the faucet's answer counts.
use lightining_pass.Base.{
  ok_inj, err_ne_ok, ℕ, ok, ◌≡◌, subst, ◌≤◌, ◌<◌, ◌↔◌, refl, arith, Result-cases, Bool-cases, inl,
  inr, true,
}
use lightining_pass.Lightning.Funding.{
  FundingLayer, FundingResult, Faucet, FaucetResponse, is_success, request_funds,
}

module _ {S : Type 0} (client : Faucet) (self : FundingLayer S) (sats : ℕ) where
  -- What a successful request went through, in order.
  pub data Funded (result : FundingResult) : Type 0 where
    funded :
        (resp : client.Response)
        → (parsed : FaucetResponse) → self.gateway.new_onchain_address ≡ ok result.address
        → client.send self.target.faucet_url
            (record { address = result.address; amount_sats = sats; api_key = self.api_key })
          ≡ ok resp
        → client.json resp ≡ ok parsed
        → 200 ≤ client.status resp
        → client.status resp < 300
        → result.sats_requested ≡ sats
        → result.faucet_txid ≡ parsed.txid
        → result.target ≡ self.target
        → Funded result

  success_iff : (n : ℕ) → (is_success n ≡ true) ↔ ((200 ≤ n) × (n < 300))
  unfolding is_success
  success_iff n = (λ h. (ground arith, ground arith), λ h. ground arith)

  request_funds-Funded :
      (result : FundingResult) → request_funds client self sats ≡ ok result → Funded result
  unfolding request_funds
  request_funds-Funded result h = elim (Result-cases self.gateway.new_onchain_address) [
    | inl (fresh, e) ↦
        elim (Result-cases (
          client.send self.target.faucet_url
            (record { address = fresh; amount_sats = sats; api_key = self.api_key }))) [
              | inl (resp, e') ↦ elim (Result-cases (client.json resp)) [
                | inl (parsed, e'') ↦ elim (Bool-cases (is_success (client.status resp))) [
                  | inl good ↦
                      let same : ◌≡◌ {A = FundingResult}
                          (record {
                            address = fresh;
                            sats_requested = sats;
                            faucet_txid = parsed.txid;
                            target = self.target;
                          })
                          result =
                        ok_inj _ _ (rw (e, e', e'', good) at h) in
                      subst Funded same (
                        funded resp parsed e e' e'' ((success_iff (client.status resp)).0 good).0
                          ((success_iff (client.status resp)).0 good).1 refl refl refl)
                  | inr bad ↦ absurd (err_ne_ok _ result (rw (e, e', e'', bad) at h))
                ]
                | inr (m, e'') ↦ absurd (err_ne_ok _ result (rw (e, e', e'') at h))
              ]
              | inr (m, e') ↦ absurd (err_ne_ok _ result (rw (e, e') at h))
            ]
    | inr (m, e) ↦ absurd (err_ne_ok _ result (rw e at h))
  ]

  Funded-request_funds :
      (result : FundingResult) → Funded result → request_funds client self sats ≡ ok result
  unfolding request_funds
  Funded-request_funds result (funded resp parsed e e' e'' low high s1 s2 s3) =
      rw (e, e', e'', (success_iff (client.status resp)).1 (low, high), s1, s2, s3) refl

  -- A request is answered with a result exactly when the node gave the address, the faucet was reached
  -- with it, the amount and the key, its answer was JSON and its status was in the 200s; the result
  -- then has that address, that amount, the answer's transaction and the layer's target.
  pub request_funds-ok_iff :
      (result : FundingResult) → (request_funds client self sats ≡ ok result) ↔ Funded result
  request_funds-ok_iff result = (request_funds-Funded result, Funded-request_funds result)
