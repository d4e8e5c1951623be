-- ===== src/Stellar/Confirms.antt =====
-- Which Horizon record confirms a payment request, and which one the loop of
-- crates/stellar_adapter/src/provider.rs picks from a list.
use lightining_pass.Base.{
  ◌≡◌, ◌≢◌, refl, ap, ◌↔◌, ◌⊎◌, inl, inr, arith, Bool, true, false, none, some, ok, List, [], ◌∷◌,
  ◌++◌, Text, codes, All, text_eq, text_eq_iff, unwrap_or, is_empty, not, ◌&&◌, if◌then◌else◌,
  Bool-cases,
}
use lightining_pass.Text.Case.{to_lowercase, eq_ignore_ascii_case, eq_ignore_ascii_case_iff}
use lightining_pass.SharedTypes.{PaymentEvent}
use lightining_pass.Stellar.Types.{PaymentRecord}
use lightining_pass.Stellar.Parser.{asset_of, parse_payment}
use lightining_pass.Stellar.Provider.{is_skipped, is_match, find_payment}

-- `asset` names the record's asset, up to the case of ASCII letters: XLM for the native one, and the
-- code of any other, or its type where it has no code.
abbrev pub IsAsset : PaymentRecord → Text → Type 0
IsAsset r asset =
    ((r.asset_type ≡ codes "native") × (to_lowercase (codes "XLM") ≡ to_lowercase asset))
    ⊎ ((r.asset_type ≢ codes "native")
        × (to_lowercase (unwrap_or r.asset_code r.asset_type) ≡ to_lowercase asset))

-- A successful payment of the amount in the asset to the destination under the memo.
pub record Confirms (destination memo amount asset : Text) (r : PaymentRecord) : Type 0 where
  pub successful : r.transaction_successful ≡ true
  pub payment : r.record_type ≡ codes "payment"
  pub to : r.to ≡ destination
  pub under : unwrap_or r.memo [] ≡ memo
  pub paid : r.amount ≡ amount
  pub denominated : IsAsset r asset

-- The event of a record.
abbrev pub event_of : PaymentRecord → PaymentEvent
event_of r = record {
  tx_hash = if is_empty r.transaction_hash then r.id else r.transaction_hash;
  source_account = r.from;
  destination_account = r.to;
  amount = r.amount;
  asset = asset_of r;
  memo = unwrap_or r.memo [];
  ledger_sequence = unwrap_or r.ledger 0;
  confirmed_at = 0;
}

accepted-IsAsset_iff :
    (r : PaymentRecord) (asset : Text)
    → (eq_ignore_ascii_case (asset_of r) asset ≡ true) ↔ IsAsset r asset
unfolding asset_of
accepted-IsAsset_iff r asset = elim (Bool-cases (text_eq r.asset_type (codes "native"))) [
  | inl e ↦ ground (
    arith,
    text_eq_iff r.asset_type (codes "native"),
    eq_ignore_ascii_case_iff (codes "XLM") asset,
  )
  | inr e ↦ ground (
    arith,
    text_eq_iff r.asset_type (codes "native"),
    eq_ignore_ascii_case_iff (unwrap_or r.asset_code r.asset_type) asset,
  )
]

module _ (destination memo amount asset : Text) where
  abbrev accepts : PaymentRecord → Bool
  accepts r = not (is_skipped r) && is_match destination memo amount asset (event_of r)

  pub accepts→Confirms :
      (r : PaymentRecord) → accepts r ≡ true → Confirms destination memo amount asset r
  unfolding is_skipped is_match
  accepts→Confirms r h = record {
    successful = ground arith;
    payment = ground (arith, text_eq_iff r.record_type (codes "payment"));
    to = ground (arith, text_eq_iff r.to destination);
    under = ground (arith, text_eq_iff (unwrap_or r.memo []) memo);
    paid = ground (arith, text_eq_iff r.amount amount);
    denominated = (accepted-IsAsset_iff r asset).0 (ground arith);
  }

  pub Confirms→accepts :
      (r : PaymentRecord) → Confirms destination memo amount asset r → accepts r ≡ true
  unfolding is_skipped is_match
  Confirms→accepts r c = ground (
    arith,
    c.successful,
    text_eq_iff r.record_type (codes "payment"),
    text_eq_iff r.to destination,
    text_eq_iff (unwrap_or r.memo []) memo,
    text_eq_iff r.amount amount,
    (accepted-IsAsset_iff r asset).1 c.denominated,
  )

  pub find_payment_cons :
      (r : PaymentRecord) (rs : List PaymentRecord)
      → find_payment destination memo amount asset (r ∷ rs) ≡ (
          if accepts r
          then ok (some (event_of r))
          else find_payment destination memo amount asset rs)
  unfolding find_payment parse_payment
  find_payment_cons r rs = ground arith

  -- The first confirming record, with those before it.
  pub record IsFirst (records : List PaymentRecord) (event : PaymentEvent) : Type 0 where
    pub before : List PaymentRecord
    pub found : PaymentRecord
    pub after : List PaymentRecord
    pub listed : records ≡ before ++ found ∷ after
    pub passed_over : All (λ r. ¬ Confirms destination memo amount asset r) before
    pub confirms : Confirms destination memo amount asset found
    pub event_is : event ≡ event_of found

  accepts-eq-false :
      (r : PaymentRecord) → accepts r ≡ false → ¬ Confirms destination memo amount asset r
  accepts-eq-false r e c = cc (Confirms→accepts r c)

  pub find_payment-total :
      (records : List PaymentRecord)
      → (find_payment destination memo amount asset records ≡ ok none)
        ⊎ ((event : PaymentEvent) × (find_payment destination memo amount asset records
              ≡ ok (some event)))
  find_payment-total [] = unfold find_payment in inl refl
  find_payment-total (r ∷ rs) = elim (Bool-cases (accepts r)) [
    | inl e ↦ inr (event_of r, rw (find_payment_cons, e))
    | inr e ↦ rw (find_payment_cons, e) (find_payment-total rs)
  ]

  pub find_payment-IsFirst :
      (records : List PaymentRecord) (event : PaymentEvent)
      → find_payment destination memo amount asset records ≡ ok (some event)
      → IsFirst records event
  find_payment-IsFirst [] event h = absurd (unfold find_payment in cc)
  find_payment-IsFirst (r ∷ rs) event h = elim (Bool-cases (accepts r)) [
    | inl e ↦ record {
      before = [];
      found = r;
      after = rs;
      listed = refl;
      passed_over = tt;
      confirms = accepts→Confirms r e;
      event_is = ground (arith, find_payment_cons r rs);
    }
    | inr e ↦
        let f = find_payment-IsFirst rs event (ground (arith, find_payment_cons r rs)) in
        record {
          before = r ∷ f.before;
          found = f.found;
          after = f.after;
          listed = ap (λ l. r ∷ l) f.listed;
          passed_over = (accepts-eq-false r e, f.passed_over);
          confirms = f.confirms;
          event_is = f.event_is;
        }
  ]

  pub find_payment-none :
      (records : List PaymentRecord)
      → find_payment destination memo amount asset records ≡ ok none
      → All (λ r. ¬ Confirms destination memo amount asset r) records
  find_payment-none [] h = tt
  find_payment-none (r ∷ rs) h = elim (Bool-cases (accepts r)) [
    | inl e ↦ absurd (ground (arith, find_payment_cons r rs))
    | inr e ↦ (accepts-eq-false r e, find_payment-none rs (ground (arith, find_payment_cons r rs)))
  ]

  pub find_payment-none_of_All :
      (records : List PaymentRecord)
      → All (λ r. ¬ Confirms destination memo amount asset r) records
      → find_payment destination memo amount asset records ≡ ok none
  find_payment-none_of_All [] h = unfold find_payment in refl
  find_payment-none_of_All (r ∷ rs) (n, h) = elim (Bool-cases (accepts r)) [
    | inl e ↦ absurd (n (accepts→Confirms r e))
    | inr e ↦ rw (find_payment_cons, e) (find_payment-none_of_All rs h)
  ]
