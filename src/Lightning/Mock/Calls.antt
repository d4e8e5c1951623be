-- ===== src/Lightning/Mock/Calls.antt =====
-- What the mock answers for a settled invoice, whatever is asked of it in between.
use lightining_pass.Base.{
  ok_inj, ℕ, ◌≤◌, true, false, none, some, ok, Option, Text, codes, ◌≡◌, ◌≢◌, inl, inr, arith,
  Bool-cases, Option-cases, ap, sym, subst, ◌∙◌, text_eq, text_eq_iff,
}
use mathlib.Core.Option
use lightining_pass.Base.Dict
use lightining_pass.Base.Dict.{get-insert_self, get-insert_other}
use lightining_pass.Random.{Samples}
use lightining_pass.Lightning.Mock.{
  Session, MockStatus, Store, mock_create_invoice, mock_check_invoice, mock_get_access_token,
  answer_mock, touched, mock_status, is_settled, mock_random_id, made, MockCall, post_invoice,
  get_invoice, get_invoice_access, get_health, mock_serve,
}
use lightining_pass.Lightning.Mock.Laws.{
  mock_check_invoice-unknown, mock_check_invoice_of, mock_check_invoice-store, touched_held,
  touched_token, is_settled-touched, touched_settled, settled_status, mock_get_access_token_lem,
}

-- The id of a new invoice is not in use.
unfoldable pub IsNew : Store → MockCall → Type 0
IsNew store (post_invoice rng rng') = Dict.get store (mock_random_id 12 rng) ≡ none
IsNew store (get_invoice id rng) = Unit
IsNew store (get_invoice_access id rng) = Unit
IsNew store get_health = Unit

-- Requests one after the other, at any times.
pub data Calls (store : Store) : Store → Type 0 where
  done : Calls store store
  more :
      {before : Store}
      → Calls store before
      → (call : MockCall) (now : ℕ) → IsNew before call
      → Calls store (mock_serve before call now).1

none-ne-some : (s : Session) → ◌≢◌ {A = Option Session} none (some s)
none-ne-some s h = ground arith

insert_same :
    (store : Store) (id k : Text) (s new : Session)
    → Dict.get store id ≡ some s
    → (k ≡ id → new ≡ s)
    → Dict.get (Dict.insert store k new) id ≡ some s
insert_same store id k s new h same = elim (Bool-cases (text_eq k id)) [
  | inl e ↦
      let q : k ≡ id = (text_eq_iff k id).0 e in
      subst (λ j. Dict.get (Dict.insert store k new) j ≡ some new) q (get-insert_self store k new)
      ∙ ap some (same q)
  | inr e ↦ get-insert_other store k id new (differ e) ∙ h
]
  where
    differ : text_eq k id ≡ false → id ≢ k
    differ e q = ground (arith, text_eq_iff k id)

-- An answer leaves a session that has its token as it is.
answer_mock-kept :
    (store : Store) (id k : Text) (s : Session) (token : Text) (rng : Samples) (now : ℕ)
    → Dict.get store id ≡ some s
    → s.access_token ≡ some token
    → Dict.get (answer_mock store k (Dict.get store k) rng now).1 id ≡ some s
unfolding answer_mock
answer_mock-kept store id k s token rng now h held = elim (Option-cases (Dict.get store k)) [
  | inl e ↦ rw e h
  | inr (r, e) ↦ rw e (insert_same store id k s (touched r rng now) h (same r e))
]
  where
    same : (r : Session) → Dict.get store k ≡ some r → k ≡ id → touched r rng now ≡ s
    same r e q =
        let is_s : r ≡ s = Option.some-injective r s (sym e ∙ ap (Dict.get store) q ∙ h) in
        ap (λ x. touched x rng now) is_s ∙ touched_held s rng now token held

mock_serve-kept :
    (store : Store) (call : MockCall) (now : ℕ) (id : Text) (s : Session) (token : Text)
    → IsNew store call
    → Dict.get store id ≡ some s
    → s.access_token ≡ some token
    → Dict.get (mock_serve store call now).1 id ≡ some s
unfolding mock_serve mock_create_invoice mock_check_invoice mock_get_access_token IsNew
mock_serve-kept store (post_invoice rng rng') now id s token fresh h held =
    get-insert_other store (mock_random_id 12 rng) id (made rng rng' now)
      (λ e. none-ne-some s (sym fresh ∙ ap (Dict.get store) (sym e) ∙ h))
    ∙ h
mock_serve-kept store (get_invoice k rng) now id s token fresh h held =
    answer_mock-kept store id k s token rng now h held
mock_serve-kept store (get_invoice_access k rng) now id s token fresh h held =
    answer_mock-kept store id k s token rng now h held
mock_serve-kept store get_health now id s token fresh h held = h

Calls-kept :
    (store last : Store) (id : Text) (s : Session) (token : Text)
    → Calls store last
    → Dict.get store id ≡ some s
    → s.access_token ≡ some token
    → Dict.get last id ≡ some s
Calls-kept store _ id s token done h held = h
Calls-kept store _ id s token (more {before} calls call now fresh) h held =
    mock_serve-kept before call now id s token fresh
      (Calls-kept store before id s token calls h held) held

check_invoice-Calls :
    (store : Store) (id : Text) (rng rng' : Samples) (now later : ℕ) (response : MockStatus)
    (last : Store)
    → (mock_check_invoice store id rng now).0 ≡ ok response
    → response.status ≡ codes "settled"
    → Calls (mock_check_invoice store id rng now).1 last
    → now ≤ later
    → (mock_check_invoice last id rng' later).0 ≡ ok response
check_invoice-Calls store id rng rng' now later response last h settled calls le =
    elim (Option-cases (Dict.get store id)) [
      | inl e ↦ absurd (ground (arith, mock_check_invoice-unknown store id rng now e))
      | inr (s, e) ↦
          let shown : response ≡ mock_status (touched s rng now) now =
            ok_inj _ _ (sym h ∙ mock_check_invoice_of store id s rng now e) in
          let old : is_settled s now ≡ true =
            sym (is_settled-touched s rng now now)
            ∙ settled_status (touched s rng now) now
                (subst (λ r. r.status ≡ codes "settled") shown settled) in
          let (token, held) = touched_token s rng now old in
          mock_check_invoice_of last id (touched s rng now) rng' later (
            Calls-kept (mock_check_invoice store id rng now).1 last id (touched s rng now) token
              calls (mock_check_invoice-store store id s rng now e) held)
          ∙ ap ok (touched_settled s rng rng' now later old le)
          ∙ ap ok (sym shown)
    ]

-- Once the mock's `check_invoice` shows an invoice as settled, both of the routes that answer for it,
-- `check_invoice` and `get_access_token`, give that same answer from then on, whatever requests come in
-- between, as long as their new invoices have ids that are not in use.
pub mock_check_invoice-Calls :
    (store : Store) (id : Text) (rng rng' : Samples) (now later : ℕ) (response : MockStatus)
    (last : Store)
    → (mock_check_invoice store id rng now).0 ≡ ok response
    → response.status ≡ codes "settled"
    → Calls (mock_check_invoice store id rng now).1 last
    → now ≤ later
    → ((mock_check_invoice last id rng' later).0 ≡ ok response)
      × ((mock_get_access_token last id rng' later).0 ≡ ok response)
mock_check_invoice-Calls store id rng rng' now later response last h settled calls le =
    let same = check_invoice-Calls store id rng rng' now later response last h settled calls le in
    (same, ap (λ r. r.0) (mock_get_access_token_lem last id rng' later) ∙ same)
