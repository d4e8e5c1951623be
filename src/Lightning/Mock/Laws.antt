-- ===== src/Lightning/Mock/Laws.antt =====
-- How an invoice of the mock settles.
use lightining_pass.Base.{
  ℕ, ◌≤◌, true, none, some, ok, err, Text, codes, ◌≡◌, refl, inl, inr, arith, Bool-cases,
  Option-cases, sym, subst, ◌∙◌, ◌++◌,
}
use lightining_pass.Base.Dict
use lightining_pass.Base.Dict.{get-insert_self, get-insert_other}
use lightining_pass.Random.{Samples}
use lightining_pass.Lightning.Mock.{
  Session, Store, is_settled, touched, mock_status, answer_mock, mock_check_invoice, mock_random_id,
  mock_get_access_token,
}

-- An unknown id is answered with 404, and the store is left as it was.
pub mock_check_invoice-unknown :
    (store : Store) (id : Text) (rng : Samples) (now : ℕ)
    → Dict.get store id ≡ none
    → mock_check_invoice store id rng now ≡ (err 404, store)
unfolding mock_check_invoice answer_mock
mock_check_invoice-unknown store id rng now h = rw h refl

-- The two routes answer alike.
pub mock_get_access_token_lem :
    (store : Store) (id : Text) (rng : Samples) (now : ℕ)
    → mock_get_access_token store id rng now ≡ mock_check_invoice store id rng now
unfolding mock_get_access_token mock_check_invoice
mock_get_access_token_lem store id rng now = refl

pub mock_check_invoice_of :
    (store : Store) (id : Text) (session : Session) (rng : Samples) (now : ℕ)
    → Dict.get store id ≡ some session
    → (mock_check_invoice store id rng now).0 ≡ ok (mock_status (touched session rng now) now)
unfolding mock_check_invoice answer_mock
mock_check_invoice_of store id session rng now h = rw h refl

pub mock_check_invoice-store :
    (store : Store) (id : Text) (session : Session) (rng : Samples) (now : ℕ)
    → Dict.get store id ≡ some session
    → Dict.get (mock_check_invoice store id rng now).1 id ≡ some (touched session rng now)
unfolding mock_check_invoice answer_mock
mock_check_invoice-store store id session rng now h =
    rw h (get-insert_self store id (touched session rng now))

is_settled_later :
    (s : Session) (now later : ℕ)
    → now ≤ later
    → is_settled s now ≡ true
    → is_settled s later ≡ true
unfolding is_settled
is_settled_later s now later le h = ground arith

pub touched_held :
    (s : Session) (rng : Samples) (now : ℕ) (token : Text)
    → s.access_token ≡ some token
    → touched s rng now ≡ s
unfolding touched
touched_held s rng now token h = elim (Bool-cases (is_settled s now)) [
  | inl e ↦ rw (e, h) refl
  | inr e ↦ rw e refl
]

pub touched_token :
    (s : Session) (rng : Samples) (now : ℕ)
    → is_settled s now ≡ true
    → (token : Text) × ((touched s rng now).access_token ≡ some token)
unfolding touched
touched_token s rng now h = elim (Option-cases s.access_token) [
  | inl e ↦ (codes "access_" ++ mock_random_id 24 rng, rw (h, e) refl)
  | inr (t, e) ↦ (t, rw (h, e) refl)
]

touched_times :
    (s : Session) (rng : Samples) (now : ℕ)
    → ((touched s rng now).created_at ≡ s.created_at)
      × ((touched s rng now).expires_at ≡ s.expires_at)
unfolding touched
touched_times s rng now = ground arith

pub is_settled-touched :
    (s : Session) (rng : Samples) (now later : ℕ)
    → is_settled (touched s rng now) later ≡ is_settled s later
unfolding is_settled
is_settled-touched s rng now later = rw ((touched_times s rng now).0) refl

mock_status_settled :
    (s : Session) (now later : ℕ)
    → is_settled s now ≡ true
    → is_settled s later ≡ true
    → mock_status s now ≡ mock_status s later
unfolding mock_status
mock_status_settled s now later h h' = rw (h, h') refl

-- A settled session answers the same from then on.
pub touched_settled :
    (s : Session) (rng rng' : Samples) (now later : ℕ)
    → is_settled s now ≡ true
    → now ≤ later
    → mock_status (touched (touched s rng now) rng' later) later
      ≡ mock_status (touched s rng now) now
touched_settled s rng rng' now later h le =
    let (token, e) = touched_token s rng now h in
    subst (λ x. mock_status x later ≡ mock_status (touched s rng now) now)
      (sym (touched_held (touched s rng now) rng' later token e))
      (mock_status_settled (touched s rng now) later now
        (is_settled-touched s rng now later ∙ is_settled_later s now later le h)
        (is_settled-touched s rng now now ∙ h))

pub settled_status :
    (s : Session) (now : ℕ) → (mock_status s now).status ≡ codes "settled" → is_settled s now ≡ true
unfolding mock_status
settled_status s now h = elim (Bool-cases (is_settled s now)) [
  | inl e ↦ e
  | inr e ↦ absurd (ground arith)
]
