-- ===== src/Api/Sessions/Laws.antt =====
-- What the operations of the payment service do to the map of sessions.
use lightining_pass.Base.{
  ℕ, ◌<◌, ◌≡◌, ◌↔◌, ◌⊎◌, inl, inr, refl, arith, false, none, some, ok, err, Text, codes, ◌++◌,
  text_eq, if◌then◌else◌, is_some, leb, Option-cases, mem-filter_by, mem_of_filter_by,
}
use mathlib.Core.List.{Memᴰ}
use lightining_pass.Base.Dict
use lightining_pass.Base.Dict.{get-insert, get-empty, mem-values, mem_of_values}
use lightining_pass.SharedTypes.{PaymentRequest}
use lightining_pass.Api.Sessions.{
  AccessArtifact, SessionRecord, PaymentService, new_service, new_session, insert_session, get,
  is_pending, pending_sessions, settled, mark_paid, status_of,
}

pub get-new_service : (ttl : ℕ) (k : Text) → get (new_service ttl) k ≡ none
unfolding get new_service
get-new_service ttl k = get-empty k

-- An inserted session stands under its id, unpaid, with both deadlines counted from `now`; every
-- other id has what it had.
pub get-insert_session :
    (s : PaymentService) (r : PaymentRequest) (expiry : ℕ) (event_id : Text) (now : ℕ) (k : Text)
    → get (insert_session s r expiry event_id now).1 k
      ≡ (if text_eq r.session_id k then some (new_session s r expiry event_id now) else get s k)
unfolding get insert_session new_session
get-insert_session s r expiry event_id now k = rw get-insert

-- The pending sessions are the stored ones that are not paid and whose request has not expired.
pub mem-pending_sessions_iff :
    (s : PaymentService) (now : ℕ) (r : SessionRecord)
    → Memᴰ r (pending_sessions s now)
      ↔ ((k : Text) × (get s k ≡ some r) × (r.paid ≡ false) × (now < r.payment_request.expires_at))
unfolding pending_sessions is_pending get
mem-pending_sessions_iff s now r = (
  λ m.
      let (stored, e) = mem_of_filter_by (is_pending now) r (Dict.values s.sessions) m in
      let (k, found) = mem_of_values s.sessions r stored in (k, found, ground arith, ground arith),
  λ (k, found, unpaid, open_).
      mem-filter_by (is_pending now) r (Dict.values s.sessions) (mem-values s.sessions k r found)
        (ground arith),
)

-- `mark_paid` settles the session under its id and touches no other; it fails exactly on an id that
-- is not stored.
pub mark_paid_lem :
    (s : PaymentService) (id : Text) (a : AccessArtifact)
    → ((get s id ≡ none) × (mark_paid s id a ≡ err (codes "unknown session: " ++ id)))
      ⊎ ((r : SessionRecord) × (s' : PaymentService) × (get s id ≡ some r)
          × (mark_paid s id a ≡ ok s')
          × (s'.token_ttl_secs ≡ s.token_ttl_secs)
          × ((k : Text) → get s' k ≡ (if text_eq id k then some (settled r a) else get s k)))
unfolding mark_paid get
mark_paid_lem s id a = elim (Option-cases (Dict.get s.sessions id)) [
  | inl e ↦ inl (e, rw e)
  | inr (r, e) ↦ inr (
    r,
    record s { sessions = Dict.insert s.sessions id (settled r a) },
    e,
    rw e,
    refl,
    λ k. get-insert s.sessions id k (settled r a),
  )
]

-- The status of a session whose fields agree, as after every operation of the service: a paid
-- session has its token and transaction, an unpaid one has neither.
abbrev pub IsCoherent : SessionRecord → Type 0
IsCoherent r = (is_some r.access_token ≡ r.paid) × (is_some r.tx_hash ≡ r.paid)

-- A coherent session is confirmed if it is paid, and otherwise waiting or expired by the clock; it is
-- never shown as detected.
pub status_of-IsCoherent :
    (r : SessionRecord) (now : ℕ)
    → IsCoherent r
    → status_of r now ≡ (
        if r.paid
        then codes "confirmed"
        else if leb r.payment_request.expires_at now
        then codes "expired"
        else codes "waiting")
unfolding status_of
status_of-IsCoherent r now h = ground arith
