-- ===== src/Api/Watcher.antt =====
-- crates/api_server/src/services/watcher_service.rs. `eprintln!` is left out: an error leaves the
-- service as it was. What the network answers and the random numbers come from a list of replies, one
-- for each session of a round.
use lightining_pass.Base.{ℕ, ◌+◌, Option, none, some, Result, ok, err, List, [], ◌∷◌, Text}
use lightining_pass.Random.{Samples}
use lightining_pass.SharedTypes.{PaymentEvent}
use lightining_pass.PaymentCore.{PaymentProvider}
use lightining_pass.Api.Env.{ApiEnv}
use lightining_pass.Api.Sessions.{
  AccessArtifact, SessionRecord, PaymentService, pending_sessions, mark_paid,
}
use lightining_pass.Api.Access.{AccessService, issue_token}

module _ (env : ApiEnv) {Net : Type 0} (provider : PaymentProvider Net)
    (access : AccessService env) where
  -- `Err` of `mark_paid` is only printed.
  unfoldable pub after_mark : PaymentService → Result PaymentService Text → PaymentService
  after_mark service (ok service') = service'
  after_mark service (err e) = service

  unfoldable pub after_issue :
      PaymentService → SessionRecord → Result AccessArtifact Text → PaymentService
  unfolding after_mark
  after_issue service session (ok artifact) =
      after_mark service (mark_paid service session.payment_request.session_id artifact)
  after_issue service session (err e) = service

  unfoldable pub after_lookup :
      PaymentService → SessionRecord → Samples → Result (Option PaymentEvent) Text → PaymentService
  unfolding after_issue
  after_lookup service session rng (ok (some payment)) =
      after_issue service session
        (issue_token env access payment session.event_id session.expires_at rng)
  after_lookup service session rng (ok none) = service
  after_lookup service session rng (err e) = service

  -- The body of the inner loop.
  unfoldable pub watch_session : Net → Samples → SessionRecord → PaymentService → PaymentService
  unfolding after_lookup
  watch_session net rng session service = after_lookup service session rng (
      provider.find_confirmed_payment net session.payment_request.destination
        session.payment_request.memo session.payment_request.amount session.payment_request.asset)

  unfoldable pub watch_sessions :
      (ℕ → Net × Samples) → List SessionRecord → PaymentService → PaymentService
  unfolding watch_session
  watch_sessions replies [] service = service
  watch_sessions replies (session ∷ rest) service =
      let (net, rng) = replies 0 in
      watch_sessions (λ i. replies (i + 1)) rest (watch_session net rng session service)

  -- One round of the outer loop: the pending sessions are read once, at `now`.
  unfoldable pub watch_round : (ℕ → Net × Samples) → ℕ → PaymentService → PaymentService
  watch_round replies now service = watch_sessions replies (pending_sessions service now) service
