-- ===== src/Api/System/Rounds.antt =====
-- A round of the watcher settles every session whose payment Horizon shows.
pub mod Tests
use lightining_pass.Base.{
  ℕ, ◌+◌, ◌<◌, ◌≡◌, ◌∙◌, refl, sym, ap, subst, arith, true, false, some, ok, List, [], ◌∷◌, Text,
  All,
}
use mathlib.Core.List.{Memᴰ}
use lightining_pass.Random.{Samples}
use lightining_pass.SharedTypes.{PaymentEvent}
use lightining_pass.Stellar.Types.{PaymentRecord, PaymentsResponse}
use lightining_pass.Stellar.Client.{Horizon, payments_for_account}
use lightining_pass.Stellar.Provider.{StellarProvider, stellar_provider}
use lightining_pass.Stellar.Confirms.{Confirms}
use lightining_pass.Api.Env.{ApiEnv}
use lightining_pass.Api.Sessions.{
  AccessArtifact, SessionRecord, PaymentService, get, pending_sessions,
}
use lightining_pass.Api.Sessions.Laws.{mem-pending_sessions_iff}
use lightining_pass.Api.Access.{AccessService, issue_token}
use lightining_pass.Api.Watcher.{watch_sessions, watch_round}
use lightining_pass.Api.System.{Server, start, poll, visit, polls, visits, Reach, here, next}
use lightining_pass.Api.System.Invariant.{IsQueued, id_of}
use lightining_pass.Api.System.Preserved.{Reach-Inv}
use lightining_pass.Api.System.Claims.{session-Continues}
use lightining_pass.Api.System.Progress.{visit_settles, watch_sessions-Reach}

module _ (env : ApiEnv) (provider : StellarProvider) (access : AccessService env) where
  -- Horizon answers with a record that confirms the session's request.
  pub record Pays (horizon : Horizon) (r : SessionRecord) : Type 0 where
    pub response : PaymentsResponse
    pub found : PaymentRecord
    pub asked :
        payments_for_account provider.client horizon r.payment_request.destination ≡ ok response
    pub listed : Memᴰ found response.embedded.records
    pub confirms :
        Confirms r.payment_request.destination r.payment_request.memo r.payment_request.amount
          r.payment_request.asset found

  -- The token of a payment of the session can be issued.
  abbrev pub Issues : Samples → SessionRecord → Type 0
  Issues rng r =
      (event : PaymentEvent)
      → (a : AccessArtifact) × (issue_token env access event r.event_id r.expires_at rng ≡ ok a)

  abbrev pub IsPaid : PaymentService → Text → Type 0
  IsPaid service k = (r : SessionRecord) × (get service k ≡ some r) × (r.paid ≡ true)

  IsPaid-kept :
      (ttl began : ℕ) (v w : Server) (k : Text)
      → Reach env provider access (start env provider access ttl began) v
      → Reach env provider access v w
      → IsPaid v.service k
      → IsPaid w.service k
  IsPaid-kept ttl began v w k reach more (r, stored, paid) =
      let (r', stored', c) =
        session-Continues env provider access ttl began v w reach more k r stored in
      (r', stored', ap (λ x. x.paid) (c.paid_kept paid) ∙ paid)

  -- The session at the head of the queue is settled by its visit, and stays so in the rest of the round.
  head_settles :
      (ttl began : ℕ) (s : SessionRecord) (replies : ℕ → Horizon × Samples)
      (rest : List SessionRecord)
      → (w : Server) → Reach env provider access (start env provider access ttl began) w
      → w.queue ≡ s ∷ rest
      → Pays (replies 0).0 s
      → Issues (replies 0).1 s
      → IsPaid
          (watch_sessions env (stellar_provider provider) access replies (s ∷ rest) w.service)
          (id_of s)
  unfolding watch_sessions visit
  head_settles ttl began s replies rest w reach e pays issues =
      let queued =
        (subst (All (IsQueued env provider access w.service)) e
          (Reach-Inv env provider access ttl began reach).queue).0 in
      let (r, stored, paid, token) =
        visit_settles env provider access (replies 0).0 (replies 0).1 s w.service pays.response
          pays.found queued.stored pays.asked pays.listed pays.confirms issues in
      let v = visit env provider access (replies 0).0 (replies 0).1 s rest w in
      let (u, more, same, over, now) =
        watch_sessions-Reach env provider access (λ i. replies (i + 1)) rest {v = v} {w = v} here
          refl in
      subst (λ x. IsPaid x (id_of s)) same
        (IsPaid-kept ttl began v u (id_of s)
          (next reach (visits (replies 0).0 (replies 0).1 s rest e)) more (r, stored, paid))

  round_settles :
      (ttl began : ℕ) (r : SessionRecord) (replies : ℕ → Horizon × Samples)
      (rest : List SessionRecord)
      → (w : Server) → Reach env provider access (start env provider access ttl began) w
      → w.queue ≡ rest
      → Memᴰ r rest
      → ((i : ℕ) → Pays (replies i).0 r)
      → ((i : ℕ) → Issues (replies i).1 r)
      → IsPaid
          (watch_sessions env (stellar_provider provider) access replies rest w.service)
          (id_of r)
  unfolding watch_sessions visit
  round_settles ttl began r replies _ w reach e (Memᴰ.head {x = s} {xs = rest} same) pays issues =
      subst
        (λ x.
          IsPaid
            (watch_sessions env (stellar_provider provider) access replies (s ∷ rest) w.service)
            (id_of x))
        (sym same)
        (head_settles ttl began s replies rest w reach e (subst (Pays (replies 0).0) same (pays 0))
          (subst (Issues (replies 0).1) same (issues 0)))
  round_settles ttl began r replies _ w reach e (Memᴰ.tail {x = s} {xs = rest} m) pays issues =
      let (horizon, rng) = replies 0 in
      round_settles ttl began r (λ i. replies (i + 1)) rest
        (visit env provider access horizon rng s rest w) (next reach (visits horizon rng s rest e))
        refl m (λ i. pays (i + 1)) (λ i. issues (i + 1))

  -- In a server that was reached from a fresh start and whose last round is over: a stored session that
  -- is not paid and whose request is open is paid after the next round of the watcher, where each
  -- answer of Horizon in it has a record that confirms the request and the issue of the token does
  -- not fail.
  pub watch_round_settles :
      (ttl began : ℕ) (w : Server)
      → Reach env provider access (start env provider access ttl began) w
      → w.queue ≡ []
      → (k : Text) (r : SessionRecord) → get w.service k ≡ some r
      → r.paid ≡ false
      → w.now < r.payment_request.expires_at
      → (replies : ℕ → Horizon × Samples) → ((i : ℕ) → Pays (replies i).0 r)
      → ((i : ℕ) → Issues (replies i).1 r)
      → IsPaid (watch_round env (stellar_provider provider) access replies w.now w.service) k
  unfolding watch_round poll
  watch_round_settles ttl began w reach over k r stored unpaid open_ replies pays issues =
      let id : id_of r ≡ k =
        ((Reach-Inv env provider access ttl began reach).sessions k r stored).id in
      subst
        (λ j. IsPaid (watch_round env (stellar_provider provider) access replies w.now w.service) j)
        id
        (round_settles ttl began r replies (pending_sessions w.service w.now)
          (poll env provider access w) (next reach (polls over)) refl
          ((mem-pending_sessions_iff w.service w.now r).1 (k, stored, unpaid, open_)) pays issues)
