-- ===== src/Api/System/Progress.antt =====
-- The watcher makes progress: a visit whose answer confirms the session settles it, and a round of the
-- watcher's code is a run of the system's steps.
use lightining_pass.Base.{
  ℕ, ◌+◌, ◌≡◌, ◌∙◌, refl, ap, true, some, ok, List, [], ◌∷◌, Text, text_eq_refl, if◌then◌else◌,
}
use mathlib.Core.List.{Memᴰ}
use lightining_pass.Random.{Samples}
use lightining_pass.SharedTypes.{PaymentEvent}
use lightining_pass.Stellar.Types.{PaymentRecord, PaymentsResponse}
use lightining_pass.Stellar.Client.{Horizon, payments_for_account}
use lightining_pass.Stellar.Provider.{StellarProvider, stellar_provider}
use lightining_pass.Stellar.Confirms.{Confirms}
use lightining_pass.Stellar.Search.{find_confirmed_payment-of_mem}
use lightining_pass.Api.Env.{ApiEnv}
use lightining_pass.Api.Sessions.{
  AccessArtifact, SessionRecord, PaymentService, get, settled, pending_sessions,
}
use lightining_pass.Api.Access.{AccessService, issue_token}
use lightining_pass.Api.Watcher.{watch_session, watch_sessions, watch_round, after_lookup}
use lightining_pass.Api.System.{Server, poll, visit, polls, visits, Reach, here, next}
use lightining_pass.Api.System.Visits.{after_issue-get}
use lightining_pass.Api.System.Invariant.{id_of}

module _ (env : ApiEnv) (provider : StellarProvider) (access : AccessService env) where
  -- A stored session is paid, with a token, after a visit where Horizon's answer holds a record that
  -- confirms its request and the issue of the token does not fail.
  pub visit_settles :
      (horizon : Horizon) (rng : Samples) (s : SessionRecord) (service : PaymentService)
      (response : PaymentsResponse) (found : PaymentRecord)
      → get service (id_of s) ≡ some s
      → payments_for_account provider.client horizon s.payment_request.destination ≡ ok response
      → Memᴰ found response.embedded.records
      → Confirms s.payment_request.destination s.payment_request.memo s.payment_request.amount
          s.payment_request.asset found
      → ((event : PaymentEvent)
          → (a : AccessArtifact) × (issue_token env access event s.event_id s.expires_at rng
              ≡ ok a))
      → (r : SessionRecord) × (get
            (watch_session env (stellar_provider provider) access horizon rng s service)
            (id_of s)
          ≡ some r)
        × (r.paid ≡ true)
        × ((text : Text) × (r.access_token ≡ some text))
  unfolding watch_session after_lookup settled
  visit_settles horizon rng s service response found stored asked m c issues =
      let (event, e) =
        find_confirmed_payment-of_mem provider horizon s.payment_request.destination
          s.payment_request.memo s.payment_request.amount s.payment_request.asset response found
          asked m c in
      let (a, issued) = issues event in
      (
        settled s a,
        rw (e, issued)
            (after_issue-get env provider access service s a (id_of s) stored
              ∙ ap (λ b. if b then some (settled s a) else get service (id_of s))
                  (text_eq_refl (id_of s))),
        refl,
        (a.token, refl),
      )

  pub watch_sessions-Reach :
      (replies : ℕ → Horizon × Samples) (rest : List SessionRecord) {v w : Server}
      → Reach env provider access v w
      → w.queue ≡ rest
      → (u : Server) × Reach env provider access v u
        × (u.service ≡ watch_sessions env (stellar_provider provider) access replies rest w.service)
        × (u.queue ≡ [])
        × (u.now ≡ w.now)
  unfolding watch_sessions visit
  watch_sessions-Reach replies [] {w} reach e = (w, reach, refl, e, refl)
  watch_sessions-Reach replies (s ∷ rest) {w} reach e =
      let (horizon, rng) = replies 0 in
      watch_sessions-Reach (λ i. replies (i + 1)) rest (next reach (visits horizon rng s rest e))
        refl

  -- A round of the watcher's loop, from a server whose last round is over, is a run of the system's
  -- steps that ends with the round over and the clock as it was.
  pub watch_round-Reach :
      (replies : ℕ → Horizon × Samples) (w : Server)
      → w.queue ≡ []
      → (u : Server) × Reach env provider access w u
        × (u.service ≡ watch_round env (stellar_provider provider) access replies w.now w.service)
        × (u.queue ≡ [])
        × (u.now ≡ w.now)
  unfolding watch_round poll
  watch_round-Reach replies w e =
      watch_sessions-Reach replies (pending_sessions w.service w.now) (next here (polls e)) refl
