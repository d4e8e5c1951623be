-- ===== src/Api/System/Visits.antt =====
-- A visit of the watcher to a queued session keeps the invariant.
use lightining_pass.Base.{
  ◌≡◌, ◌≢◌, inl, inr, refl, ap, arith, Option, none, some, Result, ok, err, List, [], ◌∷◌, ◌++◌,
  Text, text_eq, text_eq_iff, if◌then◌else◌, Result-cases, Bool-cases, All, Once, subst, ◌∙◌,
}
use mathlib.Core.List.{Memᴰ}
use mathlib.Core.List.Memᴰ
use lightining_pass.Random.{Samples, random_text}
use lightining_pass.SharedTypes.{PaymentEvent}
use lightining_pass.Stellar.Types.{PaymentRecord, PaymentsResponse}
use lightining_pass.Stellar.Client.{Horizon, payments_for_account}
use lightining_pass.Stellar.Provider.{StellarProvider, stellar_provider, find_confirmed_payment}
use lightining_pass.Stellar.Search.{find_confirmed_payment-IsFirst}
use mathlib.Core.Path.{subst₂}
use lightining_pass.Token.Types.{AccessToken, new_stellar}
use lightining_pass.Stellar.Parser.{asset_of}
use lightining_pass.Stellar.Confirms.{event_of}
use lightining_pass.Token.Sign.{sign_token_to_string}
use lightining_pass.Api.Env.{ApiEnv}
use lightining_pass.Api.Sessions.{AccessArtifact, SessionRecord, PaymentService, get, settled}
use lightining_pass.Api.Sessions.Laws.{mark_paid_lem}
use lightining_pass.Api.Access.{token_for, AccessService, issue_token}
use lightining_pass.Api.Access.Laws.{issue_token-eq-ok}
use lightining_pass.Api.Watcher.{watch_session, after_lookup, after_issue}
use lightining_pass.Api.System.{Server, answered, visit}
use lightining_pass.Api.System.Invariant.{
  pass_for, IsBacked, IsStored, IsQueued, id_of, Inv, IsStored-append,
}

module _ (env : ApiEnv) (provider : StellarProvider) (access : AccessService env) where
  -- A visit of a queued session leaves the service alone, or settles that session for an event that
  -- was found.
  pub data Visited (horizon : Horizon) (rng : Samples) (r : SessionRecord)
      (service after : PaymentService) : Type 0 where
    kept : after ≡ service → Visited horizon rng r service after
    paid :
        (event : PaymentEvent) (a : AccessArtifact)
        → find_confirmed_payment provider horizon r.payment_request.destination
            r.payment_request.memo r.payment_request.amount r.payment_request.asset
          ≡ ok (some event)
        → issue_token env access event r.event_id r.expires_at rng ≡ ok a
        → ((k : Text)
            → get after k ≡ (
                if text_eq r.payment_request.session_id k
                then some (settled r a)
                else get service k))
        → Visited horizon rng r service after

  pub after_issue-get :
      (service : PaymentService) (r : SessionRecord) (a : AccessArtifact) (k : Text)
      → get service r.payment_request.session_id ≡ some r
      → get (after_issue env (stellar_provider provider) access service r (ok a)) k
        ≡ (if text_eq r.payment_request.session_id k then some (settled r a) else get service k)
  unfolding after_issue
  after_issue-get service r a k h = elim (mark_paid_lem service r.payment_request.session_id a) [
    | inl (e, e') ↦ absurd (ground arith)
    | inr (r', s', found, e, ttl, gets) ↦ ground (arith, gets k)
  ]

  pub watch_session-Visited :
      (horizon : Horizon) (rng : Samples) (r : SessionRecord) (service : PaymentService)
      → get service r.payment_request.session_id ≡ some r
      → Visited horizon rng r service
          (watch_session env (stellar_provider provider) access horizon rng r service)
  unfolding watch_session
  watch_session-Visited horizon rng r service q = go _ refl
    where
      go :
          (found : Result (Option PaymentEvent) Text)
          → find_confirmed_payment provider horizon r.payment_request.destination
              r.payment_request.memo r.payment_request.amount r.payment_request.asset
            ≡ found
          → Visited horizon rng r service
              (after_lookup env (stellar_provider provider) access service r rng found)
      go (ok none) e = kept refl
      go (ok (some event)) e =
          elim (Result-cases (issue_token env access event r.event_id r.expires_at rng)) [
            | inl (a, issued) ↦
                paid event a e issued (λ k. rw issued (after_issue-get service r a k q))
            | inr (m, failed) ↦ kept (rw failed)
          ]
      go (err m) e = kept refl

  mem-answered :
      (horizon : Horizon) (account : Text) (response : PaymentsResponse) (found : PaymentRecord)
      (before after : List PaymentRecord)
      → payments_for_account provider.client horizon account ≡ ok response
      → response.embedded.records ≡ before ++ found ∷ after
      → Memᴰ found (answered env provider access horizon account)
  unfolding answered
  mem-answered horizon account response found before after e listed =
      rw (e, answered, listed) (Memᴰ.append_right before (Memᴰ.head refl))

  pass_for_lem :
      (r : SessionRecord) (found : PaymentRecord) (nonce : Text)
      → token_for (event_of found) r.event_id r.expires_at nonce ≡ pass_for r found nonce
  unfolding token_for new_stellar asset_of
  pass_for_lem r found nonce = refl

  -- The record behind an event that was found stands in the answer, and confirms the session.
  settled-IsBacked :
      (horizon : Horizon) (rng : Samples) (r : SessionRecord) (seen : List PaymentRecord)
      (event : PaymentEvent) (a : AccessArtifact)
      → find_confirmed_payment provider horizon r.payment_request.destination r.payment_request.memo
          r.payment_request.amount r.payment_request.asset
        ≡ ok (some event)
      → issue_token env access event r.event_id r.expires_at rng ≡ ok a
      → IsBacked env provider access
          (seen ++ answered env provider access horizon r.payment_request.destination)
          (settled r a)
  unfolding settled
  settled-IsBacked horizon rng r seen event a e issued =
      let (response, asked, first) =
        find_confirmed_payment-IsFirst provider horizon r.payment_request.destination
          r.payment_request.memo r.payment_request.amount r.payment_request.asset event e in
      let (signed, tx) = issue_token-eq-ok env access event r.event_id r.expires_at rng a issued in
      record {
        paid = refl;
        found = first.found;
        answered_before = Memᴰ.append_right seen (
            mem-answered horizon r.payment_request.destination response first.found first.before
              first.after asked first.listed);
        confirms = first.confirms;
        nonce = random_text 16 rng;
        text = a.token;
        token = refl;
        tx = ap (λ t. some t) (tx ∙ ap (λ (ev : PaymentEvent). ev.tx_hash) first.event_is);
        signed =
            subst
              (λ (token : AccessToken).
                sign_token_to_string env.tokens token access.signing_key ≡ ok a.token)
              (ap (λ (ev : PaymentEvent). token_for ev r.event_id r.expires_at (random_text 16 rng))
                  first.event_is
                ∙ pass_for_lem r first.found (random_text 16 rng))
              signed;
      }

  settled-IsStored :
      (horizon : Horizon) (rng : Samples) (s : SessionRecord) (seen : List PaymentRecord)
      (event : PaymentEvent) (a : AccessArtifact)
      → find_confirmed_payment provider horizon s.payment_request.destination s.payment_request.memo
          s.payment_request.amount s.payment_request.asset
        ≡ ok (some event)
      → issue_token env access event s.event_id s.expires_at rng ≡ ok a
      → IsStored env provider access seen (id_of s) s
      → IsStored env provider access
          (seen ++ answered env provider access horizon s.payment_request.destination)
          (id_of s)
          (settled s a)
  settled-IsStored horizon rng s seen event a e issued old = record {
    id = unfold settled in old.id;
    memo = unfold settled in old.memo;
    destination = unfold settled in old.destination;
    state = inr (settled-IsBacked horizon rng s seen event a e issued);
  }

  pub visit-IsStored :
      (horizon : Horizon) (rng : Samples) (w : Server) (s : SessionRecord) (after : PaymentService)
      → Inv env provider access w
      → get w.service (id_of s) ≡ some s
      → Visited horizon rng s w.service after
      → (k : Text) (r : SessionRecord) → get after k ≡ some r
      → IsStored env provider access
          (w.seen ++ answered env provider access horizon s.payment_request.destination)
          k
          r
  visit-IsStored horizon rng w s after v q (kept e) k r h =
      IsStored-append env provider access w.seen _ k r (v.sessions k r (rw e at h))
  visit-IsStored horizon rng w s after v q (paid event a e issued gets) k r h =
      elim (Bool-cases (text_eq (id_of s) k)) [
        | inl same ↦
            let stored =
              settled-IsStored horizon rng s w.seen event a e issued (v.sessions (id_of s) s q) in
            let is_settled : settled s a ≡ r = ground (arith, gets k) in
            let is_id : id_of s ≡ k = (text_eq_iff (id_of s) k).0 same in
            subst₂
              (IsStored env provider access
                (w.seen ++ answered env provider access horizon s.payment_request.destination))
              is_id is_settled stored
        | inr other ↦
            IsStored-append env provider access w.seen _ k r
              (v.sessions k r (ground (arith, gets k)))
      ]

  visit-IsQueued :
      (horizon : Horizon) (rng : Samples) (s : SessionRecord) (service after : PaymentService)
      → Visited horizon rng s service after
      → (q : SessionRecord) → id_of q ≢ id_of s
      → IsQueued env provider access service q
      → IsQueued env provider access after q
  visit-IsQueued horizon rng s service after (kept e) q n h = record {
    stored = rw e h.stored;
    unpaid = h.unpaid;
  }
  visit-IsQueued horizon rng s service after (paid event a e issued gets) q n h = record {
    stored = ground (arith, gets (id_of q), text_eq_iff (id_of s) (id_of q), h.stored);
    unpaid = h.unpaid;
  }

  visit_queue :
      (horizon : Horizon) (rng : Samples) (s : SessionRecord) (service after : PaymentService)
      → Visited horizon rng s service after
      → (rest : List SessionRecord) → All (λ q. id_of q ≢ id_of s) rest
      → All (IsQueued env provider access service) rest
      → All (IsQueued env provider access after) rest
  visit_queue horizon rng s service after v [] n h = tt
  visit_queue horizon rng s service after v (q ∷ rest) (n, ns) (h, hs) = (
    visit-IsQueued horizon rng s service after v q n h,
    visit_queue horizon rng s service after v rest ns hs,
  )

  pub visit-Inv :
      (horizon : Horizon) (rng : Samples) (w : Server) (s : SessionRecord)
      (rest : List SessionRecord)
      → w.queue ≡ s ∷ rest
      → Inv env provider access w
      → Inv env provider access (visit env provider access horizon rng s rest w)
  unfolding visit
  visit-Inv horizon rng w s rest e v =
      let queue = subst (All (IsQueued env provider access w.service)) e v.queue in
      let once = subst (Once id_of) e v.once in
      let visited = watch_session-Visited horizon rng s w.service (queue.0).stored in
      record {
        sessions = visit-IsStored horizon rng w s _ v (queue.0).stored visited;
        queue = visit_queue horizon rng s w.service _ visited rest once.0 queue.1;
        once = once.1;
      }
