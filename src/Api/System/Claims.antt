-- ===== src/Api/System/Claims.antt =====
-- What the invariant gives to a buyer and to the gate.
use lightining_pass.Base.{
  ℕ, ◌≡◌, ◌∙◌, ◌⊎◌, inl, inr, refl, ap, arith, true, false, some, List, Text, codes, leb, text_eq,
  text_eq_iff, if◌then◌else◌, Bool-cases, All, subst,
}
use lightining_pass.Random.{Samples}
use lightining_pass.Token.Types.{valid, invalid}
use lightining_pass.Token.Verify.{verify_token_string}
use lightining_pass.Token.RoundTrip.{verify_token_string-sign_token_to_string}
use lightining_pass.Stellar.Types.{PaymentRecord}
use lightining_pass.Stellar.Client.{Horizon}
use lightining_pass.Stellar.Provider.{StellarProvider, generate_memo}
use lightining_pass.Api.Env.{ApiEnv}
use lightining_pass.Api.Sessions.{
  AccessArtifact, SessionRecord, PaymentService, get, settled, status_of,
}
use lightining_pass.Api.Sessions.Laws.{status_of-IsCoherent}
use lightining_pass.Api.Access.{AccessService}
use lightining_pass.Api.System.{
  Server, start, poll, visit, Step, requests, passes, polls, visits, Reach, here, next,
}
use lightining_pass.Api.System.Visits.{Visited, kept, paid, watch_session-Visited}
use lightining_pass.Api.System.Invariant.{
  pass_for, IsBare, IsBacked, IsStored, IsQueued, id_of, Inv,
}
use lightining_pass.Api.System.Preserved.{get-request, Step-Inv, Reach-Inv}

module _ (env : ApiEnv) (provider : StellarProvider) (access : AccessService env) where
  IsBacked-of_token :
      (seen : List PaymentRecord) (k : Text) (r : SessionRecord) (text : Text)
      → IsStored env provider access seen k r
      → r.access_token ≡ some text
      → IsBacked env provider access seen r
  IsBacked-of_token seen k r text s h = go s.state
    where
      go : IsBare r ⊎ IsBacked env provider access seen r → IsBacked env provider access seen r
      go (inl b) = absurd (ground (arith, b.no_token))
      go (inr b) = b

  backed_verifies :
      (seen : List PaymentRecord) (r : SessionRecord) (b : IsBacked env provider access seen r)
      (now : ℕ)
      → verify_token_string env.tokens b.text (env.verifying_key access.signing_key) now
        ≡ (if leb r.expires_at now then invalid else valid)
  backed_verifies seen r b now =
      verify_token_string-sign_token_to_string env.tokens (pass_for r b.found b.nonce)
        access.signing_key now b.text b.signed

  -- After any steps from a fresh start in which the memo of every new request names no session yet, a
  -- session with an access token is backed: Horizon has answered a record that confirms the session's
  -- request, and the token is signed for the session's event and expiry and that record's transaction,
  -- payer, amount, asset, memo and ledger. The verifier accepts it under the issuer's key exactly below the session's `expires_at`.
  pub access_token-IsBacked :
      (ttl began : ℕ) (w : Server)
      → Reach env provider access (start env provider access ttl began) w
      → (k : Text) (r : SessionRecord) (text : Text) → get w.service k ≡ some r
      → r.access_token ≡ some text
      → IsBacked env provider access w.seen r
        × ((now : ℕ)
            → verify_token_string env.tokens text (env.verifying_key access.signing_key) now
              ≡ (if leb r.expires_at now then invalid else valid))
  access_token-IsBacked ttl began w reach k r text h e =
      let b =
        IsBacked-of_token w.seen k r text
          ((Reach-Inv env provider access ttl began reach).sessions k r h) e in
      let same : b.text ≡ text = ground (arith, b.token) in
      (
        b,
        λ now.
            subst
              (λ (t : Text).
                verify_token_string env.tokens t (env.verifying_key access.signing_key) now
                ≡ (if leb r.expires_at now then invalid else valid))
              same (backed_verifies w.seen r b now),
      )

  state_IsCoherent :
      (seen : List PaymentRecord) (r : SessionRecord) (now : ℕ)
      → IsBare r ⊎ IsBacked env provider access seen r
      → status_of r now ≡ (
          if r.paid
          then codes "confirmed"
          else if leb r.payment_request.expires_at now
          then codes "expired"
          else codes "waiting")
  state_IsCoherent seen r now (inl b) =
      status_of-IsCoherent r now (rw (b.no_token, b.unpaid), rw (b.no_tx, b.unpaid))
  state_IsCoherent seen r now (inr b) =
      status_of-IsCoherent r now (rw (b.token, b.paid), rw (b.tx, b.paid))

  -- After any steps from a fresh start, the status of a session is "confirmed" if it is paid, and
  -- else "expired" or "waiting" by the clock: no client ever sees "detected".
  pub status_of_reachable :
      (ttl began : ℕ) (w : Server)
      → Reach env provider access (start env provider access ttl began) w
      → (k : Text) (r : SessionRecord) (now : ℕ) → get w.service k ≡ some r
      → status_of r now ≡ (
          if r.paid
          then codes "confirmed"
          else if leb r.payment_request.expires_at now
          then codes "expired"
          else codes "waiting")
  status_of_reachable ttl began w reach k r now h =
      state_IsCoherent w.seen r now
        ((Reach-Inv env provider access ttl began reach).sessions k r h).state

  -- What a session keeps, whatever happens: its request, event and expiry, and all of it once paid.
  pub record Continues (r r' : SessionRecord) : Type 0 where
    pub same_request : r'.payment_request ≡ r.payment_request
    pub same_event : r'.event_id ≡ r.event_id
    pub same_expiry : r'.expires_at ≡ r.expires_at
    pub paid_kept : r.paid ≡ true → r' ≡ r

  Continues-refl : (r : SessionRecord) → Continues r r
  Continues-refl r = record {
    same_request = refl;
    same_event = refl;
    same_expiry = refl;
    paid_kept = λ h. refl;
  }

  Continues-trans : {r s t : SessionRecord} → Continues r s → Continues s t → Continues r t
  Continues-trans {r} {s} {t} p q = record {
    same_request = q.same_request ∙ p.same_request;
    same_event = q.same_event ∙ p.same_event;
    same_expiry = q.same_expiry ∙ p.same_expiry;
    paid_kept =
        λ h. let e = p.paid_kept h in q.paid_kept (ap (λ (x : SessionRecord). x.paid) e ∙ h) ∙ e;
  }

  settled-Continues :
      (s : SessionRecord) (a : AccessArtifact) → s.paid ≡ false → Continues s (settled s a)
  unfolding settled
  settled-Continues s a unpaid = record {
    same_request = refl;
    same_event = refl;
    same_expiry = refl;
    paid_kept = λ h. absurd (ground arith);
  }

  Visited-Continues :
      (horizon : Horizon) (rng : Samples) (s : SessionRecord) (service after : PaymentService)
      → IsQueued env provider access service s
      → Visited env provider access horizon rng s service after
      → (k : Text) (r : SessionRecord) → get service k ≡ some r
      → (r' : SessionRecord) × (get after k ≡ some r') × Continues r r'
  Visited-Continues horizon rng s service after q (kept e) k r h = (r, rw e h, Continues-refl r)
  Visited-Continues horizon rng s service after q (paid event a e issued gets) k r h =
      elim (Bool-cases (text_eq (id_of s) k)) [
        | inl same ↦
            let is_s : s ≡ r = ground (arith, text_eq_iff (id_of s) k, q.stored) in
            (
              settled s a,
              ground (arith, gets k),
              subst (λ (x : SessionRecord). Continues x (settled s a)) is_s
                  (settled-Continues s a q.unpaid),
            )
        | inr other ↦ (r, ground (arith, gets k), Continues-refl r)
      ]

  Step-Continues :
      {w u : Server}
      → Step env provider access w u
      → Inv env provider access w
      → (k : Text) (r : SessionRecord) → get w.service k ≡ some r
      → (r' : SessionRecord) × (get u.service k ≡ some r') × Continues r r'
  Step-Continues {w} (requests body rng fresh) v k r h = (
    r,
    ground (arith, get-request env provider access body rng w k, text_eq_iff (generate_memo rng) k),
    Continues-refl r,
  )
  Step-Continues (passes secs) v k r h = (r, h, Continues-refl r)
  Step-Continues {w} (polls e) v k r h = (r, unfold poll in h, Continues-refl r)
  Step-Continues {w} (visits horizon rng s rest e) v k r h =
      let queued = (subst (All (IsQueued env provider access w.service)) e v.queue).0 in
      unfold visit in
      Visited-Continues horizon rng s w.service _ queued
        (watch_session-Visited env provider access horizon rng s w.service queued.stored) k r h

  Reach-Continues :
      (ttl began : ℕ) {w u : Server}
      → Reach env provider access (start env provider access ttl began) w
      → Reach env provider access w u
      → (k : Text) (r : SessionRecord) → get w.service k ≡ some r
      → Inv env provider access u
        × ((r' : SessionRecord) × (get u.service k ≡ some r') × Continues r r')
  Reach-Continues ttl began reach here k r h =
      (Reach-Inv env provider access ttl began reach, (r, h, Continues-refl r))
  Reach-Continues ttl began reach (next more st) k r h =
      let (v, (s, found, c)) = Reach-Continues ttl began reach more k r h in
      let (t, found', c') = Step-Continues st v k s found in
      (Step-Inv env provider access st v, (t, found', Continues-trans c c'))

  -- Where the memo of every new request names no session yet: a session that the server has reached is
  -- never lost, and keeps its request, event and expiry; once it is paid nothing of it changes any
  -- more, its token included.
  pub session-Continues :
      (ttl began : ℕ) (w u : Server)
      → Reach env provider access (start env provider access ttl began) w
      → Reach env provider access w u
      → (k : Text) (r : SessionRecord) → get w.service k ≡ some r
      → (r' : SessionRecord) × (get u.service k ≡ some r') × Continues r r'
  session-Continues ttl began w u reach more k r h = (Reach-Continues ttl began reach more k r h).1
