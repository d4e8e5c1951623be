-- ===== src/Gate/Admits.antt =====
-- Who pays is let in: from a payment on Horizon, or one that the Lightning SDK reports, to the
-- verifier's answer.
use lightining_pass.Base.{
  ℕ, ◌<◌, ◌≡◌, sym, ap, subst, ◌∙◌, arith, true, false, some, ok, [], Text, codes, inl, inr, leb,
  if◌then◌else◌,
}
use mathlib.Core.Option
use lightining_pass.Random.{Samples}
use lightining_pass.Stellar.Client.{Horizon}
use lightining_pass.Stellar.Provider.{StellarProvider, stellar_provider}
use lightining_pass.Api.Env.{ApiEnv}
use lightining_pass.Api.Config.{Vars}
use lightining_pass.Api.Sessions.{PaymentService, SessionRecord, get}
use lightining_pass.Api.Access.{AccessService}
use lightining_pass.Api.Watcher.{watch_round}
use lightining_pass.Api.Boot.{Booted, boot}
use lightining_pass.Api.Boot.Laws.{boot-IsBooted, IsBooted-start}
use lightining_pass.Api.System.{Server, start, Reach, here, next}
use lightining_pass.Api.System.Invariant.{IsStored}
use lightining_pass.Api.System.Preserved.{Reach-Inv}
use lightining_pass.Api.System.Claims.{session-Continues}
use lightining_pass.Api.System.Progress.{watch_round-Reach}
use lightining_pass.Api.System.Rounds.{Pays, Issues, IsPaid, watch_round_settles}
use lightining_pass.Verifier.{VerifierEnv, Args, main}
use lightining_pass.Gate.{gate, Reads, paid_session-main}

module _ (env : ApiEnv) (provider : StellarProvider) (access : AccessService env) where
  Reach-trans :
      (u v w : Server)
      → Reach env provider access u v
      → Reach env provider access v w
      → Reach env provider access u w
  Reach-trans u v _ r here = r
  Reach-trans u v _ r (next {v = m} {u = w} more st) = next (Reach-trans u v m r more) st

  token_of_paid :
      (seen : _) (k : Text) (r : SessionRecord)
      → IsStored env provider access seen k r
      → r.paid ≡ true
      → (text : Text) × (r.access_token ≡ some text)
  token_of_paid seen k r s paid = elim s.state [
    | inl b ↦ absurd (ground (arith, b.unpaid))
    | inr b ↦ (b.text, b.token)
  ]

  -- After a round that settles it, a session has a token, and the expiry that it had.
  pub settled_session :
      (ttl began : ℕ) (w : Server)
      → Reach env provider access (start env provider access ttl began) w
      → w.queue ≡ []
      → (k : Text) (r : SessionRecord) → get w.service k ≡ some r
      → (replies : ℕ → Horizon × Samples)
      → IsPaid env provider access
          (watch_round env (stellar_provider provider) access replies w.now w.service)
          k
      → (u : Server) × (r' : SessionRecord) × (text : Text) × Reach env provider access w u
        × (u.service ≡ watch_round env (stellar_provider provider) access replies w.now w.service)
        × (get u.service k ≡ some r')
        × (r'.access_token ≡ some text)
        × (r'.expires_at ≡ r.expires_at)
  settled_session ttl began w reach over k r stored replies (p, stored_p, paid) =
      let (u, more, same, over', now') = watch_round-Reach env provider access replies w over in
      let (r', stored', c) =
        session-Continues env provider access ttl began w u reach more k r stored in
      let is_p : p ≡ r' =
        Option.some-injective p r' (sym stored_p ∙ ap (λ s. get s k) (sym same) ∙ stored') in
      let (text, shown) =
        token_of_paid u.seen k r'
          ((Reach-Inv env provider access ttl began
              (Reach-trans (start env provider access ttl began) w u reach more)).sessions
            k r' stored')
          (subst (λ x. x.paid ≡ true) is_p paid) in
      (u, r', text, more, same, stored', shown, c.same_expiry)

-- The pass that the payment server shows for a session.
abbrev pub Shows : PaymentService → (k text : Text) → Type 0
Shows service k text = (r : SessionRecord) × (get service k ≡ some r) × (r.access_token ≡ some text)

pub Shows-unique :
    (service : PaymentService) (k t t' : Text) → Shows service k t → Shows service k t' → t ≡ t'
Shows-unique service k t t' (r, stored, shown) (r', stored', shown') =
    let same = Option.some-injective r r' (sym stored ∙ stored') in
    Option.some-injective t t' (sym shown ∙ ap (λ x. x.access_token) same ∙ shown')

open_gate :
    (expires_at now : ℕ) (printed : Text × ℕ)
    → printed ≡ (if leb expires_at now then (codes "INVALID", 1) else (codes "VALID", 0))
    → now < expires_at
    → printed ≡ (codes "VALID", 0)
open_gate expires_at now printed h early = ground arith

-- The pass of a session that a round settles, at the gate.
pub payer-pass :
    (reader : VerifierEnv) (env : ApiEnv) (var : Vars) (generated : env.SigningKey) (began : ℕ)
    → (b : Booted env) → boot env var generated began ≡ ok b
    → (w : Server) → Reach env b.payment_provider b.access_service b.server w
    → w.queue ≡ []
    → (k : Text) (r : SessionRecord) → get w.service k ≡ some r
    → r.paid ≡ false
    → w.now < r.payment_request.expires_at
    → (replies : ℕ → Horizon × Samples)
    → ((i : ℕ) → Pays env b.payment_provider b.access_service (replies i).0 r)
    → ((i : ℕ) → Issues env b.payment_provider b.access_service (replies i).1 r)
    → (args : Args) (now later : ℕ)
    → ((text : Text)
        → Shows
            (watch_round env
              (stellar_provider b.payment_provider)
              b.access_service
              replies
              w.now
              w.service)
            k
            text
        → Reads (gate env.tokens reader) args (env.verifying_key b.access_service.signing_key) text)
    → ((text : Text) × Shows
          (watch_round env
            (stellar_provider b.payment_provider)
            b.access_service
            replies
            w.now
            w.service)
          k
          text)
      × (main (gate env.tokens reader) args now later
          ≡ (if leb r.expires_at now then (codes "INVALID", 1) else (codes "VALID", 0)))
payer-pass reader env var generated began b booted w reach over k r stored unpaid open_ replies pays
      issues args now later reads =
    let provider = b.payment_provider in
    let access = b.access_service in
    let ttl = b.server.service.token_ttl_secs in
    let fresh =
      IsBooted-start env var generated began b (boot-IsBooted env var generated began b booted) in
    let from_start = subst (λ s. Reach env provider access s w) fresh reach in
    let after =
      watch_round_settles env provider access ttl began w from_start over k r stored unpaid open_
        replies pays issues in
    let (u, r', text, more, same, stored', shown, expiry) =
      settled_session env provider access ttl began w from_start over k r stored replies after in
    let shows : Shows (watch_round env (stellar_provider provider) access replies w.now w.service) k
        text =
      (r', ap (λ s. get s k) (sym same) ∙ stored', shown) in
    (
      (text, shows),
      subst
          (λ t.
            main (gate env.tokens reader) args now later
            ≡ (if leb t now then (codes "INVALID", 1) else (codes "VALID", 0)))
          expiry
          (paid_session-main reader env var generated began b booted u
            (Reach-trans env provider access b.server w u reach more) k r' text stored' shown args
            now later (reads text shows)).1,
    )

-- In a booted payment server, whose new memos are fresh, between two rounds of the watcher: a stored
-- session that is not paid and whose request is open has a pass after the next round, where each
-- answer of Horizon in it has a record that confirms the request and the issue of the token does not
-- fail. The verifier, given that pass, loading the server's public key and run before the session's
-- `expires_at`, prints VALID.
pub payer_admitted :
    (reader : VerifierEnv) (env : ApiEnv) (var : Vars) (generated : env.SigningKey) (began : ℕ)
    → (b : Booted env) → boot env var generated began ≡ ok b
    → (w : Server) → Reach env b.payment_provider b.access_service b.server w
    → w.queue ≡ []
    → (k : Text) (r : SessionRecord) → get w.service k ≡ some r
    → r.paid ≡ false
    → w.now < r.payment_request.expires_at
    → (replies : ℕ → Horizon × Samples)
    → ((i : ℕ) → Pays env b.payment_provider b.access_service (replies i).0 r)
    → ((i : ℕ) → Issues env b.payment_provider b.access_service (replies i).1 r)
    → (args : Args) (now later : ℕ)
    → ((text : Text)
        → Shows
            (watch_round env
              (stellar_provider b.payment_provider)
              b.access_service
              replies
              w.now
              w.service)
            k
            text
        → Reads (gate env.tokens reader) args (env.verifying_key b.access_service.signing_key) text)
    → now < r.expires_at
    → ((text : Text) × Shows
          (watch_round env
            (stellar_provider b.payment_provider)
            b.access_service
            replies
            w.now
            w.service)
          k
          text)
      × (main (gate env.tokens reader) args now later ≡ (codes "VALID", 0))
payer_admitted reader env var generated began b booted w reach over k r stored unpaid open_ replies
      pays issues args now later reads early =
    let (pass, printed) =
      payer-pass reader env var generated began b booted w reach over k r stored unpaid open_
        replies pays issues args now later reads in
    (pass, open_gate r.expires_at now (main (gate env.tokens reader) args now later) printed early)
