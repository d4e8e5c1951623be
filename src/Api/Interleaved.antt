-- ===== src/Api/Interleaved.antt =====
-- crates/api_server/src/services/watcher_service.rs, with the visit of a session in two steps: the
-- watcher waits for Horizon, while requests come in and time passes, and then writes to the service
-- that it finds.
mod Tests
use lightining_pass.Base.{
  ℕ, ◌+◌, ◌≡◌, refl, sym, subst, ◌∙◌, ◌≢◌, arith, Option, none, some, Result, List, [], ◌∷◌, ◌++◌,
  Text,
}
use mathlib.Core.Option
use lightining_pass.Random.{Samples}
use lightining_pass.SharedTypes.{PaymentEvent}
use lightining_pass.Stellar.Client.{Horizon}
use lightining_pass.Stellar.Provider.{
  StellarProvider, generate_memo, stellar_provider, find_confirmed_payment,
}
use lightining_pass.Api.Env.{ApiEnv}
use lightining_pass.Api.Sessions.{SessionRecord, get}
use lightining_pass.Api.Access.{AccessService}
use lightining_pass.Api.Watcher.{after_lookup, watch_session}
use lightining_pass.Api.Routes.{CreatePaymentBody}
use lightining_pass.Api.System.{Server, start, request, poll, visit, answered, Reach}
use lightining_pass.Api.System

-- What the watcher has in hand for a session, once Horizon has answered.
pub record Asked : Type 0 where
  pub session : SessionRecord
  pub rest : List SessionRecord
  pub horizon : Horizon
  pub rng : Samples
  pub lookup : Result (Option PaymentEvent) Text

pub record Running : Type 0 where
  pub server : Server
  pub asked : Option Asked

module _ (env : ApiEnv) (provider : StellarProvider) (access : AccessService env) where
  -- `find_confirmed_payment(..).await`, with the arguments that the watcher gives.
  unfoldable pub ask : Horizon → Samples → SessionRecord → List SessionRecord → Asked
  ask horizon rng session rest = record {
    session = session;
    rest = rest;
    horizon = horizon;
    rng = rng;
    lookup =
        find_confirmed_payment provider horizon session.payment_request.destination
          session.payment_request.memo session.payment_request.amount session.payment_request.asset;
  }

  -- What the watcher does with the answer, on the service as it then is.
  unfoldable pub mark : Asked → Server → Server
  mark asked w = record w {
    service =
        after_lookup env (stellar_provider provider) access w.service asked.session asked.rng
          asked.lookup;
    queue = asked.rest;
    seen =
        w.seen
        ++ answered env provider access asked.horizon asked.session.payment_request.destination;
  }

  pub data Step (x : Running) : Running → Type 0 where
    requests :
        (body : CreatePaymentBody) (rng : Samples)
        → get x.server.service (generate_memo rng) ≡ none
        → Step x (record x { server = request env provider access body rng x.server })
    passes :
        (secs : ℕ) → Step x (record x { server = record x.server { now = x.server.now + secs } })
    polls :
        x.asked ≡ none
        → x.server.queue ≡ []
        → Step x (record x { server = poll env provider access x.server })
    asks :
        (horizon : Horizon) (rng : Samples) (session : SessionRecord) (rest : List SessionRecord)
        → x.asked ≡ none
        → x.server.queue ≡ session ∷ rest
        → Step x (record x { asked = some (ask horizon rng session rest) })
    marks :
        (asked : Asked)
        → x.asked ≡ some asked
        → Step x (record { server = mark asked x.server; asked = none })

  pub data Runs (x : Running) : Running → Type 0 where
    here : Runs x x
    next : {y z : Running} → Runs x y → Step y z → Runs x z

  unfoldable pub begin : ℕ → ℕ → Running
  begin ttl now = record { server = start env provider access ttl now; asked = none }

  -- What the watcher has in hand is about the head of the queue.
  pub record IsHead (w : Server) (a : Asked) : Type 0 where
    pub queued : w.queue ≡ a.session ∷ a.rest
    pub found :
        a.lookup
        ≡ find_confirmed_payment provider a.horizon a.session.payment_request.destination
            a.session.payment_request.memo a.session.payment_request.amount
            a.session.payment_request.asset

  -- A write on the service as it is then is a whole visit at that time.
  mark-visit :
      (a : Asked) (w : Server)
      → IsHead w a
      → visit env provider access a.horizon a.rng a.session a.rest w ≡ mark a w
  unfolding visit mark watch_session
  mark-visit a w h = rw h.found refl

  Held : Running → Type 0
  Held x = (a : Asked) → x.asked ≡ some a → IsHead x.server a

  request-queue :
      (body : CreatePaymentBody) (rng : Samples) (w : Server)
      → (request env provider access body rng w).queue ≡ w.queue
  unfolding request
  request-queue body rng w = refl

  ask-IsHead :
      (horizon : Horizon) (rng : Samples) (session : SessionRecord) (rest : List SessionRecord)
      (w : Server)
      → w.queue ≡ session ∷ rest
      → IsHead w (ask horizon rng session rest)
  unfolding ask
  ask-IsHead horizon rng session rest w e = record { queued = e; found = refl }

  none_asked : (a : Asked) → ◌≢◌ {A = Option Asked} none (some a)
  none_asked a h = ground arith

  Step-Held : (x y : Running) → Step x y → Held x → Held y
  unfolding Held
  Step-Held x _ (requests body rng fresh) held = λ a e.
      let h = held a e in
      record { queued = request-queue body rng x.server ∙ h.queued; found = h.found }
  Step-Held x _ (passes secs) held =
      λ a e. let h = held a e in record { queued = h.queued; found = h.found }
  Step-Held x _ (polls idle over) held = λ a e. absurd (none_asked a (sym idle ∙ e))
  Step-Held x _ (asks horizon rng session rest idle e) held = λ a e'.
      subst (IsHead x.server) (Option.some-injective _ a e')
        (ask-IsHead horizon rng session rest x.server e)
  Step-Held x _ (marks asked e) held = λ a e'. absurd (none_asked a e')

  begin-Held : (ttl now : ℕ) → Held (begin ttl now)
  unfolding Held begin
  begin-Held ttl now a e = absurd (none_asked a e)

  Runs-Held : (ttl now : ℕ) (y : Running) → Runs (begin ttl now) y → Held y
  Runs-Held ttl now _ here = begin-Held ttl now
  Runs-Held ttl now _ (next {y} {z} r st) = Step-Held y z st (Runs-Held ttl now y r)

  Step-Reach :
      (w : Server) (x y : Running)
      → Step x y
      → Held x
      → Reach env provider access w x.server
      → Reach env provider access w y.server
  unfolding Held
  Step-Reach w x _ (requests body rng fresh) held r = System.next r (System.requests body rng fresh)
  Step-Reach w x _ (passes secs) held r = System.next r (System.passes secs)
  Step-Reach w x _ (polls idle over) held r = System.next r (System.polls over)
  Step-Reach w x _ (asks horizon rng session rest idle e) held r = r
  Step-Reach w x _ (marks asked e) held r =
      let head = held asked e in
      subst (Reach env provider access w) (mark-visit asked x.server head)
        (System.next r (System.visits asked.horizon asked.rng asked.session asked.rest head.queued))

  begin-Reach :
      (ttl now : ℕ)
      → Reach env provider access (start env provider access ttl now) (begin ttl now).server
  unfolding begin
  begin-Reach ttl now = System.here

  -- Requests whose memos are fresh may come in, and time may pass, between Horizon's answer and the
  -- watcher's write: at every moment the server is one that whole visits, one after the other, reach.
  pub Runs-Reach :
      (ttl now : ℕ) (y : Running)
      → Runs (begin ttl now) y
      → Reach env provider access (start env provider access ttl now) y.server
  Runs-Reach ttl now _ here = begin-Reach ttl now
  Runs-Reach ttl now _ (next {y} {z} r st) =
      Step-Reach (start env provider access ttl now) y z st (Runs-Held ttl now y r)
        (Runs-Reach ttl now y r)
