-- ===== src/Api/System.antt =====
-- The server as a transition system: requests of buyers, the clock, and the watcher's loop, in any
-- order. crates/api_server/src/main.rs starts the watcher beside the routes, and both share one
-- payment service. The reading routes change nothing and are no steps.
pub mod Invariant
pub mod Visits
pub mod Preserved
pub mod Claims
pub mod Progress
pub mod Drains
pub mod Rounds
pub mod Tests
use lightining_pass.Base.{ℕ, ◌+◌, ◌≡◌, none, ok, err, List, [], ◌∷◌, ◌++◌, Text}
use lightining_pass.Random.{Samples}
use lightining_pass.Stellar.Types.{PaymentRecord}
use lightining_pass.Stellar.Client.{Horizon, payments_for_account}
use lightining_pass.Stellar.Provider.{StellarProvider, generate_memo, stellar_provider}
use lightining_pass.Api.Env.{ApiEnv}
use lightining_pass.Api.Sessions.{SessionRecord, PaymentService, new_service, get, pending_sessions}
use lightining_pass.Api.Access.{AccessService}
use lightining_pass.Api.Watcher.{watch_session}
use lightining_pass.Api.Routes.{CreatePaymentBody, create_payment_request}

-- `queue` holds the sessions that the current round of the watcher has still to visit. `seen` is no
-- part of the program: it records what Horizon has answered so far.
pub record Server : Type 0 where
  pub service : PaymentService
  pub queue : List SessionRecord
  pub now : ℕ
  pub seen : List PaymentRecord

module _ (env : ApiEnv) (provider : StellarProvider) (access : AccessService env) where
  -- The records of Horizon's answer, none where it fails.
  unfoldable pub answered : Horizon → Text → List PaymentRecord
  answered horizon account = elim (payments_for_account provider.client horizon account) [
    | ok response ↦ response.embedded.records
    | err e ↦ []
  ]

  unfoldable pub start : ℕ → ℕ → Server
  start token_ttl_secs now = record {
    service = new_service token_ttl_secs;
    queue = [];
    now = now;
    seen = [];
  }

  -- A request of a buyer. The memo is random: that it names no session yet is assumed.
  unfoldable pub request : CreatePaymentBody → Samples → Server → Server
  request body rng w = record w {
    service = (create_payment_request env (stellar_provider provider) w.service body rng w.now).1;
  }

  unfoldable pub poll : Server → Server
  poll w = record w { queue = pending_sessions w.service w.now }

  unfoldable pub visit : Horizon → Samples → SessionRecord → List SessionRecord → Server → Server
  visit horizon rng session rest w = record w {
    service = watch_session env (stellar_provider provider) access horizon rng session w.service;
    queue = rest;
    seen = w.seen ++ answered horizon session.payment_request.destination;
  }

  pub data Step (w : Server) : Server → Type 0 where
    requests :
        (body : CreatePaymentBody) (rng : Samples)
        → get w.service (generate_memo rng) ≡ none
        → Step w (request body rng w)
    passes : (secs : ℕ) → Step w (record w { now = w.now + secs })
    polls : w.queue ≡ [] → Step w (poll w)
    visits :
        (horizon : Horizon) (rng : Samples) (session : SessionRecord) (rest : List SessionRecord)
        → w.queue ≡ session ∷ rest
        → Step w (visit horizon rng session rest w)

  pub data Reach (w : Server) : Server → Type 0 where
    here : Reach w w
    next : {v u : Server} → Reach w v → Step v u → Reach w u
