-- ===== src/Gate/Late.antt =====
-- A token's lifetime is counted from the request of the payment, not from its confirmation.
mod Tests
use lightining_pass.Base.{ℕ, ◌+◌, ◌≡◌, refl, none, []}
use mathlib.Core.Option
use lightining_pass.Random.{Samples}
use lightining_pass.Stellar.Provider.{StellarProvider, generate_memo}
use lightining_pass.Api.Env.{ApiEnv}
use lightining_pass.Api.Sessions.{get}
use lightining_pass.Api.Access.{AccessService}
use lightining_pass.Api.Routes.{CreatePaymentBody}
use lightining_pass.Api.System.{Server, request, requests, passes, Reach, next}

-- The server `secs` after a request.
abbrev pub after_request :
    (env : ApiEnv)
    → StellarProvider
    → AccessService env
    → CreatePaymentBody
    → Samples
    → ℕ
    → Server
    → Server
after_request env provider access body rng secs w =
    record (request env provider access body rng w) { now = w.now + secs }

module _ (env : ApiEnv) (provider : StellarProvider) (access : AccessService env) where
  pub after_request-Reach :
      (start w : Server)
      → Reach env provider access start w
      → (body : CreatePaymentBody) (rng : Samples) → get w.service (generate_memo rng) ≡ none
      → (secs : ℕ)
      → Reach env provider access start (after_request env provider access body rng secs w)
  unfolding request
  after_request-Reach start w reach body rng fresh secs =
      next (next reach (requests body rng fresh)) (passes secs)

  pub after_request-queue :
      (body : CreatePaymentBody) (rng : Samples) (secs : ℕ) (w : Server)
      → w.queue ≡ []
      → (after_request env provider access body rng secs w).queue ≡ []
  unfolding request
  after_request-queue body rng secs w over = over
