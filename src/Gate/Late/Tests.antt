-- ===== src/Gate/Late/Tests.antt =====
-- A payment that comes after its token's lifetime, in a concrete environment.
use lightining_pass.Base.{ℕ}
use lightining_pass.Random.{Samples}
use lightining_pass.Stellar.Client.{Horizon}
use lightining_pass.Stellar.Provider.{stellar_provider}
use lightining_pass.Stellar.Tests.{test_provider, test_horizon}
use lightining_pass.Api.Sessions.{PaymentService}
use lightining_pass.Api.Watcher.{watch_round}
use lightining_pass.Api.System.{Server}
use lightining_pass.Api.System.Tests.{w0, w1}
use lightining_pass.Api.Tests.{api, access, rng, body, memo}
use lightining_pass.Gate.Late.{after_request}

abbrev replies : ℕ → Horizon × Samples
replies i = (test_horizon memo, rng)

-- The request was made at 1000, with a lifetime of 300.
abbrev late_server : Server
late_server = after_request api test_provider access body rng 600 w0

abbrev after_round : PaymentService
after_round = watch_round api (stellar_provider test_provider) access replies 1600 w1.service
