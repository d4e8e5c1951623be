-- ===== src/Api/System/Rounds/Tests.antt =====
-- A round of the watcher over one session whose payment Horizon shows.
use lightining_pass.Base.{◌<◌, false, ◌≡◌, refl, arith}
use mathlib.Core.List.{Memᴰ}
use lightining_pass.Stellar.Provider.{stellar_provider}
use lightining_pass.Stellar.Tests.{
  test_provider, test_record, test_response, test_horizon, test-Confirms_native, test_asked,
}
use lightining_pass.Api.Sessions.{new_session}
use lightining_pass.Api.Watcher.{watch_round}
use lightining_pass.Api.System.{start, request}
use lightining_pass.Api.Tests.{api, access, rng, memo}
use lightining_pass.Api.System.Tests.{w1, run_session, Reach-1, no_queue, stored_in_w1, issued_run}
use lightining_pass.Api.System.Rounds.{Pays, IsPaid, watch_round_settles}

pub pays : Pays api test_provider access (test_horizon memo) run_session
unfolding new_session
pays = record {
  response = test_response memo;
  found = test_record memo;
  asked = test_asked memo;
  listed = Memᴰ.head refl;
  confirms = test-Confirms_native memo;
}

pub unpaid : run_session.paid ≡ false
unfolding new_session
unpaid = refl

pub open_session : w1.now < run_session.payment_request.expires_at
unfolding new_session request start
open_session = omega arith

watch_round_settles_example :
    IsPaid api test_provider access
      (watch_round api
        (stellar_provider test_provider)
        access
        (λ i. (test_horizon memo, rng))
        w1.now
        w1.service)
      memo
watch_round_settles_example =
    watch_round_settles api test_provider access 300 1000 w1 Reach-1 no_queue memo run_session
      stored_in_w1 unpaid open_session (λ i. (test_horizon memo, rng)) (λ i. pays) (λ i. issued_run)
