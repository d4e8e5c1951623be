-- ===== src/Api/Interleaved/Tests.antt =====
-- A visit with a request's time between Horizon's answer and the write, in a concrete environment.
use lightining_pass.Base.{◌+◌, refl, none, []}
use lightining_pass.Stellar.Tests.{test_provider, test_horizon}
use lightining_pass.Api.Sessions.Laws.{get-new_service}
use lightining_pass.Api.Sessions.{new_service}
use lightining_pass.Stellar.Provider.{generate_memo}
use lightining_pass.Random.{random_text}
use lightining_pass.Api.System.{Server, start, request, Reach}
use lightining_pass.Api.System.Tests.{w0, w2, run_session, queued}
use lightining_pass.Api.Tests.{api, access, rng, body, memo}
use lightining_pass.Api.Interleaved.{
  Asked, Running, ask, mark, requests, passes, polls, asks, marks, Runs, here, next, begin,
  Runs-Reach,
}

abbrev in_hand : Asked
in_hand = ask api test_provider access (test_horizon memo) rng run_session []

abbrev later : Server
later = record w2 { now = w2.now + 5 }

abbrev marked : Running
marked = record { server = mark api test_provider access in_hand later; asked = none }

marked-Runs : Runs api test_provider access (begin api test_provider access 300 1000) marked
unfolding begin start new_service generate_memo random_text request
marked-Runs =
    next
      (next
        (next (next (next here (requests body rng (get-new_service 300 memo))) (polls refl refl))
          (asks (test_horizon memo) rng run_session [] refl queued))
        (passes 5))
      (marks in_hand refl)

Runs-Reach_example : Reach api test_provider access w0 marked.server
Runs-Reach_example = Runs-Reach api test_provider access 300 1000 marked marked-Runs
