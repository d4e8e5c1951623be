-- ===== src/Api/System/Tests.antt =====
-- One session of the payment server, from its request to its pass.
use lightining_pass.Base.{
  ℕ, ◌≡◌, refl, arith, true, some, ok, [], ◌∷◌, Text, codes, if◌then◌else◌, leb, text_eq,
}
use mathlib.Core.List.{Memᴰ}
use lightining_pass.Base.Dict
use lightining_pass.Base.Dict.{get-insert_self, get-empty}
use lightining_pass.Random.{random_text}
use lightining_pass.SharedTypes.{PaymentRequest, PaymentEvent}
use lightining_pass.Qr.{render_ascii_qr, render_png_data_url}
use lightining_pass.Token.Types.{valid, invalid}
use lightining_pass.Token.Sign.{sign_token, signed_token_to_json}
use lightining_pass.Token.Verify.{verify_token_string}
use lightining_pass.Token.Demo.{demo}
use lightining_pass.Token.Tests.{test_key}
use lightining_pass.Stellar.Provider.{
  stellar_provider, generate_memo, create_payment_request, payment_uri,
}
use lightining_pass.Stellar.Tests.{
  test_provider, test_record, test_response, test_horizon, test-Confirms_native, test_asked,
}
use lightining_pass.Api.Sessions.{
  AccessArtifact, SessionRecord, new_service, new_session, insert_session, get, is_pending,
  pending_sessions, status_of,
}
use lightining_pass.Api.Sessions.Laws.{get-new_service}
use lightining_pass.Api.Access.{issue_token}
use lightining_pass.Api.Routes.{
  CreatePaymentBody, accept_request, after_provider, not_found, request_expiry_secs, with_defaults,
  get_payment_status, get_access_token,
}
use lightining_pass.Api.Routes
use lightining_pass.Api.Watcher.{watch_session}
use lightining_pass.Api.System.{
  Server, start, request, poll, visit, requests, polls, visits, Reach, here, next,
}
use lightining_pass.Api.System.Invariant.{IsBacked, id_of}
use lightining_pass.Api.System.Claims.{
  access_token-IsBacked, status_of_reachable, Continues, session-Continues,
}
use lightining_pass.Api.System.Progress.{visit_settles}
use lightining_pass.Api.System.Drains.{pending_sessions_drained}
use lightining_pass.Api.Tests.{api, access, rng, body, memo}

-- A run of the server: a request at 1000, a round of the watcher, and a visit of the session, for which
-- Horizon answers a payment.
abbrev pub w0 : Server
w0 = start api test_provider access 300 1000

abbrev pub w1 : Server
w1 = request api test_provider access body rng w0

abbrev pub w2 : Server
w2 = poll api test_provider access w1

abbrev requested : PaymentRequest
requested = record {
  session_id = memo;
  destination = codes "GD";
  amount = codes "10";
  asset = codes "XLM";
  memo = memo;
  qr_payload = payment_uri test_provider (codes "10") memo;
  expires_at = 0;
}

abbrev pub run_session : SessionRecord
run_session = new_session w0.service requested 900 (codes "demo-event") 1000

abbrev pub w3 : Server
w3 = visit api test_provider access (test_horizon memo) rng run_session [] w2

pub queued : w2.queue ≡ run_session ∷ []
unfolding poll request start pending_sessions is_pending insert_session new_session new_service
    accept_request after_provider with_defaults create_payment_request Routes.create_payment_request
    generate_memo random_text Dict.insert Dict.get Dict.empty Dict.values Dict.put Dict.lookup
    Dict.without text_eq get
queued = refl

run_stored : get w2.service memo ≡ some run_session
unfolding poll request start pending_sessions is_pending insert_session new_session new_service
    accept_request after_provider with_defaults create_payment_request Routes.create_payment_request
    generate_memo random_text Dict.insert Dict.get Dict.empty Dict.values Dict.put Dict.lookup
    Dict.without text_eq get
run_stored = refl

pub Reach-1 : Reach api test_provider access w0 w1
unfolding start new_service generate_memo random_text
Reach-1 = next here (requests body rng (get-new_service 300 memo))

Reach-2 : Reach api test_provider access w1 w3
unfolding request start
Reach-2 = next (next here (polls refl)) (visits (test_horizon memo) rng run_session [] queued)

pub issued_run :
    (event : PaymentEvent)
    → (a : AccessArtifact) × (issue_token api access event run_session.event_id
          run_session.expires_at rng
        ≡ ok a)
unfolding issue_token sign_token signed_token_to_json render_png_data_url render_ascii_qr
issued_run event = (_, refl)

pub Reach-all : Reach api test_provider access w0 w3
unfolding request start
Reach-all = next (next Reach-1 (polls refl)) (visits (test_horizon memo) rng run_session [] queued)

pub settled_at_visit :
    (r : SessionRecord) × (get
        (watch_session api
          (stellar_provider test_provider)
          access
          (test_horizon memo)
          rng
          run_session
          w2.service)
        (id_of run_session)
      ≡ some r)
    × (r.paid ≡ true)
    × ((text : Text) × (r.access_token ≡ some text))
unfolding new_session
settled_at_visit =
    visit_settles api test_provider access (test_horizon memo) rng run_session w2.service
      (test_response memo) (test_record memo) run_stored (test_asked memo) (Memᴰ.head refl)
      (test-Confirms_native memo) issued_run

pub settled_in_w3 : get w3.service memo ≡ some settled_at_visit.0
unfolding visit new_session
settled_in_w3 = settled_at_visit.1

access_token-IsBacked_example :
    IsBacked api test_provider access w3.seen settled_at_visit.0
    × ((now : ℕ)
        → verify_token_string demo (settled_at_visit.3.0) test_key now
          ≡ (if leb (settled_at_visit.0).expires_at now then invalid else valid))
access_token-IsBacked_example =
    access_token-IsBacked api test_provider access 300 1000 w3 (Reach-all) memo (settled_at_visit.0)
      (settled_at_visit.3.0) settled_in_w3 (settled_at_visit.3.1)

status_of_reachable_example : status_of settled_at_visit.0 5000 ≡ (
    if (settled_at_visit.0).paid
    then codes "confirmed"
    else if leb (settled_at_visit.0).payment_request.expires_at 5000
    then codes "expired"
    else codes "waiting")
status_of_reachable_example =
    status_of_reachable api test_provider access 300 1000 w3 Reach-all memo (settled_at_visit.0)
      5000 settled_in_w3

pub stored_in_w1 : get w1.service memo ≡ some run_session
unfolding poll
stored_in_w1 = run_stored

session-Continues_example :
    (r' : SessionRecord) × (get w3.service memo ≡ some r')
    × Continues api test_provider access run_session r'
session-Continues_example =
    session-Continues api test_provider access 300 1000 w1 w3 Reach-1 Reach-2 memo run_session
      stored_in_w1

pub no_queue : w1.queue ≡ []
unfolding request start
no_queue = refl

-- The session of the request at 1000 is open until 1900.
pending_sessions_drained_example : pending_sessions w1.service 1900 ≡ []
unfolding request start
pending_sessions_drained_example =
    pending_sessions_drained api test_provider access 300 1000 w1 Reach-1 1900 (omega arith)
