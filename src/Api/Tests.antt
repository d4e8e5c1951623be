-- ===== src/Api/Tests.antt =====
-- The sessions, the routes and the configuration of the payment server on concrete input.
use lightining_pass.Base.{◌≡◌, ◌↔◌, none, some, ok, err, [], Text, codes}
use lightining_pass.Random.{Samples, random_text}
use lightining_pass.SharedTypes.{PaymentRequest}
use lightining_pass.Qr.{demo_qr}
use lightining_pass.Token.Demo.{demo}
use lightining_pass.Token.Tests.{test_key}
use lightining_pass.Stellar.Provider.{stellar_provider}
use lightining_pass.Stellar.Tests.{test_provider}
use lightining_pass.Api.Env.{ApiEnv}
use lightining_pass.Api.Sessions.{
  SessionRecord, PaymentService, new_service, new_session, insert_session,
}
use lightining_pass.Api.Access.{AccessService}
use lightining_pass.Stellar.Client.{Horizon}
use lightining_pass.Api.Serve.{AppState, get_token, serve}
use lightining_pass.Api.Serve.Laws.{Refused, serve-Refused_iff}
use lightining_pass.Api.Routes.{
  CreatePaymentBody, accept_request, after_provider, not_found, request_expiry_secs, with_defaults,
  get_payment_status, get_access_token,
}
use lightining_pass.Api.Routes
use lightining_pass.Api.Routes.Laws.{Created, create_payment_request-Created}

abbrev pub api : ApiEnv
api = record {
  tokens = demo;
  qr = demo_qr;
  Value = Text;
  value_from_str = λ t. ok t;
  value_string = λ t. t;
}

abbrev pub access : AccessService api
access = record { signing_key = test_key }

abbrev pub rng : Samples
rng i = b'a'

abbrev pub body : CreatePaymentBody
body = record { amount = some (codes "10"); asset = none; event_id = none }

abbrev pub memo : Text
memo = random_text 12 rng

abbrev pub asked_for : PaymentRequest
asked_for = record {
  session_id = memo;
  destination = codes "GD";
  amount = codes "10";
  asset = codes "xlm";
  memo = memo;
  qr_payload = [];
  expires_at = 0;
}

-- A service with one session in it, asked for at 1000.
abbrev pub empty_service : PaymentService
empty_service = new_service 300

abbrev pub session : SessionRecord
session = new_session empty_service asked_for 900 (codes "fair") 1000

abbrev pub service : PaymentService
service = (insert_session empty_service asked_for 900 (codes "fair") 1000).1

create_payment_request-Created_example :
    Created api
      (stellar_provider test_provider)
      empty_service
      body
      rng
      1000
      (Routes.create_payment_request api
        (stellar_provider test_provider)
        empty_service
        body
        rng
        1000).0
      (Routes.create_payment_request api
        (stellar_provider test_provider)
        empty_service
        body
        rng
        1000).1
create_payment_request-Created_example =
    create_payment_request-Created api (stellar_provider test_provider) empty_service body rng 1000

abbrev state : AppState api Horizon
state = record {
  payment_service = empty_service;
  access_service = access;
  payment_provider = stellar_provider test_provider;
}

serve-Refused_iff_example :
    ((serve api Horizon state (get_token (codes "i")) rng 1000).0 ≡ err not_found)
    ↔ Refused api Horizon state rng (get_token (codes "i")) not_found
serve-Refused_iff_example =
    serve-Refused_iff api Horizon state (get_token (codes "i")) rng 1000 not_found
