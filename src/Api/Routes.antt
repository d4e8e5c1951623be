-- ===== src/Api/Routes.antt =====
-- crates/api_server/src/routes and state.rs. A handler takes the service and returns it beside its
-- reply, since what it has changed stays changed when it replies with an error.
pub mod Laws
use lightining_pass.Base.{
  ℕ, ◌*◌, Option, Result, ok, err, ◌>>=◌, map_err, ok_or, unwrap_or, Text, codes,
}
use lightining_pass.Random.{Samples}
use lightining_pass.SharedTypes.{CreatePaymentRequest, PaymentRequest, PaymentStatusResponse}
use lightining_pass.PaymentCore.{PaymentProvider}
use lightining_pass.Qr.{render_png_data_url}
use lightining_pass.Api.Env.{ApiEnv}
use lightining_pass.Api.Sessions.{
  SessionRecord, PaymentService, insert_session, get, to_status_response,
}

pub data StatusCode : Type 0 where
  not_found bad_gateway internal_server_error : StatusCode

pub record CreatePaymentBody : Type 0 where
  pub amount : Option Text
  pub asset : Option Text
  pub event_id : Option Text

pub record CreatePaymentResponse : Type 0 where
  pub session_id : Text
  pub destination : Text
  pub amount : Text
  pub asset : Text
  pub memo : Text
  pub qr_payload : Text
  pub qr_png : Text
  pub request_expires_at : ℕ

abbrev pub request_expiry_secs : ℕ
request_expiry_secs = 15 * 60

unfoldable pub with_defaults : CreatePaymentBody → CreatePaymentRequest
with_defaults body = record {
  amount = unwrap_or body.amount (codes "10");
  asset = unwrap_or body.asset (codes "XLM");
  event_id = unwrap_or body.event_id (codes "demo-event");
}

module _ (env : ApiEnv) {Net : Type 0} (provider : PaymentProvider Net) where
  -- What the handler does behind `insert_session`.
  unfoldable pub respond : SessionRecord → Result CreatePaymentResponse StatusCode
  respond session = do
    let request = session.payment_request
    qr_png ←
        map_err (λ e. internal_server_error) (render_png_data_url env.qr request.qr_payload 320)
    ok (record {
      session_id = request.session_id;
      destination = request.destination;
      amount = request.amount;
      asset = request.asset;
      memo = request.memo;
      qr_payload = request.qr_payload;
      qr_png = qr_png;
      request_expires_at = request.expires_at;
    })

  unfoldable pub accept_request :
      PaymentService
      → Text
      → PaymentRequest
      → ℕ
      → Result CreatePaymentResponse StatusCode × PaymentService
  accept_request service event_id payment_request now =
      let (session, service') =
        insert_session service payment_request request_expiry_secs event_id now in
      (respond session, service')

  unfoldable pub after_provider :
      PaymentService
      → CreatePaymentRequest
      → ℕ
      → Result PaymentRequest Text
      → Result CreatePaymentResponse StatusCode × PaymentService
  unfolding accept_request
  after_provider service request now (ok payment_request) =
      accept_request service request.event_id payment_request now
  after_provider service request now (err e) = (err bad_gateway, service)

  unfoldable pub create_payment_request :
      PaymentService
      → CreatePaymentBody
      → Samples
      → ℕ
      → Result CreatePaymentResponse StatusCode × PaymentService
  unfolding after_provider
  create_payment_request service body rng now =
      let request = with_defaults body in
      after_provider service request now (provider.create_payment_request rng request)

module _ (env : ApiEnv) where
  unfoldable pub get_payment_status :
      PaymentService → Text → ℕ → Result (PaymentStatusResponse env.Value) StatusCode
  get_payment_status service session_id now = do
    session ← ok_or not_found (get service session_id)
    ok (to_status_response env session now)

  unfoldable pub get_access_token :
      PaymentService → Text → ℕ → Result (PaymentStatusResponse env.Value) StatusCode
  get_access_token service session_id now = do
    session ← ok_or not_found (get service session_id)
    ok (to_status_response env session now)
