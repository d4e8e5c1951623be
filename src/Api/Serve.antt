-- ===== src/Api/Serve.antt =====
-- crates/api_server/src/state.rs, and the three routes that crates/api_server/src/main.rs gives to its
-- router. A request is taken as brought to its route.
pub mod Laws
use lightining_pass.Base.{ℕ, Result, map_ok, Text}
use lightining_pass.Random.{Samples}
use lightining_pass.SharedTypes.{PaymentStatusResponse}
use lightining_pass.PaymentCore.{PaymentProvider}
use lightining_pass.Api.Env.{ApiEnv}
use lightining_pass.Api.Sessions.{PaymentService}
use lightining_pass.Api.Access.{AccessService}
use lightining_pass.Api.Routes.{
  StatusCode, CreatePaymentBody, CreatePaymentResponse, create_payment_request, get_payment_status,
  get_access_token,
}

pub data ApiCall : Type 0 where
  post_payment_request : CreatePaymentBody → ApiCall
  get_status : (session_id : Text) → ApiCall
  get_token : (session_id : Text) → ApiCall

module _ (env : ApiEnv) where
  pub data ApiReply : Type 0 where
    request_reply : CreatePaymentResponse → ApiReply
    status_reply : PaymentStatusResponse env.Value → ApiReply

module _ (env : ApiEnv) (Net : Type 0) where
  pub record AppState : Type 0 where
    pub payment_service : PaymentService
    pub access_service : AccessService env
    pub payment_provider : PaymentProvider Net

  -- The reply, or the status code of an error, and the payment service after it.
  unfoldable pub serve :
      AppState → ApiCall → Samples → (now : ℕ) → Result (ApiReply env) StatusCode × PaymentService
  serve state (post_payment_request body) rng now =
      let (r, after) =
        create_payment_request env state.payment_provider state.payment_service body rng now in
      (map_ok request_reply r, after)
  serve state (get_status session_id) rng now = (
    map_ok status_reply (get_payment_status env state.payment_service session_id now),
    state.payment_service,
  )
  serve state (get_token session_id) rng now = (
    map_ok status_reply (get_access_token env state.payment_service session_id now),
    state.payment_service,
  )
