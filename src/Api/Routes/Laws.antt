-- ===== src/Api/Routes/Laws.antt =====
-- What the routes reply, and what they leave in the service.
use lightining_pass.Base.{
  ℕ, ◌≡◌, ◌⊎◌, inl, inr, some, Result, ok, err, Text, text_eq, if◌then◌else◌, Result-cases,
}
use lightining_pass.Random.{Samples}
use lightining_pass.SharedTypes.{PaymentRequest}
use lightining_pass.PaymentCore.{PaymentProvider}
use lightining_pass.Qr.{render_png_data_url}
use lightining_pass.Api.Env.{ApiEnv}
use lightining_pass.Api.Sessions.{SessionRecord, PaymentService, new_session, insert_session, get}
use lightining_pass.Api.Sessions.Laws.{get-insert_session}
use lightining_pass.Api.Routes.{
  StatusCode, bad_gateway, internal_server_error, CreatePaymentBody, CreatePaymentResponse,
  request_expiry_secs, with_defaults, respond, accept_request, create_payment_request,
}

-- The session that is stored for a provider's request.
abbrev pub made : PaymentService → CreatePaymentBody → PaymentRequest → ℕ → SessionRecord
made service body r now =
    new_session service r request_expiry_secs (with_defaults body).event_id now

module _ (env : ApiEnv) {Net : Type 0} (provider : PaymentProvider Net) where
  drawn :
      (service : PaymentService) (body : CreatePaymentBody) (r : PaymentRequest) (now : ℕ)
      → ((png : Text) × (render_png_data_url env.qr r.qr_payload 320 ≡ ok png)
          × (respond env provider (made service body r now)
              ≡ ok (record {
                session_id = r.session_id;
                destination = r.destination;
                amount = r.amount;
                asset = r.asset;
                memo = r.memo;
                qr_payload = r.qr_payload;
                qr_png = png;
                request_expires_at = (made service body r now).payment_request.expires_at;
              })))
        ⊎ ((e : Text) × (render_png_data_url env.qr r.qr_payload 320 ≡ err e)
            × (respond env provider (made service body r now) ≡ err internal_server_error))
  unfolding respond new_session
  drawn service body r now = elim (Result-cases (render_png_data_url env.qr r.qr_payload 320)) [
    | inl (png, e) ↦ inl (png, e, rw e)
    | inr (m, e) ↦ inr (m, e, rw e)
  ]

  -- The reply and the sessions after a request, on every branch.
  pub data Created (service : PaymentService) (body : CreatePaymentBody) (rng : Samples) (now : ℕ)
      (reply : Result CreatePaymentResponse StatusCode) (after : PaymentService) : Type 0 where
    refused :
        (e : Text)
        → provider.create_payment_request rng (with_defaults body) ≡ err e
        → reply ≡ err bad_gateway
        → after ≡ service
        → Created service body rng now reply after
    stored :
        (r : PaymentRequest)
        → provider.create_payment_request rng (with_defaults body) ≡ ok r
        → ((k : Text)
            → get after k
              ≡ (if text_eq r.session_id k then some (made service body r now) else get service k))
        → ((png : Text) × (render_png_data_url env.qr r.qr_payload 320 ≡ ok png)
            × (reply
                ≡ ok (record {
                  session_id = r.session_id;
                  destination = r.destination;
                  amount = r.amount;
                  asset = r.asset;
                  memo = r.memo;
                  qr_payload = r.qr_payload;
                  qr_png = png;
                  request_expires_at = (made service body r now).payment_request.expires_at;
                })))
          ⊎ ((e : Text) × (render_png_data_url env.qr r.qr_payload 320 ≡ err e)
              × (reply ≡ err internal_server_error))
        → Created service body rng now reply after

  -- A request for a payment is refused with 502 and changes nothing where the provider fails. Else
  -- its session is stored, and the reply describes it; where its QR image cannot be drawn the reply
  -- is 500, and the session is stored all the same.
  pub create_payment_request-Created :
      (service : PaymentService) (body : CreatePaymentBody) (rng : Samples) (now : ℕ)
      → Created service body rng now
          (create_payment_request env provider service body rng now).0
          (create_payment_request env provider service body rng now).1
  unfolding create_payment_request accept_request insert_session
  create_payment_request-Created service body rng now =
      elim (Result-cases (provider.create_payment_request rng (with_defaults body))) [
        | inl (r, e) ↦
            stored r e (λ k. rw e (get-insert_session service r request_expiry_secs _ now k))
              (rw e (drawn service body r now))
        | inr (m, e) ↦ refused m e (rw e) (rw e)
      ]
