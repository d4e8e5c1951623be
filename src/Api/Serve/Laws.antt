-- ===== src/Api/Serve/Laws.antt =====
-- When a route of the payment server refuses a request.
use lightining_pass.Base.{
  ℕ, ◌≡◌, ◌↔◌, inl, inr, refl, sym, ap, subst, ◌∙◌, arith, none, Result, ok, err, map_ok, err_inj,
  err_ne_ok, ok_inj, Text, Option-cases,
}
use lightining_pass.Random.{Samples}
use lightining_pass.SharedTypes.{PaymentRequest}
use lightining_pass.Qr.{render_png_data_url}
use lightining_pass.Api.Env.{ApiEnv}
use lightining_pass.Api.Sessions.{PaymentService, get}
use lightining_pass.Api.Routes.{
  StatusCode, not_found, bad_gateway, internal_server_error, CreatePaymentBody,
  CreatePaymentResponse, with_defaults, get_payment_status, get_access_token,
}
use lightining_pass.Api.Routes.Laws.{Created, refused, stored, create_payment_request-Created}
use lightining_pass.Api.Serve.{
  ApiCall, post_payment_request, get_status, get_token, AppState, ApiReply, request_reply, serve,
}

module _ (env : ApiEnv) (Net : Type 0) where
  -- Why a request is refused, and with which code.
  pub data Refused (state : AppState env Net) (rng : Samples) : ApiCall → StatusCode → Type 0 where
    provider_failed :
        {body : CreatePaymentBody}
        → (e : Text)
        → state.payment_provider.create_payment_request rng (with_defaults body) ≡ err e
        → Refused state rng (post_payment_request body) bad_gateway
    not_drawn :
        {body : CreatePaymentBody}
        → (r : PaymentRequest) (e : Text)
        → state.payment_provider.create_payment_request rng (with_defaults body) ≡ ok r
        → render_png_data_url env.qr r.qr_payload 320 ≡ err e
        → Refused state rng (post_payment_request body) internal_server_error
    unknown_status :
        {id : Text}
        → get state.payment_service id ≡ none
        → Refused state rng (get_status id) not_found
    unknown_token :
        {id : Text}
        → get state.payment_service id ≡ none
        → Refused state rng (get_token id) not_found

  map_ok-err :
      {A : Type 0}
      → (f : A → ApiReply env) (r : Result A StatusCode) (code : StatusCode) → map_ok f r ≡ err code
      → r ≡ err code
  map_ok-err f (ok a) code h = absurd (ground arith)
  map_ok-err f (err e) code h = ap err (ground arith)

  Created-Refused :
      (state : AppState env Net) (body : CreatePaymentBody) (rng : Samples) (now : ℕ)
      → (reply : Result CreatePaymentResponse StatusCode) (after : PaymentService)
        (code : StatusCode)
      → Created env state.payment_provider state.payment_service body rng now reply after
      → reply ≡ err code
      → Refused state rng (post_payment_request body) code
  Created-Refused state body rng now reply after code (refused e failing is_err same) h =
      subst (Refused state rng (post_payment_request body))
        (err_inj bad_gateway code (sym is_err ∙ h)) (provider_failed e failing)
  Created-Refused state body rng now reply after code (stored r made gets (inl (png, drawn, is_ok)))
        h =
      absurd (err_ne_ok code _ (sym h ∙ is_ok))
  Created-Refused state body rng now reply after code (stored r made gets (inr (e, bad, is_err)))
        h =
      subst (Refused state rng (post_payment_request body))
        (err_inj internal_server_error code (sym is_err ∙ h)) (not_drawn r e made bad)

  failed-Created :
      (state : AppState env Net) (body : CreatePaymentBody) (rng : Samples) (now : ℕ) (e : Text)
      → (reply : Result CreatePaymentResponse StatusCode) (after : PaymentService)
      → Created env state.payment_provider state.payment_service body rng now reply after
      → state.payment_provider.create_payment_request rng (with_defaults body) ≡ err e
      → reply ≡ err bad_gateway
  failed-Created state body rng now e reply after (refused e' failing is_err same) h = is_err
  failed-Created state body rng now e reply after (stored r made gets c) h =
      absurd (err_ne_ok e r (sym h ∙ made))

  not_drawn-Created :
      (state : AppState env Net) (body : CreatePaymentBody) (rng : Samples) (now : ℕ)
      (r : PaymentRequest) (e : Text)
      → (reply : Result CreatePaymentResponse StatusCode) (after : PaymentService)
      → Created env state.payment_provider state.payment_service body rng now reply after
      → state.payment_provider.create_payment_request rng (with_defaults body) ≡ ok r
      → render_png_data_url env.qr r.qr_payload 320 ≡ err e
      → reply ≡ err internal_server_error
  not_drawn-Created state body rng now r e reply after (refused e' failing is_err same) h bad =
      absurd (err_ne_ok e' r (sym failing ∙ h))
  not_drawn-Created state body rng now r e reply after
        (stored r' made gets (inl (png, drawn, is_ok))) h bad =
      absurd (
        err_ne_ok e png (
          sym (
            subst (λ x. render_png_data_url env.qr x.qr_payload 320 ≡ err e)
              (ok_inj r r' (sym h ∙ made)) bad)
          ∙ drawn))
  not_drawn-Created state body rng now r e reply after
        (stored r' made gets (inr (e', bad', is_err))) h bad =
      is_err

  serve-Refused :
      (state : AppState env Net) (call : ApiCall) (rng : Samples) (now : ℕ) (code : StatusCode)
      → (serve env Net state call rng now).0 ≡ err code
      → Refused state rng call code
  unfolding serve get_payment_status get_access_token
  serve-Refused state (post_payment_request body) rng now code h =
      Created-Refused state body rng now _ _ code
        (create_payment_request-Created env state.payment_provider state.payment_service body rng
          now)
        (map_ok-err request_reply _ code h)
  serve-Refused state (get_status id) rng now code h =
      elim (Option-cases (get state.payment_service id)) [
        | inl e ↦
            subst (Refused state rng (get_status id)) (err_inj not_found code (rw e at h))
              (unknown_status e)
        | inr (r, e) ↦ absurd (err_ne_ok code _ (sym (rw e at h)))
      ]
  serve-Refused state (get_token id) rng now code h =
      elim (Option-cases (get state.payment_service id)) [
        | inl e ↦
            subst (Refused state rng (get_token id)) (err_inj not_found code (rw e at h))
              (unknown_token e)
        | inr (r, e) ↦ absurd (err_ne_ok code _ (sym (rw e at h)))
      ]

  Refused-serve :
      (state : AppState env Net) (call : ApiCall) (rng : Samples) (now : ℕ) (code : StatusCode)
      → Refused state rng call code
      → (serve env Net state call rng now).0 ≡ err code
  unfolding serve get_payment_status get_access_token
  Refused-serve state _ rng now _ (provider_failed {body} e failing) = ap (map_ok request_reply) (
      failed-Created state body rng now e _ _
        (create_payment_request-Created env state.payment_provider state.payment_service body rng
          now)
        failing)
  Refused-serve state _ rng now _ (not_drawn {body} r e made bad) = ap (map_ok request_reply) (
      not_drawn-Created state body rng now r e _ _
        (create_payment_request-Created env state.payment_provider state.payment_service body rng
          now)
        made bad)
  Refused-serve state _ rng now _ (unknown_status e) = rw e refl
  Refused-serve state _ rng now _ (unknown_token e) = rw e refl

  -- A route answers with an error in these cases and no other: 502 where the provider fails, 500 where
  -- the QR image of a request cannot be drawn, and 404 for an id with no session.
  pub serve-Refused_iff :
      (state : AppState env Net) (call : ApiCall) (rng : Samples) (now : ℕ) (code : StatusCode)
      → ((serve env Net state call rng now).0 ≡ err code) ↔ Refused state rng call code
  serve-Refused_iff state call rng now code =
      (serve-Refused state call rng now code, Refused-serve state call rng now code)
