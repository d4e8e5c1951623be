-- ===== src/Lightning/Access/Laws.antt =====
-- When a route of the Lightning service refuses a request.
use lightining_pass.Base.{
  ℕ, ◌≡◌, ◌↔◌, inl, inr, refl, sym, ap, ◌∙◌, subst, arith, none, Result, ok, err, map_err, map_ok,
  err_ne_ok, err_inj, Text, Option-cases,
}
use lightining_pass.Base.Dict
use lightining_pass.Random.{Samples}
use lightining_pass.Token.Env.{TokenEnv}
use lightining_pass.Qr.{QrLib}
use lightining_pass.Lightning.Gateway.{LightningGateway}
use lightining_pass.Lightning.Proof.{
  ProofError, not_found, internal, ProofService, InvoiceResponse, StatusResponse, AccessSession,
}
use lightining_pass.Lightning.Proof
use lightining_pass.Lightning.Proof.Invoices.{
  Created, failed, created, create_invoice-Created, Offered, create_invoice-ok_iff,
}
use lightining_pass.Lightning.Access.{
  Call, post_invoice, get_invoice, get_invoice_access, CreateInvoiceRequest, Reply, invoice_reply,
  status_reply, map_error, create_invoice, check_invoice, get_access_token, serve,
}

module _ (tokens : TokenEnv) (qr : QrLib) where
  -- Why a request is refused, and with which code.
  pub data Refused {S : Type 0} (self : ProofService tokens qr) (gateway : LightningGateway S)
      (rng : Samples) (now : ℕ) : Call → ℕ → Type 0 where
    not_offered :
        {body : CreateInvoiceRequest}
        → ((response : InvoiceResponse)
            → ¬ Offered tokens qr self gateway body.amount_msat body.description rng now response)
        → Refused self gateway rng now (post_invoice body) 500
    unknown_invoice :
        {id : Text}
        → Dict.get self.sessions id ≡ none
        → Refused self gateway rng now (get_invoice id) 404
    unknown_access :
        {id : Text}
        → Dict.get self.sessions id ≡ none
        → Refused self gateway rng now (get_invoice_access id) 404

  refused-err :
      {A : Type 0}
      → (f : A → Reply) (r : Result A ProofError) (code : ℕ)
      → map_ok f (map_err map_error r) ≡ err code
      → (e : ProofError) × (r ≡ err e) × (map_error e ≡ code)
  refused-err f (ok a) code h = absurd (ground arith)
  refused-err f (err e) code h = (e, refl, ground arith)

  post-Refused :
      {S : Type 0}
      → (self : ProofService tokens qr) (gateway : LightningGateway S) (body : CreateInvoiceRequest)
      → (rng : Samples) (now code : ℕ)
      → (serve tokens qr self gateway (post_invoice body) rng now).0 ≡ err code
      → Refused self gateway rng now (post_invoice body) code
        × ((serve tokens qr self gateway (post_invoice body) rng now).1 ≡ self)
  unfolding serve create_invoice map_error
  post-Refused self gateway body rng now code h =
      let (e, failing, is_code) =
        refused-err invoice_reply
          (Proof.create_invoice tokens qr self gateway body.amount_msat body.description rng now).0
          code h in
      elim (create_invoice-Created tokens qr self gateway body.amount_msat body.description rng
        now) [
          | failed e' same ↦ (
            subst (Refused self gateway rng now (post_invoice body))
                (refused_internal e (err_inj e internal (sym failing ∙ e')) ∙ is_code)
                (not_offered (λ response o. err_ne_ok e response (
                  sym failing
                  ∙ (create_invoice-ok_iff tokens qr self gateway body.amount_msat body.description
                        rng now response).1
                      o))),
            same,
          )
          | created response e' shown others ↦ absurd (err_ne_ok e response (sym failing ∙ e'))
        ]
    where
      refused_internal : (e : ProofError) → e ≡ internal → 500 ≡ map_error e
      refused_internal e q = sym (ap map_error q)

  get-Refused :
      (self : ProofService tokens qr) (id : Text) (code : ℕ)
      → map_ok status_reply (map_err map_error (Proof.check_invoice tokens qr self id)) ≡ err code
      → (Dict.get self.sessions id ≡ none) × (404 ≡ code)
  unfolding Proof.check_invoice map_error
  get-Refused self id code h = elim (Option-cases (Dict.get self.sessions id)) [
    | inl e ↦ (e, err_inj 404 code (rw (Proof.check_invoice, e) at h))
    | inr (session, e) ↦ absurd (err_ne_ok code _ (sym (rw (Proof.check_invoice, e) at h)))
  ]

  serve-Refused :
      {S : Type 0}
      → (self : ProofService tokens qr) (gateway : LightningGateway S) (call : Call) (rng : Samples)
      → (now code : ℕ) → (serve tokens qr self gateway call rng now).0 ≡ err code
      → Refused self gateway rng now call code
        × ((serve tokens qr self gateway call rng now).1 ≡ self)
  unfolding serve check_invoice get_access_token Proof.get_access_token
  serve-Refused self gateway (post_invoice body) rng now code h =
      post-Refused self gateway body rng now code h
  serve-Refused self gateway (get_invoice id) rng now code h =
      let (unknown, e) = get-Refused self id code h in
      (subst (Refused self gateway rng now (get_invoice id)) e (unknown_invoice unknown), refl)
  serve-Refused self gateway (get_invoice_access id) rng now code h =
      let (unknown, e) = get-Refused self id code h in
      (
        subst (Refused self gateway rng now (get_invoice_access id)) e (unknown_access unknown),
        refl,
      )

  not_created :
      (r : Result InvoiceResponse ProofError) (self after : ProofService tokens qr)
      → Created tokens qr self r after
      → ((response : InvoiceResponse) → ¬ (r ≡ ok response))
      → map_ok invoice_reply (map_err map_error r) ≡ err 500
  unfolding map_error
  not_created r self after (failed e same) h = rw e refl
  not_created r self after (created response e shown others) h = absurd (h response e)

  Refused-serve :
      {S : Type 0}
      → (self : ProofService tokens qr) (gateway : LightningGateway S) (call : Call) (rng : Samples)
      → (now code : ℕ) → Refused self gateway rng now call code
      → (serve tokens qr self gateway call rng now).0 ≡ err code
  unfolding serve create_invoice check_invoice get_access_token Proof.get_access_token
      Proof.check_invoice map_error
  Refused-serve self gateway _ rng now _ (not_offered {body} none_offered) =
      not_created _ self _
        (create_invoice-Created tokens qr self gateway body.amount_msat body.description rng now)
        (λ response e. none_offered response (
          (create_invoice-ok_iff tokens qr self gateway body.amount_msat body.description rng now
              response).0
            e))
  Refused-serve self gateway _ rng now _ (unknown_invoice unknown) =
      rw (Proof.check_invoice, unknown) refl
  Refused-serve self gateway _ rng now _ (unknown_access unknown) =
      rw (Proof.check_invoice, unknown) refl

  -- A route answers with an error in these cases and no other: 500 for an invoice that cannot be
  -- offered, and 404 for an id that is not stored. The service is then as it was.
  pub serve-err_iff :
      {S : Type 0}
      → (self : ProofService tokens qr) (gateway : LightningGateway S) (call : Call) (rng : Samples)
      → (now code : ℕ)
      → (((serve tokens qr self gateway call rng now).0 ≡ err code)
          ↔ Refused self gateway rng now call code)
        × (Refused self gateway rng now call code
            → (serve tokens qr self gateway call rng now).1 ≡ self)
  serve-err_iff self gateway call rng now code = (
    (
      λ h. (serve-Refused self gateway call rng now code h).0,
      Refused-serve self gateway call rng now code,
    ),
    λ why.
        (serve-Refused self gateway call rng now code
          (Refused-serve self gateway call rng now code why)).1,
  )
