-- ===== src/Lightning/Node/Claims.antt =====
-- What clients see of the process, whatever the interleaving.
use lightining_pass.Base.{
  ℕ, Bool, true, false, none, some, ok, List, ◌∷◌, ◌++◌, Text, codes, ◌≡◌, inl, inr, refl, sym, ap,
  subst, ◌∙◌, arith, All, All-at,
}
use mathlib.Core.List.{Memᴰ}
use lightining_pass.Base.Dict
use lightining_pass.Base.Dict.{Dict, get-insert_self}
use lightining_pass.Token.Types.{CompactAccessPayload}
use lightining_pass.Token.Env.{TokenEnv}
use lightining_pass.Token.Compact.{sign_compact_payload}
use lightining_pass.Qr.{QrLib}
use lightining_pass.Lightning.Qr.{render_ascii_qr, render_png_data_url}
use lightining_pass.Lightning.Gateway.{
  PaymentEvent, InvoicePaidDetails, BreezEvent, payload_of, on_event,
}
use lightining_pass.Lightning.Proof.{
  AppConfig, AccessSession, StatusResponse, pending, settled, ProofService, check_invoice,
  status_text, settle, after_settle, pay_session, handle,
}
use lightining_pass.Lightning.Proof.Payments.{
  InvoiceStatus-cases, Idle-handle_payment, unknown, settle_lem, settle_total,
}
use lightining_pass.Lightning.Node.{
  advance, Statement, Task, paying, Node, boot, run_task, report, Step, advances, reports, requests,
  runs, Reach, here, next,
}
use lightining_pass.Lightning.Node.Runs.{
  advance-proof, Grows, Grows-refl, Grows-trans, run_task-Grows,
}
use lightining_pass.Lightning.Node.Invariant.{pass_of, IsBacked, bare, backed, TaskOk, paying_ok}
use lightining_pass.Lightning.Node.Preserved.{Reach-Inv}

module _ (tokens : TokenEnv) (qr : QrLib) where
  -- What `check_invoice` may answer for a stored session.
  pub data Shown (keypair : tokens.SigningKey) (config : AppConfig) (paid : List Text)
      (session : AccessSession) (response : StatusResponse) : Type 0 where
    shown_pending :
        response.status ≡ codes "pending"
        → response.access_token ≡ none
        → Shown keypair config paid session response
    shown_settled :
        (token : Text)
        → response.status ≡ codes "settled"
        → response.access_token ≡ some token
        → Memᴰ session.payment_hash paid
        → sign_compact_payload tokens (pass_of tokens qr keypair config session) keypair ≡ ok token
        → Shown keypair config paid session response

  Shown-IsBacked :
      (keypair : tokens.SigningKey) (config : AppConfig) (paid : List Text)
      → (self : ProofService tokens qr) (id : Text) (session : AccessSession)
      → (response : StatusResponse) → Dict.get self.sessions id ≡ some session
      → check_invoice tokens qr self id ≡ ok response
      → IsBacked tokens qr keypair config paid session
      → Shown keypair config paid session response
  unfolding check_invoice status_text
  Shown-IsBacked keypair config paid self id session response h h' (bare e e') =
      shown_pending (ground arith) (ground arith)
  Shown-IsBacked keypair config paid self id session response h h' (backed token e e' m signed) =
      shown_settled token (ground arith) (ground arith) m signed

  -- At every moment of a process whose invoice ids and payment hashes do not repeat, whatever ran
  -- and in whatever order the handlers' locks were taken, `check_invoice` answers for a stored
  -- invoice that it is pending, with no token; or that it is settled, and then its own payment was
  -- reported, and its token is signed with the service's key for its payment hash, its expiry and
  -- the configured event.
  pub check_invoice-Shown :
      (keypair : tokens.SigningKey) (config : AppConfig) (n : Node tokens qr)
      → Reach tokens qr (boot tokens qr keypair config) n
      → (id : Text) (session : AccessSession) (response : StatusResponse)
      → Dict.get n.proof.sessions id ≡ some session
      → check_invoice tokens qr n.proof id ≡ ok response
      → Shown keypair config n.paid session response
  check_invoice-Shown keypair config n r id session response h h' =
      Shown-IsBacked keypair config n.paid n.proof id session response h h'
        ((Reach-Inv tokens qr keypair config n r).sessions_backed id session h)

  Idle_event :
      (self : ProofService tokens qr) (details : InvoicePaidDetails) (timestamp : ℕ)
      → Dict.get self.payment_index details.payment_hash ≡ none
      → handle tokens qr (payload_of details timestamp) self ≡ self
  unfolding handle payload_of
  Idle_event self details timestamp e =
      ap (λ r. r.1) (Idle-handle_payment tokens qr self (payload_of details timestamp) (unknown e))

  not_serving :
      (serves handler : Bool) → (serves ≡ true → handler ≡ true) → handler ≡ false → serves ≡ false
  not_serving serves handler h q = ground (arith, h, q)

  -- `main` sets the handler before it serves a request: at every moment without a handler, no route
  -- answers yet, and an event of the SDK that the forwarder drops would have changed nothing.
  pub on_event_dropped :
      {Other : Type 0}
      → (keypair : tokens.SigningKey) (config : AppConfig) (n : Node tokens qr)
      → Reach tokens qr (boot tokens qr keypair config) n
      → n.handler ≡ false
      → (event : BreezEvent Other) (timestamp : ℕ)
      → (n.serves ≡ false)
        × (on_event none event timestamp n.proof
            ≡ on_event (some (handle tokens qr)) event timestamp n.proof)
  unfolding on_event
  on_event_dropped keypair config n r q (BreezEvent.invoice_paid details) timestamp =
      let inv = Reach-Inv tokens qr keypair config n r in
      (
        not_serving n.serves n.handler inv.serves_handled q,
        sym (
            Idle_event n.proof details timestamp
              ((inv.quiet_start q).no_index details.payment_hash)),
      )
  on_event_dropped keypair config n r q (BreezEvent.other e) timestamp = (
    not_serving n.serves n.handler (Reach-Inv tokens qr keypair config n r).serves_handled q,
    refl,
  )

  report-Grows :
      (event : PaymentEvent) (b : Bool) (n : Node tokens qr)
      → Grows n.proof.sessions (report tokens qr event b n).proof.sessions
  unfolding report
  report-Grows event false n = Grows-refl n.proof.sessions
  report-Grows event true n = Grows-refl n.proof.sessions

  advance-Grows :
      (program : List Statement) (n : Node tokens qr)
      → Grows n.proof.sessions (advance tokens qr program n).proof.sessions
  advance-Grows program n =
      subst (λ p. Grows n.proof.sessions p.sessions) (sym (advance-proof tokens qr program n))
        (Grows-refl n.proof.sessions)

  Step-Grows : (n m : Node tokens qr) → Step tokens qr n m → Grows n.proof.sessions m.proof.sessions
  Step-Grows n _ advances = advance-Grows n.program n
  Step-Grows n _ (reports event) = report-Grows event n.handler n
  Step-Grows n _ (requests gateway amount description rng now session response up made) =
      Grows-refl n.proof.sessions
  Step-Grows n _ (runs before task after e fresh) = run_task-Grows tokens qr task n.proof fresh

  -- From one moment to any later one, where invoice ids and payment hashes do not repeat, no invoice is
  -- lost, each keeps its payment hash and its expiry,
  -- and a settled one does not change any more, its token included.
  pub Reach-Grows :
      (n m : Node tokens qr) → Reach tokens qr n m → Grows n.proof.sessions m.proof.sessions
  Reach-Grows n _ here = Grows-refl n.proof.sessions
  Reach-Grows n _ (next {m} {u} r st) =
      Grows-trans n.proof.sessions m.proof.sessions u.proof.sessions (Reach-Grows n m r)
        (Step-Grows m u st)

  paying_pending :
      (self : ProofService tokens qr) (event : PaymentEvent) (id : Text)
      → (session session' : AccessSession) → Dict.get self.sessions id ≡ some session
      → session.status ≡ pending
      → settle tokens qr self event session ≡ ok session'
      → Dict.get (run_task tokens qr (paying event id) self).0.sessions id ≡ some session'
  unfolding run_task pay_session after_settle settle
  paying_pending self event id session session' h waiting done =
      rw (h, waiting, done) (get-insert_self self.sessions id session')

  paying_settled :
      (self : ProofService tokens qr) (event : PaymentEvent) (id : Text) (session : AccessSession)
      → Dict.get self.sessions id ≡ some session
      → session.status ≡ settled
      → (run_task tokens qr (paying event id) self).0 ≡ self
  unfolding run_task pay_session
  paying_settled self event id session h done = rw (h, done) refl

  paying_session :
      (self : ProofService tokens qr) (event : PaymentEvent) (id : Text) (session : AccessSession)
      → ((p : CompactAccessPayload) → (b : List ℕ) × (tokens.payload_to_vec p ≡ ok b))
      → ((t : Text) → (png : Text) × (render_png_data_url qr t 320 ≡ ok png))
      → ((t : Text) → (art : Text) × (render_ascii_qr qr t ≡ ok art))
      → Dict.get self.sessions id ≡ some session
      → (s : AccessSession) × (Dict.get (run_task tokens qr (paying event id) self).0.sessions id
          ≡ some s)
        × (s.status ≡ settled)
        × (s.payment_hash ≡ session.payment_hash)
  paying_session self event id session written drawn art h =
      elim (InvoiceStatus-cases session.status) [
        | inl waiting ↦
            let (session', done) = settle_total tokens qr self event session written drawn art in
            let (e1, e2, e3, token, e4, signed) =
              settle_lem tokens qr self event session session' done in
            (session', paying_pending self event id session session' h waiting done, e1, e3)
        | inr done ↦ (
          session,
          ap (λ x. Dict.get x.sessions id) (paying_settled self event id session h done) ∙ h,
          done,
          refl,
        )
      ]

  paying_TaskOk :
      (keypair : tokens.SigningKey) (config : AppConfig) (paid : List Text)
      → (self : ProofService tokens qr) (event : PaymentEvent) (id : Text)
      → ((p : CompactAccessPayload) → (b : List ℕ) × (tokens.payload_to_vec p ≡ ok b))
      → ((t : Text) → (png : Text) × (render_png_data_url qr t 320 ≡ ok png))
      → ((t : Text) → (art : Text) × (render_ascii_qr qr t ≡ ok art))
      → TaskOk tokens qr keypair config paid self.sessions (paying event id)
      → (s : AccessSession) × (Dict.get (run_task tokens qr (paying event id) self).0.sessions id
          ≡ some s)
        × (s.status ≡ settled)
        × (s.payment_hash ≡ event.payment_hash)
  paying_TaskOk keypair config paid self event id written drawn art (paying_ok m (s, stored, own)) =
      let (s', stored', done, same) = paying_session self event id s written drawn art stored in
      (s', stored', done, same ∙ own)

  -- Where every payload can be written and every text drawn, the task that pays an invoice leaves it
  -- settled, whatever ran between the look-up of the payment and this write.
  pub paying_settles :
      (keypair : tokens.SigningKey) (config : AppConfig) (n : Node tokens qr)
      → Reach tokens qr (boot tokens qr keypair config) n
      → (before : List Task) (event : PaymentEvent) (id : Text) (after : List Task)
      → n.tasks ≡ before ++ paying event id ∷ after
      → ((p : CompactAccessPayload) → (b : List ℕ) × (tokens.payload_to_vec p ≡ ok b))
      → ((t : Text) → (png : Text) × (render_png_data_url qr t 320 ≡ ok png))
      → ((t : Text) → (art : Text) × (render_ascii_qr qr t ≡ ok art))
      → (s : AccessSession) × (Dict.get (run_task tokens qr (paying event id) n.proof).0.sessions id
          ≡ some s)
        × (s.status ≡ settled)
        × (s.payment_hash ≡ event.payment_hash)
  paying_settles keypair config n r before event id after e written drawn art =
      paying_TaskOk keypair config n.paid n.proof event id written drawn art (
        All-at (TaskOk tokens qr keypair config n.paid n.proof.sessions) before (paying event id)
          after
          (subst (All (TaskOk tokens qr keypair config n.paid n.proof.sessions)) e
            (Reach-Inv tokens qr keypair config n r).tasks_ok))
