-- ===== src/Gate/Invoices.antt =====
-- Who pays an invoice is let in: from a payment that the Lightning SDK reports to the verifier's answer.
use lightining_pass.Base.{
  ℕ, ◌≤◌, ◌≡◌, refl, sym, ap, subst, ◌∙◌, arith, some, ok, ok_inj, List, ◌∷◌, ◌++◌, Text, codes,
  ltb, if◌then◌else◌,
}
use mathlib.Core.Option
use lightining_pass.Verifier.{VerifierEnv, Args, main}
use lightining_pass.Base.Dict
use lightining_pass.Token.Env.{TokenEnv}
use lightining_pass.Token.Types.{CompactAccessPayload}
use lightining_pass.Qr.{QrLib}
use lightining_pass.Lightning.Qr.{render_ascii_qr, render_png_data_url}
use lightining_pass.Lightning.Gateway.{PaymentEvent}
use lightining_pass.Lightning.Proof.{
  AppConfig, AccessSession, StatusResponse, settled, ProofService, check_invoice, status_text,
}
use lightining_pass.Lightning.Node
use lightining_pass.Lightning.Node.{Node, Task, paying, run_task}
use lightining_pass.Lightning.Node.Invariant
use lightining_pass.Lightning.Node.Invariant.{bare, backed}
use lightining_pass.Lightning.Node.Preserved
use lightining_pass.Lightning.Node.Runs.{run_task-Grows}
use lightining_pass.Lightning.Node.Claims.{paying_settles}
use lightining_pass.Gate.{gate, Reads, paid_invoice-main}

module _ (tokens : TokenEnv) (qr : QrLib) where
  answer_of :
      (self : ProofService tokens qr) (id : Text) (session : AccessSession)
      → Dict.get self.sessions id ≡ some session
      → (response : StatusResponse) × (check_invoice tokens qr self id ≡ ok response)
        × (response.access_token ≡ session.access_token)
  unfolding check_invoice
  answer_of self id session h = (
    record {
      status = status_text session.status;
      expires_at = session.expires_at;
      access_token = session.access_token;
      access_qr_png = session.access_qr_png;
      access_qr_ascii = session.access_qr_ascii;
    },
    rw (check_invoice, h) refl,
    refl,
  )

  token_of_settled :
      (keypair : tokens.SigningKey) (config : AppConfig) (paid : List Text)
      (session : AccessSession)
      → Invariant.IsBacked tokens qr keypair config paid session
      → session.status ≡ settled
      → (text : Text) × (session.access_token ≡ some text)
  token_of_settled keypair config paid session (bare e e') h = absurd (ground arith)
  token_of_settled keypair config paid session (backed token e e' m signed) h = (token, e')

until_over :
    (expires_at later : ℕ) (printed : Text × ℕ)
    → printed ≡ (if ltb expires_at later then (codes "INVALID", 1) else (codes "VALID", 0))
    → later ≤ expires_at
    → printed ≡ (codes "VALID", 0)
until_over expires_at later printed h early = ground arith

module _ (tokens : TokenEnv) (qr : QrLib) where
  -- The pass that `check_invoice` shows for an invoice.
  abbrev pub Answers : ProofService tokens qr → (id text : Text) → Type 0
  Answers self id text =
      (response : StatusResponse) × (check_invoice tokens qr self id ≡ ok response)
      × (response.access_token ≡ some text)

  pub Answers-unique :
      (self : ProofService tokens qr) (id t t' : Text)
      → Answers self id t
      → Answers self id t'
      → t ≡ t'
  Answers-unique self id t t' (r, answered, shown) (r', answered', shown') =
      let same = ok_inj r r' (sym answered ∙ answered') in
      Option.some-injective t t' (sym shown ∙ ap (λ x. x.access_token) same ∙ shown')

  same_expiry :
      (self : ProofService tokens qr) (event : PaymentEvent) (id : Text) (s s' : AccessSession)
      → Dict.get self.sessions id ≡ some s
      → Dict.get (run_task tokens qr (paying event id) self).0.sessions id ≡ some s'
      → s'.expires_at ≡ s.expires_at
  unfolding Node.IsFresh
  same_expiry self event id s s' h h' =
      let (t, found, c) = run_task-Grows tokens qr (paying event id) self tt id s h in
      ap (λ x. x.expires_at) (Option.some-injective s' t (sym h' ∙ found)) ∙ c.same_expiry

-- In a Lightning node whose invoice ids and payment hashes do not repeat, where every payload can be
-- written and every text drawn: once the task that pays a stored invoice has run, whatever ran before
-- it, `check_invoice` shows a pass for the invoice. The verifier, given that pass, loading the node's
-- public key and run until the invoice's `expires_at`, that second included, prints VALID.
pub payment_admitted :
    (reader : VerifierEnv) (tokens : TokenEnv) (qr : QrLib) (keypair : tokens.SigningKey)
    → (config : AppConfig) (n : Node tokens qr)
    → Node.Reach tokens qr (Node.boot tokens qr keypair config) n
    → (before : List Task) (event : PaymentEvent) (id : Text) (after : List Task)
    → n.tasks ≡ before ++ paying event id ∷ after
    → ((p : CompactAccessPayload) → (b : List ℕ) × (tokens.payload_to_vec p ≡ ok b))
    → ((t : Text) → (png : Text) × (render_png_data_url qr t 320 ≡ ok png))
    → ((t : Text) → (art : Text) × (render_ascii_qr qr t ≡ ok art))
    → (session : AccessSession) → Dict.get n.proof.sessions id ≡ some session
    → (args : Args) (now later : ℕ)
    → ((text : Text)
        → Answers tokens qr (run_task tokens qr (paying event id) n.proof).0 id text
        → Reads (gate tokens reader) args (tokens.verifying_key keypair) text)
    → later ≤ session.expires_at
    → ((text : Text) × Answers tokens qr (run_task tokens qr (paying event id) n.proof).0 id text)
      × (main (gate tokens reader) args now later ≡ (codes "VALID", 0))
unfolding Node.IsFresh
payment_admitted reader tokens qr keypair config n r before event id after e written drawn art
      session stored args now later reads early =
    let (session', stored', done, same) =
      paying_settles tokens qr keypair config n r before event id after e written drawn art in
    let m : Node tokens qr = record n {
      proof = (run_task tokens qr (paying event id) n.proof).0;
      tasks = before ++ (run_task tokens qr (paying event id) n.proof).1 ++ after;
    } in
    let r' : Node.Reach tokens qr (Node.boot tokens qr keypair config) m =
      Node.next r (Node.runs before (paying event id) after e tt) in
    let (text, given) =
      token_of_settled tokens qr keypair config n.paid session'
        ((Preserved.Reach-Inv tokens qr keypair config m r').sessions_backed id session' stored')
        done in
    let (response, shown, token) = answer_of tokens qr m.proof id session' stored' in
    let answers : Answers tokens qr m.proof id text = (response, shown, token ∙ given) in
    (
      (text, answers),
      until_over session'.expires_at later (main (gate tokens reader) args now later)
          (paid_invoice-main reader tokens qr keypair config m r' id session' response text stored'
            shown (token ∙ given) args now later (reads text answers)).1
          (subst (λ t. later ≤ t)
            (sym (same_expiry tokens qr n.proof event id session session' stored stored')) early),
    )
