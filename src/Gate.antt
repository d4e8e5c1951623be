-- ===== src/Gate.antt =====
-- From the two services to the gate: what crates/verifier_cli prints for the passes that
-- crates/api_server and crates/lightning_node show to their buyers.
pub mod Admits
pub mod Invoices
pub mod Late
mod Tests
use lightining_pass.Base.{
  ℕ, ◌≡◌, sym, subst, ◌∙◌, arith, Option, none, some, ok, err, List, ◌++◌, Text, codes, All, leb,
  ltb, if◌then◌else◌,
}
use mathlib.Core.Option
use mathlib.Core.List.{Memᴰ}
use lightining_pass.Base.Dict
use lightining_pass.Text.Trim.{IsSpace}
use lightining_pass.Token.Env.{TokenEnv}
use lightining_pass.Qr.{QrLib}
use lightining_pass.Stellar.Types.{PaymentRecord}
use lightining_pass.Stellar.Confirms.{Confirms, event_of}
use lightining_pass.Stellar.Provider.{StellarProvider}
use lightining_pass.Api.Access.{AccessService, token_for}
use lightining_pass.Token.Compact.{sign_compact_payload}
use lightining_pass.Lightning.Node.Invariant.{pass_of}
use lightining_pass.Api.Env.{ApiEnv}
use lightining_pass.Api.Config.{Vars}
use lightining_pass.Api.Sessions.{SessionRecord, get}
use lightining_pass.Api.System.{Server, Reach}
use lightining_pass.Api.System.Invariant.{IsBacked, pass_for}
use lightining_pass.Api.System.Claims.{access_token-IsBacked}
use lightining_pass.Api.Boot.{Booted, boot}
use lightining_pass.Api.Boot.Laws.{boot-IsBooted, IsBooted-start}
use lightining_pass.Lightning.Proof.{AppConfig, AccessSession, StatusResponse, check_invoice}
use lightining_pass.Lightning.Node
use lightining_pass.Lightning.Node.{Node}
use lightining_pass.Lightning.Node.Claims.{Shown, shown_pending, shown_settled, check_invoice-Shown}
use lightining_pass.Verifier.{VerifierEnv, Args, load_public_key, token_text, main}
use lightining_pass.Verifier.Issued.{main-sign_token_to_string, main-sign_compact_payload}

-- A verifier that is built with the token library of a service.
abbrev pub gate : TokenEnv → VerifierEnv → VerifierEnv
gate tokens reader = record reader { tokens = tokens }

-- The verifier loads `key`, and reads `text` with any space around it.
pub record Reads (env : VerifierEnv) (args : Args) (key : env.VerifyingKey) (text : Text)
    : Type 0 where
  pub before : Text
  pub after : Text
  pub loaded : load_public_key env args.public_key ≡ ok key
  pub space_before : All IsSpace before
  pub space_after : All IsSpace after
  pub given : token_text env args.token args.qr_image ≡ ok (before ++ text ++ after)

-- The verifier on a backed session's token.
IsBacked-main :
    (reader : VerifierEnv) (env : ApiEnv) (provider : StellarProvider) (access : AccessService env)
    → (seen : List PaymentRecord) (r : SessionRecord) (back : IsBacked env provider access seen r)
    → (args : Args) (now later : ℕ)
    → Reads (gate env.tokens reader) args (env.verifying_key access.signing_key) back.text
    → main (gate env.tokens reader) args now later
      ≡ (if leb r.expires_at now then (codes "INVALID", 1) else (codes "VALID", 0))
IsBacked-main reader env provider access seen r back args now later g =
    main-sign_token_to_string (gate env.tokens reader) args now later
      (pass_for r back.found back.nonce) access.signing_key g.before back.text g.after g.loaded
      back.signed g.space_before g.space_after g.given

-- The pass that a booted payment server, whose new memos are fresh, shows for a session is paid
-- for: Horizon has answered a record that confirms the session's request. The verifier, given that
-- pass and loading the server's public key, prints VALID exactly below the session's `expires_at`.
pub paid_session-main :
    (reader : VerifierEnv) (env : ApiEnv) (var : Vars) (generated : env.SigningKey) (began : ℕ)
    → (b : Booted env) → boot env var generated began ≡ ok b
    → (w : Server) → Reach env b.payment_provider b.access_service b.server w
    → (k : Text) (r : SessionRecord) (text : Text) → get w.service k ≡ some r
    → r.access_token ≡ some text
    → (args : Args) (now later : ℕ)
    → Reads (gate env.tokens reader) args (env.verifying_key b.access_service.signing_key) text
    → ((found : PaymentRecord) × Memᴰ found w.seen
        × Confirms r.payment_request.destination r.payment_request.memo r.payment_request.amount
            r.payment_request.asset found)
      × (main (gate env.tokens reader) args now later
          ≡ (if leb r.expires_at now then (codes "INVALID", 1) else (codes "VALID", 0)))
paid_session-main reader env var generated began b booted w reach k r text stored shown args now
      later g =
    let i = boot-IsBooted env var generated began b booted in
    let fresh = IsBooted-start env var generated began b i in
    let (back, accepted) =
      access_token-IsBacked env b.payment_provider b.access_service b.server.service.token_ttl_secs
        began w (subst (λ s. Reach env b.payment_provider b.access_service s w) fresh reach) k r
        text stored shown in
    let same : back.text ≡ text = Option.some-injective back.text text (sym back.token ∙ shown) in
    (
      (back.found, back.answered_before, back.confirms),
      IsBacked-main reader env b.payment_provider b.access_service w.seen r back args now later (
          subst
            (Reads (gate env.tokens reader) args (env.verifying_key b.access_service.signing_key))
            (sym same) g),
    )

Shown-main :
    (reader : VerifierEnv) (tokens : TokenEnv) (qr : QrLib) (keypair : tokens.SigningKey)
    → (config : AppConfig) (paid : List Text) (session : AccessSession) (response : StatusResponse)
    → (text : Text) → Shown tokens qr keypair config paid session response
    → response.access_token ≡ some text
    → (args : Args) (now later : ℕ)
    → Reads (gate tokens reader) args (tokens.verifying_key keypair) text
    → Memᴰ session.payment_hash paid
      × (main (gate tokens reader) args now later
          ≡ (if ltb session.expires_at later then (codes "INVALID", 1) else (codes "VALID", 0)))
Shown-main reader tokens qr keypair config paid session response text (shown_pending e bare) shown
      args now later g =
    absurd (ground arith)
Shown-main reader tokens qr keypair config paid session response text
      (shown_settled token e given m signed) shown args now later g =
    let same : token ≡ text = Option.some-injective token text (sym given ∙ shown) in
    (
      m,
      main-sign_compact_payload (gate tokens reader) args now later
          (pass_of tokens qr keypair config session) keypair g.before text g.after g.loaded
          (subst
            (λ t.
              sign_compact_payload tokens (pass_of tokens qr keypair config session) keypair ≡ ok t)
            same signed)
          g.space_before g.space_after g.given,
    )

-- The pass that the Lightning node shows for a stored invoice, where invoice ids and payment hashes
-- do not repeat, whatever ran and in whatever order its handlers took their locks, is paid for: the
-- payment of that invoice was reported. The verifier, given that pass and loading the node's public
-- key, prints VALID exactly until the invoice's `expires_at`, that second included.
pub paid_invoice-main :
    (reader : VerifierEnv) (tokens : TokenEnv) (qr : QrLib) (keypair : tokens.SigningKey)
    → (config : AppConfig) (n : Node tokens qr)
    → Node.Reach tokens qr (Node.boot tokens qr keypair config) n
    → (id : Text) (session : AccessSession) (response : StatusResponse) (text : Text)
    → Dict.get n.proof.sessions id ≡ some session
    → check_invoice tokens qr n.proof id ≡ ok response
    → response.access_token ≡ some text
    → (args : Args) (now later : ℕ)
    → Reads (gate tokens reader) args (tokens.verifying_key keypair) text
    → Memᴰ session.payment_hash n.paid
      × (main (gate tokens reader) args now later
          ≡ (if ltb session.expires_at later then (codes "INVALID", 1) else (codes "VALID", 0)))
paid_invoice-main reader tokens qr keypair config n r id session response text stored answered =
    Shown-main reader tokens qr keypair config n.paid session response text
      (check_invoice-Shown tokens qr keypair config n r id session response stored answered)
