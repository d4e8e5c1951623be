-- ===== src/Lightning/Node/Invariant.antt =====
-- What holds of the process at every moment.
use lightining_pass.Base.{
  Bool, true, ◌&&◌, false, Option, none, some, ok, List, [], ◌∷◌, Text, ◌≡◌, ◌≢◌, refl, sym, ◌∙◌,
  arith, All,
}
use mathlib.Core.List.{Memᴰ}
use lightining_pass.Base.Dict
use lightining_pass.Base.Dict.{Dict, get-empty, get-insert_self, get-insert_other}
use lightining_pass.Token.Types.{CompactAccessPayload}
use lightining_pass.Token.Env.{TokenEnv}
use lightining_pass.Token.Compact.{sign_compact_payload}
use lightining_pass.Qr.{QrLib}
use lightining_pass.Lightning.Gateway.{PaymentEvent}
use lightining_pass.Lightning.Proof.{AppConfig, AccessSession, pending, settled, new_proof}
use lightining_pass.Lightning.Node.{
  Statement, connect, bind, set_handler, serve, Task, storing, indexing, looking, paying, Node,
  boot,
}
use lightining_pass.Lightning.Node.Runs.{Grows}

-- Whether what is left of `main` serves only once there is a handler.
unfoldable pub sets_first : Bool → List Statement → Bool
sets_first handler [] = true
sets_first handler (connect ∷ rest) = sets_first handler rest
sets_first handler (bind ∷ rest) = sets_first handler rest
sets_first handler (set_handler ∷ rest) = sets_first true rest
sets_first handler (serve ∷ rest) = handler && sets_first handler rest

module _ (tokens : TokenEnv) (qr : QrLib) (keypair : tokens.SigningKey) (config : AppConfig) where
  -- What a token of a session is signed for.
  abbrev pub pass_of : AccessSession → CompactAccessPayload
  pass_of session = record {
    payment_hash = session.payment_hash;
    expires_at = session.expires_at;
    event_id = config.event_id;
  }

  -- A session is pending and has no token; or its payment was reported, it is settled, and its token is
  -- signed with the service's key for its own payment hash and expiry and the configured event.
  pub data IsBacked (paid : List Text) (session : AccessSession) : Type 0 where
    bare : session.status ≡ pending → session.access_token ≡ none → IsBacked paid session
    backed :
        (token : Text)
        → session.status ≡ settled
        → session.access_token ≡ some token
        → Memᴰ session.payment_hash paid
        → sign_compact_payload tokens (pass_of session) keypair ≡ ok token
        → IsBacked paid session

  -- Under `id` stands a session of the payment hash `hash`.
  abbrev pub Hashed : Dict AccessSession → Text → Text → Type 0
  Hashed sessions id hash =
      (s : AccessSession) × (Dict.get sessions id ≡ some s) × (s.payment_hash ≡ hash)

  pub data TaskOk (paid : List Text) (sessions : Dict AccessSession) : Task → Type 0 where
    storing_ok :
        {session : AccessSession}
        → session.status ≡ pending
        → session.access_token ≡ none
        → TaskOk paid sessions (storing session)
    indexing_ok :
        {session : AccessSession}
        → Hashed sessions session.invoice_id session.payment_hash
        → TaskOk paid sessions (indexing session)
    looking_ok :
        {event : PaymentEvent} → Memᴰ event.payment_hash paid → TaskOk paid sessions (looking event)
    paying_ok :
        {event : PaymentEvent}
        → {id : Text} → Memᴰ event.payment_hash paid
        → Hashed sessions id event.payment_hash
        → TaskOk paid sessions (paying event id)

  -- Nothing is stored and nothing is under way.
  pub record IsQuiet (n : Node tokens qr) : Type 0 where
    pub no_tasks : n.tasks ≡ []
    pub no_index : (hash : Text) → Dict.get n.proof.payment_index hash ≡ none

  pub record Inv (n : Node tokens qr) : Type 0 where
    pub same_key : n.proof.keypair ≡ keypair
    pub same_config : n.proof.config ≡ config
    pub sessions_backed :
        (id : Text) (s : AccessSession) → Dict.get n.proof.sessions id ≡ some s → IsBacked n.paid s
    pub index_sound :
        (hash id : Text)
        → Dict.get n.proof.payment_index hash ≡ some id
        → Hashed n.proof.sessions id hash
    pub tasks_ok : All (TaskOk n.paid n.proof.sessions) n.tasks
    pub quiet_start : n.handler ≡ false → IsQuiet n
    pub handled_first : sets_first n.handler n.program ≡ true
    pub serves_handled : n.serves ≡ true → n.handler ≡ true

  pub none-ne-some : {V : Type 0} → (v : V) → ◌≢◌ {A = Option V} none (some v)
  none-ne-some v h = ground arith

  pub boot-Inv : Inv (boot tokens qr keypair config)
  unfolding boot new_proof sets_first
  boot-Inv = record {
    same_key = refl;
    same_config = refl;
    sessions_backed = λ id s h. absurd (none-ne-some s (sym (get-empty id) ∙ h));
    index_sound = λ hash id h. absurd (none-ne-some id (sym (get-empty hash) ∙ h));
    tasks_ok = tt;
    quiet_start = λ h. record { no_tasks = refl; no_index = λ hash. get-empty hash };
    handled_first = refl;
    serves_handled = λ h. absurd (ground arith);
  }

  pub Hashed-Grows :
      (a b : Dict AccessSession)
      → Grows a b
      → (id hash : Text) → Hashed a id hash
      → Hashed b id hash
  Hashed-Grows a b g id hash (s, h, e) = let (s', h', c) = g id s h in (s', h', c.same_hash ∙ e)

  pub TaskOk-Grows :
      (paid : List Text) (a b : Dict AccessSession)
      → Grows a b
      → (task : Task) → TaskOk paid a task
      → TaskOk paid b task
  TaskOk-Grows paid a b g _ (storing_ok e e') = storing_ok e e'
  TaskOk-Grows paid a b g _ (indexing_ok {session} h) =
      indexing_ok (Hashed-Grows a b g session.invoice_id session.payment_hash h)
  TaskOk-Grows paid a b g _ (looking_ok m) = looking_ok m
  TaskOk-Grows paid a b g _ (paying_ok {event} {id} m h) =
      paying_ok m (Hashed-Grows a b g id event.payment_hash h)

  pub IsBacked-paid :
      (paid : List Text) (hash : Text) (s : AccessSession)
      → IsBacked paid s
      → IsBacked (hash ∷ paid) s
  IsBacked-paid paid hash s (bare e e') = bare e e'
  IsBacked-paid paid hash s (backed token e e' m signed) = backed token e e' (Memᴰ.tail m) signed

  pub TaskOk-paid :
      (paid : List Text) (hash : Text) (sessions : Dict AccessSession) (task : Task)
      → TaskOk paid sessions task
      → TaskOk (hash ∷ paid) sessions task
  TaskOk-paid paid hash sessions _ (storing_ok e e') = storing_ok e e'
  TaskOk-paid paid hash sessions _ (indexing_ok h) = indexing_ok h
  TaskOk-paid paid hash sessions _ (looking_ok m) = looking_ok (Memᴰ.tail m)
  TaskOk-paid paid hash sessions _ (paying_ok m h) = paying_ok (Memᴰ.tail m) h
