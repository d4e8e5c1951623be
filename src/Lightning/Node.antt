-- ===== src/Lightning/Node.antt =====
-- The whole Lightning process: crates/lightning_node/src/main.rs starts its parts in order, the SDK may
-- report a payment at any time, and the handlers of layers/proof.rs run as tasks that interleave at
-- every lock that they take.
pub mod Invariant
pub mod Runs
pub mod Tasks
pub mod Preserved
pub mod Claims
pub mod Alone
pub mod Answered
pub mod Tests
use lightining_pass.Base.{
  ℕ, Bool, true, false, Option, none, some, ok, List, [], ◌∷◌, ◌++◌, Text, ◌≡◌, ◌≢◌,
}
use lightining_pass.Base.Dict
use lightining_pass.Random.{Samples}
use lightining_pass.Token.Env.{TokenEnv}
use lightining_pass.Qr.{QrLib}
use lightining_pass.Lightning.Gateway.{LightningGateway, PaymentEvent}
use lightining_pass.Lightning.Proof.{
  AppConfig, AccessSession, InvoiceResponse, ProofService, new_proof, prepare_invoice,
  write_session, write_index, pay_session,
}

-- The statements of `main` that others can see: `init_breez_services`, which connects the SDK, the bind
-- of the listener, `set_handler` of the forwarder, and `server.await`.
pub data Statement : Type 0 where
  connect bind set_handler serve : Statement

-- `main`, in the order of its text.
unfoldable pub main_statements : List Statement
main_statements = connect ∷ bind ∷ set_handler ∷ serve ∷ []

-- What is left of a handler that is under way, at the lock that it takes next: `create_invoice` before
-- its two writes, `handle_payment` before its reading of the index and before its write.
pub data Task : Type 0 where
  storing : AccessSession → Task
  indexing : AccessSession → Task
  looking : PaymentEvent → Task
  paying : PaymentEvent → Text → Task

unfoldable pub looked : PaymentEvent → Option Text → List Task
looked event none = []
looked event (some invoice_id) = paying event invoice_id ∷ []

module _ (tokens : TokenEnv) (qr : QrLib) where
  -- `program` is what `main` has still to run; `handler` says whether the forwarder holds a handler, and
  -- `serves` whether the routes answer. `paid` is no part of the program: it records the hashes that the
  -- handler was given.
  pub record Node : Type 0 where
    pub program : List Statement
    pub handler : Bool
    pub serves : Bool
    pub proof : ProofService tokens qr
    pub tasks : List Task
    pub paid : List Text

  -- `BreezEventForwarder::new` has no handler.
  unfoldable pub boot : tokens.SigningKey → AppConfig → Node
  unfolding main_statements
  boot keypair config = record {
    program = main_statements;
    handler = false;
    serves = false;
    proof = new_proof tokens qr keypair config;
    tasks = [];
    paid = [];
  }

  unfoldable pub execute : Statement → Node → Node
  execute connect n = n
  execute bind n = n
  execute set_handler n = record n { handler = true }
  execute serve n = record n { serves = true }

  -- The next statement of `main`; `server.await` does not return.
  unfoldable pub advance : List Statement → Node → Node
  unfolding execute
  advance [] n = n
  advance (statement ∷ rest) n = execute statement (record n { program = rest })

  abbrev pub past : Node → Node
  past n = advance n.program n

  -- One task up to its next lock: the service, and what is left of the task.
  unfoldable pub run_task : Task → ProofService tokens qr → ProofService tokens qr × List Task
  run_task (storing session) self = (write_session tokens qr self session, indexing session ∷ [])
  run_task (indexing session) self = (write_index tokens qr self session, [])
  run_task (looking event) self =
      (self, looked event (Dict.get self.payment_index event.payment_hash))
  run_task (paying event id) self =
      ((pay_session tokens qr self event id (Dict.get self.sessions id)).1, [])

  -- What the environment promises of a task: random ids do not repeat, and neither do the payment
  -- hashes of a Lightning node's invoices.
  unfoldable pub IsFresh : Task → ProofService tokens qr → Type 0
  IsFresh (storing session) self = Dict.get self.sessions session.invoice_id ≡ none
  IsFresh (indexing session) self = Dict.get self.payment_index session.payment_hash ≡ none
  IsFresh (looking event) self = Unit
  IsFresh (paying event id) self = Unit

  -- The forwarder spawns the handler's task, and drops the event where there is no handler.
  unfoldable pub report : PaymentEvent → Bool → Node → Node
  report event false n = n
  report event true n = record n {
    tasks = n.tasks ++ looking event ∷ [];
    paid = event.payment_hash ∷ n.paid;
  }

  pub data Step (n : Node) : Node → Type 1 where
    advances : Step n (past n)
    reports : (event : PaymentEvent) → Step n (report event n.handler n)
    requests :
        {S : Type 0}
        → (gateway : LightningGateway S) → (amount : Option ℕ) → (description : Option Text)
        → (rng : Samples) → (now : ℕ) → (session : AccessSession) → (response : InvoiceResponse)
        → n.serves ≡ true
        → prepare_invoice tokens qr n.proof gateway amount description rng now
          ≡ ok (session, response)
        → Step n (record n { tasks = n.tasks ++ storing session ∷ [] })
    runs :
        (before : List Task)
        → (task : Task) → (after : List Task) → n.tasks ≡ before ++ task ∷ after
        → IsFresh task n.proof
        → Step n (record n {
          proof = (run_task task n.proof).0;
          tasks = before ++ (run_task task n.proof).1 ++ after;
        })

  pub data Reach (n : Node) : Node → Type 1 where
    here : Reach n n
    next : {m u : Node} → Reach n m → Step m u → Reach n u
