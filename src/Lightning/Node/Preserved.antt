-- ===== src/Lightning/Node/Preserved.antt =====
-- Every step of the process keeps the invariant.
use lightining_pass.Base.{
  Bool, true, false, ◌&&◌, List, [], ◌∷◌, ◌++◌, ◌≡◌, ◌≢◌, refl, sym, subst, ◌∙◌, arith, All,
  All-append, All-mono, All-splice, All-at,
}
use mathlib.Core.List.{Memᴰ}
use lightining_pass.Token.Env.{TokenEnv}
use lightining_pass.Qr.{QrLib}
use lightining_pass.Lightning.Gateway.{PaymentEvent}
use lightining_pass.Lightning.Proof.{AppConfig}
use lightining_pass.Lightning.Proof.Invoices.{prepare_invoice_lem}
use lightining_pass.Lightning.Node.{
  Statement, connect, bind, set_handler, serve, execute, advance, Task, storing, looking, Node,
  boot, run_task, IsFresh, report, Step, advances, reports, requests, runs, Reach, here, next,
}
use lightining_pass.Lightning.Node.Runs.{run_task-Grows}
use lightining_pass.Lightning.Node.Invariant.{
  sets_first, TaskOk, storing_ok, looking_ok, Inv, boot-Inv, TaskOk-Grows, IsBacked-paid,
  TaskOk-paid,
}
use lightining_pass.Lightning.Node.Tasks.{
  run_task-same, run_task-IsBacked, run_task-index, run_task-TaskOk,
}

module _ (tokens : TokenEnv) (qr : QrLib) (keypair : tokens.SigningKey) (config : AppConfig) where
  -- The invariant with another state of `main`.
  moved-Inv :
      (program : List Statement) (handler serves : Bool) (n : Node tokens qr)
      → (handler ≡ false → n.handler ≡ false)
      → sets_first handler program ≡ true
      → (serves ≡ true → handler ≡ true)
      → Inv tokens qr keypair config n
      → Inv tokens qr keypair config
          (record n { program = program; handler = handler; serves = serves })
  moved-Inv program handler serves n earlier first handled inv = record {
    same_key = inv.same_key;
    same_config = inv.same_config;
    sessions_backed = inv.sessions_backed;
    index_sound = inv.index_sound;
    tasks_ok = inv.tasks_ok;
    quiet_start = λ q.
        let quiet = inv.quiet_start (earlier q) in
        record { no_tasks = quiet.no_tasks; no_index = quiet.no_index };
    handled_first = first;
    serves_handled = handled;
  }

  advance-Inv :
      (program : List Statement) (n : Node tokens qr)
      → n.program ≡ program
      → Inv tokens qr keypair config n
      → Inv tokens qr keypair config (advance tokens qr program n)
  unfolding advance execute
  advance-Inv [] n e inv = inv
  advance-Inv (connect ∷ rest) n e inv =
      moved-Inv rest n.handler n.serves n (λ q. q)
        (unfold sets_first in subst (λ p. sets_first n.handler p ≡ true) e inv.handled_first)
        inv.serves_handled inv
  advance-Inv (bind ∷ rest) n e inv =
      moved-Inv rest n.handler n.serves n (λ q. q)
        (unfold sets_first in subst (λ p. sets_first n.handler p ≡ true) e inv.handled_first)
        inv.serves_handled inv
  advance-Inv (set_handler ∷ rest) n e inv =
      moved-Inv rest true n.serves n (λ q. absurd (ground arith))
        (unfold sets_first in subst (λ p. sets_first n.handler p ≡ true) e inv.handled_first)
        (λ h. refl) inv
  advance-Inv (serve ∷ rest) n e inv =
      let (handled, first) =
        both n.handler (sets_first n.handler rest)
          (unfold sets_first in subst (λ p. sets_first n.handler p ≡ true) e inv.handled_first) in
      moved-Inv rest n.handler true n (λ q. q) first (λ h. handled) inv
    where
      both : (a b : Bool) → a && b ≡ true → (a ≡ true) × (b ≡ true)
      both a b h = ground arith

  report-Inv :
      (event : PaymentEvent) (b : Bool) (n : Node tokens qr)
      → n.handler ≡ b
      → Inv tokens qr keypair config n
      → Inv tokens qr keypair config (report tokens qr event b n)
  unfolding report
  report-Inv event false n h inv = inv
  report-Inv event true n h inv = record {
    same_key = inv.same_key;
    same_config = inv.same_config;
    sessions_backed = λ id s e.
        IsBacked-paid tokens qr keypair config n.paid event.payment_hash s
          (inv.sessions_backed id s e);
    index_sound = inv.index_sound;
    tasks_ok =
        All-append (TaskOk tokens qr keypair config (event.payment_hash ∷ n.paid) n.proof.sessions)
          n.tasks (looking event ∷ [])
          (All-mono (TaskOk tokens qr keypair config n.paid n.proof.sessions)
            (TaskOk tokens qr keypair config (event.payment_hash ∷ n.paid) n.proof.sessions)
            (TaskOk-paid tokens qr keypair config n.paid event.payment_hash n.proof.sessions)
            n.tasks inv.tasks_ok)
          (looking_ok (Memᴰ.head refl), tt);
    quiet_start = λ q. absurd (ground (arith, h, q));
    handled_first = inv.handled_first;
    serves_handled = inv.serves_handled;
  }

  no_splice : (before after : List Task) (task : Task) → before ++ task ∷ after ≢ []
  no_splice [] after task e = ground arith
  no_splice (t ∷ before) after task e = ground arith

  runs-Inv :
      (before : List Task) (task : Task) (after : List Task) (n : Node tokens qr)
      → n.tasks ≡ before ++ task ∷ after
      → IsFresh tokens qr task n.proof
      → Inv tokens qr keypair config n
      → Inv tokens qr keypair config (record n {
        proof = (run_task tokens qr task n.proof).0;
        tasks = before ++ (run_task tokens qr task n.proof).1 ++ after;
      })
  runs-Inv before task after n e fresh inv =
      let g = run_task-Grows tokens qr task n.proof fresh in
      let (same_key, same_config) = run_task-same tokens qr keypair config task n.proof in
      let split =
        subst (All (TaskOk tokens qr keypair config n.paid n.proof.sessions)) e inv.tasks_ok in
      let fits =
        All-at (TaskOk tokens qr keypair config n.paid n.proof.sessions) before task after split in
      record {
        same_key = same_key ∙ inv.same_key;
        same_config = same_config ∙ inv.same_config;
        sessions_backed =
            run_task-IsBacked tokens qr keypair config task n.proof n.paid inv.same_key
              inv.same_config inv.sessions_backed fits;
        index_sound =
            run_task-index tokens qr keypair config task n.proof n.paid g inv.index_sound fits;
        tasks_ok =
            All-splice (TaskOk tokens qr keypair config n.paid n.proof.sessions)
              (TaskOk tokens qr keypair config n.paid (run_task tokens qr task n.proof).0.sessions)
              (TaskOk-Grows tokens qr keypair config n.paid n.proof.sessions _ g) before task after
              (run_task tokens qr task n.proof).1 split
              (run_task-TaskOk tokens qr keypair config task n.proof n.paid inv.index_sound fits);
        quiet_start =
            λ q. absurd (no_splice before after task (sym e ∙ (inv.quiet_start q).no_tasks));
        handled_first = inv.handled_first;
        serves_handled = inv.serves_handled;
      }

  pub Step-Inv :
      (n m : Node tokens qr)
      → Step tokens qr n m
      → Inv tokens qr keypair config n
      → Inv tokens qr keypair config m
  Step-Inv n _ advances inv = advance-Inv n.program n refl inv
  Step-Inv n _ (reports event) inv = report-Inv event n.handler n refl inv
  Step-Inv n _ (requests gateway amount description rng now session response up made) inv =
      let (e1, waiting, e3, untouched, e5, e6) =
        prepare_invoice_lem tokens qr n.proof gateway amount description rng now session response
          made in
      record {
        same_key = inv.same_key;
        same_config = inv.same_config;
        sessions_backed = inv.sessions_backed;
        index_sound = inv.index_sound;
        tasks_ok =
            All-append (TaskOk tokens qr keypair config n.paid n.proof.sessions) n.tasks
              (storing session ∷ []) inv.tasks_ok (storing_ok waiting untouched, tt);
        quiet_start = λ q. absurd (not_quiet n.handler (inv.serves_handled up) q);
        handled_first = inv.handled_first;
        serves_handled = inv.serves_handled;
      }
    where
      not_quiet : (b : Bool) → b ≡ true → b ≢ false
      not_quiet b h h' = ground arith
  Step-Inv n _ (runs before task after e fresh) inv = runs-Inv before task after n e fresh inv

  pub Reach-Inv :
      (n : Node tokens qr)
      → Reach tokens qr (boot tokens qr keypair config) n
      → Inv tokens qr keypair config n
  Reach-Inv _ here = boot-Inv tokens qr keypair config
  Reach-Inv _ (next {m} {u} r st) = Step-Inv m u st (Reach-Inv m r)
