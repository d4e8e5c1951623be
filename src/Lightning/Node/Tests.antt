-- ===== src/Lightning/Node/Tests.antt =====
-- The process from its start until its first invoice is paid, in a concrete environment.
use lightining_pass.Base.{
  ◌≡◌, refl, subst, true, false, text_eq, if◌then◌else◌, none, some, ok, [], ◌∷◌, ◌++◌, Text, codes,
}
use lightining_pass.Base.Dict
use lightining_pass.Base.Dict.{get-empty}
use lightining_pass.Qr.{demo_qr}
use lightining_pass.Lightning.Qr.{render_ascii_qr, render_png_data_url}
use lightining_pass.Token.Demo.{demo}
use lightining_pass.Token.Tests.{test_key}
use lightining_pass.Lightning.Gateway.{on_event, invoice_paid}
use lightining_pass.Lightning.Proof.{
  AccessSession, StatusResponse, settled, ProofService, new_proof, prepare_invoice, store_invoice,
  create_invoice, check_invoice, handle,
}
use lightining_pass.Lightning.Proof.Tests.{
  gateway, rng, config, event, fresh, invoiced, stored, test_answer, stored_hash, written, drawn,
  art,
}
use lightining_pass.Lightning.Node.{
  bind, set_handler, serve, main_statements, execute, advance, storing, indexing, looking, paying,
  looked, Node, boot, run_task, IsFresh, report, Step, advances, reports, requests, runs, Reach,
  here, next,
}
use lightining_pass.Lightning.Node.Runs.{Grows}
use lightining_pass.Lightning.Node.Claims.{
  Shown, check_invoice-Shown, on_event_dropped, Reach-Grows, paying_settles,
}
use lightining_pass.Lightning.Node.Alone.{run_alone, create_invoice-run_alone}
use lightining_pass.Lightning.Node.Answered.{indexing-looked}

abbrev pub booted : Node demo demo_qr
booted = boot demo demo_qr test_key config

-- The process once the SDK is connected: events can come, and there is no handler.
abbrev connected_node : Node demo demo_qr
connected_node = record {
  program = bind ∷ set_handler ∷ serve ∷ [];
  handler = false;
  serves = false;
  proof = fresh;
  tasks = [];
  paid = [];
}

connected-Reach : Reach demo demo_qr booted connected_node
unfolding boot main_statements advance execute
connected-Reach = next here advances

on_event_dropped_example :
    (connected_node.serves ≡ false)
    × (on_event {Other = Unit {0}} none
          (invoice_paid (record { payment_hash = codes "h"; payment = none }))
          5
          fresh
        ≡ on_event {Other = Unit {0}}
            (some (handle demo demo_qr))
            (invoice_paid (record { payment_hash = codes "h"; payment = none }))
            5
            fresh)
on_event_dropped_example =
    on_event_dropped demo demo_qr test_key config connected_node connected-Reach refl
      (invoice_paid (record { payment_hash = codes "h"; payment = none })) 5

abbrev serving_node : Node demo demo_qr
serving_node = record {
  program = [];
  handler = true;
  serves = true;
  proof = fresh;
  tasks = [];
  paid = [];
}

serving-Reach : Reach demo demo_qr booted serving_node
unfolding boot main_statements advance execute
serving-Reach = next (next (next (next here advances) advances) advances) advances

made : prepare_invoice demo demo_qr fresh gateway none none rng 1000 ≡ ok (stored, test_answer)
unfolding prepare_invoice new_proof render_ascii_qr render_png_data_url
made = refl

new_id : Dict.get fresh.sessions stored.invoice_id ≡ none
unfolding new_proof
new_id = get-empty stored.invoice_id

new_hash : Dict.get fresh.payment_index stored.payment_hash ≡ none
unfolding new_proof
new_hash = get-empty stored.payment_hash

-- With the invoice stored.
abbrev invoiced_node : Node demo demo_qr
invoiced_node = record {
  program = [];
  handler = true;
  serves = true;
  proof = invoiced;
  tasks = [];
  paid = [];
}

invoiced-Reach : Reach demo demo_qr booted invoiced_node
unfolding run_task IsFresh create_invoice store_invoice prepare_invoice new_proof render_ascii_qr
    render_png_data_url
invoiced-Reach =
    next
      (next (next serving-Reach (requests gateway none none rng 1000 stored test_answer refl made))
        (runs [] (storing stored) [] refl new_id))
      (runs [] (indexing stored) [] refl new_hash)

abbrev pub paying_node : Node demo demo_qr
paying_node = record {
  program = [];
  handler = true;
  serves = true;
  proof = invoiced;
  tasks = paying event stored.invoice_id ∷ [];
  paid = codes "h" ∷ [];
}

-- The payment has been reported, and its task has read the index.
pub paying-Reach : Reach demo demo_qr booted paying_node
unfolding run_task IsFresh report looked
paying-Reach =
    next (next invoiced-Reach (reports event)) (looked_up (runs [] (looking event) [] refl tt))
  where
    looked_up :
        Step demo demo_qr (report demo demo_qr event true invoiced_node) (record paying_node {
          tasks = looked event (Dict.get invoiced.payment_index event.payment_hash) ++ [];
        })
        → Step demo demo_qr (report demo demo_qr event true invoiced_node) paying_node
    looked_up st =
        subst
          (λ found.
            Step demo demo_qr (report demo demo_qr event true invoiced_node)
              (record paying_node { tasks = looked event found ++ [] }))
          stored_hash st

pub paid_invoice :
    (s : AccessSession) × (Dict.get
        (run_task demo demo_qr (paying event stored.invoice_id) invoiced).0.sessions
        stored.invoice_id
      ≡ some s)
    × (s.status ≡ settled)
    × (s.payment_hash ≡ codes "h")
paid_invoice =
    paying_settles demo demo_qr test_key config paying_node paying-Reach [] event stored.invoice_id
      [] refl written drawn art

abbrev pub paid_node : Node demo demo_qr
paid_node = record {
  program = [];
  handler = true;
  serves = true;
  proof = (run_task demo demo_qr (paying event stored.invoice_id) invoiced).0;
  tasks = [];
  paid = codes "h" ∷ [];
}

pub last-Step : Step demo demo_qr paying_node paid_node
unfolding run_task IsFresh
last-Step = runs [] (paying event stored.invoice_id) [] refl tt

answered :
    (self : ProofService demo demo_qr) (id : Text) (s : AccessSession)
    → Dict.get self.sessions id ≡ some s
    → (response : StatusResponse) × (check_invoice demo demo_qr self id ≡ ok response)
unfolding check_invoice
answered self id s h = rw h (_, refl)

pub answer :
    (response : StatusResponse) × (check_invoice demo demo_qr paid_node.proof stored.invoice_id
      ≡ ok response)
answer = answered paid_node.proof stored.invoice_id (paid_invoice.0) (paid_invoice.1)

check_invoice-Shown_example :
    Shown demo demo_qr test_key config (codes "h" ∷ []) (paid_invoice.0) (answer.0)
check_invoice-Shown_example =
    check_invoice-Shown demo demo_qr test_key config paid_node (next paying-Reach last-Step)
      stored.invoice_id (paid_invoice.0) (answer.0) (paid_invoice.1) (answer.1)

Reach-Grows_example :
    Grows invoiced.sessions
      (run_task demo demo_qr (paying event stored.invoice_id) invoiced).0.sessions
Reach-Grows_example = Reach-Grows demo demo_qr paying_node paid_node (next here last-Step)

-- The process before the index is written.
abbrev indexing_node : Node demo demo_qr
indexing_node = record {
  program = [];
  handler = true;
  serves = true;
  proof = (run_task demo demo_qr (storing stored) fresh).0;
  tasks = indexing stored ∷ [];
  paid = [];
}

abbrev looking_node : Node demo demo_qr
looking_node = record {
  program = [];
  handler = true;
  serves = true;
  proof = invoiced;
  tasks = looking event ∷ [];
  paid = codes "h" ∷ [];
}

reported-Reach : Reach demo demo_qr invoiced_node looking_node
unfolding report
reported-Reach = next here (reports event)

indexing-looked_example :
    (run_task demo demo_qr (looking event) invoiced).1 ≡ paying event stored.invoice_id ∷ []
unfolding run_task create_invoice store_invoice prepare_invoice new_proof render_ascii_qr
    render_png_data_url
indexing-looked_example =
    indexing-looked demo demo_qr indexing_node invoiced_node looking_node stored event refl
      reported-Reach refl

create_invoice-run_alone_example :
    ((run_alone demo demo_qr 2 (storing stored ∷ []) fresh).1 ≡ [])
    × (create_invoice demo demo_qr fresh gateway none none rng 1000
        ≡ (ok test_answer, (run_alone demo demo_qr 2 (storing stored ∷ []) fresh).0))
    × (Dict.get (run_alone demo demo_qr 2 (storing stored ∷ []) fresh).0.sessions (codes "h") ≡ (
        if text_eq stored.invoice_id (codes "h")
        then some stored
        else Dict.get fresh.sessions (codes "h")))
    × (Dict.get (run_alone demo demo_qr 2 (storing stored ∷ []) fresh).0.payment_index (codes "h")
        ≡ (if text_eq stored.payment_hash (codes "h")
            then some stored.invoice_id
            else Dict.get fresh.payment_index (codes "h")))
    × ((run_alone demo demo_qr 2 (storing stored ∷ []) fresh).0.keypair ≡ test_key)
    × ((run_alone demo demo_qr 2 (storing stored ∷ []) fresh).0.config ≡ config)
unfolding new_proof
create_invoice-run_alone_example =
    create_invoice-run_alone demo demo_qr fresh gateway none none rng 1000 stored test_answer
      (codes "h") made
