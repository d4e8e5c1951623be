-- ===== src/Gate/Tests.antt =====
-- A pass of each service at the gate, in a concrete environment.
use lightining_pass.Base.{
  arith, sym, ap, ◌∙◌, ℕ, ◌<◌, ◌≡◌, ◌↔◌, refl, subst, none, some, Result, ok, [], ◌∷◌, ◌++◌, Text,
  codes, leb, ltb, if◌then◌else◌, text_eq,
}
use mathlib.Core.List.{Memᴰ}
use mathlib.Core.Option
use lightining_pass.Text.Trim.{trim_end_matches}
use lightining_pass.Token.Demo.{demo}
use lightining_pass.Token.Tests.{test_key}
use lightining_pass.Qr.{demo_qr}
use lightining_pass.Stellar.Types.{PaymentRecord}
use lightining_pass.Stellar.Client.{new_client}
use lightining_pass.Stellar.Provider.{new_provider, stellar_provider}
use lightining_pass.Stellar.Confirms.{Confirms}
use lightining_pass.Stellar.Tests.{test_provider, test_horizon}
use lightining_pass.Api.Config.{
  Vars, load_stellar_config, load_signing_key, token_expiry_secs, watch_interval_secs, read_u64_env,
}
use lightining_pass.Api.Boot.{Booted, boot, start_server}
use lightining_pass.Api.Boot.Laws.{IsBooted, start_server-ok_iff}
use lightining_pass.Api.Tests.{api, access, memo, rng}
use lightining_pass.Api.System.Tests.{
  w1, Reach-1, no_queue, stored_in_w1, run_session, issued_run, w0, w3, Reach-all, settled_at_visit,
  settled_in_w3,
}
use lightining_pass.Lightning.Qr.{render_ascii_qr, render_png_data_url}
use lightining_pass.Lightning.Proof.{
  StatusResponse, new_proof, prepare_invoice, store_invoice, create_invoice, check_invoice,
  pay_indexed, handle_payment,
}
use lightining_pass.Lightning.Proof.Payments.{handle_payment_settles}
use lightining_pass.Lightning.Proof.Tests.{
  config, event, invoiced, stored, stored_session, stored_hash, written, drawn, art,
}
use lightining_pass.Lightning.Node.{next, run_task}
use lightining_pass.Lightning.Node.Tests.{
  paying_node, paid_node, paying-Reach, last-Step, paid_invoice,
}
use lightining_pass.Verifier.{Args, token_text, main}
use lightining_pass.Verifier.Tests.{venv, loaded_key, space_1}
use lightining_pass.Gate.Admits.{Shows, Shows-unique, settled_session, payer_admitted}
use lightining_pass.Gate.Invoices.{Answers, Answers-unique, payment_admitted}
use lightining_pass.Stellar.Client.{Horizon}
use lightining_pass.Random.{Samples}
use lightining_pass.Api.System.Rounds.{watch_round_settles}
use lightining_pass.Api.System.{start}
use lightining_pass.Api.Sessions.{PaymentService, new_session, new_service}
use lightining_pass.Api.System.Rounds.Tests.{pays, unpaid, open_session}
use lightining_pass.Api.Sessions.{get}
use lightining_pass.Api.Watcher.{watch_round}
use lightining_pass.Gate.{gate, Reads, paid_session-main, paid_invoice-main}

-- Only the account to pay to, and the URL of Horizon, are set.
abbrev pub vars : Vars
vars k =
    if text_eq k (codes "STELLAR_DESTINATION_ADDRESS")
    then some (codes "GD")
    else if text_eq k (codes "STELLAR_HORIZON_URL")
    then some (codes "h")
    else none

abbrev pub booted : Booted api
booted = record {
  payment_provider = test_provider;
  access_service = access;
  server = w0;
  watch_interval = 3;
}

pub boots : boot api vars test_key 1000 ≡ ok booted
unfolding boot load_stellar_config load_signing_key token_expiry_secs watch_interval_secs
    read_u64_env new_provider new_client text_eq trim_end_matches Option.bind
boots = refl

start_server-ok_iff_example :
    (start_server api vars test_key 1000 (ok tt) ≡ ok booted)
    ↔ ((◌≡◌ {A = Result (Unit {0}) Text} (ok tt) (ok tt)) × IsBooted api vars test_key 1000 booted)
start_server-ok_iff_example = start_server-ok_iff api vars test_key 1000 (ok tt) booted

-- The text with some space around it, and the file of the key.
abbrev pub given_args : Text → Args
given_args text = record {
  public_key = some (codes "key.pub");
  token = some (codes " " ++ text ++ codes "  ");
  qr_image = none;
}

pub reads : (text : Text) → Reads (gate demo venv) (given_args text) test_key text
unfolding token_text
reads text = record {
  before = codes " ";
  after = codes "  ";
  loaded = loaded_key;
  space_before = (space_1, tt);
  space_after = (space_1, (space_1, tt));
  given = refl;
}

paid_session-main_example :
    ((found : PaymentRecord) × Memᴰ found w3.seen
      × Confirms
          (settled_at_visit.0).payment_request.destination
          (settled_at_visit.0).payment_request.memo
          (settled_at_visit.0).payment_request.amount
          (settled_at_visit.0).payment_request.asset
          found)
    × (main venv (given_args settled_at_visit.3.0) 1100 1100 ≡ (
        if leb (settled_at_visit.0).expires_at 1100
        then (codes "INVALID", 1)
        else (codes "VALID", 0)))
paid_session-main_example =
    paid_session-main venv api vars test_key 1000 booted boots w3 Reach-all memo
      (settled_at_visit.0) (settled_at_visit.3.0) settled_in_w3 (settled_at_visit.3.1)
      (given_args settled_at_visit.3.0) 1100 1100 (reads settled_at_visit.3.0)

-- The task of the payment leaves the service that `handle_payment` leaves.
paid_service : (handle_payment demo demo_qr invoiced event).1 ≡ paid_node.proof
unfolding handle_payment pay_indexed run_task
paid_service = rw stored_hash refl

shown_token :
    (response : StatusResponse) × (token : Text) × (check_invoice demo demo_qr paid_node.proof
        stored.invoice_id
      ≡ ok response)
    × (response.access_token ≡ some token)
unfolding create_invoice store_invoice prepare_invoice new_proof render_ascii_qr render_png_data_url
shown_token =
    let (response, token, shown, e1, e2, given, e4) =
      handle_payment_settles demo demo_qr invoiced event stored.invoice_id stored written drawn art
        stored_hash stored_session refl in
    (
      response,
      token,
      subst (λ self. check_invoice demo demo_qr self stored.invoice_id ≡ ok response) paid_service
          shown,
      given,
    )

paid_invoice-main_example :
    Memᴰ (paid_invoice.0).payment_hash (codes "h" ∷ [])
    × (main venv (given_args shown_token.1) 1120 1120 ≡ (
        if ltb (paid_invoice.0).expires_at 1120 then (codes "INVALID", 1) else (codes "VALID", 0)))
paid_invoice-main_example =
    paid_invoice-main venv demo demo_qr test_key config paid_node (next paying-Reach last-Step)
      stored.invoice_id (paid_invoice.0) (shown_token.0) (shown_token.1) (paid_invoice.1)
      (shown_token.2) (shown_token.3) (given_args shown_token.1) 1120 1120 (reads shown_token.1)

abbrev replies : ℕ → Horizon × Samples
replies i = (test_horizon memo, rng)

abbrev after_round : PaymentService
after_round = watch_round api (stellar_provider test_provider) access replies w1.now w1.service

shown_pass : (text : Text) × Shows after_round memo text
shown_pass =
    let (u, r', text, more, same, stored', shown, expiry) =
      settled_session api test_provider access 300 1000 w1 Reach-1 no_queue memo run_session
        stored_in_w1 replies
        (watch_round_settles api test_provider access 300 1000 w1 Reach-1 no_queue memo run_session
          stored_in_w1 unpaid open_session replies (λ i. pays) (λ i. issued_run)) in
    (text, (r', ap (λ s. get s memo) (sym same) ∙ stored', shown))

pass-Reads :
    (text : Text)
    → Shows after_round memo text
    → Reads (gate demo venv) (given_args shown_pass.0) test_key text
pass-Reads text shows =
    subst (Reads (gate demo venv) (given_args shown_pass.0) test_key)
      (Shows-unique after_round memo shown_pass.0 text shown_pass.1 shows) (reads shown_pass.0)

in_time : 1100 < run_session.expires_at
unfolding new_session start new_service
in_time = omega arith

payer_admitted_example :
    ((text : Text) × Shows after_round memo text)
    × (main venv (given_args shown_pass.0) 1100 1100 ≡ (codes "VALID", 0))
payer_admitted_example =
    payer_admitted venv api vars test_key 1000 booted boots w1 Reach-1 no_queue memo run_session
      stored_in_w1 unpaid open_session replies (λ i. pays) (λ i. issued_run)
      (given_args shown_pass.0) 1100 1100 pass-Reads in_time

shown_answer : Answers demo demo_qr paid_node.proof stored.invoice_id shown_token.1
shown_answer = (shown_token.0, shown_token.2, shown_token.3)

answer-Reads :
    (text : Text)
    → Answers demo demo_qr paid_node.proof stored.invoice_id text
    → Reads (gate demo venv) (given_args shown_token.1) test_key text
answer-Reads text answers =
    subst (Reads (gate demo venv) (given_args shown_token.1) test_key)
      (Answers-unique demo demo_qr paid_node.proof stored.invoice_id shown_token.1 text shown_answer
        answers)
      (reads shown_token.1)

payment_admitted_example :
    ((text : Text) × Answers demo demo_qr paid_node.proof stored.invoice_id text)
    × (main venv (given_args shown_token.1) 1100 1120 ≡ (codes "VALID", 0))
payment_admitted_example =
    payment_admitted venv demo demo_qr test_key config paying_node paying-Reach [] event
      stored.invoice_id [] refl written drawn art stored stored_session (given_args shown_token.1)
      1100 1120 answer-Reads (omega arith)
