-- ===== src/Lightning/Tests.antt =====
-- Funding, the configuration and the mock on concrete input.
use lightining_pass.Lightning.Connect.{BreezSdk}
use lightining_pass.Base.{◌≡◌, ◌↔◌, refl, arith, none, some, ok, err, [], Text, codes, Option}
use lightining_pass.Base.Dict
use lightining_pass.Base.Dict.{get-insert_self}
use lightining_pass.Lightning.Funding.{Faucet, FundingLayer, FundingResult, request_funds}
use lightining_pass.Lightning.Funding.Laws.{Funded, request_funds-ok_iff}
use lightining_pass.Lightning.Mock.{
  Store, Session, MockStatus, answer_mock, touched, mock_status, is_settled, mock_create_invoice,
  mock_check_invoice, mock_get_access_token,
}
use lightining_pass.Lightning.Mock.{get_health, get_invoice_access, mock_serve}
use lightining_pass.Lightning.Mock.Calls.{IsNew, Calls, done, more, mock_check_invoice-Calls}
use lightining_pass.Lightning.Proof.Tests.{gateway, rng, fresh}
use lightining_pass.Token.Demo.{demo}
use lightining_pass.Token.Tests.{test_key}
use lightining_pass.Qr.{demo_qr}
use lightining_pass.Lightning.Gateway.{Breez}
use lightining_pass.Lightning.Proof.{default_config}
use lightining_pass.Lightning.Node.{boot, past}
use lightining_pass.Lightning.Main.{Started, auto_fund, start_main}
use lightining_pass.Lightning.Main.Laws.{IsStarted, start_main-ok_iff}
use lightining_pass.Lightning.Access.{get_invoice, serve}
use lightining_pass.Lightning.Access.Laws.{Refused, serve-err_iff}

abbrev faucet : Faucet
faucet = record {
  Response = Unit {0};
  send = λ url body. ok tt;
  status = λ r. 200;
  json = λ r. ok (record { txid = some (codes "t"); sent_sats = none });
  show_status = λ n. codes "200 OK";
  debug_txid = λ t. [];
}

abbrev funding : FundingLayer (Unit {0})
funding = record {
  target = record { network = codes "n"; faucet_name = codes "f"; faucet_url = codes "u" };
  gateway = gateway;
  api_key = none;
}

abbrev funded_result : FundingResult
funded_result = record {
  address = codes "tb1";
  sats_requested = 5;
  faucet_txid = some (codes "t");
  target = funding.target;
}

request_funds-ok_iff_example :
    (request_funds faucet funding 5 ≡ ok funded_result) ↔ Funded faucet funding 5 funded_result
request_funds-ok_iff_example = request_funds-ok_iff faucet funding 5 funded_result

abbrev mocked : Store
mocked = (mock_create_invoice Dict.empty rng rng 10).1

abbrev mocked_id : Text
mocked_id = (mock_create_invoice Dict.empty rng rng 10).0.invoice_id

abbrev held : Session
held = record {
  invoice_id = codes "i";
  invoice = codes "lnbc";
  amount_msat = 250000;
  created_at = 10;
  expires_at = 910;
  access_token = some (codes "access_a");
}

abbrev held_answer : MockStatus
held_answer = record {
  status = codes "settled";
  expires_at = 910;
  access_token = some (codes "access_a");
  access_qr_png = none;
  access_qr_ascii = none;
}

abbrev held_store : Store
held_store = Dict.insert Dict.empty (codes "i") held

first_answer : (mock_check_invoice held_store (codes "i") rng 20).0 ≡ ok held_answer
unfolding mock_check_invoice answer_mock touched mock_status is_settled
first_answer = rw (get-insert_self Dict.empty (codes "i") held) refl

-- After a question for the mock's health, and one for the invoice.
abbrev busy_store : Store
busy_store =
    (mock_serve (mock_serve (mock_check_invoice held_store (codes "i") rng 20).1 get_health 21).1
      (get_invoice_access (codes "i") rng) 22).1

between : Calls (mock_check_invoice held_store (codes "i") rng 20).1 busy_store
unfolding IsNew
between = more (more done get_health 21 tt) (get_invoice_access (codes "i") rng) 22 tt

mock_check_invoice-Calls_example :
    ((mock_check_invoice busy_store (codes "i") rng 30).0 ≡ ok held_answer)
    × ((mock_get_access_token busy_store (codes "i") rng 30).0 ≡ ok held_answer)
mock_check_invoice-Calls_example =
    mock_check_invoice-Calls held_store (codes "i") rng rng 20 30 held_answer busy_store
      first_answer refl between (omega arith)

abbrev sdk : BreezSdk
sdk = record {
  Seed = Text;
  Services = Text;
  create_dir_all = λ path. ok tt;
  mnemonic_to_seed = λ mnemonic. ok mnemonic;
  connect = λ request. ok request.seed;
}

abbrev breez : Breez
breez = record {
  PaymentStatus = Unit {0};
  OtherEvent = Unit {0};
  receive_payment =
      λ amount description expiry. ok (record { bolt11 = codes "lnbc"; payment_hash = codes "h" });
  receive_onchain = ok (codes "tb1");
  send_payment = λ bolt11 use_trampoline amount. ok tt;
}

abbrev words : Text → Option Text
words key = some (codes "word")

abbrev node_started : Started demo demo_qr sdk (λ services. breez) faucet
node_started = record {
  services = codes "word";
  auto_funding = auto_fund demo demo_qr sdk (λ services. breez) faucet words (codes "word");
  node =
      past demo demo_qr
        (past demo demo_qr (boot demo demo_qr test_key (default_config (codes "live-event"))));
}

start_main-ok_iff_example :
    (start_main demo demo_qr sdk (λ services. breez) faucet words test_key (ok tt)
      ≡ ok node_started)
    ↔ IsStarted demo demo_qr sdk (λ services. breez) faucet words test_key (ok tt) node_started
start_main-ok_iff_example =
    start_main-ok_iff demo demo_qr sdk (λ services. breez) faucet words test_key (ok tt)
      node_started

serve-err_iff_example :
    (((serve demo demo_qr fresh gateway (get_invoice (codes "i")) rng 1000).0 ≡ err 404)
      ↔ Refused demo demo_qr fresh gateway rng 1000 (get_invoice (codes "i")) 404)
    × (Refused demo demo_qr fresh gateway rng 1000 (get_invoice (codes "i")) 404
        → (serve demo demo_qr fresh gateway (get_invoice (codes "i")) rng 1000).1 ≡ fresh)
serve-err_iff_example =
    serve-err_iff demo demo_qr fresh gateway (get_invoice (codes "i")) rng 1000 404
