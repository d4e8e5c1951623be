-- ===== src/Lightning/Proof/Tests.antt =====
-- The proof service on one invoice, in a concrete environment.
use lightining_pass.Base.{◌↔◌, ℕ, ◌≡◌, refl, true, none, some, ok, List, ◌++◌, Text, codes}
use lightining_pass.Base.Dict
use lightining_pass.Base.Dict.{get-insert_self}
use lightining_pass.Random.{Samples}
use lightining_pass.Qr.{demo_qr}
use lightining_pass.Lightning.Qr.{render_ascii_qr, render_png_data_url}
use lightining_pass.Token.Types.{CompactAccessPayload}
use lightining_pass.Token.Compact.{verify_compact_token}
use lightining_pass.Token.Demo.{demo, payload_bytes}
use lightining_pass.Token.Tests.{test_key}
use lightining_pass.Lightning.Proof.Events.{on_event_settles}
use lightining_pass.Lightning.Gateway.{on_event, invoice_paid, LightningGateway, PaymentEvent}
use lightining_pass.Lightning.Proof.{
  InvoiceResponse, AppConfig, AccessSession, StatusResponse, pending, ProofService, random_id,
  new_proof, prepare_invoice, store_invoice, create_invoice, check_invoice, handle,
}
use lightining_pass.Lightning.Proof.Invoices.{
  Created, create_invoice-Created, Offered, create_invoice-ok_iff,
}

abbrev pub gateway : LightningGateway (Unit {0})
gateway = record {
  create_invoice =
      λ amount memo expiry. ok (record { invoice = codes "lnbc"; payment_hash = codes "h" });
  new_onchain_address = ok (codes "tb1");
  pay_invoice = λ bolt11 amount. ok tt;
}

abbrev pub rng : Samples
rng i = b'a'

abbrev pub config : AppConfig
config = record {
  demo_mode = true;
  event_id = codes "e";
  invoice_expiry_secs = 120;
  amount_msat = 250;
}

abbrev pub event : PaymentEvent
event = record { payment_hash = codes "h"; amount_msat = 250; timestamp = 5 }

abbrev pub fresh : ProofService demo demo_qr
fresh = new_proof demo demo_qr test_key config

abbrev pub invoiced : ProofService demo demo_qr
invoiced = (create_invoice demo demo_qr fresh gateway none none rng 1000).1

abbrev pub stored : AccessSession
stored = record {
  invoice_id = random_id rng;
  payment_hash = codes "h";
  amount_msat = 250;
  expires_at = 1120;
  invoice_qr_png = codes "data:image/png;base64,lnbc";
  access_qr_ascii = none;
  status = pending;
  access_token = none;
  access_qr_png = none;
}

create_invoice-Created_example :
    Created demo demo_qr fresh
      (create_invoice demo demo_qr fresh gateway none none rng 1000).0
      (create_invoice demo demo_qr fresh gateway none none rng 1000).1
create_invoice-Created_example =
    create_invoice-Created demo demo_qr fresh gateway none none rng 1000

abbrev pub test_answer : InvoiceResponse
test_answer = record {
  invoice_id = random_id rng;
  amount_msat = 250;
  invoice = codes "lnbc";
  invoice_qr_png = codes "data:image/png;base64,lnbc";
  invoice_qr_ascii = codes "lnbc";
  expires_at = 1120;
}

create_invoice-ok_iff_example :
    ((create_invoice demo demo_qr fresh gateway none none rng 1000).0 ≡ ok test_answer)
    ↔ Offered demo demo_qr fresh gateway none none rng 1000 test_answer
create_invoice-ok_iff_example =
    create_invoice-ok_iff demo demo_qr fresh gateway none none rng 1000 test_answer

pub stored_session : Dict.get invoiced.sessions (random_id rng) ≡ some stored
unfolding create_invoice store_invoice prepare_invoice new_proof render_ascii_qr render_png_data_url
stored_session = get-insert_self Dict.empty (random_id rng) stored

pub stored_hash : Dict.get invoiced.payment_index event.payment_hash ≡ some (random_id rng)
unfolding create_invoice store_invoice prepare_invoice new_proof render_ascii_qr render_png_data_url
stored_hash = get-insert_self Dict.empty (codes "h") (random_id rng)

pub written : (p : CompactAccessPayload) → (b : List ℕ) × (demo.payload_to_vec p ≡ ok b)
written p = (payload_bytes p, refl)

pub drawn : (t : Text) → (png : Text) × (render_png_data_url demo_qr t 320 ≡ ok png)
unfolding render_png_data_url
drawn t = (codes "data:image/png;base64," ++ t, refl)

pub art : (t : Text) → (a : Text) × (render_ascii_qr demo_qr t ≡ ok a)
unfolding render_ascii_qr
art t = (t, refl)

on_event_settles_example :
    (response : StatusResponse) × (token : Text) × (check_invoice demo demo_qr
        (on_event {Other = Unit {0}}
          (some (handle demo demo_qr))
          (invoice_paid (record { payment_hash = codes "h"; payment = none }))
          5
          invoiced)
        (random_id rng)
      ≡ ok response)
    × (response.status ≡ codes "settled")
    × (response.expires_at ≡ 1120)
    × (response.access_token ≡ some token)
    × (verify_compact_token demo token test_key
        ≡ ok (record { payment_hash = codes "h"; expires_at = 1120; event_id = codes "e" }))
unfolding create_invoice store_invoice prepare_invoice new_proof render_ascii_qr render_png_data_url
on_event_settles_example =
    on_event_settles demo demo_qr (Unit {0}) invoiced
      (record { payment_hash = codes "h"; payment = none }) 5 (random_id rng) stored written drawn
      art stored_hash stored_session refl
