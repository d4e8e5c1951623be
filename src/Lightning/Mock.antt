-- ===== src/Lightning/Mock.antt =====
-- crates/lightning_node/src/bin/mock.rs: the stand-in for the Lightning service. The
-- shared map is a state; the clock's reading in a call is `now`.
pub mod Laws
pub mod Calls
use lightining_pass.Base.{
  ℕ, ◌-◌, [], Bool, true, false, not, ◌&&◌, Option, none, some, Result, ok, err, ◌++◌, Text, codes,
  leb, is_some, if◌then◌else◌, add_u64, map_ok, unwrap_or,
}
use lightining_pass.Base.Dict
use lightining_pass.Base.Dict.{Dict}
use lightining_pass.Random.{Samples, random_text}
use lightining_pass.Text.Case.{to_lowercase}
use lightining_pass.Text.Decimal.{show_u64}

pub record Session : Type 0 where
  pub invoice_id : Text
  pub invoice : Text
  pub amount_msat : ℕ
  pub created_at : ℕ
  pub expires_at : ℕ
  pub access_token : Option Text

pub record MockInvoice : Type 0 where
  pub invoice_id : Text
  pub amount_msat : ℕ
  pub invoice : Text
  pub invoice_qr_png : Text
  pub invoice_qr_ascii : Text
  pub expires_at : ℕ

pub record MockStatus : Type 0 where
  pub status : Text
  pub expires_at : ℕ
  pub access_token : Option Text
  pub access_qr_png : Option Text
  pub access_qr_ascii : Option Text

abbrev pub Store : Type 0
Store = Dict Session

abbrev pub default_amount_msat : ℕ
default_amount_msat = 250000

abbrev pub settle_after_secs : ℕ
settle_after_secs = 6

abbrev pub expiry_secs : ℕ
expiry_secs = 900

unfoldable pub mock_random_id : ℕ → Samples → Text
mock_random_id len rng = to_lowercase (random_text len rng)

-- The session of a new invoice: `rng` draws its id, `rng'` the rest of its text.
abbrev pub made : Samples → Samples → (now : ℕ) → Session
made rng rng' now = record {
  invoice_id = mock_random_id 12 rng;
  invoice = codes "lnbc" ++ show_u64 default_amount_msat ++ mock_random_id 18 rng';
  amount_msat = default_amount_msat;
  created_at = now;
  expires_at = add_u64 now expiry_secs;
  access_token = none;
}

unfoldable pub mock_create_invoice : Store → Samples → Samples → (now : ℕ) → MockInvoice × Store
mock_create_invoice store rng rng' now =
    let session = made rng rng' now in
    (
      record {
        invoice_id = session.invoice_id;
        amount_msat = default_amount_msat;
        invoice = session.invoice;
        invoice_qr_png = [];
        invoice_qr_ascii = [];
        expires_at = session.expires_at;
      },
      Dict.insert store session.invoice_id session,
    )

-- `now_secs().saturating_sub(session.created_at) >= SETTLE_AFTER_SECS`
unfoldable pub is_settled : Session → ℕ → Bool
is_settled session now = leb settle_after_secs (now - session.created_at)

-- The session after the write through `get_mut`.
unfoldable pub touched : Session → Samples → ℕ → Session
unfolding is_settled
touched session rng now =
    if is_settled session now && not (is_some session.access_token)
    then record session { access_token = some (codes "access_" ++ mock_random_id 24 rng) }
    else session

unfoldable pub mock_status : Session → ℕ → MockStatus
unfolding is_settled
mock_status session now = record {
  status = if is_settled session now then codes "settled" else codes "pending";
  expires_at = session.expires_at;
  access_token = session.access_token;
  access_qr_png = none;
  access_qr_ascii = none;
}

unfoldable pub answer_mock :
    Store → Text → Option Session → Samples → ℕ → Result MockStatus ℕ × Store
unfolding touched mock_status
answer_mock store invoice_id none rng now = (err 404, store)
answer_mock store invoice_id (some session) rng now =
    let session' = touched session rng now in
    (ok (mock_status session' now), Dict.insert store invoice_id session')

unfoldable pub mock_check_invoice : Store → Text → Samples → ℕ → Result MockStatus ℕ × Store
unfolding answer_mock
mock_check_invoice store invoice_id rng now =
    answer_mock store invoice_id (Dict.get store invoice_id) rng now

-- The body of `get_access_token` is that of `check_invoice`.
unfoldable pub mock_get_access_token : Store → Text → Samples → ℕ → Result MockStatus ℕ × Store
unfolding answer_mock
mock_get_access_token store invoice_id rng now =
    answer_mock store invoice_id (Dict.get store invoice_id) rng now

-- `LIGHTNING_NODE_BIND`
unfoldable pub bind_addr_of : Option Text → Text
bind_addr_of var = unwrap_or var (codes "0.0.0.0:3000")

unfoldable pub health : Text
health = codes "ok"

-- The four routes, with what their handlers take from a request and draw at random.
pub data MockCall : Type 0 where
  post_invoice : (rng rng' : Samples) → MockCall
  get_invoice : (invoice_id : Text) (rng : Samples) → MockCall
  get_invoice_access : (invoice_id : Text) (rng : Samples) → MockCall
  get_health : MockCall

pub data MockReply : Type 0 where
  invoice_reply : MockInvoice → MockReply
  status_reply : MockStatus → MockReply
  health_reply : Text → MockReply

unfoldable pub mock_serve : Store → MockCall → (now : ℕ) → Result MockReply ℕ × Store
mock_serve store (post_invoice rng rng') now =
    let (invoice, store') = mock_create_invoice store rng rng' now in
    (ok (invoice_reply invoice), store')
mock_serve store (get_invoice invoice_id rng) now =
    let (r, store') = mock_check_invoice store invoice_id rng now in (map_ok status_reply r, store')
mock_serve store (get_invoice_access invoice_id rng) now =
    let (r, store') = mock_get_access_token store invoice_id rng now in
    (map_ok status_reply r, store')
mock_serve store get_health now = (ok (health_reply health), store)
