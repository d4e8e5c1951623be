-- ===== src/Api/Sessions.antt =====
-- crates/api_server/src/services/payment_service.rs. The shared map is a state that each operation
-- takes and returns; the clock's reading in a call is the argument `now`. `Text` stands for the
-- message of an `anyhow::Error`.
pub mod Laws
use lightining_pass.Base.{
  ℕ, Bool, true, false, not, ◌&&◌, ◌||◌, Option, none, some, Result, ok, err, ◌>>=◌, ok_or, List,
  ◌++◌, Text, codes, ltb, leb, is_some, if◌then◌else◌, add_u64, filter_by,
}
use mathlib.Core.Option
use lightining_pass.Base.Dict
use lightining_pass.Base.Dict.{Dict}
use lightining_pass.SharedTypes.{PaymentRequest, PaymentStatusResponse}
use lightining_pass.Api.Env.{ApiEnv}

pub record AccessArtifact : Type 0 where
  pub token : Text
  pub qr_png : Text
  pub qr_ascii : Text
  pub tx_hash : Text

pub record SessionRecord : Type 0 where
  pub payment_request : PaymentRequest
  pub event_id : Text
  pub paid : Bool
  pub expires_at : ℕ
  pub tx_hash : Option Text
  pub access_token : Option Text
  pub access_qr_png : Option Text
  pub access_qr_ascii : Option Text

pub record PaymentService : Type 0 where
  pub sessions : Dict SessionRecord
  pub token_ttl_secs : ℕ

-- `PaymentService::new`.
unfoldable pub new_service : ℕ → PaymentService
new_service token_ttl_secs = record { sessions = Dict.empty; token_ttl_secs = token_ttl_secs }

-- The record that `insert_session` makes.
unfoldable pub new_session : PaymentService → PaymentRequest → ℕ → Text → ℕ → SessionRecord
new_session self payment_request request_expiry_secs event_id now = record {
  expires_at = add_u64 now self.token_ttl_secs;
  payment_request = record payment_request { expires_at = add_u64 now request_expiry_secs };
  event_id = event_id;
  paid = false;
  tx_hash = none;
  access_token = none;
  access_qr_png = none;
  access_qr_ascii = none;
}

unfoldable pub insert_session :
    PaymentService → PaymentRequest → ℕ → Text → ℕ → SessionRecord × PaymentService
insert_session self payment_request request_expiry_secs event_id now =
    let r = new_session self payment_request request_expiry_secs event_id now in
    (r, record self { sessions = Dict.insert self.sessions r.payment_request.session_id r })

unfoldable pub get : PaymentService → Text → Option SessionRecord
get self session_id = Dict.get self.sessions session_id

unfoldable pub is_pending : ℕ → SessionRecord → Bool
is_pending now r = not r.paid && ltb now r.payment_request.expires_at

unfoldable pub pending_sessions : PaymentService → ℕ → List SessionRecord
pending_sessions self now = filter_by (is_pending now) (Dict.values self.sessions)

-- The record that `mark_paid` leaves in the map.
unfoldable pub settled : SessionRecord → AccessArtifact → SessionRecord
settled session artifact = record session {
  paid = true;
  tx_hash = some artifact.tx_hash;
  access_token = some artifact.token;
  access_qr_png = some artifact.qr_png;
  access_qr_ascii = some artifact.qr_ascii;
}

unfoldable pub mark_paid : PaymentService → Text → AccessArtifact → Result PaymentService Text
unfolding settled
mark_paid self session_id artifact = do
  session ← ok_or (codes "unknown session: " ++ session_id) (Dict.get self.sessions session_id)
  ok (record self { sessions = Dict.insert self.sessions session_id (settled session artifact) })

unfoldable pub status_of : SessionRecord → ℕ → Text
status_of session now =
    if is_some session.access_token
    then codes "confirmed"
    else if session.paid || is_some session.tx_hash
    then codes "detected"
    else if leb session.payment_request.expires_at now
    then codes "expired"
    else codes "waiting"

module _ (env : ApiEnv) where
  -- The token's JSON, or the token as a string where it is no JSON.
  unfoldable pub token_value : Text → env.Value
  token_value token = elim (env.value_from_str token) [ ok v ↦ v | err e ↦ env.value_string token ]

  unfoldable pub to_status_response : SessionRecord → ℕ → PaymentStatusResponse env.Value
  to_status_response session now = record {
    session_id = session.payment_request.session_id;
    status = status_of session now;
    paid = session.paid;
    request_expires_at = session.payment_request.expires_at;
    expires_at = session.expires_at;
    payment_request = session.payment_request;
    tx_hash = session.tx_hash;
    access_token = Option.map token_value session.access_token;
    access_qr_png = session.access_qr_png;
    access_qr_ascii = session.access_qr_ascii;
  }
