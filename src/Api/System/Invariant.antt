-- ===== src/Api/System/Invariant.antt =====
-- What holds of the server after any steps: every session is either unpaid and bare, or backed by a
-- record of Horizon that confirms its request.
use lightining_pass.Base.{
  ℕ, ◌≡◌, ◌⊎◌, inl, inr, arith, true, false, none, some, ok, List, ◌++◌, Text, All, Once, [], codes,
  text_eq, is_empty, unwrap_or, if◌then◌else◌,
}
use mathlib.Core.List.{Memᴰ}
use mathlib.Core.List.Memᴰ
use lightining_pass.Token.Types.{AccessToken}
use lightining_pass.Token.Sign.{sign_token_to_string}
use lightining_pass.Stellar.Types.{PaymentRecord}
use lightining_pass.Stellar.Provider.{StellarProvider}
use lightining_pass.Stellar.Confirms.{Confirms}
use lightining_pass.Api.Env.{ApiEnv}
use lightining_pass.Api.Sessions.{SessionRecord, PaymentService, get}
use lightining_pass.Api.Sessions.Laws.{get-new_service}
use lightining_pass.Api.Access.{AccessService}
use lightining_pass.Api.System.{Server, start}

-- No payment is known, and nothing was issued.
pub record IsBare (r : SessionRecord) : Type 0 where
  pub unpaid : r.paid ≡ false
  pub no_tx : r.tx_hash ≡ none
  pub no_token : r.access_token ≡ none
  pub no_png : r.access_qr_png ≡ none
  pub no_ascii : r.access_qr_ascii ≡ none

abbrev pub id_of : SessionRecord → Text
id_of r = r.payment_request.session_id

-- The transaction's hash, and the id of a record that has none.
abbrev pub tx_of : PaymentRecord → Text
tx_of found = if is_empty found.transaction_hash then found.id else found.transaction_hash

-- What the token of a session is signed for, once the record has paid it.
abbrev pub pass_for : SessionRecord → PaymentRecord → Text → AccessToken
pass_for r found nonce = record {
  version = 1;
  event_id = r.event_id;
  payment_hash = [];
  tx_hash = tx_of found;
  source = found.from;
  amount = found.amount;
  asset =
      if text_eq found.asset_type (codes "native")
      then codes "XLM"
      else unwrap_or found.asset_code found.asset_type;
  memo = unwrap_or found.memo [];
  ledger = unwrap_or found.ledger 0;
  expires_at = r.expires_at;
  nonce = nonce;
}

module _ (env : ApiEnv) (provider : StellarProvider) (access : AccessService env) where
  -- The session is paid by a record that Horizon answered and that confirms its request, and its
  -- token is signed for what that record holds.
  pub record IsBacked (seen : List PaymentRecord) (r : SessionRecord) : Type 0 where
    pub paid : r.paid ≡ true
    pub found : PaymentRecord
    pub answered_before : Memᴰ found seen
    pub confirms :
        Confirms r.payment_request.destination r.payment_request.memo r.payment_request.amount
          r.payment_request.asset found
    pub nonce : Text
    pub text : Text
    pub token : r.access_token ≡ some text
    pub tx : r.tx_hash ≡ some (tx_of found)
    pub signed :
        sign_token_to_string env.tokens (pass_for r found nonce) access.signing_key ≡ ok text

  -- A session stands under its id, and asks for money at the configured address.
  pub record IsStored (seen : List PaymentRecord) (k : Text) (r : SessionRecord) : Type 0 where
    pub id : r.payment_request.session_id ≡ k
    pub memo : r.payment_request.memo ≡ k
    pub destination : r.payment_request.destination ≡ provider.config.destination_address
    pub state : IsBare r ⊎ IsBacked seen r

  -- A queued session is the stored one, and waits for its payment.
  pub record IsQueued (service : PaymentService) (r : SessionRecord) : Type 0 where
    pub stored : get service r.payment_request.session_id ≡ some r
    pub unpaid : r.paid ≡ false

  pub record Inv (w : Server) : Type 0 where
    pub sessions : (k : Text) (r : SessionRecord) → get w.service k ≡ some r → IsStored w.seen k r
    pub queue : All (IsQueued w.service) w.queue
    pub once : Once id_of w.queue

  pub start-Inv : (ttl now : ℕ) → Inv (start env provider access ttl now)
  unfolding start
  start-Inv ttl now = record {
    sessions = λ k r h. absurd (ground (arith, get-new_service ttl k));
    queue = tt;
    once = tt;
  }

  IsBacked-append :
      (seen more : List PaymentRecord) (r : SessionRecord)
      → IsBacked seen r
      → IsBacked (seen ++ more) r
  IsBacked-append seen more r b = record {
    paid = b.paid;
    found = b.found;
    answered_before = Memᴰ.append_left more b.answered_before;
    confirms = b.confirms;
    nonce = b.nonce;
    text = b.text;
    token = b.token;
    tx = b.tx;
    signed = b.signed;
  }

  pub IsStored-append :
      (seen more : List PaymentRecord) (k : Text) (r : SessionRecord)
      → IsStored seen k r
      → IsStored (seen ++ more) k r
  IsStored-append seen more k r s = record {
    id = s.id;
    memo = s.memo;
    destination = s.destination;
    state = state_append s.state;
  }
    where
      state_append : IsBare r ⊎ IsBacked seen r → IsBare r ⊎ IsBacked (seen ++ more) r
      state_append (inl b) = inl b
      state_append (inr b) = inr (IsBacked-append seen more r b)
