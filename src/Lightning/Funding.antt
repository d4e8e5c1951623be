-- ===== src/Lightning/Funding.antt =====
-- crates/lightning_node/src/layers/funding.rs. The crate reqwest and serde_json's reading of the answer
-- are not in the repository: `Faucet` holds what is called of them.
pub mod Laws
use lightining_pass.Base.{
  ℕ, Bool, true, false, ◌&&◌, Option, none, some, Result, ok, err, ◌>>=◌, ◌>>◌, map_err, guard,
  ◌++◌, Text, codes, leb, ltb, if◌then◌else◌, unwrap_or,
}
use lightining_pass.Lightning.Gateway.{LightningGateway}

pub record FundingTarget : Type 0 where
  pub network : Text
  pub faucet_name : Text
  pub faucet_url : Text

pub record FundingLayer (PaymentStatus : Type 0) : Type 0 where
  pub target : FundingTarget
  pub gateway : LightningGateway PaymentStatus
  pub api_key : Option Text

pub record FundingResult : Type 0 where
  pub address : Text
  pub sats_requested : ℕ
  pub faucet_txid : Option Text
  pub target : FundingTarget

pub data FundingError : Type 0 where
  address : Text → FundingError
  http : Text → FundingError

unfoldable pub show_funding_error : FundingError → Text
show_funding_error (address m) = codes "failed to get funding address: " ++ m
show_funding_error (http m) = codes "faucet request failed: " ++ m

pub record FaucetRequest : Type 0 where
  pub address : Text
  pub amount_sats : ℕ
  pub api_key : Option Text

pub record FaucetResponse : Type 0 where
  pub txid : Option Text
  pub sent_sats : Option ℕ

pub record Faucet : Type 1 where
  pub Response : Type 0
  -- `client.post(url).json(&body).send()`
  pub send : (url : Text) → FaucetRequest → Result Response Text
  pub status : Response → ℕ
  pub json : Response → Result FaucetResponse Text
  -- `{}` of a `StatusCode` and `{:?}` of an `Option<String>`
  pub show_status : ℕ → Text
  pub debug_txid : Option Text → Text

-- `StatusCode::is_success`
unfoldable pub is_success : ℕ → Bool
is_success status = leb 200 status && ltb status 300

-- The arguments are the two variables of the environment.
unfoldable pub bitcoin_signet_default :
    {S : Type 0} → LightningGateway S → Option Text → Option Text → FundingLayer S
bitcoin_signet_default gateway faucet_url api_key = record {
  target = record {
    network = codes "bitcoin-signet";
    faucet_name = codes "Signet Faucet";
    faucet_url = unwrap_or faucet_url (codes "http://localhost:3002/faucet");
  };
  gateway = gateway;
  api_key = api_key;
}

unfoldable pub request_funds :
    {S : Type 0} → Faucet → FundingLayer S → ℕ → Result FundingResult FundingError
unfolding is_success
request_funds client self sats = do
  fresh ← map_err address self.gateway.new_onchain_address
  resp ← map_err http (
      client.send self.target.faucet_url
        (record { address = fresh; amount_sats = sats; api_key = self.api_key }))
  parsed ← map_err (λ e. http (codes "decode: " ++ e)) (client.json resp)
  guard (is_success (client.status resp)) (
      http (
        codes "faucet HTTP "
        ++ client.show_status (client.status resp)
        ++ codes " txid="
        ++ client.debug_txid parsed.txid))
  ok (record {
    address = fresh;
    sats_requested = sats;
    faucet_txid = parsed.txid;
    target = self.target;
  })
