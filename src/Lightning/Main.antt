-- ===== src/Lightning/Main.antt =====
-- crates/lightning_node/src/main.rs: `main` until its listener is bound. `services` gives the
-- operations of a connected SDK, `bind` is the listener's result, and `generated` is what
-- `SigningKey::generate` draws. Printing is left out.
pub mod Choices
pub mod Laws
use lightining_pass.Base.{Option, Result, ok, ◌>>=◌, ◌>>◌, Text, codes}
use mathlib.Core.Option
use lightining_pass.Token.Env.{TokenEnv}
use lightining_pass.Qr.{QrLib}
use lightining_pass.Lightning.Gateway.{Breez, breez_gateway}
use lightining_pass.Lightning.Config.{config_of}
use lightining_pass.Lightning.Connect.{BreezSdk, auto_sats_of, init_breez_services}
use lightining_pass.Lightning.Funding.{
  Faucet, FundingLayer, FundingResult, FundingError, bitcoin_signet_default, request_funds,
}
use lightining_pass.Lightning.Node.{Node, boot, past}

module _ (tokens : TokenEnv) (qr : QrLib) (sdk : BreezSdk) (services_of : sdk.Services → Breez)
    (faucet : Faucet) where
  -- What `main` has made; `auto_funding` is the answer to its own request for funds, where it makes one.
  pub record Started : Type 1 where
    pub services : sdk.Services
    pub auto_funding : Option (Result FundingResult FundingError)
    pub node : Node tokens qr

  unfoldable pub funding_layer :
      (var : Text → Option Text) (services : sdk.Services)
      → FundingLayer (services_of services).PaymentStatus
  funding_layer var services =
      bitcoin_signet_default (breez_gateway (services_of services))
        (var (codes "LIGHTNING_PASS_FAUCET_URL")) (var (codes "LIGHTNING_PASS_FAUCET_KEY"))

  -- The request is made where `LIGHTNING_PASS_AUTO_FUND_SATS` holds a number.
  unfoldable pub auto_fund :
      (var : Text → Option Text) → sdk.Services → Option (Result FundingResult FundingError)
  unfolding funding_layer
  auto_fund var services =
      Option.map (request_funds faucet (funding_layer var services))
        (auto_sats_of (var (codes "LIGHTNING_PASS_AUTO_FUND_SATS")))

  unfoldable pub start_main :
      (var : Text → Option Text)
      → (generated : tokens.SigningKey) → (bind : Result (Unit {0}) Text) → Result Started Text
  unfolding auto_fund
  start_main var generated bind = do
    services ← init_breez_services sdk var
    let config = config_of (var (codes "LIGHTNING_PASS_DEMO"))
    bind
    ok (record {
      services = services;
      auto_funding = auto_fund var services;
      node = past tokens qr (past tokens qr (boot tokens qr generated config));
    })
