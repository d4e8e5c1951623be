-- ===== src/Lightning/Main/Choices.antt =====
-- What `main` of crates/lightning_node/src/main.rs takes from its variables besides the connection.
use lightining_pass.Base.{
  ℕ, ◌≡◌, ◌⊎◌, inl, inr, refl, sym, ap, ◌∙◌, arith, Option, none, some, true, false, Result, Text,
  codes, Option-cases, Bool-cases, IsGiven, unwrap_or_iff,
}
use mathlib.Core.Option
use lightining_pass.Text.Case.{to_lowercase}
use lightining_pass.Text.Decimal.{parse_u64}
use lightining_pass.Token.Env.{TokenEnv}
use lightining_pass.Qr.{QrLib}
use lightining_pass.Lightning.Gateway.{Breez, breez_create_invoice, breez_gateway}
use lightining_pass.Lightning.Config.{demo_mode_of, config_of, config_of_iff, differ}
use lightining_pass.Lightning.Connect.{BreezSdk, auto_sats_of}
use lightining_pass.Lightning.Funding.{
  Faucet, FundingResult, FundingError, bitcoin_signet_default, request_funds,
}
use lightining_pass.Lightning.Proof.{AppConfig, demo_config, default_config}
use lightining_pass.Lightning.Main.{funding_layer, auto_fund}

-- The demo mode is chosen: the variable is 1 or, in any case of its letters, true.
abbrev pub IsDemo : (Text → Option Text) → Type 0
IsDemo var =
    (v : Text) × (var (codes "LIGHTNING_PASS_DEMO") ≡ some v)
    × ((v ≡ codes "1") ⊎ (to_lowercase v ≡ codes "true"))

-- The configuration of the demo mode, and that of every other start.
abbrev pub IsConfig : (Text → Option Text) → AppConfig → Type 0
IsConfig var config =
    (IsDemo var
      × (config ≡ record {
        demo_mode = true;
        event_id = codes "demo-event";
        invoice_expiry_secs = 120;
        amount_msat = 250000;
      }))
    ⊎ ((¬ IsDemo var)
        × (config ≡ record {
          demo_mode = false;
          event_id = codes "live-event";
          invoice_expiry_secs = 900;
          amount_msat = 250000;
        }))

pub config_of-IsConfig :
    (var : Text → Option Text) → IsConfig var (config_of (var (codes "LIGHTNING_PASS_DEMO")))
unfolding config_of demo_config default_config
config_of-IsConfig var = elim (Bool-cases (demo_mode_of (var (codes "LIGHTNING_PASS_DEMO")))) [
  | inl e ↦
      let demo : config_of (var (codes "LIGHTNING_PASS_DEMO")) ≡ demo_config = rw e refl in
      inl ((config_of_iff (var (codes "LIGHTNING_PASS_DEMO"))).0 demo, demo)
  | inr e ↦
      let live : config_of (var (codes "LIGHTNING_PASS_DEMO"))
          ≡ default_config (codes "live-event") =
        rw e refl in
      inr (
        λ d. absurd (differ (sym ((config_of_iff (var (codes "LIGHTNING_PASS_DEMO"))).1 d) ∙ live)),
        live,
      )
]

pub IsConfig-config_of :
    (var : Text → Option Text) (config : AppConfig)
    → IsConfig var config
    → config_of (var (codes "LIGHTNING_PASS_DEMO")) ≡ config
IsConfig-config_of var config c = elim (config_of-IsConfig var) [
  | inl (d, e) ↦ elim c [ inl (d', e') ↦ e ∙ sym e' | inr (n, e') ↦ absurd (n d) ]
  | inr (n, e) ↦ elim c [ inl (d', e') ↦ absurd (n d') | inr (n', e') ↦ e ∙ sym e' ]
]

module _ (tokens : TokenEnv) (qr : QrLib) (sdk : BreezSdk) (services_of : sdk.Services → Breez)
    (faucet : Faucet) where
  -- The request for funds: none where the variable holds no 64-bit number, and else one for that number
  -- at the faucet that the variables name, for an address of the node.
  pub data Funds (var : Text → Option Text) (services : Breez)
      (answer : Option (Result FundingResult FundingError)) : Type 0 where
    not_asked :
        ((text : Text)
          → var (codes "LIGHTNING_PASS_AUTO_FUND_SATS") ≡ some text
          → parse_u64 text ≡ none)
        → answer ≡ none
        → Funds var services answer
    asked :
        (text url : Text) (sats : ℕ)
        → var (codes "LIGHTNING_PASS_AUTO_FUND_SATS") ≡ some text
        → parse_u64 text ≡ some sats
        → IsGiven
            (var (codes "LIGHTNING_PASS_FAUCET_URL"))
            (codes "http://localhost:3002/faucet")
            url
        → answer
          ≡ some (
              request_funds faucet
                (record {
                  target = record {
                    network = codes "bitcoin-signet";
                    faucet_name = codes "Signet Faucet";
                    faucet_url = url;
                  };
                  gateway = record {
                    create_invoice = breez_create_invoice services;
                    new_onchain_address = services.receive_onchain;
                    pay_invoice =
                        λ bolt11 amount_msat. services.send_payment bolt11 true amount_msat;
                  };
                  api_key = var (codes "LIGHTNING_PASS_FAUCET_KEY");
                })
                sats)
        → Funds var services answer

  pub auto_fund-Funds :
      (var : Text → Option Text) (services : sdk.Services)
      → Funds var (services_of services) (auto_fund tokens qr sdk services_of faucet var services)
  unfolding auto_fund auto_sats_of funding_layer bitcoin_signet_default breez_gateway Option.bind
  auto_fund-Funds var services = elim (Option-cases (var (codes "LIGHTNING_PASS_AUTO_FUND_SATS"))) [
    | inl unset ↦ not_asked (λ text e. absurd (ground arith)) (rw unset refl)
    | inr (text, set) ↦ elim (Option-cases (parse_u64 text)) [
      | inl bad ↦
          not_asked (λ t e. ap parse_u64 (Option.some-injective t text (sym e ∙ set)) ∙ bad)
            (rw (set, bad) refl)
      | inr (sats, good) ↦
          asked text _ sats set good ((unwrap_or_iff _ _ _).0 refl) (rw (set, good) refl)
    ]
  ]

  pub Funds-auto_fund :
      (var : Text → Option Text) (services : sdk.Services)
      → (answer : Option (Result FundingResult FundingError))
      → Funds var (services_of services) answer
      → auto_fund tokens qr sdk services_of faucet var services ≡ answer
  unfolding auto_fund auto_sats_of funding_layer bitcoin_signet_default breez_gateway Option.bind
  Funds-auto_fund var services answer (asked text url sats set good given same) =
      let url' = (unwrap_or_iff _ _ _).1 given in rw (set, good, url', same) refl
  Funds-auto_fund var services answer (not_asked other same) =
      elim (Option-cases (var (codes "LIGHTNING_PASS_AUTO_FUND_SATS"))) [
        | inl unset ↦ rw (unset, same) refl
        | inr (text, set) ↦ let bad = other text set in rw (set, bad, same) refl
      ]
