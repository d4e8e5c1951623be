-- ===== src/Lightning/Main/Laws.antt =====
-- When `main` of crates/lightning_node/src/main.rs comes to bind its listener, and what it has then made.
use lightining_pass.Base.{
  ◌≡◌, ◌↔◌, inl, inr, refl, sym, ap, subst, arith, Option, false, Result, ok, Text, codes, [], ◌∷◌,
  Result-cases, err_ne_ok, ok_inj,
}
use lightining_pass.Base.Dict
use lightining_pass.Token.Env.{TokenEnv}
use lightining_pass.Qr.{QrLib}
use lightining_pass.Lightning.Gateway.{Breez}
use lightining_pass.Lightning.Config.{config_of}
use lightining_pass.Lightning.Connect.{
  BreezSdk, init_breez_services, Connected, init_breez_services-ok_iff,
}
use lightining_pass.Lightning.Funding.{Faucet, FundingResult, FundingError}
use lightining_pass.Lightning.Proof.{AppConfig, new_proof}
use lightining_pass.Lightning.Node.{
  Node, boot, set_handler, serve, main_statements, execute, advance, past,
}
use lightining_pass.Lightning.Main.Choices.{
  IsConfig, Funds, config_of-IsConfig, IsConfig-config_of, auto_fund-Funds, Funds-auto_fund,
}
use lightining_pass.Lightning.Main.{Started, start_main}

module _ (tokens : TokenEnv) (qr : QrLib) (sdk : BreezSdk) (services_of : sdk.Services → Breez)
    (faucet : Faucet) where
  -- A process that has bound its listener: `s` told without the code that makes it.
  pub record IsStarted (var : Text → Option Text) (generated : tokens.SigningKey)
      (bind : Result (Unit {0}) Text) (s : Started tokens qr sdk services_of faucet) : Type 1 where
    pub connected : Connected sdk var s.services
    pub listens : bind ≡ ok tt
    pub config : IsConfig var s.node.proof.config
    pub key : s.node.proof.keypair ≡ generated
    pub no_sessions : s.node.proof.sessions ≡ Dict.empty
    pub no_index : s.node.proof.payment_index ≡ Dict.empty
    pub no_tasks : s.node.tasks ≡ []
    pub none_paid : s.node.paid ≡ []
    pub no_handler : s.node.handler ≡ false
    pub not_serving : s.node.serves ≡ false
    pub ahead : s.node.program ≡ set_handler ∷ serve ∷ []
    pub funding : Funds tokens qr sdk services_of faucet var (services_of s.services) s.auto_funding

  start_main-IsStarted :
      (var : Text → Option Text) (generated : tokens.SigningKey) (bind : Result (Unit {0}) Text)
      → (s : Started tokens qr sdk services_of faucet)
      → start_main tokens qr sdk services_of faucet var generated bind ≡ ok s
      → IsStarted var generated bind s
  unfolding start_main boot new_proof main_statements execute advance
  start_main-IsStarted var generated bind s h = elim (Result-cases (init_breez_services sdk var)) [
    | inl (services, up) ↦ elim (Result-cases bind) [
      | inl (u, listens) ↦
          subst (IsStarted var generated bind) (ok_inj _ s (rw (start_main, up, listens) at h))
            (record {
              connected = (init_breez_services-ok_iff sdk var services).0 up;
              listens = listens;
              config = config_of-IsConfig var;
              key = refl;
              no_sessions = refl;
              no_index = refl;
              no_tasks = refl;
              none_paid = refl;
              no_handler = refl;
              not_serving = refl;
              ahead = refl;
              funding = auto_fund-Funds tokens qr sdk services_of faucet var services;
            })
      | inr (m, bad) ↦ absurd (err_ne_ok _ s (rw (start_main, up, bad) at h))
    ]
    | inr (m, bad) ↦ absurd (err_ne_ok _ s (rw (start_main, bad) at h))
  ]

  same_node :
      (n : Node tokens qr) (keypair : tokens.SigningKey) (config : AppConfig)
      → n.proof.keypair ≡ keypair
      → config ≡ n.proof.config
      → n.proof.sessions ≡ Dict.empty
      → n.proof.payment_index ≡ Dict.empty
      → n.tasks ≡ []
      → n.paid ≡ []
      → n.handler ≡ false
      → n.serves ≡ false
      → n.program ≡ set_handler ∷ serve ∷ []
      → n ≡ past tokens qr (past tokens qr (boot tokens qr keypair config))
  unfolding boot new_proof main_statements execute advance
  same_node n keypair config key choice sessions index tasks paid handler serves ahead =
      ground arith

  same_start :
      (s : Started tokens qr sdk services_of faucet)
      → (funding : Option (Result FundingResult FundingError)) (node : Node tokens qr)
      → s.auto_funding ≡ funding
      → s.node ≡ node
      → record s { auto_funding = funding; node = node } ≡ s
  same_start s funding node e e' = ground arith

  IsStarted-start_main :
      (var : Text → Option Text) (generated : tokens.SigningKey) (bind : Result (Unit {0}) Text)
      → (s : Started tokens qr sdk services_of faucet) → IsStarted var generated bind s
      → start_main tokens qr sdk services_of faucet var generated bind ≡ ok s
  unfolding start_main
  IsStarted-start_main var generated bind s i =
      let up = (init_breez_services-ok_iff sdk var s.services).1 i.connected in
      rw (start_main, up, i.listens)
        (ap ok (
          same_start s _ _
            (sym (
              Funds-auto_fund tokens qr sdk services_of faucet var s.services s.auto_funding
                i.funding))
            (same_node s.node generated (config_of (var (codes "LIGHTNING_PASS_DEMO"))) i.key
              (IsConfig-config_of var s.node.proof.config i.config) i.no_sessions i.no_index
              i.no_tasks i.none_paid i.no_handler i.not_serving i.ahead)))

  -- `main` comes to bind its listener exactly when the SDK connects and the bind succeeds, whatever
  -- the faucet answers. The SDK connects exactly when the directory can be made, the mnemonic is set and
  -- gives a seed, and the call of the SDK succeeds with the key, the invite code, the network and the
  -- directory of the variables or their defaults. The node then has no invoice and no handler, the given
  -- key, and the demo configuration exactly when the variable for it is set to 1 or, in any case of its
  -- letters, to true; and funds were asked for exactly where the variable for them holds a number.
  pub start_main-ok_iff :
      (var : Text → Option Text) (generated : tokens.SigningKey) (bind : Result (Unit {0}) Text)
      → (s : Started tokens qr sdk services_of faucet)
      → (start_main tokens qr sdk services_of faucet var generated bind ≡ ok s)
        ↔ IsStarted var generated bind s
  start_main-ok_iff var generated bind s =
      (start_main-IsStarted var generated bind s, IsStarted-start_main var generated bind s)
