-- ===== src/Api/Boot/Laws.antt =====
-- When `main` of crates/api_server/src/main.rs comes to serve, and what it then serves.
use lightining_pass.Base.{
  ℕ, ◌≡◌, ◌↔◌, inl, inr, refl, sym, ap, ◌∙◌, arith, [], none, some, Result, ok, Text, Bytes, codes,
  length, ◌==◌, IsGiven, unwrap_or_iff, Option-cases, Result-cases, Bool-cases, err_ne_ok, ok_inj,
  subst,
}
use lightining_pass.Text.Trim.{trim, trim_end_matches}
use lightining_pass.Text.Cut.{IsCut, trim_end_matches_iff}
use lightining_pass.Base.Dict
use lightining_pass.Stellar.Client.{new_client}
use lightining_pass.Api.Sessions.{new_service}
use lightining_pass.Stellar.Provider.{StellarProvider, new_provider}
use lightining_pass.Api.Env.{ApiEnv}
use lightining_pass.Api.Config.{
  Vars, read_u64_env, load_stellar_config, load_signing_key, decode_signing_key, token_expiry_secs,
  watch_interval_secs, NumberOf, read_u64_env_iff,
}
use lightining_pass.Api.Access.{AccessService}
use lightining_pass.Api.System.{Server, start}
use lightining_pass.Api.Boot.{Booted, boot, start_server}

module _ (env : ApiEnv) where
  -- The key that a server signs with: a new one where the variable is not set, or the 32 bytes that the
  -- variable holds as base64, with any space around it.
  pub data KeyOf (var : Vars) (generated key : env.SigningKey) : Type 0 where
    drawn :
        var (codes "HASKE_SIGNING_KEY_BASE64") ≡ none → key ≡ generated → KeyOf var generated key
    held :
        (value : Text) (secret : Bytes)
        → var (codes "HASKE_SIGNING_KEY_BASE64") ≡ some value
        → env.standard.decode (trim value) ≡ ok secret
        → length secret ≡ 32
        → key ≡ env.signing_key_from_bytes secret
        → KeyOf var generated key

  load_signing_key-KeyOf :
      (var : Vars) (generated key : env.SigningKey)
      → load_signing_key env.tokens var generated ≡ ok key
      → KeyOf var generated key
  unfolding load_signing_key decode_signing_key
  load_signing_key-KeyOf var generated key h =
      elim (Option-cases (var (codes "HASKE_SIGNING_KEY_BASE64"))) [
        | inl unset ↦ drawn unset (sym (ok_inj _ _ (rw (load_signing_key, unset) at h)))
        | inr (value, set) ↦ elim (Result-cases (env.standard.decode (trim value))) [
          | inl (secret, read) ↦ elim (Bool-cases (length secret == 32)) [
            | inl size ↦
                held value secret set read (ground arith)
                  (sym (ok_inj _ _ (rw (load_signing_key, set, read, size) at h)))
            | inr bad ↦ absurd (err_ne_ok _ key (rw (load_signing_key, set, read, bad) at h))
          ]
          | inr (m, bad) ↦ absurd (err_ne_ok _ key (rw (load_signing_key, set, bad) at h))
        ]
      ]

  decoded_key :
      (value : Text) (secret : Bytes)
      → env.standard.decode (trim value) ≡ ok secret
      → length secret ≡ 32
      → decode_signing_key env.tokens value ≡ ok (env.signing_key_from_bytes secret)
  unfolding decode_signing_key
  decoded_key value secret read size = rw (read, size) refl

  KeyOf-load_signing_key :
      (var : Vars) (generated key : env.SigningKey)
      → KeyOf var generated key
      → load_signing_key env.tokens var generated ≡ ok key
  unfolding load_signing_key
  KeyOf-load_signing_key var generated key (drawn unset e) = rw (load_signing_key, unset, e) refl
  KeyOf-load_signing_key var generated key (held value secret set read size e) =
      rw (load_signing_key, set, e) (decoded_key value secret read size)

  -- A payment server that begins to serve: `b` told without the code that makes it.
  pub record IsBooted (var : Vars) (generated : env.SigningKey) (now : ℕ) (b : Booted env)
      : Type 0 where
    pub account_set :
        var (codes "STELLAR_DESTINATION_ADDRESS")
        ≡ some b.payment_provider.config.destination_address
    pub key : KeyOf var generated b.access_service.signing_key
    pub url :
        IsGiven
          (var (codes "STELLAR_HORIZON_URL"))
          (codes "https://horizon-testnet.stellar.org")
          b.payment_provider.config.horizon_url
    pub base : IsCut b'/' b.payment_provider.config.horizon_url b.payment_provider.client.base_url
    pub lifetime :
        NumberOf var (codes "HASKE_TOKEN_EXPIRY_SECS") 300 b.server.service.token_ttl_secs
    pub interval : NumberOf var (codes "HASKE_WATCH_INTERVAL_SECS") 3 b.watch_interval
    pub no_sessions : b.server.service.sessions ≡ Dict.empty
    pub no_queue : b.server.queue ≡ []
    pub clock : b.server.now ≡ now
    pub nothing_seen : b.server.seen ≡ []

  pub boot-IsBooted :
      (var : Vars) (generated : env.SigningKey) (now : ℕ) (b : Booted env)
      → boot env var generated now ≡ ok b
      → IsBooted var generated now b
  unfolding boot load_stellar_config new_provider new_client start new_service token_expiry_secs
      watch_interval_secs
  boot-IsBooted var generated now b h =
      elim (Option-cases (var (codes "STELLAR_DESTINATION_ADDRESS"))) [
        | inl unset ↦ absurd (err_ne_ok _ b (rw (boot, load_stellar_config, unset) at h))
        | inr (destination, set) ↦ elim (Result-cases (load_signing_key env.tokens var generated)) [
          | inl (key, loaded) ↦
              subst (IsBooted var generated now)
                (ok_inj _ b (rw (boot, load_stellar_config, set, loaded) at h))
                (record {
                  account_set = set;
                  key = load_signing_key-KeyOf var generated key loaded;
                  url = (unwrap_or_iff _ _ _).0 refl;
                  base = (trim_end_matches_iff b'/' _ _).0 refl;
                  lifetime = (read_u64_env_iff var (codes "HASKE_TOKEN_EXPIRY_SECS") 300 _).0 refl;
                  interval = (read_u64_env_iff var (codes "HASKE_WATCH_INTERVAL_SECS") 3 _).0 refl;
                  no_sessions = refl;
                  no_queue = refl;
                  clock = refl;
                  nothing_seen = refl;
                })
          | inr (m, bad) ↦ absurd (err_ne_ok _ b (rw (boot, load_stellar_config, set, bad) at h))
        ]
      ]

  same_boot :
      (b : Booted env) (provider : StellarProvider) (server : Server) (interval : ℕ)
      → b.payment_provider ≡ provider
      → b.server ≡ server
      → b.watch_interval ≡ interval
      → record b { payment_provider = provider; server = server; watch_interval = interval } ≡ b
  same_boot b provider server interval e e' e'' = ground arith

  same_provider :
      (p : StellarProvider) (url : Text)
      → url ≡ p.config.horizon_url
      → trim_end_matches b'/' p.config.horizon_url ≡ p.client.base_url
      → p
        ≡ new_provider
            (record { horizon_url = url; destination_address = p.config.destination_address })
  unfolding new_provider new_client
  same_provider p url e base = ground arith

  same_server :
      (provider : StellarProvider) (access : AccessService env) (w : Server) (now : ℕ)
      → w.service.sessions ≡ Dict.empty
      → w.queue ≡ []
      → w.now ≡ now
      → w.seen ≡ []
      → w ≡ start env provider access w.service.token_ttl_secs now
  unfolding start new_service
  same_server provider access w now sessions queue clock seen = ground arith

  -- A booted server is at the start of its transition system.
  pub IsBooted-start :
      (var : Vars) (generated : env.SigningKey) (now : ℕ) (b : Booted env)
      → IsBooted var generated now b
      → b.server ≡ start env b.payment_provider b.access_service b.server.service.token_ttl_secs now
  IsBooted-start var generated now b i =
      same_server b.payment_provider b.access_service b.server now i.no_sessions i.no_queue i.clock
        i.nothing_seen

  IsBooted-boot :
      (var : Vars) (generated : env.SigningKey) (now : ℕ) (b : Booted env)
      → IsBooted var generated now b
      → boot env var generated now ≡ ok b
  unfolding boot load_stellar_config token_expiry_secs watch_interval_secs
  IsBooted-boot var generated now b i =
      let loaded = KeyOf-load_signing_key var generated b.access_service.signing_key i.key in
      let url = (unwrap_or_iff _ _ _).1 i.url in
      let base = (trim_end_matches_iff b'/' _ _).1 i.base in
      let provider = same_provider b.payment_provider _ url base in
      let ttl = (read_u64_env_iff var (codes "HASKE_TOKEN_EXPIRY_SECS") 300 _).1 i.lifetime in
      rw (boot, load_stellar_config, i.account_set, loaded)
        (ap ok (
          same_boot b _ _ _ provider
            (IsBooted-start var generated now b i
              ∙ ap (λ t. start env b.payment_provider b.access_service t now) (sym ttl)
              ∙ ap
                  (λ p.
                    start env p b.access_service
                      (read_u64_env var (codes "HASKE_TOKEN_EXPIRY_SECS") 300) now)
                  provider)
            (sym ((read_u64_env_iff var (codes "HASKE_WATCH_INTERVAL_SECS") 3 _).1 i.interval))))

  -- The payment server begins to serve exactly when the account to pay to is set, the variable for the
  -- key is not set or, with its surrounding space cut off, is the base64 of 32 bytes, and the listener
  -- can be bound. It then takes payments to that account, asks Horizon at the given URL, or at that of
  -- the test network, without the slashes at its end, signs with that key or a new one, and has no
  -- session; its tokens live for the given number of seconds, or 300, and its watcher waits for the
  -- given number, or 3.
  pub start_server-ok_iff :
      (var : Vars) (generated : env.SigningKey) (now : ℕ) (bind : Result (Unit {0}) Text)
      → (b : Booted env)
      → (start_server env var generated now bind ≡ ok b)
        ↔ ((bind ≡ ok tt) × IsBooted var generated now b)
  unfolding start_server
  start_server-ok_iff var generated now bind b = (
    λ h. elim (Result-cases (boot env var generated now)) [
      | inl (b', booted) ↦ elim (Result-cases bind) [
        | inl (u, listens) ↦ (
          listens,
          subst (IsBooted var generated now) (ok_inj _ b (rw (booted, listens) at h))
              (boot-IsBooted var generated now b' booted),
        )
        | inr (m, bad) ↦ absurd (err_ne_ok _ b (rw (booted, bad) at h))
      ]
      | inr (m, bad) ↦ absurd (err_ne_ok _ b (rw bad at h))
    ],
    λ (listens, i). rw (IsBooted-boot var generated now b i, listens) refl,
  )
