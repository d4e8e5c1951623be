-- ===== src/Api/Boot.antt =====
-- crates/api_server/src/main.rs: `main` until it serves. `now` is the clock at that time, and `bind` is
-- the result of binding the listener; the headers for other origins are left out.
pub mod Laws
use lightining_pass.Base.{ℕ, Result, ok, ◌>>=◌, ◌>>◌, Text}
use lightining_pass.Stellar.Provider.{StellarProvider, new_provider}
use lightining_pass.Api.Env.{ApiEnv}
use lightining_pass.Api.Config.{
  Vars, load_stellar_config, load_signing_key, token_expiry_secs, watch_interval_secs,
}
use lightining_pass.Api.Access.{AccessService}
use lightining_pass.Api.System.{Server, start}

module _ (env : ApiEnv) where
  -- What `main` has made when it begins to serve. `server` holds the payment service, which the routes
  -- and the watcher share.
  pub record Booted : Type 0 where
    pub payment_provider : StellarProvider
    pub access_service : AccessService env
    pub server : Server
    pub watch_interval : ℕ

  unfoldable pub boot : Vars → (generated : env.SigningKey) → (now : ℕ) → Result Booted Text
  boot var generated now = do
    config ← load_stellar_config var
    signing_key ← load_signing_key env.tokens var generated
    let payment_provider = new_provider config
    let access_service : AccessService env = record { signing_key = signing_key }
    ok (record {
      payment_provider = payment_provider;
      access_service = access_service;
      server = start env payment_provider access_service (token_expiry_secs var) now;
      watch_interval = watch_interval_secs var;
    })

  -- `main` until it serves: the watcher is spawned before the listener is bound, and ends with the
  -- process where that fails.
  unfoldable pub start_server :
      Vars
      → (generated : env.SigningKey) → (now : ℕ) → (bind : Result (Unit {0}) Text)
      → Result Booted Text
  unfolding boot
  start_server var generated now bind = do booted ← boot var generated now; bind; ok booted
