-- ===== src/Lightning/Connect.antt =====
-- crates/lightning_node/src/main.rs: `init_breez_services`. The crate breez_sdk_core and the file
-- system are not in the repository: `BreezSdk` holds what is called of them. `var` is
-- `std::env::var(..).ok()`.
use lightining_pass.Base.{
  err_ne_ok, [], Option, some, Result, ok, ◌>>=◌, ◌>>◌, ok_or, Text, codes, unwrap_or, ℕ, ◌≡◌, ◌↔◌,
  Result-cases, Option-cases, inl, inr, IsGiven, unwrap_or_iff, refl,
}
use mathlib.Core.Option
use lightining_pass.Text.Decimal.{parse_u64}
use lightining_pass.Lightning.Config.{
  Network, parse_network, NetworkOf, parse_network-NetworkOf_iff,
}

-- The fields of the request and of its configuration that the code sets.
pub record ConnectRequest (Seed : Type 0) : Type 0 where
  pub api_key : Text
  pub invite_code : Option Text
  pub network : Network
  pub working_dir : Text
  pub seed : Seed

pub record BreezSdk : Type 1 where
  pub Seed : Type 0
  pub Services : Type 0
  pub create_dir_all : (path : Text) → Result (Unit {0}) Text
  pub mnemonic_to_seed : Text → Result Seed Text
  pub connect : ConnectRequest Seed → Result Services Text

-- `LIGHTNING_PASS_AUTO_FUND_SATS`
unfoldable pub auto_sats_of : Option Text → Option ℕ
auto_sats_of val = Option.bind val parse_u64

module _ (sdk : BreezSdk) (var : Text → Option Text) where
  unfoldable pub working_dir_of : Text
  working_dir_of = unwrap_or (var (codes "BREEZ_WORKDIR")) (codes "./data/breez")

  unfoldable pub connect_request : sdk.Seed → ConnectRequest sdk.Seed
  unfolding working_dir_of
  connect_request seed = record {
    api_key = unwrap_or (var (codes "BREEZ_API_KEY")) [];
    invite_code = var (codes "BREEZ_INVITE_CODE");
    network = parse_network (var (codes "LIGHTNING_NODE_NETWORK"));
    working_dir = working_dir_of;
    seed = seed;
  }

  unfoldable pub init_breez_services : Result sdk.Services Text
  unfolding connect_request
  init_breez_services = do
    sdk.create_dir_all working_dir_of
    mnemonic ← ok_or (codes "missing BREEZ_MNEMONIC env var") (var (codes "BREEZ_MNEMONIC"))
    seed ← sdk.mnemonic_to_seed mnemonic
    sdk.connect (connect_request seed)

  -- What a connection went through, told by the variables and the calls of the SDK.
  pub data Connected (services : sdk.Services) : Type 0 where
    connected :
        (mnemonic api_key working_dir : Text)
        → (network : Network) → (seed : sdk.Seed)
        → IsGiven (var (codes "BREEZ_WORKDIR")) (codes "./data/breez") working_dir
        → IsGiven (var (codes "BREEZ_API_KEY")) [] api_key
        → NetworkOf (var (codes "LIGHTNING_NODE_NETWORK")) network
        → sdk.create_dir_all working_dir ≡ ok tt
        → var (codes "BREEZ_MNEMONIC") ≡ some mnemonic
        → sdk.mnemonic_to_seed mnemonic ≡ ok seed
        → sdk.connect (record {
          api_key = api_key;
          invite_code = var (codes "BREEZ_INVITE_CODE");
          network = network;
          working_dir = working_dir;
          seed = seed;
        })
          ≡ ok services
        → Connected services

  init_breez_services-Connected :
      (services : sdk.Services) → init_breez_services ≡ ok services → Connected services
  unfolding init_breez_services connect_request working_dir_of
  init_breez_services-Connected services h =
      elim (Result-cases (sdk.create_dir_all working_dir_of)) [
        | inl (u, made) ↦ elim (Option-cases (var (codes "BREEZ_MNEMONIC"))) [
          | inl unset ↦ absurd (err_ne_ok _ services (rw (made, unset) at h))
          | inr (mnemonic, set) ↦ elim (Result-cases (sdk.mnemonic_to_seed mnemonic)) [
            | inl (seed, read) ↦
                connected mnemonic _ _ _ seed ((unwrap_or_iff _ _ _).0 refl)
                  ((unwrap_or_iff _ _ _).0 refl) ((parse_network-NetworkOf_iff _ _).0 refl) made set
                  read (rw (made, set, read) at h)
            | inr (m, bad) ↦ absurd (err_ne_ok _ services (rw (made, set, bad) at h))
          ]
        ]
        | inr (m, failed) ↦ absurd (err_ne_ok _ services (rw failed at h))
      ]

  Connected-init_breez_services :
      (services : sdk.Services) → Connected services → init_breez_services ≡ ok services
  unfolding init_breez_services connect_request working_dir_of
  Connected-init_breez_services services
        (connected mnemonic api_key working_dir network seed dir key net made set read done) =
      let dir' = (unwrap_or_iff _ _ _).1 dir in
      let key' = (unwrap_or_iff _ _ _).1 key in
      let net' = (parse_network-NetworkOf_iff _ _).1 net in
      rw (dir', key', net', made, set, read) done

  -- The node is connected exactly when its directory can be made, the mnemonic is set and gives a
  -- seed, and the SDK connects with that seed and the settings of the environment.
  pub init_breez_services-ok_iff :
      (services : sdk.Services) → (init_breez_services ≡ ok services) ↔ Connected services
  init_breez_services-ok_iff services =
      (init_breez_services-Connected services, Connected-init_breez_services services)
