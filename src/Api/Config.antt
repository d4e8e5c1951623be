-- ===== src/Api/Config.antt =====
-- crates/api_server/src/main.rs: what `main` reads from its environment. `var` is `std::env::var`, with
-- no value where that fails; `generated` is what `SigningKey::generate` draws.
use lightining_pass.Base.{
  ℕ, ◌<◌, Option, none, some, Result, ok, ◌>>=◌, ok_or, ◌++◌, Text, Bytes, codes, unwrap_or, length,
  All, ◌≡◌, ◌∙◌, refl, u64_mod, ◌↔◌, subst, inl, inr, Option-cases,
}
use mathlib.Core.Option
use lightining_pass.Text.Trim.{
  trim, trim_none, trim-append_left, trim-append_right, IsSpace, NoSpace,
}
use lightining_pass.Text.Decimal.{parse_u64, show_u64, parse_u64-show_u64}
use lightining_pass.Token.Env.{TokenEnv, IsByte, try_into_array}
use lightining_pass.Stellar.Provider.{StellarConfig}

abbrev pub Vars : Type 0
Vars = (key : Text) → Option Text

unfoldable pub read_u64_env : Vars → Text → ℕ → ℕ
read_u64_env var key default = unwrap_or (Option.bind (var key) parse_u64) default

unfoldable pub load_stellar_config : Vars → Result StellarConfig Text
load_stellar_config var = do
  destination_address ←
      ok_or (codes "missing STELLAR_DESTINATION_ADDRESS env var")
        (var (codes "STELLAR_DESTINATION_ADDRESS"))
  ok (record {
    horizon_url =
        unwrap_or (var (codes "STELLAR_HORIZON_URL")) (codes "https://horizon-testnet.stellar.org");
    destination_address = destination_address;
  })

-- `main` gives these two to `PaymentService::new` and to the watcher.
unfoldable pub token_expiry_secs : Vars → ℕ
token_expiry_secs var = read_u64_env var (codes "HASKE_TOKEN_EXPIRY_SECS") 300

unfoldable pub watch_interval_secs : Vars → ℕ
watch_interval_secs var = read_u64_env var (codes "HASKE_WATCH_INTERVAL_SECS") 3

module _ (env : TokenEnv) where
  unfoldable pub decode_signing_key : Text → Result env.SigningKey Text
  decode_signing_key value = do
    decoded ← env.standard.decode (trim value)
    secret ← try_into_array 32 (codes "HASKE_SIGNING_KEY_BASE64 must decode to 32 bytes") decoded
    ok (env.signing_key_from_bytes secret)

  unfoldable pub load_signing_key : Vars → (generated : env.SigningKey) → Result env.SigningKey Text
  unfolding decode_signing_key
  load_signing_key var generated = elim (var (codes "HASKE_SIGNING_KEY_BASE64")) [
    | some value ↦ decode_signing_key value
    | none ↦ ok generated
  ]

  -- A key of 32 bytes that the variable holds as base64 without white space, with any space around it,
  -- is the key that is loaded.
  pub load_signing_key-encode :
      (var : Vars) (generated : env.SigningKey) (secret : Bytes) (before after : Text)
      → All NoSpace (env.standard.encode secret)
      → All IsSpace before
      → All IsSpace after
      → All IsByte secret
      → length secret ≡ 32
      → var (codes "HASKE_SIGNING_KEY_BASE64")
        ≡ some (before ++ env.standard.encode secret ++ after)
      → load_signing_key var generated ≡ ok (env.signing_key_from_bytes secret)
  unfolding load_signing_key decode_signing_key
  load_signing_key-encode var generated secret before after plain hb ha bytes size given =
      let trimmed : trim (before ++ env.standard.encode secret ++ after)
          ≡ env.standard.encode secret =
        trim-append_right (before ++ env.standard.encode secret) after ha
        ∙ trim-append_left before (env.standard.encode secret) hb
        ∙ trim_none (env.standard.encode secret) plain in
      rw (load_signing_key, given, trimmed, env.standard.decode-encode secret bytes, size) refl

-- A variable that holds a 64-bit number in decimal is read as that number.
pub read_u64_env-show_u64 :
    (var : Vars) (key : Text) (default n : ℕ)
    → n < u64_mod
    → var key ≡ some (show_u64 n)
    → read_u64_env var key default ≡ n
unfolding read_u64_env Option.bind
read_u64_env-show_u64 var key default n h e = rw (e, parse_u64-show_u64 n h) refl

-- The number that a variable holds: the default where it is not set or is no 64-bit number.
pub data NumberOf (var : Vars) (key : Text) (default n : ℕ) : Type 0 where
  unset : var key ≡ none → n ≡ default → NumberOf var key default n
  unreadable :
      (text : Text)
      → var key ≡ some text
      → parse_u64 text ≡ none
      → n ≡ default
      → NumberOf var key default n
  held : (text : Text) → var key ≡ some text → parse_u64 text ≡ some n → NumberOf var key default n

read_u64_env-NumberOf :
    (var : Vars) (key : Text) (default : ℕ)
    → NumberOf var key default (read_u64_env var key default)
unfolding read_u64_env Option.bind
read_u64_env-NumberOf var key default = elim (Option-cases (var key)) [
  | inl e ↦ unset e (rw e refl)
  | inr (text, e) ↦ elim (Option-cases (parse_u64 text)) [
    | inl bad ↦ unreadable text e bad (rw (e, bad) refl)
    | inr (n, good) ↦ held text e (rw (e, good) refl)
  ]
]

NumberOf-read_u64_env :
    (var : Vars) (key : Text) (default n : ℕ)
    → NumberOf var key default n
    → read_u64_env var key default ≡ n
unfolding read_u64_env Option.bind
NumberOf-read_u64_env var key default n (unset e same) = rw (e, same) refl
NumberOf-read_u64_env var key default n (unreadable text e bad same) = rw (e, bad, same) refl
NumberOf-read_u64_env var key default n (held text e good) = rw (e, good) refl

pub read_u64_env_iff :
    (var : Vars) (key : Text) (default n : ℕ)
    → (read_u64_env var key default ≡ n) ↔ NumberOf var key default n
read_u64_env_iff var key default n = (
  λ e. subst (NumberOf var key default) e (read_u64_env-NumberOf var key default),
  NumberOf-read_u64_env var key default n,
)
