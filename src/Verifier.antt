-- ===== src/Verifier.antt =====
-- crates/verifier_cli/src/main.rs. clap's parsing of the command line is left out: a run starts from
-- `Args`. The two readings of the clock are `now`, for a JSON token, and `later`, for a compact one.
-- `Text` stands for the message of a `Box<dyn Error>`.
pub mod Accepts
pub mod Issued
pub mod Tests
use lightining_pass.Base.{
  ℕ, Bool, true, false, not, Option, none, some, Result, ok, err, ◌>>=◌, List, [], ◌∷◌, Text, codes,
  ltb, if◌then◌else◌,
}
use lightining_pass.Text.Trim.{trim}
use lightining_pass.Token.Types.{
  VerificationStatus, valid, invalid, CompactAccessPayload, CompactVerifyError,
}
use lightining_pass.Token.Env.{TokenEnv, try_into_array}
use lightining_pass.Token.Verify.{verify_token_string}
use lightining_pass.Token.Compact.{verify_compact_token}

-- The file system, and the crates image and rqrr: an image is read from a path, and gives one result
-- for each QR grid in it.
pub record VerifierEnv : Type 1 where
  pub tokens : TokenEnv
  pub open tokens use *
  pub Image : Type 0
  pub read_to_string : (path : Text) → Result Text Text
  pub open_image : (path : Text) → Result Image Text
  pub detect_grids : Image → List (Result Text Text)

pub record Args : Type 0 where
  pub public_key : Option Text
  pub token : Option Text
  pub qr_image : Option Text

-- What stands in the source in place of a key.
abbrev pub placeholder_key : Text
placeholder_key = codes "REPLACE_WITH_BASE64_PUBLIC_KEY"

unfoldable pub is_expired : ℕ → ℕ → Bool
is_expired expires_at now = ltb expires_at now

module _ (env : VerifierEnv) where
  unfoldable pub key_text : Option Text → Result Text Text
  key_text none = ok placeholder_key
  key_text (some path) = env.read_to_string path

  unfoldable pub load_public_key : Option Text → Result env.VerifyingKey Text
  load_public_key path = do
    public_key_b64 ← key_text path
    decoded ← env.standard.decode (trim public_key_b64)
    bytes ← try_into_array 32 (codes "invalid public key length") decoded
    env.verifying_key_from_bytes bytes

  -- The loop returns in its first round.
  unfoldable pub first_grid : List (Result Text Text) → Result Text Text
  first_grid [] = err (codes "no QR code detected")
  first_grid (grid ∷ grids) = grid

  unfoldable pub decode_qr_image : Text → Result Text Text
  decode_qr_image path = do image ← env.open_image path; first_grid (env.detect_grids image)

  unfoldable pub token_text : Option Text → Option Text → Result Text Text
  token_text (some token) qr_image = ok token
  token_text none (some qr_image) = decode_qr_image qr_image
  token_text none none = err (codes "provide --token or --qr-image")

  unfoldable pub check_compact :
      Result CompactAccessPayload CompactVerifyError → ℕ → Result Bool Text
  check_compact (ok payload) later = ok (not (is_expired payload.expires_at later))
  check_compact (err e) later = ok false

  unfoldable pub check_token : VerificationStatus → Text → env.VerifyingKey → ℕ → Result Bool Text
  check_token valid token public_key later = ok true
  check_token invalid token public_key later =
      check_compact (verify_compact_token env.tokens token public_key) later

  unfoldable pub run : Args → ℕ → ℕ → Result Bool Text
  run args now later = do
    public_key ← load_public_key args.public_key
    text ← token_text args.token args.qr_image
    let token = trim text
    check_token (verify_token_string env.tokens token public_key now) token public_key later

  -- What is printed, and the exit status.
  unfoldable pub report : Result Bool Text → Text × ℕ
  report (ok true) = (codes "VALID", 0)
  report (ok false) = (codes "INVALID", 1)
  report (err e) = (codes "INVALID", 1)

  unfoldable pub main : Args → ℕ → ℕ → Text × ℕ
  main args now later = report (run args now later)
