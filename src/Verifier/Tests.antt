-- ===== src/Verifier/Tests.antt =====
-- Runs of the verifier on issued tokens, in a concrete environment.
use lightining_pass.Base.{
  ◌≡◌, refl, some, none, ok, [], ◌∷◌, ◌++◌, true, Text, Bytes, codes, if◌then◌else◌, leb, ltb,
}
use lightining_pass.Text.Trim.{trim, trim_none, is_whitespace}
use lightining_pass.Token.Demo.{demo, demo_alphabet, demo_decode-encode}
use lightining_pass.Token.Tests.{
  test_key, test_token, test_text, test_payload, test_compact, test_issued, test_issued_compact,
}
use lightining_pass.Verifier.{
  VerifierEnv, Args, load_public_key, key_text, token_text, decode_qr_image, first_grid, main,
}
use lightining_pass.Verifier.Accepts.{Accepted, main_sound}
use lightining_pass.Verifier.Issued.{
  IsUrlSafe-NoSpace, main-sign_token_to_string, main-sign_compact_payload,
}

abbrev pub venv : VerifierEnv
venv = record {
  tokens = demo;
  Image = Text;
  read_to_string = λ path. ok (demo.standard.encode test_key);
  open_image = λ path. ok path;
  detect_grids = λ image. ok image ∷ [];
}

abbrev json_args : Args
json_args = record {
  public_key = some (codes "key.pub");
  token = some (codes " " ++ test_text ++ codes "  ");
  qr_image = none;
}

abbrev compact_args : Args
compact_args = record {
  public_key = some (codes "key.pub");
  token = none;
  qr_image = some (codes " " ++ test_compact ++ []);
}

pub loaded_key : load_public_key venv (some (codes "key.pub")) ≡ ok test_key
unfolding load_public_key key_text
loaded_key =
    rw
      (
        trim_none (demo.standard.encode test_key)
            (IsUrlSafe-NoSpace (demo.standard.encode test_key) (demo_alphabet test_key)),
        demo_decode-encode test_key,
      )
      refl

pub space_1 : is_whitespace b' ' ≡ true
unfolding is_whitespace
space_1 = refl

read_json :
    token_text venv json_args.token json_args.qr_image ≡ ok (codes " " ++ test_text ++ codes "  ")
unfolding token_text
read_json = refl

read_compact :
    token_text venv compact_args.token compact_args.qr_image ≡ ok (codes " " ++ test_compact ++ [])
unfolding token_text decode_qr_image first_grid
read_compact = refl

main-sign_token_to_string_example :
    main venv json_args 50 50 ≡ (if leb 100 50 then (codes "INVALID", 1) else (codes "VALID", 0))
main-sign_token_to_string_example =
    main-sign_token_to_string venv json_args 50 50 test_token test_key (codes " ") test_text
      (codes "  ") loaded_key test_issued (space_1, tt) (space_1, (space_1, tt)) read_json

main-sign_compact_payload_example :
    main venv compact_args 50 100
    ≡ (if ltb 100 100 then (codes "INVALID", 1) else (codes "VALID", 0))
main-sign_compact_payload_example =
    main-sign_compact_payload venv compact_args 50 100 test_payload test_key (codes " ")
      test_compact [] loaded_key test_issued_compact (space_1, tt) tt read_compact

accepted_json : main venv json_args 50 50 ≡ (codes "VALID", 0)
accepted_json =
    main-sign_token_to_string venv json_args 50 50 test_token test_key (codes " ") test_text
      (codes "  ") loaded_key test_issued (space_1, tt) (space_1, (space_1, tt)) read_json

main_sound_example :
    (key : Bytes) × (text : Text) × (load_public_key venv json_args.public_key ≡ ok key)
    × (token_text venv json_args.token json_args.qr_image ≡ ok text)
    × Accepted venv key (trim text) 50 50
main_sound_example = main_sound venv json_args 50 50 accepted_json
