-- ===== src/Token/Tests.antt =====
-- The theorems on tokens at one token, in the concrete environment.
use lightining_pass.Base.{
  ℕ, ◌≡◌, ◌↔◌, ◌<◌, ◌≤◌, refl, ok, err, [], ◌∷◌, ◌++◌, Text, Bytes, codes, if◌then◌else◌, leb,
}
use lightining_pass.Token.Types.{
  AccessToken, SignedAccessToken, CompactAccessPayload, valid, invalid, expired,
}
use lightining_pass.Token.Sign.{sign_token, sign_token_to_string, signed_token_to_json}
use lightining_pass.Token.Verify.{verify_signed_token_at, verify_token_string}
use lightining_pass.Token.Compact.{sign_compact_payload, verify_compact_token}
use lightining_pass.Token.RoundTrip.{
  verify_token_string-sign_token_to_string, verify-sign_compact_payload,
}
use lightining_pass.Token.Authentic.{
  IsAuthentic, IsAuthenticCompact, verify_iff, expired_iff, verify_compact_iff,
}
use lightining_pass.Token.Demo.{demo, put_token, put_signed, payload_bytes}

abbrev pub test_key : Bytes
test_key =
    1 ∷ 2 ∷ 3 ∷ 0 ∷ 0 ∷ 0 ∷ 0 ∷ 0 ∷ 0 ∷ 0 ∷ 0 ∷ 0 ∷ 0 ∷ 0 ∷ 0 ∷ 0 ∷ 0 ∷ 0 ∷ 0 ∷ 0 ∷ 0 ∷ 0 ∷ 0 ∷ 0
    ∷ 0 ∷ 0 ∷ 0 ∷ 0 ∷ 0 ∷ 0 ∷ 0 ∷ 0 ∷ []

abbrev pub test_token : AccessToken
test_token = record {
  version = 1;
  event_id = codes "fair";
  payment_hash = [];
  tx_hash = codes "t1";
  source = codes "GA";
  amount = codes "10";
  asset = codes "XLM";
  memo = codes "m";
  ledger = 7;
  expires_at = 100;
  nonce = codes "n";
}

abbrev pub test_signed : SignedAccessToken
test_signed = record {
  token = test_token;
  signature = demo.standard.encode (demo.ed.sign test_key (put_token test_token []));
}

abbrev pub test_text : Text
test_text = put_signed test_signed

abbrev pub test_payload : CompactAccessPayload
test_payload = record { payment_hash = codes "h"; expires_at = 100; event_id = codes "e" }

abbrev pub test_compact : Text
test_compact =
    demo.url_safe.encode (payload_bytes test_payload)
    ++ b'.' ∷ demo.url_safe.encode (demo.ed.sign test_key (payload_bytes test_payload))

pub test_issued : sign_token_to_string demo test_token test_key ≡ ok test_text
unfolding sign_token_to_string sign_token signed_token_to_json
test_issued = refl

pub test_issued_compact : sign_compact_payload demo test_payload test_key ≡ ok test_compact
unfolding sign_compact_payload
test_issued_compact = refl

verify_iff_example :
    (verify_signed_token_at demo test_signed test_key 50 ≡ ok tt)
    ↔ (IsAuthentic demo test_signed test_key × (50 < 100))
verify_iff_example = verify_iff demo test_signed test_key 50

expired_iff_example :
    (verify_signed_token_at demo test_signed test_key 100 ≡ err (expired 100 100)) ↔ (
      IsAuthentic demo test_signed test_key
      × ◌≡◌ {A = ℕ} 100 100
      × ◌≡◌ {A = ℕ} 100 100
      × (100 ≤ 100))
expired_iff_example = expired_iff demo test_signed test_key 100 100 100

verify_token_string-sign_token_to_string_example :
    verify_token_string demo test_text test_key 50 ≡ (if leb 100 50 then invalid else valid)
verify_token_string-sign_token_to_string_example =
    verify_token_string-sign_token_to_string demo test_token test_key 50 test_text test_issued

verify-sign_compact_payload_example :
    verify_compact_token demo test_compact test_key ≡ ok test_payload
verify-sign_compact_payload_example =
    verify-sign_compact_payload demo test_payload test_key test_compact test_issued_compact

verify_compact_iff_example :
    (verify_compact_token demo test_compact test_key ≡ ok test_payload)
    ↔ IsAuthenticCompact demo test_compact test_key test_payload
verify_compact_iff_example = verify_compact_iff demo test_compact test_key test_payload
