-- ===== src/Verifier/Issued.antt =====
-- What the verifier says of a token that was issued, in either format.
use lightining_pass.Base.{
  ℕ, ◌≡◌, ◌⊎◌, ◌∙◌, sym, subst, inl, inr, refl, arith, Bool, true, false, Option, none, some, ok,
  err, ◌∷◌, [], ◌++◌, Text, codes, All, All-append, leb, ltb, Bool-cases, if◌then◌else◌,
}
use lightining_pass.Text.Trim.{
  trim, trim_between, trim_none, trim-append_left, trim-append_right, IsSpace, NoSpace,
  is_whitespace,
}
use lightining_pass.Text.Split.{split_once}
use lightining_pass.Token.Types.{
  AccessToken, CompactAccessPayload, valid, invalid, CompactVerifyError, invalid_format,
}
use lightining_pass.Token.Env.{IsUrlSafe}
use lightining_pass.Token.Sign.{sign_token_to_string}
use lightining_pass.Token.Verify.{verify_token_string, signed_token_from_json}
use lightining_pass.Token.Compact.{sign_compact_payload, verify_parts, verify_compact_token}
use lightining_pass.Token.RoundTrip.{
  verify_token_string-sign_token_to_string, verify-sign_compact_payload,
  sign_token_to_string_object, sign_compact_payload_parts,
}
use lightining_pass.Verifier.{
  VerifierEnv, Args, is_expired, load_public_key, token_text, check_token, check_compact, run,
  report, main,
}

-- Space around a text with none at its ends is cut off.
trim_around :
    (before text after : Text)
    → All IsSpace before
    → All IsSpace after
    → trim text ≡ text
    → trim (before ++ text ++ after) ≡ text
trim_around before text after hb ha h =
    trim-append_right (before ++ text) after ha ∙ trim-append_left before text hb ∙ h

abbrev IsTokenChar : ℕ → Type 0
IsTokenChar c = IsUrlSafe c ⊎ (c ≡ b'.')

IsTokenChar-NoSpace : (c : ℕ) → IsTokenChar c → NoSpace c
unfolding is_whitespace
IsTokenChar-NoSpace c h = ground arith

pub IsUrlSafe-NoSpace : (a : Text) → All IsUrlSafe a → All NoSpace a
IsUrlSafe-NoSpace [] h = h
IsUrlSafe-NoSpace (c ∷ a) (h, hs) = (IsTokenChar-NoSpace c (inl h), IsUrlSafe-NoSpace a hs)

NoSpace-open : NoSpace b'{'
unfolding is_whitespace
NoSpace-open = refl

NoSpace-close : NoSpace b'}'
unfolding is_whitespace
NoSpace-close = refl

module _ (env : VerifierEnv) where
  -- A text that begins with a brace is no compact token.
  brace_not_compact :
      (body : Text) (key : env.VerifyingKey)
      → (e : CompactVerifyError) × (verify_compact_token env.tokens (b'{' ∷ body) key ≡ err e)
  unfolding verify_compact_token verify_parts split_once
  brace_not_compact body key = go (split_once b'.' body)
    where
      go :
          (parts : Text × Option Text)
          → (e : CompactVerifyError) × (verify_parts env.tokens (b'{' ∷ parts.0, parts.1) key
              ≡ err e)
      go (a, none) = (invalid_format, refl)
      go (a, some b) =
          let (m, rejected) = env.url_safe_rejects b'{' a (λ h. omega arith) in
          (CompactVerifyError.base64 m, rw rejected)

  -- What is loaded and read decides what `main` prints.
  main_of :
      (args : Args) (now later : ℕ) (key : env.VerifyingKey) (text token : Text)
      → load_public_key env args.public_key ≡ ok key
      → token_text env args.token args.qr_image ≡ ok text
      → trim text ≡ token
      → main env args now later
        ≡ report env
            (check_token env (verify_token_string env.tokens token key now) token key later)
  unfolding main run
  main_of args now later key text token loaded given trimmed = rw (loaded, given, trimmed) refl

  -- A text that no compact token is: the JSON check decides.
  not_compact :
      (b : Bool) (token : Text) (key : env.VerifyingKey) (now later : ℕ) (e : CompactVerifyError)
      → verify_token_string env.tokens token key now ≡ (if b then invalid else valid)
      → verify_compact_token env.tokens token key ≡ err e
      → report env (check_token env (verify_token_string env.tokens token key now) token key later)
        ≡ (if b then (codes "INVALID", 1) else (codes "VALID", 0))
  unfolding check_token check_compact report
  not_compact true token key now later e h h' = rw (h, h') refl
  not_compact false token key now later e h h' = rw h refl

  -- A text that no JSON token is: the compact check decides.
  not_json :
      (token : Text) (key : env.VerifyingKey) (now later : ℕ) (payload : CompactAccessPayload)
      → verify_token_string env.tokens token key now ≡ invalid
      → verify_compact_token env.tokens token key ≡ ok payload
      → report env (check_token env (verify_token_string env.tokens token key now) token key later)
        ≡ (if ltb payload.expires_at later then (codes "INVALID", 1) else (codes "VALID", 0))
  unfolding check_token check_compact report is_expired
  not_json token key now later payload h h' = elim (Bool-cases (ltb payload.expires_at later)) [
    | inl e ↦ rw (h, h', e) refl
    | inr e ↦ rw (h, h', e) refl
  ]

  -- What begins with a letter, a digit, a dash, a low line or a dot is no JSON token.
  token_char_not_json :
      (c : ℕ) (t : Text) (key : env.VerifyingKey) (now : ℕ)
      → IsTokenChar c
      → verify_token_string env.tokens (c ∷ t) key now ≡ invalid
  unfolding verify_token_string signed_token_from_json
  token_char_not_json c t key now h =
      let (m, e) =
        env.signed_from_str_first c t (λ q. omega arith) (λ q. omega arith)
          (IsTokenChar-NoSpace c h) in
      rw (verify_token_string, e) refl

  dotted_not_json :
      (a b : Text) (key : env.VerifyingKey) (now : ℕ)
      → All IsUrlSafe a
      → verify_token_string env.tokens (a ++ b'.' ∷ b) key now ≡ invalid
  dotted_not_json [] b key now h = token_char_not_json b'.' b key now (inr refl)
  dotted_not_json (c ∷ a) b key now (h, hs) = token_char_not_json c (a ++ b'.' ∷ b) key now (inl h)

  -- The verifier, given a text that `sign_token_to_string` made, with any space around it, and loading
  -- the key of its signer, prints VALID exactly below `expires_at` of the token.
  pub main-sign_token_to_string :
      (args : Args) (now later : ℕ) (token : AccessToken) (key : env.SigningKey)
      → (before text after : Text)
      → load_public_key env args.public_key ≡ ok (env.verifying_key key)
      → sign_token_to_string env.tokens token key ≡ ok text
      → All IsSpace before
      → All IsSpace after
      → token_text env args.token args.qr_image ≡ ok (before ++ text ++ after)
      → main env args now later
        ≡ (if leb token.expires_at now then (codes "INVALID", 1) else (codes "VALID", 0))
  main-sign_token_to_string args now later token key before text after loaded issued hb ha given =
      let (body, shape) = sign_token_to_string_object env.tokens token key text issued in
      let (e, rejected) = brace_not_compact (body ++ b'}' ∷ []) (env.verifying_key key) in
      let trimmed = trim_around before text after hb ha (
        subst (λ t. trim t ≡ t) (sym shape)
          (trim_between b'{' body b'}' NoSpace-open NoSpace-close)) in
      main_of args now later (env.verifying_key key) (before ++ text ++ after) text loaded given
        trimmed
      ∙ not_compact (leb token.expires_at now) text (env.verifying_key key) now later e
          (verify_token_string-sign_token_to_string env.tokens token key now text issued)
          (subst (λ t. verify_compact_token env.tokens t (env.verifying_key key) ≡ err e)
            (sym shape) rejected)

  -- The verifier, given a text that `sign_compact_payload` made, with any space around it, and loading
  -- the key of its signer, prints VALID exactly until `expires_at` of the payload, that second included.
  pub main-sign_compact_payload :
      (args : Args) (now later : ℕ) (payload : CompactAccessPayload) (key : env.SigningKey)
      → (before text after : Text)
      → load_public_key env args.public_key ≡ ok (env.verifying_key key)
      → sign_compact_payload env.tokens payload key ≡ ok text
      → All IsSpace before
      → All IsSpace after
      → token_text env args.token args.qr_image ≡ ok (before ++ text ++ after)
      → main env args now later
        ≡ (if ltb payload.expires_at later then (codes "INVALID", 1) else (codes "VALID", 0))
  main-sign_compact_payload args now later payload key before text after loaded issued hb ha given =
      let (a, b, shape, safe_a, safe_b) =
        sign_compact_payload_parts env.tokens payload key text issued in
      let no_space : All NoSpace (a ++ b'.' ∷ b) =
        All-append NoSpace a (b'.' ∷ b) (IsUrlSafe-NoSpace a safe_a)
          (IsTokenChar-NoSpace b'.' (inr refl), IsUrlSafe-NoSpace b safe_b) in
      let trimmed =
        trim_around before text after hb ha
          (subst (λ t. trim t ≡ t) (sym shape) (trim_none (a ++ b'.' ∷ b) no_space)) in
      let not_read =
        subst (λ t. verify_token_string env.tokens t (env.verifying_key key) now ≡ invalid)
          (sym shape) (dotted_not_json a b (env.verifying_key key) now safe_a) in
      main_of args now later (env.verifying_key key) (before ++ text ++ after) text loaded given
        trimmed
      ∙ not_json text (env.verifying_key key) now later payload not_read
          (verify-sign_compact_payload env.tokens payload key text issued)
