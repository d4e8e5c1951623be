-- ===== src/Token/Demo/Written.antt =====
-- How the concrete environment writes tokens and payloads, and reads them.
use lightining_pass.Token.Demo.Codec.{
  put_text, take_text, take_text-put_text, put_text-append, put_number, take_number,
  take_number-put_number, put_number-append,
}
use lightining_pass.Base.{
  ◌==◌, if◌then◌else◌, ◌≡◌, refl, Option, none, some, ◌∷◌, [], ◌++◌, Text, Bytes, ap,
}
use lightining_pass.Token.Types.{AccessToken, SignedAccessToken, CompactAccessPayload}

infixl 5 ◌>>=◌
abbrev ◌>>=◌ {ℓ κ} : {A : Type ℓ} {B : Type κ} → Option A → (A → Option B) → Option B
none >>= f = none
some a >>= f = f a

unfoldable pub put_token : AccessToken → Text → Text
put_token t rest = put_number t.version (
    put_text t.event_id (
      put_text t.payment_hash (
        put_text t.tx_hash (
          put_text t.source (
            put_text t.amount (
              put_text t.asset (
                put_text t.memo
                  (put_number t.ledger (put_number t.expires_at (put_text t.nonce rest))))))))))

unfoldable pub take_token : Text → Option (AccessToken × Text)
take_token s = do
  (version, s) ← take_number s
  (event_id, s) ← take_text s
  (payment_hash, s) ← take_text s
  (tx_hash, s) ← take_text s
  (source, s) ← take_text s
  (amount, s) ← take_text s
  (asset, s) ← take_text s
  (memo, s) ← take_text s
  (ledger, s) ← take_number s
  (expires_at, s) ← take_number s
  (nonce, s) ← take_text s
  some (
    record {
      version = version;
      event_id = event_id;
      payment_hash = payment_hash;
      tx_hash = tx_hash;
      source = source;
      amount = amount;
      asset = asset;
      memo = memo;
      ledger = ledger;
      expires_at = expires_at;
      nonce = nonce;
    },
    s,
  )

ruleset reads = (take_text-put_text, take_number-put_number)

ruleset appends = (put_text-append, put_number-append)

take_token-put_token :
    (t : AccessToken) (rest : Text) → take_token (put_token t rest) ≡ some (t, rest)
unfolding take_token put_token
take_token-put_token t rest = simp reads

put_token-append : (t : AccessToken) (a b : Text) → put_token t (a ++ b) ≡ put_token t a ++ b
unfolding put_token
put_token-append t a b = simp appends

unfoldable pub put_signed : SignedAccessToken → Text
put_signed s = b'{' ∷ put_token s.token (put_text s.signature (b'}' ∷ []))

unfoldable pub take_object : Text → Option SignedAccessToken
take_object s = do
  (token, s) ← take_token s
  (signature, s) ← take_text s
  some (record { token = token; signature = signature })

unfoldable pub take_signed : Text → Option SignedAccessToken
take_signed [] = none
take_signed (c ∷ s) = if c == b'{' then take_object s else none

pub take_signed-put_signed : (s : SignedAccessToken) → take_signed (put_signed s) ≡ some s
unfolding take_signed take_object put_signed
take_signed-put_signed s = simp (take_token-put_token, take_text-put_text)

pub put_signed_object :
    (s : SignedAccessToken) → (body : Text) × (put_signed s ≡ b'{' ∷ body ++ b'}' ∷ [])
unfolding put_signed
put_signed_object s = (
  put_token s.token (put_text s.signature []),
  ap (λ (t : Text). b'{' ∷ t) (rw (← put_token-append, ← put_text-append) refl),
)

unfoldable pub put_payload : CompactAccessPayload → Bytes
put_payload p = put_text p.payment_hash (put_number p.expires_at (put_text p.event_id []))

unfoldable pub take_payload : Bytes → Option CompactAccessPayload
take_payload s = do
  (payment_hash, s) ← take_text s
  (expires_at, s) ← take_number s
  (event_id, s) ← take_text s
  some (record { payment_hash = payment_hash; expires_at = expires_at; event_id = event_id })

pub take_payload-put_payload : (p : CompactAccessPayload) → take_payload (put_payload p) ≡ some p
unfolding take_payload put_payload
take_payload-put_payload p = simp reads
