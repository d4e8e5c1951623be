-- ===== src/Lightning/Access.antt =====
-- crates/lightning_node/src/layers/access.rs: the routes of the Lightning service. The body of a
-- request is taken as parsed, and a request as brought to its route.
pub mod Laws
use lightining_pass.Base.{ℕ, Option, Result, map_err, map_ok, Text}
use lightining_pass.Random.{Samples}
use lightining_pass.Token.Env.{TokenEnv}
use lightining_pass.Qr.{QrLib}
use lightining_pass.Lightning.Gateway.{LightningGateway}
use lightining_pass.Lightning.Proof.{
  ProofError, not_found, internal, ProofService, InvoiceResponse, StatusResponse,
}
use lightining_pass.Lightning.Proof

pub record CreateInvoiceRequest : Type 0 where
  pub amount_msat : Option ℕ
  pub description : Option Text

-- The three routes of `build_router`, with what their handlers take from a request.
pub data Call : Type 0 where
  post_invoice : CreateInvoiceRequest → Call
  get_invoice : (invoice_id : Text) → Call
  get_invoice_access : (invoice_id : Text) → Call

pub data Reply : Type 0 where
  invoice_reply : InvoiceResponse → Reply
  status_reply : StatusResponse → Reply

-- The status codes, by their numbers.
unfoldable pub map_error : ProofError → ℕ
map_error not_found = 404
map_error internal = 500

module _ (tokens : TokenEnv) (qr : QrLib) where
  unfoldable pub create_invoice :
      {S : Type 0}
      → ProofService tokens qr
      → LightningGateway S
      → CreateInvoiceRequest
      → Samples
      → (now : ℕ) → Result InvoiceResponse ℕ × ProofService tokens qr
  create_invoice self gateway body rng now =
      let (r, after) =
        Proof.create_invoice tokens qr self gateway body.amount_msat body.description rng now in
      (map_err map_error r, after)

  unfoldable pub check_invoice : ProofService tokens qr → Text → Result StatusResponse ℕ
  check_invoice self invoice_id = map_err map_error (Proof.check_invoice tokens qr self invoice_id)

  unfoldable pub get_access_token : ProofService tokens qr → Text → Result StatusResponse ℕ
  get_access_token self invoice_id =
      map_err map_error (Proof.get_access_token tokens qr self invoice_id)

  -- A request at its route: the reply, or the status code of an error, and the service after it.
  unfoldable pub serve :
      {S : Type 0}
      → ProofService tokens qr
      → LightningGateway S
      → Call
      → Samples
      → (now : ℕ) → Result Reply ℕ × ProofService tokens qr
  unfolding create_invoice check_invoice get_access_token
  serve self gateway (post_invoice body) rng now =
      let (r, after) = create_invoice self gateway body rng now in (map_ok invoice_reply r, after)
  serve self gateway (get_invoice invoice_id) rng now =
      (map_ok status_reply (check_invoice self invoice_id), self)
  serve self gateway (get_invoice_access invoice_id) rng now =
      (map_ok status_reply (get_access_token self invoice_id), self)
