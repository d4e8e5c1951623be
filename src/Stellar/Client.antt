-- ===== src/Stellar/Client.antt =====
-- crates/stellar_adapter/src/client.rs. reqwest is not in the repository: `Horizon` is what a GET of
-- a URL gives, once the status is checked and the body is read.
use lightining_pass.Base.{true, Result, Text, codes, ◌++◌, ◌∷◌, [], All, ◌≡◌, arith, ◌==◌}
use lightining_pass.Text.Trim.{trim_end_matches, trim_end_by-append}
use lightining_pass.Stellar.Types.{PaymentsResponse}

abbrev pub Horizon : Type 0
Horizon = (url : Text) → Result PaymentsResponse Text

pub record HorizonClient : Type 0 where
  pub base_url : Text

-- `HorizonClient::new`.
unfoldable pub new_client : Text → HorizonClient
new_client base_url = record { base_url = trim_end_matches b'/' base_url }

unfoldable pub payments_url : HorizonClient → Text → Text
payments_url client account =
    client.base_url ++ (codes "/accounts/" ++ (account ++ codes "/payments?limit=200&order=desc"))

unfoldable pub payments_for_account : HorizonClient → Horizon → Text → Result PaymentsResponse Text
payments_for_account client horizon account = horizon (payments_url client account)

-- The URL that is asked does not depend on the slashes at the end of the configured one.
pub payments_url-new_client :
    (base slashes account : Text)
    → All (λ c. c ≡ b'/') slashes
    → payments_url (new_client (base ++ slashes)) account ≡ payments_url (new_client base) account
unfolding new_client payments_url trim_end_matches
payments_url-new_client base slashes account h =
    rw (trim_end_by-append (λ d. d == b'/') base slashes (All-slash slashes h))
  where
    All-slash : (s : Text) → All (λ c. c ≡ b'/') s → All (λ c. (c == b'/') ≡ true) s
    All-slash [] h = tt
    All-slash (c ∷ s) (e, h) = (ground arith, All-slash s h)
