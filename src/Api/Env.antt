-- ===== src/Api/Env.antt =====
-- What crates/api_server calls outside the repository.
use lightining_pass.Base.{Result, Text}
use lightining_pass.Qr.{QrLib}
use lightining_pass.Token.Env.{TokenEnv}

pub record ApiEnv : Type 1 where
  pub tokens : TokenEnv
  pub open tokens use *
  pub qr : QrLib
  -- `serde_json::Value`, `serde_json::from_str::<Value>` and `Value::String`
  pub Value : Type 0
  pub value_from_str : Text → Result Value Text
  pub value_string : Text → Value
