-- ===== src/Stellar/Parser.antt =====
-- crates/stellar_adapter/src/parser.rs
use lightining_pass.Base.{Result, ok, Text, codes, text_eq, is_empty, unwrap_or, [], if◌then◌else◌}
use lightining_pass.SharedTypes.{PaymentEvent}
use lightining_pass.Stellar.Types.{PaymentRecord}

unfoldable pub asset_of : PaymentRecord → Text
asset_of r =
    if text_eq r.asset_type (codes "native")
    then codes "XLM"
    else unwrap_or r.asset_code r.asset_type

unfoldable pub parse_payment : PaymentRecord → Result PaymentEvent Text
unfolding asset_of
parse_payment r =
    let asset = asset_of r in
    ok (record {
      tx_hash = if is_empty r.transaction_hash then r.id else r.transaction_hash;
      source_account = r.from;
      destination_account = r.to;
      amount = r.amount;
      asset = asset;
      memo = unwrap_or r.memo [];
      ledger_sequence = unwrap_or r.ledger 0;
      confirmed_at = 0;
    })
