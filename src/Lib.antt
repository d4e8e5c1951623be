-- ===== src/Lib.antt =====
-- Lightning Pass sells access to an event: a buyer pays over Stellar or Lightning, the server signs a
-- pass for the payment, and a verifier at the gate accepts the pass until it expires.
--
-- The parts and their modules, with the paths of the sources from the repository's root:
--   Token         crates/access_token: tokens, signing, verification, in a JSON and a compact format.
--                 Token/Sign, Token/Verify and Token/Compact hold sign.rs, verify.rs and compact.rs,
--                 Token/Types holds token.rs and every type; Token/RoundTrip and Token/Authentic prove.
--   SharedTypes   crates/shared_types;  PaymentCore  crates/payment_core, the provider's interface.
--   Qr            crates/qr; Lightning/Qr is crates/lightning_node/src/qr.rs, a copy of it.
--   Stellar       crates/stellar_adapter: Stellar/Client is client.rs, Stellar/Parser is parser.rs,
--                 Stellar/Provider is provider.rs with memo.rs; Stellar/Confirms and Stellar/Search prove.
--   Api           crates/api_server: Api/Sessions is services/payment_service.rs, Api/Access is
--                 services/access_service.rs, Api/Watcher is services/watcher_service.rs, Api/Routes is
--                 routes/, Api/Config, Api/Boot and Api/Serve are main.rs, with state.rs. Api/System is
--                 the server as a transition system: requests, rounds and visits of the watcher, the
--                 clock; Api/Interleaved takes a visit apart.
--   Verifier      crates/verifier_cli/src/main.rs.
--   Gate          the passes of both services at the verifier; it has no code of its own. Gate/Admits
--                 and Gate/Late follow a payment over Stellar, Gate/Invoices one over Lightning.
--   Lightning     crates/lightning_node: Lightning/Gateway is layers/lightning.rs, Lightning/Proof is
--                 layers/proof.rs, Lightning/Access is layers/access.rs, Lightning/Funding is
--                 layers/funding.rs, Lightning/Config, Lightning/Connect and Lightning/Main are main.rs,
--                 Lightning/Mock is bin/mock.rs. Lightning/Node is the process as a transition system:
--                 the statements of main.rs in their order, and the handlers of layers/proof.rs as tasks.
--   Base, Text, Random   what the parts share: results, maps with string keys, lists, the string
--                 functions of the standard library that the code calls, random alphanumeric text.
--
-- How the source is read. A `String` is a list of code points, a `Vec<u8>` a list of numbers below 256.
-- A `u64` is a natural number, whose sums wrap at 2^64 where the source adds. A `Result` is the data
-- type `Result`, and `?` is the bind of a do block. A shared map behind a lock is a state that an
-- operation takes and returns; an operation that holds the lock is one step. The clock's reading and
-- the samples of the random generator are arguments, and so is what a network answers. An error that
-- the source only prints is dropped.
--
-- How the processes run. In Api/System a request and a visit of the watcher are one step each: what
-- they write, they write under one lock. In Api/Interleaved a visit is two steps, Horizon's answer and
-- the write, and other steps may come between. In Lightning/Node a handler is a task that runs
-- from one lock to the next, and the tasks interleave in any order; `create_invoice` has two writes, `handle_payment`
-- a reading and a write. Both take the random ids that name a new entry as fresh: the memo of a request
-- (`requests` of Api/System), the invoice id and the payment hash (`IsFresh` of Lightning/Node). A
-- payment may be reported between any two statements of main; the forwarder drops it until `set_handler`
-- has run, and requests are answered once `server.await` has begun.
--
-- What is not in the repository is a parameter, with the documented laws that the code relies on:
-- ed25519-dalek, base64 and serde_json (Token/Env), qrcode and image (Qr), Horizon (Stellar/Client), the
-- file system and rqrr (Verifier), breez_sdk_core (Lightning/Gateway and Lightning/Connect), reqwest
-- (Lightning/Funding). Token/Demo gives one concrete environment in which the laws hold, and the tests run in it.
--
-- Fuel is used twice: by `show_digits` in Text/Decimal, with twenty digits, enough for every u64, and by
-- `run_alone` in Lightning/Node/Alone, with two tasks, after which no task of a handler is left.
--
-- Not modelled: how HTTP requests are matched and parsed, CORS, how connections are accepted, clap's
-- parsing, the layout of JSON, the front end haske-ui, and the copy of ldk-node under vendor.
mod Base
pub mod Text
mod Random
pub mod Token
pub mod SharedTypes
pub mod PaymentCore
pub mod Stellar
pub mod Qr
pub mod Api
pub mod Verifier
pub mod Lightning
pub mod Gate
