-- ===== src/Lib.antt =====
-- A2G decides whether an agent may run a tool, and a gateway enforces the decision. A mandate,
-- signed by its issuer, names what an agent may do. `decide` (crates/a2g-core/src/enforce.rs)
-- checks a call against the mandate, the vehicle's state and a trust anchor, and returns a verdict;
-- a tool that needs a human gets a pending binding, and `decide_with_approval` finishes the call
-- with a signed grant. A verdict becomes a receipt in the ledger's chain and a signed receipt for
-- the gateway; the gateway (crates/a2g-gateway) checks the receipt again on its own and alone
-- writes to the vehicle's bus.
--
-- Parts and files:
--   Base, Error       numbers, lists, text; A2gError and its results (crates/a2g-core/src/error.rs)
--   Platform          the external packages (hashes, signatures, time, CBOR) as functions of a record
--   Mandate           mandate.rs, cbor.rs: `parse_cbor_mandate_raw`, `verify_cbor_signature`
--   Vehicle, Cockpit  vehicle.rs, cockpit.rs: the classifiers, the state gates, attested state
--   Authority         authority.rs: `create_root_delegation`, `delegate`, `verify_chain`, scopes
--                     and jurisdictions
--   Hitl              hitl.rs: bindings and grants
--   Enforce           enforce.rs: `decide_core` as a pipeline of its steps (Steps, Escalate), paths,
--                     globs and hours, and the two phases (Decide, Approval)
--   Gateway           crates/a2g-gateway/src: frames and ingest (state_ingest.rs), the queue and the
--                     nonce ring (pending.rs), the checks and handlers (server.rs, protocol.rs,
--                     forbidden.rs, bus.rs)
--   Proposal          proposal.rs: the risk of a mandate, proposals, reviews and their statuses
--   Receipt           receipt.rs: receipts, their hashes and chains
--   Identity          identity.rs: DIDs and their keys
--   Output            output_gov.rs: the filter on the responses of tools
--   Cli               crates/a2g-cli/src: the ledger's tables and operations (ledger.rs), the
--                     reconstruction of lineages (lineage.rs), compiling mandates
--                     (mandate_compile.rs), trust summaries (trust_summary.rs, Summary), and
--                     the commands (main.rs): the signing and reviewing of files (Sign), and those that
--                     delegate, revoke, propose, review, enforce and compress (Commands)
--   Proxy             crates/a2g-mcp-proxy/src: `check` (governance.rs), with `decide` and the gateway
--                     behind it, and the dispatch of messages (proxy.rs, config.rs); the receipts
--                     that it signs (crates/a2g-gateway/src/lib.rs)
--   Ffi               crates/a2g-ffi/src/lib.rs: the C functions that decide, their handles and codes
--   Examples          concrete data and the theorems applied to it
--
-- A text is the list of its code points. A handler of the gateway is a function from a state to a
-- reply and a state, where a reply can be a panic; the lock makes each handler one step, and
-- `serve` is a sequence of requests. The ledger is a record of tables, each the list of its rows,
-- and an operation leaves a table as it is or adds a row; any sequence of operations is a
-- reachability relation, and so is any sequence of the commands that change the ledger. A file that
-- a command reads is what was written to it, but for the rates of a summary, which JSON may change.
-- A command answers a result, with `none` for a panic, and leaves a ledger; a C pointer is an
-- option and a caught panic an argument. A step of the pipeline goes on, halts with a verdict, or
-- fails. The wall clock, the random ids, the ledger's answers and the file system's answers are
-- arguments. Loops are structural recursion, but for the lineage, whose fuel is enough once it
-- exceeds the maximal depth, the levels of a Merkle tree, which are fewer than its leaves, and the
-- digits of a number, which are fewer than the number's successor; 32-bit and 64-bit counters keep
-- their bounds where the source saturates or truncates them.
--
-- Not modelled: sockets, the raw CAN calls and threads; JSON and CBOR codecs, which are parameters;
-- regular expressions and floating-point numbers, parameters too; failures of SQLite; the reports
-- and the test runner of the command line, its arguments and printing, but for slices that can
-- panic; the memory of the C interface; the demonstrations, the conformance driver and the earlier
-- single crate under src.

pub mod Base
pub mod Error
pub mod Platform
pub mod Mandate
pub mod Vehicle
pub mod Cockpit
pub mod Authority
pub mod Identity
pub mod Hitl
pub mod Proposal
pub mod Enforce
pub mod Output
pub mod Receipt
pub mod Cli
pub mod Gateway
pub mod Proxy
pub mod Ffi
pub mod Examples
