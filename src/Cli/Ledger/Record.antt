-- ===== src/Cli/Ledger/Record.antt =====
-- crates/a2g-cli/src/ledger.rs: recording decisions, reading them back, and checking their chain.
use a2g_cli.Base.{
  ℕ, zero, suc, ◌-◌, Bool, true, false, ◌&&◌, ◌||◌, not, Option, none, some, List, [], ◌∷◌, ◌++◌,
  reverse, take, last?, any, length, get_elem?, find_first, if◌then◌else◌, unwrap_or,
}
use a2g_cli.Base.Text.{Text, text_eq, text_lt, slice_to}
use a2g_cli.Error.{Message, say, format, text, end, ledger_error, Result, ok, err}
use a2g_cli.Platform.{Platform, Time}
use a2g_cli.Authority.Chain.{genesis_hash}
use a2g_cli.Enforce.Types.{Verdict}
use a2g_cli.Receipt.Types.{Receipt, decision_text}
use a2g_cli.Receipt.Chain.{generate_receipt}
use a2g_cli.Cli.Ledger.Tables.{Ledger, LedgerEntry, where_rows, count_rows, filter_is}

-- `SELECT receipt_hash FROM decisions ORDER BY seq DESC LIMIT 1`
unfoldable pub last_receipt_hash : Ledger → Option Text
last_receipt_hash db = elim (last? db.decisions) [ none ↦ none | some e ↦ some e.receipt_hash ]

-- The values of the `INSERT` into `decisions`.
unfoldable pub decision_row : (Message → Text) → Verdict → Receipt → LedgerEntry
decision_row render v r = record {
  receipt_id = r.receipt_id;
  verdict_id = v.verdict_id;
  agent_did = v.agent_did;
  agent_name = v.agent_name;
  tool = v.tool;
  params_hash = v.params_hash;
  decision = decision_text v.decision;
  policy_rule = render v.policy_rule;
  policy_hash = r.policy_hash;
  timestamp = r.timestamp;
  prev_hash = r.prev_hash;
  receipt_hash = r.receipt_hash;
  mandate_hash = r.mandate_hash;
  proposal_hash = r.proposal_hash;
  delegation_chain_hash = r.delegation_chain_hash;
  issuer_did = r.issuer_did;
  authority_level = r.authority_level;
  scope_hash = r.scope_hash;
  correlation_id = r.correlation_id;
  parent_receipt_hash = r.parent_receipt_hash;
  state_trust = r.state_trust;
}

-- The `INSERT` into `decisions`, with the unique id of a receipt.
unfoldable pub insert_decision : LedgerEntry → Ledger → Result (Unit {0}) × Ledger
insert_decision e db =
    if any (λ x. text_eq x.receipt_id e.receipt_id) db.decisions
    then (err (ledger_error (say "UNIQUE constraint failed: decisions.receipt_id")), db)
    else (ok tt, record db { decisions = db.decisions ++ (e ∷ []) })

-- `append`. The answer `none` is the panic of a slice of sixteen bytes for the error's text.
unfoldable pub append :
    (Message → Text) → Verdict → Receipt → Ledger → Option (Result (Unit {0})) × Ledger
unfolding last_receipt_hash decision_row insert_decision
append render v r db =
    let expected = unwrap_or (last_receipt_hash db) genesis_hash in
    if text_eq r.prev_hash expected
    then (
      some (insert_decision (decision_row render v r) db).0,
      (insert_decision (decision_row render v r) db).1,
    )
    else elim (slice_to 16 r.prev_hash) [
      | none ↦ (none, db)
      | some a ↦ elim (slice_to 16 expected) [
        | none ↦ (none, db)
        | some b ↦ (
          some (
              err (
                ledger_error (
                  format
                    "chain integrity violation: receipt prev_hash '{}…' does not match ledger last hash '{}…'"
                    (text a (text b end))))),
          db,
        )
      ]
    ]

-- `COMMIT` after the `INSERT`, or `ROLLBACK`, which leaves the tables as they were but not
-- `PREV_HASH`.
abbrev pub commit : Receipt → Ledger → Result (Unit {0}) × Ledger → Result Receipt × Ledger
commit r begun (err fault, db) = (err fault, begun)
commit r begun (ok done, db) = (ok r, db)

-- `enforce_and_record`: one transaction.
unfoldable pub enforce_and_record :
    Platform
    → (Message → Text)
    → (receipt_id : Text) (now : Time) → Verdict
    → Ledger
    → Result Receipt × Ledger
unfolding last_receipt_hash decision_row insert_decision generate_receipt
enforce_and_record p render receipt_id now v db =
    let r = generate_receipt p render (last_receipt_hash db) receipt_id now v in
    let begun : Ledger = record db { last_hash = some r.receipt_hash } in
    commit r begun (insert_decision (decision_row render v r) begun)

-- `query`: the newest first.
unfoldable pub query : (agent decision : Option Text) → ℕ → Ledger → List LedgerEntry
unfolding where_rows
query agent decision limit db = take limit (
    reverse
      (where_rows (λ e. filter_is agent e.agent_did && filter_is decision e.decision) db.decisions))

-- `query_decision_by_id`, in the order of `seq`.
unfoldable pub query_decision_by_id : Text → Ledger → Option LedgerEntry
query_decision_by_id id db =
    find_first (λ e. text_eq e.receipt_id id || text_eq e.receipt_hash id) db.decisions

abbrev pub within_window : (agent start stop : Text) → LedgerEntry → Bool
within_window agent start stop e =
    text_eq e.agent_did agent && (not (text_lt e.timestamp start) && not (text_lt stop e.timestamp))

unfoldable pub query_window : (agent start stop : Text) → Ledger → List LedgerEntry
unfolding where_rows
query_window agent start stop db = where_rows (within_window agent start stop) db.decisions

unfoldable pub count_window : (agent start stop : Text) → Ledger → ℕ
unfolding where_rows
count_window agent start stop db = count_rows (within_window agent start stop) db.decisions

abbrev pub count_total : Ledger → ℕ
count_total db = length db.decisions

-- `curr.1 != prev.0`, on two entries that are in range.
abbrev pub mismatch : Option LedgerEntry → Option LedgerEntry → Bool
mismatch none prev = false
mismatch (some curr) none = false
mismatch (some curr) (some prev) = not (text_eq curr.prev_hash prev.receipt_hash)

-- `entries[i].1 != entries[i - 1].0`
unfoldable pub breaks_at : List LedgerEntry → ℕ → Bool
breaks_at entries i = mismatch (get_elem? entries i) (get_elem? entries (i - 1))

-- The loop `for i in i..i + n`, which returns the first index at which the chain breaks.
unfoldable pub first_break : List LedgerEntry → (n i : ℕ) → Option ℕ
unfolding breaks_at
first_break entries zero i = none
first_break entries (suc n) i =
    let rest = first_break entries n (suc i) in if breaks_at entries i then some i else rest

-- `verify_chain`, on the entries that it has read.
unfoldable pub verify_entries : List LedgerEntry → Bool × ℕ
unfolding first_break
verify_entries [] = (true, 0)
verify_entries (e ∷ es) =
    if not (text_eq e.prev_hash genesis_hash)
    then (false, 0)
    else elim (first_break (e ∷ es) (length es) 1) [
      | some i ↦ (false, i)
      | none ↦ (true, length (e ∷ es))
    ]

abbrev pub verify_ledger : Ledger → Bool × ℕ
verify_ledger db = verify_entries db.decisions
