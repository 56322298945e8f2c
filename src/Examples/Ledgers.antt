-- ===== src/Examples/Ledgers.antt =====
-- The theorems on the ledger and its receipts, applied to concrete ledgers.
use a2g_cli.Base.{◌≡◌, refl, ◌↔◌, true, some, List, [], ◌∷◌, length, arith}
use a2g_cli.Base.Text.{text_eq, Text, codes}
use a2g_cli.Error.{Message, say, ok, Result}
use a2g_cli.Mandate.Types.{tbs_to_mandate}
use a2g_cli.Mandate.Verify.{parse_cbor_mandate_raw}
use a2g_cli.Authority.Chain.{genesis_hash}
use a2g_cli.Enforce.Types.{Verdict, Request, allow, make_verdict}
use a2g_cli.Enforce.Decide.{Call, prepare, request_of, decide}
use a2g_cli.Enforce.Approval.{decide_with_approval}
use a2g_cli.Enforce.Decision.{Allows}
use a2g_cli.Hitl.Types.{ApprovalGrant}
use a2g_cli.Receipt.Chain.{verify_receipts}
use a2g_cli.Cli.Ledger.Tables.{Ledger, empty_ledger, revoke_mandate, enforce_ledger}
use a2g_cli.Cli.Ledger.Record.{enforce_and_record, verify_ledger}
use a2g_cli.Cli.Ledger.Audit.{Linked, verify_ledger_iff}
use a2g_cli.Cli.Ledger.Steps.{LedgerReach, records, stays, steps}
use a2g_cli.Cli.Ledger.Chained.{Recording, record_all, verify_receipts-record_all}
use a2g_cli.Cli.Ledger.Revoked.{revoked-denied}
use a2g_cli.Cli.Lineage.{ExecutionLineage, Within, reconstruct_lineage, reconstruct_lineage-returns}
use a2g_cli.Examples.{platform, call, tbs, envelope, binding, key}

abbrev pub render : Message → Text
render m = codes "rule"

abbrev pub request : Request
request =
    request_of platform (call (codes "play")) (codes "{}")
      (tbs_to_mandate tbs, envelope (codes "cbor"))

abbrev pub verdict : Verdict
verdict = make_verdict request allow (say "tool_allowed")

abbrev two_calls : List Recording
two_calls =
    record { receipt_id = codes "r"; now = 7; verdict = verdict }
    ∷ record { receipt_id = codes "s"; now = 8; verdict = verdict }
    ∷ []

abbrev pub one_record : Ledger
one_record = (enforce_and_record platform render (codes "r") 7 verdict empty_ledger).1

reached : LedgerReach platform render empty_ledger one_record
reached = steps empty_ledger one_record stays (records (codes "r") 7 verdict empty_ledger)

verify_receipts-record_all_example :
    verify_receipts platform (record_all platform render two_calls empty_ledger) ≡ ok tt
verify_receipts-record_all_example = verify_receipts-record_all platform render two_calls

verify_ledger_iff_example :
    (verify_ledger one_record ≡ (true, length one_record.decisions))
    ↔ Linked genesis_hash one_record.decisions
verify_ledger_iff_example = verify_ledger_iff one_record

abbrev revoked : Ledger
revoked = (revoke_mandate [] request.m.mandate.agent_did request.mandate_hash [] [] one_record).1

abbrev revoked_call : Call
revoked_call = record (call (codes "play")) { ledger = enforce_ledger platform 70 revoked }

abbrev grant : ApprovalGrant
grant = record {
  binding_id = codes "b1";
  request_hash = codes "hash";
  approver_did = codes "did";
  approver_pubkey = key;
  signature = [];
  expires_at = [];
  parent_receipt_hash = [];
}

prepared : prepare platform revoked_call ≡ ok request
unfolding prepare parse_cbor_mandate_raw text_eq
prepared = refl

revoked-denied_example :
    (¬ (Allows (decide platform revoked_call)))
    × (¬ (Allows (decide_with_approval platform binding grant revoked_call)))
revoked-denied_example =
    revoked-denied platform render revoked_call request binding grant [] [] [] 70 one_record revoked
      prepared stays refl

reconstruct_lineage-returns_example :
    (r : Result ExecutionLineage) × (reconstruct_lineage 3 (codes "r") one_record 2 ≡ some r)
    × Within 2 r
reconstruct_lineage-returns_example =
    reconstruct_lineage-returns 3 (codes "r") one_record 2 (omega arith)
