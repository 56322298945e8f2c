-- ===== src/Enforce/Approval.antt =====
-- crates/a2g-core/src/enforce.rs: `decide_with_approval`, phase 2 of the approval protocol.
use a2g_cli.Base.{true, not, ◌&&◌, ltb, if◌then◌else◌, is_empty}
use a2g_cli.Base.Text.{codes}
use a2g_cli.Error.{
  A2gError, grant_expired, binding_mismatch, Message, format, say, text, failure, end, Result, ok,
  err, ◌>>=◌,
}
use a2g_cli.Platform.{Platform}
use a2g_cli.Vehicle.Types.{is_forbidden_domain}
use a2g_cli.Vehicle.Classify.{classify_vehicle_tool}
use a2g_cli.Cockpit.{classify_cockpit_tool, is_cockpit_forbidden_domain}
use a2g_cli.Hitl.Types.{PendingApprovalBinding, ApprovalGrant}
use a2g_cli.Hitl.Grant.{verify_against_binding}
use a2g_cli.Enforce.Types.{deny, Verdict, is_allow, Request, make_verdict}
use a2g_cli.Enforce.Decide.{Call, prepare, decide_core}

abbrev pub grant_rule : A2gError → Message
grant_rule (binding_mismatch field) =
    format "approval_grant_invalid: {} mismatch" (text (codes field) end)
grant_rule grant_expired = say "approval_grant_expired"
grant_rule e = format "approval_grant_invalid: {}" (failure e end)

-- The link of an allowing verdict to the receipt of phase 1.
abbrev pub link_receipt : PendingApprovalBinding → ApprovalGrant → Verdict → Verdict
link_receipt pending grant v =
    if is_allow v.decision && not (is_empty grant.parent_receipt_hash)
    then record v {
      correlation_id = pending.binding_id;
      parent_receipt_hash = grant.parent_receipt_hash;
    }
    else v

-- The checks in the order of the source: the forbidden domains, the grant, the binding's deadline.
unfoldable pub early_deny :
    Platform → PendingApprovalBinding → ApprovalGrant → Request → Result Verdict → Result Verdict
early_deny p pending grant r otherwise =
    if is_forbidden_domain (classify_vehicle_tool r.tool)
    then ok (
        make_verdict r deny (
          format
            "vehicle_forbidden_domain: '{}' is in the safety-critical domain and cannot be granted by any mandate or approval"
            (text r.tool end)))
    else if is_cockpit_forbidden_domain (classify_cockpit_tool r.tool)
    then ok (
        make_verdict r deny (
          format
            "cockpit_forbidden_domain: '{}' is structurally forbidden and cannot be granted by any mandate or approval"
            (text r.tool end)))
    else elim (verify_against_binding p grant pending r.now) [
      | err e ↦ ok (make_verdict r deny (grant_rule e))
      | ok u ↦
          if ltb r.now pending.ttl_expires_at
          then otherwise
          else ok (make_verdict r deny (say "pending_approval_expired"))
    ]

unfoldable pub decide_with_approval :
    Platform → PendingApprovalBinding → ApprovalGrant → Call → Result Verdict
unfolding early_deny
decide_with_approval p pending grant c = do
  r ← prepare p c
  early_deny p pending grant r (decide_core p true c >>= λ v. ok (link_receipt pending grant v))
