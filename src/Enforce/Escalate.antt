-- ===== src/Enforce/Escalate.antt =====
-- crates/a2g-core/src/enforce.rs, `decide_core`: step 6, the escalation to a human.
use a2g_cli.Base.{
  String, ◌*◌, Bool, true, false, some, List, if◌then◌else◌, is_empty, find_first, unwrap_or,
}
use a2g_cli.Base.Text.{Text, codes, list_contains}
use a2g_cli.Error.{Message, format, text, end}
use a2g_cli.Platform.{Platform}
use a2g_cli.Hitl.Types.{PendingApprovalBinding, compute_request_hash, pending_approval_ttl_minutes}
use a2g_cli.Cockpit.{classify_cockpit_tool, always_hitl}
use a2g_cli.Enforce.Paths.{bounded_path}
use a2g_cli.Enforce.Glob.{glob_matches, extract_host}
use a2g_cli.Enforce.Types.{
  with_some, Verdict, pending_approval, Request, make_verdict, Flow, next, halt, halt_if, ◌>>◌,
}

-- The binding of this request; the deadline is the injected time if adding to it overflows.
unfoldable pub pending_binding : Platform → Request → PendingApprovalBinding
pending_binding p r = record {
  binding_id = r.ids.binding_id;
  request_hash = compute_request_hash p r.mandate_hash r.tool r.params_hash (p.to_rfc3339 r.now);
  escalate_to = r.m.escalation.escalate_to;
  ttl_expires_at = unwrap_or (p.checked_add_secs r.now (60 * pending_approval_ttl_minutes)) r.now;
}

abbrev pub escalate : Platform → Request → Message → Verdict
escalate p r rule = record (make_verdict r pending_approval rule) {
  pending_approval = some (pending_binding p r);
}

abbrev pub approver : Text → Text
approver to = if is_empty to then codes "higher authority" else to

-- The first pattern of the list that matches stops the pipeline.
abbrev pub escalate_on : Platform → Request → String → List Text → Text → Flow (Unit {0})
escalate_on p r rule patterns t =
    with_some (find_first (λ q. glob_matches q t) patterns)
      λ pattern. halt (escalate p r (format rule (text t (text pattern end))))

-- Step 6a.
unfoldable pub escalate_cockpit : Platform → Request → Flow (Unit {0})
escalate_cockpit p r = halt_if (always_hitl (classify_cockpit_tool r.tool)) (
    escalate p r (
      format
        "cockpit_hitl_required: '{}' requires human-in-the-loop approval (ADR-0018: cockpit domain always-HITL)"
        (text r.tool end)))

unfoldable pub escalate_tool : Platform → Request → Flow (Unit {0})
escalate_tool p r = halt_if (list_contains r.m.escalation.escalate_tools r.tool) (
    escalate p r (
      format "escalation_required: tool '{}' requires approval from {}"
        (text r.tool (text (approver r.m.escalation.escalate_to) end))))

unfoldable pub escalate_path : Platform → Request → Flow (Unit {0})
escalate_path p r = with_some r.params.path λ raw.
    escalate_on p r "escalation_required: path '{}' matches escalate_paths '{}'"
      r.m.escalation.escalate_paths (bounded_path r.m.mandate.workspace_root raw)

unfoldable pub escalate_host : Platform → Request → Flow (Unit {0})
escalate_host p r = with_some r.params.url λ url.
    escalate_on p r "escalation_required: host '{}' matches escalate_hosts '{}'"
      r.m.escalation.escalate_hosts (extract_host url)

unfoldable pub check_escalation : Platform → Bool → Request → Flow (Unit {0})
check_escalation p true r = next tt
check_escalation p false r = do
  escalate_cockpit p r
  escalate_tool p r
  escalate_path p r
  escalate_host p r
