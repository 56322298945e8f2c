-- ===== src/Ffi/Handle.antt =====
-- crates/a2g-ffi/src/lib.rs: the verdict handle and its accessors. A handle keeps the decision of
-- its verdict and the strings that the accessors return.
use a2g_cli.Base.{Option, none, some, []}
use a2g_cli.Base.Text.{Text, codes}
use a2g_cli.Error.{Message}
use a2g_cli.Hitl.Types.{PendingApprovalBinding}
use a2g_cli.Receipt.Types.{trust_name}
use a2g_cli.Enforce.Types.{Decision, deny, Verdict}
use a2g_cli.Ffi.Types.{A2gDecision, code_of, code_error, safe_cstring}

pub record A2gVerdictHandle : Type 0 where
  pub decision : Decision
  pub verdict_id : Text
  pub agent_did : Text
  pub tool : Text
  pub policy_rule : Text
  pub state_trust : Text
  pub binding_id : Text
  pub request_hash : Text
  pub binding_json : Text

-- `serde_json::to_string` of a pending binding is `to_json`.
module _ (render : Message → Text) (to_json : PendingApprovalBinding → Option Text) where
  abbrev pub json_of : Option Text → Text
  json_of none = []
  json_of (some t) = t

  abbrev pub pending_strings : Option PendingApprovalBinding → Text × Text × Text
  pending_strings none = ([], [], [])
  pending_strings (some b) = (b.binding_id, b.request_hash, json_of (to_json b))

  -- `A2gVerdictHandle::new`
  unfoldable pub new_handle : Verdict → A2gVerdictHandle
  unfolding safe_cstring
  new_handle v =
      let (id, hash, json) = pending_strings v.pending_approval in
      record {
        decision = v.decision;
        verdict_id = safe_cstring v.verdict_id;
        agent_did = safe_cstring v.agent_did;
        tool = safe_cstring v.tool;
        policy_rule = safe_cstring (render v.policy_rule);
        state_trust = safe_cstring (trust_name v.state_trust);
        binding_id = safe_cstring id;
        request_hash = safe_cstring hash;
        binding_json = safe_cstring json;
      }

-- `make_error_verdict`
abbrev pub make_error_verdict : A2gVerdictHandle
make_error_verdict = record {
  decision = deny;
  verdict_id = [];
  agent_did = [];
  tool = [];
  policy_rule = codes "ffi_error";
  state_trust = [];
  binding_id = [];
  request_hash = [];
  binding_json = [];
}

abbrev pub a2g_verdict_decision : Option A2gVerdictHandle → A2gDecision
a2g_verdict_decision none = code_error
a2g_verdict_decision (some h) = code_of h.decision

abbrev pub a2g_verdict_id : Option A2gVerdictHandle → Option Text
a2g_verdict_id none = none
a2g_verdict_id (some h) = some h.verdict_id

abbrev pub a2g_verdict_agent_did : Option A2gVerdictHandle → Option Text
a2g_verdict_agent_did none = none
a2g_verdict_agent_did (some h) = some h.agent_did

abbrev pub a2g_verdict_tool : Option A2gVerdictHandle → Option Text
a2g_verdict_tool none = none
a2g_verdict_tool (some h) = some h.tool

abbrev pub a2g_verdict_policy_rule : Option A2gVerdictHandle → Option Text
a2g_verdict_policy_rule none = none
a2g_verdict_policy_rule (some h) = some h.policy_rule

abbrev pub a2g_verdict_state_trust : Option A2gVerdictHandle → Option Text
a2g_verdict_state_trust none = none
a2g_verdict_state_trust (some h) = some h.state_trust

abbrev pub a2g_verdict_binding_id : Option A2gVerdictHandle → Option Text
a2g_verdict_binding_id none = none
a2g_verdict_binding_id (some h) = some h.binding_id

abbrev pub a2g_verdict_request_hash : Option A2gVerdictHandle → Option Text
a2g_verdict_request_hash none = none
a2g_verdict_request_hash (some h) = some h.request_hash

abbrev pub a2g_verdict_binding_json : Option A2gVerdictHandle → Option Text
a2g_verdict_binding_json none = none
a2g_verdict_binding_json (some h) = some h.binding_json
