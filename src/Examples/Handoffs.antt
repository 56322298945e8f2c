-- ===== src/Examples/Handoffs.antt =====
-- The two phases of an approval, through the core and through the C interface, on concrete calls.
use a2g_cli.Ffi.Written.{a2g_decide-IsWritten, IsWritten}
use a2g_cli.Ffi.Decide.{a2g_decide_with_approval, a2g_decide, Serde, Arguments}
use a2g_cli.Cockpit.{classify_cockpit_tool}
use a2g_cli.Vehicle.Classify.{classify_vhal_property, by_prefix, classify_vehicle_tool}
use a2g_cli.Enforce.Steps.{
  check_hours, check_state, check_command, check_url, check_path, check_tool, check_ttl,
  check_issuer, check_revoked, check_forbidden,
}
use a2g_cli.Enforce.Trust.{check_issuer_trust}
use a2g_cli.Base.{◌<◌, [], ◌∷◌, ◌≡◌, refl, none, some, true, false, replicate, arith}
use a2g_cli.Base.Text.{list_contains, sort, join, Text, codes, text_eq, starts_with}
use a2g_cli.Error.{Message, format, text, end, ok}
use a2g_cli.Platform.{Platform}
use a2g_cli.Mandate.Types.{tbs_to_mandate}
use a2g_cli.Mandate.Verify.{capabilities_hash, verify_cbor_signature, parse_cbor_mandate_raw}
use a2g_cli.Hitl.Types.{compute_request_hash, ApprovalGrant}
use a2g_cli.Hitl.Grant.{verify_against_binding}
use a2g_cli.Enforce.Types.{Request, Verdict, noop_ledger}
use a2g_cli.Enforce.Escalate.{
  escalate_cockpit, escalate_tool, check_escalation, escalate, pending_binding,
}
use a2g_cli.Enforce.Decide.{pipeline, decide_core, request_of, prepare, decide}
use a2g_cli.Enforce.Outcome.{decide-PendingFits, PendingFits}
use a2g_cli.Enforce.Approval.{decide_with_approval}
use a2g_cli.Enforce.Decision.{Allows}
use a2g_cli.Enforce.Handoff.{retried, retried_request, StillHolds, decide_with_approval-pending}
use a2g_cli.Ffi.Types.{owned_self_sovereign}
use a2g_cli.Examples.{platform, call, tbs, envelope, key}

-- The platform's mandate, with a tool that needs approval.
abbrev escalating : Platform
escalating = record platform {
  decode_tbs = λ b. some (record tbs { escalate_tools = codes "play" ∷ [] });
}

abbrev request : Request
request =
    request_of escalating (call (codes "play")) (codes "{}")
      (tbs_to_mandate (record tbs { escalate_tools = codes "play" ∷ [] }), envelope (codes "cbor"))

prepared : prepare escalating (call (codes "play")) ≡ ok request
unfolding prepare parse_cbor_mandate_raw text_eq
prepared = refl

abbrev asked : Verdict
asked = escalate escalating request (
    format "escalation_required: tool '{}' requires approval from {}"
      (text (codes "play") (text (codes "higher authority") end)))

asks : decide escalating (call (codes "play")) ≡ ok asked
unfolding decide decide_core prepare parse_cbor_mandate_raw text_eq pipeline check_forbidden
    classify_vehicle_tool by_prefix starts_with classify_vhal_property classify_cockpit_tool
    check_revoked check_issuer verify_cbor_signature capabilities_hash join sort check_issuer_trust
    check_ttl check_tool check_path check_url check_command check_state check_hours check_escalation
    escalate_tool escalate_cockpit list_contains tbs_to_mandate
asks = refl

reads :
    parse_cbor_mandate_raw escalating (codes "cbor")
    ≡ ok (
      tbs_to_mandate (record tbs { escalate_tools = codes "play" ∷ [] }),
      envelope (codes "cbor"),
    )
unfolding parse_cbor_mandate_raw text_eq
reads = refl

decide-PendingFits_example :
    PendingFits escalating
      (call (codes "play"))
      (tbs_to_mandate (record tbs { escalate_tools = codes "play" ∷ [] }))
      (codes "{}")
      asked
decide-PendingFits_example =
    decide-PendingFits escalating (call (codes "play"))
      (tbs_to_mandate (record tbs { escalate_tools = codes "play" ∷ [] })) (envelope (codes "cbor"))
      (codes "{}") refl reads asks

abbrev grant : ApprovalGrant
grant = record {
  binding_id = codes "b";
  request_hash = (pending_binding escalating request).request_hash;
  approver_did = codes "did";
  approver_pubkey = key;
  signature = platform.sign key (pending_binding escalating request).request_hash;
  expires_at = replicate 12 b'x';
  parent_receipt_hash = [];
}

grants : verify_against_binding escalating grant (pending_binding escalating request) 8 ≡ ok tt
unfolding verify_against_binding text_eq pending_binding compute_request_hash
grants = refl

holds :
    StillHolds escalating
      (retried (call (codes "play")) 8 8 noop_ledger (record { verdict_id = []; binding_id = [] }))
      (retried_request request 8 (record { verdict_id = []; binding_id = [] }))
unfolding check_issuer_trust tbs_to_mandate
holds = record {
  not_revoked = refl;
  trusted = refl;
  unexpired = λ ne t e. ground arith;
  in_hours = λ ne. absurd (ne refl);
  under_limit = (0, refl, omega arith);
}

in_time : 8 < (pending_binding escalating request).ttl_expires_at
unfolding pending_binding
in_time = omega arith

decide_with_approval-pending_example : Allows (
    decide_with_approval escalating
      (pending_binding escalating request)
      grant
      (retried (call (codes "play")) 8 8 noop_ledger (record { verdict_id = []; binding_id = [] })))
decide_with_approval-pending_example =
    decide_with_approval-pending escalating (call (codes "play")) 8 8 noop_ledger
      (record { verdict_id = []; binding_id = [] }) grant prepared asks refl grants in_time holds

-- Every text is the parameters of the call, and no binding or grant reads.
abbrev serde : Serde
serde = record {
  to_str = λ b. some b;
  params_of_json = λ t. some (call []).params;
  signed_binding_of_json = λ t. none;
  grant_of_json = λ t. none;
  binding_to_json = λ b. some b.binding_id;
}

abbrev arguments : Arguments
arguments = record {
  mandate_cbor = some (codes "cbor");
  tool = some (codes "play");
  params_json = none;
  state = none;
  trust = some owned_self_sovereign;
  has_out_verdict = true;
  now = 7;
  wall = 7;
  ids = record { verdict_id = codes "v"; binding_id = codes "b" };
  panics = false;
}

abbrev no_text : Message → Text
no_text m = []

a2g_decide-IsWritten_example :
    IsWritten (a2g_decide platform serde no_text arguments)
    × IsWritten (a2g_decide_with_approval platform serde no_text arguments (some []) none (some []))
a2g_decide-IsWritten_example =
    a2g_decide-IsWritten platform serde no_text arguments refl (some []) none (some [])
