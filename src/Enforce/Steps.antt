-- ===== src/Enforce/Steps.antt =====
-- crates/a2g-core/src/enforce.rs, `decide_core`: the checks before the escalation, in order.
use a2g_cli.Base.{
  String, ℕ, ◌+◌, ◌*◌, Bool, not, ◌&&◌, ◌||◌, Option, none, some, List, if◌then◌else◌, is_empty,
  any, find_first, leb, ltb, unwrap_or,
}
use a2g_cli.Base.Text.{Text, codes, text_eq, list_contains, contains, first_word}
use a2g_cli.Error.{Message, format, say, text, number, failure, end, Result, ok, err}
use a2g_cli.Platform.{Platform, Time}
use a2g_cli.Mandate.Verify.{verify_cbor_signature}
use a2g_cli.Vehicle.Types.{
  VehicleState, VerifiedVehicleState, fail_safe, is_forbidden_domain, is_sensitive_domain,
  is_comfort_domain,
}
use a2g_cli.Vehicle.Classify.{classify_vehicle_tool}
use a2g_cli.Vehicle.Gate.{
  StateReason, vehicle_state_violation, comfort_context_violation, StateVerdict,
  evaluate_vehicle_state, evaluate_comfort_state,
}
use a2g_cli.Cockpit.{classify_cockpit_tool, is_cockpit_forbidden_domain, requires_pii_grant}
use a2g_cli.Enforce.Paths.{bounded_path}
use a2g_cli.Enforce.Glob.{glob_matches, extract_host}
use a2g_cli.Enforce.Hours.{start_total, end_total, validate_operating_hours}
use a2g_cli.Enforce.Types.{
  halt_if, with_some, deny, expired, EnforceLedger, Request, make_verdict, Flow, next, halt, ◌>>=◌,
  ◌>>◌, lift, deny_if, when,
}
use a2g_cli.Enforce.Trust.{TrustAnchor, check_issuer_trust}

-- Pre-checks: the empty name, and the two forbidden domains.
unfoldable pub check_forbidden : Request → Flow (Unit {0})
check_forbidden r = do
  deny_if r (is_empty r.tool) (say "invalid_request: tool name must not be empty")
  deny_if r (is_forbidden_domain (classify_vehicle_tool r.tool)) (
      format
        "vehicle_forbidden_domain: '{}' is in the safety-critical domain and cannot be granted by any mandate"
        (text r.tool end))
  deny_if r (is_cockpit_forbidden_domain (classify_cockpit_tool r.tool)) (
      format
        "cockpit_forbidden_domain: '{}' is structurally forbidden and cannot be granted by any mandate or approval"
        (text r.tool end))

-- Step 0.
unfoldable pub check_revoked : EnforceLedger → Request → Flow (Unit {0})
check_revoked ledger r = do
  revoked ← lift (ledger.is_revoked r.m.mandate.agent_did r.mandate_hash)
  deny_if r revoked (say "mandate_revoked: this mandate has been explicitly revoked")

-- Steps 1 and 1.5: an error of the check is a denial.
abbrev pub deny_on_error : Request → String → Result (Unit {0}) → Flow (Unit {0})
deny_on_error r rule (ok u) = next tt
deny_on_error r rule (err e) = halt (make_verdict r deny (format rule (failure e end)))

unfoldable pub check_issuer : Platform → Time → TrustAnchor → Request → Flow (Unit {0})
check_issuer p wall trust r = do
  deny_on_error r "mandate_invalid: {}" (verify_cbor_signature p r.envelope)
  deny_on_error r "issuer_untrusted: {}" (check_issuer_trust p wall trust r.envelope r.m)

-- Step 2: an expiry that does not parse does not expire.
unfoldable pub check_ttl : Platform → Request → Flow (Unit {0})
check_ttl p r =
    if is_empty r.m.mandate.expires_at
    then next tt
    else with_some (p.parse_time r.m.mandate.expires_at)
        λ t. halt_if (leb t r.now) (make_verdict r expired (say "mandate_ttl_exceeded"))

abbrev pub pii_grant : Text
pii_grant = codes "pii.grant"

-- Steps 3 and 3.5.
unfoldable pub check_tool : Request → Flow (Unit {0})
check_tool r = do
  deny_if r (not (list_contains r.m.capabilities.tools r.tool))
      (format "tool_not_authorized: '{}' not in capabilities.tools" (text r.tool end))
  deny_if r
      (requires_pii_grant (classify_cockpit_tool r.tool)
        && not (list_contains r.m.capabilities.tools pii_grant))
      (format
        "pii_grant_required: '{}' requires the 'pii.grant' capability sentinel in the mandate's tools list"
        (text r.tool end))

abbrev pub is_tool : Request → String → String → Bool
is_tool r a b = text_eq r.tool (codes a) || text_eq r.tool (codes b)

-- A tool of that name must match one of the patterns, unless there are none.
abbrev pub outside : List Text → Text → Bool
outside patterns path = not (is_empty patterns) && not (any (λ q. glob_matches q path) patterns)

-- Steps 4a to 4c, on the path relative to the workspace.
unfoldable pub check_path_at : Request → Text → Flow (Unit {0})
check_path_at r path = do
  with_some (find_first (λ q. glob_matches q path) r.m.boundaries.fs_deny) λ pattern. halt (
      make_verdict r deny (
        format "boundary_violation: path '{}' matches fs_deny '{}'" (text path (text pattern end))))
  deny_if r (is_tool r "read_file" "read" && outside r.m.boundaries.fs_read path)
      (format "boundary_violation: path '{}' not in fs_read boundaries" (text path end))
  deny_if r (is_tool r "write_file" "write" && outside r.m.boundaries.fs_write path)
      (format "boundary_violation: path '{}' not in fs_write boundaries" (text path end))

unfoldable pub check_path : Request → Flow (Unit {0})
unfolding check_path_at
check_path r =
    with_some r.params.path λ raw. check_path_at r (bounded_path r.m.mandate.workspace_root raw)

-- Step 4d: a denied host that no `net_allow` pattern takes back.
abbrev pub is_blocked : Request → Text → Bool
is_blocked r host =
    any (λ q. text_eq q (codes "*") || glob_matches q host) r.m.boundaries.net_deny
    && not (any (λ q. glob_matches q host) r.m.boundaries.net_allow)

unfoldable pub check_url : Request → Flow (Unit {0})
check_url r = with_some r.params.url λ url.
    deny_if r (is_blocked r (extract_host url))
      (format "boundary_violation: host '{}' blocked by net_deny" (text (extract_host url) end))

-- Step 4e.
unfoldable pub check_command_at : Request → Text → Flow (Unit {0})
check_command_at r cmd = do
  with_some (find_first (λ q. contains cmd q || glob_matches q cmd) r.m.boundaries.cmd_deny)
      λ pattern. halt (
        make_verdict r deny (
          format "boundary_violation: command '{}' matches cmd_deny '{}'"
            (text cmd (text pattern end))))
  deny_if r
      (not (is_empty r.m.boundaries.cmd_allow)
        && not (list_contains r.m.boundaries.cmd_allow (unwrap_or (first_word cmd) cmd)))
      (format "boundary_violation: command base '{}' not in cmd_allow"
        (text (unwrap_or (first_word cmd) cmd) end))

unfoldable pub check_command : Request → Flow (Unit {0})
unfolding check_command_at
check_command r = with_some r.params.command λ cmd. check_command_at r cmd

abbrev pub reason_text : StateReason → Message
reason_text vehicle_state_violation =
    say
      "vehicle_state_violation: sensitive capabilities (window/door/trunk/lock) require speed_mmps < 1389 (< 5.0 km/h) and gear == Park"
reason_text comfort_context_violation =
    say
      "comfort_context_violation: driver-zone seat-position adjustment blocked while in motion (speed_mmps >= 1389, >= 5.0 km/h); passenger-zone adjustments are not restricted"

abbrev pub deny_on_state : Request → StateVerdict → Flow (Unit {0})
deny_on_state r StateVerdict.allow = next tt
deny_on_state r (StateVerdict.deny reason) = halt (make_verdict r deny (reason_text reason))

abbrev pub state_or_fail_safe : Option VerifiedVehicleState → VehicleState
state_or_fail_safe none = fail_safe
state_or_fail_safe (some vs) = vs.state

-- Step 4.5.
unfoldable pub check_state : Request → Flow (Unit {0})
check_state r = do
  when (is_sensitive_domain (classify_vehicle_tool r.tool))
      (deny_on_state r (evaluate_vehicle_state r.tool (state_or_fail_safe r.verified_state)))
  when (is_comfort_domain (classify_vehicle_tool r.tool))
      (with_some r.verified_state λ vs. deny_on_state r (evaluate_comfort_state r.tool vs.state))

-- Minutes since midnight of the injected time.
abbrev pub minutes_of : Platform → Time → ℕ
minutes_of p now = p.hour now * 60 + p.minute now

-- Step 5.
unfoldable pub check_hours : Platform → Request → Flow (Unit {0})
check_hours p r = if is_empty r.m.jurisdiction.operating_hours then next tt else do
  h ← lift (validate_operating_hours r.m.jurisdiction.operating_hours)
  deny_if r (ltb (minutes_of p r.now) (start_total h) || ltb (end_total h) (minutes_of p r.now)) (
      format "jurisdiction_violation: current time {}:{} outside operating hours {}" (
        number (p.hour r.now)
          (number (p.minute r.now) (text r.m.jurisdiction.operating_hours end))))

-- Step 7.
unfoldable pub check_rate : EnforceLedger → Request → Flow (Unit {0})
check_rate ledger r = do
  recent ← lift (ledger.count_recent r.m.mandate.agent_did 60)
  deny_if r (leb r.m.limits.max_calls_per_minute recent) (
      format "rate_limit_exceeded: {} calls in last 60s (max: {})"
        (number recent (number r.m.limits.max_calls_per_minute end)))
