-- ===== src/Enforce/Decide.antt =====
-- crates/a2g-core/src/enforce.rs: `decide_core`, `decide` and `enforce`.
use a2g_cli.Base.{Bool, false, Option, none, some, unwrap_or}
use a2g_cli.Base.Text.{Text}
use a2g_cli.Error.{A2gError, json, say, Result, ok, ◌>>=◌ as bind, ok_or}
use a2g_cli.Platform.{Platform, Time}
use a2g_cli.Mandate.Types.{Bytes, Mandate, CborMandate}
use a2g_cli.Mandate.Verify.{digest_hex, parse_cbor_mandate_raw}
use a2g_cli.Vehicle.Types.{VerifiedVehicleState, fail_safe, from_operator_trusted}
use a2g_cli.Enforce.Types.{
  allow, Verdict, Params, EnforceLedger, FreshIds, Request, make_verdict, Flow, next, ◌>>◌, finish,
}
use a2g_cli.Enforce.Trust.{TrustAnchor}
use a2g_cli.Enforce.Steps.{
  check_forbidden, check_revoked, check_issuer, check_ttl, check_tool, check_path, check_url,
  check_command, check_state, check_hours, check_rate,
}
use a2g_cli.Enforce.Escalate.{check_escalation}

-- The steps in order.
unfoldable pub pipeline :
    Platform → Time → TrustAnchor → EnforceLedger → Bool → Request → Flow Verdict
pipeline p wall trust ledger skip_escalation r = do
  check_forbidden r
  check_revoked ledger r
  check_issuer p wall trust r
  check_ttl p r
  check_tool r
  check_path r
  check_url r
  check_command r
  check_state r
  check_hours p r
  check_escalation p skip_escalation r
  check_rate ledger r
  next (make_verdict r allow (say "all_checks_passed"))

-- The arguments of `decide`, with the UUIDs that it draws and the wall clock that the chain check
-- of a trust anchor reads.
pub record Call : Type 0 where
  pub mandate_cbor : Bytes
  pub tool : Text
  pub params : Params
  pub ledger : EnforceLedger
  pub now : Time
  pub verified_state : Option VerifiedVehicleState
  pub trust : TrustAnchor
  pub ids : FreshIds
  pub wall : Time

abbrev pub params_error : A2gError
params_error = json (say "params")

abbrev pub request_of : Platform → Call → Text → Mandate × CborMandate → Request
request_of p c serialized (m, envelope) = record {
  m = m;
  envelope = envelope;
  tool = c.tool;
  params = c.params;
  params_hash = digest_hex p (p.utf8 serialized);
  mandate_hash = digest_hex p c.mandate_cbor;
  now = c.now;
  verified_state = c.verified_state;
  ids = c.ids;
}

-- What is computed before the first check: the parameters' hash and the decoded mandate.
unfoldable pub prepare : Platform → Call → Result Request
prepare p c =
    bind (ok_or c.params.serialized params_error)
      (λ s. bind (parse_cbor_mandate_raw p c.mandate_cbor) (λ parsed. ok (request_of p c s parsed)))

unfoldable pub decide_core : Platform → Bool → Call → Result Verdict
decide_core p skip_escalation c =
    bind (prepare p c) (λ r. finish (pipeline p c.wall c.trust c.ledger skip_escalation r))

unfoldable pub decide : Platform → Call → Result Verdict
decide p c = decide_core p false c

-- The parameters with the path that the file system resolves, which changes their serialization.
abbrev pub resolved_params : (Text → Result Text) → Params → Option Text → Result Params
resolved_params resolve params none = ok params
resolved_params resolve params (some raw) =
    bind (resolve raw)
      (λ t. ok (record params { path = some t; serialized = params.serialized_with t }))

abbrev pub operator_call : Call → Params → Call
operator_call c params = record c {
  params = params;
  verified_state = some (from_operator_trusted (unwrap_or params.vehicle_state fail_safe));
}

-- `enforce`, with the file system's answer to `resolve_path_for_enforce` and, in the call, its own
-- reading of the clock and that of the chain check.
unfoldable pub enforce : Platform → (Text → Result Text) → Call → Result Verdict
enforce p resolve c =
    bind (resolved_params resolve c.params c.params.path)
      (λ params. decide p (operator_call c params))
