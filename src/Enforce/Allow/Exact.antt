-- ===== src/Enforce/Allow/Exact.antt =====
-- The pipeline allows exactly the permitted requests, and stops otherwise with no allowing verdict.
use a2g_cli.Base.{◌≡◌, refl, Bool}
use a2g_cli.Error.{ok, say}
use a2g_cli.Platform.{Platform, Time}
use a2g_cli.Enforce.Types.{allow, Verdict, EnforceLedger, Request, make_verdict, finish}
use a2g_cli.Enforce.Trust.{TrustAnchor}
use a2g_cli.Enforce.Decide.{pipeline}
use a2g_cli.Enforce.Steps.{
  check_forbidden, check_revoked, check_issuer, check_ttl, check_tool, check_path, check_url,
  check_command, check_state, check_hours, check_rate,
}
use a2g_cli.Enforce.Escalate.{check_escalation}
use a2g_cli.Enforce.Allow.Flow.{finish-allow}
use a2g_cli.Enforce.Allow.Conditions.{IsPermitted}
use a2g_cli.Enforce.Allow.NoHuman.{check_escalation-stops, check_escalation_iff}
use a2g_cli.Enforce.Allow.Passes.{
  check_forbidden-stops, check_forbidden_iff, check_revoked-stops, check_revoked_iff,
  check_issuer-stops, check_issuer_iff, check_ttl-stops, check_ttl_iff, check_tool-stops,
  check_tool_iff, check_path-stops, check_path_iff, check_url-stops, check_url_iff,
  check_command-stops, check_command_iff, check_state-stops, check_state_iff, check_hours-stops,
  check_hours_iff, check_rate-stops, check_rate_iff,
}

module _ (p : Platform) (wall : Time) (trust : TrustAnchor) (ledger : EnforceLedger) (skip : Bool)
    (r : Request) where
  abbrev allowing : Verdict
  allowing = make_verdict r allow (say "all_checks_passed")

  pub pipeline-IsPermitted :
      IsPermitted r p wall trust ledger skip
      → finish (pipeline p wall trust ledger skip r) ≡ ok allowing
  unfolding pipeline
  pipeline-IsPermitted h = rw ((check_forbidden_iff r).1 h.is_named) (
      rw ((check_revoked_iff ledger r).1 h.not_revoked) (
        rw ((check_issuer_iff p wall trust r).1 (h.signed, h.trusted)) (
          rw ((check_ttl_iff p r).1 h.unexpired) (
            rw ((check_tool_iff r).1 h.granted) (
              rw ((check_path_iff r).1 h.path_within) (
                rw ((check_url_iff r).1 h.host_within) (
                  rw ((check_command_iff r).1 h.command_within) (
                    rw ((check_state_iff r).1 h.state_fits) (
                      rw ((check_hours_iff p r).1 h.in_hours) (
                        rw ((check_escalation_iff p skip r).1 h.no_human)
                          (rw ((check_rate_iff ledger r).1 h.under_limit) refl)))))))))))

  pub IsPermitted-pipeline :
      {v : Verdict}
      → finish (pipeline p wall trust ledger skip r) ≡ ok v
      → v.decision ≡ allow
      → IsPermitted r p wall trust ledger skip
  unfolding pipeline
  IsPermitted-pipeline {v} e a =
      let (e1, f1) = finish-allow (check_forbidden r) _ (check_forbidden-stops r) e a in
      let (e2, f2) = finish-allow (check_revoked ledger r) _ (check_revoked-stops ledger r) f1 a in
      let (e3, f3) =
        finish-allow (check_issuer p wall trust r) _ (check_issuer-stops p wall trust r) f2 a in
      let (e4, f4) = finish-allow (check_ttl p r) _ (check_ttl-stops p r) f3 a in
      let (e5, f5) = finish-allow (check_tool r) _ (check_tool-stops r) f4 a in
      let (e6, f6) = finish-allow (check_path r) _ (check_path-stops r) f5 a in
      let (e7, f7) = finish-allow (check_url r) _ (check_url-stops r) f6 a in
      let (e8, f8) = finish-allow (check_command r) _ (check_command-stops r) f7 a in
      let (e9, f9) = finish-allow (check_state r) _ (check_state-stops r) f8 a in
      let (e10, f10) = finish-allow (check_hours p r) _ (check_hours-stops p r) f9 a in
      let (e11, f11) =
        finish-allow (check_escalation p skip r) _ (check_escalation-stops p skip r) f10 a in
      let (e12, f12) = finish-allow (check_rate ledger r) _ (check_rate-stops ledger r) f11 a in
      let (sig, tru) = (check_issuer_iff p wall trust r).0 e3 in
      record {
        is_named = (check_forbidden_iff r).0 e1;
        not_revoked = (check_revoked_iff ledger r).0 e2;
        signed = sig;
        trusted = tru;
        unexpired = (check_ttl_iff p r).0 e4;
        granted = (check_tool_iff r).0 e5;
        path_within = (check_path_iff r).0 e6;
        host_within = (check_url_iff r).0 e7;
        command_within = (check_command_iff r).0 e8;
        state_fits = (check_state_iff r).0 e9;
        in_hours = (check_hours_iff p r).0 e10;
        no_human = (check_escalation_iff p skip r).0 e11;
        under_limit = (check_rate_iff ledger r).0 e12;
      }
