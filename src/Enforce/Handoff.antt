-- ===== src/Enforce/Handoff.antt =====
-- crates/a2g-core/src/enforce.rs: from a pending verdict of phase 1 to an allowing one of phase 2.
use a2g_cli.Enforce.Glob.{extract_host}
use a2g_cli.Enforce.Paths.{bounded_path}
use a2g_cli.Enforce.Approval.{decide_with_approval}
use a2g_cli.Enforce.Decision.{decide_with_approval-verify_iff, Allows}
use a2g_cli.Base.Text.{Text}
use a2g_cli.Enforce.Allow.Passes.{
  check_state_iff, check_command_iff, check_url_iff, check_path_iff, check_tool_iff,
  check_issuer_iff, check_forbidden_iff,
}
use a2g_cli.Base.{ℕ, ◌≡◌, refl, ◌≢◌, ◌<◌, Bool, true, false, some, arith}
use a2g_cli.Error.{ok}
use a2g_cli.Platform.{Platform, Time}
use a2g_cli.Hitl.Types.{PendingApprovalBinding, ApprovalGrant}
use a2g_cli.Hitl.Grant.{verify_against_binding}
use a2g_cli.Mandate.Verify.{verify_cbor_signature}
use a2g_cli.Enforce.Types.{
  pending_approval, Verdict, EnforceLedger, FreshIds, Request, Flow, next, halt, fail, ◌>>◌, finish,
}
use a2g_cli.Enforce.Trust.{TrustAnchor, check_issuer_trust}
use a2g_cli.Enforce.Steps.{
  check_path_at, check_command_at, check_forbidden, check_revoked, check_issuer, check_ttl,
  check_tool, check_path, check_url, check_command, check_state, check_hours,
}
use a2g_cli.Enforce.Decide.{Call, prepare, pipeline, decide, decide_core}
use a2g_cli.Enforce.Outcome.{decide-OwnBinding}
use a2g_cli.Enforce.Allow.Conditions.{
  StateFits, CommandWithin, HostWithin, PathWithin, IsPermitted, Unexpired, InHours, IsNamed,
  IsGranted,
}

-- The flow does not stop with a pending verdict.
abbrev StopsDecided : Flow (Unit {0}) → Type 0
StopsDecided (next u) = Unit
StopsDecided (halt v) = v.decision ≢ pending_approval
StopsDecided (fail e) = Unit

finish-pending :
    (m : Flow (Unit {0})) (k : Flow Verdict) {v : Verdict}
    → StopsDecided m
    → finish (m >> k) ≡ ok v
    → v.decision ≡ pending_approval
    → (m ≡ next tt) × (finish k ≡ ok v)
finish-pending (next u) k s h a = (refl, h)
finish-pending (halt w) k s h a = ground arith
finish-pending (fail e) k s h a = cc

module _ (p : Platform) (r : Request) where
  forbidden-StopsDecided : StopsDecided (check_forbidden r)
  unfolding check_forbidden
  forbidden-StopsDecided = ground arith

  revoked-StopsDecided : (l : EnforceLedger) → StopsDecided (check_revoked l r)
  unfolding check_revoked
  revoked-StopsDecided l = ground arith

  issuer-StopsDecided :
      (wall : Time) (trust : TrustAnchor) → StopsDecided (check_issuer p wall trust r)
  unfolding check_issuer
  issuer-StopsDecided wall trust = ground arith

  ttl-StopsDecided : StopsDecided (check_ttl p r)
  unfolding check_ttl
  ttl-StopsDecided = ground arith

  tool-StopsDecided : StopsDecided (check_tool r)
  unfolding check_tool
  tool-StopsDecided = ground arith

  path-StopsDecided : StopsDecided (check_path r)
  unfolding check_path check_path_at
  path-StopsDecided = ground arith

  url-StopsDecided : StopsDecided (check_url r)
  unfolding check_url
  url-StopsDecided = ground arith

  command-StopsDecided : StopsDecided (check_command r)
  unfolding check_command check_command_at
  command-StopsDecided = ground arith

  state-StopsDecided : StopsDecided (check_state r)
  unfolding check_state
  state-StopsDecided = ground arith

  hours-StopsDecided : StopsDecided (check_hours p r)
  unfolding check_hours
  hours-StopsDecided = ground arith

  -- What a pending verdict has behind it and time does not take away.
  pub record IsGated : Type 0 where
    pub is_named : IsNamed r
    pub signed : verify_cbor_signature p r.envelope ≡ ok tt
    pub granted : IsGranted r
    pub path_within :
        (raw : Text)
        → r.params.path ≡ some raw
        → PathWithin r (bounded_path r.m.mandate.workspace_root raw)
    pub host_within : (url : Text) → r.params.url ≡ some url → HostWithin r (extract_host url)
    pub command_within : (cmd : Text) → r.params.command ≡ some cmd → CommandWithin r cmd
    pub state_fits : StateFits r

  pending-IsGated :
      (wall : Time) (trust : TrustAnchor) (l : EnforceLedger) (skip : Bool) {v : Verdict}
      → finish (pipeline p wall trust l skip r) ≡ ok v
      → v.decision ≡ pending_approval
      → IsGated
  unfolding pipeline
  pending-IsGated wall trust l skip {v} e a =
      let (e1, f1) = finish-pending (check_forbidden r) _ forbidden-StopsDecided e a in
      let (e2, f2) = finish-pending (check_revoked l r) _ (revoked-StopsDecided l) f1 a in
      let (e3, f3) =
        finish-pending (check_issuer p wall trust r) _ (issuer-StopsDecided wall trust) f2 a in
      let (e4, f4) = finish-pending (check_ttl p r) _ ttl-StopsDecided f3 a in
      let (e5, f5) = finish-pending (check_tool r) _ tool-StopsDecided f4 a in
      let (e6, f6) = finish-pending (check_path r) _ path-StopsDecided f5 a in
      let (e7, f7) = finish-pending (check_url r) _ url-StopsDecided f6 a in
      let (e8, f8) = finish-pending (check_command r) _ command-StopsDecided f7 a in
      let (e9, f9) = finish-pending (check_state r) _ state-StopsDecided f8 a in
      record {
        is_named = (check_forbidden_iff r).0 e1;
        signed = ((check_issuer_iff p wall trust r).0 e3).0;
        granted = (check_tool_iff r).0 e5;
        path_within = (check_path_iff r).0 e6;
        host_within = (check_url_iff r).0 e7;
        command_within = (check_command_iff r).0 e8;
        state_fits = (check_state_iff r).0 e9;
      }

-- The same call, made again later.
abbrev pub retried : Call → Time → Time → EnforceLedger → FreshIds → Call
retried c now wall ledger ids = record c { now = now; wall = wall; ledger = ledger; ids = ids }

abbrev pub retried_request : Request → Time → FreshIds → Request
retried_request r now ids = record r { now = now; ids = ids }

prepare-retried :
    (p : Platform) (c : Call) (now wall : Time) (ledger : EnforceLedger) (ids : FreshIds)
    {r : Request}
    → prepare p c ≡ ok r
    → prepare p (retried c now wall ledger ids) ≡ ok (retried_request r now ids)
unfolding prepare
prepare-retried p c now wall ledger ids e = ground arith

-- What has to hold still when the call is made again.
pub record StillHolds (p : Platform) (c : Call) (r : Request) : Type 0 where
  pub not_revoked : c.ledger.is_revoked r.m.mandate.agent_did r.mandate_hash ≡ ok false
  pub trusted : check_issuer_trust p c.wall c.trust r.envelope r.m ≡ ok tt
  pub unexpired : Unexpired r p
  pub in_hours : InHours r p
  pub under_limit :
      (n : ℕ) × (c.ledger.count_recent r.m.mandate.agent_did 60 ≡ ok n)
      × (n < r.m.limits.max_calls_per_minute)

IsGated-IsPermitted :
    (p : Platform) (c : Call) (r : Request) (now : Time) (ids : FreshIds)
    → IsGated p r
    → StillHolds p c (retried_request r now ids)
    → IsPermitted (retried_request r now ids) p c.wall c.trust c.ledger true
IsGated-IsPermitted p c r now ids g h = record {
  is_named = record {
    named = g.is_named.named;
    vehicle_open = g.is_named.vehicle_open;
    cockpit_open = g.is_named.cockpit_open;
  };
  not_revoked = h.not_revoked;
  signed = g.signed;
  trusted = h.trusted;
  unexpired = h.unexpired;
  granted = record { listed = g.granted.listed; pii_listed = g.granted.pii_listed };
  path_within = g.path_within;
  host_within = g.host_within;
  command_within = g.command_within;
  state_fits = g.state_fits;
  in_hours = h.in_hours;
  no_human = λ e. cc;
  under_limit = h.under_limit;
}

-- When `decide` answers a call with a pending binding, the same call with a grant that verifies
-- against that binding is allowed by `decide_with_approval` later, before the binding's deadline,
-- as long as the mandate is not revoked nor expired, its issuer is still trusted, and the hours
-- and the rate permit it.
pub decide_with_approval-pending :
    (p : Platform) (c : Call) (now wall : Time) (ledger : EnforceLedger) (ids : FreshIds)
    (grant : ApprovalGrant) {r : Request} {v : Verdict} {b : PendingApprovalBinding}
    → prepare p c ≡ ok r
    → decide p c ≡ ok v
    → v.pending_approval ≡ some b
    → verify_against_binding p grant b now ≡ ok tt
    → now < b.ttl_expires_at
    → StillHolds p (retried c now wall ledger ids) (retried_request r now ids)
    → Allows (decide_with_approval p b grant (retried c now wall ledger ids))
unfolding decide decide_core
decide_with_approval-pending p c now wall ledger ids grant {r} {v} {b} e d pb vg lt h =
    let pending : v.decision ≡ pending_approval = ground (arith, decide-OwnBinding p c e d) in
    let run = rw e at d in
    let g = pending-IsGated p r c.wall c.trust c.ledger false run pending in
    let c2 = retried c now wall ledger ids in
    (decide_with_approval-verify_iff p c2 (prepare-retried p c now wall ledger ids e) b grant).1 (
      g.is_named.vehicle_open,
      g.is_named.cockpit_open,
      vg,
      lt,
      IsGated-IsPermitted p c2 r now ids g h,
    )
