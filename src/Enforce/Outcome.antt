-- ===== src/Enforce/Outcome.antt =====
-- crates/a2g-core/src/enforce.rs: the binding that a verdict of `decide` carries.
use a2g_cli.Enforce.Trust.{TrustAnchor}
use a2g_cli.Enforce.Steps.{
  check_path_at, check_command_at, check_url, check_ttl, check_tool, check_state, check_revoked,
  check_rate, check_path, check_issuer, check_hours, check_forbidden, check_command,
}
use a2g_cli.Enforce.Escalate.{
  escalate_host, escalate_path, escalate_tool, pending_binding, escalate_cockpit, check_escalation,
}
use a2g_cli.Platform.{Time, Platform}
use a2g_cli.Base.Text.{Text, codes}
use a2g_cli.Mandate.Types.{Mandate, CborMandate}
use a2g_cli.Mandate.Verify.{parse_cbor_mandate_raw}
use a2g_cli.Hitl.Types.{PendingApprovalBinding, compute_request_hash}
use a2g_cli.Enforce.Decide.{request_of, prepare, pipeline, Call, decide_core, decide}
use a2g_cli.Base.{
  inl, inr, unwrap_or, ◌++◌, refl, ◌≡◌, ◌≢◌, ◌⊎◌, arith, Bool, true, false, none, some,
}
use a2g_cli.Enforce.Types.{
  fail, halt, next, finish, EnforceLedger, Verdict, Flow, Request, pending_approval, ◌>>◌,
}
use a2g_cli.Error.{ok}

-- The binding is there exactly in a pending verdict, and it is the request's own.
abbrev pub OwnBinding : Platform → Request → Verdict → Type 0
OwnBinding p r v =
    ((v.decision ≢ pending_approval) × (v.pending_approval ≡ none))
    ⊎ ((v.decision ≡ pending_approval) × (v.pending_approval ≡ some (pending_binding p r)))

abbrev Fits {ℓ} : {A : Type ℓ} → Platform → Request → Flow A → Type 0
Fits p r (next u) = Unit
Fits p r (halt v) = OwnBinding p r v
Fits p r (fail e) = Unit

Fits->> :
    (p : Platform) (r : Request) (m : Flow (Unit {0})) (k : Flow Verdict) {v : Verdict}
    → Fits p r m
    → (finish k ≡ ok v → OwnBinding p r v)
    → finish (m >> k) ≡ ok v
    → OwnBinding p r v
Fits->> p r (next u) k hm hk e = hk e
Fits->> p r (halt w) k hm hk e = ground arith
Fits->> p r (fail x) k hm hk e = cc

module _ (p : Platform) (r : Request) where
  forbidden-Fits : Fits p r (check_forbidden r)
  unfolding check_forbidden
  forbidden-Fits = ground arith

  revoked-Fits : (l : EnforceLedger) → Fits p r (check_revoked l r)
  unfolding check_revoked
  revoked-Fits l = ground arith

  issuer-Fits : (wall : Time) (trust : TrustAnchor) → Fits p r (check_issuer p wall trust r)
  unfolding check_issuer
  issuer-Fits wall trust = ground arith

  ttl-Fits : Fits p r (check_ttl p r)
  unfolding check_ttl
  ttl-Fits = ground arith

  tool-Fits : Fits p r (check_tool r)
  unfolding check_tool
  tool-Fits = ground arith

  path-Fits : Fits p r (check_path r)
  unfolding check_path check_path_at
  path-Fits = ground arith

  url-Fits : Fits p r (check_url r)
  unfolding check_url
  url-Fits = ground arith

  command-Fits : Fits p r (check_command r)
  unfolding check_command check_command_at
  command-Fits = ground arith

  state-Fits : Fits p r (check_state r)
  unfolding check_state
  state-Fits = ground arith

  hours-Fits : Fits p r (check_hours p r)
  unfolding check_hours
  hours-Fits = ground arith

  escalation-Fits : (skip : Bool) → Fits p r (check_escalation p skip r)
  unfolding check_escalation escalate_cockpit escalate_tool escalate_path escalate_host
  escalation-Fits true = tt
  escalation-Fits false = ground arith

  rate-Fits : (l : EnforceLedger) → Fits p r (check_rate l r)
  unfolding check_rate
  rate-Fits l = ground arith

  pipeline-Fits :
      (wall : Time) (trust : TrustAnchor) (l : EnforceLedger) (skip : Bool) {v : Verdict}
      → finish (pipeline p wall trust l skip r) ≡ ok v
      → OwnBinding p r v
  unfolding pipeline
  pipeline-Fits wall trust l skip {v} = Fits->> p r _ _ forbidden-Fits (
      Fits->> p r _ _ (revoked-Fits l) (
        Fits->> p r _ _ (issuer-Fits wall trust) (
          Fits->> p r _ _ ttl-Fits (
            Fits->> p r _ _ tool-Fits (
              Fits->> p r _ _ path-Fits (
                Fits->> p r _ _ url-Fits (
                  Fits->> p r _ _ command-Fits (
                    Fits->> p r _ _ state-Fits (
                      Fits->> p r _ _ hours-Fits (
                        Fits->> p r _ _ (escalation-Fits skip)
                          (Fits->> p r _ _ (rate-Fits l) (λ e. ground arith))))))))))))

pub decide-OwnBinding :
    (p : Platform) (c : Call) {r : Request} {v : Verdict}
    → prepare p c ≡ ok r
    → decide p c ≡ ok v
    → OwnBinding p r v
unfolding decide decide_core
decide-OwnBinding p c {r} e h = pipeline-Fits p r c.wall c.trust c.ledger false (rw e at h)

-- A binding of the call, under the escalation rules of its mandate, with the parameters' text.
pub record IsBindingOf (p : Platform) (c : Call) (m : Mandate) (params : Text)
    (b : PendingApprovalBinding) : Type 0 where
  pub drawn : b.binding_id ≡ c.ids.binding_id
  -- The hash of the mandate, the tool, the hash of the parameters and the time.
  pub covers :
      b.request_hash
      ≡ p.hex_encode (
          p.sha256 (
            p.utf8 (
              codes "REQUEST:"
              ++ (p.hex_encode (p.sha256 c.mandate_cbor)
                  ++ (codes ":"
                      ++ (c.tool
                          ++ (codes ":"
                              ++ (p.hex_encode (p.sha256 (p.utf8 params))
                                  ++ (codes ":" ++ p.to_rfc3339 c.now)))))))))
  pub asks : b.escalate_to ≡ m.escalation.escalate_to
  pub lives : b.ttl_expires_at ≡ unwrap_or (p.checked_add_secs c.now 300) c.now

-- The binding is there exactly in a pending verdict, and it is one of the call.
abbrev pub PendingFits : Platform → Call → Mandate → Text → Verdict → Type 0
PendingFits p c m params v =
    ((v.decision ≢ pending_approval) × (v.pending_approval ≡ none))
    ⊎ ((v.decision ≡ pending_approval)
        × ((b : PendingApprovalBinding) × (v.pending_approval ≡ some b)
            × IsBindingOf p c m params b))

pending_binding-IsBindingOf :
    (p : Platform) (c : Call) (m : Mandate) (envelope : CborMandate) (params : Text)
    → IsBindingOf p c m params (pending_binding p (request_of p c params (m, envelope)))
unfolding pending_binding compute_request_hash
pending_binding-IsBindingOf p c m envelope params = record {
  drawn = refl;
  covers = refl;
  asks = refl;
  lives = refl;
}

prepare-reads :
    (p : Platform) (c : Call) {m : Mandate} {envelope : CborMandate} {params : Text}
    → c.params.serialized ≡ some params
    → parse_cbor_mandate_raw p c.mandate_cbor ≡ ok (m, envelope)
    → prepare p c ≡ ok (request_of p c params (m, envelope))
unfolding prepare
prepare-reads p c e f = rw (e, f) refl

-- For a call whose parameters serialize and whose mandate decodes, a verdict of `decide` is pending
-- exactly if it carries a binding. The binding has the id drawn for the call, the approver that the
-- mandate names, a deadline of five minutes, unless that overflows, and a request hash over the
-- mandate, the tool, the parameters and the time of the call.
pub decide-PendingFits :
    (p : Platform) (c : Call) (m : Mandate) (envelope : CborMandate) (params : Text) {v : Verdict}
    → c.params.serialized ≡ some params
    → parse_cbor_mandate_raw p c.mandate_cbor ≡ ok (m, envelope)
    → decide p c ≡ ok v
    → PendingFits p c m params v
decide-PendingFits p c m envelope params s f h =
    elim (decide-OwnBinding p c (prepare-reads p c s f) h) [
      | inl without ↦ inl without
      | inr (d, e) ↦ inr (d, (_, e, pending_binding-IsBindingOf p c m envelope params))
    ]
