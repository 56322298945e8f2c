-- ===== src/Enforce/Decision.antt =====
-- What `decide` and `decide_with_approval` guarantee, on top of the conditions of `Allow`.
use a2g_cli.Enforce.Trust.{TrustAnchor}
use a2g_cli.Enforce.Steps.{check_forbidden, state_or_fail_safe}
use a2g_cli.Base.{
  inl, inr, Bool-cases, is_empty, ap, ◌∙◌, ◌⊎◌, ◌<◌, ◌≡◌, refl, ◌≢◌, ◌↔◌, Bool, true, false, arith,
}
use a2g_cli.Error.{ok, err, Result, ◌>>=◌}
use a2g_cli.Platform.{Time, Platform}
use a2g_cli.Vehicle.Types.{is_forbidden_domain, is_parked_and_stopped, sensitive, forbidden}
use a2g_cli.Vehicle.Classify.{classify_vehicle_tool}
use a2g_cli.Cockpit.{always_hitl, classify_cockpit_tool, cockpit_forbidden}
use a2g_cli.Hitl.Types.{PendingApprovalBinding, ApprovalGrant}
use a2g_cli.Hitl.Grant.{verify_against_binding}
use a2g_cli.Enforce.Types.{EnforceLedger, deny, allow, Verdict, Request, finish}
use a2g_cli.Enforce.Decide.{Call, prepare, pipeline, decide_core, decide}
use a2g_cli.Enforce.Approval.{decide_with_approval, early_deny, link_receipt}
use a2g_cli.Enforce.Allow.Conditions.{IsPermitted}
use a2g_cli.Enforce.Allow.Exact.{pipeline-IsPermitted, IsPermitted-pipeline}

-- The call is allowed.
abbrev pub Allows : Result Verdict → Type 0
Allows x = (v : Verdict) × (x ≡ ok v) × (v.decision ≡ allow)

-- The request copies the call.
pub prepare-request :
    (p : Platform) (c : Call) {r : Request}
    → prepare p c ≡ ok r
    → (r.tool ≡ c.tool) × (r.now ≡ c.now) × (r.verified_state ≡ c.verified_state)
unfolding prepare
prepare-request p c e = ground arith

finish-forbidden :
    (p : Platform) (wall : Time) (trust : TrustAnchor) (ledger : EnforceLedger) (skip : Bool)
    (r : Request)
    → (classify_vehicle_tool r.tool ≡ forbidden)
      ⊎ (classify_cockpit_tool r.tool ≡ cockpit_forbidden)
    → (v : Verdict) × (finish (pipeline p wall trust ledger skip r) ≡ ok v) × (v.decision ≡ deny)
unfolding pipeline check_forbidden
finish-forbidden p wall trust ledger skip r f = elim (Bool-cases (is_empty r.tool)) [
  | inl e ↦ rw e (_, refl, refl)
  | inr e ↦ elim (Bool-cases (is_forbidden_domain (classify_vehicle_tool r.tool))) [
    | inl g ↦ rw (e, g) (_, refl, refl)
    | inr g ↦
        let h : classify_cockpit_tool r.tool ≡ cockpit_forbidden = ground arith in
        rw (e, g, h) (_, refl, refl)
  ]
]

early_deny-forbidden :
    (p : Platform) (pending : PendingApprovalBinding) (grant : ApprovalGrant) (r : Request)
    (x : Result Verdict)
    → (classify_vehicle_tool r.tool ≡ forbidden)
      ⊎ (classify_cockpit_tool r.tool ≡ cockpit_forbidden)
    → (v : Verdict) × (early_deny p pending grant r x ≡ ok v) × (v.decision ≡ deny)
unfolding early_deny
early_deny-forbidden p pending grant r x f =
    elim (Bool-cases (is_forbidden_domain (classify_vehicle_tool r.tool))) [
      | inl g ↦ rw g (_, refl, refl)
      | inr g ↦
          let h : classify_cockpit_tool r.tool ≡ cockpit_forbidden = ground arith in
          rw (g, h) (_, refl, refl)
    ]

early_deny-allow :
    (p : Platform) (pending : PendingApprovalBinding) (grant : ApprovalGrant) (r : Request)
    (x : Result Verdict) {v : Verdict}
    → v.decision ≡ allow
    → (early_deny p pending grant r x ≡ ok v) ↔ (
        (classify_vehicle_tool r.tool ≢ forbidden)
        × (classify_cockpit_tool r.tool ≢ cockpit_forbidden)
        × (verify_against_binding p grant pending r.now ≡ ok tt)
        × (r.now < pending.ttl_expires_at)
        × (x ≡ ok v))
unfolding early_deny
early_deny-allow p pending grant r x a = (λ e. ground arith, λ e. ground arith)

early_deny-allow_iff :
    (p : Platform) (pending : PendingApprovalBinding) (grant : ApprovalGrant) (r : Request)
    (x : Result Verdict)
    → Allows (early_deny p pending grant r x) ↔ (
        (classify_vehicle_tool r.tool ≢ forbidden)
        × (classify_cockpit_tool r.tool ≢ cockpit_forbidden)
        × (verify_against_binding p grant pending r.now ≡ ok tt)
        × (r.now < pending.ttl_expires_at)
        × Allows x)
early_deny-allow_iff p pending grant r x = (
  λ h.
      let (a, b, d, f, g) = (early_deny-allow p pending grant r x h.2).0 h.1 in
      (a, b, d, f, (h.0, g, h.2)),
  λ h. (h.4.0, (early_deny-allow p pending grant r x h.4.2).1 (h.0, h.1, h.2, h.3, h.4.1), h.4.2),
)

link-allow_iff :
    (pending : PendingApprovalBinding) (grant : ApprovalGrant) (x : Result Verdict)
    → Allows (x >>= λ v. ok (link_receipt pending grant v)) ↔ Allows x
link-allow_iff pending grant (err e) = (λ h. cc, λ h. cc)
link-allow_iff pending grant (ok v) =
    (λ h. (v, refl, ground arith), λ h. (link_receipt pending grant v, refl, ground arith))

module _ (p : Platform) (c : Call) {r : Request} (e : prepare p c ≡ ok r) where
  decide_core-prepared :
      (skip : Bool) → decide_core p skip c ≡ finish (pipeline p c.wall c.trust c.ledger skip r)
  unfolding decide_core
  decide_core-prepared skip = rw e

  pub decide_core-allow_iff :
      (skip : Bool) → Allows (decide_core p skip c) ↔ IsPermitted r p c.wall c.trust c.ledger skip
  decide_core-allow_iff skip = rw (decide_core-prepared skip) (
    λ h. IsPermitted-pipeline p c.wall c.trust c.ledger skip r h.1 h.2,
    λ h. (_, pipeline-IsPermitted p c.wall c.trust c.ledger skip r h, refl),
  )

  pub decide-allow_iff : Allows (decide p c) ↔ IsPermitted r p c.wall c.trust c.ledger false
  unfolding decide
  decide-allow_iff = decide_core-allow_iff false

  pub decide_with_approval-verify_iff :
      (pending : PendingApprovalBinding) (grant : ApprovalGrant)
      → Allows (decide_with_approval p pending grant c) ↔ (
          (classify_vehicle_tool r.tool ≢ forbidden)
          × (classify_cockpit_tool r.tool ≢ cockpit_forbidden)
          × (verify_against_binding p grant pending r.now ≡ ok tt)
          × (r.now < pending.ttl_expires_at)
          × IsPermitted r p c.wall c.trust c.ledger true)
  unfolding decide_with_approval
  decide_with_approval-verify_iff pending grant = rw e (
    λ h.
        let (a, b, d, f, rest) = (early_deny-allow_iff p pending grant r _).0 h in
        (a, b, d, f, (decide_core-allow_iff true).0 ((link-allow_iff pending grant _).0 rest)),
    λ h. (early_deny-allow_iff p pending grant r _).1 (
      h.0,
      h.1,
      h.2,
      h.3,
      (link-allow_iff pending grant _).1 ((decide_core-allow_iff true).1 h.4),
    ),
  )

  -- A tool of either forbidden domain is denied, by `decide` and by `decide_with_approval` with
  -- any grant: whatever the mandate, ledger, state, time and trust anchor of the call.
  pub forbidden-denied :
      (classify_vehicle_tool c.tool ≡ forbidden)
        ⊎ (classify_cockpit_tool c.tool ≡ cockpit_forbidden)
      → (pending : PendingApprovalBinding) (grant : ApprovalGrant)
      → ((v : Verdict) × (decide p c ≡ ok v) × (v.decision ≡ deny))
        × ((v : Verdict) × (decide_with_approval p pending grant c ≡ ok v) × (v.decision ≡ deny))
  unfolding decide decide_with_approval
  forbidden-denied f pending grant =
      let (same, _, _) = prepare-request p c e in
      let g = rw (← same) at f in
      (
        rw (decide_core-prepared false) (finish-forbidden p c.wall c.trust c.ledger false r g),
        rw e (early_deny-forbidden p pending grant r _ g),
      )

  -- Without an approval an always-HITL tool is never allowed.
  pub hitl-needs_approval :
      always_hitl (classify_cockpit_tool c.tool) ≡ true → ¬ (Allows (decide p c))
  hitl-needs_approval h a =
      let free = ((decide-allow_iff.0 a).no_human refl).not_hitl in
      ground (arith, prepare-request p c e)

  -- A Sensitive tool with no verified state, or with one that is not parked and stopped, is allowed
  -- neither by `decide` nor by `decide_with_approval`.
  pub sensitive-needs_parked :
      classify_vehicle_tool c.tool ≡ sensitive
      → is_parked_and_stopped (state_or_fail_safe c.verified_state) ≡ false
      → (pending : PendingApprovalBinding) (grant : ApprovalGrant)
      → (¬ (Allows (decide p c))) × (¬ (Allows (decide_with_approval p pending grant c)))
  sensitive-needs_parked s m pending grant = (
    λ a. moving false (decide-allow_iff.0 a),
    λ a. moving true ((decide_with_approval-verify_iff pending grant).0 a).4,
  )
    where
      moving : (skip : Bool) → IsPermitted r p c.wall c.trust c.ledger skip → ⊥
      moving skip h =
          let (a, _, b) = prepare-request p c e in
          cc (h.state_fits.0 (ap classify_vehicle_tool a ∙ s), ap state_or_fail_safe b)
