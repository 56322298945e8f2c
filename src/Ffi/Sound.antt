-- ===== src/Ffi/Sound.antt =====
-- When the two functions of the C interface return Allow, and what the handle says.
use mathlib.Core.Path.{subst}
use a2g_cli.Enforce.Trust.{TrustAnchor, self_sovereign, roots}
use a2g_cli.Base.{
  ap, sym, ◌∙◌, unwrap_or, Bool, true, false, Option, none, some, ◌≡◌, refl, ◌≢◌, ◌↔◌, inl, inr,
  ◌<◌, arith,
}
use a2g_cli.Base.Text.{Text, codes}
use a2g_cli.Error.{some-injective, Result-cases, A2gError, Message, Result, ok, err}
use a2g_cli.Platform.{Platform}
use a2g_cli.Vehicle.Types.{forbidden}
use a2g_cli.Vehicle.Classify.{classify_vehicle_tool}
use a2g_cli.Cockpit.{classify_cockpit_tool, cockpit_forbidden}
use a2g_cli.Hitl.Types.{PendingApprovalBinding, ApprovalGrant}
use a2g_cli.Hitl.Granted.{IsGranted, verify_against_binding_iff}
use a2g_cli.Enforce.Types.{allow, Decision, Verdict, Request}
use a2g_cli.Enforce.Decide.{decide_core, Call, prepare, decide}
use a2g_cli.Enforce.Approval.{decide_with_approval}
use a2g_cli.Enforce.Decision.{
  prepare-request, Allows, decide-allow_iff, decide_with_approval-verify_iff,
}
use a2g_cli.Enforce.Allow.Conditions.{IsPermitted}
use a2g_cli.Ffi.Types.{
  code_of, code_allow, TrustAnchorOwned, owned_self_sovereign, owned_roots, as_trust_anchor,
  cstr_to_str,
}
use a2g_cli.Ffi.Decide.{◌>>=◌, Serde, Arguments, answer_of, to_option, catch_unwind, call_of}

pub to_option-Allows :
    (x : Result Verdict)
    → ((v : Verdict) × (to_option x ≡ some v) × (v.decision ≡ allow)) ↔ Allows x
to_option-Allows (ok v) = (λ h. (h.0, ground arith, h.2), λ h. (h.0, ground arith, h.2))
to_option-Allows (err e) = (λ h. ground arith, λ h. ground arith)

code_of-allow : (d : Decision) → code_of d ≡ code_allow → d ≡ allow
code_of-allow d e = ground arith

module _ (p : Platform) (c : Call) (e : A2gError) (f : prepare p c ≡ err e) where
  unprepared-decide : ¬ (Allows (decide p c))
  unfolding decide decide_core
  unprepared-decide = rw f (λ a. ground arith)

  unprepared-decide_with_approval :
      (pending : PendingApprovalBinding) (grant : ApprovalGrant)
      → ¬ (Allows (decide_with_approval p pending grant c))
  unfolding decide_with_approval
  unprepared-decide_with_approval pending grant = rw f (λ a. ground arith)

-- `decide` allows exactly the calls that it prepares and permits; phase 2 those under a grant.
abbrev pub IsPermittedCall : Platform → Call → Bool → Type 0
IsPermittedCall p c skip =
    (r : Request) × (prepare p c ≡ ok r) × IsPermitted r p c.wall c.trust c.ledger skip

pub decide-IsPermittedCall :
    (p : Platform) (c : Call) → Allows (decide p c) ↔ IsPermittedCall p c false
decide-IsPermittedCall p c = (
  λ h. elim (Result-cases (prepare p c)) [
    | inl (e, f) ↦ elim (unprepared-decide p c e f h) [ ]
    | inr (r, f) ↦ (r, f, (decide-allow_iff p c f).0 h)
  ],
  λ h. (decide-allow_iff p c h.1).1 h.2,
)

abbrev pub IsApprovedCall : Platform → PendingApprovalBinding → ApprovalGrant → Call → Type 0
IsApprovedCall p pending grant c =
    IsGranted p grant pending c.now
    × (c.now < pending.ttl_expires_at)
    × (classify_vehicle_tool c.tool ≢ forbidden)
    × (classify_cockpit_tool c.tool ≢ cockpit_forbidden)
    × IsPermittedCall p c true

pub decide_with_approval-IsApprovedCall :
    (p : Platform) (pending : PendingApprovalBinding) (grant : ApprovalGrant) (c : Call)
    → Allows (decide_with_approval p pending grant c) ↔ IsApprovedCall p pending grant c
decide_with_approval-IsApprovedCall p pending grant c = (
  λ h. elim (Result-cases (prepare p c)) [
    | inl (e, f) ↦ elim (unprepared-decide_with_approval p c e f pending grant h) [ ]
    | inr (r, f) ↦
        let (tool_is, now_is, _) = prepare-request p c f in
        let (v, d, g, l, m) = (decide_with_approval-verify_iff p c f pending grant).0 h in
        (
          (verify_against_binding_iff p grant pending c.now).0 (rw now_is at g),
          rw now_is at l,
          rw tool_is at v,
          rw tool_is at d,
          (r, f, m),
        )
  ],
  λ h.
      let (tool_is, now_is, _) = prepare-request p c h.4.1 in
      (decide_with_approval-verify_iff p c h.4.1 pending grant).1 (
        rw (tool_is) (h.2),
        rw tool_is (h.3),
        rw now_is ((verify_against_binding_iff p grant pending c.now).1 (h.0)),
        rw now_is (h.1),
        h.4.2,
      ),
)

pub >>=-eq-some {ℓ κ} :
    {A : Type ℓ} {B : Type κ} (x : Option A) (f : A → Option B) {b : B}
    → (x >>= f) ≡ some b
    → (a : A) × (x ≡ some a) × (f a ≡ some b)
>>=-eq-some none f h = cc
>>=-eq-some (some a) f h = (a, refl, h)

-- The anchor that a handle of the caller stands for.
abbrev pub Trusts : TrustAnchorOwned → TrustAnchor → Type 0
Trusts owned_self_sovereign t = t ≡ self_sovereign
Trusts (owned_roots keys) t = t ≡ roots keys

-- The call that the arguments describe: their mandate, tool, parameters and vehicle state, the trust
-- anchor that the caller gave, and a ledger that knows of no revocation and of no earlier calls.
pub record Describes (s : Serde) (a : Arguments) (trust : TrustAnchorOwned) (c : Call)
    : Type 0 where
  pub has_mandate : a.mandate_cbor ≡ some c.mandate_cbor
  pub has_tool : cstr_to_str s.to_str a.tool ≡ some c.tool
  pub has_params :
      s.params_of_json (unwrap_or (cstr_to_str s.to_str a.params_json) (codes "{}")) ≡ some c.params
  pub ledger_is : c.ledger ≡ record { is_revoked = λ did m. ok false; count_recent = λ did n. ok 0 }
  pub now_is : c.now ≡ a.now
  pub state_is : c.verified_state ≡ a.state
  pub trusts : Trusts trust c.trust
  pub ids_are : c.ids ≡ a.ids
  pub wall_is : c.wall ≡ a.wall

as_trust_anchor-Trusts : (trust : TrustAnchorOwned) → Trusts trust (as_trust_anchor trust)
as_trust_anchor-Trusts owned_self_sovereign = refl
as_trust_anchor-Trusts (owned_roots keys) = refl

Trusts-as_trust_anchor :
    (trust : TrustAnchorOwned) (t : TrustAnchor) → Trusts trust t → t ≡ as_trust_anchor trust
Trusts-as_trust_anchor owned_self_sovereign t h = h
Trusts-as_trust_anchor (owned_roots keys) t h = h

pub call_of-Describes :
    (s : Serde) (a : Arguments) (trust : TrustAnchorOwned) (c : Call)
    → (call_of s a trust ≡ some c) ↔ Describes s a trust c
unfolding call_of
call_of-Describes s a trust c = (
  λ h.
      let (mandate, e1, h1) = >>=-eq-some a.mandate_cbor _ h in
      let (tool, e2, h2) = >>=-eq-some (cstr_to_str s.to_str a.tool) _ h1 in
      let (params, e3, h3) = >>=-eq-some (s.params_of_json _) _ h2 in
      let e = some-injective h3 in
      record {
        has_mandate = e1 ∙ ap (λ x. some x.mandate_cbor) e;
        has_tool = e2 ∙ ap (λ x. some x.tool) e;
        has_params = e3 ∙ ap (λ x. some x.params) e;
        ledger_is = sym (ap (λ x. x.ledger) e);
        now_is = sym (ap (λ x. x.now) e);
        state_is = sym (ap (λ x. x.verified_state) e);
        trusts = subst (λ x. Trusts trust x.trust) e (as_trust_anchor-Trusts trust);
        ids_are = sym (ap (λ x. x.ids) e);
        wall_is = sym (ap (λ x. x.wall) e);
      },
  λ d.
      let t = Trusts-as_trust_anchor trust c.trust d.trusts in
      rw (d.has_mandate, d.has_tool, d.has_params)
        (λ i. some (record {
          mandate_cbor = c.mandate_cbor;
          tool = c.tool;
          params = c.params;
          ledger = sym d.ledger_is i;
          now = sym d.now_is i;
          verified_state = sym d.state_is i;
          trust = sym t i;
          ids = sym d.ids_are i;
          wall = sym d.wall_is i;
        })),
)

module _ (p : Platform) (s : Serde) (render : Message → Text) (a : Arguments) where
  pub answer_of-allow_iff :
      (x : Option Verdict)
      → ((answer_of p s render a (catch_unwind a.panics x)).0 ≡ code_allow)
        ↔ ((a.panics ≡ false) × ((v : Verdict) × (x ≡ some v) × (v.decision ≡ allow)))
  answer_of-allow_iff none = (λ h. ground arith, λ h. ground arith)
  answer_of-allow_iff (some v) = (λ h. (ground arith, (v, refl, ground arith)), λ h. ground arith)

  -- What `a2g_decide` needs to allow: a trust anchor, no panic, and a
  -- call that its arguments describe and that `decide` permits.
  abbrev pub IsAllowedCall : Type 0
  IsAllowedCall =
      (trust : TrustAnchorOwned) × (c : Call) × (a.trust ≡ some trust)
      × (a.panics ≡ false)
      × Describes s a trust c
      × IsPermittedCall p c false
