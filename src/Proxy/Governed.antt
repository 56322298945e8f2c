-- ===== src/Proxy/Governed.antt =====
-- crates/a2g-mcp-proxy/src/governance.rs: what a check that allows a call rests on.
use a2g_cli.Base.{
  Option-cases, ◌≡◌, refl, ap, Bool, true, false, Option, none, some, [], Bool-cases, ◌⊎◌, inl, inr,
  arith,
}
use a2g_cli.Base.Text.{Text}
use a2g_cli.Error.{Message, Result, ok, err}
use a2g_cli.Platform.{Platform}
use a2g_cli.Hitl.Types.{PendingApprovalBinding}
use a2g_cli.Enforce.Types.{
  noop_ledger, Params, Verdict, Decision, allow, deny, expired, pending_approval,
}
use a2g_cli.Enforce.Decide.{decide}
use a2g_cli.Gateway.Types.{
  sign_binding_request, Codec, GatewayReceipt, enforce_request, GatewayResponse, signed_binding,
  grant_accepted, enforced, refused, public_keys, error, GatewayState, Reply, pass, refuse, panic,
}
use a2g_cli.Gateway.Server.{handle_request, handle_enforce}
use a2g_cli.Gateway.Enforced.{IsEnforceable, handle_enforce-IsEnforceable}
use a2g_cli.Proxy.Types.{GovernanceContext, ProxyMoment, allowed, sign_receipt_with_params}
use a2g_cli.Proxy.Governance.{
  present_receipt, act_on_decision, receive, proxy_call, send_gateway_request, read_enforced,
  read_signed, enforce_receipt, queue_binding, act_on_verdict, check,
}

receive-eq-some :
    (b : Bool) (reply : Reply GatewayResponse) (x : GatewayResponse)
    → receive b reply ≡ some x
    → (reply ≡ pass x) ⊎ ((reason : Message) × (x ≡ refused reason))
receive-eq-some false reply x h = cc
receive-eq-some true (pass y) x h = ground arith
receive-eq-some true (refuse reason) x h = inr (reason, ground arith)
receive-eq-some true panic x h = cc

module _ (p : Platform) (c : Codec) (render : Message → Text)
    (print_binding : PendingApprovalBinding → Option Text)
    (print_reply : GatewayResponse → Text) where
  read_enforced-eq-allowed :
      (x : Option GatewayResponse) (id : Text)
      → read_enforced p c render print_binding print_reply x ≡ allowed id
      → (y : GatewayResponse) × (x ≡ some y) × ((reason : Message) → y ≡ refused reason → ⊥)
  read_enforced-eq-allowed none id h = cc
  read_enforced-eq-allowed (some (enforced v f r)) id h = (enforced v f r, refl, λ reason e. cc)
  read_enforced-eq-allowed (some (refused reason)) id h = cc
  read_enforced-eq-allowed (some (signed_binding j)) id h = cc
  read_enforced-eq-allowed (some (grant_accepted j)) id h = cc
  read_enforced-eq-allowed (some (public_keys j k l m)) id h = cc
  read_enforced-eq-allowed (some (error m)) id h = cc

  read_signed-allowed :
      (b : PendingApprovalBinding) (rule : Text) (x : Option GatewayResponse) (id : Text)
      → ¬ (read_signed p c render print_binding print_reply b rule x ≡ allowed id)
  read_signed-allowed b rule none id h = cc
  read_signed-allowed b rule (some (enforced v f r)) id h = cc
  read_signed-allowed b rule (some (refused reason)) id h = cc
  read_signed-allowed b rule (some (signed_binding j)) id h = cc
  read_signed-allowed b rule (some (grant_accepted j)) id h = cc
  read_signed-allowed b rule (some (public_keys j k l m)) id h = cc
  read_signed-allowed b rule (some (error m)) id h = cc

  -- A governed call in the state that the gateway is in: the policy allows it, and the gateway finds
  -- the receipt that is signed for that verdict enforceable.
  pub record IsGoverned (gov : GovernanceContext) (t : ProxyMoment) (capability : Text)
      (params : Params) (params_json : Text) (g : GatewayState) : Type 0 where
    pub verdict : Verdict
    pub decided :
        decide p (record {
          mandate_cbor = gov.mandate_cbor;
          tool = capability;
          params = params;
          ledger = noop_ledger;
          now = t.now;
          verified_state = none;
          trust = gov.trust_roots;
          ids = t.ids;
          wall = t.wall;
        })
        ≡ ok verdict
    pub allows : verdict.decision ≡ allow
    pub receipt : GatewayReceipt
    pub signed :
        sign_receipt_with_params p c render t.issued_at_ms t.nonce verdict params_json []
          gov.receipt_signing_key none
        ≡ some receipt
    pub enforceable : IsEnforceable p c t.gateway receipt g

  send_gateway_request-eq-some :
      (t : ProxyMoment) (r : GatewayReceipt) (g : GatewayState) (x : GatewayResponse)
      → (send_gateway_request p c render print_binding print_reply t (enforce_request r) g).0
        ≡ some x
      → ((reason : Message) → x ≡ refused reason → ⊥)
      → IsEnforceable p c t.gateway r g
  unfolding send_gateway_request handle_request
  send_gateway_request-eq-some t r g x h fine = elim (Bool-cases t.delivered) [
    | inr d ↦ let nothing : none ≡ some x = rw d at h in cc
    | inl d ↦
        let got : receive t.answered (handle_enforce p c t.gateway r g).0 ≡ some x = rw d at h in
        elim (receive-eq-some t.answered (handle_enforce p c t.gateway r g).0 x got) [
          | inr (reason, e) ↦ elim (fine reason e) [ ]
          | inl e ↦
              (handle_enforce-IsEnforceable p c t.gateway r g
                (ap (λ y. (y, (handle_enforce p c t.gateway r g).1)) e)).0
        ]
  ]

  module _ (gov : GovernanceContext) (t : ProxyMoment) (params_json : Text) (g : GatewayState) where
    queue_binding-allowed :
        (v : Verdict) (id : Text)
        → ¬ ((queue_binding p c render print_binding print_reply t v g).0 ≡ some (allowed id))
    unfolding queue_binding
    queue_binding-allowed v id h = elim (Option-cases v.pending_approval) [
      | inl b ↦ ground (arith, b)
      | inr (b, e) ↦ elim (Option-cases (print_binding b)) [
        | inl n ↦ ground (arith, e, n)
        | inr (json, n) ↦
            read_signed-allowed b (render v.policy_rule)
              (send_gateway_request p c render print_binding print_reply t
                (sign_binding_request json) g).0
              id (ground (arith, e, n))
      ]
    ]

    present_receipt-allowed :
        (made : Option GatewayReceipt) (id : Text)
        → (present_receipt p c render print_binding print_reply t made g).0 ≡ some (allowed id)
        → (r : GatewayReceipt) × (made ≡ some r) × IsEnforceable p c t.gateway r g
    unfolding present_receipt
    present_receipt-allowed none id h = cc
    present_receipt-allowed (some r) id h =
        let asked =
          (send_gateway_request p c render print_binding print_reply t (enforce_request r) g).0 in
        let (y, e, fine) = read_enforced-eq-allowed asked id (ground arith) in
        (r, refl, send_gateway_request-eq-some t r g y e fine)

    enforce_receipt-allowed :
        (v : Verdict) (id : Text)
        → (enforce_receipt p c render print_binding print_reply gov t v params_json g).0
          ≡ some (allowed id)
        → (r : GatewayReceipt) × (sign_receipt_with_params p c render t.issued_at_ms t.nonce v
              params_json [] gov.receipt_signing_key none
            ≡ some r)
          × IsEnforceable p c t.gateway r g
    unfolding enforce_receipt
    enforce_receipt-allowed v id h = present_receipt-allowed _ id h

    act_on_decision-allowed :
        (v : Verdict) (d : Decision) (id : Text)
        → (act_on_decision p c render print_binding print_reply gov t params_json v d g).0
          ≡ some (allowed id)
        → (d ≡ allow)
          × ((enforce_receipt p c render print_binding print_reply gov t v params_json g).0
              ≡ some (allowed id))
    unfolding act_on_decision
    act_on_decision-allowed v allow id h = (refl, h)
    act_on_decision-allowed v deny id h = cc
    act_on_decision-allowed v expired id h = cc
    act_on_decision-allowed v pending_approval id h = elim (queue_binding-allowed v id h) [ ]

    act_on_verdict-allowed :
        (x : Result Verdict) (id : Text)
        → (act_on_verdict p c render print_binding print_reply gov t params_json x g).0
          ≡ some (allowed id)
        → (v : Verdict) × (x ≡ ok v)
          × (v.decision ≡ allow)
          × ((enforce_receipt p c render print_binding print_reply gov t v params_json g).0
              ≡ some (allowed id))
    unfolding act_on_verdict
    act_on_verdict-allowed (err e) id h = cc
    act_on_verdict-allowed (ok v) id h =
        let (a, k) = act_on_decision-allowed v v.decision id h in (v, refl, a, k)

  pub check-IsGoverned :
      (gov : GovernanceContext) (t : ProxyMoment) (capability : Text) (params : Params)
      (params_json : Text) (g : GatewayState) (id : Text)
      → (check p c render print_binding print_reply gov t capability params params_json g).0
        ≡ some (allowed id)
      → IsGoverned gov t capability params params_json g
  unfolding check
  check-IsGoverned gov t capability params params_json g id h =
      let (v, e, a, k) =
        act_on_verdict-allowed gov t params_json g (decide p (proxy_call gov t capability params))
          id h in
      let (r, s, f) = enforce_receipt-allowed gov t params_json g v id k in
      record { verdict = v; decided = e; allows = a; receipt = r; signed = s; enforceable = f }
