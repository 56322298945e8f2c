-- ===== src/Proxy/Governance.antt =====
-- crates/a2g-mcp-proxy/src/governance.rs: the decision on one tool call and the gateway's part in it.
use a2g_cli.Base.{Bool, true, false, Option, none, some, [], if◌then◌else◌}
use a2g_cli.Base.Text.{Text}
use a2g_cli.Error.{Message, format, say, text, failure, end, Result, ok, err}
use a2g_cli.Platform.{Platform}
use a2g_cli.Hitl.Types.{PendingApprovalBinding}
use a2g_cli.Enforce.Types.{
  Params, Verdict, Decision, allow, deny, expired, pending_approval, noop_ledger,
}
use a2g_cli.Enforce.Decide.{Call, decide}
use a2g_cli.Gateway.Types.{
  Codec, GatewayReceipt, GatewayRequest, sign_binding_request, enforce_request, GatewayResponse,
  enforced, refused, error, signed_binding, GatewayState, Reply, pass, refuse, panic,
}
use a2g_cli.Gateway.Server.{handle_request}
use a2g_cli.Proxy.Types.{
  GovernanceContext, ProxyMoment, GovernanceOutcome, allowed, denied, escalate, gateway_refused,
  internal_error, sign_receipt_with_params, slugify,
}

-- What the client reads, once the gateway has handled its request: nothing if the answer is lost or
-- the handler panicked.
abbrev pub receive : Bool → Reply GatewayResponse → Option GatewayResponse
receive false reply = none
receive true (pass x) = some x
receive true (refuse reason) = some (refused reason)
receive true panic = none

-- The arguments of `decide` for a call through the proxy.
abbrev pub proxy_call : GovernanceContext → ProxyMoment → Text → Params → Call
proxy_call gov t capability params = record {
  mandate_cbor = gov.mandate_cbor;
  tool = capability;
  params = params;
  ledger = noop_ledger;
  now = t.now;
  verified_state = none;
  trust = gov.trust_roots;
  ids = t.ids;
  wall = t.wall;
}

abbrev unreachable : Message
unreachable = say "gateway_unreachable: gateway connection failed (socket unreachable)"

-- `print_binding` is serde_json's form of a binding, and `print_reply` the `Debug` text of a
-- response.
module _ (p : Platform) (c : Codec) (render : Message → Text)
    (print_binding : PendingApprovalBinding → Option Text)
    (print_reply : GatewayResponse → Text) where
  -- `send_gateway_request`, with the gateway's state.
  unfoldable pub send_gateway_request :
      ProxyMoment → GatewayRequest → GatewayState → Option GatewayResponse × GatewayState
  unfolding handle_request
  send_gateway_request t req g =
      if t.delivered
      then (
        receive t.answered (handle_request p c t.gateway req g).0,
        (handle_request p c t.gateway req g).1,
      )
      else (none, g)

  -- What an answer to `Enforce` means.
  abbrev pub read_enforced : Option GatewayResponse → GovernanceOutcome
  read_enforced none = internal_error (render unreachable)
  read_enforced (some (enforced verdict_id frame real)) = allowed verdict_id
  read_enforced (some (refused reason)) = gateway_refused (render reason)
  read_enforced (some other) =
      gateway_refused
        (render (format "unexpected gateway response: {}" (text (print_reply other) end)))

  -- What an answer to `SignBinding` means; an unreachable gateway still escalates.
  abbrev pub read_signed :
      PendingApprovalBinding → Text → Option GatewayResponse → GovernanceOutcome
  read_signed b rule none = escalate b.binding_id b.escalate_to rule
  read_signed b rule (some (signed_binding json)) = escalate b.binding_id b.escalate_to rule
  read_signed b rule (some (error message)) =
      internal_error (render (format "gateway SignBinding error: {}" (text (render message) end)))
  read_signed b rule (some other) = internal_error (
      render
        (format "unexpected gateway response to SignBinding: {}" (text (print_reply other) end)))

  -- Presenting a signed receipt to the gateway; `none` is the panic of the signing.
  unfoldable pub present_receipt :
      ProxyMoment → Option GatewayReceipt → GatewayState → Option GovernanceOutcome × GatewayState
  unfolding send_gateway_request
  present_receipt t none g = (none, g)
  present_receipt t (some r) g = (
    some (read_enforced (send_gateway_request t (enforce_request r) g).0),
    (send_gateway_request t (enforce_request r) g).1,
  )

  -- The branch of an allowing verdict: sign a receipt and have the gateway enforce it.
  unfoldable pub enforce_receipt :
      GovernanceContext
      → ProxyMoment
      → Verdict
      → Text
      → GatewayState
      → Option GovernanceOutcome × GatewayState
  unfolding present_receipt sign_receipt_with_params
  enforce_receipt gov t v params_json g =
      present_receipt t
        (sign_receipt_with_params p c render t.issued_at_ms t.nonce v params_json []
          gov.receipt_signing_key none)
        g

  -- The branch of a pending verdict.
  unfoldable pub queue_binding :
      ProxyMoment → Verdict → GatewayState → Option GovernanceOutcome × GatewayState
  unfolding send_gateway_request
  queue_binding t v g = elim (v.pending_approval) [
    | none ↦ (
      some (internal_error (render (say "decide() returned PendingApproval without binding"))),
      g,
    )
    | some b ↦ elim (print_binding b) [
      | none ↦ (some (internal_error (render (say "binding serialize error: {e}"))), g)
      | some json ↦ (
        some (
            read_signed b (render v.policy_rule)
              (send_gateway_request t (sign_binding_request json) g).0),
        (send_gateway_request t (sign_binding_request json) g).1,
      )
    ]
  ]

  -- The `match` on the decision of a verdict.
  unfoldable pub act_on_decision :
      GovernanceContext
      → ProxyMoment
      → Text
      → Verdict
      → Decision
      → GatewayState
      → Option GovernanceOutcome × GatewayState
  unfolding enforce_receipt queue_binding slugify
  act_on_decision gov t params_json v allow g = enforce_receipt gov t v params_json g
  act_on_decision gov t params_json v deny g =
      (some (denied (slugify (render v.policy_rule)) (render v.policy_rule)), g)
  act_on_decision gov t params_json v expired g =
      (some (denied (slugify (render v.policy_rule)) (render v.policy_rule)), g)
  act_on_decision gov t params_json v pending_approval g = queue_binding t v g

  unfoldable pub act_on_verdict :
      GovernanceContext
      → ProxyMoment
      → Text
      → Result Verdict
      → GatewayState
      → Option GovernanceOutcome × GatewayState
  unfolding act_on_decision
  act_on_verdict gov t params_json (err e) g =
      (some (internal_error (render (format "decide() error: {}" (failure e end)))), g)
  act_on_verdict gov t params_json (ok v) g = act_on_decision gov t params_json v v.decision g

  -- `GovernanceContext::check`
  unfoldable pub check :
      GovernanceContext
      → ProxyMoment
      → Text
      → Params
      → Text
      → GatewayState
      → Option GovernanceOutcome × GatewayState
  unfolding act_on_verdict
  check gov t capability params params_json g =
      act_on_verdict gov t params_json (decide p (proxy_call gov t capability params)) g
