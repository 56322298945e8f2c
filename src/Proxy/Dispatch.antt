-- ===== src/Proxy/Dispatch.antt =====
-- crates/a2g-mcp-proxy/src/proxy.rs: what the proxy does with each message.
use a2g_cli.Base.{◌||◌, Option, none, some, List, [], ◌∷◌, if◌then◌else◌}
use a2g_cli.Base.Text.{Text, codes, text_eq}
use a2g_cli.Error.{Message, format, say, text, end}
use a2g_cli.Platform.{Platform}
use a2g_cli.Hitl.Types.{PendingApprovalBinding}
use a2g_cli.Gateway.Types.{Codec, GatewayResponse, GatewayState}
use a2g_cli.Proxy.Types.{
  ToolMap, resolve_capability, JsonRpcRequest, GovernanceContext, ProxyMoment, GovernanceOutcome,
  allowed, denied, escalate, gateway_refused, internal_error, ProxyResponse, passed_on,
  passed_on_with_receipt, error_response, no_response, err_a2g_denied, err_a2g_escalate,
  err_a2g_gateway, err_a2g_internal,
}
use a2g_cli.Proxy.Governance.{check}

-- What the proxy acts on: the requests that it has sent to the tool server, the last one first, and
-- the gateway.
pub record Outside : Type 0 where
  pub downstream : List JsonRpcRequest
  pub gateway : GatewayState

-- The request has been handed to the tool server's transport, whether it is answered or not.
abbrev pub sent : JsonRpcRequest → Outside → Outside
sent req o = record o { downstream = req ∷ o.downstream }

-- The answer to a call that was forwarded.
abbrev pub answer_after_allow : Text → Option Text → ProxyResponse
answer_after_allow receipt_id none =
    error_response err_a2g_internal (say "downstream error after ALLOW: {e}") []
answer_after_allow receipt_id (some reply) = passed_on_with_receipt reply receipt_id

-- The answer to a message that passes through.
abbrev pub answer_passed : Option Text → ProxyResponse
answer_passed none = error_response err_a2g_internal (say "downstream error: {e}") []
answer_passed (some reply) = passed_on reply

-- How `run_proxy` treats a method: a notification is forwarded and not answered, a tool call is
-- governed, and `initialize`, `tools/list` and all others pass through.
pub data MethodKind : Type 0 where
  notification tool_call passthrough : MethodKind

unfoldable pub method_kind : Text → MethodKind
method_kind method =
    if text_eq method (codes "notifications/initialized") || text_eq method (codes "initialized")
    then notification
    else if text_eq method (codes "tools/call")
    then tool_call
    else passthrough

-- The loop stops where the proxy has panicked.
abbrev pub unless_panic : Option ProxyResponse → Outside → Outside → Outside
unless_panic none stopped later = stopped
unless_panic (some r) stopped later = later

-- `handle_tool_call` after the check of the request for a capability; the answer `none` is a panic
-- of the proxy.
unfoldable pub act_on_outcome :
    JsonRpcRequest
    → (capability : Text) → ProxyMoment
    → Option GovernanceOutcome
    → Outside
    → Option ProxyResponse × Outside
act_on_outcome req capability t none o = (none, o)
act_on_outcome req capability t (some (allowed receipt_id)) o =
    (some (answer_after_allow receipt_id t.downstream_reply), sent req o)
act_on_outcome req capability t (some (denied reason_code human_text)) o = (
  some (
      error_response err_a2g_denied (format "a2g_denied: {}" (text human_text end)) (
        (codes "reason_code", reason_code)
        ∷ (codes "tool", req.tool_name)
        ∷ (codes "capability", capability)
        ∷ [])),
  o,
)
act_on_outcome req capability t (some (escalate binding_id escalate_to human_text)) o = (
  some (
      error_response err_a2g_escalate
        (format
          "a2g_escalate: human-in-the-loop approval required; retry after approval with binding_id={}"
          (text binding_id end))
        ((codes "binding_id", binding_id)
          ∷ (codes "escalate_to", escalate_to)
          ∷ (codes "human_text", human_text)
          ∷ (codes "tool", req.tool_name)
          ∷ (codes "capability", capability)
          ∷ [])),
  o,
)
act_on_outcome req capability t (some (gateway_refused reason)) o = (
  some (
      error_response err_a2g_gateway (format "a2g_gateway_refused: {}" (text reason end)) (
        (codes "reason", reason)
        ∷ (codes "tool", req.tool_name)
        ∷ (codes "capability", capability)
        ∷ [])),
  o,
)
act_on_outcome req capability t (some (internal_error message)) o = (
  some (
      error_response err_a2g_internal (format "a2g_internal_error: {}" (text message end))
        ((codes "message", message) ∷ (codes "tool", req.tool_name) ∷ [])),
  o,
)

module _ (p : Platform) (c : Codec) (render : Message → Text)
    (print_binding : PendingApprovalBinding → Option Text) (print_reply : GatewayResponse → Text)
    (table : ToolMap) (gov : GovernanceContext) where
  abbrev pub checked :
      JsonRpcRequest → ProxyMoment → GatewayState → Option GovernanceOutcome × GatewayState
  checked req t g =
      check p c render print_binding print_reply gov t (resolve_capability table req.tool_name)
        req.arguments req.arguments_json g

  unfoldable pub handle_tool_call :
      JsonRpcRequest → ProxyMoment → Outside → Option ProxyResponse × Outside
  unfolding check resolve_capability act_on_outcome
  handle_tool_call req t o =
      act_on_outcome req (resolve_capability table req.tool_name) t (checked req t o.gateway).0
        (record o { gateway = (checked req t o.gateway).1 })

  -- The `match` on the method.
  unfoldable pub dispatch :
      MethodKind → JsonRpcRequest → ProxyMoment → Outside → Option ProxyResponse × Outside
  unfolding handle_tool_call
  dispatch notification req t o = (some no_response, sent req o)
  dispatch tool_call req t o = handle_tool_call req t o
  dispatch passthrough req t o = (some (answer_passed t.downstream_reply), sent req o)

  -- One turn of the loop of `run_proxy`, for a message that parses.
  unfoldable pub handle_message :
      JsonRpcRequest → ProxyMoment → Outside → Option ProxyResponse × Outside
  unfolding dispatch method_kind
  handle_message req t o = dispatch (method_kind req.method) req t o

  -- `run_proxy` on the messages that upstream sends before it closes; a panic ends it.
  unfoldable pub run_proxy : List (ProxyMoment × JsonRpcRequest) → Outside → Outside
  unfolding handle_message
  run_proxy [] o = o
  run_proxy ((t, req) ∷ rest) o =
      unless_panic (handle_message req t o).0 (handle_message req t o).1
        (run_proxy rest (handle_message req t o).1)
