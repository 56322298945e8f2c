-- ===== src/Proxy/Guarded.antt =====
-- crates/a2g-mcp-proxy/src/proxy.rs: which messages reach the tool server.
use a2g_cli.Base.{
  Adds-map, Adds-trans, Adds-one, Adds-none, Adds, ◌≢◌, ◌≡◌, refl, false, Option, none, some, List,
  [], ◌∷◌, Bool-cases, ◌⊎◌, inl, inr,
}
use a2g_cli.Base.Text.{text_eq→eq, Text, codes, text_eq}
use a2g_cli.Error.{Message}
use a2g_cli.Platform.{Platform}
use a2g_cli.Hitl.Types.{PendingApprovalBinding}
use a2g_cli.Gateway.Types.{Codec, GatewayResponse}
use a2g_cli.Proxy.Types.{
  ProxyResponse, ToolMap, resolve_capability, JsonRpcRequest, GovernanceContext, ProxyMoment,
  GovernanceOutcome, allowed, denied, escalate, gateway_refused, internal_error,
}
use a2g_cli.Proxy.Dispatch.{
  unless_panic, tool_call, MethodKind, method_kind, dispatch, checked, notification, tool_call,
  passthrough, Outside, act_on_outcome, handle_tool_call, handle_message, run_proxy,
}
use a2g_cli.Proxy.Governed.{IsGoverned, check-IsGoverned}

method_kind-call : (m : Text) → m ≡ codes "tools/call" → method_kind m ≡ tool_call
unfolding method_kind text_eq
method_kind-call m e = rw e refl

method_kind-other : (m : Text) → method_kind m ≢ tool_call → text_eq m (codes "tools/call") ≡ false
unfolding method_kind
method_kind-other m other = elim (Bool-cases (text_eq m (codes "tools/call"))) [
  | inr e ↦ e
  | inl e ↦ elim (other (method_kind-call m (text_eq→eq m (codes "tools/call") e))) [ ]
]

module _ (p : Platform) (c : Codec) (render : Message → Text)
    (print_binding : PendingApprovalBinding → Option Text)
    (print_reply : GatewayResponse → Text) where
  act_on_outcome-sends :
      (req : JsonRpcRequest) (capability : Text) (t : ProxyMoment) (out : Option GovernanceOutcome)
      (o : Outside)
      → ((act_on_outcome req capability t out o).1.downstream ≡ o.downstream)
        ⊎ ((id : Text) × (out ≡ some (allowed id))
            × ((act_on_outcome req capability t out o).1.downstream ≡ req ∷ o.downstream))
  unfolding act_on_outcome
  act_on_outcome-sends req capability t none o = inl refl
  act_on_outcome-sends req capability t (some (allowed id)) o = inr (id, refl, refl)
  act_on_outcome-sends req capability t (some (denied a b)) o = inl refl
  act_on_outcome-sends req capability t (some (escalate a b d)) o = inl refl
  act_on_outcome-sends req capability t (some (gateway_refused a)) o = inl refl
  act_on_outcome-sends req capability t (some (internal_error a)) o = inl refl

  module _ (table : ToolMap) (gov : GovernanceContext) where
    -- A request at the tool server is one of the messages, and is no tool call, or is governed at the
    -- moment of that message in the state that the gateway is in then.
    abbrev pub MayPass : List (ProxyMoment × JsonRpcRequest) → Outside → JsonRpcRequest → Type 0
    MayPass [] o req = ⊥
    MayPass ((t, message) ∷ rest) o req =
        ((req ≡ message)
          × ((text_eq req.method (codes "tools/call") ≡ false)
              ⊎ IsGoverned p c render print_binding print_reply gov t
                  (resolve_capability table req.tool_name) req.arguments req.arguments_json
                  o.gateway))
        ⊎ MayPass rest (handle_message p c render print_binding print_reply table gov message t o).1
            req

    module _ (req : JsonRpcRequest) (t : ProxyMoment) (rest : List (ProxyMoment × JsonRpcRequest))
        (o : Outside) where
      handle_tool_call-MayPass :
          Adds
            (MayPass ((t, req) ∷ rest) o)
            o.downstream
            (handle_tool_call p c render print_binding print_reply table gov req t o).1.downstream
      unfolding handle_tool_call
      handle_tool_call-MayPass =
          let now = checked p c render print_binding print_reply table gov req t o.gateway in
          elim (act_on_outcome-sends req (resolve_capability table req.tool_name) t now.0
            (record o { gateway = now.1 })) [
              | inl e ↦ ([], e, tt)
              | inr (id, e, k) ↦ (
                req ∷ [],
                k,
                (
                  inl (
                    refl,
                    inr (
                        check-IsGoverned p c render print_binding print_reply gov t
                          (resolve_capability table req.tool_name) req.arguments req.arguments_json
                          o.gateway id e),
                  ),
                  tt,
                ),
              )
            ]

      dispatch-MayPass :
          (k : MethodKind)
          → (k ≢ tool_call → text_eq req.method (codes "tools/call") ≡ false)
          → Adds
              (MayPass ((t, req) ∷ rest) o)
              o.downstream
              (dispatch p c render print_binding print_reply table gov k req t o).1.downstream
      unfolding dispatch
      dispatch-MayPass notification other =
          Adds-one _ req o.downstream (inl (refl, inl (other (λ e. cc))))
      dispatch-MayPass tool_call other = handle_tool_call-MayPass
      dispatch-MayPass passthrough other =
          Adds-one _ req o.downstream (inl (refl, inl (other (λ e. cc))))

      unless_panic-MayPass :
          (r : Option ProxyResponse) (stopped later : Outside)
          → Adds (MayPass ((t, req) ∷ rest) o) o.downstream stopped.downstream
          → Adds (MayPass ((t, req) ∷ rest) o) o.downstream later.downstream
          → Adds
              (MayPass ((t, req) ∷ rest) o)
              o.downstream
              (unless_panic r stopped later).downstream
      unless_panic-MayPass none stopped later h k = h
      unless_panic-MayPass (some r) stopped later h k = k

    -- Whatever messages come in, what reaches the tool server besides what it had got before are
    -- some of these messages, each of which is no tool call, or is allowed by decide for its mapped
    -- capability at the moment of the message, with a signed receipt of that verdict that passes
    -- every check of the gateway in the state that it is in then.
    pub run_proxy-MayPass :
        (events : List (ProxyMoment × JsonRpcRequest)) (o : Outside)
        → Adds
            (MayPass events o)
            o.downstream
            (run_proxy p c render print_binding print_reply table gov events o).downstream
    unfolding run_proxy handle_message
    run_proxy-MayPass [] o = Adds-none _ o.downstream
    run_proxy-MayPass ((t, req) ∷ rest) o =
        let o' = (handle_message p c render print_binding print_reply table gov req t o).1 in
        let later = run_proxy p c render print_binding print_reply table gov rest o' in
        let once =
          dispatch-MayPass req t rest o (method_kind req.method) (method_kind-other req.method) in
        unless_panic-MayPass req t rest o
          (handle_message p c render print_binding print_reply table gov req t o).0 _ _ once
          (Adds-trans _ o.downstream o'.downstream later.downstream once
            (Adds-map _ o'.downstream later.downstream (λ a k. inr k) (run_proxy-MayPass rest o')))
