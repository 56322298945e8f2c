-- ===== src/Examples/Proxies.antt =====
-- The theorem on the proxy, applied to one tool call.
use a2g_cli.Base.{Adds, true, none, some, [], ◌∷◌}
use a2g_cli.Base.Int.{pos}
use a2g_cli.Base.Text.{Text, codes}
use a2g_cli.Error.{Message}
use a2g_cli.Enforce.Trust.{self_sovereign}
use a2g_cli.Proxy.Types.{ToolMap, JsonRpcRequest, GovernanceContext, ProxyMoment}
use a2g_cli.Proxy.Dispatch.{Outside, run_proxy}
use a2g_cli.Proxy.Guarded.{MayPass, run_proxy-MayPass}
use a2g_cli.Examples.{platform, key, call}
use a2g_cli.Examples.Serving.{codec, gateway, moment}

abbrev render : Message → Text
render m = codes "rule"

abbrev table : ToolMap
table = (codes "echo", codes "play") ∷ []

abbrev governance : GovernanceContext
governance = record {
  mandate_cbor = codes "cbor";
  receipt_signing_key = key;
  trust_roots = self_sovereign;
}

abbrev request : JsonRpcRequest
request = record {
  method = codes "tools/call";
  tool_name = codes "echo";
  arguments = (call (codes "play")).params;
  arguments_json = codes "{}";
}

abbrev at_once : ProxyMoment
at_once = record {
  now = 7;
  wall = 7;
  ids = record { verdict_id = codes "v"; binding_id = codes "b" };
  issued_at_ms = pos 100;
  nonce = codes "n1";
  delivered = true;
  answered = true;
  gateway = moment;
  downstream_reply = some (codes "done");
}

abbrev outside : Outside
outside = record { downstream = []; gateway = gateway }

run_proxy-MayPass_example :
    Adds
      (MayPass platform codec render
        (λ b. none)
        (λ r. codes "reply")
        table
        governance
        ((at_once, request) ∷ [])
        outside)
      []
      (run_proxy platform codec render
        (λ b. none)
        (λ r. codes "reply")
        table
        governance
        ((at_once, request) ∷ [])
        outside).downstream
run_proxy-MayPass_example =
    run_proxy-MayPass platform codec render (λ b. none) (λ r. codes "reply") table governance
      ((at_once, request) ∷ []) outside
