-- ===== src/Proxy/Types.antt =====
-- crates/a2g-mcp-proxy/src: requests, responses, outcomes and the proxy's configuration; and
-- crates/a2g-gateway/src/lib.rs: signing a receipt for the gateway.
use a2g_cli.Base.{◌==◌, Bool, Option, none, some, List, [], ◌∷◌, ◌++◌, if◌then◌else◌}
use a2g_cli.Base.Int.{negsuc, ℤ}
use a2g_cli.Base.Text.{Text, codes, text_eq, split, trim}
use a2g_cli.Error.{Message, ok, err}
use a2g_cli.Platform.{Platform, Time}
use a2g_cli.Mandate.Types.{Bytes}
use a2g_cli.Enforce.Types.{Params, FreshIds, Verdict}
use a2g_cli.Enforce.Trust.{TrustAnchor}
use a2g_cli.Receipt.Types.{decision_text, trust_name}
use a2g_cli.Gateway.Types.{Codec, GatewayReceipt, canonical_bytes, expected_request_hash, Moment}

-- config.rs: the table of a `ProxyConfig`, which has a tool at most once.
abbrev pub ToolMap : Type 0
ToolMap = List (Text × Text)

abbrev pub lookup_tool : ToolMap → Text → Option Text
lookup_tool [] tool = none
lookup_tool ((t, c) ∷ rest) tool =
    let later = lookup_tool rest tool in if text_eq t tool then some c else later

abbrev pub capability_or : Option Text → Text → Text
capability_or none tool = codes "unmapped." ++ tool
capability_or (some c) tool = c

-- `ProxyConfig::resolve_capability`
unfoldable pub resolve_capability : ToolMap → Text → Text
resolve_capability table tool = capability_or (lookup_tool table tool) tool

-- What the proxy reads of a `JsonRpcRequest`: its method, and of its parameters the text under
-- `name` (or the empty text), and what stands under `arguments` (or `{}`), as the pipeline reads it
-- and as it is printed.
pub record JsonRpcRequest : Type 0 where
  pub method : Text
  pub tool_name : Text
  pub arguments : Params
  pub arguments_json : Text

-- governance.rs: `GovernanceContext`
pub record GovernanceContext : Type 0 where
  pub mandate_cbor : Bytes
  pub receipt_signing_key : Bytes
  pub trust_roots : TrustAnchor

-- What happens outside of the proxy while it handles one call: the clocks and random values that it
-- draws, whether its request gets to the gateway and the answer back, the gateway's own readings,
-- and whether the tool server answers.
pub record ProxyMoment : Type 0 where
  pub now : Time
  pub wall : Time
  pub ids : FreshIds
  pub issued_at_ms : ℤ
  pub nonce : Bytes
  pub delivered : Bool
  pub answered : Bool
  pub gateway : Moment
  pub downstream_reply : Option Text

-- governance.rs: `GovernanceOutcome`
pub data GovernanceOutcome : Type 0 where
  allowed : Text → GovernanceOutcome
  denied : Text → Text → GovernanceOutcome
  escalate : Text → Text → Text → GovernanceOutcome
  gateway_refused : Text → GovernanceOutcome
  internal_error : Text → GovernanceOutcome

-- mcp.rs: the codes of the proxy's errors.
pub data ErrorCode : Type 0 where
  err_a2g_denied err_a2g_escalate err_a2g_gateway err_a2g_internal : ErrorCode

abbrev pub error_code : ErrorCode → ℤ
error_code err_a2g_denied = negsuc 32000
error_code err_a2g_escalate = negsuc 32001
error_code err_a2g_gateway = negsuc 32002
error_code err_a2g_internal = negsuc 32003

-- What goes back upstream: the tool server's answer, with the receipt's id in its `_meta` after a
-- governed call; an error with its code, message and data; or nothing, for a notification.
pub data ProxyResponse : Type 0 where
  passed_on : Text → ProxyResponse
  passed_on_with_receipt : Text → Text → ProxyResponse
  error_response : ErrorCode → Message → List (Text × Text) → ProxyResponse
  no_response : ProxyResponse

-- governance.rs: `slugify`
abbrev pub replace_spaces : Text → Text
replace_spaces [] = []
replace_spaces (x ∷ xs) =
    let rest = replace_spaces xs in if x == b' ' then b'_' ∷ rest else x ∷ rest

abbrev pub first_piece : List Text → Text → Text
first_piece [] rule = rule
first_piece (p ∷ ps) rule = p

unfoldable pub slugify : Text → Text
slugify rule = replace_spaces (trim (first_piece (split b':' rule) rule))

module _ (p : Platform) (c : Codec) (render : Message → Text) where
  -- `sign_receipt_with_params` of the gateway's client; `none` is its panic on a payload that does
  -- not encode.
  unfoldable pub sign_receipt_with_params :
      (issued_at_ms : ℤ) (nonce : Bytes)
      → Verdict
      → (params_json binding_id : Text) (signing_key : Bytes) (attested_state_json : Option Text)
      → Option GatewayReceipt
  sign_receipt_with_params ms nonce v params_json binding_id key attested =
      let unhashed : GatewayReceipt = record {
        verdict_id = v.verdict_id;
        decision = decision_text v.decision;
        tool = v.tool;
        params_json = params_json;
        policy_rule = render v.policy_rule;
        state_trust = trust_name v.state_trust;
        binding_id = binding_id;
        request_hash = [];
        issued_at_ms = ms;
        nonce_hex = p.hex_encode nonce;
        signature_hex = [];
        attested_state_json = attested;
      } in
      let partial : GatewayReceipt = record unhashed {
        request_hash = expected_request_hash p c unhashed;
      } in
      elim (canonical_bytes p c partial) [
        | err e ↦ none
        | ok payload ↦ some (record partial { signature_hex = p.hex_encode (p.sign key payload) })
      ]

  -- `sign_receipt`, for a receipt whose parameters are left empty.
  unfoldable pub sign_receipt :
      (issued_at_ms : ℤ) (nonce : Bytes)
      → Verdict
      → (signing_key : Bytes) (attested_state_json : Option Text) → Option GatewayReceipt
  unfolding sign_receipt_with_params
  sign_receipt ms nonce v key attested = sign_receipt_with_params ms nonce v [] [] key attested
