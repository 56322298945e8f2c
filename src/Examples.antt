-- ===== src/Examples.antt =====
-- Concrete data for the theorems: a platform by concrete functions, a mandate, a chain of two
-- delegations, a binding, and the gateway's state.
use a2g_cli.Base.{
  ℕ, ◌+◌, ◌/◌, Bool, true, false, Option, none, some, List, [], ◌∷◌, ◌++◌, take, replicate, length,
}
use a2g_cli.Base.Int.{pos}
use a2g_cli.Base.Text.{Text, codes, text_eq}
use a2g_cli.Platform.{Platform}
use a2g_cli.Mandate.Types.{Bytes, MandateTbs, CborMandate}
use a2g_cli.Hitl.Types.{PendingApprovalBinding, SignedBinding}
use a2g_cli.Vehicle.Types.{park}
use a2g_cli.Vehicle.Attest.{AttestedVehicleState}
use a2g_cli.Authority.Types.{
  root, department, default_scope, Delegation, Jurisdiction, AuthorityScope,
}
use a2g_cli.Authority.Chain.{genesis_hash}
use a2g_cli.Enforce.Types.{Params, noop_ledger, FreshIds}
use a2g_cli.Enforce.Trust.{TrustAnchor, self_sovereign}
use a2g_cli.Enforce.Decide.{Call}
use a2g_cli.Gateway.Types.{Codec, GatewayReceipt, GatewayKeys, GatewayState, Moment}
pub mod Deciding
pub mod Chains
pub mod Serving
pub mod Texts
pub mod Proposals
pub mod Ledgers
pub mod Proxies
pub mod Encoding
pub mod Signing
pub mod Handoffs
pub mod Commands
pub mod Summaries

abbrev pub key : Bytes
key = replicate 32 7

-- The first 64 bytes of the message, filled up.
abbrev toy_sign : Bytes → Bytes → Bytes
toy_sign k m = take 64 (m ++ replicate 64 0)

abbrev pub tbs : MandateTbs
tbs = record {
  tag = codes "MANDATE";
  agent_did = codes "did:a2g:agent";
  issuer_did = codes "did:a2g:" ++ key;
  agent_name = codes "agent";
  issued_at = codes "a";
  expires_at = replicate 20 b'x';
  proposal_hash = [];
  workspace_root = [];
  capabilities_hash = codes "play";
  tools = codes "play" ∷ [];
  fs_read = [];
  fs_write = [];
  fs_deny = [];
  net_allow = [];
  net_deny = [];
  cmd_allow = [];
  cmd_deny = [];
  max_calls_per_minute = 5;
  max_file_size_bytes = 0;
  max_output_tokens = 0;
  max_session_duration_sec = 0;
  deny_patterns = [];
  redact_patterns = [];
  max_output_length = 0;
  region = [];
  regulatory_framework = [];
  environment = [];
  classification = [];
  operating_hours = [];
  escalate_tools = [];
  escalate_paths = [];
  escalate_hosts = [];
  escalate_to = [];
}

abbrev pub envelope : Bytes → CborMandate
envelope bytes = record {
  tag = codes "MANDATE-V1";
  tbs = bytes;
  signature = toy_sign key bytes;
  issuer_pubkey = key;
}

-- Bytes stand for themselves in every encoding, a text of n characters is the instant n.
abbrev pub platform : Platform
platform = record {
  utf8 = λ t. t;
  sha256 = λ b. b;
  hex_encode = λ b. b;
  hex_decode = λ t. some t;
  bs58_encode = λ b. b;
  is_verifying_key = λ k. true;
  verify = λ k m s. text_eq s (toy_sign k m);
  sign = toy_sign;
  public_key = λ k. key;
  parse_time = λ t. some (length t);
  to_rfc3339 = λ n. replicate n b'x';
  format_hm = λ n. codes "12:00";
  hour = λ n. 12;
  minute = λ n. 0;
  unix_secs = λ n. n / 10;
  checked_add_secs = λ n s. some (n + s);
  decode_envelope = λ b. some (envelope b);
  decode_tbs = λ b. some tbs;
  encode_binding = λ b. some b.request_hash;
  encode_grant = λ g. some g.request_hash;
}

abbrev pub call : Text → Call
call tool = record {
  mandate_cbor = codes "cbor";
  tool = tool;
  params = record {
    path = none;
    url = none;
    command = none;
    vehicle_state = none;
    serialized = some (codes "{}");
    serialized_with = λ t. some (codes "{}");
  };
  ledger = noop_ledger;
  now = 7;
  verified_state = none;
  trust = self_sovereign;
  ids = record { verdict_id = codes "v"; binding_id = codes "b" };
  wall = 7;
}

abbrev pub binding : PendingApprovalBinding
binding = record {
  binding_id = codes "b1";
  request_hash = codes "hash";
  escalate_to = codes "operator";
  ttl_expires_at = 25;
}

abbrev jurisdiction : Jurisdiction
jurisdiction = record {
  region = [];
  regulatory_framework = [];
  environment = [];
  classification = [];
  operating_hours = [];
}

abbrev pub root_delegation : Delegation
root_delegation = record {
  delegation_id = codes "d0";
  grantor_did = codes "root";
  grantee_did = codes "root";
  grantee_name = codes "Root";
  level = root;
  scope = default_scope;
  jurisdiction = jurisdiction;
  delegated_at = [];
  expires_at = replicate 30 b'x';
  signature = toy_sign key (codes "h0");
  grantor_pubkey = key;
  parent_delegation_hash = genesis_hash;
  delegation_hash = codes "h0";
}

abbrev pub next_delegation : Delegation
next_delegation = record root_delegation {
  grantee_did = codes "dept";
  level = department;
  signature = toy_sign key (codes "h1");
  parent_delegation_hash = codes "h0";
  delegation_hash = codes "h1";
}

abbrev pub two_links : List Delegation
two_links = root_delegation ∷ next_delegation ∷ []

abbrev pub limited_scope : AuthorityScope
limited_scope = record {
  allowed_tools = codes "read" ∷ codes "play" ∷ [];
  max_ttl_hours = 24;
  fs_scope = [];
  net_scope = [];
  cmd_scope = [];
  max_rate_limit = 10;
  max_active_mandates = 0;
}
