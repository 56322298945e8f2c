-- ===== src/Mandate/Types.antt =====
-- crates/a2g-core/src/cbor.rs and mandate.rs: the records of a mandate.
use a2g_cli.Base.{ℕ, List}
use a2g_cli.Base.Text.{Text, codes}

abbrev pub Bytes : Type 0
Bytes = List ℕ

-- `MandateTbs`, the signed content of a mandate.
pub record MandateTbs : Type 0 where
  pub tag : Text
  pub agent_did : Text
  pub issuer_did : Text
  pub agent_name : Text
  pub issued_at : Text
  pub expires_at : Text
  pub proposal_hash : Text
  pub workspace_root : Text
  pub capabilities_hash : Bytes
  pub tools : List Text
  pub fs_read : List Text
  pub fs_write : List Text
  pub fs_deny : List Text
  pub net_allow : List Text
  pub net_deny : List Text
  pub cmd_allow : List Text
  pub cmd_deny : List Text
  pub max_calls_per_minute : ℕ
  pub max_file_size_bytes : ℕ
  pub max_output_tokens : ℕ
  pub max_session_duration_sec : ℕ
  pub deny_patterns : List Text
  pub redact_patterns : List Text
  pub max_output_length : ℕ
  pub region : Text
  pub regulatory_framework : Text
  pub environment : Text
  pub classification : Text
  pub operating_hours : Text
  pub escalate_tools : List Text
  pub escalate_paths : List Text
  pub escalate_hosts : List Text
  pub escalate_to : Text

-- `CborMandate`, the distribution envelope.
pub record CborMandate : Type 0 where
  pub tag : Text
  pub tbs : Bytes
  pub signature : Bytes
  pub issuer_pubkey : Bytes

pub record MandateHeader : Type 0 where
  pub version : Text
  pub agent_did : Text
  pub agent_name : Text
  pub issued_at : Text
  pub expires_at : Text
  pub issuer : Text
  pub proposal_hash : Text
  pub workspace_root : Text

pub record Capabilities : Type 0 where
  pub tools : List Text

pub record Boundaries : Type 0 where
  pub fs_read : List Text
  pub fs_write : List Text
  pub fs_deny : List Text
  pub net_allow : List Text
  pub net_deny : List Text
  pub cmd_allow : List Text
  pub cmd_deny : List Text

pub record Limits : Type 0 where
  pub max_calls_per_minute : ℕ
  pub max_file_size_bytes : ℕ
  pub max_output_tokens : ℕ
  pub max_session_duration_sec : ℕ

pub record OutputGovernance : Type 0 where
  pub deny_patterns : List Text
  pub redact_patterns : List Text
  pub max_output_length : ℕ

pub record MandateJurisdiction : Type 0 where
  pub region : Text
  pub regulatory_framework : Text
  pub environment : Text
  pub classification : Text
  pub operating_hours : Text

pub record EscalationRules : Type 0 where
  pub escalate_tools : List Text
  pub escalate_paths : List Text
  pub escalate_hosts : List Text
  pub escalate_to : Text

-- The field `signature` of the source is `None` in every mandate read from CBOR.
pub record Mandate : Type 0 where
  pub mandate : MandateHeader
  pub capabilities : Capabilities
  pub boundaries : Boundaries
  pub limits : Limits
  pub output_governance : OutputGovernance
  pub jurisdiction : MandateJurisdiction
  pub escalation : EscalationRules

unfoldable pub tbs_to_mandate : MandateTbs → Mandate
tbs_to_mandate t = record {
  mandate = record {
    version = codes "0.1.0";
    agent_did = t.agent_did;
    agent_name = t.agent_name;
    issued_at = t.issued_at;
    expires_at = t.expires_at;
    issuer = t.issuer_did;
    proposal_hash = t.proposal_hash;
    workspace_root = t.workspace_root;
  };
  capabilities = record { tools = t.tools };
  boundaries = record {
    fs_read = t.fs_read;
    fs_write = t.fs_write;
    fs_deny = t.fs_deny;
    net_allow = t.net_allow;
    net_deny = t.net_deny;
    cmd_allow = t.cmd_allow;
    cmd_deny = t.cmd_deny;
  };
  limits = record {
    max_calls_per_minute = t.max_calls_per_minute;
    max_file_size_bytes = t.max_file_size_bytes;
    max_output_tokens = t.max_output_tokens;
    max_session_duration_sec = t.max_session_duration_sec;
  };
  output_governance = record {
    deny_patterns = t.deny_patterns;
    redact_patterns = t.redact_patterns;
    max_output_length = t.max_output_length;
  };
  jurisdiction = record {
    region = t.region;
    regulatory_framework = t.regulatory_framework;
    environment = t.environment;
    classification = t.classification;
    operating_hours = t.operating_hours;
  };
  escalation = record {
    escalate_tools = t.escalate_tools;
    escalate_paths = t.escalate_paths;
    escalate_hosts = t.escalate_hosts;
    escalate_to = t.escalate_to;
  };
}
