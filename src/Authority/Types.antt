-- ===== src/Authority/Types.antt =====
-- crates/a2g-core/src/authority.rs: authority levels, scopes and delegations.
use a2g_cli.Base.{ℕ, List, [], Bool, leb}
use a2g_cli.Base.Text.{Text, codes}

pub data AuthorityLevel : Type 0 where
  root department team operator : AuthorityLevel

-- The derived order: the position of the constructor.
abbrev pub rank : AuthorityLevel → ℕ
rank root = 0
rank department = 1
rank team = 2
rank operator = 3

-- `a <= b`
abbrev pub level_le : AuthorityLevel → AuthorityLevel → Bool
level_le a b = leb (rank a) (rank b)

abbrev pub level_name : AuthorityLevel → Text
level_name root = codes "ROOT"
level_name department = codes "DEPARTMENT"
level_name team = codes "TEAM"
level_name operator = codes "OPERATOR"

-- An empty list and a limit of 0 mean "unrestricted".
pub record AuthorityScope : Type 0 where
  pub allowed_tools : List Text
  pub max_ttl_hours : ℕ
  pub fs_scope : List Text
  pub net_scope : List Text
  pub cmd_scope : List Text
  pub max_rate_limit : ℕ
  pub max_active_mandates : ℕ

pub record Jurisdiction : Type 0 where
  pub region : Text
  pub regulatory_framework : Text
  pub environment : Text
  pub classification : Text
  pub operating_hours : Text

pub record Delegation : Type 0 where
  pub delegation_id : Text
  pub grantor_did : Text
  pub grantee_did : Text
  pub grantee_name : Text
  pub level : AuthorityLevel
  pub scope : AuthorityScope
  pub jurisdiction : Jurisdiction
  pub delegated_at : Text
  pub expires_at : Text
  pub signature : Text
  pub grantor_pubkey : Text
  pub parent_delegation_hash : Text
  pub delegation_hash : Text

abbrev pub default_scope : AuthorityScope
default_scope = record {
  allowed_tools = [];
  max_ttl_hours = 0;
  fs_scope = [];
  net_scope = [];
  cmd_scope = [];
  max_rate_limit = 0;
  max_active_mandates = 0;
}
