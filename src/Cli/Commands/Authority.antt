-- ===== src/Cli/Commands/Authority.antt =====
-- crates/a2g-cli/src/main.rs: `cmd_authority_root`, `cmd_delegate` and `cmd_revoke_delegation`.
use Prim.Native.Nat.{min}
use a2g_cli.Base.{
  ℕ, ◌*◌, ◌/◌, ◌^◌, ◌-◌, Bool, Option, none, some, List, [], ◌∷◌, ◌++◌, if◌then◌else◌,
}
use a2g_cli.Base.Text.{Text, codes, text_eq, trim, join, decimal}
use a2g_cli.Error.{and_then, internal, format, text, end, Result, ◌>>=◌ as bind, ok_or}
use a2g_cli.Platform.{Platform, Time}
use a2g_cli.Mandate.Types.{Bytes}
use a2g_cli.Authority.Types.{
  AuthorityLevel, department, team, operator, level_name, AuthorityScope, Jurisdiction, Delegation,
}
use a2g_cli.Authority.Delegate.{Content, create_root_delegation, delegate}
use a2g_cli.Identity.{validate_did}
use a2g_cli.Cli.Sign.{validate_ttl}
use a2g_cli.Cli.Ledger.Tables.{Ledger, revoke_delegation, log_authority_event}
use a2g_cli.Cli.Commands.Types.{Run, after, prints, validate_name, tools_of}

abbrev pub default_tools : List Text
default_tools =
    codes "read_file"
    ∷ codes "write_file"
    ∷ codes "read"
    ∷ codes "write"
    ∷ codes "http_get"
    ∷ codes "http_post"
    ∷ codes "execute"
    ∷ []

-- `saturating_mul` on `u64`.
abbrev pub saturating_mul : ℕ → ℕ → ℕ
saturating_mul a b = min (a * b) (2 ^ 64 - 1)

-- The scope that `cmd_delegate` derives from the parent's.
unfoldable pub child_scope : (tools_str : Text) (ttl : ℕ) → AuthorityScope → AuthorityScope
unfolding tools_of
child_scope tools_str ttl parent = record {
  allowed_tools = tools_of tools_str parent.allowed_tools;
  max_ttl_hours = min ttl parent.max_ttl_hours;
  fs_scope = parent.fs_scope;
  net_scope = parent.net_scope;
  cmd_scope = parent.cmd_scope;
  max_rate_limit = saturating_mul parent.max_rate_limit 70 / 100;
  max_active_mandates = saturating_mul parent.max_active_mandates 50 / 100;
}

-- The level's text in lower case.
abbrev pub parse_level : Text → Option AuthorityLevel
parse_level t =
    if text_eq t (codes "department")
    then some department
    else if text_eq t (codes "team")
    then some team
    else if text_eq t (codes "operator")
    then some operator
    else none

module _ (p : Platform) (content_text : Content → Text) where
  abbrev pub log_delegation : (now event action details : Text) → Delegation → Ledger → Ledger
  log_delegation now event action details d db =
      log_authority_event p now event d.grantor_did d.grantee_did action d.delegation_hash
        d.jurisdiction.region details db

  abbrev pub root_scope :
      (tools_str : Text) (max_rate_limit max_ttl max_mandates : ℕ) → AuthorityScope
  root_scope tools_str max_rate_limit max_ttl max_mandates = record {
    allowed_tools = tools_of tools_str default_tools;
    max_ttl_hours = max_ttl;
    fs_scope = codes "**" ∷ [];
    net_scope = codes "*" ∷ [];
    cmd_scope = [];
    max_rate_limit = max_rate_limit;
    max_active_mandates = max_mandates;
  }

  abbrev pub root_jurisdiction : (region environment : Text) → Jurisdiction
  root_jurisdiction region environment = record {
    region = region;
    regulatory_framework = [];
    environment = environment;
    classification = codes "internal";
    operating_hours = [];
  }

  -- The argument checks of the command.
  abbrev pub root_arguments : (name : Text) (ttl_hours : ℕ) → Result (Unit {0})
  root_arguments name ttl_hours = bind (validate_name p name) (λ u. validate_ttl ttl_hours)

  -- The key's text is the contents of its file; `now` and `logged` are two readings of the clock.
  unfoldable pub cmd_authority_root :
      (hours : ℕ → Option ℕ) (now : Time) (delegation_id logged : Text) (json_output : Bool)
      (key_text name : Text) (ttl_hours : ℕ) (region environment tools_str : Text)
      (max_rate_limit max_ttl max_mandates : ℕ)
      → Ledger
      → Run Delegation
  unfolding create_root_delegation validate_ttl tools_of prints
  cmd_authority_root hours now id logged json_output key_text name ttl_hours region environment
        tools_str max_rate_limit max_ttl max_mandates db =
      after
        (and_then (some (root_arguments name ttl_hours)) (λ u.
          create_root_delegation p content_text hours now id (trim key_text) name
            (root_scope tools_str max_rate_limit max_ttl max_mandates)
            (root_jurisdiction region environment) ttl_hours))
        db
        (λ d. (
          prints json_output d.delegation_hash d,
          log_delegation logged (codes "root_delegation")
              (codes "create_root(level="
                ++ (level_name d.level ++ (codes ", ttl=" ++ (decimal ttl_hours ++ codes "h)"))))
              (codes "name=" ++ name) d db,
        ))

  abbrev pub delegate_arguments :
      (bs58_decode : Text → Option Bytes) (grantee grantee_name level_lower : Text) (ttl : ℕ)
      → Result AuthorityLevel
  delegate_arguments bs58_decode grantee grantee_name level_lower ttl =
      bind (validate_name p grantee_name) (λ a. bind (validate_did p bs58_decode grantee) (λ b.
        bind (validate_ttl ttl) (λ c. ok_or (parse_level level_lower) (
          internal (
            format "invalid authority level '{}': use department, team, or operator"
              (text level_lower end))))))

  unfoldable pub cmd_delegate :
      (bs58_decode : Text → Option Bytes) (now : Time) (delegation_id logged : Text)
      (json_output : Bool) (parent : Delegation)
      (key_text grantee grantee_name level_lower tools_str : Text) (ttl : ℕ)
      → Ledger
      → Run Delegation
  unfolding child_scope validate_ttl prints delegate
  cmd_delegate bs58_decode now id logged json_output parent key_text grantee grantee_name
        level_lower tools_str ttl db =
      after
        (some (
          bind (delegate_arguments bs58_decode grantee grantee_name level_lower ttl) (λ level.
            delegate p content_text now id (trim key_text) parent grantee grantee_name level
              (child_scope tools_str ttl parent.scope) parent.jurisdiction ttl)))
        db
        (λ d. (
          prints json_output d.delegation_hash d,
          log_delegation logged (codes "child_delegation")
              (codes "delegate(level="
                ++ (level_name d.level
                    ++ (codes ", ttl="
                        ++ (decimal ttl
                            ++ (codes "h, tools="
                                ++ (join (codes ",") d.scope.allowed_tools ++ codes ")"))))))
              (codes "grantee_name=" ++ grantee_name) d db,
        ))

  -- The ledger's event is logged once the revocation is inserted.
  unfoldable pub cmd_revoke_delegation :
      (now logged : Text) (json_output : Bool) (reason : Text)
      → Delegation
      → Ledger
      → Run (Unit {0})
  unfolding revoke_delegation prints
  cmd_revoke_delegation now logged json_output reason d db =
      let revoked = revoke_delegation now d.grantor_did d.delegation_hash reason db in
      after (some revoked.0) revoked.1 (λ u. (
        prints json_output d.delegation_hash tt,
        log_delegation logged (codes "delegation_revoked")
            (codes "revoke_delegation(reason=" ++ (reason ++ codes ")"))
            (codes "grantee_name=" ++ d.grantee_name) d revoked.1,
      ))
