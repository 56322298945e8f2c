-- ===== src/Cli/Commands/Decide.antt =====
-- crates/a2g-cli/src/main.rs: `cmd_enforce`.
use a2g_cli.Base.{
  ℕ, ◌==◌, Bool, true, false, Option, none, some, List, [], ◌∷◌, map, leb, length, unwrap_or, last?,
  find_first, if◌then◌else◌,
}
use a2g_cli.Base.Text.{Text, codes, join, slice_to}
use a2g_cli.Error.{
  Message, and_then, hex_decode_error, internal, say, Result, ok, ensure, ◌>>=◌ as bind, ok_or,
}
use a2g_cli.Platform.{Platform, Time}
use a2g_cli.Mandate.Types.{Bytes}
use a2g_cli.Mandate.Verify.{digest_hex}
use a2g_cli.Authority.Types.{AuthorityScope, Delegation, level_name}
use a2g_cli.Authority.Chain.{verify_chain}
use a2g_cli.Enforce.Types.{
  Decision, allow, deny, expired, pending_approval, Params, Verdict, FreshIds,
}
use a2g_cli.Enforce.Trust.{TrustAnchor, self_sovereign, chain}
use a2g_cli.Enforce.Decide.{Call, enforce}
use a2g_cli.Receipt.Types.{Receipt}
use a2g_cli.Cli.Ledger.Tables.{Ledger, is_delegation_revoked, enforce_ledger}
use a2g_cli.Cli.Ledger.Record.{enforce_and_record}
use a2g_cli.Cli.Commands.Types.{Run, after}

-- The arguments of the command, with the files' contents, the readings of the clock and the ids
-- that it draws; `correlation` and `parent` are the optional links.
pub record EnforceArguments : Type 0 where
  pub mandate_cbor : Bytes
  pub tool : Text
  pub params_json : Text
  pub vehicle_state : Option Text
  pub authority_chain : Option (List Delegation)
  pub correlation : Option Text
  pub parent : Option Text
  pub json_output : Bool
  pub now : Time
  pub wall : Time
  pub trust_checked : Time
  pub recorded : Time
  pub ids : FreshIds
  pub receipt_id : Text

-- What a verified chain adds to a verdict.
pub record AuthorityContext : Type 0 where
  pub delegation_chain_hash : Text
  pub issuer_did : Text
  pub authority_level : Text
  pub scope_hash : Text
  pub trust : TrustAnchor

abbrev pub no_context : AuthorityContext
no_context = record {
  delegation_chain_hash = [];
  issuer_did = [];
  authority_level = [];
  scope_hash = [];
  trust = self_sovereign;
}

abbrev pub exit_code : Decision → ℕ
exit_code allow = 0
exit_code deny = 1
exit_code expired = 1
exit_code pending_approval = 2

-- The answer of the command: the exit code, and the recorded receipt if there is one.
abbrev pub Exit : Type 0
Exit = ℕ × Option Receipt

-- `read_params` reads the two JSON texts and sets the one under `vehicle_state` in the other; `none`
-- is its panic. `scope_text` is the derived `Debug` of a scope, `resolve` the file system.
module _ (p : Platform) (render : Message → Text) (resolve : Text → Result Text)
    (read_params : Text → Option Text → Option (Result Params))
    (scope_text : AuthorityScope → Text) where
  unfoldable pub params_of : EnforceArguments → Option (Result Params)
  params_of a =
      and_then
        (some (
          ensure (leb (length (p.utf8 a.params_json)) 1048576)
            (internal (say "params JSON exceeds maximum size of 1MB"))))
        (λ u. read_params a.params_json a.vehicle_state)

  abbrev pub is_revoked_in : Ledger → Delegation → Bool
  is_revoked_in db d = is_delegation_revoked d.delegation_hash db

  -- The exit on a revoked delegation, with the slice that is printed.
  unfoldable pub exit_revoked : (json_output : Bool) → Delegation → Option (Result Exit)
  unfolding slice_to
  exit_revoked true d = some (ok (1, none))
  exit_revoked false d = elim (slice_to 16 d.delegation_hash) [
    | none ↦ none
    | some t ↦ some (ok (1, none))
  ]

  abbrev pub anchor_of : Bytes → List Delegation → TrustAnchor
  anchor_of key ds = if length key == 32 then chain (key ∷ []) ds else self_sovereign

  -- The key of the first delegation, and the trust anchor that has it as its one root.
  abbrev pub chain_anchor : List Delegation → Result TrustAnchor
  chain_anchor [] = ok self_sovereign
  chain_anchor (d ∷ ds) =
      bind (ok_or (p.hex_decode d.grantor_pubkey) hex_decode_error)
        (λ key. ok (anchor_of key (d ∷ ds)))

  unfoldable pub context_of : (wall : Time) → List Delegation → Result AuthorityContext
  unfolding verify_chain
  context_of wall ds = bind (verify_chain p wall ds) (λ validation. bind (chain_anchor ds) (λ trust.
      bind (ok_or (last? ds) (internal (say "authority chain is empty"))) (λ leaf. ok (record {
        delegation_chain_hash =
            digest_hex p (p.utf8 (join (codes ":") (map (λ d. d.delegation_hash) ds)));
        issuer_did = leaf.grantor_did;
        authority_level = level_name leaf.level;
        scope_hash = digest_hex p (p.utf8 (scope_text validation.effective_scope));
        trust = trust;
      }))))

  abbrev pub call_for : EnforceArguments → Params → TrustAnchor → Ledger → Call
  call_for a params trust db = record {
    mandate_cbor = a.mandate_cbor;
    tool = a.tool;
    params = params;
    ledger = enforce_ledger p a.now db;
    now = a.now;
    verified_state = none;
    trust = trust;
    ids = a.ids;
    wall = a.trust_checked;
  }

  abbrev pub with_context : EnforceArguments → AuthorityContext → Verdict → Verdict
  with_context a x v = record v {
    delegation_chain_hash = x.delegation_chain_hash;
    issuer_did = x.issuer_did;
    authority_level = x.authority_level;
    scope_hash = x.scope_hash;
    correlation_id = unwrap_or a.correlation v.correlation_id;
    parent_receipt_hash = unwrap_or a.parent v.parent_receipt_hash;
  }

  -- Decides, records, and exits by the decision.
  unfoldable pub decide_and_record :
      EnforceArguments → Params → AuthorityContext → Ledger → Run Exit
  unfolding enforce enforce_ledger enforce_and_record
  decide_and_record a params x db =
      after (some (enforce p resolve (call_for a params x.trust db))) db (λ v.
        let recorded =
          enforce_and_record p render a.receipt_id a.recorded (with_context a x v) db in
        after (some recorded.0) recorded.1
          (λ r. (some (ok (exit_code v.decision, some r)), recorded.1)))

  -- With the first revoked delegation of the chain, if there is one.
  unfoldable pub enforce_unless :
      EnforceArguments → Params → List Delegation → Option Delegation → Ledger → Run Exit
  unfolding decide_and_record exit_revoked context_of
  enforce_unless a params ds (some d) db = (exit_revoked a.json_output d, db)
  enforce_unless a params ds none db =
      after (some (context_of a.wall ds)) db (λ x. decide_and_record a params x db)

  unfoldable pub enforce_under :
      EnforceArguments → Params → Option (List Delegation) → Ledger → Run Exit
  unfolding decide_and_record enforce_unless
  enforce_under a params none db = decide_and_record a params no_context db
  enforce_under a params (some ds) db =
      enforce_unless a params ds (find_first (is_revoked_in db) ds) db

  unfoldable pub cmd_enforce : EnforceArguments → Ledger → Run Exit
  unfolding params_of enforce_under
  cmd_enforce a db = after (params_of a) db (λ params. enforce_under a params a.authority_chain db)
