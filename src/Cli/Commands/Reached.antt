-- ===== src/Cli/Commands/Reached.antt =====
-- crates/a2g-cli/src/main.rs: the ledger after runs of the commands that change it.
use a2g_cli.Base.{ℕ, ◌≡◌, Bool, true, Option, none, some, List, length}
use a2g_cli.Base.Text.{Text}
use a2g_cli.Error.{Message, Result, ok, err}
use a2g_cli.Platform.{Platform, Time}
use a2g_cli.Mandate.Types.{Bytes, Mandate}
use a2g_cli.Authority.Types.{AuthorityScope, Delegation}
use a2g_cli.Authority.Delegate.{Content}
use a2g_cli.Enforce.Types.{Params}
use a2g_cli.Proposal.Types.{Proposal, ReviewCall}
use a2g_cli.Cli.Ledger.Tables.{Ledger, empty_ledger}
use a2g_cli.Cli.Ledger.Record.{verify_ledger}
use a2g_cli.Cli.Ledger.Steps.{
  LedgerReach, stays, steps, records, revokes, revokes_delegation, logs, proposes,
  reach-verify_ledger,
}
use a2g_cli.Cli.Commands.Types.{Run, after}
use a2g_cli.Cli.Commands.Authority.{cmd_authority_root, cmd_delegate, cmd_revoke_delegation}
use a2g_cli.Cli.Commands.Govern.{cmd_revoke, cmd_propose, cmd_review}
use a2g_cli.Cli.Commands.Decide.{
  no_context, enforce_unless, with_context, EnforceArguments, AuthorityContext, decide_and_record,
  enforce_under, cmd_enforce,
}

-- What the commands take from other packages and from the files.
pub record Outside : Type 0 where
  pub platform : Platform
  pub render : Message → Text
  pub content_text : Content → Text
  pub resolve : Text → Result Text
  pub read_params : Text → Option Text → Option (Result Params)
  pub scope_text : AuthorityScope → Text
  pub bs58_decode : Text → Option Bytes
  pub parse_toml : Text → Option Mandate
  pub to_lowercase : Text → Text
  pub hours : ℕ → Option ℕ

module _ (o : Outside) where
  -- One run of a command that changes the ledger, whether it succeeds, fails or panics.
  pub data CommandStep : Ledger → Ledger → Type 0 where
    roots :
        (now : Time) (id logged : Text) (json : Bool) (key name : Text) (ttl : ℕ)
        (region environment tools : Text) (rate max_ttl mandates : ℕ) (db : Ledger)
        → CommandStep db
            (cmd_authority_root o.platform o.content_text o.hours now id logged json key name ttl
              region environment tools rate max_ttl mandates db).1
    delegates :
        (now : Time) (id logged : Text) (json : Bool) (parent : Delegation)
        (key grantee name level tools : Text) (ttl : ℕ) (db : Ledger)
        → CommandStep db
            (cmd_delegate o.platform o.content_text o.bs58_decode now id logged json parent key
              grantee name level tools ttl db).1
    revokes_chain :
        (now logged : Text) (json : Bool) (reason : Text) (d : Delegation) (db : Ledger)
        → CommandStep db
            (cmd_revoke_delegation o.platform o.content_text now logged json reason d db).1
    revokes_mandate :
        (now : Text) (json : Bool) (cbor : Bytes) (reason : Text) (db : Ledger)
        → CommandStep db (cmd_revoke o.platform now json cbor reason db).1
    proposes_mandate :
        (now : Time) (id logged : Text) (json : Bool) (proposer name body why : Text) (ttl : ℕ)
        (db : Ledger)
        → CommandStep db
            (cmd_propose o.platform o.bs58_decode o.parse_toml o.to_lowercase o.hours now id logged
              json proposer name body why ttl db).1
    reviews :
        (decision_lower logged : Text) (c : ReviewCall) (file : Proposal) (db : Ledger)
        → CommandStep db (cmd_review o.platform decision_lower logged c file db).1
    enforces :
        (a : EnforceArguments) (db : Ledger)
        → CommandStep db
            (cmd_enforce o.platform o.render o.resolve o.read_params o.scope_text a db).1

  pub data CommandReach (start : Ledger) : Ledger → Type 0 where
    idle : CommandReach start start
    runs : (db db' : Ledger) → CommandReach start db → CommandStep db db' → CommandReach start db'

  Reached : Ledger → Ledger → Type 0
  Reached = LedgerReach o.platform o.render

  after-Reached :
      {A B : Type 0} (start : Ledger) (x : Option (Result A)) (db : Ledger) (k : A → Run B)
      → Reached start db
      → ((a : A) → Reached start (k a).1)
      → Reached start (after x db k).1
  unfolding after
  after-Reached start none db k h g = h
  after-Reached start (some (err e)) db k h g = h
  after-Reached start (some (ok a)) db k h g = g a

  decide_and_record-Reached :
      (start : Ledger) (a : EnforceArguments) (params : Params) (x : AuthorityContext) (db : Ledger)
      → Reached start db
      → Reached start
          (decide_and_record o.platform o.render o.resolve o.read_params o.scope_text a params x
            db).1
  unfolding decide_and_record Reached
  decide_and_record-Reached start a params x db h = after-Reached start _ db _ h (λ v.
      let next = steps db _ h (
        records a.receipt_id a.recorded
          (with_context o.platform o.render o.resolve o.read_params o.scope_text a x v) db) in
      after-Reached start _ _ _ next (λ r. next))

  enforce_unless-Reached :
      (start : Ledger) (a : EnforceArguments) (params : Params) (ds : List Delegation)
      (revoked : Option Delegation) (db : Ledger)
      → Reached start db
      → Reached start
          (enforce_unless o.platform o.render o.resolve o.read_params o.scope_text a params ds
            revoked db).1
  unfolding enforce_unless
  enforce_unless-Reached start a params ds (some d) db h = h
  enforce_unless-Reached start a params ds none db h =
      after-Reached start _ db _ h (λ x. decide_and_record-Reached start a params x db h)

  enforce_under-Reached :
      (start : Ledger) (a : EnforceArguments) (params : Params) (ds : Option (List Delegation))
      (db : Ledger)
      → Reached start db
      → Reached start
          (enforce_under o.platform o.render o.resolve o.read_params o.scope_text a params ds db).1
  unfolding enforce_under
  enforce_under-Reached start a params none db h =
      decide_and_record-Reached start a params no_context db h
  enforce_under-Reached start a params (some ds) db h =
      enforce_unless-Reached start a params ds _ db h

  step-Reached : (start db db' : Ledger) → Reached start db → CommandStep db db' → Reached start db'
  unfolding Reached cmd_authority_root cmd_delegate cmd_revoke_delegation cmd_revoke cmd_propose
      cmd_review cmd_enforce
  step-Reached start first out h
        (roots now id logged json key name ttl region environment tools rate max_ttl mandates db) =
      after-Reached start _ db _ h (λ d. steps db _ h (logs _ _ _ _ _ _ _ _ db))
  step-Reached start first out h
        (delegates now id logged json parent key grantee name level tools ttl db) =
      after-Reached start _ db _ h (λ d. steps db _ h (logs _ _ _ _ _ _ _ _ db))
  step-Reached start first out h (revokes_chain now logged json reason d db) =
      let next = steps db _ h (revokes_delegation now d.grantor_did d.delegation_hash reason db) in
      after-Reached start _ _ _ next (λ u. steps _ _ next (logs _ _ _ _ _ _ _ _ _))
  step-Reached start first out h (revokes_mandate now json cbor reason db) =
      after-Reached start _ db _ h (λ parsed.
        let next = steps db _ h (revokes now _ _ _ reason db) in
        after-Reached start _ _ _ next (λ u. next))
  step-Reached start first out h
        (proposes_mandate now id logged json proposer name body why ttl db) =
      after-Reached start _ db _ h (λ prop.
        let told = steps db _ h (logs _ _ _ _ _ _ _ _ db) in
        let entered = steps _ _ told (proposes _ _) in
        after-Reached start _ _ _ entered (λ u. entered))
  step-Reached start first out h (reviews decision_lower logged c file db) =
      after-Reached start _ db _ h (λ review. steps db _ h (logs _ _ _ _ _ _ _ _ db))
  step-Reached start first out h (enforces a db) =
      after-Reached start _ db _ h
        (λ params. enforce_under-Reached start a params a.authority_chain db h)

  pub commands-Reached :
      (start db : Ledger) → CommandReach start db → LedgerReach o.platform o.render start db
  unfolding Reached
  commands-Reached start out idle = stays
  commands-Reached start last (runs mid out r s) =
      step-Reached start mid out (commands-Reached start mid r) s

  -- Whatever commands that change the ledger are run on a ledger that starts empty, failing and
  -- panicking ones included, its check finds the whole chain of its decisions sound.
  pub commands-verify_ledger :
      (db : Ledger) → CommandReach empty_ledger db → verify_ledger db ≡ (true, length db.decisions)
  commands-verify_ledger db r =
      reach-verify_ledger o.platform o.render db (commands-Reached empty_ledger db r)
