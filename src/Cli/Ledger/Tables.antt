-- ===== src/Cli/Ledger/Tables.antt =====
-- crates/a2g-cli/src/ledger.rs: the ledger's tables. A table is the list of its rows by `seq`, the
-- oldest first; the `seq` of a row is its place. What SQLite does when a disk operation fails is not
-- modelled: it would leave the tables as they are and give an error.
use a2g_cli.Base.{
  ◌*◌, true, ℕ, ◌-◌, Bool, ◌&&◌, Option, none, some, List, [], ◌∷◌, ◌++◌, reverse, take, any, ltb,
  length, if◌then◌else◌,
}
use a2g_cli.Base.Text.{Text, codes, text_eq, text_lt, join}
use a2g_cli.Error.{say, ledger_error, Result, ok, err}
use a2g_cli.Platform.{Platform, Time}
use a2g_cli.Mandate.Verify.{digest_hex}
use a2g_cli.Enforce.Types.{EnforceLedger}

-- A row of `decisions`, and what `LedgerEntry` shows of it.
pub record LedgerEntry : Type 0 where
  pub receipt_id : Text
  pub verdict_id : Text
  pub agent_did : Text
  pub agent_name : Text
  pub tool : Text
  pub params_hash : Text
  pub decision : Text
  pub policy_rule : Text
  pub policy_hash : Text
  pub timestamp : Text
  pub prev_hash : Text
  pub receipt_hash : Text
  pub mandate_hash : Text
  pub proposal_hash : Text
  pub delegation_chain_hash : Text
  pub issuer_did : Text
  pub authority_level : Text
  pub scope_hash : Text
  pub correlation_id : Text
  pub parent_receipt_hash : Text
  pub state_trust : Text

-- A row of `revocations`.
pub record Revocation : Type 0 where
  pub agent_did : Text
  pub mandate_hash : Text
  pub revoked_by : Text
  pub reason : Text
  pub revoked_at : Text

-- A row of `authority_log`.
pub record AuthorityLogEntry : Type 0 where
  pub event_type : Text
  pub actor_did : Text
  pub target_did : Text
  pub action : Text
  pub scope_hash : Text
  pub jurisdiction : Text
  pub timestamp : Text
  pub details : Text
  pub event_hash : Text

-- A row of `proposal_history`.
pub record ProposalEntry : Type 0 where
  pub proposal_id : Text
  pub proposer_did : Text
  pub mandate_hash : Text
  pub proposal_hash : Text
  pub status : Text
  pub risk_level : Text
  pub required_approvals : ℕ
  pub created_at : Text

-- The tables, and receipt.rs's `PREV_HASH` of the process.
pub record Ledger : Type 0 where
  pub decisions : List LedgerEntry
  pub revocations : List Revocation
  pub authority_log : List AuthorityLogEntry
  pub proposal_history : List ProposalEntry
  pub last_hash : Option Text

-- `Ledger::open` on a new file.
abbrev pub empty_ledger : Ledger
empty_ledger = record {
  decisions = [];
  revocations = [];
  authority_log = [];
  proposal_history = [];
  last_hash = none;
}

-- The rows that a `WHERE` clause keeps.
unfoldable pub where_rows {ℓ} : {A : Type ℓ} → (A → Bool) → List A → List A
where_rows f [] = []
where_rows f (x ∷ xs) = let rest = where_rows f xs in if f x then x ∷ rest else rest

abbrev pub count_rows {ℓ} : {A : Type ℓ} → (A → Bool) → List A → ℕ
count_rows f rows = length (where_rows f rows)

-- ` AND column = ?`, if there is a filter.
abbrev pub filter_is : Option Text → Text → Bool
filter_is none t = true
filter_is (some f) t = text_eq t f

-- `INSERT` into `revocations`, with its unique pair of agent and mandate.
abbrev pub has_revocation : Text → Text → Ledger → Bool
has_revocation agent mandate db =
    any (λ r. text_eq r.agent_did agent && text_eq r.mandate_hash mandate) db.revocations

abbrev pub insert_revocation : Revocation → Ledger → Ledger
insert_revocation r db = record db { revocations = db.revocations ++ (r ∷ []) }

-- `is_revoked`, which counts the rows.
unfoldable pub is_revoked : Text → Text → Ledger → Bool
unfolding where_rows
is_revoked agent mandate db =
    ltb 0
      (count_rows (λ r. text_eq r.agent_did agent && text_eq r.mandate_hash mandate) db.revocations)

-- `is_delegation_revoked`
unfoldable pub is_delegation_revoked : Text → Ledger → Bool
unfolding where_rows
is_delegation_revoked delegation db =
    ltb 0 (count_rows (λ r. text_eq r.mandate_hash delegation) db.revocations)

-- `revoke_mandate`: `INSERT OR IGNORE`.
unfoldable pub revoke_mandate :
    (now agent mandate revoked_by reason : Text) → Ledger → Result (Unit {0}) × Ledger
revoke_mandate now agent mandate revoked_by reason db = (
  ok tt,
  (if has_revocation agent mandate db
      then db
      else insert_revocation
          (record {
            agent_did = agent;
            mandate_hash = mandate;
            revoked_by = revoked_by;
            reason = reason;
            revoked_at = now;
          })
          db),
)

-- `revoke_delegation`: a plain `INSERT`, which fails on a pair that is there.
unfoldable pub revoke_delegation :
    (now grantor delegation reason : Text) → Ledger → Result (Unit {0}) × Ledger
revoke_delegation now grantor delegation reason db =
    if has_revocation grantor delegation db
    then (
      err (
          ledger_error
            (say "UNIQUE constraint failed: revocations.agent_did, revocations.mandate_hash")),
      db,
    )
    else (
      ok tt,
      insert_revocation
          (record {
            agent_did = grantor;
            mandate_hash = delegation;
            revoked_by = grantor;
            reason = reason;
            revoked_at = now;
          })
          db,
    )

-- `log_authority_event`
unfoldable pub log_authority_event :
    Platform
    → (now event_type actor target action scope_hash jurisdiction details : Text) → Ledger
    → Ledger
log_authority_event p now event_type actor target action scope_hash jurisdiction details db =
    record db {
      authority_log =
          db.authority_log
          ++ (record {
            event_type = event_type;
            actor_did = actor;
            target_did = target;
            action = action;
            scope_hash = scope_hash;
            jurisdiction = jurisdiction;
            timestamp = now;
            details = details;
            event_hash = digest_hex p (
                p.utf8 (
                  join (codes ":") (
                    event_type ∷ actor ∷ target ∷ action ∷ scope_hash ∷ jurisdiction ∷ now ∷ details
                    ∷ [])));
          }
              ∷ []);
    }

-- `query_authority_log`: the newest first.
unfoldable pub query_authority_log :
    (event_type actor : Option Text) → ℕ → Ledger → List AuthorityLogEntry
unfolding where_rows
query_authority_log event_type actor limit db = take limit (
    reverse (
      where_rows (λ e. filter_is event_type e.event_type && filter_is actor e.actor_did)
        db.authority_log))

-- `log_proposal`, with the unique id of a proposal.
unfoldable pub log_proposal : ProposalEntry → Ledger → Result (Unit {0}) × Ledger
log_proposal e db =
    if any (λ x. text_eq x.proposal_id e.proposal_id) db.proposal_history
    then (err (ledger_error (say "UNIQUE constraint failed: proposal_history.proposal_id")), db)
    else (ok tt, record db { proposal_history = db.proposal_history ++ (e ∷ []) })

-- `count_recent`, where `cutoff` is the text of the instant so many seconds ago.
unfoldable pub count_recent : (agent cutoff : Text) → Ledger → ℕ
unfolding where_rows
count_recent agent cutoff db =
    count_rows (λ e. text_eq e.agent_did agent && text_lt cutoff e.timestamp) db.decisions

-- The ledger as the policy engine reads it at the instant `now`, an instant that the time window
-- reaches back from.
unfoldable pub enforce_ledger : Platform → Time → Ledger → EnforceLedger
unfolding is_revoked count_recent
enforce_ledger p now db = record {
  is_revoked = λ agent mandate. ok (is_revoked agent mandate db);
  count_recent = λ agent secs. ok (count_recent agent (p.to_rfc3339 (now - secs * 1000000000)) db);
}
