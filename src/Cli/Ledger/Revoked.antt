-- ===== src/Cli/Ledger/Revoked.antt =====
-- crates/a2g-cli/src/ledger.rs, crates/a2g-core/src/enforce.rs: what a revocation does to all later
-- decisions.
use a2g_cli.Enforce.Allow.Conditions.{IsPermitted}
use a2g_cli.Enforce.Decision.{Allows, decide-allow_iff, decide_with_approval-verify_iff}
use a2g_cli.Enforce.Approval.{decide_with_approval}
use a2g_cli.Enforce.Decide.{decide}
use a2g_cli.Enforce.Decision.{Allows}
use a2g_cli.Hitl.Types.{ApprovalGrant, PendingApprovalBinding}
use a2g_cli.Enforce.Decide.{decide, prepare, Call}
use a2g_cli.Base.{
  sym, ◌∙◌, ap, Bool-cases, ◌≡◌, refl, Bool, true, false, ◌&&◌, List, [], ◌∷◌, ◌++◌, length, any,
  ltb, arith, inl, inr,
}
use a2g_cli.Base.Text.{Text, text_eq, text_eq_refl}
use a2g_cli.Error.{Message, ok}
use a2g_cli.Platform.{Platform, Time}
use a2g_cli.Enforce.Types.{Request}
use a2g_cli.Cli.Ledger.Tables.{
  insert_revocation, Ledger, Revocation, where_rows, is_revoked, has_revocation, revoke_mandate,
  revoke_delegation, log_authority_event, log_proposal, enforce_ledger,
}
use a2g_cli.Cli.Ledger.Record.{decision_row, append}
use a2g_cli.Cli.Ledger.Steps.{
  LedgerStep, records, appends, revokes, revokes_delegation, logs, proposes, LedgerReach, stays,
  steps, records-cases, insert_decision-cases,
}

-- `COUNT(*) > 0` and the search for the unique key agree.
is_revoked-any :
    (f : Revocation → Bool) (rs : List Revocation) → ltb 0 (length (where_rows f rs)) ≡ any f rs
unfolding where_rows
is_revoked-any f [] = refl
is_revoked-any f (r ∷ rs) = ground (arith, is_revoked-any f rs)

any-last :
    (f : Revocation → Bool) (rs : List Revocation) (r : Revocation)
    → f r ≡ true
    → any f (rs ++ (r ∷ [])) ≡ true
any-last f [] r h = ground arith
any-last f (x ∷ rs) r h = ground (arith, any-last f rs r h)

any-append :
    (f : Revocation → Bool) (rs ss : List Revocation) → any f rs ≡ true → any f (rs ++ ss) ≡ true
any-append f [] ss h = cc
any-append f (r ∷ rs) ss h = ground (arith, any-append f rs ss)

insert_revocation-keeps :
    (agent mandate : Text) (r : Revocation) (db : Ledger)
    → has_revocation agent mandate db ≡ true
    → has_revocation agent mandate (insert_revocation r db) ≡ true
insert_revocation-keeps agent mandate r db h =
    any-append (λ x. text_eq x.agent_did agent && text_eq x.mandate_hash mandate) db.revocations
      (r ∷ []) h

insert_revocation-adds :
    (agent mandate by why now : Text) (db : Ledger)
    → has_revocation agent mandate (
        insert_revocation
          (record {
            agent_did = agent;
            mandate_hash = mandate;
            revoked_by = by;
            reason = why;
            revoked_at = now;
          })
          db)
      ≡ true
insert_revocation-adds agent mandate by why now db =
    any-last _ db.revocations _ (rw (text_eq_refl agent, text_eq_refl mandate) refl)

revoke_mandate-revokes :
    (now agent mandate by why : Text) (db : Ledger)
    → has_revocation agent mandate (revoke_mandate now agent mandate by why db).1 ≡ true
unfolding revoke_mandate
revoke_mandate-revokes now agent mandate by why db =
    let added = insert_revocation-adds agent mandate by why now db in
    elim (Bool-cases (has_revocation agent mandate db)) [ inl t ↦ rw t t | inr t ↦ rw t added ]

module _ (p : Platform) (render : Message → Text) (agent mandate : Text) where
  step-keeps :
      (db db' : Ledger)
      → LedgerStep p render db db'
      → has_revocation agent mandate db ≡ true
      → has_revocation agent mandate db' ≡ true
  unfolding revoke_mandate revoke_delegation log_authority_event log_proposal append
  step-keeps first out (records id now v db) h = elim (records-cases p render id now v db) [
    | inl (fault, e) ↦ ap (λ o. has_revocation agent mandate o.1) e ∙ h
    | inr e ↦ ap (λ o. has_revocation agent mandate o.1) e ∙ h
  ]
  step-keeps first out (appends v r db) h =
      let same : (append render v r db).1.revocations ≡ db.revocations =
        elim (insert_decision-cases (decision_row render v r) db) [
          | inl (fault, e) ↦ ground (arith, e)
          | inr e ↦ ground (arith, e)
        ] in
      ap (any (λ x. text_eq x.agent_did agent && text_eq x.mandate_hash mandate)) same ∙ h
  step-keeps first out (revokes now a m by why db) h =
      let kept = insert_revocation-keeps agent mandate _ db h in
      elim (Bool-cases (has_revocation a m db)) [ inl t ↦ rw t h | inr t ↦ rw t kept ]
  step-keeps first out (revokes_delegation now grantor delegation why db) h =
      let kept = insert_revocation-keeps agent mandate _ db h in
      elim (Bool-cases (has_revocation grantor delegation db)) [
        | inl t ↦ rw t h
        | inr t ↦ rw t kept
      ]
  step-keeps first out (logs now event actor target action scope place details db) h = h
  step-keeps first out (proposes e db) h =
      let same : (log_proposal e db).1.revocations ≡ db.revocations = ground arith in
      ap (any (λ x. text_eq x.agent_did agent && text_eq x.mandate_hash mandate)) same ∙ h

  reach-keeps :
      (db db' : Ledger)
      → LedgerReach p render db db'
      → has_revocation agent mandate db ≡ true
      → has_revocation agent mandate db' ≡ true
  reach-keeps db out stays h = h
  reach-keeps db last (steps mid out r s) h = step-keeps mid out s (reach-keeps db mid r h)

  -- Once a mandate is revoked for an agent, it stays revoked after every sequence of operations.
  pub revoke_mandate-permanent :
      (now by why : Text) (db db' : Ledger)
      → LedgerReach p render (revoke_mandate now agent mandate by why db).1 db'
      → is_revoked agent mandate db' ≡ true
  unfolding is_revoked
  revoke_mandate-permanent now by why db db' r =
      is_revoked-any _ db'.revocations
      ∙ reach-keeps _ db' r (revoke_mandate-revokes now agent mandate by why db)

-- A revoked mandate is never permitted again.
pub revoked-not-IsPermitted :
    (p : Platform) (render : Message → Text) (c : Call) (req : Request) (at by why : Text)
    (clock : Time) (db db' : Ledger) (skip : Bool)
    → LedgerReach p render
        (revoke_mandate at req.m.mandate.agent_did req.mandate_hash by why db).1
        db'
    → c.ledger ≡ enforce_ledger p clock db'
    → ¬ (IsPermitted req p c.wall c.trust c.ledger skip)
unfolding enforce_ledger
revoked-not-IsPermitted p render c req at by why clock db db' skip r l h =
    let gone =
      revoke_mandate-permanent p render req.m.mandate.agent_did req.mandate_hash at by why db db'
        r in
    let asked = ap (λ x. x.is_revoked req.m.mandate.agent_did req.mandate_hash) l in
    let clash : ok true ≡ ok false = ap ok (sym gone) ∙ (sym asked ∙ h.not_revoked) in cc

-- After a mandate has been revoked, no decision that reads a later state of the ledger allows a call
-- under it, with or without a human's approval.
pub revoked-denied :
    (p : Platform) (render : Message → Text) (c : Call) (req : Request)
    (pending : PendingApprovalBinding) (grant : ApprovalGrant) (at by why : Text) (clock : Time)
    (db db' : Ledger)
    → prepare p c ≡ ok req
    → LedgerReach p render
        (revoke_mandate at req.m.mandate.agent_did req.mandate_hash by why db).1
        db'
    → c.ledger ≡ enforce_ledger p clock db'
    → (¬ (Allows (decide p c))) × (¬ (Allows (decide_with_approval p pending grant c)))
revoked-denied p render c req pending grant at by why clock db db' e r l = (
  λ a.
      revoked-not-IsPermitted p render c req at by why clock db db' false r l
        ((decide-allow_iff p c e).0 a),
  λ a.
      revoked-not-IsPermitted p render c req at by why clock db db' true r l
        ((decide_with_approval-verify_iff p c e pending grant).0 a).4,
)
