-- ===== src/Cli/Ledger/Steps.antt =====
-- crates/a2g-cli/src/ledger.rs: the ledgers that the operations lead to, and the invariant of their
-- chain.
use mathlib.Core.Path.{subst⁻¹}
use a2g_cli.Base.{
  ap, ◌∙◌, ◌≡◌, refl, true, none, some, List, [], ◌∷◌, ◌++◌, length, last?, any, Bool-cases,
  unwrap_or, arith, ◌⊎◌, inl, inr,
}
use a2g_cli.Base.Text.{Text, text_eq, text_eq_iff}
use a2g_cli.Error.{A2gError, Message, ok, err}
use a2g_cli.Platform.{Platform, Time}
use a2g_cli.Authority.Chain.{genesis_hash}
use a2g_cli.Enforce.Types.{Verdict}
use a2g_cli.Receipt.Types.{Receipt}
use a2g_cli.Receipt.Chain.{generate_receipt}
use a2g_cli.Cli.Ledger.Tables.{
  Ledger, LedgerEntry, ProposalEntry, empty_ledger, revoke_mandate, revoke_delegation,
  log_authority_event, log_proposal,
}
use a2g_cli.Cli.Ledger.Record.{
  commit, last_receipt_hash, decision_row, insert_decision, append, enforce_and_record,
  verify_ledger,
}
use a2g_cli.Cli.Ledger.Audit.{Linked, verify_ledger_iff}

module _ (p : Platform) (render : Message → Text) where
  -- One operation on the ledger, whether it succeeds or not.
  pub data LedgerStep : Ledger → Ledger → Type 0 where
    records :
        (receipt_id : Text) (now : Time) (v : Verdict) (db : Ledger)
        → LedgerStep db (enforce_and_record p render receipt_id now v db).1
    appends : (v : Verdict) (r : Receipt) (db : Ledger) → LedgerStep db (append render v r db).1
    revokes :
        (now agent mandate revoked_by reason : Text) (db : Ledger)
        → LedgerStep db (revoke_mandate now agent mandate revoked_by reason db).1
    revokes_delegation :
        (now grantor delegation reason : Text) (db : Ledger)
        → LedgerStep db (revoke_delegation now grantor delegation reason db).1
    logs :
        (now event actor target action scope jurisdiction details : Text) (db : Ledger)
        → LedgerStep db
            (log_authority_event p now event actor target action scope jurisdiction details db)
    proposes : (e : ProposalEntry) (db : Ledger) → LedgerStep db (log_proposal e db).1

  -- A sequence of operations.
  pub data LedgerReach (start : Ledger) : Ledger → Type 0 where
    stays : LedgerReach start start
    steps : (db db' : Ledger) → LedgerReach start db → LedgerStep db db' → LedgerReach start db'

abbrev last_or : Text → List LedgerEntry → Text
last_or prev es = unwrap_or (elim (last? es) [ none ↦ none | some e ↦ some e.receipt_hash ]) prev

last_or-cons :
    (a b : Text) (e : LedgerEntry) (es : List LedgerEntry) → last_or a (e ∷ es) ≡ last_or b (e ∷ es)
last_or-cons a b e [] = refl
last_or-cons a b e (f ∷ fs) = last_or-cons a b f fs

Linked-push :
    (prev : Text) (es : List LedgerEntry) (e : LedgerEntry)
    → Linked prev es
    → e.prev_hash ≡ last_or prev es
    → Linked prev (es ++ (e ∷ []))
Linked-push prev [] e h l = (l, tt)
Linked-push prev (x ∷ []) e (a, h) l = (a, (l, tt))
Linked-push prev (x ∷ y ∷ ys) e (a, h) l =
    (a, Linked-push x.receipt_hash (y ∷ ys) e h (l ∙ last_or-cons prev x.receipt_hash y ys))

-- What one operation does to the decisions: nothing, or a row more that names the last hash.
abbrev Extends : List LedgerEntry → List LedgerEntry → Type 0
Extends es es' =
    (es' ≡ es)
    ⊎ (e : LedgerEntry) × (es' ≡ es ++ (e ∷ [])) × (e.prev_hash ≡ last_or genesis_hash es)

-- An `INSERT` fails on the id of a receipt that is there, or adds the row.
pub insert_decision-cases :
    (e : LedgerEntry) (db : Ledger)
    → ((fault : A2gError) × (insert_decision e db ≡ (err fault, db)))
      ⊎ (insert_decision e db ≡ (ok tt, record db { decisions = db.decisions ++ (e ∷ []) }))
unfolding insert_decision
insert_decision-cases e db =
    elim (Bool-cases (any (λ x. text_eq x.receipt_id e.receipt_id) db.decisions)) [
      | inl t ↦ rw t (inl (_, refl))
      | inr t ↦ rw t (inr refl)
    ]

Extends-Linked :
    (es es' : List LedgerEntry) → Extends es es' → Linked genesis_hash es → Linked genesis_hash es'
Extends-Linked es es' (inl e) h = subst⁻¹ (Linked genesis_hash) e h
Extends-Linked es es' (inr (x, e, l)) h =
    subst⁻¹ (Linked genesis_hash) e (Linked-push genesis_hash es x h l)

module _ (p : Platform) (render : Message → Text) where
  -- `enforce_and_record` fails and leaves the tables alone, or returns the receipt that names the
  -- last hash, and adds its row.
  pub records-cases :
      (id : Text) (now : Time) (v : Verdict) (db : Ledger)
      → let r = generate_receipt p render (last_receipt_hash db) id now v in
        let begun : Ledger = record db { last_hash = some r.receipt_hash } in
        ((fault : A2gError) × (enforce_and_record p render id now v db ≡ (err fault, begun)))
        ⊎ (enforce_and_record p render id now v db
            ≡ (ok r, record begun { decisions = db.decisions ++ (decision_row render v r ∷ []) }))
  unfolding enforce_and_record
  records-cases id now v db =
      let r = generate_receipt p render (last_receipt_hash db) id now v in
      let begun : Ledger = record db { last_hash = some r.receipt_hash } in
      elim (insert_decision-cases (decision_row render v r) begun) [
        | inl (fault, e) ↦ inl (fault, ap (commit r begun) e)
        | inr e ↦ inr (ap (commit r begun) e)
      ]

  records-Extends :
      (id : Text) (now : Time) (v : Verdict) (db : Ledger)
      → Extends db.decisions (enforce_and_record p render id now v db).1.decisions
  unfolding last_receipt_hash decision_row generate_receipt
  records-Extends id now v db = elim (records-cases id now v db) [
    | inl (fault, e) ↦ inl (ap (λ o. o.1.decisions) e)
    | inr e ↦ inr (_, ap (λ o. o.1.decisions) e, refl)
  ]

  appends-Extends :
      (v : Verdict) (r : Receipt) (db : Ledger)
      → Extends db.decisions (append render v r db).1.decisions
  unfolding append last_receipt_hash decision_row
  appends-Extends v r db =
      elim (Bool-cases (text_eq r.prev_hash (last_or genesis_hash db.decisions))) [
        | inl t ↦ elim (insert_decision-cases (decision_row render v r) db) [
          | inl (fault, e) ↦ inl (ground (arith, e))
          | inr e ↦
              inr (decision_row render v r, ground (arith, e), (text_eq_iff r.prev_hash _).0 t)
        ]
        | inr t ↦ inl (ground arith)
      ]

  step-Extends : (db db' : Ledger) → LedgerStep p render db db' → Extends db.decisions db'.decisions
  unfolding revoke_mandate revoke_delegation log_authority_event log_proposal
  step-Extends first out (records id now v db) = records-Extends id now v db
  step-Extends first out (appends v r db) = appends-Extends v r db
  step-Extends first out (revokes now agent mandate by why db) = inl (ground arith)
  step-Extends first out (revokes_delegation now grantor delegation why db) = inl (ground arith)
  step-Extends first out (logs now event actor target action scope place details db) = inl refl
  step-Extends first out (proposes e db) = inl (ground arith)

  reach-Linked :
      (db db' : Ledger)
      → LedgerReach p render db db'
      → Linked genesis_hash db.decisions
      → Linked genesis_hash db'.decisions
  reach-Linked db out stays h = h
  reach-Linked db last (steps mid out r s) h =
      Extends-Linked mid.decisions out.decisions (step-Extends mid out s) (reach-Linked db mid r h)

  -- The chain of a ledger that starts empty is sound in full after any sequence of operations,
  -- those that fail included: `verify_chain` answers that all its entries are good.
  pub reach-verify_ledger :
      (db : Ledger)
      → LedgerReach p render empty_ledger db
      → verify_ledger db ≡ (true, length db.decisions)
  reach-verify_ledger db r = (verify_ledger_iff db).1 (reach-Linked empty_ledger db r tt)
