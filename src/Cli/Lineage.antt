-- ===== src/Cli/Lineage.antt =====
-- crates/a2g-cli/src/lineage.rs: rebuilding where a decision came from.
use a2g_cli.Base.{
  ℕ, zero, suc, ◌+◌, ◌≤◌, ◌<◌, ◌≡◌, refl, Bool, true, false, Option, none, some, List, [], ◌∷◌,
  ◌++◌, is_empty, leb, if◌then◌else◌, Bool-cases, Option-cases, inl, inr, arith,
}
use a2g_cli.Base.Text.{Text, codes}
use a2g_cli.Error.{internal, format, number, text, end, Result, ok, err}
use a2g_cli.Cli.Ledger.Tables.{Ledger, LedgerEntry}
use a2g_cli.Cli.Ledger.Record.{query_decision_by_id}

-- The fields of `ExecutionLineage`, but for the parent.
pub record LineageFields : Type 0 where
  pub receipt_id : Text
  pub receipt_hash : Text
  pub decision : Text
  pub tool : Text
  pub agent_did : Text
  pub timestamp : Text
  pub policy_rule : Text
  pub mandate_hash : Text
  pub proposal_hash : Text
  pub delegation_chain_hash : Text
  pub issuer_did : Text
  pub authority_level : Text
  pub scope_hash : Text
  pub correlation_id : Text
  pub parent_receipt_hash : Text
  pub lineage_complete : Bool
  pub missing_fields : List Text

mutual
  pub data ExecutionLineage : Type 0 where
    lineage : LineageFields → ParentLineage → ExecutionLineage

  -- `parent_lineage`
  pub data ParentLineage : Type 0 where
    no_parent : ParentLineage
    parent : ExecutionLineage → ParentLineage

abbrev pub missing : Text → Text → List Text
missing field name = if is_empty field then name ∷ [] else []

unfoldable pub missing_fields : LedgerEntry → List Text
missing_fields e =
    missing e.mandate_hash (codes "mandate_hash")
    ++ (missing e.proposal_hash (codes "proposal_hash")
        ++ (missing e.issuer_did (codes "issuer_did")
            ++ (missing e.delegation_chain_hash (codes "delegation_chain_hash")
                ++ (missing e.authority_level (codes "authority_level")
                    ++ missing e.scope_hash (codes "scope_hash")))))

unfoldable pub lineage_fields : LedgerEntry → LineageFields
unfolding missing_fields
lineage_fields e = record {
  receipt_id = e.receipt_id;
  receipt_hash = e.receipt_hash;
  decision = e.decision;
  tool = e.tool;
  agent_did = e.agent_did;
  timestamp = e.timestamp;
  policy_rule = e.policy_rule;
  mandate_hash = e.mandate_hash;
  proposal_hash = e.proposal_hash;
  delegation_chain_hash = e.delegation_chain_hash;
  issuer_did = e.issuer_did;
  authority_level = e.authority_level;
  scope_hash = e.scope_hash;
  correlation_id = e.correlation_id;
  parent_receipt_hash = e.parent_receipt_hash;
  lineage_complete = is_empty (missing_fields e);
  missing_fields = missing_fields e;
}

-- A parent that fails to be rebuilt is left out.
abbrev pub found_parent : Result ExecutionLineage → ParentLineage
found_parent (ok l) = parent l
found_parent (err e) = no_parent

-- What becomes of an entry once its parent has been rebuilt, or ran out of fuel.
abbrev pub with_parent :
    LedgerEntry → Option (Result ExecutionLineage) → Option (Result ExecutionLineage)
with_parent e none = none
with_parent e (some found) = some (ok (lineage (lineage_fields e) (found_parent found)))

-- `reconstruct_recursive`; `none` says that the fuel has run out.
unfoldable pub reconstruct_recursive :
    (fuel : ℕ) (id : Text) (db : Ledger) (max_depth current_depth : ℕ)
    → Option (Result ExecutionLineage)
unfolding lineage_fields query_decision_by_id
reconstruct_recursive zero id db max_depth current_depth = none
reconstruct_recursive (suc fuel) id db max_depth current_depth =
    elim (leb max_depth current_depth) [
      | true ↦ some (
          err (
            internal (
              format "lineage reconstruction exceeded max depth of {} (possible circular reference)"
                (number max_depth end))))
      | false ↦ elim (query_decision_by_id id db) [
        | none ↦ some (err (internal (format "receipt '{}' not found in ledger" (text id end))))
        | some e ↦ elim (is_empty e.parent_receipt_hash) [
          | true ↦ some (ok (lineage (lineage_fields e) no_parent))
          | false ↦
              with_parent e
                (reconstruct_recursive fuel e.parent_receipt_hash db max_depth (suc current_depth))
        ]
      ]
    ]

unfoldable pub reconstruct_lineage :
    (fuel : ℕ) (id : Text) (db : Ledger) (max_depth : ℕ) → Option (Result ExecutionLineage)
unfolding reconstruct_recursive
reconstruct_lineage fuel id db max_depth = reconstruct_recursive fuel id db max_depth 0

mutual
  -- How many decisions a lineage runs through.
  pub generations : ExecutionLineage → ℕ
  generations (lineage fields p) = suc (parent_generations p)

  pub parent_generations : ParentLineage → ℕ
  parent_generations no_parent = 0
  parent_generations (parent l) = generations l

-- A lineage of at most `n` decisions, or an error.
abbrev pub Within : ℕ → Result ExecutionLineage → Type 0
Within n (ok l) = generations l ≤ n
Within n (err e) = Unit

found_parent-generations :
    (n : ℕ) (r : Result ExecutionLineage) → Within n r → parent_generations (found_parent r) ≤ n
unfolding parent_generations
found_parent-generations n (ok l) h = h
found_parent-generations n (err e) h = omega arith

reconstruct_recursive-returns :
    (fuel : ℕ) (id : Text) (db : Ledger) (max current left : ℕ)
    → current + left ≡ max
    → left < fuel
    → (r : Result ExecutionLineage) × (reconstruct_recursive fuel id db max current ≡ some r)
      × Within left r
unfolding reconstruct_recursive generations parent_generations
reconstruct_recursive-returns zero id db max current left e h =
    let none_left : ⊥ = omega (arith, h) in elim none_left [ ]
reconstruct_recursive-returns (suc fuel) id db max current zero e h =
    let over : leb max current ≡ true = ground (arith, e) in
    rw (reconstruct_recursive, over) (_, refl, tt)
reconstruct_recursive-returns (suc fuel) id db max current (suc left) e h =
    let under : leb max current ≡ false = ground (arith, e) in
    elim (Option-cases (query_decision_by_id id db)) [
      | inl q ↦ rw (reconstruct_recursive, under, q) (_, refl, tt)
      | inr (x, q) ↦ elim (Bool-cases (is_empty x.parent_receipt_hash)) [
        | inl b ↦ rw (reconstruct_recursive, under, q, b) (_, refl, omega arith)
        | inr b ↦
            let (r, k, w) =
              reconstruct_recursive-returns fuel x.parent_receipt_hash db max (suc current) left
                (omega (arith, e)) (omega (arith, h)) in
            rw (reconstruct_recursive, under, q, b, k)
              (_, refl, omega (arith, found_parent-generations left r w))
      ]
    ]

-- The reconstruction always ends: with more fuel than the maximal depth it returns an error or a
-- lineage, of at most as many decisions as the depth, even if the parents in the ledger are
-- circular.
pub reconstruct_lineage-returns :
    (fuel : ℕ) (id : Text) (db : Ledger) (max_depth : ℕ)
    → max_depth < fuel
    → (r : Result ExecutionLineage) × (reconstruct_lineage fuel id db max_depth ≡ some r)
      × Within max_depth r
unfolding reconstruct_lineage
reconstruct_lineage-returns fuel id db max_depth h =
    reconstruct_recursive-returns fuel id db max_depth 0 max_depth (omega arith) h
