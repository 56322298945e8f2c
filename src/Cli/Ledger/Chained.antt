-- ===== src/Cli/Ledger/Chained.antt =====
-- crates/a2g-cli/src/ledger.rs, crates/a2g-core/src/receipt.rs: the receipts that recording returns.
use mathlib.Core.Path.{subst, subst⁻¹}
use a2g_cli.Base.{
  ◌≡◌, refl, ap, true, Option, none, some, List, [], ◌∷◌, ◌++◌, All, last?, unwrap_or, inl, inr,
}
use a2g_cli.Base.Text.{Text}
use a2g_cli.Error.{Message, Result, ok, err}
use a2g_cli.Platform.{Platform, Time}
use a2g_cli.Authority.Chain.{genesis_hash}
use a2g_cli.Enforce.Types.{Verdict}
use a2g_cli.Receipt.Types.{Receipt}
use a2g_cli.Receipt.Chain.{generate_receipt, verify_receipt, verify_receipts}
use a2g_cli.Receipt.Sound.{ReceiptsLinked, verify_receipts_iff, verify_receipt-generate}
use a2g_cli.Cli.Ledger.Tables.{Ledger, LedgerEntry, empty_ledger}
use a2g_cli.Cli.Ledger.Record.{last_receipt_hash, decision_row, enforce_and_record}
use a2g_cli.Cli.Ledger.Steps.{records-cases}

-- The receipt of a call that succeeded, before those of the calls after it.
abbrev pub collect : Result Receipt → List Receipt → List Receipt
collect (err fault) rs = rs
collect (ok r) rs = r ∷ rs

-- What `enforce_and_record` is called with.
pub record Recording : Type 0 where
  pub receipt_id : Text
  pub now : Time
  pub verdict : Verdict

last?-push : (es : List LedgerEntry) (e : LedgerEntry) → last? (es ++ (e ∷ [])) ≡ some e
last?-push [] e = refl
last?-push (x ∷ []) e = refl
last?-push (x ∷ y ∷ ys) e = last?-push (y ∷ ys) e

module _ (p : Platform) (render : Message → Text) where
  -- The receipts that a sequence of recordings returns.
  unfoldable pub record_all : List Recording → Ledger → List Receipt
  unfolding enforce_and_record
  record_all [] db = []
  record_all (c ∷ cs) db =
      collect (enforce_and_record p render c.receipt_id c.now c.verdict db).0
        (record_all cs (enforce_and_record p render c.receipt_id c.now c.verdict db).1)

  abbrev Continues : Option Text → List Receipt → Type 0
  Continues last rs =
      ReceiptsLinked (unwrap_or last genesis_hash) rs × All (λ r. verify_receipt p r ≡ true) rs

  last_receipt_hash-push :
      (v : Verdict) (r : Receipt) (db : Ledger)
      → last_receipt_hash (record db { decisions = db.decisions ++ (decision_row render v r ∷ []) })
        ≡ some r.receipt_hash
  unfolding last_receipt_hash decision_row
  last_receipt_hash-push v r db =
      ap (λ o. elim o [ none ↦ none | some e ↦ some e.receipt_hash ])
        (last?-push db.decisions (decision_row render v r))

  record_all-after :
      (cs : List Recording) (v : Verdict) (r : Receipt) (db : Ledger)
      → let db' : Ledger = record db {
        decisions = db.decisions ++ (decision_row render v r ∷ []);
      } in
        Continues (last_receipt_hash db') (record_all cs db')
        → verify_receipt p r ≡ true
        → r.prev_hash ≡ unwrap_or (last_receipt_hash db) genesis_hash
        → Continues (last_receipt_hash db) (r ∷ record_all cs db')
  record_all-after cs v r db rest good l =
      let db' : Ledger = record db { decisions = db.decisions ++ (decision_row render v r ∷ []) } in
      let (linked, goods) =
        subst (λ o. Continues o (record_all cs db')) (last_receipt_hash-push v r db) rest in
      ((l, linked), (good, goods))

  record_all-Continues :
      (cs : List Recording) (db : Ledger) → Continues (last_receipt_hash db) (record_all cs db)
  unfolding record_all last_receipt_hash generate_receipt
  record_all-Continues [] db = (tt, tt)
  record_all-Continues (c ∷ cs) db =
      let r = generate_receipt p render (last_receipt_hash db) c.receipt_id c.now c.verdict in
      let begun : Ledger = record db { last_hash = some r.receipt_hash } in
      let goal : Result Receipt × Ledger → Type 0 =
        λ o. Continues (last_receipt_hash db) (collect o.0 (record_all cs o.1)) in
      elim (records-cases p render c.receipt_id c.now c.verdict db) [
        | inl (fault, e) ↦ subst⁻¹ goal e (record_all-Continues cs begun)
        | inr e ↦ subst⁻¹ goal e (
            record_all-after cs c.verdict r begun (record_all-Continues cs _)
              (verify_receipt-generate p render (last_receipt_hash db) c.receipt_id c.now c.verdict)
              refl)
      ]

  -- Whatever verdicts are recorded in an empty ledger, the receipts that the recordings return, less
  -- the recordings that fail, verify as a chain.
  pub verify_receipts-record_all :
      (cs : List Recording) → verify_receipts p (record_all cs empty_ledger) ≡ ok tt
  unfolding last_receipt_hash
  verify_receipts-record_all cs =
      (verify_receipts_iff p (record_all cs empty_ledger)).1 (record_all-Continues cs empty_ledger)
