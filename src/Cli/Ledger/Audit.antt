-- ===== src/Cli/Ledger/Audit.antt =====
-- crates/a2g-cli/src/ledger.rs: the chain of a ledger holds whatever is done to it.
use mathlib.Core.Path.{subst}
use mathlib.Core.List.{append_assoc}
use a2g_cli.Base.{
  length-append, if◌then◌else◌, ℕ, suc, ◌-◌, ◌≡◌, refl, ◌↔◌, true, not, Option, none, some, List,
  [], ◌∷◌, ◌++◌, length, get_elem?, arith,
}
use a2g_cli.Base.Text.{Text, text_eq, text_eq_iff}
use a2g_cli.Authority.Chain.{genesis_hash}
use a2g_cli.Cli.Ledger.Tables.{Ledger, LedgerEntry}
use a2g_cli.Cli.Ledger.Record.{breaks_at, first_break, verify_entries, verify_ledger}

-- Each entry names the hash of the one before it, the first one the hash `prev`.
abbrev pub Linked : Text → List LedgerEntry → Type 0
Linked prev [] = Unit
Linked prev (e ∷ es) = (e.prev_hash ≡ prev) × Linked e.receipt_hash es

-- The same loop, read from the entry before the rest of the entries.
breaks_from : LedgerEntry → List LedgerEntry → ℕ → Option ℕ
breaks_from e [] i = none
breaks_from e (f ∷ fs) i =
    let rest = breaks_from f fs (suc i) in
    if text_eq f.prev_hash e.receipt_hash then rest else some i

get_elem?-middle :
    (before : List LedgerEntry) (e : LedgerEntry) (es : List LedgerEntry)
    → get_elem? (before ++ (e ∷ es)) (length before) ≡ some e
get_elem?-middle [] e es = refl
get_elem?-middle (b ∷ bs) e es = get_elem?-middle bs e es

get_elem?-next :
    (before : List LedgerEntry) (e f : LedgerEntry) (es : List LedgerEntry)
    → get_elem? (before ++ (e ∷ f ∷ es)) (suc (length before)) ≡ some f
get_elem?-next [] e f es = refl
get_elem?-next (b ∷ bs) e f es = get_elem?-next bs e f es

breaks_at-next :
    (before : List LedgerEntry) (e f : LedgerEntry) (es : List LedgerEntry)
    → breaks_at (before ++ (e ∷ f ∷ es)) (suc (length before))
      ≡ not (text_eq f.prev_hash e.receipt_hash)
unfolding breaks_at
breaks_at-next before e f es =
    let less : suc (length before) - 1 ≡ length before = omega arith in
    rw (get_elem?-next before e f es, less, get_elem?-middle before e (f ∷ es)) refl

first_break-from :
    (before : List LedgerEntry) (e : LedgerEntry) (es : List LedgerEntry)
    → first_break (before ++ (e ∷ es)) (length es) (suc (length before))
      ≡ breaks_from e es (suc (length before))
unfolding first_break breaks_from
first_break-from before e [] = refl
first_break-from before e (f ∷ fs) =
    let assoc : (before ++ (e ∷ [])) ++ (f ∷ fs) ≡ before ++ (e ∷ f ∷ fs) =
      append_assoc before (e ∷ []) (f ∷ fs) in
    let longer : length (before ++ (e ∷ [])) ≡ suc (length before) =
      ground (arith, length-append before (e ∷ [])) in
    let rest = first_break-from (before ++ (e ∷ [])) f fs in
    let rest' : first_break (before ++ (e ∷ f ∷ fs)) (length fs) (suc (suc (length before)))
        ≡ breaks_from f fs (suc (suc (length before))) =
      subst
        (λ n. first_break (before ++ (e ∷ f ∷ fs)) (length fs) (suc n) ≡ breaks_from f fs (suc n))
        longer
        (subst
          (λ es.
            first_break es (length fs) (suc (length (before ++ (e ∷ []))))
            ≡ breaks_from f fs (suc (length (before ++ (e ∷ [])))))
          assoc rest) in
    ground (arith, breaks_at-next before e f fs, rest')

Linked-break :
    (e : LedgerEntry) (es : List LedgerEntry) (i : ℕ)
    → (breaks_from e es i ≡ none) ↔ Linked e.receipt_hash es
unfolding breaks_from
Linked-break e [] i = (λ h. tt, λ h. refl)
Linked-break e (f ∷ fs) i =
    ground (arith, text_eq_iff f.prev_hash e.receipt_hash, Linked-break f fs (suc i))

verify_entries_iff :
    (es : List LedgerEntry) → (verify_entries es ≡ (true, length es)) ↔ Linked genesis_hash es
unfolding verify_entries
verify_entries_iff [] = (λ h. tt, λ h. refl)
verify_entries_iff (e ∷ es) =
    ground
      (arith, text_eq_iff e.prev_hash genesis_hash, first_break-from [] e es, Linked-break e es 1)

-- The check by index says that the whole ledger is sound exactly if the entries are linked from
-- the genesis hash.
pub verify_ledger_iff :
    (db : Ledger)
    → (verify_ledger db ≡ (true, length db.decisions)) ↔ Linked genesis_hash db.decisions
verify_ledger_iff db = verify_entries_iff db.decisions
