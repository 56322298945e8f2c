-- ===== src/Cli/Summary/Counted.antt =====
-- What `compress_window` counts, and when it says that the chain is intact.
use a2g_cli.Cli.Summary.Binds.{cons-injective}
use a2g_cli.Base.{
  ◌∙◌, sym, ap, Bool, ℕ, suc, ◌+◌, ◌<◌, ◌≡◌, refl, ◌↔◌, true, some, List, [], ◌∷◌, length, arith,
  Bool-cases, inl, inr,
}
use a2g_cli.Base.Text.{Text, text_eq, text_eq_iff}
use mathlib.Core.Path.{subst}
use a2g_cli.Error.{ok}
use a2g_cli.Platform.{Platform}
use a2g_cli.Cli.Ledger.Tables.{Ledger, LedgerEntry, where_rows, count_rows}
use a2g_cli.Cli.Ledger.Record.{query_window, within_window}
use a2g_cli.Cli.Ledger.Audit.{Linked}
use a2g_cli.Cli.Summary.Tally.{count_of, sum_counts, sum_counts-count_key}
use a2g_cli.Cli.Summary.Ordered.{IsOrdered, count_key-IsOrdered, count_of-count_key}
use a2g_cli.Cli.Summary.Window.{
  Row, Progress, at_start, numbered, window_rows, count_entry, count_entries, TrustSummaryData,
  compress_rows, compress_window, summary_data,
}

entries : List Row → List LedgerEntry
entries [] = []
entries ((seq, e) ∷ rows) = e ∷ entries rows

-- The number of decisions of a kind.
unfoldable pub decided : Text → List LedgerEntry → ℕ
unfolding where_rows
decided t es = count_rows (λ e. text_eq e.decision t) es

module _ (t : Text) where
  count_of-count_entries :
      (s : Progress) (rows : List Row)
      → IsOrdered s.decision_counts
      → count_of t (count_entries s rows).decision_counts
        ≡ count_of t s.decision_counts + decided t (entries rows)
  unfolding count_entries count_entry decided where_rows entries
  count_of-count_entries s [] o = omega arith
  count_of-count_entries s ((seq, e) ∷ rows) o =
      let later =
        count_of-count_entries (count_entry s (seq, e)) rows
          (count_key-IsOrdered e.decision s.decision_counts o) in
      let here = count_of-count_key t e.decision s.decision_counts o in ground (arith, later, here)

sum_counts-count_entries :
    (s : Progress) (rows : List Row)
    → sum_counts (count_entries s rows).decision_counts ≡ sum_counts s.decision_counts + length rows
unfolding count_entries count_entry
sum_counts-count_entries s [] = omega arith
sum_counts-count_entries s ((seq, e) ∷ rows) = omega (
  arith,
  sum_counts-count_entries (count_entry s (seq, e)) rows,
  sum_counts-count_key e.decision s.decision_counts,
)

IsAscending : ℕ → List Row → Type 0
IsAscending prev [] = Unit
IsAscending prev ((seq, e) ∷ rows) = (prev < seq) × IsAscending seq rows

stays_intact :
    (s : Progress) (h : Text) (seq : ℕ) (e : LedgerEntry)
    → s.prev_receipt_hash_in_window ≡ some h
    → s.prev_seq < seq
    → ((count_entry s (seq, e)).chain_intact ≡ true) ↔ ((s.chain_intact ≡ true) × (e.prev_hash ≡ h))
unfolding count_entry
stays_intact s h seq e p a = ground (arith, text_eq_iff e.prev_hash h)

intact-Linked :
    (s : Progress) (h : Text) (rows : List Row)
    → s.prev_receipt_hash_in_window ≡ some h
    → IsAscending s.prev_seq rows
    → ((count_entries s rows).chain_intact ≡ true)
      ↔ ((s.chain_intact ≡ true) × Linked h (entries rows))
unfolding count_entries count_entry IsAscending entries
intact-Linked s h [] p a = (λ e. (e, tt), λ e. e.0)
intact-Linked s h ((seq, e) ∷ rows) p a =
    let later = intact-Linked (count_entry s (seq, e)) e.receipt_hash rows refl a.1 in
    let here = stays_intact s h seq e p a.0 in
    (
      λ i. let (one, rest) = later.0 i in let (whole, link) = here.0 one in (whole, (link, rest)),
      λ i. later.1 (here.1 (i.0, i.1.0), i.1.1),
    )

sum_from_start :
    (rows : List Row) → sum_counts (count_entries at_start rows).decision_counts ≡ length rows
unfolding sum_counts
sum_from_start rows = omega (arith, sum_counts-count_entries at_start rows)

count_from_start :
    (t : Text) (rows : List Row)
    → count_of t (count_entries at_start rows).decision_counts ≡ decided t (entries rows)
unfolding count_of
count_from_start t rows = omega (arith, count_of-count_entries t at_start rows tt)

intact_from_start :
    (seq : ℕ) (e : LedgerEntry) (rows : List Row)
    → IsAscending seq rows
    → ((count_entries at_start ((seq, e) ∷ rows)).chain_intact ≡ true)
      ↔ Linked e.receipt_hash (entries rows)
unfolding count_entries count_entry
intact_from_start seq e rows a =
    let start : (count_entry at_start (seq, e)).chain_intact ≡ true = ground arith in
    let later = intact-Linked (count_entry at_start (seq, e)) e.receipt_hash rows refl a in
    (λ i. (later.0 i).1, λ l. later.1 (start, l))

rows-entries :
    (f : LedgerEntry → Bool) (seq : ℕ) (es : List LedgerEntry)
    → entries (where_rows (λ row. f row.1) (numbered seq es)) ≡ where_rows f es
unfolding entries where_rows numbered
rows-entries f seq [] = refl
rows-entries f seq (e ∷ es) = ground (arith, rows-entries f (suc seq) es)

rows-IsAscending :
    (f : LedgerEntry → Bool) (prev seq : ℕ) (es : List LedgerEntry)
    → prev < seq
    → IsAscending prev (where_rows (λ row. f row.1) (numbered seq es))
unfolding IsAscending where_rows numbered
rows-IsAscending f prev seq [] h = tt
rows-IsAscending f prev seq (e ∷ es) h = elim (Bool-cases (f e)) [
  | inl kept ↦ rw kept (h, rows-IsAscending f seq (suc seq) es (omega arith))
  | inr left ↦ rw left (rows-IsAscending f prev (suc seq) es (omega arith))
]

length-entries : (rows : List Row) → length (entries rows) ≡ length rows
unfolding entries
length-entries [] = refl
length-entries ((seq, e) ∷ rows) = ap suc (length-entries rows)

-- A summary of the entries `e ∷ es`: its totals and counts are theirs, and the chain counts as
-- intact exactly if each of them names the hash of the one before it among them.
pub record Summarizes {F : Type 0} (e : LedgerEntry) (es : List LedgerEntry)
    (d : TrustSummaryData F) : Type 0 where
  pub total_is : d.total_decisions ≡ length (e ∷ es)
  pub counts_sum : sum_counts d.decision_counts ≡ d.total_decisions
  pub count_is : (t : Text) → count_of t d.decision_counts ≡ decided t (e ∷ es)
  pub first_is : d.first_receipt_hash ≡ e.receipt_hash
  pub intact_iff : (d.chain_intact ≡ true) ↔ Linked e.receipt_hash es

module _ {F : Type 0} (p : Platform) (percent : ℕ → ℕ → F) (zero_rate : F) where
  compress_rows-Summarizes :
      (agent start stop : Text) (prev seq : ℕ) (e : LedgerEntry) (rows : List Row)
      → IsAscending prev ((seq, e) ∷ rows)
      → (d : TrustSummaryData F) × (compress_rows p percent zero_rate agent start stop
            ((seq, e) ∷ rows)
          ≡ ok d)
        × Summarizes e (entries rows) d
  unfolding compress_rows summary_data IsAscending entries
  compress_rows-Summarizes agent start stop prev seq e rows a = (
    summary_data p percent zero_rate agent start stop e ((seq, e) ∷ rows),
    refl,
    record {
      total_is = ap suc (sym (length-entries rows));
      counts_sum = sum_from_start ((seq, e) ∷ rows);
      count_is = λ t. count_from_start t ((seq, e) ∷ rows);
      first_is = refl;
      intact_iff = intact_from_start seq e rows a.1;
    },
  )

  rows-Summarizes :
      (agent start stop : Text) (rows : List Row) (e : LedgerEntry) (es : List LedgerEntry)
      → IsAscending 0 rows
      → entries rows ≡ e ∷ es
      → (d : TrustSummaryData F) × (compress_rows p percent zero_rate agent start stop rows ≡ ok d)
        × Summarizes e es d
  unfolding entries
  rows-Summarizes agent start stop [] e es a h = ground arith
  rows-Summarizes agent start stop ((seq, f) ∷ rows) e es a h =
      let (head_is, tail_is) = cons-injective h in
      let found = compress_rows-Summarizes agent start stop 0 seq f rows a in
      (
        found.0,
        found.1,
        subst {A = LedgerEntry × List LedgerEntry} (λ x. Summarizes x.0 x.1 found.0)
            (λ i. (head_is i, tail_is i)) found.2,
      )

  -- A window of an agent's decisions that is not empty is compressed to a summary with the number
  -- of its decisions, as the total and as the sum of the counts, the number of decisions of each
  -- kind, and the hash of the first; the chain counts as intact exactly if each decision of the
  -- window names the hash of the decision before it in the window.
  pub compress_window-Summarizes :
      (agent start stop : Text) (db : Ledger) (e : LedgerEntry) (es : List LedgerEntry)
      → query_window agent start stop db ≡ e ∷ es
      → (d : TrustSummaryData F) × (compress_window p percent zero_rate agent start stop db ≡ ok d)
        × Summarizes e es d
  unfolding compress_window window_rows query_window
  compress_window-Summarizes agent start stop db e es h =
      let f = within_window agent start stop in
      rows-Summarizes agent start stop (window_rows agent start stop db) e es
        (rows-IsAscending f 0 1 db.decisions (omega arith)) (rows-entries f 1 db.decisions ∙ h)
