-- ===== src/Cli/Summary/Window.antt =====
-- crates/a2g-cli/src/trust_summary.rs: `compress_window`.
use a2g_cli.Base.{
  ℕ, suc, ◌==◌, leb, ltb, Bool, true, false, not, ◌&&◌, Option, none, some, List, [], ◌∷◌, ◌++◌,
  length, is_empty, if◌then◌else◌,
}
use a2g_cli.Base.Text.{Text, codes, text_eq}
use a2g_cli.Error.{internal, format, text, end, Result, ok, err}
use a2g_cli.Platform.{Platform}
use a2g_cli.Cli.Ledger.Tables.{Ledger, LedgerEntry, where_rows}
use a2g_cli.Cli.Ledger.Record.{within_window}
use a2g_cli.Cli.Summary.Tally.{Counts, count_key, count_of, include}
use a2g_cli.Cli.Summary.Merkle.{merkle_root}

-- A decision with its `seq`.
abbrev pub Row : Type 0
Row = ℕ × LedgerEntry

-- The rows of `decisions` count up from 1.
unfoldable pub numbered : ℕ → List LedgerEntry → List Row
numbered seq [] = []
numbered seq (e ∷ es) = (seq, e) ∷ numbered (suc seq) es

-- ledger.rs: `query_window`, with the column `seq`.
unfoldable pub window_rows : (agent start stop : Text) → Ledger → List Row
unfolding where_rows numbered
window_rows agent start stop db =
    where_rows (λ row. within_window agent start stop row.1) (numbered 1 db.decisions)

-- The variables of the loop over the entries.
pub record Progress : Type 0 where
  pub decision_counts : Counts
  pub tool_counts : Counts
  pub policy_rules_hit : Counts
  pub authority_coverage : Counts
  pub mandate_hashes : List Text
  pub issuer_set : List Text
  pub receipt_hashes : List Text
  pub last_receipt_hash : Text
  pub chain_intact : Bool
  pub prev_receipt_hash_in_window : Option Text
  pub prev_seq : ℕ

abbrev pub at_start : Progress
at_start = record {
  decision_counts = [];
  tool_counts = [];
  policy_rules_hit = [];
  authority_coverage = [];
  mandate_hashes = [];
  issuer_set = [];
  receipt_hashes = [];
  last_receipt_hash = [];
  chain_intact = true;
  prev_receipt_hash_in_window = none;
  prev_seq = 0;
}

abbrev pub is_expected : Option Text → Text → Bool
is_expected none prev = true
is_expected (some expected) prev = text_eq prev expected

-- The body of the loop.
unfoldable pub count_entry : Progress → Row → Progress
unfolding count_key include text_eq
count_entry s (seq, e) = record {
  decision_counts = count_key e.decision s.decision_counts;
  tool_counts = count_key e.tool s.tool_counts;
  policy_rules_hit = count_key e.policy_rule s.policy_rules_hit;
  authority_coverage =
      if is_empty e.authority_level
      then s.authority_coverage
      else count_key e.authority_level s.authority_coverage;
  mandate_hashes =
      if is_empty e.mandate_hash then s.mandate_hashes else include e.mandate_hash s.mandate_hashes;
  issuer_set = if is_empty e.issuer_did then s.issuer_set else include e.issuer_did s.issuer_set;
  receipt_hashes = s.receipt_hashes ++ (e.receipt_hash ∷ []);
  last_receipt_hash = e.receipt_hash;
  chain_intact =
      if leb seq s.prev_seq && not (s.prev_seq == 0)
      then false
      else if is_expected s.prev_receipt_hash_in_window e.prev_hash
      then s.chain_intact
      else false;
  prev_receipt_hash_in_window = some e.receipt_hash;
  prev_seq = seq;
}

unfoldable pub count_entries : Progress → List Row → Progress
unfolding count_entry
count_entries s [] = s
count_entries s (row ∷ rows) = count_entries (count_entry s row) rows

-- Rates are floating-point numbers, `F`.
pub record TrustSummaryData (F : Type 0) : Type 0 where
  pub agent_did : Text
  pub window_start : Text
  pub window_end : Text
  pub total_decisions : ℕ
  pub decision_counts : Counts
  pub tool_counts : Counts
  pub unique_tools : ℕ
  pub unique_mandates : ℕ
  pub policy_rules_hit : Counts
  pub authority_coverage : Counts
  pub issuer_coverage : List Text
  pub compliance_rate : F
  pub escalation_rate : F
  pub deny_rate : F
  pub first_receipt_hash : Text
  pub last_receipt_hash : Text
  pub merkle_root : Text
  pub chain_intact : Bool

-- `percent a b` is `(a as f64 / b as f64) * 100.0`.
module _ {F : Type 0} (p : Platform) (percent : ℕ → ℕ → F) (zero_rate : F) where
  abbrev pub rate : ℕ → ℕ → F
  rate count total = if ltb 0 total then percent count total else zero_rate

  unfoldable pub summary_data :
      (agent start stop : Text) (first : LedgerEntry) → List Row → TrustSummaryData F
  unfolding count_entries count_of merkle_root
  summary_data agent start stop first rows =
      let s = count_entries at_start rows in
      let total = length rows in
      record {
        agent_did = agent;
        window_start = start;
        window_end = stop;
        total_decisions = total;
        decision_counts = s.decision_counts;
        tool_counts = s.tool_counts;
        unique_tools = length s.tool_counts;
        unique_mandates = length s.mandate_hashes;
        policy_rules_hit = s.policy_rules_hit;
        authority_coverage = s.authority_coverage;
        issuer_coverage = s.issuer_set;
        compliance_rate = rate (count_of (codes "ALLOW") s.decision_counts) total;
        escalation_rate = rate (count_of (codes "PENDING_APPROVAL") s.decision_counts) total;
        deny_rate = rate (count_of (codes "DENY") s.decision_counts) total;
        first_receipt_hash = first.receipt_hash;
        last_receipt_hash = s.last_receipt_hash;
        merkle_root = merkle_root p s.receipt_hashes;
        chain_intact = s.chain_intact;
      }

  unfoldable pub compress_rows : (agent start stop : Text) → List Row → Result (TrustSummaryData F)
  unfolding summary_data
  compress_rows agent start stop [] = err (
      internal (
        format "no decisions found for agent '{}' between {} and {}"
          (text agent (text start (text stop end)))))
  compress_rows agent start stop (row ∷ rows) =
      ok (summary_data agent start stop row.1 (row ∷ rows))

  unfoldable pub compress_window : (agent start stop : Text) → Ledger → Result (TrustSummaryData F)
  unfolding compress_rows window_rows
  compress_window agent start stop db =
      compress_rows agent start stop (window_rows agent start stop db)
