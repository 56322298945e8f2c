-- ===== src/Examples/Summaries.antt =====
-- The theorems on summaries and on the filter of responses, applied to concrete data.
use a2g_cli.Cli.Summary.Sign.{TrustSummary}
use a2g_cli.Base.{
  All, ℕ, ◌+◌, ◌≤◌, ◌≡◌, refl, ◌⊎◌, true, Option, none, some, [], ◌∷◌, ◌++◌, take, replicate,
  is_empty, if◌then◌else◌, arith,
}
use a2g_cli.Base.Text.{text_lt, text_eq_refl, Text, codes, contains, trim, text_eq}
use a2g_cli.Error.{ok}
use a2g_cli.Platform.{Platform}
use a2g_cli.Mandate.Types.{tbs_to_mandate, Bytes, OutputGovernance}
use a2g_cli.Hitl.RoundTrip.{Signs}
use a2g_cli.Output.{Regex, byte_len, govern_output}
use a2g_cli.Output.Bounded.{IsBlocking, Matches, govern_output-bounded}
use a2g_cli.Cli.Ledger.Tables.{Ledger, LedgerEntry}
use a2g_cli.Cli.Ledger.Record.{query_window, count_window}
use a2g_cli.Cli.Summary.Tally.{Counts}
use a2g_cli.Cli.Summary.Merkle.{IsRoot, merkle_root, merkle_root-IsRoot}
use a2g_cli.Cli.Summary.Binds.{Collision, merkle_root-binds}
use a2g_cli.Cli.Summary.Window.{TrustSummaryData, compress_window}
use a2g_cli.Cli.Summary.Counted.{Summarizes, compress_window-Summarizes}
use a2g_cli.Cli.Commands.Compress.{cmd_compress, cmd_verify_summary}
use a2g_cli.Cli.Commands.Compressed.{cmd_verify_summary-cmd_compress}
use a2g_cli.Examples.{platform, key}
use a2g_cli.Examples.Texts.{length-toy}
use a2g_cli.Examples.Ledgers.{one_record, request}

-- Patterns are texts to be found, the empty one does not compile, and nothing is replaced.
abbrev finder : Regex Text
finder = record {
  build = λ q. if is_empty q then none else some q;
  is_match = λ q t. contains t q;
  find_count = λ q t. if contains t q then 1 else 0;
  replace_all = λ q t by. t;
}

abbrev rules : OutputGovernance
rules = record {
  deny_patterns = codes "" ∷ codes "secret" ∷ [];
  redact_patterns = codes "mail" ∷ [];
  max_output_length = 6;
}

govern_output-bounded_example :
    (((pattern : Text) × IsBlocking finder (codes "hello world") rules.deny_patterns pattern)
      × (byte_len (govern_output finder (codes "hello world") rules).content ≡ 56))
    ⊎ (All (λ q. ¬ (Matches finder (codes "hello world") q)) rules.deny_patterns
        × (byte_len (govern_output finder (codes "hello world") rules).content ≤ 6 + 30))
govern_output-bounded_example =
    govern_output-bounded finder (codes "hello world") rules (omega arith)

merkle_root-IsRoot_example :
    IsRoot platform
      (codes "a" ∷ codes "b" ∷ codes "c" ∷ [])
      (merkle_root platform (codes "a" ∷ codes "b" ∷ codes "c" ∷ []))
merkle_root-IsRoot_example = merkle_root-IsRoot platform (codes "a") (codes "b" ∷ codes "c" ∷ [])

-- A platform whose hexadecimal digests have 64 characters.
abbrev padded : Platform
padded = record platform { hex_encode = λ b. take 64 (b ++ replicate 64 0) }

abbrev hash : ℕ → Text
hash n = replicate 64 n

merkle_root-binds_example : ((hash 1 ∷ hash 2 ∷ []) ≡ (hash 1 ∷ hash 2 ∷ [])) ⊎ Collision padded
merkle_root-binds_example =
    merkle_root-binds padded (length-toy) (hash 1 ∷ hash 2 ∷ []) (hash 1 ∷ hash 2 ∷ []) refl
      (refl, (refl, tt)) (refl, (refl, tt)) refl

abbrev percent : ℕ → ℕ → ℕ
percent a b = a

abbrev agent : Text
agent = request.m.mandate.agent_did

abbrev first : LedgerEntry
first = record {
  receipt_id = codes "r";
  verdict_id = [];
  agent_did = agent;
  agent_name = [];
  tool = codes "play";
  params_hash = [];
  decision = codes "ALLOW";
  policy_rule = [];
  policy_hash = [];
  timestamp = codes "5";
  prev_hash = [];
  receipt_hash = codes "h";
  mandate_hash = [];
  proposal_hash = [];
  delegation_chain_hash = [];
  issuer_did = [];
  authority_level = [];
  scope_hash = [];
  correlation_id = [];
  parent_receipt_hash = [];
  state_trust = [];
}

abbrev second : LedgerEntry
second = record first { receipt_id = codes "s"; prev_hash = codes "h"; receipt_hash = codes "i" }

abbrev two_entries : Ledger
two_entries = record one_record { decisions = first ∷ second ∷ [] }

windowed : query_window agent (codes "1") (codes "9") two_entries ≡ first ∷ second ∷ []
unfolding query_window text_eq tbs_to_mandate text_lt
windowed = refl

compress_window-Summarizes_example :
    (d : TrustSummaryData ℕ) × (compress_window platform percent 0 agent
        (codes "1")
        (codes "9")
        two_entries
      ≡ ok d)
    × Summarizes first (second ∷ []) d
compress_window-Summarizes_example =
    compress_window-Summarizes platform percent 0 agent (codes "1") (codes "9") two_entries first
      (second ∷ []) windowed

abbrev no_json : Counts → Option Text
no_json m = some []

abbrev show : ℕ → Text
show n = []

abbrev same_rate : ℕ → ℕ
same_rate n = n

written :
    (s : TrustSummary ℕ) × (cmd_compress platform percent 0 no_json show same_rate
        (codes "id")
        7
        true
        agent
        (codes "1")
        (codes "9")
        key
        (codes "name")
        2
        two_entries
      ≡ some (ok s))
unfolding cmd_compress tbs_to_mandate trim
written = (_, refl)

key-Signs : (k : Bytes) → platform.hex_decode (trim key) ≡ some k → Signs platform k
key-Signs k e = record {
  decodes = λ b. refl;
  key_length = refl;
  key_valid = refl;
  sign_length = length-toy;
  verifies = λ m. text_eq_refl (platform.sign key m);
}

cmd_verify_summary-cmd_compress_example :
    (cmd_verify_summary platform percent 0 no_json show same_rate true written.0 ≡ some (ok 0))
    × (compress_window platform percent 0 agent (codes "1") (codes "9") two_entries
        ≡ ok written.0.content)
    × (2 ≤ count_window agent (codes "1") (codes "9") two_entries)
cmd_verify_summary-cmd_compress_example =
    cmd_verify_summary-cmd_compress platform percent 0 no_json show same_rate (codes "id") 7 true
      agent (codes "1") (codes "9") key (codes "name") 2 two_entries written.0 key-Signs written.1
      refl refl refl
