-- ===== src/Output.antt =====
-- crates/a2g-core/src/output_gov.rs: the filter on the responses of tools.
use Prim.Native.Nat.{min}
use a2g_cli.Base.{
  ℕ, zero, suc, ◌+◌, ◌-◌, ◌^◌, ltb, leb, Bool, true, false, ◌&&◌, Option, none, some, List, [], ◌∷◌,
  ◌++◌, find_first, if◌then◌else◌, unwrap_or,
}
use a2g_cli.Base.Text.{Text, codes, slice_to, len_utf8}
use a2g_cli.Mandate.Types.{OutputGovernance}
pub mod Bounded

pub data OutputAction : Type 0 where
  pass : OutputAction
  denied : (pattern : Text) → OutputAction
  redacted : (count : ℕ) → OutputAction
  truncated : (original_len max_len : ℕ) → OutputAction

pub record OutputVerdict : Type 0 where
  pub action : OutputAction
  pub content : Text

-- The crate regex: a pattern of limited size that compiles, and what the code asks it.
pub record Regex (R : Type 0) : Type 0 where
  pub build : Text → Option R
  pub is_match : R → Text → Bool
  -- `find_iter(text).count()`
  pub find_count : R → Text → ℕ
  -- pattern, text, replacement
  pub replace_all : R → Text → Text → Text

-- `text.len()`
unfoldable pub byte_len : Text → ℕ
byte_len [] = 0
byte_len (x ∷ xs) = len_utf8 x + byte_len xs

-- `text.is_char_boundary(i)`
unfoldable pub is_char_boundary : Text → ℕ → Bool
unfolding slice_to
is_char_boundary t i = elim (slice_to i t) [ none ↦ false | some before ↦ true ]

-- The loop back to the last boundary.
unfoldable pub walk_back : ℕ → Text → ℕ
unfolding is_char_boundary
walk_back zero t = 0
walk_back (suc end) t =
    let rest = walk_back end t in if is_char_boundary t (suc end) then suc end else rest

abbrev pub blocked : Text
blocked = codes "[BLOCKED BY A2G GOVERNANCE: output matched deny pattern]"

abbrev pub truncation_notice : Text
truncation_notice = codes "\n[TRUNCATED BY A2G GOVERNANCE]"

module _ {R : Type 0} (x : Regex R) where
  -- A pattern that does not compile is skipped.
  unfoldable pub hits : Text → Text → Bool
  hits response pattern = elim (x.build pattern) [ none ↦ false | some re ↦ x.is_match re response ]

  -- One round of the redaction: the count on `usize`, and the content.
  unfoldable pub redact_with : Option R → ℕ × Text → ℕ × Text
  redact_with none s = s
  redact_with (some re) (count, content) = (
    min (count + x.find_count re content) (2 ^ 64 - 1),
    x.replace_all re content (codes "[REDACTED]"),
  )

  unfoldable pub redact : List Text → ℕ × Text → ℕ × Text
  unfolding redact_with
  redact [] s = s
  redact (pattern ∷ patterns) s = redact patterns (redact_with (x.build pattern) s)

  unfoldable pub truncate : (max_len : ℕ) → Text → OutputVerdict
  unfolding walk_back byte_len slice_to
  truncate max_len content = record {
    action = truncated (byte_len content) max_len;
    content =
        unwrap_or (slice_to (walk_back (min max_len (byte_len content)) content) content) []
        ++ truncation_notice;
  }

  abbrev pub redaction_of : ℕ → OutputAction
  redaction_of zero = pass
  redaction_of (suc n) = redacted (suc n)

  -- What follows the redaction: the length limit, which is off at 0.
  unfoldable pub limit_length : (max_len : ℕ) → ℕ × Text → OutputVerdict
  unfolding truncate byte_len
  limit_length max_len (count, content) =
      if ltb 0 max_len && ltb max_len (byte_len content)
      then truncate max_len content
      else record { action = redaction_of count; content = content }

  unfoldable pub unless_denied : Option Text → OutputVerdict → OutputVerdict
  unless_denied none verdict = verdict
  unless_denied (some pattern) verdict = record { action = denied pattern; content = blocked }

  unfoldable pub govern_output : Text → OutputGovernance → OutputVerdict
  unfolding hits redact limit_length unless_denied
  govern_output response rules =
      unless_denied (find_first (hits response) rules.deny_patterns)
        (limit_length rules.max_output_length (redact rules.redact_patterns (0, response)))
