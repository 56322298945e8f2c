-- ===== src/Cli/Commands/Types.antt =====
-- crates/a2g-cli/src/main.rs: what a command answers, and the checks of its arguments.
use a2g_cli.Base.{
  Bool, true, false, not, ◌||◌, Option, none, some, List, [], ◌∷◌, map, leb, is_empty, length,
  if◌then◌else◌,
}
use a2g_cli.Base.Text.{Text, codes, contains, slice_to, split, trim}
use a2g_cli.Error.{internal, format, say, text, end, Result, ok, err, ensure, ◌>>◌}
use a2g_cli.Platform.{Platform}
use a2g_cli.Cli.Ledger.Tables.{Ledger}

-- The answer of a command, `none` its panic, and the ledger that it leaves. Files that are read
-- are arguments, a file that is written is the answer.
abbrev pub Run {ℓ} : Type ℓ → Type ℓ
Run A = Option (Result A) × Ledger

-- Goes on with what was computed, or stops without touching the ledger again.
unfoldable pub after {ℓ κ} :
    {A : Type ℓ} {B : Type κ} → Option (Result A) → Ledger → (A → Run B) → Run B
after none db k = (none, db)
after (some (err e)) db k = (some (err e), db)
after (some (ok a)) db k = k a

-- `&hash[..16]` in a line that is printed unless the output is JSON.
unfoldable pub prints {ℓ} :
    {A : Type ℓ} → (json_output : Bool) (hash : Text) → A → Option (Result A)
unfolding slice_to
prints true hash a = some (ok a)
prints false hash a = elim (slice_to 16 hash) [ none ↦ none | some t ↦ some (ok a) ]

unfoldable pub validate_name : Platform → Text → Result (Unit {0})
unfolding contains
validate_name p name = do
  ensure
      (not (
        contains name (codes "..")
        || (contains name (codes "/") || (contains name (codes "\\") || contains name (0 ∷ [])))))
      (internal (
        format "invalid name '{}': must not contain '..', '/', '\\', or null bytes"
          (text name end)))
  ensure (leb (length (p.utf8 name)) 256)
      (internal (say "name exceeds maximum length of 256 characters"))
  ensure (not (is_empty name)) (internal (say "name must not be empty"))

-- A comma-separated list of tools, or `otherwise` for an empty text.
unfoldable pub tools_of : Text → List Text → List Text
unfolding split trim
tools_of tools_str otherwise =
    if is_empty tools_str then otherwise else map trim (split b',' tools_str)
