-- ===== src/Cli/Summary/Tally.antt =====
-- crates/a2g-cli/src/trust_summary.rs: the ordered maps and sets that a summary counts in.
use a2g_cli.Base.{ℕ, suc, ◌+◌, ◌≡◌, refl, List, [], ◌∷◌, if◌then◌else◌, arith}
use a2g_cli.Base.Text.{Text, text_eq, text_lt}

-- `BTreeMap<String, u64>` as its pairs in the order of the keys.
abbrev pub Counts : Type 0
Counts = List (Text × ℕ)

-- `*map.entry(key).or_insert(0) += 1`
unfoldable pub count_key : Text → Counts → Counts
unfolding text_eq text_lt
count_key key [] = (key, 1) ∷ []
count_key key ((k, n) ∷ rest) =
    let later = count_key key rest in
    if text_eq k key
    then (k, n + 1) ∷ rest
    else if text_lt k key
    then (k, n) ∷ later
    else (key, 1) ∷ (k, n) ∷ rest

-- `map.get(key).copied().unwrap_or(0)`
unfoldable pub count_of : Text → Counts → ℕ
unfolding text_eq
count_of key [] = 0
count_of key ((k, n) ∷ rest) = let later = count_of key rest in if text_eq k key then n else later

-- `BTreeSet<String>` as its elements in order.
unfoldable pub include : Text → List Text → List Text
unfolding text_eq text_lt
include t [] = t ∷ []
include t (x ∷ xs) =
    let later = include t xs in
    if text_eq x t then x ∷ xs else if text_lt x t then x ∷ later else t ∷ x ∷ xs

unfoldable pub sum_counts : Counts → ℕ
sum_counts [] = 0
sum_counts ((k, n) ∷ rest) = n + sum_counts rest

pub sum_counts-count_key :
    (key : Text) (m : Counts) → sum_counts (count_key key m) ≡ suc (sum_counts m)
unfolding sum_counts count_key
sum_counts-count_key key [] = refl
sum_counts-count_key key ((k, n) ∷ rest) = ground (arith, sum_counts-count_key key rest)
