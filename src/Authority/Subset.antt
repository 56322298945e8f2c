-- ===== src/Authority/Subset.antt =====
-- crates/a2g-core/src/authority.rs: what the comparison of two scopes accepts, and how a
-- delegation that `delegate` issues fits its parent.
use a2g_cli.Base.{◌≡◌, refl, ◌↔◌, ◌⊎◌, inl, inr, arith, ℕ, ◌≤◌, true, not, List, [], ◌∷◌, All}
use a2g_cli.Base.Text.{Text, list_contains}
use a2g_cli.Error.{A2gError, ok, ensure-eq-ok, >>-eq-ok}
use a2g_cli.Authority.Types.{default_scope, AuthorityScope}
use a2g_cli.Authority.Scope.{check_tools, exceeds, validate_scope_subset, tool_not_in_parent}

-- `value` respects `limit`, of which 0 is none.
abbrev pub Respects : ℕ → ℕ → Type 0
Respects limit value = (limit ≡ 0) ⊎ (value ≤ limit)

-- Every tool of `tools` stands in `allowed`, of which the empty list is no restriction.
abbrev pub Covers : List Text → List Text → Type 0
Covers [] tools = Unit
Covers (a ∷ rest) tools = All (λ t. list_contains (a ∷ rest) t ≡ true) tools

check_tools-All :
    (fault : Text → A2gError) (a : Text) (rest tools : List Text)
    → check_tools fault (a ∷ rest) tools ≡ ok tt
    → All (λ t. list_contains (a ∷ rest) t ≡ true) tools
unfolding check_tools
check_tools-All fault a rest [] h = tt
check_tools-All fault a rest (t ∷ ts) h =
    (ground arith, check_tools-All fault a rest ts (ground arith))

All-check_tools :
    (fault : Text → A2gError) (a : Text) (rest tools : List Text)
    → All (λ t. list_contains (a ∷ rest) t ≡ true) tools
    → check_tools fault (a ∷ rest) tools ≡ ok tt
unfolding check_tools
All-check_tools fault a rest [] h = refl
All-check_tools fault a rest (t ∷ ts) (x, xs) = rw x (All-check_tools fault a rest ts xs)

check_tools-unrestricted :
    (fault : Text → A2gError) (tools : List Text) → check_tools fault [] tools ≡ ok tt
unfolding check_tools
check_tools-unrestricted fault [] = refl
check_tools-unrestricted fault (t ∷ ts) = check_tools-unrestricted fault ts

pub check_tools_iff :
    (fault : Text → A2gError) (allowed tools : List Text)
    → (check_tools fault allowed tools ≡ ok tt) ↔ Covers allowed tools
check_tools_iff fault [] tools = (λ _. tt, λ _. check_tools-unrestricted fault tools)
check_tools_iff fault (a ∷ rest) tools =
    (check_tools-All fault a rest tools, All-check_tools fault a rest tools)

exceeds-Respects : (limit value : ℕ) → not (exceeds limit value) ≡ true → Respects limit value
exceeds-Respects limit value h = ground arith

Respects-exceeds : (limit value : ℕ) → Respects limit value → not (exceeds limit value) ≡ true
Respects-exceeds limit value (inl h) = ground arith
Respects-exceeds limit value (inr h) = ground arith

-- A child's scope is accepted under a parent's exactly when each of its tools stands in the
-- parent's list, if that is not empty, and its two limits are at most the parent's, where these are
-- not 0. What is not compared: the file, network and command scopes and the number of mandates.
pub validate_scope_subset_iff :
    (child parent : AuthorityScope)
    → (validate_scope_subset child parent ≡ ok tt) ↔ (
        Covers parent.allowed_tools child.allowed_tools
        × Respects parent.max_ttl_hours child.max_ttl_hours
        × Respects parent.max_rate_limit child.max_rate_limit)
unfolding validate_scope_subset
validate_scope_subset_iff c q = (
  λ h.
      let (a, h1) = >>-eq-ok (check_tools tool_not_in_parent q.allowed_tools c.allowed_tools) _ h in
      let (b, h2) = ensure-eq-ok (not (exceeds q.max_ttl_hours c.max_ttl_hours)) _ _ h1 in
      let (d, h3) = ensure-eq-ok (not (exceeds q.max_rate_limit c.max_rate_limit)) _ _ h2 in
      (
        (check_tools_iff tool_not_in_parent q.allowed_tools c.allowed_tools).0 a,
        exceeds-Respects _ _ b,
        exceeds-Respects _ _ d,
      ),
  λ (a, b, d).
      rw
        (
          (check_tools_iff tool_not_in_parent q.allowed_tools c.allowed_tools).1 a,
          Respects-exceeds _ _ b,
          Respects-exceeds _ _ d,
        )
        refl,
)

Covers-nothing : (allowed : List Text) → Covers allowed []
Covers-nothing [] = tt
Covers-nothing (a ∷ rest) = tt

Respects-zero : (limit : ℕ) → Respects limit 0
Respects-zero limit = inr (omega arith)

-- The scope with no list and no limit, which allows everything, is accepted under every parent,
-- however much that parent is restricted.
pub default-validate_scope_subset :
    (parent : AuthorityScope) → validate_scope_subset default_scope parent ≡ ok tt
default-validate_scope_subset q =
    (validate_scope_subset_iff default_scope q).1
      (Covers-nothing q.allowed_tools, Respects-zero _, Respects-zero _)
