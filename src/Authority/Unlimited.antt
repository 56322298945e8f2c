-- ===== src/Authority/Unlimited.antt =====
-- crates/a2g-core/src/authority.rs: limits of 0 under the meeting of scopes.
use a2g_cli.Authority.Types.{Delegation, AuthorityScope}
use a2g_cli.Authority.Scope.{meet_scope, meet_scopes}
use a2g_cli.Base.{◌≡◌, arith, List, [], ◌∷◌}

-- A chain whose root has no limit on the lifetime has no effective limit, whatever limits the
-- delegations below it carry: the minimum is taken with the 0 that stands for no limit.
pub meet_scopes-unlimited :
    (s : AuthorityScope) (ds : List Delegation)
    → s.max_ttl_hours ≡ 0
    → (meet_scopes s ds).max_ttl_hours ≡ 0
unfolding meet_scopes meet_scope
meet_scopes-unlimited s [] h = h
meet_scopes-unlimited s (d ∷ ds) h = meet_scopes-unlimited (meet_scope s d.scope) ds (ground arith)
