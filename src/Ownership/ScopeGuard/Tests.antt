-- ===== src/Ownership/ScopeGuard/Tests.antt =====
-- Scopes that undo a change to a number.
use syseng.Base.{ℕ, ◌+◌, ◌≡◌, refl, List, [], ◌∷◌, if◌then◌else◌}
use syseng.Ownership.ScopeGuard.{
  Stmt, act, call_dismiss, throw, make_scope_guard, destroy, exec, scope,
}
use syseng.Ownership.ScopeGuard.Cleanup.{dismisses, reached, effect, scope_cleanup}

abbrev risky : List (Stmt ℕ)
risky = act (λ n. n + 1) ∷ throw ∷ call_dismiss ∷ []

risky_test : scope (λ n. n + 100) risky 5 ≡ 106
unfolding scope exec make_scope_guard destroy
risky_test = refl

scope_cleanup_example : scope (λ n. n + 100) risky 5 ≡ (
    if dismisses (reached risky) then effect (reached risky) 5 else effect (reached risky) 5 + 100)
scope_cleanup_example = scope_cleanup (λ n. n + 100) risky 5
