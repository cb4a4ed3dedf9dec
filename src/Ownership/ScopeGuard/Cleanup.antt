-- ===== src/Ownership/ScopeGuard/Cleanup.antt =====
-- When the cleanup of a ScopeGuard runs.
use syseng.Base.{◌≡◌, refl, Bool, true, false, List, [], ◌∷◌, if◌then◌else◌, arith}
use syseng.Ownership.ScopeGuard.{
  Guard, Stmt, act, call_dismiss, throw, make_scope_guard, dismiss, destroy, exec, scope,
}

module _ {S : Type 0} where
  -- The statements that run: those before the first throw.
  pub reached : List (Stmt S) → List (Stmt S)
  reached [] = []
  reached (act f ∷ rest) = act f ∷ reached rest
  reached (call_dismiss ∷ rest) = call_dismiss ∷ reached rest
  reached (throw ∷ rest) = []

  -- Their effect, with no guard around.
  pub effect : List (Stmt S) → S → S
  effect [] s = s
  effect (act f ∷ rest) s = effect rest (f s)
  effect (_ ∷ rest) s = effect rest s

  pub dismisses : List (Stmt S) → Bool
  dismisses [] = false
  dismisses (call_dismiss ∷ rest) = true
  dismisses (_ ∷ rest) = dismisses rest

  exec-effect :
      (body : List (Stmt S)) (g : Guard S) (s : S) → (exec body g s).1 ≡ effect (reached body) s
  unfolding exec reached effect
  exec-effect [] g s = refl
  exec-effect (act f ∷ rest) g s = exec-effect rest g (f s)
  exec-effect (call_dismiss ∷ rest) g s = exec-effect rest (dismiss g) s
  exec-effect (throw ∷ rest) g s = refl

  exec_inactive :
      (body : List (Stmt S)) (fn : S → S) (s : S)
      → (exec body (record { fn_ = fn; active_ = false }) s).0
        ≡ record { fn_ = fn; active_ = false }
  unfolding exec dismiss
  exec_inactive [] fn s = refl
  exec_inactive (act f ∷ rest) fn s = exec_inactive rest fn (f s)
  exec_inactive (call_dismiss ∷ rest) fn s = exec_inactive rest fn s
  exec_inactive (throw ∷ rest) fn s = refl

  exec_guard :
      (body : List (Stmt S)) (fn : S → S) (s : S)
      → (exec body (record { fn_ = fn; active_ = true }) s).0
        ≡ record { fn_ = fn; active_ = if dismisses (reached body) then false else true }
  unfolding exec dismiss reached dismisses
  exec_guard [] fn s = refl
  exec_guard (act f ∷ rest) fn s = exec_guard rest fn (f s)
  exec_guard (call_dismiss ∷ rest) fn s = exec_inactive rest fn s
  exec_guard (throw ∷ rest) fn s = refl

  -- The cleanup runs once, after the statements that are reached, whether the scope ends or throws;
  -- it is skipped exactly when one of these statements dismisses the guard.
  pub scope_cleanup :
      (fn : S → S) (body : List (Stmt S)) (s : S)
      → scope fn body s ≡ (
          if dismisses (reached body)
          then effect (reached body) s
          else fn (effect (reached body) s))
  unfolding scope make_scope_guard destroy
  scope_cleanup fn body s =
      rw (exec-effect body (record { fn_ = fn; active_ = true }) s, exec_guard body fn s)
        (ground arith)
