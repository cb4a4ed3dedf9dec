-- ===== src/Ownership/ScopeGuard.antt =====
-- Part 3 of 02-modern-cpp/exercises/ex1-raii-ownership/ownership.hpp: ScopeGuard and
-- make_scope_guard. The callable works on a state; a scope's statements run in order until one
-- throws, and then the guard is destroyed.
pub mod Cleanup
mod Tests
use syseng.Base.{Bool, true, false, List, [], ◌∷◌, if◌then◌else◌}

pub record Guard (S : Type 0) : Type 0 where
  pub fn_ : S → S
  pub active_ : Bool

-- What a scope does while the guard lives.
pub data Stmt (S : Type 0) : Type 0 where
  act : (S → S) → Stmt S
  call_dismiss : Stmt S
  throw : Stmt S

module _ {S : Type 0} where
  -- ScopeGuard(F&& fn), by way of the factory.
  unfoldable make_scope_guard : (S → S) → Guard S
  make_scope_guard fn = record { fn_ = fn; active_ = true }

  unfoldable dismiss : Guard S → Guard S
  dismiss g = record g { active_ = false }

  -- ~ScopeGuard()
  unfoldable destroy : Guard S → S → S
  destroy g s = if g.active_ then g.fn_ s else s

  -- The guard and the state where the scope is left.
  unfoldable exec : List (Stmt S) → Guard S → S → Guard S × S
  exec [] g s = (g, s)
  exec (act f ∷ rest) g s = exec rest g (f s)
  exec (call_dismiss ∷ rest) g s = exec rest (dismiss g) s
  exec (throw ∷ rest) g s = (g, s)

  unfoldable scope : (S → S) → List (Stmt S) → S → S
  scope fn body s = let (g, t) = exec body (make_scope_guard fn) s in destroy g t
