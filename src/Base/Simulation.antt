-- ===== src/Base/Simulation.antt =====
-- Programs of calls on a state, and how they follow a specification call by call.
use Prim.Native.Nat.{ℕ, suc}
use mathlib.Core.Path.{◌≡◌, refl}
use mathlib.Core.Bool.{Bool, false}
use mathlib.Core.Option.{Option, none, some}
use mathlib.Core.List.{List, [], ◌∷◌}
use syseng.Base.Lists.{length}
use syseng.Base.Fallible.{◌>>=◌}

-- The answers of a program of calls, and the state after it, if every call is defined.
unfoldable pub run_all :
    {Op A S : Type 0} → (Op → S → Option (A × S)) → List Op → S → Option (List A × S)
run_all step [] s = some ([], s)
run_all step (o ∷ ops) s = do
  (a, s') ← step o s
  (rest, s'') ← run_all step ops s'
  some (a ∷ rest, s'')

-- Where the specification has a result, the code has it, with related states. Where it has none, a
-- strict code has none either.
unfoldable pub Follows :
    {A V S : Type 0} → Bool → (V → S → Type 0) → Option (A × V) → Option (A × S) → Type 0
Follows strict R none none = Unit
Follows strict R none (some (b, s)) = strict ≡ false
Follows strict R (some (a, v)) none = ⊥
Follows strict R (some (a, v)) (some (b, s)) = (a ≡ b) × R v s

module _ {A V S : Type 0} (strict : Bool) where
  pub Follows-weaken :
      (R R' : V → S → Type 0) (x : Option (A × V)) (y : Option (A × S))
      → ((v : V) (s : S) → R v s → R' v s)
      → Follows strict R x y
      → Follows strict R' x y
  unfolding Follows
  Follows-weaken R R' none none weaker h = tt
  Follows-weaken R R' none (some (b, s)) weaker h = h
  Follows-weaken R R' (some (a, v)) none weaker h = h
  Follows-weaken R R' (some (a, v)) (some (b, s)) weaker h = (h.0, weaker v s h.1)

  pub Follows-none :
      (R : V → S → Type 0) (y : Option (A × S)) → strict ≡ false → Follows strict R none y
  unfolding Follows
  Follows-none R none e = tt
  Follows-none R (some (b, s)) e = e

  Follows-cons :
      (R : V → S → Type 0) (a b : A) (x : Option (List A × V)) (y : Option (List A × S))
      → a ≡ b
      → Follows strict R x y
      → Follows strict R
          (do (rest, v) ← x; some (a ∷ rest, v))
          (do (rest, s) ← y; some (b ∷ rest, s))
  unfolding Follows
  Follows-cons R a b none none e h = tt
  Follows-cons R a b none (some y) e h = h
  Follows-cons R a b (some x) none e h = h
  Follows-cons R a b (some (rest, v)) (some (rest', s)) e h = ((λ i. e i ∷ h.0 i), h.1)

-- Calls that follow their specification one by one, from states that have room for a number of calls
-- more, follow it as a program.
module _ {Op A V S : Type 0} (strict : Bool) (spec : Op → V → Option (A × V))
    (step : Op → S → Option (A × S)) (R : ℕ → V → S → Type 0)
    (steps : (k : ℕ) (o : Op) (v : V) (s : S)
      → R (suc k) v s
      → Follows strict (R k) (spec o v) (step o s)) where
  Follows-bind :
      (k : ℕ) (ops : List Op) (x : Option (A × V)) (y : Option (A × S))
      → Follows strict (R k) x y
      → ((v : V) (s : S) → R k v s → Follows strict (R 0) (run_all spec ops v) (run_all step ops s))
      → Follows strict
          (R 0)
          (do (a, v) ← x; (rest, v') ← run_all spec ops v; some (a ∷ rest, v'))
          (do (a, s) ← y; (rest, s') ← run_all step ops s; some (a ∷ rest, s'))
  unfolding Follows
  Follows-bind k ops none none h later = tt
  Follows-bind k ops none (some (b, s)) h later =
      Follows-none strict (R 0) (do (rest, s') ← run_all step ops s; some (b ∷ rest, s')) h
  Follows-bind k ops (some (a, v)) none h later = absurd h
  Follows-bind k ops (some (a, v)) (some (b, s)) h later =
      Follows-cons strict (R 0) a b (run_all spec ops v) (run_all step ops s) h.0 (later v s h.1)

  pub run_all-Follows :
      (ops : List Op) (v : V) (s : S)
      → R (length ops) v s
      → Follows strict (R 0) (run_all spec ops v) (run_all step ops s)
  unfolding run_all
  run_all-Follows [] v s r = unfold Follows in (refl, r)
  run_all-Follows (o ∷ ops) v s r =
      Follows-bind (length ops) ops (spec o v) (step o s) (steps (length ops) o v s r)
        (λ v' s' r'. run_all-Follows ops v' s' r')
