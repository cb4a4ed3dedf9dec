-- ===== src/Base/Tally.antt =====
-- Sums over numbered slots that may be empty.
use Prim.Native.Nat.{ℕ, zero, suc, ◌+◌, ◌≤◌}
use mathlib.Core.Path.{◌≡◌, ◌∙◌}
use mathlib.Core.Logic.{◌≢◌}
use mathlib.Core.List.{List, [], ◌∷◌, ◌++◌}
use mathlib.Core.Option.{Option, none, some}
use native.Mathlib.Omega.{arith}
use syseng.Base.Lists.{get_elem?, set, All, get_elem?-set_ne}

module _ {ℓ} {A : Type ℓ} where
  abbrev pub weigh : (A → ℕ) → Option A → ℕ
  weigh w none = 0
  weigh w (some a) = w a

  -- The weights of the filled slots, added up.
  abbrev pub tally : (A → ℕ) → List (Option A) → ℕ
  tally w [] = 0
  tally w (o ∷ os) = weigh w o + tally w os

  pub tally-set :
      (w : A → ℕ) (os : List (Option A)) (i : ℕ) (old new : Option A)
      → get_elem? os i ≡ some old
      → tally w (set os i new) + weigh w old ≡ tally w os + weigh w new
  tally-set w [] i old new h = absurd (cc)
  tally-set w (o ∷ os) zero old new h = ground arith
  tally-set w (o ∷ os) (suc i) old new h = omega (arith, tally-set w os i old new h)

  pub tally-append :
      (w : A → ℕ) (os ps : List (Option A)) → tally w (os ++ ps) ≡ tally w os + tally w ps
  tally-append w [] ps = omega arith
  tally-append w (o ∷ os) ps = omega (arith, tally-append w os ps)

  pub weigh-le-tally :
      (w : A → ℕ) (os : List (Option A)) (i : ℕ) (o : Option A)
      → get_elem? os i ≡ some o
      → weigh w o ≤ tally w os
  weigh-le-tally w [] i o h = absurd (cc)
  weigh-le-tally w (p ∷ os) zero o h = ground arith
  weigh-le-tally w (p ∷ os) (suc i) o h = omega (arith, weigh-le-tally w os i o h)

  pub tally_ended : (w : A → ℕ) (os : List (Option A)) → All (λ o. o ≡ none) os → tally w os ≡ 0
  tally_ended w [] ended = omega arith
  tally_ended w (o ∷ os) ended = ground (arith, tally_ended w os ended.1)

  -- Two slots together weigh no more than all.
  pub weigh-add_le-tally :
      (w : A → ℕ) (os : List (Option A)) (i j : ℕ) (o p : Option A)
      → i ≢ j
      → get_elem? os i ≡ some o
      → get_elem? os j ≡ some p
      → weigh w o + weigh w p ≤ tally w os
  weigh-add_le-tally w os i j o p ne hi hj = omega (
    arith,
    tally-set w os i o none hi,
    weigh-le-tally w (set os i none) j p (get_elem?-set_ne os none ne ∙ hj),
  )
