-- ===== src/Entity/Health.antt =====
-- The hit points of the entities of structs.c under damage and healing.
use syseng.Base.{
  ℕ, ◌+◌, ◌-◌, ◌^◌, ◌≤◌, ◌<◌, ◌≡◌, refl, Option, some, List, [], ◌∷◌, if◌then◌else◌, ◌>>=◌, ◌==◌,
  leb, arith, subst,
}
use syseng.Base.CInt.{add, sub}
use syseng.Base.Int.{ℤ, pos, ◌+ℤ◌, ◌-ℤ◌}
use syseng.Entity.{Entity, entity_init, entity_take_damage, entity_heal}

pub data Event : Type 0 where
  damage : ℕ → Event
  heal : ℕ → Event

unfoldable step : Event → Entity → Option Entity
step (damage amount) e = entity_take_damage (pos amount) e
step (heal amount) e = entity_heal (pos amount) e

pub run : List Event → Entity → Option Entity
run [] e = some e
run (v ∷ events) e = do e' ← step v e; run events e'

-- What structs.h promises of the hit points: not below 0, not above the maximum, none for the dead.
abbrev pub points : ℕ → Event → ℕ → ℕ
points m (damage amount) h = h - amount
points m (heal amount) h = if h == 0 then 0 else if leb m (h + amount) then m else h + amount

abbrev pub health : ℕ → List Event → ℕ → ℕ
health m [] h = h
health m (v ∷ events) h = health m events (points m v h)

-- The entity with these hit points, alive exactly if there are any.
abbrev pub with_points : ℕ → Entity → Entity
with_points h e = record e { hp = pos h; alive = if h == 0 then pos 0 else pos 1 }

-- Where no call with h hit points before it computes a sum or a difference that is out of range.
abbrev pub Fits : ℕ → Event → Type 0
Fits h (damage amount) = amount ≤ 2 ^ 31
Fits h (heal amount) = h + amount < 2 ^ 31

abbrev pub AllFit : ℕ → List Event → ℕ → Type 0
AllFit m [] h = Unit
AllFit m (v ∷ events) h = Fits h v × AllFit m events (points m v h)

points-le : (m : ℕ) (v : Event) (h : ℕ) → h ≤ m → points m v h ≤ m
points-le m (damage amount) h le = omega arith
points-le m (heal amount) h le = ground arith

step-with_points :
    (m h : ℕ) (v : Event) (e : Entity)
    → e.max_hp ≡ pos m
    → m < 2 ^ 31
    → h ≤ m
    → Fits h v
    → step v (with_points h e) ≡ some (with_points (points m v h) e)
unfolding step entity_take_damage entity_heal add sub ◌+ℤ◌ ◌-ℤ◌
step-with_points m h (damage amount) e top room le fit = ground arith
step-with_points m h (heal amount) e top room le fit = rw top (ground arith)

run-with_points :
    (m h : ℕ) (events : List Event) (e : Entity)
    → e.max_hp ≡ pos m
    → m < 2 ^ 31
    → h ≤ m
    → AllFit m events h
    → run events (with_points h e) ≡ some (with_points (health m events h) e)
unfolding run
run-with_points m h [] e top room le fit = refl
run-with_points m h (v ∷ events) e top room le fit =
    rw (step-with_points m h v e top room le fit.0)
      (run-with_points m (points m v h) events e top room (points-le m v h le) fit.1)

health-le : (m : ℕ) (events : List Event) (h : ℕ) → h ≤ m → health m events h ≤ m
health-le m [] h le = le
health-le m (v ∷ events) h le = health-le m events (points m v h) (points-le m v h le)

-- An entity made with a positive maximum below 2^31 goes through any damages and healings in any
-- order, whose amounts are not negative and where no healing overflows on top of the hit points that
-- it meets and no damage is above 2^31, with every call defined: its hit points are those promised
-- and at most the maximum, it is alive exactly if there are any left, and its name, place and
-- maximum stay.
pub health_lem :
    (name : List ℕ) (x y : ℤ) (m : ℕ) (events : List Event)
    → 0 < m
    → m < 2 ^ 31
    → AllFit m events m
    → (run events (entity_init name x y (pos m))
        ≡ some (with_points (health m events m) (entity_init name x y (pos m))))
      × (health m events m ≤ m)
unfolding entity_init
health_lem name x y m events some_hp room fit =
    let e = entity_init name x y (pos m) in
    let start : with_points m e ≡ e = ground arith in
    (
      subst (λ (f : Entity). run events f ≡ some (with_points (health m events m) e)) start
          (run-with_points m m events e refl room (omega arith) fit),
      health-le m events m (omega arith),
    )
