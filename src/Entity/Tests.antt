-- ===== src/Entity/Tests.antt =====
-- Entities of structs.c at concrete values.
use syseng.Base.{
  codes, ℕ, ◌+◌, ◌≤◌, ◌≡◌, refl, none, some, List, [], ◌∷◌, take, length, replicate, if◌then◌else◌,
  ◌>>=◌, ltb, arith,
}
use syseng.Base.CInt.{add, sub}
use syseng.Base.Int.{ℤ, pos, pos_part, negsuc, ◌+ℤ◌, ◌-ℤ◌}
use syseng.Entity.{
  Entity, entity_init, strncpy, text_of, entity_status, entity_heal, entity_take_damage,
}
use syseng.Entity.Health.{Event, damage, heal, run, with_points, health_lem}
use syseng.Entity.Status.{status_size}

abbrev goblin : Entity
goblin = entity_init (codes "Goblin") (pos 3) (pos 5) (pos 10)

-- Digits enough for the tests.
abbrev digits : ℤ → List ℕ
digits v = if ltb (pos_part v) 10 then (48 + pos_part v) ∷ [] else codes "10"

status_test : entity_status digits goblin ≡ codes "Goblin (3,5) HP: 10/10 [ALIVE]"
unfolding entity_status entity_init strncpy text_of
status_test = refl

-- Healing near the largest int overflows before the clamp.
heal_overflow_test : entity_heal (pos 1) (entity_init [] (pos 0) (pos 0) (pos 2147483647)) ≡ none
unfolding entity_heal entity_init add ◌+ℤ◌
heal_overflow_test = refl

-- A negative amount of damage takes the hit points above the maximum.
damage_negative_test : (do e ← entity_take_damage (negsuc 4) goblin; some e.hp) ≡ some (pos 15)
unfolding entity_take_damage entity_init sub ◌-ℤ◌
damage_negative_test = refl

-- An entity made without hit points counts as alive.
init_dead_test : (entity_init [] (pos 0) (pos 0) (pos 0)).alive ≡ pos 1
unfolding entity_init
init_dead_test = refl

abbrev fight : List Event
fight = damage 7 ∷ heal 4 ∷ damage 2 ∷ heal 100 ∷ damage 10 ∷ heal 5 ∷ []

health_lem_example : (run fight goblin ≡ some (with_points 0 goblin)) × (0 ≤ 10)
health_lem_example =
    health_lem (codes "Goblin") (pos 3) (pos 5) 10 fight (omega arith) (omega arith)
      (omega arith, (omega arith, (omega arith, (omega arith, (omega arith, (omega arith, tt))))))

status_size_example :
    (length (entity_status (λ v. replicate 11 57) goblin) + 1 ≤ 128)
    × (text_of goblin.name ≡ take 63 (codes "Goblin"))
unfolding entity_init
status_size_example =
    status_size (λ v. replicate 11 57) (codes "Goblin") goblin (λ v f. omega arith)
      (
        λ e. omega arith,
        (
          λ e. omega arith,
          (λ e. omega arith, (λ e. omega arith, (λ e. omega arith, (λ e. omega arith, tt)))),
        ),
      )
      refl (refl, refl, refl, refl)

abbrev at_place : ℤ → ℤ → Entity
at_place x y = entity_init (codes "Orc") x y (pos 10)
