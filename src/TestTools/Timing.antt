-- ===== src/TestTools/Timing.antt =====
-- The timing of tools/common.hpp: elapsed_ns, elapsed_us, elapsed_ms and median_ns.
use syseng.Base.{
  ℕ, zero, suc, ◌/◌, Option, some, List, [], ◌∷◌, ◌++◌, length, get_elem?, ltb, if◌then◌else◌,
  ◌>>=◌,
}
use syseng.Base.Int.{ℤ, pos, pos_part, ◌-ℤ◌}
use syseng.Base.CInt.{exact, size_of_int}
use syseng.ContainerBenchmark.Machine.{int_div}
use syseng.ContainerBenchmark.Containers.{sort}

-- A steady clock: its readings, in nanoseconds, in the order in which they are taken.
abbrev pub Readings : Type 0
Readings = ℕ → ℤ

-- The time since `start`, by the reading that is taken now.
unfoldable pub elapsed_ns : ℤ → ℤ → Option ℤ
elapsed_ns now start = exact 63 (now -ℤ start)

unfoldable elapsed_us : ℤ → ℤ → Option ℤ
elapsed_us now start = do ns ← exact 63 (now -ℤ start); int_div ns (pos 1000)

unfoldable elapsed_ms : ℤ → ℤ → Option ℤ
elapsed_ms now start = do ns ← exact 63 (now -ℤ start); int_div ns (pos 1000000)

-- A result, or the exception that std::vector documents for a reserve() above max_size().
pub data Outcome (A : Type 0) : Type 0 where
  returns : A → Outcome A
  length_error : Outcome A

-- The function that is timed, on the state that it changes.
module _ {W : Type 0} (fn : W → W) (clock : Readings) where
  -- The loop of median_ns() with k iterations left, after r readings.
  unfoldable pub sample_loop : ℕ → ℕ → List ℤ → W → Option (List ℤ × W)
  sample_loop zero r samples w = some (samples, w)
  sample_loop (suc k) r samples w = do
    ns ← elapsed_ns (clock (suc r)) (clock r)
    sample_loop k (suc (suc r)) (samples ++ ns ∷ []) (fn w)

  -- The sample that is returned as a double, and the state that fn left.
  unfoldable pub median_ns : ℕ → ℤ → W → Option (Outcome (ℤ × W))
  median_ns max_size iterations w =
      let timed = do
        (samples, w') ← sample_loop (pos_part iterations) 0 [] w
        m ← get_elem? (sort samples) (length (sort samples) / 2)
        some (returns (m, w'))
      in if ltb max_size (size_of_int iterations) then some length_error else timed
