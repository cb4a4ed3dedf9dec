-- ===== src/TestTools/Median.antt =====
-- The sample that median_ns of tools/common.hpp returns.
use syseng.Base.{
  ℕ, zero, suc, ◌-◌, ◌^◌, ◌<◌, ◌≡◌, refl, true, false, none, some, List, [], ◌∷◌, ltb, arith,
}
use syseng.Base.Int.{ℤ, pos, negsuc, ◌-ℤ◌}
use syseng.Base.CInt.{size_of_int}
use syseng.ContainerBenchmark.Containers.{sort}
use syseng.TestTools.Timing.{Readings, length_error, sample_loop, median_ns}

-- The times between the readings of k iterations.
pub durations : Readings → ℕ → ℕ → List ℤ
durations clock zero r = []
durations clock (suc k) r = (clock (suc r) -ℤ clock r) ∷ durations clock k (suc (suc r))

pub iterate : {W : Type 0} → (W → W) → ℕ → W → W
iterate fn zero w = w
iterate fn (suc k) w = iterate fn k (fn w)

-- Without an iteration median_ns reads the first of no samples, which is undefined behaviour, and
-- for a negative number of iterations, which becomes a size of 2^63 or more, it throws, as no vector
-- is that large.
median_ns_without_samples :
    {W : Type 0} (fn : W → W) (clock : Readings) (max_size k : ℕ) (w : W)
    → max_size < 2 ^ 63
    → k < 2 ^ 31
    → (median_ns fn clock max_size (pos 0) w ≡ none)
      × (median_ns fn clock max_size (negsuc k) w ≡ some length_error)
unfolding median_ns size_of_int sample_loop sort
median_ns_without_samples fn clock max_size k w limit small =
    let none_reserved : ltb max_size 0 ≡ false = ground arith in
    let huge : ltb max_size (2 ^ 64 - suc k) ≡ true = ground (arith, limit, small) in
    (rw none_reserved refl, rw huge refl)
