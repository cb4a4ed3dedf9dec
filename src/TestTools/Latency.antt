-- ===== src/TestTools/Latency.antt =====
-- The percentiles of tools/common.hpp.
use mathlib.Core.List.{Permᴰ}
use syseng.Base.{
  ℕ, ◌+◌, ◌-◌, ◌%◌, ◌^◌, ◌<◌, ◌≤◌, ◌≡◌, refl, true, some, List, [], ◌∷◌, length, get_elem?,
  get_elem?-some, leb, if◌then◌else◌, arith, ◌∙◌,
}
use syseng.Base.Int.{ℤ, pos, ltb_ℤ}
use syseng.Base.Doubles.{Doubles, DoubleLaws}
use syseng.ContainerBenchmark.Containers.{sort}
use syseng.ContainerBenchmark.Search.{IsSorted, sort-IsSorted}
use syseng.ContainerBenchmark.Bench.{sum_all}
use syseng.ContainerBenchmark.Sums.{
  naturals, total, sum_all-total, naturals-Perm, total-Perm, length-Perm,
}
use syseng.ContainerBenchmark.Values.{sort-Perm}
use syseng.TestTools.Percentages.{rank_of, rank-some, ranks-le, tenths-IsPercentage}
use syseng.TestTools.Ranks.{count_below, count_above, count-Perm, IsSorted-count, IsSorted-get}
use syseng.TestTools.{percentile, Dist, latency_dist}

-- The index that is read: the computed one, or the last where that is too large.
abbrev pub clamped : ℕ → ℕ → ℕ
clamped size idx = if leb size idx then size - 1 else idx

-- A double is the sample at the index for k tenths of a percent: with i the index, or the last one
-- where that is too large, at most i samples are below it, and fewer than n - i above it.
abbrev pub IsRanked : (f : Doubles) → ℕ → List ℤ → f.Carrier → Type 0
IsRanked f k samples d =
    (v : ℤ) × (i : ℕ) × (d ≡ f.of_int v)
    × (f.to_size (rank_of f (f.tenths k) (length samples)) ≡ some i)
    × (count_below v samples ≤ clamped (length samples) i)
    × (count_above v samples + clamped (length samples) i < length samples)

module _ (f : Doubles) (laws : DoubleLaws f) where
  -- The element that is read for an index, the last where that is too large.
  percentile_lem :
      (sorted : List ℤ) (p : f.Carrier) (i : ℕ) (v : ℤ)
      → 1 ≤ length sorted
      → length sorted ≤ 2 ^ 53
      → f.to_size (rank_of f p (length sorted)) ≡ some i
      → get_elem? sorted (clamped (length sorted) i) ≡ some v
      → percentile f sorted p ≡ some (f.of_int v)
  unfolding percentile
  percentile_lem sorted p i v more small at_p found =
      let last : (length sorted + (2 ^ 64 - 1)) % 2 ^ 64 ≡ length sorted - 1 = omega arith in
      rw (at_p, last, found) refl

  -- The samples, and the same in order.
  module _ (samples sorted : List ℤ) (perm : Permᴰ sorted samples) (ascending : IsSorted sorted)
      (more : 1 ≤ length samples) (small : length samples ≤ 2 ^ 53) where
    -- What percentile() reads for k tenths of a percent.
    Reads : ℕ → ℕ → ℤ → Type 0
    Reads k i v =
        (f.to_size (rank_of f (f.tenths k) (length samples)) ≡ some i)
        × (get_elem? sorted (clamped (length samples) i) ≡ some v)

    percentile-Reads :
        (k : ℕ)
        → k ≤ 1000
        → (i : ℕ) × (v : ℤ) × Reads k i v × (percentile f sorted (f.tenths k) ≡ some (f.of_int v))
    unfolding Reads
    percentile-Reads k le =
        let n = length-Perm perm in
        let (i, at) =
          rank-some f laws (f.tenths k) (length samples) more small
            (tenths-IsPercentage f laws k le) in
        let (v, found) =
          get_elem?-some sorted (clamped (length samples) i) (ground (arith, more, n)) in
        (
          i,
          v,
          (at, found),
          percentile_lem sorted (f.tenths k) i v (omega (arith, more, n)) (omega (arith, small, n))
              (rw n at) (rw n found),
        )

    Reads-IsRanked : (k i : ℕ) (v : ℤ) → Reads k i v → IsRanked f k samples (f.of_int v)
    unfolding Reads
    Reads-IsRanked k i v r =
        let (below, above) = IsSorted-count sorted (clamped (length samples) i) ascending r.1 in
        let below_same = count-Perm (λ x. ltb_ℤ x v) perm in
        let above_same = count-Perm (λ x. ltb_ℤ v x) perm in
        (
          v,
          i,
          refl,
          r.0,
          omega (arith, below, below_same),
          omega (arith, above, above_same, length-Perm perm),
        )

    Reads-le :
        (j k i i' : ℕ) (v w : ℤ)
        → j ≤ k
        → k ≤ 1000
        → Reads j i v
        → Reads k i' w
        → f.le (f.of_int v) (f.of_int w)
    unfolding Reads
    Reads-le j k i i' v w le percent r s =
        let ranks =
          ranks-le f laws (f.tenths j) (f.tenths k) (length samples) more small
            (tenths-IsPercentage f laws j (omega arith)) (laws.tenths-mono j k le) r.0 s.0 in
        let before : clamped (length samples) i ≤ clamped (length samples) i' =
          ground (arith, ranks) in
        let up =
          IsSorted-get sorted (clamped (length samples) i) (clamped (length samples) i') ascending
            before r.1 s.1 in
        laws.of_int-mono v w (ground (arith, up))

-- For samples that are not negative, from 1 to 2^53 of them, with a sum that fits a long long, and
-- doubles that round in order, print_latency_dist reads no sample out of bounds and converts no
-- index out of range. It prints the quotient of the exact sum and the number n of samples, and three
-- samples in ascending order, for 50, 99 and 99.9 percent: with i the index that is computed for the
-- percentage, or n - 1 where that is too large, at most i samples are below the one printed, and
-- fewer than n - i above it.
pub latency_dist_lem :
    (f : Doubles)
    → DoubleLaws f
    → (samples : List ℤ) → 1 ≤ length samples
    → length samples ≤ 2 ^ 53
    → naturals samples ≡ true
    → total samples < 2 ^ 63
    → (d : Dist f) × (latency_dist f samples ≡ some (some d))
      × f.le d.p50 d.p99
      × f.le d.p99 d.p999
      × IsRanked f 500 samples d.p50
      × IsRanked f 990 samples d.p99
      × IsRanked f 999 samples d.p999
      × (d.avg ≡ f.div (f.of_int (pos (total samples))) (f.of_int (pos (length samples))))
unfolding latency_dist
latency_dist_lem f laws [] more short natural small = absurd (omega arith)
latency_dist_lem f laws (x ∷ xs) more short natural small =
    let samples = x ∷ xs in
    let perm = sort-Perm samples in
    let up = sort-IsSorted samples in
    let (i, a, ra, at_a) =
      percentile-Reads f laws samples (sort samples) perm up more short 500 (omega arith) in
    let (j, b, rb, at_b) =
      percentile-Reads f laws samples (sort samples) perm up more short 990 (omega arith) in
    let (k, c, rc, at_c) =
      percentile-Reads f laws samples (sort samples) perm up more short 999 (omega arith) in
    let whole : sum_all 63 (sort samples) (pos 0) ≡ some (pos (total samples)) =
      sum_all-total 63 (sort samples) 0 (omega arith) (naturals-Perm perm ∙ natural)
      ∙ ground (arith, total-Perm perm) in
    let n = length-Perm perm in
    (
      record {
        avg = f.div (f.of_int (pos (total samples))) (f.of_int (pos (length samples)));
        p50 = f.of_int a;
        p99 = f.of_int b;
        p999 = f.of_int c;
      },
      rw (at_a, at_b, at_c, whole, n) refl,
      Reads-le f laws samples (sort samples) perm up more short 500 990 i j a b (omega arith)
          (omega arith) ra rb,
      Reads-le f laws samples (sort samples) perm up more short 990 999 j k b c (omega arith)
          (omega arith) rb rc,
      Reads-IsRanked f laws samples (sort samples) perm up more short 500 i a ra,
      Reads-IsRanked f laws samples (sort samples) perm up more short 990 j b rb,
      Reads-IsRanked f laws samples (sort samples) perm up more short 999 k c rc,
      refl,
    )
