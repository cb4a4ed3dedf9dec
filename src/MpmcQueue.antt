-- ===== src/MpmcQueue.antt =====
-- 05-concurrency/exercises/ex3-mpmc-false-sharing/mpmc_queue.hpp: MPMCQueue<T, N>. The constructor is
-- written; push, pop, their two variants and the two benchmarks are placeholders in the source, and
-- are so here.
mod Slots
use syseng.Base.{ℕ, zero, suc, ◌+◌, Bool, false, Option, none, some, List, replicate, set}
use syseng.Base.Int.{ℤ, pos}

-- A slot whose `seq` or `data` was not stored yet has `none` there.
pub record Slot (T : Type 0) : Type 0 where
  pub seq : Option ℕ
  pub value : Option T

pub record Queue (T : Type 0) : Type 0 where
  pub enqueue_pos_ : ℕ
  pub dequeue_pos_ : ℕ
  pub buffer_ : List (Slot T)

module _ {T : Type 0} where
  abbrev pub fresh : Slot T
  fresh = record { seq = none; value = none }

  abbrev pub numbered : ℕ → Slot T
  numbered i = record { seq = some i; value = none }

  -- The loop of the constructor at i, with k rounds left.
  unfoldable init_loop : ℕ → ℕ → List (Slot T) → List (Slot T)
  init_loop zero i buffer = buffer
  init_loop (suc k) i buffer = init_loop k (i + 1) (set buffer i (numbered i))

  unfoldable construct : ℕ → Queue T
  construct n = record {
    enqueue_pos_ = 0;
    dequeue_pos_ = 0;
    buffer_ = init_loop n 0 (replicate n fresh);
  }

  unfoldable push : T → Queue T → Queue T
  push val q = q

  unfoldable try_push : T → Queue T → Bool × Queue T
  try_push val q = (false, q)

  -- `out` stays as it was.
  unfoldable pop : T → Queue T → T × Queue T
  pop out q = (out, q)

  unfoldable try_pop : T → Queue T → Bool × T × Queue T
  try_pop out q = (false, out, q)

-- The counters of the two benchmarks, which differ in the addresses of their fields.
record Counters : Type 0 where
  producer_count : ℤ
  consumer_count : ℤ

unfoldable benchmark_false_sharing : ℕ → ℤ
benchmark_false_sharing n_iters = pos 0

unfoldable benchmark_no_false_sharing : ℕ → ℤ
benchmark_no_false_sharing n_iters = pos 1
