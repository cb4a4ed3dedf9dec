-- ===== src/SpscQueue.antt =====
-- 05-concurrency/exercises/ex2-spsc-queue/spsc_queue.hpp: the two indices of SPSCQueue<T, N> and the
-- queries on them, each on a value of the indices as its loads deliver it. size_t is 64 bits wide
-- and wraps. push, pop and try_pop are placeholders in the source, and are so here.
pub mod Mask
pub mod Occupancy
mod Tests
use syseng.Base.{ℕ, zero, suc, ◌+◌, ◌-◌, ◌*◌, ◌/◌, ◌%◌, ◌^◌, Bool, false, Option, none, ◌==◌}

-- `x & y`, on the given number of bits.
unfoldable land_bits : ℕ → ℕ → ℕ → ℕ
land_bits zero x y = 0
land_bits (suc bits) x y = x % 2 * (y % 2) + 2 * land_bits bits (x / 2) (y / 2)

unfoldable land : ℕ → ℕ → ℕ
land x y = land_bits 64 x y

-- `N - 1`
unfoldable mask : ℕ → ℕ
mask n = (n + (2 ^ 64 - 1)) % 2 ^ 64

pub record Queue : Type 0 where
  pub head_ : ℕ
  pub tail_ : ℕ

-- SPSCQueue()
unfoldable construct : Queue
construct = record { head_ = 0; tail_ = 0 }

unfoldable push : {T : Type 0} → T → Queue → Bool × Queue
push val q = (false, q)

unfoldable pop : {T : Type 0} → Queue → Option T × Queue
pop q = (none, q)

-- `out` stays as it was.
unfoldable try_pop : {T : Type 0} → T → Queue → Bool × T × Queue
try_pop out q = (false, out, q)

unfoldable size : ℕ → Queue → ℕ
size n q = land ((q.head_ + (2 ^ 64 - q.tail_)) % 2 ^ 64) (mask n)

unfoldable empty : Queue → Bool
empty q = q.head_ == q.tail_

unfoldable full : ℕ → Queue → Bool
full n q = land ((q.head_ + 1) % 2 ^ 64) (mask n) == land q.tail_ (mask n)
