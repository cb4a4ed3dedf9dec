-- ===== src/PoolAllocator/Regions.antt =====
-- Where the allocations of pool_allocator.hpp lie.
use syseng.Base.{
  ℕ, ◌+◌, ◌-◌, ◌*◌, ◌^◌, ◌≤◌, ◌<◌, ◌≡◌, none, some, List, [], ◌∷◌, if◌then◌else◌, arith, leb, All,
  Bool-cases, inl, inr, ◌∙◌,
}
use syseng.PoolAllocator.{
  State, Op, alloc, free, pool_size, allocate, deallocate, handed, step, run,
}

-- No request computes more bytes than a size_t holds, by far.
unfoldable pub Modest : List Op → Type 0
Modest [] = Unit
Modest (alloc size_of n ∷ ops) = (n * size_of < 2 ^ 63) × Modest ops
Modest (free p n ∷ ops) = Modest ops

-- An allocation without wrap-around succeeds exactly when the pool has room; it gives the region at
-- the bump pointer, which moves behind it, and a failure leaves the state.
allocate_lem :
    (size_of n : ℕ) (s : State)
    → s.g_offset ≤ pool_size
    → n * size_of < 2 ^ 63
    → allocate size_of n s ≡ (
        if leb (n * size_of) (pool_size - s.g_offset)
        then (some s.g_offset, record { g_offset = s.g_offset + n * size_of })
        else (none, s))
unfolding allocate
allocate_lem size_of n s inside modest = ground arith

-- Every region lies in the pool, and every later one behind it.
pub Apart : List (ℕ × ℕ) → Type 0
Apart [] = Unit
Apart ((p, bytes) ∷ rs) = (p + bytes ≤ pool_size) × All (λ r. p + bytes ≤ r.0) rs × Apart rs

All-mono : (a b : ℕ) (rs : List (ℕ × ℕ)) → a ≤ b → All (λ r. b ≤ r.0) rs → All (λ r. a ≤ r.0) rs
All-mono a b [] h all = tt
All-mono a b (r ∷ rs) h all = (omega (arith, all.0), All-mono a b rs h all.1)

run-Apart :
    (ops : List Op) (s : State)
    → s.g_offset ≤ pool_size
    → Modest ops
    → Apart (run ops s).0
      × All (λ r. s.g_offset ≤ r.0) (run ops s).0
      × (s.g_offset ≤ (run ops s).1.g_offset)
      × ((run ops s).1.g_offset ≤ pool_size)
unfolding run step handed Modest Apart deallocate
run-Apart [] s inside modest = (tt, tt, omega arith, inside)
run-Apart (free p n ∷ ops) s inside modest = run-Apart ops s inside modest
run-Apart (alloc size_of n ∷ ops) s inside modest =
    elim (Bool-cases (leb (n * size_of) (pool_size - s.g_offset))) [
      | inl room ↦
          let t : State = record { g_offset = s.g_offset + n * size_of } in
          let given : allocate size_of n s ≡ (some s.g_offset, t) =
            allocate_lem size_of n s inside modest.0 ∙ rw room in
          let fits : s.g_offset + n * size_of ≤ pool_size = ground arith in
          let (apart, behind, onward, within) = run-Apart ops t fits modest.1 in
          rw given (
            (fits, behind, apart),
            (omega arith, All-mono s.g_offset t.g_offset (run ops t).0 (omega arith) behind),
            omega arith,
            within,
          )
      | inr full ↦
          let refused : allocate size_of n s ≡ (none, s) =
            allocate_lem size_of n s inside modest.0 ∙ rw full in
          rw refused (run-Apart ops s inside modest.1)
    ]

-- From a state whose bump pointer is in the pool, whatever is allocated, refused and freed, as long
-- as no request comes near 2^64 bytes, all regions handed out lie in the pool and none overlaps an
-- earlier one; the bump pointer stays in the pool.
pub pool_regions-Apart :
    (ops : List Op) (s : State)
    → s.g_offset ≤ pool_size
    → Modest ops
    → Apart (run ops s).0 × ((run ops s).1.g_offset ≤ pool_size)
pool_regions-Apart ops s inside modest =
    let (apart, _, _, within) = run-Apart ops s inside modest in (apart, within)

-- The two multiplications and additions that wrap are accepted as small requests: with an offset of
-- k > 0 a request of 2^64 - k bytes succeeds and takes the bump pointer back to 0, and one of 2^61
-- objects of 8 bytes succeeds with no byte reserved.
pub allocate_wraps :
    (s : State)
    → 0 < s.g_offset
    → s.g_offset ≤ pool_size
    → (allocate 1 (2 ^ 64 - s.g_offset) s ≡ (some s.g_offset, record { g_offset = 0 }))
      × (allocate 8 (2 ^ 61) s ≡ (some s.g_offset, s))
unfolding allocate
allocate_wraps s used inside = (ground arith, ground arith)
