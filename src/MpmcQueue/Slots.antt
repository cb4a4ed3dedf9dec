-- ===== src/MpmcQueue/Slots.antt =====
-- The slots of a new MPMCQueue.
use syseng.Base.{
  ℕ, zero, suc, ◌+◌, ◌≡◌, some, List, length, get_elem?, get_elem?-set, get_elem?-ge, none, set,
  replicate, length-set, length-replicate, if◌then◌else◌, ltb, leb, ◌&&◌, arith,
}
use syseng.MpmcQueue.{Slot, numbered, fresh, init_loop, construct}

init_loop_lem :
    {T : Type 0} (k i : ℕ) (buffer : List (Slot T)) (j : ℕ)
    → length buffer ≡ i + k
    → get_elem? (init_loop k i buffer) j
      ≡ (if leb i j && ltb j (i + k) then some (numbered j) else get_elem? buffer j)
unfolding init_loop
init_loop_lem zero i buffer j size = ground arith
init_loop_lem {T} (suc k) i buffer j size =
    let stored = get_elem?-set buffer i (numbered i) j (omega (arith, size)) in
    let rest =
      init_loop_lem k (i + 1) (set buffer i (numbered i)) j
        (omega (arith, size, length-set buffer i (numbered {T = T} i))) in
    ground (arith, rest, stored)

-- In a new queue of n slots slot j holds the sequence number j, so that by the protocol each slot is
-- ready to be written for the position that comes to it first; there are no other slots.
construct_lem :
    {T : Type 0} (n j : ℕ)
    → get_elem? (construct {T = T} n).buffer_ j ≡ (if ltb j n then some (numbered j) else none)
unfolding construct
construct_lem {T} n j =
    let size = length-replicate n (fresh {T = T}) in
    let all = init_loop_lem n 0 (replicate n (fresh {T = T})) j (omega (arith, size)) in
    ground (arith, all, get_elem?-ge (replicate n (fresh {T = T})) j, size)
