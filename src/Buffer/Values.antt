-- ===== src/Buffer/Values.antt =====
-- What copies and moves of buffer.hpp do to the bytes.
use syseng.Base.{
  ℕ, zero, suc, ◌+◌, ◌<◌, ◌^◌, ◌≡◌, refl, Option, some, List, [], ◌∷◌, ◌++◌, arith, get_elem?,
  length, ◌>>=◌, get_elem?-set_self, get_elem?-append_lt, get_elem?-append_end, get_elem?-lt,
  replicate,
}
use syseng.Memory.{owning, live_obj, obj_of, freed, new_address}
use syseng.Memory.Owned.{IsOwned, block-new, block_fresh}
use syseng.Buffer.{State, copy_construct, copy_assign, copy_count, move_count, size}
use syseng.Buffer.Copy.{elements}
use syseng.Buffer.Outcomes.{owned_elements, copy_construct-owned, copy_assign_self}

-- The bytes of a live buffer.
abbrev pub contents : ℕ → State → Option (List ℕ)
contents i s = obj_of i s.mem >>= λ o. elements o.data_ s.mem.blocks

-- A new array is what stands at the new address, and the old addresses are as they were.
elements-new :
    (vs : List ℕ) (bs : List (Option (List ℕ)))
    → elements (suc (length bs)) (bs ++ some vs ∷ []) ≡ some vs
elements-new vs bs = ground (arith, block-new (suc (length bs)) vs bs)

elements-old :
    (q : ℕ) (vs ws : List ℕ) (bs : List (Option (List ℕ)))
    → elements q bs ≡ some ws
    → elements q (bs ++ some vs ∷ []) ≡ some ws
elements-old zero vs ws bs h = h
elements-old (suc q) vs ws bs h = ground (arith, block-new (suc q) vs bs, block_fresh (suc q) bs)

module _ (s : State) (own : IsOwned s.mem) where
  elements-length :
      (i q k : ℕ) (vs : List ℕ)
      → get_elem? s.mem.objs i ≡ some (some (owning q k))
      → elements q s.mem.blocks ≡ some vs
      → length vs ≡ k
  elements-length i q k vs live there =
      let (ws, there', len) = owned_elements s own i q k live in
      let same : ws ≡ vs = cc in rw (← same) len

  -- A copy construction gives a new buffer with the same bytes in an array of its own, leaves the
  -- source's bytes, and counts one copy and no move.
  copy_construct_lem :
      (j : ℕ) (vs : List ℕ)
      → contents j s ≡ some vs
      → s.s_copies_ + 1 < 2 ^ 31
      → (t : State) × (copy_construct j s ≡ some t)
        × (contents (length s.mem.objs) t ≡ some vs)
        × (contents j t ≡ some vs)
        × (size (length s.mem.objs) t ≡ size j s)
        × (copy_count t ≡ copy_count s + 1)
        × (move_count t ≡ move_count s)
  unfolding size copy_count move_count
  copy_construct_lem j vs h fits =
      let (o, live, there) = live_obj j s.mem (λ o. elements o.data_ s.mem.blocks) h in
      let k = o.size_ in
      let len = elements-length j o.data_ k vs live there in
      let new = some (owning (new_address s.mem) k) in
      let here = get_elem?-append_end s.mem.objs new (length s.mem.objs) refl in
      let old = get_elem?-append_lt s.mem.objs (new ∷ []) j (get_elem?-lt s.mem.objs j live) in
      (
        _,
        copy_construct-owned s own j o.data_ k vs live there len fits,
        rw here (elements-new vs s.mem.blocks),
        rw (old, live) (elements-old o.data_ vs vs s.mem.blocks there),
        rw (here, live),
        refl,
        refl,
      )

  -- Assigned to itself, a buffer loses its bytes: it has as many zeros afterwards.
  pub copy_assign_self_zeros :
      (i : ℕ) (vs : List ℕ)
      → contents i s ≡ some vs
      → s.s_copies_ + 1 < 2 ^ 31
      → (t : State) × (copy_assign i i s ≡ some t) × (contents i t ≡ some (replicate (length vs) 0))
  copy_assign_self_zeros i vs h fits =
      let (o, live, there) = live_obj i s.mem (λ o. elements o.data_ s.mem.blocks) h in
      let len = elements-length i o.data_ o.size_ vs live there in
      let m = freed o.data_ s.mem in
      let new = some (owning (new_address m) o.size_) in
      let here = get_elem?-set_self s.mem.objs i new (get_elem?-lt s.mem.objs i live) in
      (
        _,
        copy_assign_self s own i o.data_ o.size_ live fits,
        rw (here, len) (elements-new (replicate o.size_ 0) m.blocks),
      )
