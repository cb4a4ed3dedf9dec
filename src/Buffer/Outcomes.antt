-- ===== src/Buffer/Outcomes.antt =====
-- The exact state after each constructor, assignment and destructor of buffer.hpp on live objects.
use syseng.Base.{
  ℕ, zero, suc, ◌+◌, ◌<◌, ◌^◌, ◌≡◌, ◌≢◌, refl, ◌∙◌, some, List, [], ◌∷◌, ◌++◌, arith, get_elem?,
  set, length, get_elem?-set_self, get_elem?-set_ne, get_elem?-lt, lt→ltb, replicate,
}
use syseng.Memory.{
  owning, nullptr, free_block, freed, new_address, new_array, new_obj, put_obj, end_obj,
}
use syseng.Memory.Owned.{IsOwned, delete-owned, owned_block, null_size, distinct_arrays, block-free}
use syseng.Buffer.{
  State, increment, copy_construct, copy_assign, move_construct, move_assign, destroy,
}
use syseng.Buffer.Copy.{elements, copy_loop-new, copy_loop-new_self}

increment-fits : (c : ℕ) → c + 1 < 2 ^ 31 → increment c ≡ some (c + 1)
increment-fits c h = rw (lt→ltb (c + 1) (2 ^ 31) h)

module _ (s : State) (own : IsOwned s.mem) where
  -- A live object has its elements, as many as its size says.
  pub owned_elements :
      (i q k : ℕ)
      → get_elem? s.mem.objs i ≡ some (some (owning q k))
      → (vs : List ℕ) × (elements q s.mem.blocks ≡ some vs) × (length vs ≡ k)
  owned_elements i zero k live = ([], refl, omega (arith, null_size own i k live))
  owned_elements i (suc q) k live = owned_block own i q k live

  pub copy_construct-owned :
      (j q k : ℕ) (vs : List ℕ)
      → get_elem? s.mem.objs j ≡ some (some (owning q k))
      → elements q s.mem.blocks ≡ some vs
      → length vs ≡ k
      → s.s_copies_ + 1 < 2 ^ 31
      → copy_construct j s
        ≡ some (record s {
          mem = new_obj (owning (new_address s.mem) k) (new_array vs s.mem);
          s_copies_ = s.s_copies_ + 1;
        })
  unfolding copy_construct
  copy_construct-owned j q k vs from there len fits = rw (
    from,
    copy_loop-new q k vs (s.mem.objs ++ some (owning (new_address s.mem) k) ∷ []) s.mem.blocks there
        len,
    increment-fits s.s_copies_ fits,
  )

  -- delete[] of one object's array leaves another's elements.
  pub elements-freed :
      (i j p n q k : ℕ)
      → i ≢ j
      → get_elem? s.mem.objs i ≡ some (some (owning p n))
      → get_elem? s.mem.objs j ≡ some (some (owning q k))
      → elements q (free_block p s.mem.blocks) ≡ elements q s.mem.blocks
  elements-freed i j p n zero k ne live from = refl
  elements-freed i j p n (suc q) k ne live from =
      let apart = distinct_arrays own i j p n (suc q) k ne live from (omega arith) in
      ground (arith, block-free (suc q) p s.mem.blocks)

  pub copy_assign-owned :
      (i j p n q k : ℕ) (vs : List ℕ)
      → i ≢ j
      → get_elem? s.mem.objs i ≡ some (some (owning p n))
      → get_elem? s.mem.objs j ≡ some (some (owning q k))
      → elements q s.mem.blocks ≡ some vs
      → length vs ≡ k
      → s.s_copies_ + 1 < 2 ^ 31
      → copy_assign i j s
        ≡ some (record s {
          mem = put_obj i (owning (new_address (freed p s.mem)) k) (new_array vs (freed p s.mem));
          s_copies_ = s.s_copies_ + 1;
        })
  unfolding copy_assign
  copy_assign-owned i j p n q k vs ne live from there len fits = rw (
    live,
    delete-owned own i p n live,
    from,
    get_elem?-set_ne s.mem.objs {i = i} {j = j} (some (owning (new_address (freed p s.mem)) k)) ne,
    from,
    copy_loop-new q k vs _ (free_block p s.mem.blocks)
        (elements-freed i j p n q k ne live from ∙ there) len,
    increment-fits s.s_copies_ fits,
  )

  pub copy_assign_self :
      (i p n : ℕ)
      → get_elem? s.mem.objs i ≡ some (some (owning p n))
      → s.s_copies_ + 1 < 2 ^ 31
      → copy_assign i i s
        ≡ some (record s {
          mem =
              put_obj i
                (owning (new_address (freed p s.mem)) n)
                (new_array (replicate n 0) (freed p s.mem));
          s_copies_ = s.s_copies_ + 1;
        })
  unfolding copy_assign
  copy_assign_self i p n live fits = rw (
    live,
    delete-owned own i p n live,
    live,
    get_elem?-set_self s.mem.objs i (some (owning (new_address (freed p s.mem)) n))
        (get_elem?-lt s.mem.objs i live),
    copy_loop-new_self n (set s.mem.objs i (some (owning (new_address (freed p s.mem)) n)))
        (free_block p s.mem.blocks),
    increment-fits s.s_copies_ fits,
  )

  pub move_construct-owned :
      (j q k : ℕ)
      → get_elem? s.mem.objs j ≡ some (some (owning q k))
      → s.s_moves_ + 1 < 2 ^ 31
      → move_construct j s
        ≡ some (record s {
          mem = put_obj j (owning nullptr 0) (new_obj (owning q k) s.mem);
          s_moves_ = s.s_moves_ + 1;
        })
  unfolding move_construct
  move_construct-owned j q k from fits = rw (from, increment-fits s.s_moves_ fits)

  pub move_assign-owned :
      (i j p n q k : ℕ)
      → get_elem? s.mem.objs i ≡ some (some (owning p n))
      → get_elem? s.mem.objs j ≡ some (some (owning q k))
      → s.s_moves_ + 1 < 2 ^ 31
      → move_assign i j s
        ≡ some (record s {
          mem = put_obj j (owning nullptr 0) (put_obj i (owning q k) (freed p s.mem));
          s_moves_ = s.s_moves_ + 1;
        })
  unfolding move_assign
  move_assign-owned i j p n q k live from fits =
      rw (live, delete-owned own i p n live, from, increment-fits s.s_moves_ fits)

  pub destroy-owned :
      (i p n : ℕ)
      → get_elem? s.mem.objs i ≡ some (some (owning p n))
      → destroy i s ≡ some (record s { mem = end_obj i (freed p s.mem) })
  unfolding destroy
  destroy-owned i p n live = rw (live, delete-owned own i p n live)
