-- ===== src/Ownership/UniqueBuffer/Values.antt =====
-- What the members of UniqueBuffer do to the values: moves hand the array over, and elements keep
-- what was written to them.
use syseng.Base.{
  ℕ, zero, suc, ◌<◌, ◌≡◌, refl, Option, some, arith, get_elem?, set, length, get_elem?-set_self,
  get_elem?-set_ne, get_elem?-lt, get_elem?-grown_new, get_elem?-grown_old, lt→ltb, if◌then◌else◌,
  ◌==◌,
}
use syseng.Memory.{Obj, owning, nullptr, Mem, put_obj, new_obj, load, store}
use syseng.Memory.Owned.{IsOwned, owned_block, null_size, block-lt}
use syseng.Ownership.UniqueBuffer.{move_construct, size, buffer_data, at, put}

module _ {T : Type 0} where
  -- A move construction copies no element: the new object has the source's array and size, the
  -- source is left with nullptr and size 0, and the heap is as it was.
  move_construct_lem :
      (j : ℕ) (m : Mem (Option T)) (o : Obj)
      → get_elem? m.objs j ≡ some (some o)
      → (m' : Mem (Option T)) × (move_construct j m ≡ some m')
        × (buffer_data (length m.objs) m' ≡ some o.data_)
        × (size (length m.objs) m' ≡ some o.size_)
        × (buffer_data j m' ≡ some nullptr)
        × (size j m' ≡ some 0)
        × (m'.blocks ≡ m.blocks)
  unfolding move_construct buffer_data size
  move_construct_lem j m o live =
      let old = get_elem?-lt m.objs j live in
      let fresh = get_elem?-grown_new m.objs (some o) (some (owning nullptr 0)) j old in
      let emptied = get_elem?-grown_old m.objs (some o) (some (owning nullptr 0)) j old in
      (
        put_obj j (owning nullptr 0) (new_obj o m),
        rw live,
        rw fresh,
        rw fresh,
        rw emptied,
        rw emptied,
        refl,
      )

  -- The same through the parts of the object.
  at-put_array :
      (i k l p n : ℕ) (v : T) (m : Mem (Option T))
      → IsOwned m
      → get_elem? m.objs i ≡ some (some (owning p n))
      → k < n
      → (m' : Mem (Option T)) × (put i k v m ≡ some m')
        × (at i k m' ≡ some v)
        × (at i l m' ≡ (if l == k then some v else at i l m))
  unfolding at put load store
  at-put_array i k l zero n v m own live inside = absurd (omega (arith, null_size own i n live))
  at-put_array i k l (suc p) n v m own live inside =
      let (vs, there, len) = owned_block own i p n live in
      let written =
        get_elem?-set_self m.blocks p (some (set vs k (some v))) (block-lt p m.blocks there) in
      (
        record m { blocks = set m.blocks p (some (set vs k (some v))) },
        ground (arith, lt→ltb k (length vs)),
        ground (arith, written, get_elem?-set_self vs k (some v)),
        ground (
          arith,
          written,
          get_elem?-set_ne vs {i = k} {j = l} (some v),
          get_elem?-set_self vs k (some v),
        ),
      )

  -- A write through operator[] of a live buffer below its size is defined; the element then has the
  -- value, and the other elements of the buffer are what they were.
  at-put :
      (i k l : ℕ) (v : T) (m : Mem (Option T)) (o : Obj)
      → IsOwned m
      → get_elem? m.objs i ≡ some (some o)
      → k < o.size_
      → (m' : Mem (Option T)) × (put i k v m ≡ some m')
        × (at i k m' ≡ some v)
        × (at i l m' ≡ (if l == k then some v else at i l m))
  at-put i k l v m o = at-put_array i k l o.data_ o.size_ v m
