-- ===== src/Ownership/UniqueBuffer/Safety.antt =====
-- Memory safety of UniqueBuffer: no double delete[], no access outside an array, no leak.
use syseng.Base.{
  ℕ, zero, suc, ◌<◌, ◌≡◌, refl, Option, none, some, List, [], ◌∷◌, arith, get_elem?, set, length,
  All, WhenSome, subst, lt→ltb, length-set, length-replicate, replicate,
}
use syseng.Memory.{
  Obj, owning, nullptr, Mem, block, new_address, freed, new_array, new_obj, put_obj, end_obj, store,
}
use syseng.Memory.Owned.{
  IsOwned, delete-owned, owned_block, null_size, no_leak, IsLive, empty-IsOwned,
}
use syseng.Memory.Changes.{own-new, own-end, own-steal, own-move, own-store}
use syseng.Ownership.UniqueBuffer.{
  start, construct, destroy, move_construct, move_assign, put, Op, make, move_new, move_to, write,
  end_scope, step, run,
}

module _ {T : Type 0} {m : Mem (Option T)} (own : IsOwned m) where
  construct-IsOwned : (n : ℕ) → IsOwned (construct n m)
  unfolding construct
  construct-IsOwned n =
      subst (λ k. IsOwned (new_obj (owning (new_address m) k) (new_array (replicate n none) m)))
        (length-replicate n none) (own-new own (replicate n none))

  -- The destructor never deletes twice.
  destroy-owned :
      (i p n : ℕ)
      → get_elem? m.objs i ≡ some (some (owning p n))
      → destroy i m ≡ some (end_obj i (freed p m))
  unfolding destroy
  destroy-owned i p n live = rw (live, delete-owned own i p n live)

  move_assign-owned :
      (i j p n q k : ℕ)
      → get_elem? m.objs i ≡ some (some (owning p n))
      → get_elem? m.objs j ≡ some (some (owning q k))
      → move_assign i j m ≡ some (put_obj j (owning nullptr 0) (put_obj i (owning q k) (freed p m)))
  unfolding move_assign
  move_assign-owned i j p n q k live from = rw (live, delete-owned own i p n live, from)

  move_construct-owned :
      (j q k : ℕ)
      → get_elem? m.objs j ≡ some (some (owning q k))
      → move_construct j m ≡ some (put_obj j (owning nullptr 0) (new_obj (owning q k) m))
  unfolding move_construct
  move_construct-owned j q k from = rw from

  -- Through a live object every index below its size can be read and written.
  put-IsOwned :
      (i p n k : ℕ) (v : T)
      → get_elem? m.objs i ≡ some (some (owning p n))
      → k < n
      → (m' : Mem (Option T)) × (put i k v m ≡ some m') × (m'.objs ≡ m.objs) × IsOwned m'
  unfolding put store
  put-IsOwned i zero n k v live inside = absurd (omega (arith, null_size own i n live))
  put-IsOwned i (suc p) n k v live inside =
      let (vs, there, len) = owned_block own i p n live in
      (
        record m { blocks = set m.blocks p (some (set vs k (some v))) },
        ground (arith, lt→ltb k (length vs)),
        refl,
        own-store own p vs (set vs k (some v)) there (length-set vs k (some v)),
      )

-- The operation is on live objects, and writes below the size.
abbrev pub IsDefined : {T : Type 0} → Mem (Option T) → Op T → Type 0
IsDefined m (make n) = Unit
IsDefined m (move_new j) = IsLive m j
IsDefined m (move_to i j) = IsLive m i × IsLive m j
IsDefined m (write i k v) = (o : Obj) × (get_elem? m.objs i ≡ some (some o)) × (k < o.size_)
IsDefined m (end_scope i) = IsLive m i

-- Each operation of a program is defined when its turn comes.
abbrev pub AllDefined : {T : Type 0} → List (Op T) → Mem (Option T) → Type 0
AllDefined [] m = Unit
AllDefined (o ∷ ops) m = IsDefined m o × WhenSome (AllDefined ops) (step o m)

module _ {T : Type 0} where
  -- An operation on live objects has a result, so that it deletes nothing twice and stays inside
  -- the arrays, and it keeps the ownership invariant.
  pub unique_step_safe :
      (o : Op T) (m : Mem (Option T))
      → IsOwned m
      → IsDefined m o
      → (m' : Mem (Option T)) × (step o m ≡ some m') × IsOwned m'
  unfolding step
  unique_step_safe (make n) m own d = (_, refl, construct-IsOwned own n)
  unique_step_safe (move_new j) m own (o, live) =
      (_, move_construct-owned own j o.data_ o.size_ live, own-move own j o.data_ o.size_ live)
  unique_step_safe (move_to i j) m own ((o, live), (q, from)) = (
    _,
    move_assign-owned own i j o.data_ o.size_ q.data_ q.size_ live from,
    own-steal own i j o.data_ o.size_ q.data_ q.size_ live from,
  )
  unique_step_safe (write i k v) m own (o, live, inside) =
      let (m', done, _, own') = put-IsOwned own i o.data_ o.size_ k v live inside in
      (m', done, own')
  unique_step_safe (end_scope i) m own (o, live) =
      (_, destroy-owned own i o.data_ o.size_ live, own-end own i o.data_ o.size_ live)

  -- A program whose operations are each defined in turn runs to its end, and keeps the invariant.
  pub unique_run_safe :
      (ops : List (Op T)) (m : Mem (Option T))
      → IsOwned m
      → AllDefined ops m
      → (m' : Mem (Option T)) × (run ops m ≡ some m') × IsOwned m'
  unfolding run
  unique_run_safe [] m own d = (m, refl, own)
  unique_run_safe (o ∷ ops) m own (d, ds) =
      let (m', done, own') = unique_step_safe o m own d in
      let (m'', rest, own'') =
        unique_run_safe ops m' own' (subst (WhenSome (AllDefined ops)) done ds) in
      (m'', rw done rest, own'')

  -- When a program that starts with no buffer has ended every buffer's lifetime, every array has
  -- been deleted.
  unique_no_leak :
      (ops : List (Op T)) (m : Mem (Option T)) (a : ℕ)
      → AllDefined ops start
      → run ops start ≡ some m
      → All (λ o. o ≡ none) m.objs
      → block a m.blocks ≡ none
  unique_no_leak ops m a ds done ended =
      let (m', done', own) = unique_run_safe ops start empty-IsOwned ds in
      let same : m' ≡ m = cc in no_leak (subst IsOwned same own) ended a
