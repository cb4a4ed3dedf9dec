-- ===== src/Buffer/Safety.antt =====
-- Memory safety of Buffer: no double delete[], no access outside an array, no leak.
use syseng.Base.{
  ℕ, zero, suc, ◌+◌, ◌<◌, ◌≡◌, refl, Option, none, some, List, [], ◌∷◌, arith, get_elem?, set,
  length, All, WhenSome, length-replicate, replicate, subst, lt→ltb, length-set, ◌^◌, ◌==◌, ==_iff,
  Bool-cases, inl, inr,
}
use syseng.Memory.{Obj, owning, Mem, block, freed, new_array, new_obj, put_obj, store}
use syseng.Memory.Owned.{IsOwned, owned_block, null_size, no_leak, IsLive, empty-IsOwned}
use syseng.Memory.Changes.{own-new, own-end, own-steal, own-move, own-store, own-replace}
use syseng.Buffer.{
  State, start, construct, copy_assign, make_buffer, put, reset_counters, Args, of_size, lvalue,
  rvalue, Op, make, copy_to, move_to, write, end_scope, reset, step, run,
}
use syseng.Buffer.Outcomes.{
  owned_elements, copy_construct-owned, copy_assign-owned, copy_assign_self, move_construct-owned,
  move_assign-owned, destroy-owned,
}

-- The counter that an operation steps has room for it.
abbrev pub CanCopy : State → Type 0
CanCopy s = s.s_copies_ + 1 < 2 ^ 31

abbrev pub CanMove : State → Type 0
CanMove s = s.s_moves_ + 1 < 2 ^ 31

abbrev pub IsDefinedMake : State → Args → Type 0
IsDefinedMake s (of_size n) = Unit
IsDefinedMake s (lvalue j) = IsLive s.mem j × CanCopy s
IsDefinedMake s (rvalue j) = IsLive s.mem j × CanMove s

-- The operation is on live objects, writes below the size, and overflows no counter.
abbrev pub IsDefined : State → Op → Type 0
IsDefined s (make a) = IsDefinedMake s a
IsDefined s (copy_to i j) = IsLive s.mem i × IsLive s.mem j × CanCopy s
IsDefined s (move_to i j) = IsLive s.mem i × IsLive s.mem j × CanMove s
IsDefined s (write i k v) = (o : Obj) × (get_elem? s.mem.objs i ≡ some (some o)) × (k < o.size_)
IsDefined s (end_scope i) = IsLive s.mem i
IsDefined s reset = Unit

-- A result, and in it the ownership invariant.
abbrev Keeps : Option State → Type 0
Keeps r = (t : State) × (r ≡ some t) × IsOwned t.mem

-- An object whose size is the number of its elements.
own_sized :
    (vs : List ℕ) (n a : ℕ) (f : Obj → Mem ℕ)
    → length vs ≡ n
    → IsOwned (f (owning a (length vs)))
    → IsOwned (f (owning a n))
own_sized vs n a f e own = subst (λ k. IsOwned (f (owning a k))) e own

module _ (s : State) (own : IsOwned s.mem) where
  make-safe : (a : Args) → IsDefinedMake s a → Keeps (make_buffer a s)
  unfolding make_buffer construct
  make-safe (of_size n) d = (
    _,
    refl,
    own_sized (replicate n 0) n _ (λ o. new_obj o (new_array (replicate n 0) s.mem))
        (length-replicate n 0) (own-new own (replicate n 0)),
  )
  make-safe (lvalue j) ((o, from), fits) =
      let (vs, there, len) = owned_elements s own j o.data_ o.size_ from in
      (
        _,
        copy_construct-owned s own j o.data_ o.size_ vs from there len fits,
        own_sized vs o.size_ _ (λ x. new_obj x (new_array vs s.mem)) len (own-new own vs),
      )
  make-safe (rvalue j) ((o, from), fits) = (
    _,
    move_construct-owned s own j o.data_ o.size_ from fits,
    own-move own j o.data_ o.size_ from,
  )

  copy_assign-safe :
      (i j : ℕ) → IsLive s.mem i → IsLive s.mem j → CanCopy s → Keeps (copy_assign i j s)
  copy_assign-safe i j (o, live) (q, from) fits = elim (Bool-cases (i == j)) [
    | inl same ↦
        subst (λ x. Keeps (copy_assign i x s)) ((==_iff i j).0 same)
          (let zeros = replicate o.size_ 0 in
            (
              _,
              copy_assign_self s own i o.data_ o.size_ live fits,
              own_sized zeros o.size_ _ (λ x. put_obj i x (new_array zeros (freed o.data_ s.mem)))
                  (length-replicate o.size_ 0) (own-replace own i o.data_ o.size_ zeros live),
            ))
    | inr apart ↦
        let (vs, there, len) = owned_elements s own j q.data_ q.size_ from in
        (
          _,
          copy_assign-owned s own i j o.data_ o.size_ q.data_ q.size_ vs (ground arith) live from
              there len fits,
          own_sized vs q.size_ _ (λ x. put_obj i x (new_array vs (freed o.data_ s.mem))) len
              (own-replace own i o.data_ o.size_ vs live),
        )
  ]

  write-safe :
      (i k v p n : ℕ)
      → get_elem? s.mem.objs i ≡ some (some (owning p n))
      → k < n
      → Keeps (put i k v s)
  unfolding put store
  write-safe i k v zero n live inside = absurd (omega (arith, null_size own i n live))
  write-safe i k v (suc p) n live inside =
      let (vs, there, len) = owned_block own i p n live in
      (
        record s { mem = record (s.mem) { blocks = set s.mem.blocks p (some (set vs k v)) } },
        ground (arith, lt→ltb k (length vs)),
        own-store own p vs (set vs k v) there (length-set vs k v),
      )

-- An operation on live objects has a result, so that it deletes nothing twice and stays inside the
-- arrays, and it keeps the ownership invariant; an object may be assigned to itself.
pub buffer_step_safe :
    (o : Op) (s : State)
    → IsOwned s.mem
    → IsDefined s o
    → (t : State) × (step o s ≡ some t) × IsOwned t.mem
unfolding step reset_counters
buffer_step_safe (make a) s own d = make-safe s own a d
buffer_step_safe (copy_to i j) s own (live, from, fits) = copy_assign-safe s own i j live from fits
buffer_step_safe (move_to i j) s own ((o, live), (q, from), fits) = (
  _,
  move_assign-owned s own i j o.data_ o.size_ q.data_ q.size_ live from fits,
  own-steal own i j o.data_ o.size_ q.data_ q.size_ live from,
)
buffer_step_safe (write i k v) s own (o, live, inside) =
    write-safe s own i k v o.data_ o.size_ live inside
buffer_step_safe (end_scope i) s own (o, live) =
    (_, destroy-owned s own i o.data_ o.size_ live, own-end own i o.data_ o.size_ live)
buffer_step_safe reset s own d = (_, refl, own)

-- Each operation of a program is defined when its turn comes.
abbrev pub AllDefined : List Op → State → Type 0
AllDefined [] s = Unit
AllDefined (o ∷ ops) s = IsDefined s o × WhenSome (AllDefined ops) (step o s)

-- A program whose operations are each defined in turn runs to its end, and keeps the invariant.
pub buffer_run_safe :
    (ops : List Op) (s : State)
    → IsOwned s.mem
    → AllDefined ops s
    → (t : State) × (run ops s ≡ some t) × IsOwned t.mem
unfolding run
buffer_run_safe [] s own d = (s, refl, own)
buffer_run_safe (o ∷ ops) s own (d, ds) =
    let (t, done, own') = buffer_step_safe o s own d in
    let (u, rest, own'') = buffer_run_safe ops t own' (subst (WhenSome (AllDefined ops)) done ds) in
    (u, rw done rest, own'')

-- When a program that starts with no buffer has ended every buffer's lifetime, every array has
-- been deleted.
pub buffer_no_leak :
    (ops : List Op) (t : State) (a : ℕ)
    → AllDefined ops start
    → run ops start ≡ some t
    → All (λ o. o ≡ none) t.mem.objs
    → block a t.mem.blocks ≡ none
buffer_no_leak ops t a ds done ended =
    let (t', done', own) = buffer_run_safe ops start empty-IsOwned ds in
    let same : t' ≡ t = cc in no_leak (subst (λ (u : State). IsOwned u.mem) same own) ended a
