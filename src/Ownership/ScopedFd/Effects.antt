-- ===== src/Ownership/ScopedFd/Effects.antt =====
-- What each member of ScopedFd does to the objects and which descriptors it closes.
use syseng.Base.{
  ℕ, ◌≡◌, refl, ◌≢◌, none, some, ◌∷◌, arith, get_elem?, set, if◌then◌else◌, get_elem?-set_self,
  get_elem?-set_ne, get_elem?-set_copy, get_elem?-lt, length-set,
}
use syseng.Base.Int.{ℤ, minus_one}
use syseng.Ownership.ScopedFd.{State, fd_of, is_valid, destroy, move_assign}

-- Between two objects, operator= closes the target's descriptor if it has one, hands the source's
-- over, leaves the source empty, and touches no other object.
move_assign_lem :
    (i j k : ℕ) (s : State) (f g : ℤ)
    → i ≢ j
    → k ≢ i
    → k ≢ j
    → get_elem? s.objs i ≡ some (some f)
    → get_elem? s.objs j ≡ some (some g)
    → (t : State) × (move_assign i j s ≡ some t)
      × (fd_of i t ≡ some g)
      × (fd_of j t ≡ some minus_one)
      × (t.closed ≡ (if is_valid f then f ∷ s.closed else s.closed))
      × (fd_of k t ≡ fd_of k s)
unfolding move_assign
move_assign_lem i j k s f g ne ni nj live from = (
  record {
    objs = set (set s.objs i (some g)) j (some minus_one);
    closed = if is_valid f then f ∷ s.closed else s.closed;
  },
  ground (arith, get_elem?-set_copy s.objs i j (some g) from),
  ground (
    arith,
    get_elem?-set_ne (set s.objs i (some g)) {i = j} {j = i} (some minus_one),
    get_elem?-set_self s.objs i (some g) (get_elem?-lt s.objs i live),
  ),
  ground (
    arith,
    get_elem?-set_self (set s.objs i (some g)) j (some minus_one),
    length-set s.objs i (some g),
    get_elem?-lt s.objs j from,
  ),
  refl,
  ground (
    arith,
    get_elem?-set_ne (set s.objs i (some g)) {i = j} {j = k} (some minus_one),
    get_elem?-set_ne s.objs {i = i} {j = k} (some g),
  ),
)

-- Assigned to itself, a wrapper closes its descriptor and is left empty.
move_assign_self :
    (i : ℕ) (s : State) (f : ℤ)
    → get_elem? s.objs i ≡ some (some f)
    → move_assign i i s
      ≡ some (record {
        objs = set (set s.objs i (some f)) i (some minus_one);
        closed = if is_valid f then f ∷ s.closed else s.closed;
      })
unfolding move_assign
move_assign_self i s f live = ground (arith, get_elem?-set_copy s.objs i i (some f) live)

-- The destructor closes the descriptor exactly when the wrapper is valid, and ends the lifetime.
destroy_lem :
    (i : ℕ) (s : State) (f : ℤ)
    → get_elem? s.objs i ≡ some (some f)
    → (t : State) × (destroy i s ≡ some t)
      × (get_elem? t.objs i ≡ some none)
      × (t.closed ≡ (if is_valid f then f ∷ s.closed else s.closed))
unfolding destroy
destroy_lem i s f live = (
  record {
    objs = set (if is_valid f then set s.objs i (some minus_one) else s.objs) i none;
    closed = if is_valid f then f ∷ s.closed else s.closed;
  },
  ground arith,
  ground (
    arith,
    get_elem?-set_self s.objs i none (get_elem?-lt s.objs i live),
    get_elem?-set_self (set s.objs i (some minus_one)) i none,
    length-set s.objs i (some minus_one),
    get_elem?-lt s.objs i live,
  ),
  refl,
)
