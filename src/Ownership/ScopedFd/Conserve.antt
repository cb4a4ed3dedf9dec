-- ===== src/Ownership/ScopedFd/Conserve.antt =====
-- No descriptor is lost or closed twice: what the objects hold, what was closed and what was
-- released add up to what was acquired.
use syseng.Base.{
  ℕ, ◌+◌, ◌≡◌, false, Option, none, some, List, [], ◌∷◌, ◌++◌, arith, get_elem?, set, if◌then◌else◌,
  get_elem?-set_copy, get_elem?-append_lt, get_elem?-lt, get_elem?-set_self, All, weigh, tally,
  tally-set, tally-append, tally_ended, ◌⊎◌, inl, inr, Option-cases,
}
use syseng.Base.Int.{ℤ, eqb_ℤ, minus_one}
use syseng.Ownership.ScopedFd.{
  State, start, fd_of, is_valid, release, destroy, move_construct, move_assign, Op, acquire,
  move_new, move_to, give_up, end_scope, step, run,
}

-- How often a descriptor stands in a list.
abbrev pub times : ℤ → List ℤ → ℕ
times v [] = 0
times v (f ∷ fs) = (if eqb_ℤ v f then 1 else 0) + times v fs

abbrev pub same : ℤ → ℤ → ℕ
same v f = if eqb_ℤ v f then 1 else 0

-- How many live objects hold a descriptor.
abbrev pub held : ℤ → List (Option ℤ) → ℕ
held v = tally (same v)

times-append : (v : ℤ) (fs gs : List ℤ) → times v (fs ++ gs) ≡ times v fs + times v gs
times-append v [] gs = omega arith
times-append v (f ∷ fs) gs = omega (arith, times-append v fs gs)

-- An object that is not valid holds no descriptor.
same_invalid : (v f : ℤ) → eqb_ℤ v minus_one ≡ false → is_valid f ≡ false → same v f ≡ 0
same_invalid v f ne h = ground arith

-- What the program has been handed and what is still in its wrappers.
abbrev pub total : ℤ → State → ℕ
total v s = held v s.objs + times v s.closed

-- The read of a live object's slot.
fd_of-inv : (i : ℕ) (s : State) {f : ℤ} → fd_of i s ≡ some f → get_elem? s.objs i ≡ some (some f)
fd_of-inv i s h = ground arith

slot-cases :
    (i : ℕ) (s : State) → (fd_of i s ≡ none) ⊎ ((f : ℤ) × (get_elem? s.objs i ≡ some (some f)))
slot-cases i s = elim (Option-cases (fd_of i s)) [
  | inl dead ↦ inl dead
  | inr (f, live) ↦ inr (f, fd_of-inv i s live)
]

-- How often a program acquires a descriptor.
abbrev pub acquired : ℤ → List Op → ℕ
acquired v [] = 0
acquired v (acquire f ∷ ops) = (if eqb_ℤ v f then 1 else 0) + acquired v ops
acquired v (_ ∷ ops) = acquired v ops

acquired-cons :
    (v : ℤ) (o : Op) (ops : List Op) → acquired v (o ∷ ops) ≡ acquired v (o ∷ []) + acquired v ops
acquired-cons v (acquire f) ops = omega arith
acquired-cons v (move_new j) ops = omega arith
acquired-cons v (move_to i j) ops = omega arith
acquired-cons v (give_up i) ops = omega arith
acquired-cons v (end_scope i) ops = omega arith

total-set :
    (v : ℤ) (i : ℕ) (s : State) (old new : Option ℤ)
    → get_elem? s.objs i ≡ some old
    → total v (record s { objs = set s.objs i new }) + weigh (same v) old
      ≡ total v s + weigh (same v) new
total-set v i s old new h = omega (arith, tally-set (same v) s.objs i old new h)

module _ (v : ℤ) (ne : eqb_ℤ v minus_one ≡ false) where
  release-total :
      (i : ℕ) (s t : State) (f g : ℤ)
      → get_elem? s.objs i ≡ some (some f)
      → release i s ≡ some (g, t)
      → total v t + same v g ≡ total v s
  unfolding release
  release-total i s t f g live e =
      ground (arith, total-set v i s (some f) (some minus_one), same_invalid v f)

  destroy-total :
      (i : ℕ) (s t : State) (f : ℤ)
      → get_elem? s.objs i ≡ some (some f)
      → destroy i s ≡ some t
      → total v t ≡ total v s
  unfolding destroy
  destroy-total i s t f live e = ground (
    arith,
    same_invalid v f,
    tally-set (same v) s.objs i (some f) (some minus_one),
    tally-set (same v) s.objs i (some f) none,
    get_elem?-set_self s.objs i (some minus_one) (get_elem?-lt s.objs i live),
    tally-set (same v) (set s.objs i (some minus_one)) i (some minus_one) none,
  )

  move_construct-total :
      (j : ℕ) (s t : State) (f : ℤ)
      → get_elem? s.objs j ≡ some (some f)
      → move_construct j s ≡ some t
      → total v t ≡ total v s
  unfolding move_construct
  move_construct-total j s t f live e = ground (
    arith,
    tally-append (same v) s.objs (some f ∷ []),
    get_elem?-append_lt s.objs (some f ∷ []) j,
    get_elem?-lt s.objs j live,
    tally-set (same v) (s.objs ++ some f ∷ []) j (some f) (some minus_one),
  )

  move_assign-total :
      (i j : ℕ) (s t : State) (f g : ℤ)
      → get_elem? s.objs i ≡ some (some f)
      → get_elem? s.objs j ≡ some (some g)
      → move_assign i j s ≡ some t
      → total v t ≡ total v s
  unfolding move_assign
  move_assign-total i j s t f g live from e = ground (
    arith,
    same_invalid v f,
    tally-set (same v) s.objs i (some f) (some g),
    get_elem?-set_copy s.objs i j (some g) from,
    tally-set (same v) (set s.objs i (some g)) j (some g) (some minus_one),
  )

  step-total :
      (o : Op) (s t : State) (out : List ℤ)
      → step o s ≡ some (out, t)
      → total v t + times v out ≡ total v s + acquired v (o ∷ [])
  unfolding step
  step-total (acquire f) s t out e = ground (arith, tally-append (same v) s.objs (some f ∷ []))
  step-total (move_new j) s t out e = elim (slot-cases j s) [
    | inl dead ↦ ground arith
    | inr (f, live) ↦ unfold move_construct in ground (arith, move_construct-total j s t f live)
  ]
  step-total (move_to i j) s t out e = elim (slot-cases i s) [
    | inl dead ↦ ground arith
    | inr (f, live) ↦ elim (slot-cases j s) [
      | inl dead ↦ ground arith
      | inr (g, from) ↦ ground (arith, move_assign-total i j s t f g live from)
    ]
  ]
  step-total (give_up i) s t out e = elim (slot-cases i s) [
    | inl dead ↦ ground arith
    | inr (f, live) ↦
        ground (arith, release-total i s t f f live, release-total i s t f minus_one live)
  ]
  step-total (end_scope i) s t out e = elim (slot-cases i s) [
    | inl dead ↦ ground arith
    | inr (f, live) ↦ ground (arith, destroy-total i s t f live)
  ]

  -- Over any run that meets no dead object, the descriptors that the objects hold, those closed and
  -- those released are the ones held before and those acquired, each counted as often.
  run-total :
      (ops : List Op) (s t : State) (out : List ℤ)
      → run ops s ≡ some (out, t)
      → total v t + times v out ≡ total v s + acquired v ops
  unfolding run
  run-total [] s t out e = ground arith
  run-total (o ∷ ops) s t out e = elim (Option-cases (step o s)) [
    | inl stop ↦ ground arith
    | inr ((now, u), first) ↦ elim (Option-cases (run ops u)) [
      | inl stop ↦ ground arith
      | inr ((later, w), rest) ↦ ground (
        arith,
        step-total o s u now first,
        run-total ops u w later rest,
        times-append v now later,
        acquired-cons v o ops,
      )
    ]
  ]

  -- From an empty program, a descriptor that went in is held, closed or released, each as often as
  -- it went in: none is lost, and none acquired once is closed twice.
  run-conserves :
      (ops : List Op) (t : State) (out : List ℤ)
      → run ops start ≡ some (out, t)
      → held v t.objs + times v t.closed + times v out ≡ acquired v ops
  run-conserves ops t out e = omega (arith, run-total ops start t out e)

-- When every wrapper's lifetime is over, each descriptor (other than -1) has been closed or handed
-- to the caller by release(), together exactly as often as it was acquired.
pub descriptors_no_leak :
    (v : ℤ) (ops : List Op) (t : State) (out : List ℤ)
    → eqb_ℤ v minus_one ≡ false
    → run ops start ≡ some (out, t)
    → All (λ o. o ≡ none) t.objs
    → times v t.closed + times v out ≡ acquired v ops
descriptors_no_leak v ops t out ne e ended =
    omega (arith, run-conserves v ne ops t out e, tally_ended (same v) t.objs ended)
