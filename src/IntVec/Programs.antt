-- ===== src/IntVec/Programs.antt =====
-- Programs over the dynamic array of strings.c.
use syseng.Base.{
  ℕ, ◌+◌, ◌-◌, ◌%◌, ◌^◌, ◌<◌, ◌≡◌, refl, Bool, true, false, Option, none, some, List, [], ◌∷◌,
  length, get_elem?, replicate, length-replicate, ◌>>=◌, suc, run_all, Follows, Follows-weaken,
  Follows-none, run_all-Follows, ◌==◌, arith, Bool-cases, Option-cases, inl, inr,
}
use syseng.Base.Int.{ℤ}
use syseng.IntVec.{
  array, IntVec, room, malloc, grow, realloc, put, vec_init, vec_free, free, at, vec_push, vec_pop,
  vec_get,
}
use syseng.IntVec.Stack.{Represents, Filled, nth, grow-Represents, store-Represents}

push-Represents :
    (v : IntVec) (vs : List ℤ) (val : ℤ)
    → length vs < 2 ^ 60
    → Represents v vs
    → (v' : IntVec) × (vec_push true val v ≡ some v') × Represents v' (val ∷ vs)
unfolding vec_push
push-Represents v vs val small r = elim (Bool-cases (v.length_ == v.capacity)) [
  | inl tight ↦
      let (v1, grows, r1, less, most) = grow-Represents v vs small (ground (arith, tight)) r in
      let (p, stores, r2) = store-Represents v1 vs val small less r1 in
      (
        record v1 { data_ = p; length_ = (v1.length_ + 1) % 2 ^ 64 },
        rw (tight, grows, stores) refl,
        r2,
      )
  | inr spare ↦
      let less : length vs < v.capacity = ground (arith, spare, r.count, r.full, r.fits) in
      let (p, stores, r2) = store-Represents v vs val small less r in
      (record v { data_ = p; length_ = (v.length_ + 1) % 2 ^ 64 }, rw (spare, stores) refl, r2)
]

pop-Represents :
    (v : IntVec) (val : ℤ) (vs : List ℤ)
    → length vs < 2 ^ 60
    → Represents v (val ∷ vs)
    → (v' : IntVec) × (vec_pop v ≡ some (val, v')) × Represents v' vs
unfolding vec_pop at
pop-Represents v val vs small r =
    let n : (v.length_ + (2 ^ 64 - 1)) % 2 ^ 64 ≡ length vs = omega (arith, r.count) in
    (
      record v { length_ = length vs },
      rw (n, r.pointer, r.filled.0) refl,
      record {
        cells = r.cells;
        pointer = r.pointer;
        count = refl;
        full = r.full;
        fits = omega (arith, r.fits);
        some_room = r.some_room;
        filled = r.filled.1;
      },
    )

nth-Filled :
    (xs : List (Option ℤ)) (vs : List ℤ) (i : ℕ) (x : ℤ)
    → Filled xs vs
    → nth vs i ≡ some x
    → get_elem? xs i ≡ some (some x)
nth-Filled xs [] i x f e = absurd (cc)
nth-Filled xs (v ∷ vs) i x f e = ground (arith, f.0, nth-Filled xs vs i x f.1, e)

get-Represents :
    (v : IntVec) (vs : List ℤ) (i : ℕ) (x : ℤ)
    → Represents v vs
    → nth vs i ≡ some x
    → vec_get v i ≡ some x
unfolding vec_get at
get-Represents v vs i x r e = rw (r.pointer, nth-Filled r.cells vs i x r.filled e) refl

-- The calls on an array, and what strings.h promises of them on the values with the newest first.
pub data Op : Type 0 where
  push : ℤ → Op
  pop : Op
  get : ℕ → Op

unfoldable pub spec : Op → List ℤ → Option (Option ℤ × List ℤ)
spec (push val) vs = some (none, val ∷ vs)
spec pop [] = none
spec pop (v ∷ vs) = some (some v, vs)
spec (get i) vs = do x ← nth vs i; some (some x, vs)

abbrev pub spec_run : List Op → List ℤ → Option (List (Option ℤ) × List ℤ)
spec_run ops vs = run_all spec ops vs

unfoldable pub step : Op → IntVec → Option (Option ℤ × IntVec)
step (push val) v = do v' ← vec_push true val v; some (none, v')
step pop v = do (x, v') ← vec_pop v; some (some x, v')
step (get i) v = do x ← vec_get v i; some (some x, v)

abbrev pub run : List Op → IntVec → Option (List (Option ℤ) × IntVec)
run ops v = run_all step ops v

-- Where the specification allows the calls, the code is defined, gives the same answers and leaves an
-- array that stands for the values left.
abbrev pub Refines : {A : Type 0} → Option (A × List ℤ) → Option (A × IntVec) → Type 0
Refines x y = Follows false (λ vs v. Represents v vs) x y

-- A call adds at most one value, so that there is room for k calls.
abbrev HasRoom : ℕ → List ℤ → IntVec → Type 0
HasRoom k vs v = Represents v vs × (length vs + k < 2 ^ 60)

step-Follows :
    (k : ℕ) (o : Op) (vs : List ℤ) (v : IntVec)
    → HasRoom (suc k) vs v
    → Follows false (HasRoom k) (spec o vs) (step o v)
unfolding Follows step spec
step-Follows k (push val) vs v (r, small) =
    let (v', runs, r') = push-Represents v vs val (omega (arith, small)) r in
    rw runs (refl, (r', omega (arith, small)))
step-Follows k pop [] v (r, small) = Follows-none false (HasRoom k) (step pop v) refl
step-Follows k pop (val ∷ vs) v (r, small) =
    let (v', runs, r') = pop-Represents v val vs (omega (arith, small)) r in
    rw runs (refl, (r', omega (arith, small)))
step-Follows k (get i) vs v (r, small) = elim (Option-cases (nth vs i)) [
  | inl e ↦ rw e (Follows-none false (HasRoom k) (step (get i) v) refl)
  | inr (x, e) ↦ rw (e, get-Represents v vs i x r e) (refl, (r, omega (arith, small)))
]

init-Represents :
    (n : ℕ) (v : IntVec)
    → 0 < n
    → n < 2 ^ 60
    → (v' : IntVec) × (vec_init true n v ≡ some v') × Represents v' []
unfolding vec_init malloc
init-Represents n v more small =
    let unset : Option ℤ = none in
    let whole : room n ≡ n = omega arith in
    (
      record { data_ = array (replicate (room n) unset); length_ = 0; capacity = n },
      refl,
      record {
        cells = replicate (room n) unset;
        pointer = refl;
        count = refl;
        full = omega (arith, whole, length-replicate (room n) unset);
        fits = omega arith;
        some_room = omega (arith, whole, length-replicate (room n) unset);
        filled = tt;
      },
    )

-- An array made with a capacity from 1 to below 2^60 takes any program of fewer than 2^60 pushes,
-- pops and reads for which there is memory: wherever the program pops no value from an empty array
-- and reads no place behind the last, every call is defined, the answers are those of the sequence
-- of values, and the array stands for the values left.
pub run-Refines :
    (ops : List Op) (n : ℕ) (v : IntVec)
    → 0 < n
    → n < 2 ^ 60
    → length ops < 2 ^ 60
    → Refines (spec_run ops []) (do v' ← vec_init true n v; run ops v')
run-Refines ops n v more small few =
    let (v', made, r) = init-Represents n v more small in
    rw made (
      Follows-weaken false (HasRoom 0) (λ vs w. Represents w vs) (spec_run ops []) (run ops v')
        (λ vs w h. h.0)
        (run_all-Follows false spec step HasRoom step-Follows ops [] v' (r, omega (arith, few))))

-- After vec_init with a capacity of 0 a push is undefined, whether or not there is memory.
pub push_without_capacity :
    (got got' : Bool) (val : ℤ) (v : IntVec)
    → (do v' ← vec_init got 0 v; vec_push got' val v') ≡ none
unfolding vec_init malloc vec_push grow realloc put vec_free free
push_without_capacity true true val v = refl
push_without_capacity true false val v = refl
push_without_capacity false true val v = refl
push_without_capacity false false val v = refl
