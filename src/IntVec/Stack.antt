-- ===== src/IntVec/Stack.antt =====
-- The dynamic array of strings.c beside the sequence of its values.
use syseng.Base.{
  ap, get_elem?-set_self, ℕ, zero, suc, ◌+◌, ◌-◌, ◌*◌, ◌%◌, ◌^◌, ◌≤◌, ◌<◌, ◌≡◌, refl, true, Option,
  none, some, List, [], ◌∷◌, ◌++◌, length, get_elem?, set, take, replicate, get_elem?-set,
  length-set, get_elem?-append_lt, length-append, length-replicate, if◌then◌else◌, ◌==◌, arith,
}
use syseng.Base.Int.{ℤ}
use syseng.IntVec.{Data, array, IntVec, room, realloc, put, grow}

-- The values with the newest first stand in the array in the order of their coming.
abbrev pub Filled : List (Option ℤ) → List ℤ → Type 0
Filled xs [] = Unit
Filled xs (v ∷ vs) = (get_elem? xs (length vs) ≡ some (some v)) × Filled xs vs

pub record Represents (v : IntVec) (vs : List ℤ) : Type 0 where
  pub cells : List (Option ℤ)
  pub pointer : v.data_ ≡ array cells
  pub count : v.length_ ≡ length vs
  pub full : v.capacity ≡ length cells
  pub fits : length vs ≤ length cells
  pub some_room : 0 < length cells
  pub filled : Filled cells vs

Filled-set :
    (xs : List (Option ℤ)) (vs : List ℤ) (i : ℕ) (x : Option ℤ)
    → i < length xs
    → length vs ≤ i
    → Filled xs vs
    → Filled (set xs i x) vs
Filled-set xs [] i x lt le f = tt
Filled-set xs (v ∷ vs) i x lt le f = (
  ground (arith, get_elem?-set xs i x (length vs) lt, f.0),
  Filled-set xs vs i x lt (omega arith) f.1,
)

Filled-append :
    (xs ys : List (Option ℤ)) (vs : List ℤ)
    → length vs ≤ length xs
    → Filled xs vs
    → Filled (xs ++ ys) vs
Filled-append xs ys [] le f = tt
Filled-append xs ys (v ∷ vs) le f = (
  ground (arith, get_elem?-append_lt xs ys (length vs), f.0),
  Filled-append xs ys vs (omega arith) f.1,
)

take-length : {A : Type 0} (n : ℕ) (xs : List A) → length xs ≤ n → take n xs ≡ xs
take-length zero [] h = refl
take-length zero (x ∷ xs) h = absurd (omega arith)
take-length (suc n) [] h = refl
take-length (suc n) (x ∷ xs) h = ap (λ r. x ∷ r) (take-length n xs (omega arith))

-- The i-th value to come.
abbrev pub nth : List ℤ → ℕ → Option ℤ
nth [] i = none
nth (v ∷ vs) i = if i == length vs then some v else nth vs i

pub grow-Represents :
    (v : IntVec) (vs : List ℤ)
    → length vs < 2 ^ 60
    → v.length_ ≡ v.capacity
    → Represents v vs
    → (v' : IntVec) × (grow true v ≡ some v')
      × Represents v' vs
      × (length vs < v'.capacity)
      × (v'.capacity ≤ length vs * 2)
unfolding grow realloc
grow-Represents v vs small eq r =
    let n = length r.cells in
    let unset : Option ℤ = none in
    let more = replicate (n * 2 - n) unset in
    let double : room (v.capacity * 2 % 2 ^ 64) ≡ n * 2 = omega (arith, eq, r.count, r.full) in
    let size : length (r.cells ++ more) ≡ n * 2 =
      omega (arith, length-append r.cells more, length-replicate (n * 2 - n) unset) in
    (
      record {
        data_ = array (r.cells ++ more);
        length_ = v.length_;
        capacity = v.capacity * 2 % 2 ^ 64;
      },
      rw (r.pointer, double, take-length (n * 2) r.cells (omega arith)) refl,
      record {
        cells = r.cells ++ more;
        pointer = refl;
        count = r.count;
        full = omega (arith, eq, r.count, r.full, size);
        fits = omega (arith, r.fits, size);
        some_room = omega (arith, r.some_room, size);
        filled = Filled-append r.cells more vs r.fits r.filled;
      },
      omega (arith, eq, r.count, r.full, r.some_room),
      omega (arith, eq, r.count, r.full),
    )

pub store-Represents :
    (v : IntVec) (vs : List ℤ) (val : ℤ)
    → length vs < 2 ^ 60
    → length vs < v.capacity
    → Represents v vs
    → (p : Data) × (put v.length_ val v.data_ ≡ some p)
      × Represents (record v { data_ = p; length_ = (v.length_ + 1) % 2 ^ 64 }) (val ∷ vs)
unfolding put
store-Represents v vs val small less r = (
  array (set r.cells (length vs) (some val)),
  ground (arith, r.pointer, r.count, r.full),
  record {
    cells = set r.cells (length vs) (some val);
    pointer = refl;
    count = omega (arith, r.count);
    full = omega (arith, r.full, length-set r.cells (length vs) (some val));
    fits = omega (arith, r.full, length-set r.cells (length vs) (some val));
    some_room = omega (arith, r.some_room, length-set r.cells (length vs) (some val));
    filled = (
      get_elem?-set_self r.cells (length vs) (some val) (omega (arith, r.full)),
      Filled-set r.cells vs (length vs) (some val) (omega (arith, r.full)) (omega arith) r.filled,
    );
  },
)
