-- ===== src/IntVec.antt =====
-- The dynamic array of 00-c-for-programmers/exercises/ex2-strings-and-arrays/strings.c. `none` is
-- undefined behaviour: an access outside the array or to an element that is not written yet, a store
-- through NULL, a second free. size_t wraps at 2^64, and an int has 4 bytes.
pub mod Stack
pub mod Programs
mod Tests
use syseng.Base.{
  ℕ, zero, suc, ◌+◌, ◌-◌, ◌*◌, ◌/◌, ◌%◌, ◌^◌, Bool, true, false, Option, none, some, List, [], ◌∷◌,
  ◌++◌, length, get_elem?, set, take, replicate, ltb, if◌then◌else◌, ◌>>=◌, ◌==◌,
}
use syseng.Base.Int.{ℤ}

-- What the pointer `data` is: NULL, freed, or an array, whose elements are none until written.
pub data Data : Type 0 where
  null : Data
  freed : Data
  array : List (Option ℤ) → Data

-- int_vec_t
pub record IntVec : Type 0 where
  pub data_ : Data
  pub length_ : ℕ
  pub capacity : ℕ

abbrev unset : Option ℤ
unset = none

-- How many elements fit in the bytes that `n * sizeof(int)` comes to.
abbrev pub room : ℕ → ℕ
room n = n * 4 % 2 ^ 64 / 4

-- malloc(n * sizeof(int)) and realloc(p, n * sizeof(int)), which may have no memory to give.
unfoldable malloc : Bool → ℕ → Data
malloc true n = array (replicate (room n) unset)
malloc false n = null

unfoldable realloc : Bool → Data → ℕ → Option Data
realloc got freed n = none
realloc got null n = some (malloc got n)
realloc true (array xs) n = some (array (take (room n) xs ++ replicate (room n - length xs) unset))
realloc false (array xs) n = some null

unfoldable free : Data → Option Data
free null = some null
free freed = none
free (array xs) = some freed

unfoldable vec_free : IntVec → Option IntVec
vec_free v = do p ← free v.data_; some (record { data_ = p; length_ = 0; capacity = 0 })

abbrev is_null : Data → Bool
is_null null = true
is_null freed = false
is_null (array xs) = false

-- The first argument tells whether malloc has memory to give.
unfoldable vec_init : Bool → ℕ → IntVec → Option IntVec
vec_init got initial_capacity v = do
  let v' = record v { data_ = malloc got initial_capacity }
  v'' ← if is_null v'.data_ then vec_free v' else some v'
  some (record v'' { length_ = 0; capacity = initial_capacity })

-- data[i] = val
unfoldable put : ℕ → ℤ → Data → Option Data
put i val null = none
put i val freed = none
put i val (array xs) = if ltb i (length xs) then some (array (set xs i (some val))) else none

-- data[i]
unfoldable at : ℕ → Data → Option ℤ
at i null = none
at i freed = none
at i (array xs) = do x ← get_elem? xs i; x

-- The doubling in vec_push. Where realloc gives NULL the old array stays unfreed.
unfoldable grow : Bool → IntVec → Option IntVec
grow got v = do
  p ← realloc got v.data_ (v.capacity * 2 % 2 ^ 64)
  let v' = record v { data_ = p }
  v'' ← if is_null p then vec_free v' else some v'
  some (record v'' { capacity = v''.capacity * 2 % 2 ^ 64 })

unfoldable vec_push : Bool → ℤ → IntVec → Option IntVec
vec_push got val v = do
  v' ← if v.length_ == v.capacity then grow got v else some v
  p ← put v'.length_ val v'.data_
  some (record v' { data_ = p; length_ = (v'.length_ + 1) % 2 ^ 64 })

-- The test for an empty array has no effect.
unfoldable vec_pop : IntVec → Option (ℤ × IntVec)
vec_pop v = do
  let n = (v.length_ + (2 ^ 64 - 1)) % 2 ^ 64
  x ← at n v.data_
  some (x, record v { length_ = n })

-- The bounds check has no effect.
unfoldable vec_get : IntVec → ℕ → Option ℤ
vec_get v i = at i v.data_
