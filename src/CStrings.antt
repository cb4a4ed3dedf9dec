-- ===== src/CStrings.antt =====
-- The string functions of 00-c-for-programmers/exercises/ex2-strings-and-arrays/strings.c. A char* is
-- a block of the heap and an offset into it; a byte is none until it is written, and the bytes count
-- as unsigned. `none` is undefined behaviour: an access outside a block, a byte read before it is
-- written, a NULL pointer from malloc that is stored through. A walk along a string has as many
-- rounds as the block has bytes, and one more.
pub mod Bytes
pub mod Copy
pub mod Join
pub mod Compare
pub mod Reverse
mod Tests
use syseng.Base.{
  ℕ, zero, suc, ◌+◌, ◌-◌, ◌*◌, ◌/◌, ◌%◌, ◌^◌, Bool, true, false, Option, none, some, List, [], ◌∷◌,
  ◌++◌, length, get_elem?, set, replicate, ltb, if◌then◌else◌, ◌>>=◌, ◌>>◌, ◌==◌,
}
use syseng.Base.CInt.{add, int_of_size, size_of_int}
use syseng.Base.Int.{ℤ, pos, negsuc, ◌-ℤ◌}

abbrev pub Heap : Type 0
Heap = List (List (Option ℕ))

-- A read and a store through a char*.
unfoldable byte : ℕ → ℕ → Heap → Option ℕ
byte b k h = do cs ← get_elem? h b; c ← get_elem? cs k; c

unfoldable put : ℕ → ℕ → ℕ → Heap → Option Heap
put b k c h = do
  cs ← get_elem? h b
  if ltb k (length cs) then some (set h b (set cs k (some c))) else none

abbrev block_of : Option (List (Option ℕ)) → List (Option ℕ)
block_of none = []
block_of (some cs) = cs

abbrev pub size_of : ℕ → Heap → ℕ
size_of b h = length (block_of (get_elem? h b))

-- malloc, which may have no memory to give.
unfoldable malloc : Bool → ℕ → Heap → Option (ℕ × Heap)
malloc true n h = some (length h, h ++ replicate n none ∷ [])
malloc false n h = none

unfoldable strlen_loop : ℕ → ℕ → ℕ → Heap → Option ℕ
strlen_loop zero b p h = none
strlen_loop (suc rounds) b p h = do
  c ← byte b p h
  let rest = strlen_loop rounds b (suc p) h
  if c == 0 then some p else rest

unfoldable my_strlen : ℕ → ℕ → Heap → Option ℕ
my_strlen b s h = do p ← strlen_loop (suc (size_of b h)) b s h; some (p - s)

-- The first two numbers are dst, the next two src.
unfoldable strcpy_loop : ℕ → ℕ → ℕ → ℕ → ℕ → Heap → Option Heap
strcpy_loop zero d dst b src h = none
strcpy_loop (suc rounds) d dst b src h = do
  c ← byte b src h
  let rest = do h' ← put d dst c h; strcpy_loop rounds d (suc dst) b (suc src) h'
  if c == 0 then put d dst 0 h else rest

unfoldable my_strcpy : ℕ → ℕ → ℕ → ℕ → Heap → Option Heap
my_strcpy d dst b src h = strcpy_loop (suc (size_of b h)) d dst b src h

unfoldable strcmp_loop : ℕ → ℕ → ℕ → ℕ → ℕ → Heap → Option ℤ
strcmp_loop zero a p b q h = none
strcmp_loop (suc rounds) a p b q h = do
  x ← byte a p h
  y ← byte b q h
  let rest = strcmp_loop rounds a (suc p) b (suc q) h
  if x == y then (if x == 0 then some (pos 0) else rest) else some (pos x -ℤ pos y)

unfoldable my_strcmp : ℕ → ℕ → ℕ → ℕ → Heap → Option ℤ
my_strcmp a p b q h = strcmp_loop (suc (size_of a h)) a p b q h

-- A pointer plus an int; before the block it is undefined.
unfoldable forward : ℕ → ℤ → Option ℕ
forward k (pos n) = some (k + n)
forward k (negsuc n) = if ltb n k then some (k - suc n) else none

unfoldable my_strcat : ℕ → ℕ → ℕ → ℕ → Heap → Option Heap
my_strcat d dst b src h = do
  n ← my_strlen d dst h
  loc ← forward dst (int_of_size n)
  my_strcpy d loc b src h

-- The first argument tells whether malloc has memory to give.
unfoldable my_strdup : Bool → ℕ → ℕ → Heap → Option (ℕ × Heap)
my_strdup got b s h = do
  n ← my_strlen b s h
  len ← add 31 (int_of_size n) (pos 1)
  (dup, h') ← malloc got (size_of_int len) h
  h'' ← my_strcpy dup 0 b s h'
  some (dup, h'')

unfoldable str_join : Bool → ℕ → ℕ → ℕ → ℕ → Heap → Option (ℕ × Heap)
str_join got a p b q h = do
  m ← my_strlen a p h
  n ← my_strlen b q h
  let len = int_of_size ((m + n + 1) % 2 ^ 64)
  (result, h') ← malloc got (size_of_int len) h
  h'' ← my_strcpy result 0 a p h'
  m' ← my_strlen a p h''
  h''' ← my_strcpy result m' b q h''
  some (result, h''')

unfoldable reverse_loop : ℕ → ℕ → ℕ → ℕ → ℕ → Heap → Option Heap
reverse_loop zero i len b s h = some h
reverse_loop (suc rounds) i len b s h = do
  tmp ← byte b (s + (len - 1 - i)) h
  c ← byte b (s + i) h
  h' ← put b (s + (len - 1 - i)) c h
  h'' ← put b (s + i) tmp h'
  reverse_loop rounds (suc i) len b s h''

unfoldable str_reverse : ℕ → ℕ → Heap → Option Heap
str_reverse b s h = do len ← my_strlen b s h; reverse_loop (len / 2) 0 len b s h

unfoldable palindrome_loop : ℕ → ℕ → ℕ → ℕ → ℕ → Heap → Option Bool
palindrome_loop zero i len b s h = some true
palindrome_loop (suc rounds) i len b s h = do
  x ← byte b (s + i) h
  y ← byte b (s + (len - 1 - i)) h
  let rest = palindrome_loop rounds (suc i) len b s h
  if x == y then rest else some false

unfoldable str_is_palindrome : ℕ → ℕ → Heap → Option Bool
str_is_palindrome b s h = do len ← my_strlen b s h; palindrome_loop (len / 2) 0 len b s h
