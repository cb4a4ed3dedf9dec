-- ===== src/CStrings/Tests.antt =====
-- The string functions of strings.c at concrete values.
use syseng.Base.{
  ltb, ℕ, ◌≡◌, ◌↔◌, ◌&&◌, refl, Bool, true, false, none, some, Option, List, [], ◌∷◌, ◌++◌, map,
  codes, reverse, leb, ◌==◌, ◌>>=◌, arith,
}
use syseng.Base.CInt.{add, int_of_size, size_of_int}
use syseng.Base.Int.{ℤ, pos, ◌+ℤ◌, ltb_ℤ}
use syseng.CStrings.{
  Heap, byte, put, malloc, strlen_loop, my_strlen, strcpy_loop, my_strcpy, my_strcmp, str_join,
  str_reverse, str_is_palindrome,
}
use syseng.CStrings.Bytes.{Text}
use syseng.CStrings.Join.{IsFresh, str_join_lem}
use syseng.CStrings.Compare.{my_strcmp_lem}
use syseng.CStrings.Reverse.{reverse-palindrome_lem}

abbrev written : List ℕ → List (Option ℕ)
written cs = map (λ c. some c) cs ++ some 0 ∷ []

-- Two strings, and a block with "to" and room behind it.
abbrev heap : Heap
heap =
    written (codes "ab")
    ∷ written (codes "abba")
    ∷ (written (codes "to") ++ none ∷ none ∷ none ∷ [])
    ∷ []

join_test : (do (d, h) ← str_join true 0 0 1 1 heap; my_strlen d 0 h) ≡ some 5
unfolding str_join my_strlen strlen_loop byte malloc my_strcpy strcpy_loop put int_of_size
    size_of_int
join_test = refl

-- The int sum for the terminating 0 overflows for a string of 2^31 - 1 bytes.
dup_size_test : add 31 (int_of_size 2147483647) (pos 1) ≡ none
unfolding add int_of_size ◌+ℤ◌
dup_size_test = refl

ab-Text : Text heap 0 0 (codes "ab")
unfolding byte
ab-Text = (refl, (λ e. omega arith), (refl, (λ e. omega arith), refl))

abba-Text : Text heap 1 0 (codes "abba")
unfolding byte
abba-Text = (
  refl,
  (λ e. omega arith),
  (refl, (λ e. omega arith), (refl, (λ e. omega arith), (refl, (λ e. omega arith), refl))),
)

to-Text : Text heap 2 0 (codes "to")
unfolding byte
to-Text = (refl, (λ e. omega arith), (refl, (λ e. omega arith), refl))

str_join_lem_example :
    (d : ℕ) × (h' : Heap) × (str_join true 0 0 0 0 heap ≡ some (d, h'))
    × IsFresh heap (codes "abab") d h'
str_join_lem_example =
    str_join_lem heap 0 0 0 0 (codes "ab") (codes "ab") ab-Text ab-Text (omega arith)

my_strcmp_lem_example :
    (v : ℤ) × (my_strcmp 0 0 1 0 heap ≡ some v)
    × ((v ≡ pos 0) ↔ (codes "ab" ≡ codes "abba"))
    × (ltb_ℤ v (pos 0) ≡ true)
    × (ltb_ℤ (pos 0) v ≡ false)
my_strcmp_lem_example = my_strcmp_lem heap 0 0 1 0 (codes "ab") (codes "abba") ab-Text abba-Text

reverse-palindrome_lem_example :
    (h' : Heap) × (answer : Bool) × (str_reverse 0 0 heap ≡ some h')
    × Text h' 0 0 (codes "ba")
    × ((b' : ℕ) (k : ℕ)
        → ((b' == 0) && (leb 0 k && ltb k 2)) ≡ false
        → byte b' k h' ≡ byte b' k heap)
    × (str_is_palindrome 0 0 heap ≡ some answer)
    × ((answer ≡ true) ↔ (reverse (codes "ab") ≡ codes "ab"))
reverse-palindrome_lem_example = reverse-palindrome_lem heap 0 0 (codes "ab") ab-Text
