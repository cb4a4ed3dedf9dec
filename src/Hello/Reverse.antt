-- ===== src/Hello/Reverse.antt =====
-- array_reverse of hello.c.
use syseng.Base.{
  swapped, get_elem?_ext, ap, ℕ, zero, suc, ◌+◌, ◌-◌, ◌*◌, ◌/◌, ◌≤◌, ◌<◌, ◌≡◌, refl, some, List,
  length, get_elem?, set, length-set, get_elem?-set, get_elem?-some, ltb, if◌then◌else◌, arith,
}
use syseng.Base.Int.{ℤ, pos, negsuc}
use syseng.Hello.{put, reverse_loop, array_reverse}

put-some : (i : ℕ) (v : ℤ) (arr : List ℤ) → i < length arr → put i v arr ≡ some (set arr i v)
unfolding put
put-some i v arr h = ground arith

abbrev Reversed : ℕ → ℕ → ℕ → List ℤ → List ℤ → Type 0
Reversed rounds i n xs ys =
    (length ys ≡ length xs)
    × ((j : ℕ)
        → get_elem? ys j
          ≡ (if swapped rounds i n j then get_elem? xs (n - 1 - j) else get_elem? xs j))

-- One round before the others.
Reversed-step :
    (rounds i n : ℕ) (xs ys : List ℤ) (a b : ℤ)
    → (i + suc rounds) * 2 ≤ n
    → n ≤ length xs
    → get_elem? xs i ≡ some a
    → get_elem? xs (n - 1 - i) ≡ some b
    → Reversed rounds (suc i) n (set (set xs i b) (n - 1 - i) a) ys
    → Reversed (suc rounds) i n xs ys
Reversed-step rounds i n xs ys a b half room ea eb r = (
  omega (arith, r.0, length-set (set xs i b) (n - 1 - i) a, length-set xs i b),
  λ j. ground (
    arith,
    r.1 j,
    get_elem?-set (set xs i b) (n - 1 - i) a j,
    get_elem?-set (set xs i b) (n - 1 - i) a (n - 1 - j),
    get_elem?-set xs i b j,
    get_elem?-set xs i b (n - 1 - j),
    length-set xs i b,
  ),
)

reverse_loop_lem :
    (rounds i n : ℕ) (xs : List ℤ)
    → (i + rounds) * 2 ≤ n
    → n ≤ length xs
    → (ys : List ℤ) × (reverse_loop rounds i n xs ≡ some ys) × Reversed rounds i n xs ys
unfolding reverse_loop
reverse_loop_lem zero i n xs half room = (xs, refl, (refl, λ j. ground arith))
reverse_loop_lem (suc rounds) i n xs half room =
    let (a, ea) = get_elem?-some xs i (omega arith) in
    let (b, eb) = get_elem?-some xs (n - 1 - i) (omega arith) in
    let first = set xs i b in
    let both = set first (n - 1 - i) a in
    let (ys, runs, r) =
      reverse_loop_lem rounds (suc i) n both (omega arith)
        (omega (arith, length-set first (n - 1 - i) a, length-set xs i b)) in
    (
      ys,
      rw
          (
            ea,
            eb,
            put-some i b xs (omega arith),
            put-some (n - 1 - i) a first (omega (arith, length-set xs i b)),
          )
          runs,
      Reversed-step rounds i n xs ys a b half room ea eb r,
    )

-- The elements below n in reverse order, the others as they were.
abbrev pub Mirrored : ℕ → List ℤ → List ℤ → Type 0
Mirrored n xs ys =
    (length ys ≡ length xs)
    × ((j : ℕ) → get_elem? ys j ≡ (if ltb j n then get_elem? xs (n - 1 - j) else get_elem? xs j))

array_reverse-Mirrored :
    (n : ℕ) (xs : List ℤ)
    → n ≤ length xs
    → (ys : List ℤ) × (array_reverse xs (pos n) ≡ some ys) × Mirrored n xs ys
unfolding array_reverse
array_reverse-Mirrored n xs room =
    let (ys, runs, r) = reverse_loop_lem (n / 2) 0 n xs (omega arith) room in
    (ys, runs, (r.0, λ j. ground (arith, r.1 j)))

restored : (n : ℕ) (xs ys zs : List ℤ) → Mirrored n xs ys → Mirrored n ys zs → zs ≡ xs
restored n xs ys zs h k = get_elem?_ext zs xs (λ j. ground (arith, k.1 j, h.1 j, h.1 (n - 1 - j)))

-- For n up to the length of the array, array_reverse is defined, mirrors the first n elements and
-- keeps the others, and a second call restores the array; with any negative number in place of n it
-- changes nothing.
pub array_reverse_lem :
    (n : ℕ) (xs : List ℤ)
    → n ≤ length xs
    → (ys : List ℤ) × (array_reverse xs (pos n) ≡ some ys)
      × (length ys ≡ length xs)
      × ((j : ℕ) → get_elem? ys j ≡ (if ltb j n then get_elem? xs (n - 1 - j) else get_elem? xs j))
      × (array_reverse ys (pos n) ≡ some xs)
      × ((m : ℕ) → array_reverse xs (negsuc m) ≡ some xs)
array_reverse_lem n xs room =
    let (ys, runs, r) = array_reverse-Mirrored n xs room in
    let (zs, again, r') = array_reverse-Mirrored n ys (omega (arith, r.0)) in
    (
      ys,
      runs,
      r.0,
      r.1,
      rw again (ap some (restored n xs ys zs r r')),
      λ m. unfold array_reverse reverse_loop in refl,
    )
