-- ===== src/Hello/Search.antt =====
-- array_max_index and array_contains of hello.c.
use syseng.Base.{
  subst, ap, ◌⊎◌, ◌↔◌, ℕ, zero, suc, ◌+◌, ◌-◌, ◌≤◌, ◌<◌, ◌≡◌, refl, Bool, true, false, some, List,
  length, get_elem?, get_elem?-some, Bool-cases, inl, inr, if◌then◌else◌, arith,
}
use syseng.Base.Int.{ℤ, pos, ◌≤ℤ◌, eqb_ℤ, ltb_ℤ, leb_ℤ, minus_one}
use syseng.Hello.{max_loop, array_max_index, contains_loop, array_contains}

-- The first of the largest elements below i.
record IsFirstMax (arr : List ℤ) (i : ℕ) (v : ℤ) (k : ℕ) : Type 0 where
  below : k < i
  here : get_elem? arr k ≡ some v
  largest : (j : ℕ) (w : ℤ) → j < i → get_elem? arr j ≡ some w → w ≤ℤ v
  earliest : (j : ℕ) (w : ℤ) → j < k → get_elem? arr j ≡ some w → ltb_ℤ w v ≡ true

IsFirstMax-suc :
    (arr : List ℤ) (i : ℕ) (v : ℤ) (k : ℕ) (w : ℤ)
    → IsFirstMax arr i v k
    → get_elem? arr i ≡ some w
    → IsFirstMax arr (suc i) (if ltb_ℤ v w then w else v) (if ltb_ℤ v w then i else k)
IsFirstMax-suc arr i v k w m e = elim (Bool-cases (ltb_ℤ v w)) [
  | inl more ↦ rw more (record {
    below = omega arith;
    here = e;
    largest = λ j u lt eu. ground (arith, m.largest j u);
    earliest = λ j u lt eu. ground (arith, m.largest j u);
  })
  | inr less ↦ rw less (record {
    below = omega (arith, m.below);
    here = m.here;
    largest = λ j u lt eu. ground (arith, m.largest j u);
    earliest = m.earliest;
  })
]

max_loop_lem :
    (rounds i n : ℕ) (arr : List ℤ) (v : ℤ) (k : ℕ)
    → i + rounds ≡ n
    → n ≤ length arr
    → IsFirstMax arr i v k
    → (k' : ℕ) × (v' : ℤ) × (max_loop rounds i arr v k ≡ some k') × IsFirstMax arr n v' k'
unfolding max_loop
max_loop_lem zero i n arr v k count room m =
    let same : i ≡ n = omega arith in (k, v, refl, subst (λ p. IsFirstMax arr p v k) same m)
max_loop_lem (suc rounds) i n arr v k count room m =
    let (w, e) = get_elem?-some arr i (omega arith) in
    let (k', v', runs, m') =
      max_loop_lem rounds (suc i) n arr (if ltb_ℤ v w then w else v) (if ltb_ℤ v w then i else k)
        (omega arith) room (IsFirstMax-suc arr i v k w m e) in
    (k', v', rw e runs, m')

contains_loop_lem :
    (rounds i : ℕ) (arr : List ℤ) (val : ℤ)
    → i + rounds ≤ length arr
    → (found : Bool) × (contains_loop rounds i arr val ≡ some found)
      × (found ≡ true → (j : ℕ) × (j < i + rounds) × (get_elem? arr j ≡ some val))
      × ((j : ℕ) → i ≤ j → j < i + rounds → get_elem? arr j ≡ some val → found ≡ true)
unfolding contains_loop
contains_loop_lem zero i arr val room =
    (false, refl, (λ e. absurd (cc)), λ j lo hi e. absurd (omega arith))
contains_loop_lem (suc rounds) i arr val room =
    let (w, e) = get_elem?-some arr i (omega arith) in
    let (found, runs, sound, complete) = contains_loop_lem rounds (suc i) arr val (omega arith) in
    elim (Bool-cases (eqb_ℤ w val)) [
      | inl hit ↦
          (true, rw (e, runs, hit) refl, (λ t. (i, omega arith, ground arith)), λ j lo hi ej. refl)
      | inr miss ↦ (
        found,
        rw (e, runs, miss) refl,
        (λ t. let (j, lt, ej) = sound t in (j, omega arith, ej)),
        λ j lo hi ej. ground (arith, complete j),
      )
    ]

max_index_lem :
    (n : ℕ) (arr : List ℤ)
    → 0 < n
    → n ≤ length arr
    → (k : ℕ) × (v : ℤ) × (array_max_index arr (pos n) ≡ some (pos k)) × IsFirstMax arr n v k
unfolding array_max_index
max_index_lem n arr more room =
    let (v, e) = get_elem?-some arr 0 (omega arith) in
    let start : IsFirstMax arr 1 v 0 = record {
      below = omega arith;
      here = e;
      largest = λ j w lt ew. ground arith;
      earliest = λ j w lt ew. absurd (omega arith);
    } in
    let (k, v', runs, m) = max_loop_lem (n - 1) 1 n arr v 0 (omega arith) room start in
    (k, v', ground (arith, e, runs), m)

one_or_zero :
    (b : Bool)
    → (some (if b then pos 1 else pos 0) ≡ some (pos 1))
      ⊎ (some (if b then pos 1 else pos 0) ≡ some (pos 0))
one_or_zero true = inl refl
one_or_zero false = inr refl

contains_lem :
    (n : ℕ) (arr : List ℤ) (val : ℤ)
    → 0 < n
    → n ≤ length arr
    → ((array_contains arr (pos n) val ≡ some (pos 1))
        ⊎ (array_contains arr (pos n) val ≡ some (pos 0)))
      × ((array_contains arr (pos n) val ≡ some (pos 1))
          ↔ ((j : ℕ) × (j < n) × (get_elem? arr j ≡ some val)))
unfolding array_contains
contains_lem n arr val more room =
    let (found, runs, sound, complete) = contains_loop_lem n 0 arr val (omega arith) in
    let full : leb_ℤ (pos n) (pos 0) ≡ false = ground arith in
    rw (full, runs)
      (
        one_or_zero found,
        (
          (λ t. let (j, lt, e) = sound (ground arith) in (j, omega arith, e)),
          λ (j, lt, e).
              ap (λ b. some (if b then pos 1 else pos 0))
                (complete j (omega arith) (omega arith) e),
        ),
      )

-- For 0 < n up to the length of the array, array_max_index gives the place of an element such that
-- no element below n is larger and every earlier one is smaller, array_contains finds that element,
-- and it answers 1 for a value exactly if the value stands at a place below n, and else 0. Without
-- elements the index is -1 and no value is found.
pub max-contains_lem :
    (n : ℕ) (arr : List ℤ) (val : ℤ)
    → 0 < n
    → n ≤ length arr
    → (k : ℕ) × (largest : ℤ) × (array_max_index arr (pos n) ≡ some (pos k))
      × (get_elem? arr k ≡ some largest)
      × ((j : ℕ) (w : ℤ) → j < n → get_elem? arr j ≡ some w → w ≤ℤ largest)
      × ((j : ℕ) (w : ℤ) → j < k → get_elem? arr j ≡ some w → ltb_ℤ w largest ≡ true)
      × (array_contains arr (pos n) largest ≡ some (pos 1))
      × ((array_contains arr (pos n) val ≡ some (pos 1))
          ⊎ (array_contains arr (pos n) val ≡ some (pos 0)))
      × ((array_contains arr (pos n) val ≡ some (pos 1))
          ↔ ((j : ℕ) × (j < n) × (get_elem? arr j ≡ some val)))
      × (array_max_index arr (pos 0) ≡ some minus_one)
      × (array_contains arr (pos 0) val ≡ some (pos 0))
max-contains_lem n arr val more room =
    let (k, v, runs, m) = max_index_lem n arr more room in
    let at_max = contains_lem n arr v more room in
    let at_val = contains_lem n arr val more room in
    (
      k,
      v,
      runs,
      m.here,
      m.largest,
      m.earliest,
      at_max.1.1 (k, m.below, m.here),
      at_val.0,
      at_val.1,
      unfold array_max_index in refl,
      unfold array_contains in refl,
    )
