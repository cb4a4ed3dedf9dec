-- ===== src/ContainerBenchmark/Sums.antt =====
-- When the sums of bench_containers.cpp overflow, for keys that are not negative; and what does not
-- depend on the order of the keys.
use mathlib.Core.List.{Permᴰ}
use syseng.Base.{
  length, ℕ, zero, suc, ◌+◌, ◌*◌, ◌^◌, ◌<◌, ◌≡◌, refl, ap, ◌∙◌, Bool, true, false, ◌&&◌, ◌||◌, not,
  List, [], ◌∷◌, arith,
}
use syseng.Base.Int.{ℤ, pos, negsuc, ◌+ℤ◌, eqb_ℤ, pos_part}
use syseng.Base.CInt.{exact, add}
use syseng.ContainerBenchmark.Containers.{contains, distinct, iota}
use syseng.ContainerBenchmark.Bench.{sum_all}

abbrev pub is_natural : ℤ → Bool
is_natural (pos n) = true
is_natural (negsuc n) = false

unfoldable pub naturals : List ℤ → Bool
naturals [] = true
naturals (k ∷ keys) = is_natural k && naturals keys

unfoldable pub total : List ℤ → ℕ
total [] = 0
total (k ∷ keys) = pos_part k + total keys

pub add_pos : (w a b : ℕ) → add w (pos a) (pos b) ≡ exact w (pos (a + b))
unfolding add ◌+ℤ◌
add_pos w a b = ground arith

-- Summing naturals in w + 1 bits gives their total, or overflows when the total does.
pub sum_all-total :
    (w : ℕ) (keys : List ℤ) (a : ℕ)
    → a < 2 ^ w
    → naturals keys ≡ true
    → sum_all w keys (pos a) ≡ exact w (pos (a + total keys))
unfolding sum_all naturals total
sum_all-total w [] a small h = ground arith
sum_all-total w (negsuc n ∷ keys) a small h = absurd (cc)
sum_all-total w (pos n ∷ keys) a small h =
    ground (arith, add_pos w a n, sum_all-total w keys (a + n))

-- Permuted lists have the same total, and are alike in what they contain.
pub total-Perm : {xs ys : List ℤ} → Permᴰ xs ys → total xs ≡ total ys
unfolding total
total-Perm Permᴰ.nil = refl
total-Perm (Permᴰ.cons e p) = omega (arith, ap pos_part e, total-Perm p)
total-Perm (Permᴰ.swap e f) = omega (arith, ap pos_part e, ap pos_part f)
total-Perm (Permᴰ.trans p q) = total-Perm p ∙ total-Perm q

pub naturals-Perm : {xs ys : List ℤ} → Permᴰ xs ys → naturals xs ≡ naturals ys
unfolding naturals
naturals-Perm Permᴰ.nil = refl
naturals-Perm (Permᴰ.cons e p) = λ i. is_natural (e i) && naturals-Perm p i
naturals-Perm (Permᴰ.swap e f) = ground (arith, ap is_natural e, ap is_natural f)
naturals-Perm (Permᴰ.trans p q) = naturals-Perm p ∙ naturals-Perm q

pub contains-Perm : {xs ys : List ℤ} (k : ℤ) → Permᴰ xs ys → contains k xs ≡ contains k ys
unfolding contains
contains-Perm k Permᴰ.nil = refl
contains-Perm k (Permᴰ.cons e p) = λ i. eqb_ℤ (e i) k || contains-Perm k p i
contains-Perm k (Permᴰ.swap e f) = ground (arith, ap (λ x. eqb_ℤ x k) e, ap (λ x. eqb_ℤ x k) f)
contains-Perm k (Permᴰ.trans p q) = contains-Perm k p ∙ contains-Perm k q

distinct_swap : (a b : ℤ) (l : List ℤ) → distinct (a ∷ b ∷ l) ≡ distinct (b ∷ a ∷ l)
unfolding distinct contains
distinct_swap a b l = ground arith

pub distinct-Perm : {xs ys : List ℤ} → Permᴰ xs ys → distinct xs ≡ distinct ys
unfolding distinct
distinct-Perm Permᴰ.nil = refl
distinct-Perm (Permᴰ.cons {a = a} {l₂ = l₂} e p) =
    let same = contains-Perm a p ∙ ap (λ x. contains x l₂) e in
    λ i. not (same i) && distinct-Perm p i
distinct-Perm (Permᴰ.swap {a = a} {b = b} {l = l} e f) =
    distinct_swap a b l ∙ (λ i. distinct (f i ∷ e i ∷ l))
distinct-Perm (Permᴰ.trans p q) = distinct-Perm p ∙ distinct-Perm q

pub iota-naturals : (n value : ℕ) → naturals (iota n value) ≡ true
unfolding naturals iota
iota-naturals zero value = refl
iota-naturals (suc n) value = iota-naturals n (suc value)

pub total-iota : (n value : ℕ) → 2 * total (iota n value) + n ≡ 2 * (value * n) + n * n
unfolding total iota
total-iota zero value = omega arith
total-iota (suc n) value = omega (arith, total-iota n (suc value))

iota_below : (n value k : ℕ) → k < value → contains (pos k) (iota n value) ≡ false
unfolding contains iota
iota_below zero value k h = refl
iota_below (suc n) value k h = ground (arith, iota_below n (suc value) k)

pub iota-distinct : (n value : ℕ) → distinct (iota n value) ≡ true
unfolding distinct iota
iota-distinct zero value = refl
iota-distinct (suc n) value =
    ground (arith, iota_below n (suc value) value, iota-distinct n (suc value))

pub length-Perm : {xs ys : List ℤ} → Permᴰ xs ys → length xs ≡ length ys
length-Perm Permᴰ.nil = refl
length-Perm (Permᴰ.cons e p) = ap suc (length-Perm p)
length-Perm (Permᴰ.swap e f) = refl
length-Perm (Permᴰ.trans p q) = length-Perm p ∙ length-Perm q

pub length-iota : (n value : ℕ) → length (iota n value) ≡ n
unfolding iota
length-iota zero value = refl
length-iota (suc n) value = ap suc (length-iota n (suc value))
