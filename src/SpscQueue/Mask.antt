-- ===== src/SpscQueue/Mask.antt =====
-- The mask N - 1 of spsc_queue.hpp, for an N that is a power of two.
use native.Mathlib.Nat.{
  add-mul-mod_self_left, mod-eq_of_lt, mod-add-div, mod-lt, pow-suc, mod-one, pow-le-pow_right,
}
use syseng.Base.{
  ℕ, zero, suc, ◌+◌, ◌-◌, ◌*◌, ◌/◌, ◌%◌, ◌^◌, ◌≤◌, ◌<◌, ◌≡◌, refl, sym, ap, ◌∙◌, arith,
}
use syseng.SpscQueue.{land_bits, land, mask}

land_bits_zero : (bits x : ℕ) → land_bits bits x 0 ≡ 0
unfolding land_bits
land_bits_zero zero x = refl
land_bits_zero (suc bits) x = ground (arith, land_bits_zero bits (x / 2))

pow_pos : (k : ℕ) → 1 ≤ 2 ^ k
pow_pos zero = omega arith
pow_pos (suc k) = omega (arith, pow_pos k, pow-suc 2 k)

-- The remainder by 2 m from the lowest bit and the rest.
mod_double : (x m : ℕ) → 1 ≤ m → x % (2 * m) ≡ x % 2 + 2 * (x / 2 % m)
mod_double x m h =
    let rest = x % 2 + 2 * (x / 2 % m) in
    let q = x / 2 / m in
    let small : rest < 2 * m = omega (arith, mod-lt (x / 2) {m = m} h) in
    let split : rest + 2 * m * q ≡ x = omega (arith, mod-add-div (x / 2) m) in
    sym (ap (λ y. y % (2 * m)) split) ∙ add-mul-mod_self_left rest (2 * m) q ∙ mod-eq_of_lt small

land_bits-mask : (bits k x : ℕ) → k ≤ bits → land_bits bits x (2 ^ k - 1) ≡ x % 2 ^ k
unfolding land_bits
land_bits-mask bits zero x h = land_bits_zero bits x ∙ sym (mod-one x)
land_bits-mask zero (suc k) x h = absurd (omega arith)
land_bits-mask (suc bits) (suc k) x h =
    let m = 2 ^ k in
    let positive : 1 ≤ m = pow_pos k in
    let double : 2 ^ suc k ≡ 2 * m = omega (arith, pow-suc 2 k) in
    let odd : (2 * m - 1) % 2 ≡ 1 = omega arith in
    let half : (2 * m - 1) / 2 ≡ m - 1 = omega arith in
    rw (double, odd, half, land_bits-mask bits k (x / 2) (omega arith), mod_double x m positive)
      (omega arith)

pub pow_bounds : (k : ℕ) → k ≤ 63 → (1 ≤ 2 ^ k) × (2 ^ k ≤ 2 ^ 63)
pow_bounds k h = (pow_pos k, pow-le-pow_right {n = 2} (omega arith) {i = k} {j = 63} h)

mask_lem : (k : ℕ) → k ≤ 63 → mask (2 ^ k) ≡ 2 ^ k - 1
unfolding mask
mask_lem k h = let (low, high) = pow_bounds k h in omega arith

pub land-mask : (k x : ℕ) → k ≤ 63 → land x (mask (2 ^ k)) ≡ x % 2 ^ k
unfolding land
land-mask k x h = ap (λ y. land_bits 64 x y) (mask_lem k h) ∙ land_bits-mask 64 k x (omega arith)

pow_split : (k j : ℕ) → 2 ^ (k + j) ≡ 2 ^ k * 2 ^ j
pow_split k zero = let none_more : k + 0 ≡ k = omega arith in rw none_more (omega arith)
pow_split k (suc j) =
    let one_more : k + suc j ≡ suc (k + j) = omega arith in
    rw one_more (omega (arith, pow_split k j, pow-suc 2 (k + j), ap (λ x. 2 ^ k * x) (pow-suc 2 j)))

-- Adding 2^64 does not change the remainder.
pub mod-wrap : (k x : ℕ) → k ≤ 63 → (x + 2 ^ 64) % 2 ^ k ≡ x % 2 ^ k
mod-wrap k x h =
    let j = 64 - k in
    let whole : k + j ≡ 64 = omega arith in
    let split : 2 ^ 64 ≡ 2 ^ k * 2 ^ j = ap (λ e. 2 ^ e) (sym whole) ∙ pow_split k j in
    ap (λ y. (x + y) % 2 ^ k) split ∙ add-mul-mod_self_left x (2 ^ k) (2 ^ j)
