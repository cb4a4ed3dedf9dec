-- ===== src/SpscQueue/Occupancy.antt =====
-- What size(), empty() and full() of spsc_queue.hpp say of indices below N.
use native.Mathlib.Nat.{mod-eq_of_lt, mod_self, add-mul-mod_self_left}
use syseng.Base.{
  ℕ, ◌+◌, ◌-◌, ◌*◌, ◌%◌, ◌^◌, ◌≤◌, ◌<◌, ◌≡◌, ◌↔◌, true, sym, ap, ◌∙◌, ◌==◌, arith, leb,
  if◌then◌else◌,
}
use syseng.SpscQueue.{Queue, size, empty, full, mask, land}
use syseng.SpscQueue.Mask.{land-mask, mod-wrap, pow_bounds}

module _ (k : ℕ) (q : Queue) (power : k ≤ 63) (h : q.head_ < 2 ^ k) (t : q.tail_ < 2 ^ k) where
  distance_ahead : q.tail_ ≤ q.head_ → size (2 ^ k) q ≡ q.head_ - q.tail_
  unfolding size
  distance_ahead ahead =
      let (low, high) = pow_bounds k power in
      let distance : (q.head_ + (2 ^ 64 - q.tail_)) % 2 ^ 64 ≡ q.head_ - q.tail_ = omega arith in
      land-mask k ((q.head_ + (2 ^ 64 - q.tail_)) % 2 ^ 64) power
      ∙ ap (λ x. x % 2 ^ k) distance
      ∙ mod-eq_of_lt (omega arith)

  distance_around : q.head_ < q.tail_ → size (2 ^ k) q ≡ 2 ^ k + q.head_ - q.tail_
  unfolding size
  distance_around around =
      let (low, high) = pow_bounds k power in
      let back = 2 ^ k + q.head_ - q.tail_ in
      let x = q.head_ + (2 ^ 64 - q.tail_) in
      let wrapped : x % 2 ^ 64 ≡ x = omega arith in
      let same : x + 2 ^ k * 1 ≡ back + 2 ^ 64 = omega arith in
      land-mask k (x % 2 ^ 64) power
      ∙ ap (λ y. y % 2 ^ k) wrapped
      ∙ sym (add-mul-mod_self_left x (2 ^ k) 1)
      ∙ ap (λ y. y % 2 ^ k) same
      ∙ mod-wrap k back power
      ∙ mod-eq_of_lt (omega arith)

  next_index :
      land ((q.head_ + 1) % 2 ^ 64) (mask (2 ^ k))
      ≡ (if q.head_ + 1 == 2 ^ k then 0 else q.head_ + 1)
  next_index =
      let (low, high) = pow_bounds k power in
      let wrapped : (q.head_ + 1) % 2 ^ 64 ≡ q.head_ + 1 = omega arith in
      land-mask k ((q.head_ + 1) % 2 ^ 64) power
      ∙ ap (λ y. y % 2 ^ k) wrapped
      ∙ ground (arith, mod-eq_of_lt {n = q.head_ + 1} {m = 2 ^ k}, mod_self (2 ^ k))

-- For N = 2^k and indices below N: size() counts the slots from tail_ up to head_ around the ring
-- and is below N, empty() holds exactly when it is 0, and full() exactly when it is N - 1. For
-- N = 1 the queue is therefore both.
pub occupancy :
    (k : ℕ) (q : Queue)
    → k ≤ 63
    → q.head_ < 2 ^ k
    → q.tail_ < 2 ^ k
    → (size (2 ^ k) q
        ≡ (if leb q.tail_ q.head_ then q.head_ - q.tail_ else 2 ^ k + q.head_ - q.tail_))
      × (size (2 ^ k) q < 2 ^ k)
      × ((empty q ≡ true) ↔ (size (2 ^ k) q ≡ 0))
      × ((full (2 ^ k) q ≡ true) ↔ (size (2 ^ k) q ≡ 2 ^ k - 1))
unfolding empty full
occupancy k q power h t =
    let ahead = distance_ahead k q power h t in
    let around = distance_around k q power h t in
    let next = next_index k q power h t in
    let (low, high) = pow_bounds k power in
    let tail_index : land q.tail_ (mask (2 ^ k)) ≡ q.tail_ =
      land-mask k q.tail_ power ∙ mod-eq_of_lt t in
    (
      ground (arith, ahead, around),
      ground (arith, ahead, around),
      (λ e. ground (arith, ahead, around), λ e. ground (arith, ahead, around)),
      (
        λ e. ground (arith, ahead, around, next, tail_index, low),
        λ e. ground (arith, ahead, around, next, tail_index, low),
      ),
    )
