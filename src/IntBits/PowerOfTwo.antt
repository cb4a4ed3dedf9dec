-- ===== src/IntBits/PowerOfTwo.antt =====
-- is_power_of_2 of bits.c.
use Prim.Native.Nat.{bit_and as word_and, min}
use native.Mathlib.Nat.{pow-suc, one-le-pow}
use syseng.Base.{
  ℕ, zero, suc, ◌-◌, ◌/◌, ◌%◌, ◌^◌, ◌≤◌, ◌<◌, ◌≡◌, ◌↔◌, ◌⊎◌, refl, ap, ◌∙◌, Bool, true, false,
  Option, some, if◌then◌else◌, ◌==◌, arith, Bool-cases, Option-cases, none, inl, inr,
}
use syseng.Base.Bits.{bit_and-lowest, bit_and-left, bit_and-none}
use syseng.Base.CInt.{add, sub, in_range}
use syseng.Base.Int.{ℤ, pos, negsuc, ltb_ℤ, ◌+ℤ◌, ◌-ℤ◌}
use syseng.IntBits.{bit_and, int_or, complement, shift_right, to_word, is_power_of_2}
use syseng.IntBits.Masks.{nonzero-IsMask}

min_same : (x : ℕ) → min x x ≡ x
min_same x = omega arith

and_same : (w n : ℕ) → n < 2 ^ w → word_and n n ≡ n
and_same zero n small = let n0 : n ≡ 0 = omega arith in rw n0 refl
and_same (suc w) n small =
    bit_and-lowest n n
    ∙ rw (and_same w (n / 2) (omega (arith, pow-suc 2 w))) (omega (arith, min_same (n % 2)))

and_small : (w a b : ℕ) → a < 2 ^ w → word_and a b < 2 ^ w
and_small zero a b small = let a0 : a ≡ 0 = omega arith in rw (a0, bit_and-left b) (omega arith)
and_small (suc w) a b small = omega (
  arith,
  bit_and-lowest a b,
  and_small w (a / 2) (b / 2) (omega (arith, pow-suc 2 w)),
  pow-suc 2 w,
)

and_power : (k : ℕ) → word_and (2 ^ k) (2 ^ k - 1) ≡ 0
and_power zero = refl
and_power (suc k) =
    let half : 2 ^ suc k / 2 ≡ 2 ^ k = omega (arith, pow-suc 2 k) in
    let half' : (2 ^ suc k - 1) / 2 ≡ 2 ^ k - 1 = omega (arith, pow-suc 2 k, one-le-pow k 2) in
    let even : 2 ^ suc k % 2 ≡ 0 = omega (arith, pow-suc 2 k) in
    let odd : (2 ^ suc k - 1) % 2 ≡ 1 = omega (arith, pow-suc 2 k, one-le-pow k 2) in
    bit_and-lowest (2 ^ suc k) (2 ^ suc k - 1) ∙ rw (half, half', even, odd, and_power k) refl

power_of_and : (w n : ℕ) → n < 2 ^ w → 1 ≤ n → word_and n (n - 1) ≡ 0 → (k : ℕ) × (n ≡ 2 ^ k)
power_of_and zero n small more z = absurd (omega arith)
power_of_and (suc w) n small more z = elim (Bool-cases (n % 2 == 0)) [
  | inl even ↦
      let half : (n - 1) / 2 ≡ n / 2 - 1 = ground (arith, even, more) in
      let rest : word_and (n / 2) (n / 2 - 1) ≡ 0 =
        ground (arith, bit_and-lowest n (n - 1), half, z) in
      let (k, e) =
        power_of_and w (n / 2) (omega (arith, pow-suc 2 w)) (ground (arith, even, more)) rest in
      (suc k, ground (arith, e, even, pow-suc 2 k))
  | inr odd ↦
      let half : (n - 1) / 2 ≡ n / 2 = ground (arith, odd, more) in
      let none_left : n / 2 ≡ 0 = ground (
        arith,
        bit_and-lowest n (n - 1),
        half,
        z,
        and_same w (n / 2) (omega (arith, pow-suc 2 w)),
      ) in
      (0, ground (arith, odd, none_left))
]

-- The last line of the function on masks for v = 0.
last_line :
    (b : Bool)
    → bit_and
        (bit_and (bit_and (complement (if b then pos 0 else negsuc 0)) (negsuc 0)) (negsuc 0))
        (pos 1)
      ≡ (if b then pos 1 else pos 0)
unfolding bit_and
last_line true = refl
last_line false = refl

and_pos : (a b : ℕ) → a < 2 ^ 31 → bit_and (pos a) (pos b) ≡ pos (word_and a b)
unfolding bit_and
and_pos a b small = ground (arith, and_small 31 a b small)

one_less : (n : ℕ) → suc n < 2 ^ 31 → sub 31 (pos (suc n)) (pos 1) ≡ some (pos n)
unfolding sub ◌-ℤ◌
one_less n small = ground (arith, small)

nat_mask :
    (n : ℕ)
    → n < 2 ^ 31
    → (m : ℤ) × (add 31 (complement (pos n)) (pos 1) ≡ some m)
      × (shift_right (int_or (pos n) m) 31 ≡ (if n == 0 then pos 0 else negsuc 0))
unfolding ◌-ℤ◌
nat_mask n small =
    let (m, is) = nonzero-IsMask (pos n) (ground (arith, small)) (ground (arith, small)) in
    (m, is.negated, is.mask ∙ ground arith)

is_power_of_2_pos :
    (n : ℕ)
    → suc n < 2 ^ 31
    → is_power_of_2 (pos (suc n)) ≡ some (if word_and (suc n) n == 0 then pos 1 else pos 0)
unfolding is_power_of_2
is_power_of_2_pos n small =
    let w = word_and (suc n) n in
    let (m, em, sm) = nat_mask (suc n) small in
    let (k, ek, sk) = nat_mask w (and_small 31 (suc n) n small) in
    let full : (if suc n == 0 then pos 0 else negsuc 0) ≡ negsuc 0 = ground arith in
    let no_sign : suc n / 2 ^ 31 ≡ 0 = omega arith in
    rw
      (one_less n small, em, and_pos (suc n) n small, ek, sm, sk, full, no_sign, last_line (w == 0))
      refl

answers :
    (b : Bool) {o : Option ℤ}
    → o ≡ some (if b then pos 1 else pos 0)
    → (o ≡ some (pos 1)) ⊎ (o ≡ some (pos 0))
answers true e = inl e
answers false e = inr e

zero_lem : is_power_of_2 (pos 0) ≡ some (pos 0)
unfolding is_power_of_2 sub add bit_and int_or ◌-ℤ◌ ◌+ℤ◌
zero_lem = refl

is_power_of_2_natural :
    (n : ℕ)
    → 1 ≤ n
    → n < 2 ^ 31
    → ((is_power_of_2 (pos n) ≡ some (pos 1)) ↔ ((k : ℕ) × (n ≡ 2 ^ k)))
      × ((is_power_of_2 (pos n) ≡ some (pos 1)) ⊎ (is_power_of_2 (pos n) ≡ some (pos 0)))
      × (is_power_of_2 (pos 0) ≡ some (pos 0))
is_power_of_2_natural zero more small = absurd (omega arith)
is_power_of_2_natural (suc n) more small =
    let one_off : suc n - 1 ≡ n = omega arith in
    let runs = is_power_of_2_pos n small in
    (
      (
        (λ e. power_of_and 31 (suc n) small (omega arith) (rw one_off (ground (arith, runs, e)))),
        λ (k, e). runs ∙ ground (arith, and_power k, e, one_off),
      ),
      answers (word_and (suc n) n == 0) runs,
      zero_lem,
    )

less_power : (n : ℕ) → n < 2 ^ n
less_power zero = omega arith
less_power (suc n) = omega (arith, less_power n, pow-suc 2 n)

and_zero_right : (r : ℕ) → word_and r 0 ≡ 0
and_zero_right r = bit_and-none r r (less_power r)

bit_and_zero : (x : ℤ) → bit_and x (pos 0) ≡ pos 0
unfolding bit_and
bit_and_zero x = rw (and_zero_right (to_word x)) refl

zero_and_one : bit_and (pos 0) (pos 1) ≡ pos 0
unfolding bit_and
zero_and_one = refl

-- The test of the sign makes the answer 0 for a negative number, where there is one.
is_power_of_2_negative :
    (n : ℕ)
    → n < 2 ^ 31
    → (is_power_of_2 (negsuc n) ≡ none) ⊎ (is_power_of_2 (negsuc n) ≡ some (pos 0))
unfolding is_power_of_2
is_power_of_2_negative n small =
    let sign : n / 2 ^ 31 ≡ 0 = omega arith in
    elim (Option-cases (sub 31 (negsuc n) (pos 1))) [
      | inl e ↦ rw e (inl refl)
      | inr (less, e) ↦ elim (Option-cases (add 31 (pos n) (pos 1))) [
        | inl e' ↦ rw (e, e') (inl refl)
        | inr (minus_x, e') ↦
            elim (Option-cases (add 31 (complement (bit_and (negsuc n) less)) (pos 1))) [
              | inl e'' ↦ rw (e, e', e'') (inl refl)
              | inr (minus_v, e'') ↦ rw (e, e', e'', sign, bit_and_zero _, zero_and_one) (inr refl)
            ]
      ]
    ]

-- For an int x, is_power_of_2 answers 1 exactly if x is a power of 2, and 0 for every other x that
-- is not negative. For a negative x it answers 0 or is undefined.
pub is_power_of_2_lem :
    (x : ℤ)
    → in_range 31 x ≡ true
    → ((is_power_of_2 x ≡ some (pos 1)) ↔ ((k : ℕ) × (x ≡ pos (2 ^ k))))
      × ((is_power_of_2 x ≡ some (pos 1))
          ⊎ (is_power_of_2 x ≡ some (pos 0))
          ⊎ ((is_power_of_2 x ≡ none) × (ltb_ℤ x (pos 0) ≡ true)))
is_power_of_2_lem (pos zero) h = (
  (
    (λ e. absurd (ground (arith, zero_lem, e))),
    λ (k, e). absurd (ground (arith, e, one-le-pow k 2)),
  ),
  inr (inl zero_lem),
)
is_power_of_2_lem (pos (suc n)) h =
    let ((l, r), either, at_zero) =
      is_power_of_2_natural (suc n) (omega arith) (ground (arith, h)) in
    (
      ((λ e. let (k, p) = l e in (k, ap pos p)), λ (k, e). r (k, ground (arith, e))),
      (elim either [ inl e ↦ inl e | inr e ↦ inr (inl e) ]),
    )
is_power_of_2_lem (negsuc n) h =
    let either = is_power_of_2_negative n (ground (arith, h)) in
    (
      (
        (λ e.
            absurd
              (elim either [ inl e' ↦ ground (arith, e, e') | inr e' ↦ ground (arith, e, e') ])),
        λ (k, e). absurd (ground (arith, e)),
      ),
      (elim either [ inl e ↦ inr (inr (e, ground arith)) | inr e ↦ inr (inl e) ]),
    )
