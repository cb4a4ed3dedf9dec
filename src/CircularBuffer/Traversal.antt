-- ===== src/CircularBuffer/Traversal.antt =====
-- A loop over a CircularBuffer from begin() to end().
use syseng.Base.{
  ℕ, zero, suc, ◌+◌, ◌^◌, ◌<◌, ◌≡◌, refl, true, false, Option, none, some, List, [], ◌∷◌, get_elem?,
  replicate, if◌then◌else◌, ◌>>=◌, arith,
}
use syseng.Base.Int.{pos, eqb_ℤ, ◌+ℤ◌}
use syseng.CircularBuffer.{
  Buffer, Iterator, deref, ne, pre_increment, begin_, end_, ptrdiff_of_size,
}

pre_increment_lem :
    (i : ℕ)
    → suc i < 2 ^ 63
    → pre_increment (record { pos_ = pos i }) ≡ some (record { pos_ = pos (i + 1) })
unfolding pre_increment ◌+ℤ◌
pre_increment_lem i small = ground (arith, small)

-- for (x : buffer), with a number of rounds that it may take at most: the elements that x stands for.
module _ {T : Type 0} where
  unfoldable pub traverse : ℕ → Iterator → Iterator → Buffer T → Option (List T)
  traverse zero it last b = none
  traverse (suc k) it last b =
      let round = do
        x ← deref it b
        it' ← pre_increment it
        rest ← traverse k it' last b
        some (x ∷ rest)
      in if ne it last then round else some []

  traverse_round :
      (k : ℕ) (it it' last : Iterator) (b : Buffer T) (x : T) (xs : List T)
      → ne it last ≡ true
      → deref it b ≡ some x
      → pre_increment it ≡ some it'
      → traverse k it' last b ≡ some xs
      → traverse (suc k) it last b ≡ some (x ∷ xs)
  unfolding traverse
  traverse_round k it it' last b x xs going seen moved rest = rw (going, seen, moved, rest) refl

  traverse_rest :
      (b : Buffer T) (x : T) (k i e : ℕ)
      → get_elem? b.data_ 0 ≡ some x
      → i + k ≡ e
      → e < 2 ^ 63
      → traverse (suc k) (record { pos_ = pos i }) (record { pos_ = pos e }) b
        ≡ some (replicate k x)
  unfolding traverse deref ne
  traverse_rest b x zero i e first at_end small =
      let reached : eqb_ℤ (pos i) (pos e) ≡ true = ground (arith, at_end) in rw reached refl
  traverse_rest b x (suc k) i e first at_end small =
      let before : eqb_ℤ (pos i) (pos e) ≡ false = ground (arith, at_end) in
      let going : ne (record { pos_ = pos i }) (record { pos_ = pos e }) ≡ true = rw before refl in
      traverse_round (suc k) (record { pos_ = pos i }) (record { pos_ = pos (i + 1) })
        (record { pos_ = pos e }) b x (replicate k x) going first
        (pre_increment_lem i (omega (arith, at_end, small)))
        (traverse_rest b x k (i + 1) e first (omega (arith, at_end)) small)

  -- The loop ends after size() rounds, where the size fits a ptrdiff_t; as operator* is a
  -- placeholder, it sees the first element of the array size() times.
  pub traverse_lem :
      (b : Buffer T) (x : T)
      → get_elem? b.data_ 0 ≡ some x
      → b.count_ < 2 ^ 63
      → traverse (suc b.count_) (begin_ b) (end_ b) b ≡ some (replicate b.count_ x)
  unfolding begin_ end_
  traverse_lem b x first small =
      let same : ptrdiff_of_size b.count_ ≡ pos b.count_ = ground (arith, small) in
      rw same (traverse_rest b x b.count_ 0 b.count_ first (omega arith) small)
