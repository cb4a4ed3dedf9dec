-- ===== src/Buffer/Copy.antt =====
-- The copy loop of buffer.hpp copies the array of the source into that of the target.
use syseng.Base.{
  ℕ, zero, suc, ◌+◌, ◌<◌, ◌≡◌, ◌≢◌, refl, sym, ap, ◌∙◌, Option, some, List, [], ◌∷◌, ◌++◌, arith,
  get_elem?, set, length, take, drop, get_elem?-lt, lt→ltb, set_same, set-set, set-append_end,
  take_all, length-replicate, replicate, get_elem?-some,
}
use syseng.Memory.{Obj, Mem, block, load, store}
use syseng.Memory.Owned.{block-set, block-lt, block-new, block_fresh}
use syseng.Buffer.{copy_loop}

-- What the target holds after `k` rounds on the way from `ws` to `vs`.
abbrev splice : ℕ → List ℕ → List ℕ → List ℕ
splice k ws vs = take k vs ++ drop k ws

-- Writing the next element of `vs` at place `k` of `ws` is one more element taken from `vs`.
splice_step :
    (k : ℕ) (ws vs : List ℕ) {v : ℕ}
    → get_elem? vs k ≡ some v
    → k < length ws
    → set (take k vs ++ drop k ws) k v ≡ take (suc k) vs ++ drop (suc k) ws
splice_step zero ws [] e h = absurd (cc)
splice_step zero [] (x ∷ vs) e h = elim h [ ]
splice_step zero (w ∷ ws) (x ∷ vs) e h = ground arith
splice_step (suc k) ws [] e h = absurd (cc)
splice_step (suc k) [] (x ∷ vs) e h = elim h [ ]
splice_step (suc k) (w ∷ ws) (x ∷ vs) e h = ap (λ r. x ∷ r) (splice_step k ws vs e (omega arith))

length-splice :
    (k : ℕ) (ws vs : List ℕ) → length ws ≡ length vs → length (splice k ws vs) ≡ length vs
length-splice zero ws vs e = e
length-splice (suc k) [] [] e = refl
length-splice (suc k) [] (v ∷ vs) e = absurd (omega arith)
length-splice (suc k) (w ∷ ws) [] e = absurd (omega arith)
length-splice (suc k) (w ∷ ws) (v ∷ vs) e = omega (arith, length-splice k ws vs (omega arith))

block-slot :
    {V : Type 0} (p : ℕ) (bs : List (Option (List V))) {vs : List V}
    → block (suc p) bs ≡ some vs
    → get_elem? bs p ≡ some (some vs)
block-slot p bs h = ground arith

-- One round: an element is read and written.
round_splice :
    (k p q : ℕ) (m : Mem ℕ) (ws vs : List ℕ) (v : ℕ)
    → length ws ≡ length vs
    → block q m.blocks ≡ some vs
    → block (suc p) m.blocks ≡ some (splice k ws vs)
    → get_elem? vs k ≡ some v
    → (load q k m ≡ some v)
      × (store (suc p) k v m
          ≡ some (record m { blocks = set m.blocks p (some (splice (suc k) ws vs)) }))
unfolding load store
round_splice k p q m ws vs v len from to here =
    let inside = get_elem?-lt vs k here in
    (
      rw from here,
      ground (
        arith,
        lt→ltb k (length (splice k ws vs)),
        length-splice k ws vs len,
        splice_step k ws vs here (omega arith),
      ),
    )

-- The loop from any round on: what it has not copied yet it copies, and then it stops.
copy_loop-splice :
    (n k p q : ℕ) (m : Mem ℕ) (ws vs : List ℕ)
    → k + n ≡ length vs
    → length ws ≡ length vs
    → q ≢ suc p
    → block q m.blocks ≡ some vs
    → block (suc p) m.blocks ≡ some (splice k ws vs)
    → copy_loop n k (suc p) q m ≡ some (record m { blocks = set m.blocks p (some vs) })
unfolding copy_loop
copy_loop-splice zero k p q m ws vs end len ne from to =
    let done : splice k ws vs ≡ vs = take_all k vs ws (omega arith) (omega arith) in
    let slot = block-slot p m.blocks to in
    ap (λ bs. some (record m { blocks = bs }))
      (sym (set_same m.blocks p (slot ∙ ap (λ x. some (some x)) done)))
copy_loop-splice (suc n) k p q m ws vs end len ne from to =
    let (v, here) = get_elem?-some vs k (omega arith) in
    let inside = block-lt p m.blocks to in
    let ws' = splice (suc k) ws vs in
    let (loaded, stored) = round_splice k p q m ws vs v len from to here in
    rw (loaded, stored)
      (copy_loop-splice n (suc k) p q (record m { blocks = set m.blocks p (some ws') }) ws vs
          (omega arith) len ne (ground (arith, block-set q p ws' m.blocks inside))
          (ground (arith, block-set (suc p) p ws' m.blocks inside))
        ∙ ap (λ bs. some (record m { blocks = bs })) (set-set m.blocks p (some ws') (some vs)))

-- Where source and target are one array, the loop leaves it as it is.
copy_loop-same :
    (n k p : ℕ) (m : Mem ℕ) (vs : List ℕ)
    → k + n ≡ length vs
    → block (suc p) m.blocks ≡ some vs
    → copy_loop n k (suc p) (suc p) m ≡ some m
unfolding copy_loop
copy_loop-same zero k p m vs end to = refl
copy_loop-same (suc n) k p m vs end to =
    let (v, here) = get_elem?-some vs k (omega arith) in
    let same : store (suc p) k v m ≡ some m =
      unfold store in
      ground (
        arith,
        lt→ltb k (length vs),
        set_same vs k here,
        set_same m.blocks p (block-slot p m.blocks to),
      ) in
    let loaded : load (suc p) k m ≡ some v = unfold load in rw to here in
    rw (loaded, same) (copy_loop-same n (suc k) p m vs (omega arith) to)

-- The elements of the array that an object points at; an object with nullptr has none.
abbrev pub elements : ℕ → List (Option (List ℕ)) → Option (List ℕ)
elements zero bs = some []
elements (suc a) bs = block (suc a) bs

-- Filling a new array by the loop gives the heap that has a copy of the source in it.
pub copy_loop-new :
    (q n : ℕ) (vs : List ℕ) (os : List (Option Obj)) (bs : List (Option (List ℕ)))
    → elements q bs ≡ some vs
    → length vs ≡ n
    → copy_loop n 0
        (suc (length bs))
        q
        (record { objs = os; blocks = bs ++ some (replicate n 0) ∷ [] })
      ≡ some (record { objs = os; blocks = bs ++ some vs ∷ [] })
copy_loop-new zero n vs os bs from len =
    let none_left : [] ≡ vs = cc in
    let nothing : 0 ≡ n = omega (arith, ap length none_left) in
    rw (← none_left, ← nothing) (unfold copy_loop in refl)
copy_loop-new (suc q) n vs os bs from len =
    let ne : suc q ≢ suc (length bs) = λ e. ground (arith, block_fresh (suc q) bs e) in
    copy_loop-splice n 0 (length bs) (suc q) _ (replicate n 0) vs (omega arith)
      (omega (arith, length-replicate {A = ℕ} n 0)) ne
      (ground (arith, block-new (suc q) (replicate n 0) bs))
      (ground (arith, block-new (suc (length bs)) (replicate n 0) bs))
    ∙ ap (λ cs. some (record { objs = os; blocks = cs }))
        (set-append_end bs (some (replicate n 0)) (some vs))

-- Copied onto itself, a new array keeps its zeros.
pub copy_loop-new_self :
    (n : ℕ) (os : List (Option Obj)) (bs : List (Option (List ℕ)))
    → copy_loop n 0
        (suc (length bs))
        (suc (length bs))
        (record { objs = os; blocks = bs ++ some (replicate n 0) ∷ [] })
      ≡ some (record { objs = os; blocks = bs ++ some (replicate n 0) ∷ [] })
copy_loop-new_self n os bs =
    copy_loop-same n 0 (length bs) _ (replicate n 0) (omega (arith, length-replicate {A = ℕ} n 0))
      (ground (arith, block-new (suc (length bs)) (replicate n 0) bs))
