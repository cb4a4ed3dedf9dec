-- ===== src/Memory/Owned.antt =====
-- The ownership invariant: every array is owned by exactly one live object, which knows its
-- length, and no object points at anything else.
use syseng.Base.{
  ℕ, zero, suc, ◌<◌, ◌≡◌, refl, ◌≢◌, Option, none, some, List, [], ◌∷◌, ◌++◌, arith, get_elem?, set,
  length, if◌then◌else◌, ◌==◌, All, tally, tally_ended, weigh-le-tally, weigh-add_le-tally,
  get_elem?-append_lt, get_elem?-append_end, get_elem?-set_self, get_elem?-set_ne, get_elem?-ge,
  length-append, length-set, Option-cases, Bool-cases, ltb, inl, inr,
}
use syseng.Memory.{Obj, owning, nullptr, Mem, block, free_block, freed, delete_array}

-- The object points at address `a`, as a number; and the length that it believes is there.
abbrev pub points_at : ℕ → Obj → ℕ
points_at a o = if o.data_ == a then 1 else 0

abbrev pub claims : ℕ → Obj → ℕ
claims a o = if o.data_ == a then o.size_ else 0

pub claims_nowhere :
    (a : ℕ) (os : List (Option Obj)) → tally (points_at a) os ≡ 0 → tally (claims a) os ≡ 0
claims_nowhere a [] h = omega arith
claims_nowhere a (none ∷ os) h = ground (arith, claims_nowhere a os)
claims_nowhere a (some o ∷ os) h = ground (arith, claims_nowhere a os)

-- Where one object alone points at an address, its size is all that is claimed there.
claims_alone :
    (a n : ℕ) (os : List (Option Obj)) (i : ℕ)
    → get_elem? os i ≡ some (some (owning a n))
    → tally (points_at a) os ≡ 1
    → tally (claims a) os ≡ n
claims_alone a n [] i live h = absurd (cc)
claims_alone a n (o ∷ os) zero live h = ground (arith, claims_nowhere a os)
claims_alone a n (none ∷ os) (suc i) live h = ground (arith, claims_alone a n os i)
claims_alone a n (some o ∷ os) (suc i) live h =
    ground (arith, claims_alone a n os i, weigh-le-tally (points_at a) os i _ live)

module _ {V : Type 0} where
  abbrev pub is_allocated : Option (List V) → ℕ
  is_allocated none = 0
  is_allocated (some vs) = 1

  abbrev pub block_length : Option (List V) → ℕ
  block_length none = 0
  block_length (some vs) = length vs

  pub record IsOwned (m : Mem V) : Type 0 where
    pub one_owner : (a : ℕ) → 0 < a → tally (points_at a) m.objs ≡ is_allocated (block a m.blocks)
    pub sizes : (a : ℕ) → tally (claims a) m.objs ≡ block_length (block a m.blocks)

  -- The next address holds no array yet.
  pub block_fresh : (a : ℕ) (bs : List (Option (List V))) → a ≡ suc (length bs) → block a bs ≡ none
  block_fresh zero bs h = refl
  block_fresh (suc a) bs h = ground (arith, get_elem?-ge bs a)

  -- What new[] and delete[] do to the array at each address.
  pub block-new :
      (a : ℕ) (vs : List V) (bs : List (Option (List V)))
      → block a (bs ++ some vs ∷ []) ≡ (if a == suc (length bs) then some vs else block a bs)
  block-new zero vs bs = ground arith
  block-new (suc a) vs bs = ground (
    arith,
    get_elem?-append_lt bs (some vs ∷ []) a,
    get_elem?-append_end bs (some vs) a,
    get_elem?-ge bs a,
    get_elem?-ge (bs ++ some vs ∷ []) a,
    length-append bs (some vs ∷ []),
  )

  pub block-free :
      (a p : ℕ) (bs : List (Option (List V)))
      → block a (free_block p bs) ≡ (if a == p then none else block a bs)
  block-free zero p bs = ground arith
  block-free (suc a) zero bs = ground arith
  block-free (suc a) (suc p) bs = elim (Bool-cases (ltb p (length bs))) [
    | inl inside ↦
        ground (arith, get_elem?-set_ne bs {i = p} {j = a} none, get_elem?-set_self bs p none)
    | inr outside ↦ ground (
      arith,
      get_elem?-set_ne bs {i = p} {j = a} none,
      get_elem?-ge bs p,
      get_elem?-ge (set bs p none) p,
      length-set bs p none,
    )
  ]

  pub block-lt :
      (p : ℕ) (bs : List (Option (List V))) {vs : List V}
      → block (suc p) bs ≡ some vs
      → p < length bs
  block-lt p bs h = elim (Bool-cases (ltb p (length bs))) [
    | inl inside ↦ ground arith
    | inr outside ↦ ground (arith, get_elem?-ge bs p)
  ]

  -- Writing an array's contents anew.
  pub block-set :
      (a p : ℕ) (ws : List V) (bs : List (Option (List V)))
      → p < length bs
      → block a (set bs p (some ws)) ≡ (if a == suc p then some ws else block a bs)
  block-set zero p ws bs inside = ground arith
  block-set (suc a) p ws bs inside =
      ground
        (arith, get_elem?-set_ne bs {i = p} {j = a} (some ws), get_elem?-set_self bs p (some ws))

  pub length-free_block :
      (p : ℕ) (bs : List (Option (List V))) → length (free_block p bs) ≡ length bs
  length-free_block zero bs = refl
  length-free_block (suc p) bs = length-set bs p none

  module _ {m : Mem V} (own : IsOwned m) where
    -- The array that a live object points at is there, and has the length that it claims.
    pub owned_block :
        (i p n : ℕ)
        → get_elem? m.objs i ≡ some (some (owning (suc p) n))
        → (vs : List V) × (block (suc p) m.blocks ≡ some vs) × (length vs ≡ n)
    owned_block i p n live = elim (Option-cases (block (suc p) m.blocks)) [
      | inl gone ↦ absurd (
          ground (
            arith,
            own.one_owner (suc p) (omega arith),
            weigh-le-tally (points_at (suc p)) m.objs i _ live,
          ))
      | inr (vs, there) ↦ (
        vs,
        there,
        ground (
          arith,
          own.one_owner (suc p) (omega arith),
          own.sizes (suc p),
          claims_alone (suc p) n m.objs i live,
        ),
      )
    ]

    pub null_size : (i n : ℕ) → get_elem? m.objs i ≡ some (some (owning nullptr n)) → n ≡ 0
    null_size i n live = omega (arith, weigh-le-tally (claims 0) m.objs i _ live, own.sizes 0)

    -- delete[] of what an object points at is always defined, and frees that array alone.
    pub delete-owned :
        (i p n : ℕ)
        → get_elem? m.objs i ≡ some (some (owning p n))
        → delete_array p m ≡ some (freed p m)
    unfolding delete_array
    delete-owned i zero n live = refl
    delete-owned i (suc p) n live = let (vs, there, _) = owned_block i p n live in ground arith

    -- Two objects never share an array.
    pub distinct_arrays :
        (i j p n q k : ℕ)
        → i ≢ j
        → get_elem? m.objs i ≡ some (some (owning p n))
        → get_elem? m.objs j ≡ some (some (owning q k))
        → 0 < q
        → q ≢ p
    distinct_arrays i j p n q k ne live from pos same =
        ground
          (arith, own.one_owner q pos, weigh-add_le-tally (points_at q) m.objs i j _ _ ne live from)

    -- When every object's lifetime is over, every array has been deleted.
    pub no_leak : All (λ o. o ≡ none) m.objs → (a : ℕ) → block a m.blocks ≡ none
    no_leak ended zero = refl
    no_leak ended (suc a) =
        ground
          (arith, own.one_owner (suc a) (omega arith), tally_ended (points_at (suc a)) m.objs ended)

pub empty-IsOwned : {V : Type 0} → IsOwned {V = V} (record { objs = []; blocks = [] })
empty-IsOwned = record {
  one_owner = elim [ zero ↦ λ pos. refl | suc a ↦ λ pos. refl ];
  sizes = elim [ zero ↦ refl | suc a ↦ refl ];
}

abbrev pub IsLive : {V : Type 0} → Mem V → ℕ → Type 0
IsLive m i = (o : Obj) × (get_elem? m.objs i ≡ some (some o))
