-- ===== src/Memory/Changes.antt =====
-- The changes that constructors, assignments and destructors of ownership.hpp and buffer.hpp make to
-- the heap, and the ownership invariant.
use syseng.Base.{
  ℕ, suc, ◌≡◌, ◌∙◌, none, some, List, [], ◌∷◌, ◌++◌, arith, get_elem?, set, length, tally-set,
  tally-append, weigh-le-tally, get_elem?-append_lt, get_elem?-lt, get_elem?-set_copy,
}
use syseng.Memory.{
  owning, nullptr, Mem, block, free_block, freed, new_address, new_array, new_obj, put_obj, end_obj,
}
use syseng.Memory.Owned.{
  points_at, claims, IsOwned, block-new, block-free, block_fresh, block-lt, block-set,
  claims_nowhere, length-free_block,
}

module _ {V : Type 0} {m : Mem V} (own : IsOwned m) where
  -- A new object with an array of its own.
  pub own-new :
      (vs : List V) → IsOwned (new_obj (owning (new_address m) (length vs)) (new_array vs m))
  own-new vs = record {
    one_owner = λ a pos. ground (
      arith,
      own.one_owner a pos,
      block-new a vs m.blocks,
      block_fresh a m.blocks,
      tally-append (points_at a) m.objs (some (owning (new_address m) (length vs)) ∷ []),
    );
    sizes = λ a. ground (
      arith,
      own.sizes a,
      block-new a vs m.blocks,
      block_fresh a m.blocks,
      tally-append (claims a) m.objs (some (owning (new_address m) (length vs)) ∷ []),
    );
  }

  -- The lifetime of an object ends after delete[].
  pub own-end :
      (i p n : ℕ) → get_elem? m.objs i ≡ some (some (owning p n)) → IsOwned (end_obj i (freed p m))
  own-end i p n live = record {
    one_owner = λ a pos. ground (
      arith,
      own.one_owner a pos,
      block-free a p m.blocks,
      tally-set (points_at a) m.objs i _ none live,
    );
    sizes = λ a. ground (
      arith,
      own.sizes a,
      own.one_owner a,
      block-free a p m.blocks,
      tally-set (claims a) m.objs i _ none live,
      tally-set (points_at a) m.objs i _ none live,
      claims_nowhere a (set m.objs i none),
    );
  }

  -- A move assignment: the target's array goes, the source's changes hands. The two may be one.
  pub own-steal :
      (i j p n q k : ℕ)
      → get_elem? m.objs i ≡ some (some (owning p n))
      → get_elem? m.objs j ≡ some (some (owning q k))
      → IsOwned (put_obj j (owning nullptr 0) (put_obj i (owning q k) (freed p m)))
  own-steal i j p n q k live from =
      let from' = get_elem?-set_copy m.objs i j (some (owning q k)) from in
      let after = set (set m.objs i (some (owning q k))) j (some (owning nullptr 0)) in
      record {
        one_owner = λ a pos. ground (
          arith,
          own.one_owner a pos,
          block-free a p m.blocks,
          tally-set (points_at a) m.objs i _ (some (owning q k)) live,
          tally-set (points_at a) (set m.objs i (some (owning q k))) j _ (some (owning nullptr 0))
              from',
        );
        sizes = λ a. ground (
          arith,
          own.sizes a,
          own.one_owner a,
          block-free a p m.blocks,
          tally-set (points_at a) m.objs i _ (some (owning q k)) live,
          tally-set (points_at a) (set m.objs i (some (owning q k))) j _ (some (owning nullptr 0))
              from',
          tally-set (claims a) m.objs i _ (some (owning q k)) live,
          tally-set (claims a) (set m.objs i (some (owning q k))) j _ (some (owning nullptr 0))
              from',
          claims_nowhere a after,
        );
      }

  -- A move construction: a new object takes the array over.
  pub own-move :
      (j q k : ℕ)
      → get_elem? m.objs j ≡ some (some (owning q k))
      → IsOwned (put_obj j (owning nullptr 0) (new_obj (owning q k) m))
  own-move j q k from =
      let more = m.objs ++ some (owning q k) ∷ [] in
      let from' : get_elem? more j ≡ some (some (owning q k)) =
        get_elem?-append_lt m.objs _ j (get_elem?-lt m.objs j from) ∙ from in
      record {
        one_owner = λ a pos. ground (
          arith,
          own.one_owner a pos,
          tally-append (points_at a) m.objs (some (owning q k) ∷ []),
          tally-set (points_at a) more j _ (some (owning nullptr 0)) from',
        );
        sizes = λ a. ground (
          arith,
          own.sizes a,
          tally-append (claims a) m.objs (some (owning q k) ∷ []),
          tally-set (claims a) more j _ (some (owning nullptr 0)) from',
        );
      }

  -- A copy assignment: the target's array goes, and one with these contents takes its place.
  pub own-replace :
      (i p n : ℕ) (vs : List V)
      → get_elem? m.objs i ≡ some (some (owning p n))
      → IsOwned
          (put_obj i (owning (new_address (freed p m)) (length vs)) (new_array vs (freed p m)))
  own-replace i p n vs live =
      let fresh = owning (new_address (freed p m)) (length vs) in
      record {
        one_owner = λ a pos. ground (
          arith,
          own.one_owner a pos,
          block-free a p m.blocks,
          block-new a vs (free_block p m.blocks),
          block_fresh a m.blocks,
          length-free_block p m.blocks,
          weigh-le-tally (points_at a) m.objs i _ live,
          tally-set (points_at a) m.objs i _ (some fresh) live,
        );
        sizes = λ a. ground (
          arith,
          own.sizes a,
          own.one_owner a,
          block-free a p m.blocks,
          block-new a vs (free_block p m.blocks),
          block_fresh a m.blocks,
          length-free_block p m.blocks,
          weigh-le-tally (points_at a) m.objs i _ live,
          tally-set (points_at a) m.objs i _ (some fresh) live,
          tally-set (claims a) m.objs i _ (some fresh) live,
          claims_nowhere a (set m.objs i (some fresh)),
        );
      }

  -- A write inside an array.
  pub own-store :
      (p : ℕ) (vs ws : List V)
      → block (suc p) m.blocks ≡ some vs
      → length ws ≡ length vs
      → IsOwned (record m { blocks = set m.blocks p (some ws) })
  own-store p vs ws there same =
      let inside = block-lt p m.blocks there in
      record {
        one_owner = λ a pos. ground (arith, own.one_owner a pos, block-set a p ws m.blocks inside);
        sizes = λ a. ground (arith, own.sizes a, block-set a p ws m.blocks inside);
      }
