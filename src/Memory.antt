-- ===== src/Memory.antt =====
-- Heap arrays and the objects that own them, shared by UniqueBuffer (ownership.hpp) and Buffer
-- (02-modern-cpp/exercises/ex3-move-semantics/buffer.hpp). An object has a pointer `data_` and a
-- count `size_`; it stands in a numbered slot, so that the operands of an assignment may be one
-- object, and a slot is `none` after the object's lifetime. new[] gives the next address and always
-- succeeds; address 0 is nullptr. `none` as a result is undefined behaviour: a dead object, an
-- access outside an array, a second delete[] of one array.
pub mod Changes
pub mod Owned
use syseng.Base.{
  ℕ, zero, suc, ◌+◌, ◌-◌, ◌≡◌, refl, Option, none, some, List, [], ◌∷◌, ◌++◌, get_elem?, set,
  length, if◌then◌else◌, ◌==◌, ltb, ◌>>=◌, ◌>>◌,
}

pub record Obj : Type 0 where
  pub data_ : ℕ
  pub size_ : ℕ

abbrev pub nullptr : ℕ
nullptr = 0

abbrev pub owning : ℕ → ℕ → Obj
owning p n = record { data_ = p; size_ = n }

pub record Mem (V : Type 0) : Type 0 where
  pub objs : List (Option Obj)
  pub blocks : List (Option (List V))

module _ {V : Type 0} where
  abbrev pub obj_of : ℕ → Mem V → Option Obj
  obj_of i m = get_elem? m.objs i >>= λ o. o

  -- The array at an address; none at nullptr, and where delete[] has been.
  abbrev pub block : ℕ → List (Option (List V)) → Option (List V)
  block zero bs = none
  block (suc a) bs = get_elem? bs a >>= λ b. b

  abbrev pub put_obj : ℕ → Obj → Mem V → Mem V
  put_obj i o m = record m { objs = set m.objs i (some o) }

  abbrev pub new_obj : Obj → Mem V → Mem V
  new_obj o m = record m { objs = m.objs ++ some o ∷ [] }

  abbrev pub end_obj : ℕ → Mem V → Mem V
  end_obj i m = record m { objs = set m.objs i none }

  -- new T[n] with these contents.
  abbrev pub new_address : Mem V → ℕ
  new_address m = suc (length m.blocks)

  abbrev pub new_array : List V → Mem V → Mem V
  new_array vs m = record m { blocks = m.blocks ++ some vs ∷ [] }

  abbrev pub free_block : ℕ → List (Option (List V)) → List (Option (List V))
  free_block zero bs = bs
  free_block (suc a) bs = set bs a none

  -- The heap without the array at an address.
  abbrev pub freed : ℕ → Mem V → Mem V
  freed p m = record m { blocks = free_block p m.blocks }

  -- delete[] p: nothing at nullptr.
  unfoldable pub delete_array : ℕ → Mem V → Option (Mem V)
  delete_array zero m = some m
  delete_array (suc a) m = do block (suc a) m.blocks; some (freed (suc a) m)

  -- p[k], as a value and as the target of an assignment.
  unfoldable pub load : ℕ → ℕ → Mem V → Option V
  load p k m = do vs ← block p m.blocks; get_elem? vs k

  unfoldable pub store : ℕ → ℕ → V → Mem V → Option (Mem V)
  store zero k v m = none
  store (suc a) k v m = do
    vs ← block (suc a) m.blocks
    if ltb k (length vs)
        then some (record m { blocks = set m.blocks a (some (set vs k v)) })
        else none

live_slot :
    {W : Type 0} (slot : Option (Option Obj)) (f : Obj → Option W) {w : W}
    → ((slot >>= λ o. o) >>= f) ≡ some w
    → (o : Obj) × (slot ≡ some (some o)) × (f o ≡ some w)
live_slot none f h = absurd (cc)
live_slot (some none) f h = absurd (cc)
live_slot (some (some o)) f h = (o, refl, h)

-- A slot that can be read holds a live object.
pub live_obj :
    {V : Type 0} {W : Type 0} (i : ℕ) (m : Mem V) (f : Obj → Option W) {w : W}
    → (obj_of i m >>= f) ≡ some w
    → (o : Obj) × (get_elem? m.objs i ≡ some (some o)) × (f o ≡ some w)
live_obj i m f h = live_slot (get_elem? m.objs i) f h
