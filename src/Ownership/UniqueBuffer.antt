-- ===== src/Ownership/UniqueBuffer.antt =====
-- Part 2 of 02-modern-cpp/exercises/ex1-raii-ownership/ownership.hpp: UniqueBuffer<T>, over the
-- heap of Memory. `new T[n]` leaves the elements of a plain T unset, so an element is an option and
-- reading an unset one is a failure.
pub mod Safety
pub mod Values
mod Tests
use syseng.Base.{ℕ, ◌≡◌, Option, none, some, List, [], ◌∷◌, replicate, ◌>>=◌, ◌>>◌}
use syseng.Memory.{
  Obj, owning, nullptr, Mem, obj_of, put_obj, new_obj, end_obj, new_address, new_array,
  delete_array, load, store,
}

module _ {T : Type 0} where
  abbrev pub start : Mem (Option T)
  start = record { objs = []; blocks = [] }

  -- UniqueBuffer(size_t n)
  unfoldable construct : ℕ → Mem (Option T) → Mem (Option T)
  construct n m = new_obj (owning (new_address m) n) (new_array (replicate n none) m)

  -- ~UniqueBuffer(), after which the slot's lifetime is over.
  unfoldable destroy : ℕ → Mem (Option T) → Option (Mem (Option T))
  destroy i m = do o ← obj_of i m; m' ← delete_array o.data_ m; some (end_obj i m')

  -- UniqueBuffer(UniqueBuffer&& other): the new object takes the next slot.
  unfoldable move_construct : ℕ → Mem (Option T) → Option (Mem (Option T))
  move_construct j m = do
    other ← obj_of j m
    some (put_obj j (owning nullptr 0) (new_obj (owning other.data_ other.size_) m))

  -- operator=(UniqueBuffer&& other)
  unfoldable move_assign : ℕ → ℕ → Mem (Option T) → Option (Mem (Option T))
  move_assign i j m = do
    this ← obj_of i m
    m' ← delete_array this.data_ m
    other ← obj_of j m'
    some (put_obj j (owning nullptr 0) (put_obj i (owning other.data_ other.size_) m'))

  unfoldable size : ℕ → Mem (Option T) → Option ℕ
  size i m = do this ← obj_of i m; some this.size_

  unfoldable buffer_data : ℕ → Mem (Option T) → Option ℕ
  buffer_data i m = do this ← obj_of i m; some this.data_

  -- operator[], read and written through.
  unfoldable at : ℕ → ℕ → Mem (Option T) → Option T
  at i k m = do this ← obj_of i m; v ← load this.data_ k m; v

  unfoldable put : ℕ → ℕ → T → Mem (Option T) → Option (Mem (Option T))
  put i k v m = do this ← obj_of i m; store this.data_ k (some v) m

-- What a program does with its buffers.
pub data Op (T : Type 0) : Type 0 where
  make : ℕ → Op T
  move_new : ℕ → Op T
  move_to : ℕ → ℕ → Op T
  write : ℕ → ℕ → T → Op T
  end_scope : ℕ → Op T

module _ {T : Type 0} where
  unfoldable step : Op T → Mem (Option T) → Option (Mem (Option T))
  step (make n) m = some (construct n m)
  step (move_new j) m = move_construct j m
  step (move_to i j) m = move_assign i j m
  step (write i k v) m = put i k v m
  step (end_scope i) m = destroy i m

  unfoldable run : List (Op T) → Mem (Option T) → Option (Mem (Option T))
  run [] m = some m
  run (o ∷ ops) m = do m' ← step o m; run ops m'
