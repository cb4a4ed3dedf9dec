-- ===== src/Buffer.antt =====
-- 02-modern-cpp/exercises/ex3-move-semantics/buffer.hpp: Buffer, a byte array with copies and
-- moves that are counted, over the heap of Memory. The counters are `int`: an increment past
-- 2^31 - 1 is undefined behaviour, `none` here.
pub mod Copy
pub mod Outcomes
pub mod Safety
pub mod Values
mod Tests
use syseng.Base.{
  ℕ, zero, suc, ◌+◌, ◌^◌, ◌≡◌, Option, none, some, List, [], ◌∷◌, replicate, ◌>>=◌, ◌>>◌, ltb,
  if◌then◌else◌,
}
use syseng.Memory.{
  Obj, owning, nullptr, Mem, obj_of, put_obj, new_obj, end_obj, new_address, new_array,
  delete_array, load, store,
}

pub record State : Type 0 where
  pub mem : Mem ℕ
  pub s_copies_ : ℕ
  pub s_moves_ : ℕ

abbrev pub start : State
start = record { mem = record { objs = []; blocks = [] }; s_copies_ = 0; s_moves_ = 0 }

abbrev pub increment : ℕ → Option ℕ
increment c = if ltb (c + 1) (2 ^ 31) then some (c + 1) else none

abbrev pub count_copy : State → Option State
count_copy s = do c ← increment s.s_copies_; some (record s { s_copies_ = c })

abbrev pub count_move : State → Option State
count_move s = do c ← increment s.s_moves_; some (record s { s_moves_ = c })

-- Buffer(size_t size)
unfoldable construct : ℕ → State → State
construct n s = record s {
  mem = new_obj (owning (new_address s.mem) n) (new_array (replicate n 0) s.mem);
}

-- The loop `while (num++ < other.size_) { *ptr = *ptr2; ptr++; ptr2++; }`, by the rounds left;
-- `k` is how far the two pointers have moved.
unfoldable copy_loop : ℕ → ℕ → ℕ → ℕ → Mem ℕ → Option (Mem ℕ)
copy_loop zero k p q m = some m
copy_loop (suc n) k p q m = do v ← load q k m; m' ← store p k v m; copy_loop n (suc k) p q m'

-- Buffer(const Buffer& other): the new object takes the next slot.
unfoldable copy_construct : ℕ → State → Option State
copy_construct j s = do
  other ← obj_of j s.mem
  let p = new_address s.mem
  let m = new_obj (owning p other.size_) (new_array (replicate other.size_ 0) s.mem)
  m' ← copy_loop other.size_ 0 p other.data_ m
  count_copy (record s { mem = m' })

-- operator=(const Buffer& other). `other` is read again after the fields of `this` are set.
unfoldable copy_assign : ℕ → ℕ → State → Option State
copy_assign i j s = do
  this ← obj_of i s.mem
  m ← delete_array this.data_ s.mem
  other ← obj_of j m
  let p = new_address m
  let m' = put_obj i (owning p other.size_) (new_array (replicate other.size_ 0) m)
  other' ← obj_of j m'
  m'' ← copy_loop other'.size_ 0 p other'.data_ m'
  count_copy (record s { mem = m'' })

-- Buffer(Buffer&& other): the new object takes the next slot.
unfoldable move_construct : ℕ → State → Option State
move_construct j s = do
  other ← obj_of j s.mem
  count_move (record s {
    mem = put_obj j (owning nullptr 0) (new_obj (owning other.data_ other.size_) s.mem);
  })

-- operator=(Buffer&& other)
unfoldable move_assign : ℕ → ℕ → State → Option State
move_assign i j s = do
  this ← obj_of i s.mem
  m ← delete_array this.data_ s.mem
  other ← obj_of j m
  count_move (record s {
    mem = put_obj j (owning nullptr 0) (put_obj i (owning other.data_ other.size_) m);
  })

-- ~Buffer(), after which the slot's lifetime is over.
unfoldable destroy : ℕ → State → Option State
destroy i s = do
  this ← obj_of i s.mem
  m ← delete_array this.data_ s.mem
  some (record s { mem = end_obj i m })

unfoldable size : ℕ → State → Option ℕ
size i s = do this ← obj_of i s.mem; some this.size_

unfoldable buffer_data : ℕ → State → Option ℕ
buffer_data i s = do this ← obj_of i s.mem; some this.data_

-- operator[], read and written through.
unfoldable at : ℕ → ℕ → State → Option ℕ
at i k s = do this ← obj_of i s.mem; load this.data_ k s.mem

unfoldable put : ℕ → ℕ → ℕ → State → Option State
put i k v s = do this ← obj_of i s.mem; m ← store this.data_ k v s.mem; some (record s { mem = m })

unfoldable reset_counters : State → State
reset_counters s = record s { s_copies_ = 0; s_moves_ = 0 }

unfoldable copy_count : State → ℕ
copy_count s = s.s_copies_

unfoldable move_count : State → ℕ
move_count s = s.s_moves_

-- The constructor that make_buffer's arguments select.
pub data Args : Type 0 where
  of_size : ℕ → Args
  lvalue : ℕ → Args
  rvalue : ℕ → Args

unfoldable make_buffer : Args → State → Option State
make_buffer (of_size n) s = some (construct n s)
make_buffer (lvalue j) s = copy_construct j s
make_buffer (rvalue j) s = move_construct j s

-- What a program does with its buffers.
pub data Op : Type 0 where
  make : Args → Op
  copy_to : ℕ → ℕ → Op
  move_to : ℕ → ℕ → Op
  write : ℕ → ℕ → ℕ → Op
  end_scope : ℕ → Op
  reset : Op

unfoldable step : Op → State → Option State
step (make a) s = make_buffer a s
step (copy_to i j) s = copy_assign i j s
step (move_to i j) s = move_assign i j s
step (write i k v) s = put i k v s
step (end_scope i) s = destroy i s
step reset s = some (reset_counters s)

unfoldable run : List Op → State → Option State
run [] s = some s
run (o ∷ ops) s = do t ← step o s; run ops t
