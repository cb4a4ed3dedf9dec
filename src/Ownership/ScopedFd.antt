-- ===== src/Ownership/ScopedFd.antt =====
-- Part 1 of 02-modern-cpp/exercises/ex1-raii-ownership/ownership.hpp: ScopedFd.
-- Objects live in numbered slots, so that the two operands of an assignment may be one object. A
-- slot is `none` once its object's lifetime has ended, and using it then is a failure. The calls
-- of close() are logged in order.
pub mod Conserve
pub mod Effects
mod Tests
use syseng.Base.{
  ℕ, ◌+◌, ◌≡◌, Bool, not, Option, none, some, List, [], ◌∷◌, ◌++◌, get_elem?, set, length,
  if◌then◌else◌, ◌>>=◌, ◌>>◌,
}
use syseng.Base.Int.{ℤ, eqb_ℤ, minus_one}

pub record State : Type 0 where
  pub objs : List (Option ℤ)
  pub closed : List ℤ

abbrev pub start : State
start = record { objs = []; closed = [] }

-- The field fd_ of the object in a slot.
abbrev pub fd_of : ℕ → State → Option ℤ
fd_of i s = get_elem? s.objs i >>= λ o. o

abbrev pub set_fd : ℕ → ℤ → State → Option State
set_fd i f s = do fd_of i s; some (record s { objs = set s.objs i (some f) })

abbrev pub close : ℤ → State → State
close f s = record s { closed = f ∷ s.closed }

-- ScopedFd(int fd): the new object takes the next slot.
unfoldable construct : ℤ → State → State
construct f s = record s { objs = s.objs ++ some f ∷ [] }

unfoldable get : ℕ → State → Option ℤ
get i s = fd_of i s

abbrev pub is_valid : ℤ → Bool
is_valid f = not (eqb_ℤ f minus_one)

unfoldable valid : ℕ → State → Option Bool
valid i s = do f ← fd_of i s; some (is_valid f)

unfoldable release : ℕ → State → Option (ℤ × State)
unfolding valid
release i s = do
  v ← valid i s
  if v then (do ret ← fd_of i s; t ← set_fd i minus_one s; some (ret, t)) else some (minus_one, s)

-- ~ScopedFd(), after which the slot's lifetime is over.
unfoldable destroy : ℕ → State → Option State
unfolding valid release
destroy i s = do
  v ← valid i s
  t ← if v then (do (fd, u) ← release i s; some (close fd u)) else some s
  some (record t { objs = set t.objs i none })

-- ScopedFd(ScopedFd&& other): the new object takes the next slot.
unfoldable move_construct : ℕ → State → Option State
unfolding construct
move_construct j s = do f ← fd_of j s; set_fd j minus_one (construct f s)

-- operator=(ScopedFd&& other)
unfoldable move_assign : ℕ → ℕ → State → Option State
unfolding valid
move_assign i j s = do
  v ← valid i s
  mine ← fd_of i s
  let s' = if v then close mine s else s
  theirs ← fd_of j s'
  s'' ← set_fd i theirs s'
  set_fd j minus_one s''

-- What a program does with its wrappers.
pub data Op : Type 0 where
  acquire : ℤ → Op
  move_new : ℕ → Op
  move_to : ℕ → ℕ → Op
  give_up : ℕ → Op
  end_scope : ℕ → Op

-- The descriptors handed to the caller by release() go beside the state.
unfoldable step : Op → State → Option (List ℤ × State)
unfolding construct move_construct move_assign release destroy
step (acquire f) s = some ([], construct f s)
step (move_new j) s = do t ← move_construct j s; some ([], t)
step (move_to i j) s = do t ← move_assign i j s; some ([], t)
step (give_up i) s = do (f, t) ← release i s; some (f ∷ [], t)
step (end_scope i) s = do t ← destroy i s; some ([], t)

unfoldable run : List Op → State → Option (List ℤ × State)
run [] s = some ([], s)
run (o ∷ ops) s = do (out, t) ← step o s; (outs, u) ← run ops t; some (out ++ outs, u)
