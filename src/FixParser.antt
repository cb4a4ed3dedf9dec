-- ===== src/FixParser.antt =====
-- 07-networking/exercises/ex3-fix-framer/fix_parser.hpp. What the source leaves to be written has no
-- effect here either. A text is the list of its bytes.
use syseng.Base.{ℕ, List, []}
use syseng.Base.Int.{ℤ}

abbrev soh : ℕ
soh = 1

record FixField : Type 0 where
  tag : ℤ
  value : List ℕ

-- The callback changes a state of its owner.
record FixParser (Owner : Type 0) : Type 0 where
  cb_ : List ℕ → Owner → Owner
  buffer_ : List ℕ
  msgs_ : ℕ
  bytes_ : ℕ

module _ {Owner : Type 0} where
  unfoldable construct : (List ℕ → Owner → Owner) → FixParser Owner
  construct cb = record { cb_ = cb; buffer_ = []; msgs_ = 0; bytes_ = 0 }

  unfoldable feed : List ℕ → FixParser Owner → Owner → FixParser Owner × Owner
  feed bytes p owner = (p, owner)

  unfoldable reset : FixParser Owner → FixParser Owner
  reset p = p

  unfoldable messages_parsed : FixParser Owner → ℕ
  messages_parsed p = p.msgs_

  unfoldable bytes_consumed : FixParser Owner → ℕ
  bytes_consumed p = p.bytes_

unfoldable fix_checksum : List ℕ → ℕ
fix_checksum msg = 0

unfoldable parse_fields : List ℕ → List FixField
parse_fields raw_msg = []
