-- ===== src/SeqLock.antt =====
-- 05-concurrency/exercises/ex1-seqlock/seqlock.hpp: SeqLock<T>. write() and the protocol in read()
-- are placeholders in the source, and are so here.
use syseng.Base.{ℕ}

record SeqLock (T : Type 0) : Type 0 where
  seq_ : ℕ
  data_ : T

module _ {T : Type 0} where
  -- `data_{}` is the value of T that it is initialized with.
  unfoldable construct : T → SeqLock T
  construct initial = record { seq_ = 0; data_ = initial }

  unfoldable write : T → SeqLock T → SeqLock T
  write val s = s

  unfoldable read : SeqLock T → T
  read s = s.data_

  unfoldable seq : SeqLock T → ℕ
  seq s = s.seq_
