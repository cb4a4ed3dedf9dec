-- ===== src/Multicast.antt =====
-- 07-networking/exercises/ex2-udp-multicast/multicast.hpp: the message, the sender, the receiver and
-- the price table. What the source leaves to be written has no effect here either.
mod Sender
mod Receiver
mod PriceTable
use syseng.Base.{ℕ}
use syseng.Base.Int.{ℤ}

record QuoteMsg : Type 0 where
  symbol_id : ℕ
  price : ℤ
  bid_qty : ℤ
  ask_qty : ℤ
  seq_no : ℕ

abbrev multicast_port : ℕ
multicast_port = 9901
