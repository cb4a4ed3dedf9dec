-- ===== src/EchoServer/Threads.antt =====
-- The threads of an EchoServer: one is in run(), any other may call stop(). An atomic access or a
-- call of run_once() is one step, and the steps of the threads interleave in any order.
use syseng.Base.{ℕ, zero, suc, ◌≡◌, true, false, if◌then◌else◌}
use syseng.Base.Int.{ℤ, pos}
use syseng.EchoServer.{Server, run_once, stop}

-- Where run() stands: before the load of the flag, before the call in the loop's body, returned.
pub data Pc : Type 0 where
  test : Pc
  body : Pc
  returned : Pc

pub record Config : Type 0 where
  pub pc : Pc
  pub server : Server
  -- How often run_once() has been called.
  pub rounds : ℕ

-- The call run() on a server.
abbrev pub start : Server → Config
start s = record { pc = test; server = s; rounds = 0 }

-- The default argument of run_once().
abbrev timeout : ℤ
timeout = pos 100

-- A step of the thread in run().
pub data Step (c : Config) : Config → Type 0 where
  leave : c.pc ≡ test → c.server.stop_flag_ ≡ true → Step c (record c { pc = returned })
  enter : c.pc ≡ test → c.server.stop_flag_ ≡ false → Step c (record c { pc = body })
  serve :
      c.pc ≡ body
      → Step c (record { pc = test; server = (run_once timeout c.server).1; rounds = suc c.rounds })

-- Whose turn it is.
pub data Turn : Type 0 where
  running : Turn
  stopping : Turn

unfoldable pub advance : Pc → Config → Config
advance test c = if c.server.stop_flag_ then record c { pc = returned } else record c { pc = body }
advance body c = record { pc = test; server = (run_once timeout c.server).1; rounds = suc c.rounds }
advance returned c = c

unfoldable pub turn : Turn → Config → Config
turn running c = advance c.pc c
turn stopping c = record c { server = stop c.server }

-- The threads after n turns of a schedule.
unfoldable pub after : (ℕ → Turn) → Config → ℕ → Config
after schedule c zero = c
after schedule c (suc n) = turn (schedule n) (after schedule c n)

-- The configurations that a server reaches in run(), with the number of calls of stop().
pub data Reach (s : Server) : ℕ → Config → Type 0 where
  here : Reach s 0 (start s)
  moved : {n : ℕ} {c d : Config} → Reach s n c → Step c d → Reach s n d
  signalled :
      {n : ℕ} {c : Config} → Reach s n c → Reach s (suc n) (record c { server = stop c.server })
