-- ===== src/EchoServer.antt =====
-- 07-networking/exercises/ex1-epoll-server/server.hpp: EchoServer, and the loop of run() in one
-- thread while other threads call stop(). What the source leaves to be written has no effect here
-- either: run() opens no socket, and run_once() handles no event.
pub mod Threads
pub mod Returns
mod Safety
mod Tests
use syseng.Base.{ℕ, Bool, true, false, List, [], ◌∷◌, ◌++◌, if◌then◌else◌}
use syseng.Base.Int.{ℤ, pos, minus_one, leb_ℤ}

pub record Server : Type 0 where
  pub port_ : ℕ
  pub kq_ : ℤ
  pub listen_fd_ : ℤ
  pub stop_flag_ : Bool
  pub accepted_ : ℤ
  pub bytes_echoed_ : ℤ

unfoldable construct : ℕ → Server
construct port = record {
  port_ = port;
  kq_ = minus_one;
  listen_fd_ = minus_one;
  stop_flag_ = false;
  accepted_ = pos 0;
  bytes_echoed_ = pos 0;
}

-- The descriptors that the destructor closes, in order.
unfoldable destroy : Server → List ℤ
destroy s =
    (if leb_ℤ (pos 0) s.listen_fd_ then s.listen_fd_ ∷ [] else [])
    ++ (if leb_ℤ (pos 0) s.kq_ then s.kq_ ∷ [] else [])

-- The events handled, and the server after them.
unfoldable run_once : ℤ → Server → ℤ × Server
run_once timeout_ms s = (pos 0, s)

unfoldable stop : Server → Server
stop s = record s { stop_flag_ = true }

unfoldable connections_accepted : Server → ℤ
connections_accepted s = s.accepted_

unfoldable bytes_echoed : Server → ℤ
bytes_echoed s = s.bytes_echoed_

unfoldable set_nonblocking : ℤ → Server → Server
set_nonblocking fd s = s

unfoldable accept_client : Server → Server
accept_client s = s

unfoldable echo_client : ℤ → Server → Server
echo_client fd s = s
