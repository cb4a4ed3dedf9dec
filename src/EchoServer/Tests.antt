-- ===== src/EchoServer/Tests.antt =====
-- Runs of an EchoServer in concrete schedules.
use syseng.Base.{ℕ, ◌+◌, ◌≤◌, ◌<◌, ◌==◌, ◌≡◌, refl, false, if◌then◌else◌, arith, []}
use syseng.Base.Int.{pos}
use syseng.EchoServer.{
  Server, run_once, construct, destroy, stop, connections_accepted, bytes_echoed,
}
use syseng.EchoServer.Threads.{
  turn, advance, returned, Config, start, Reach, here, moved, signalled, leave, enter, serve, Turn,
  running, stopping, after,
}
use syseng.EchoServer.Returns.{run_returns}
use syseng.EchoServer.Safety.{returned_after_stop}

abbrev server : Server
server = construct 9000

-- stop() is called in the turn 4.
unfoldable schedule : ℕ → Turn
schedule n = if n == 4 then stopping else running

schedule_end : (n : ℕ) → schedule (n + 5) ≡ running
unfolding schedule
schedule_end n = let other : (n + 5 == 4) ≡ false = ground arith in rw other refl

rounds_4 : (after schedule (start server) 4).rounds ≡ 2
unfolding after construct schedule turn advance run_once
rounds_4 = refl

run_returns_example :
    (n : ℕ) × ((d : ℕ)
      → ((after schedule (start server) (d + n)).pc ≡ returned)
        × ((after schedule (start server) (d + n)).rounds
            ≤ (after schedule (start server) 4).rounds + 1))
unfolding schedule
run_returns_example =
    run_returns schedule server 4 (λ n. n + 5) refl (λ n. omega arith) schedule_end

-- run() tests the flag, serves a round, and returns after stop().
abbrev last : Config
last = record { pc = returned; server = stop (construct 9000); rounds = 1 }

last-Reach : Reach (construct 9000) 1 last
unfolding construct stop run_once
last-Reach = moved (signalled (moved (moved here (enter refl refl)) (serve refl))) (leave refl refl)

returned_after_stop_example :
    (0 < 1)
    × (stop (construct 9000) ≡ stop (construct 9000))
    × (destroy (stop (construct 9000)) ≡ [])
    × (connections_accepted (stop (construct 9000)) ≡ pos 0)
    × (bytes_echoed (stop (construct 9000)) ≡ pos 0)
returned_after_stop_example = returned_after_stop 9000 1 last last-Reach refl
