-- ===== src/EchoServer/Safety.antt =====
-- What the interleaved steps of an EchoServer's threads do to it.
use syseng.Base.{
  ℕ, zero, suc, ◌<◌, ◌≡◌, refl, ap, sym, ◌∙◌, Bool, true, false, if◌then◌else◌, arith, ltb, subst,
  [], ◌⊎◌, inl, inr,
}
use syseng.Base.Int.{pos}
use syseng.EchoServer.{
  Server, construct, destroy, connections_accepted, bytes_echoed, run_once, stop,
}
use syseng.EchoServer.Threads.{
  test, body, returned, Config, start, Step, leave, enter, serve, Reach, here, moved, signalled,
  running, stopping, Turn, turn, after, advance, Pc,
}

-- The server, after n calls of stop().
abbrev signalled_server : ℕ → ℕ → Server
signalled_server port n = record (construct port) { stop_flag_ = ltb 0 n }

stop-signalled_server :
    (port n : ℕ) → stop (signalled_server port n) ≡ signalled_server port (suc n)
unfolding stop construct
stop-signalled_server port n = let set : ltb 0 (suc n) ≡ true = ground arith in rw set refl

signalled_server-flag : (port n : ℕ) → (signalled_server port n).stop_flag_ ≡ true → 0 < n
signalled_server-flag port n h = ground (arith, h)

signalled_server-stop : (port n : ℕ) → 0 < n → signalled_server port n ≡ stop (construct port)
unfolding construct stop
signalled_server-stop port n h = let set : ltb 0 n ≡ true = ground (arith, h) in rw set refl

record Reached (port n : ℕ) (c : Config) : Type 0 where
  server : c.server ≡ signalled_server port n
  left : c.pc ≡ returned → c.server.stop_flag_ ≡ true

Step-Reached : {port n : ℕ} {c d : Config} → Reached port n c → Step c d → Reached port n d
unfolding run_once
Step-Reached r (leave e f) = record { server = r.server; left = λ h. f }
Step-Reached r (enter e f) = record { server = r.server; left = λ h. ground (arith, h) }
Step-Reached r (serve e) = record { server = r.server; left = λ h. ground (arith, h) }

Reach-Reached : {port n : ℕ} {c : Config} → Reach (construct port) n c → Reached port n c
unfolding construct stop
Reach-Reached here = record { server = refl; left = λ h. ground (arith, h) }
Reach-Reached (moved r s) = Step-Reached (Reach-Reached r) s
Reach-Reached (signalled r) = record {
  server = ap stop (Reach-Reached r).server ∙ stop-signalled_server _ _;
  left = λ h. refl;
}

-- In whatever order the steps of run() on a new server and the calls of stop() interleave: if run()
-- has returned, then stop() was called. The server differs from the new one in its flag at most,
-- so that no connection is counted, and the destructor closes no descriptor.
pub returned_after_stop :
    (port n : ℕ) (c : Config)
    → Reach (construct port) n c
    → c.pc ≡ returned
    → (0 < n)
      × (c.server ≡ stop (construct port))
      × (destroy c.server ≡ [])
      × (connections_accepted c.server ≡ pos 0)
      × (bytes_echoed c.server ≡ pos 0)
unfolding destroy construct stop connections_accepted bytes_echoed
returned_after_stop port n c r e =
    let m = Reach-Reached r in
    let above : 0 < n =
      signalled_server-flag port n (ap (λ x. x.stop_flag_) (sym m.server) ∙ m.left e) in
    let same : c.server ≡ stop (construct port) = m.server ∙ signalled_server-stop port n above in
    (above, same, rw same refl, ap (λ x. x.accepted_) same, ap (λ x. x.bytes_echoed_) same)

-- The load of the flag, which is b.
test-Step :
    (b : Bool) (c : Config)
    → c.pc ≡ test
    → c.server.stop_flag_ ≡ b
    → Step c (if b then record c { pc = returned } else record c { pc = body })
test-Step true c e f = leave e f
test-Step false c e f = enter e f

advance-Step :
    (p : Pc) (c : Config)
    → c.pc ≡ p
    → Step c (advance p c) ⊎ ((c.pc ≡ returned) × (advance p c ≡ c))
unfolding advance
advance-Step test c e = inl (test-Step c.server.stop_flag_ c e refl)
advance-Step body c e = inl (serve e)
advance-Step returned c e = inr (e, refl)

turn-Reach : {s : Server} {n : ℕ} (c : Config) → Reach s n c → Reach s n (turn running c)
unfolding turn
turn-Reach {s} {n} c r = elim (advance-Step c.pc c refl) [
  | inl step ↦ moved r step
  | inr same ↦ subst (Reach s n) (sym same.1) r
]

unfoldable counted : Turn → ℕ → ℕ
counted running n = n
counted stopping n = suc n

after_turn-Reach :
    {s : Server} {n : ℕ} (t : Turn) (c : Config) → Reach s n c → Reach s (counted t n) (turn t c)
unfolding turn counted
after_turn-Reach running c r = turn-Reach c r
after_turn-Reach stopping c r = signalled r

-- How often stop() is called in the first n turns of a schedule.
unfoldable stops : (ℕ → Turn) → ℕ → ℕ
stops schedule zero = 0
stops schedule (suc n) = counted (schedule n) (stops schedule n)

after-Reach :
    (schedule : ℕ → Turn) (s : Server) (n : ℕ)
    → Reach s (stops schedule n) (after schedule (start s) n)
unfolding after stops
after-Reach schedule s zero = here
after-Reach schedule s (suc n) =
    after_turn-Reach (schedule n) (after schedule (start s) n) (after-Reach schedule s n)
