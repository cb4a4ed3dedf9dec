-- ===== src/EchoServer/Returns.antt =====
-- When run() of an EchoServer returns.
use syseng.Base.{ℕ, zero, suc, ◌+◌, ◌-◌, ◌≤◌, ◌≡◌, refl, true, arith, ◌⊎◌, inl, inr, subst}
use syseng.EchoServer.{Server, run_once, stop}
use syseng.EchoServer.Threads.{
  Pc, test, body, returned, Config, start, Turn, running, stopping, advance, turn, after,
}

-- How many turns of run() are left once the flag is set, and whether one of them calls run_once().
abbrev rank : Pc → ℕ
rank test = 1
rank body = 2
rank returned = 0

abbrev pending : Pc → ℕ
pending test = 0
pending body = 1
pending returned = 0

-- What happens to a configuration with the flag set, of which d turns are left.
record Closes (c : Config) (d : Config) : Type 0 where
  flag : d.server.stop_flag_ ≡ true
  turns : rank d.pc ≤ rank c.pc
  rounds : d.rounds + pending d.pc ≤ c.rounds + pending c.pc

advance-Closes :
    (p : Pc) (c : Config)
    → c.pc ≡ p
    → c.server.stop_flag_ ≡ true
    → Closes c (advance p c) × (rank (advance p c).pc ≤ rank p - 1)
unfolding advance run_once
advance-Closes test c e f =
    rw f (record { flag = refl; turns = omega arith; rounds = rw e (omega arith) }, omega arith)
advance-Closes body c e f =
    (record { flag = f; turns = ground (arith, e); rounds = ground (arith, e) }, omega arith)
advance-Closes returned c e f =
    (record { flag = f; turns = omega arith; rounds = omega arith }, ground (arith, e))

turn-Closes : (t : Turn) (c : Config) → c.server.stop_flag_ ≡ true → Closes c (turn t c)
unfolding turn stop
turn-Closes running c f = (advance-Closes c.pc c refl f).0
turn-Closes stopping c f = record { flag = refl; turns = omega arith; rounds = omega arith }

Closes-trans : {a b c : Config} → Closes a b → Closes b c → Closes a c
Closes-trans x y = record {
  flag = y.flag;
  turns = ground (arith, x.turns, y.turns);
  rounds = ground (arith, x.rounds, y.rounds);
}

rank_le : (p : Pc) → rank p ≤ 2
rank_le test = omega arith
rank_le body = omega arith
rank_le returned = omega arith

rank-zero : (p : Pc) → rank p ≤ 0 → p ≡ returned
rank-zero test h = ground (arith, h)
rank-zero body h = ground (arith, h)
rank-zero returned h = refl

-- Two turns of run() after the flag is set.
Closes-returned :
    {a b c d : Config}
    → rank b.pc ≤ rank a.pc - 1
    → rank c.pc ≤ rank b.pc - 1
    → Closes a b
    → Closes b c
    → Closes c d
    → (d.pc ≡ returned) × (d.rounds ≤ a.rounds + pending a.pc)
Closes-returned {a} {d = d} x y u v w = (
  rank-zero d.pc (omega (arith, rank_le a.pc, x, y, w.turns)),
  omega (arith, u.rounds, v.rounds, w.rounds),
)

≤-cases : (a b : ℕ) → a ≤ suc b → (a ≡ suc b) ⊎ (a ≤ b)
≤-cases a b h = grind (arith, h)

-- The turns of a schedule, from one on at which the flag is set.
module _ (schedule : ℕ → Turn) (c : Config) where
  same-Closes :
      (a b : ℕ)
      → (after schedule c a).server.stop_flag_ ≡ true
      → a ≡ b
      → Closes (after schedule c a) (after schedule c b)
  same-Closes a b f e =
      subst (λ n. Closes (after schedule c a) (after schedule c n)) e
        (record { flag = f; turns = omega arith; rounds = omega arith })

  later-Closes :
      (a b : ℕ)
      → (after schedule c a).server.stop_flag_ ≡ true
      → a ≤ b
      → Closes (after schedule c a) (after schedule c b)
  unfolding after
  later-Closes a zero f le = same-Closes a zero f (omega (arith, le))
  later-Closes a (suc b) f le = elim (≤-cases a b le) [
    | inl e ↦ same-Closes a (suc b) f e
    | inr earlier ↦
        let before = later-Closes a b f earlier in
        Closes-trans before (turn-Closes (schedule b) (after schedule c b) before.flag)
  ]

  -- A turn of run() at b, after which one turn fewer is left.
  served-Closes :
      (a b : ℕ)
      → (after schedule c a).server.stop_flag_ ≡ true
      → a ≤ b
      → schedule b ≡ running
      → Closes (after schedule c a) (after schedule c (suc b))
        × (rank (after schedule c (suc b)).pc ≤ rank (after schedule c a).pc - 1)
  unfolding after turn
  served-Closes a b f le r =
      let before = later-Closes a b f le in
      let step = advance-Closes (after schedule c b).pc (after schedule c b) refl before.flag in
      rw r (Closes-trans before step.0, ground (arith, before.turns, step.1))

stop-flag : (c : Config) → (turn stopping c).server.stop_flag_ ≡ true
unfolding turn stop
stop-flag c = refl

pending_le : (p : Pc) → pending p ≤ 1
pending_le test = omega arith
pending_le body = omega arith
pending_le returned = omega arith

stop-rounds : (c : Config) → (turn stopping c).rounds + pending (turn stopping c).pc ≤ c.rounds + 1
unfolding turn stop
stop-rounds c = ground (arith, pending_le c.pc)

-- Where any number of threads call stop(), each at any time, and the thread in run() is given a
-- turn after every moment: once stop() has been called, run() returns, for good, and it calls
-- run_once() at most once more before it does.
pub run_returns :
    (schedule : ℕ → Turn) (s : Server) (k : ℕ) (nxt : ℕ → ℕ)
    → schedule k ≡ stopping
    → ((n : ℕ) → n ≤ nxt n)
    → ((n : ℕ) → schedule (nxt n) ≡ running)
    → (n : ℕ) × ((d : ℕ)
        → ((after schedule (start s) (d + n)).pc ≡ returned)
          × ((after schedule (start s) (d + n)).rounds ≤ (after schedule (start s) k).rounds + 1))
unfolding after
run_returns schedule s k nxt stops ahead fair =
    let b = nxt (suc k) in
    let e = nxt (suc b) in
    let set : (after schedule (start s) (suc k)).server.stop_flag_ ≡ true =
      rw stops (stop-flag (after schedule (start s) k)) in
    let first = served-Closes schedule (start s) (suc k) b set (ahead (suc k)) (fair (suc k)) in
    let second =
      served-Closes schedule (start s) (suc b) e first.0.flag (ahead (suc b)) (fair (suc b)) in
    (
      suc e,
      λ d.
          let last =
            later-Closes schedule (start s) (suc e) (d + suc e) second.0.flag (omega arith) in
          let rounds : (after schedule (start s) (suc k)).rounds
                + pending (after schedule (start s) (suc k)).pc
              ≤ (after schedule (start s) k).rounds + 1 =
            rw stops (stop-rounds (after schedule (start s) k)) in
          let closed = Closes-returned first.1 second.1 first.0 second.0 last in
          (closed.0, omega (arith, closed.1, rounds)),
    )
