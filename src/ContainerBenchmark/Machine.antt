-- ===== src/ContainerBenchmark/Machine.antt =====
-- The `int` and `long long` arithmetic of bench_containers.cpp, and its timed sections. A result out
-- of range is undefined behaviour, `none`.
use syseng.Base.{ℕ, zero, suc, ◌/◌, Option, none, some, ◌>>=◌}
use syseng.Base.CInt.{exact}
use syseng.Base.Int.{ℤ, pos, negsuc, ◌-ℤ◌, ◌*ℤ◌}

abbrev negative : ℕ → ℤ
negative zero = pos 0
negative (suc n) = negsuc n

-- `a / b` on `int`, which truncates.
unfoldable pub int_div : ℤ → ℤ → Option ℤ
int_div a (pos zero) = none
int_div (pos a) (pos (suc b)) = some (pos (a / suc b))
int_div (pos a) (negsuc b) = some (negative (a / suc b))
int_div (negsuc a) (pos (suc b)) = some (negative (suc a / suc b))
int_div (negsuc a) (negsuc b) = exact 31 (pos (suc a / suc b))

unfoldable pub long_mul : ℤ → ℤ → Option ℤ
long_mul a b = exact 63 (a *ℤ b)

-- What steady_clock reads at the start and at the end of a timed section, in nanoseconds.
pub record Clock : Type 0 where
  pub begin : ℤ
  pub finish : ℤ

unfoldable pub elapsed : Clock → Option ℤ
elapsed c = exact 63 (c.finish -ℤ c.begin)

-- A timed section: the nanoseconds returned, and the value that do_not_optimize() is given.
unfoldable pub timed {ℓ} : {A : Type ℓ} → Clock → Option A → Option (ℤ × A)
timed c work = do v ← work; ns ← elapsed c; some (ns, v)
