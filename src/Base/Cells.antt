-- ===== src/Base/Cells.antt =====
-- Numbered cells of a heap: address 0 is null, and a cell may be empty.
use Prim.Native.Nat.{ℕ, zero, suc, ◌+◌, ◌≤◌, ◌<◌}
use mathlib.Core.Path.{◌≡◌, refl}
use mathlib.Core.List.{List, [], ◌∷◌, ◌++◌}
use mathlib.Core.Option.{Option, none, some}
use native.Mathlib.Omega.{arith}
use syseng.Base.Tests.{◌==◌, if◌then◌else◌}
use syseng.Base.Fallible.{◌>>=◌}
use syseng.Base.Lists.{
  length, length-append, get_elem?, set, get_elem?-append_lt, get_elem?-append_end, get_elem?-ge,
  get_elem?-set_self, get_elem?-set_ne, length-set,
}

module _ {A : Type 0} where
  abbrev pub cell : ℕ → List (Option A) → Option A
  cell zero h = none
  cell (suc a) h = get_elem? h a >>= λ o. o

  abbrev pub put_cell : ℕ → Option A → List (Option A) → List (Option A)
  put_cell zero o h = h
  put_cell (suc a) o h = set h a o

  abbrev pub count_full : List (Option A) → ℕ
  count_full [] = 0
  count_full (none ∷ h) = count_full h
  count_full (some v ∷ h) = suc (count_full h)

  pub cell-append :
      (a : ℕ) (v : A) (h : List (Option A))
      → cell a (h ++ some v ∷ []) ≡ (if a == suc (length h) then some v else cell a h)
  cell-append zero v h = ground arith
  cell-append (suc a) v h = ground (
    arith,
    get_elem?-append_lt h (some v ∷ []) a,
    get_elem?-append_end h (some v) a,
    get_elem?-ge (h ++ some v ∷ []) a,
    get_elem?-ge h a,
    length-append h (some v ∷ []),
  )

  pub cell-lt : (p : ℕ) (h : List (Option A)) {v : A} → cell (suc p) h ≡ some v → p < length h
  cell-lt p [] e = absurd (cc)
  cell-lt zero (o ∷ h) e = omega arith
  cell-lt (suc p) (o ∷ h) e = omega (arith, cell-lt p h e)

  pub cell-put_cell :
      (a p : ℕ) (o : Option A) (h : List (Option A)) {v : A}
      → cell p h ≡ some v
      → cell a (put_cell p o h) ≡ (if a == p then o else cell a h)
  cell-put_cell a zero o h e = absurd (cc)
  cell-put_cell zero (suc p) o h e = ground arith
  cell-put_cell (suc a) (suc p) o h e =
      ground (arith, cell-lt p h e, get_elem?-set_ne h {i = p} {j = a} o, get_elem?-set_self h p o)

  pub count_full-append :
      (h : List (Option A)) (v : A) → count_full (h ++ some v ∷ []) ≡ suc (count_full h)
  count_full-append [] v = refl
  count_full-append (none ∷ h) v = count_full-append h v
  count_full-append (some w ∷ h) v = omega (arith, count_full-append h v)

  pub count_full-set :
      (h : List (Option A)) (p : ℕ) (o : Option A) {v : A}
      → get_elem? h p ≡ some (some v)
      → count_full (set h p o) + 1 ≡ count_full h + count_full (o ∷ [])
  count_full-set [] p o e = absurd (cc)
  count_full-set (none ∷ h) zero o e = absurd (cc)
  count_full-set (some w ∷ h) zero none e = omega arith
  count_full-set (some w ∷ h) zero (some u) e = omega arith
  count_full-set (none ∷ h) (suc p) o e = count_full-set h p o e
  count_full-set (some w ∷ h) (suc p) o e = omega (arith, count_full-set h p o e)

  pub count_full-put_cell :
      (h : List (Option A)) (p : ℕ) (o : Option A) {v : A}
      → cell p h ≡ some v
      → count_full (put_cell p o h) + 1 ≡ count_full h + count_full (o ∷ [])
  count_full-put_cell h zero o e = absurd (cc)
  count_full-put_cell h (suc p) o {v = v} e = count_full-set h p o {v = v} (ground arith)

  pub length-put_cell :
      (h : List (Option A)) (p : ℕ) (o : Option A) → length (put_cell p o h) ≡ length h
  length-put_cell h zero o = refl
  length-put_cell h (suc p) o = length-set h p o

  pub count_full-le-length : (h : List (Option A)) → count_full h ≤ length h
  count_full-le-length [] = omega arith
  count_full-le-length (none ∷ h) = omega (arith, count_full-le-length h)
  count_full-le-length (some v ∷ h) = omega (arith, count_full-le-length h)
