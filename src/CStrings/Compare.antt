-- ===== src/CStrings/Compare.antt =====
-- my_strcmp of strings.c.
use syseng.Base.{
  ℕ, zero, suc, ◌<◌, ◌≡◌, ◌↔◌, refl, Bool, true, false, some, List, [], ◌∷◌, length, ltb,
  if◌then◌else◌, ◌==◌, arith, Bool-cases, inl, inr,
}
use syseng.Base.Int.{ℤ, pos, ◌-ℤ◌, ltb_ℤ}
use syseng.CStrings.{Heap, size_of, strcmp_loop, my_strcmp}
use syseng.CStrings.Bytes.{Text, Text-size}

-- The lexicographic order.
abbrev pub less : List ℕ → List ℕ → Bool
less [] [] = false
less [] (d ∷ ds) = true
less (c ∷ cs) [] = false
less (c ∷ cs) (d ∷ ds) = let rest = less cs ds in if c == d then rest else ltb c d

-- The sign of a number tells the order of two lists.
abbrev pub Compares : ℤ → List ℕ → List ℕ → Type 0
Compares v cs ds =
    ((v ≡ pos 0) ↔ (cs ≡ ds)) × (ltb_ℤ v (pos 0) ≡ less cs ds) × (ltb_ℤ (pos 0) v ≡ less ds cs)

Compares-cons :
    (v : ℤ) (c d : ℕ) (cs ds : List ℕ) → c ≡ d → Compares v cs ds → Compares v (c ∷ cs) (d ∷ ds)
Compares-cons v c d cs ds e h =
    ((λ z. let rest = h.0.0 z in cc, λ z. h.0.1 (cc)), ground (arith, h.1), ground (arith, h.2))

strcmp_loop_lem :
    (h : Heap) (a p b q : ℕ) (cs ds : List ℕ) (rounds : ℕ)
    → Text h a p cs
    → Text h b q ds
    → length cs < rounds
    → (v : ℤ) × (strcmp_loop rounds a p b q h ≡ some v) × Compares v cs ds
unfolding strcmp_loop ◌-ℤ◌
strcmp_loop_lem h a p b q cs ds zero t u enough = absurd (omega arith)
strcmp_loop_lem h a p b q [] [] (suc rounds) t u enough =
    (pos 0, rw (t, u) refl, ((λ z. refl, λ z. refl), refl, refl))
strcmp_loop_lem h a p b q [] (d ∷ ds) (suc rounds) t u enough = (
  pos 0 -ℤ pos d,
  ground (arith, t, u.0, u.1),
  (
    (λ z. absurd (ground (arith, z, u.1)), λ z. absurd (cc)),
    ground (arith, u.1),
    ground (arith, u.1),
  ),
)
strcmp_loop_lem h a p b q (c ∷ cs) [] (suc rounds) t u enough = (
  pos c -ℤ pos 0,
  ground (arith, t.0, t.1, u),
  (
    (λ z. absurd (ground (arith, z, t.1)), λ z. absurd (cc)),
    ground (arith, t.1),
    ground (arith, t.1),
  ),
)
strcmp_loop_lem h a p b q (c ∷ cs) (d ∷ ds) (suc rounds) t u enough =
    let (v, runs, rest) =
      strcmp_loop_lem h a (suc p) b (suc q) cs ds rounds t.2 u.2 (omega arith) in
    elim (Bool-cases (c == d)) [
      | inl same ↦ (
        v,
        ground (arith, t.0, t.1, u.0, same, runs),
        Compares-cons v c d cs ds (ground arith) rest,
      )
      | inr apart ↦ (
        pos c -ℤ pos d,
        ground (arith, t.0, u.0, apart),
        (
          (
            λ z. absurd (ground (arith, z, apart)),
            λ z. let e : c ≡ d = cc in absurd (ground (arith, e, apart)),
          ),
          ground (arith, apart),
          ground (arith, apart),
        ),
      )
    ]

-- my_strcmp of two strings is defined; it is 0 exactly if they are equal, negative exactly if the
-- first comes first in the lexicographic order of the bytes, and positive exactly if it comes last.
pub my_strcmp_lem :
    (h : Heap) (a p b q : ℕ) (cs ds : List ℕ)
    → Text h a p cs
    → Text h b q ds
    → (v : ℤ) × (my_strcmp a p b q h ≡ some v)
      × ((v ≡ pos 0) ↔ (cs ≡ ds))
      × (ltb_ℤ v (pos 0) ≡ less cs ds)
      × (ltb_ℤ (pos 0) v ≡ less ds cs)
unfolding my_strcmp
my_strcmp_lem h a p b q cs ds t u =
    let (v, runs, c) =
      strcmp_loop_lem h a p b q cs ds (suc (size_of a h)) t u
        (omega (arith, Text-size h a p cs t)) in
    (v, runs, c.0, c.1, c.2)
