-- ===== src/ContainerBenchmark/StdMap.antt =====
-- std::map of bench_containers.cpp and the laws of the maps' interface.
use mathlib.Core.List.{Permᴰ}
use mathlib.Core.List.Permᴰ
use syseng.Base.{◌≡◌, refl, none, some, List, [], ◌∷◌, if◌then◌else◌, arith, inl, inr, Bool-cases}
use syseng.Base.Int.{ℤ, ltb_ℤ, eqb_ℤ}
use syseng.ContainerBenchmark.Containers.{MapLaws, assign, find_entry, std_map}

module _ {V : Type 0} where
  find_entry-assign :
      (k j : ℤ) (v : V) (c : List (ℤ × V))
      → find_entry j (assign k v c) ≡ (if eqb_ℤ k j then some v else find_entry j c)
  unfolding find_entry assign
  find_entry-assign k j v [] = refl
  find_entry-assign k j v ((i, w) ∷ c) = ground (arith, find_entry-assign k j v c)

  assign-Perm :
      (k : ℤ) (v : V) (c : List (ℤ × V)) → find_entry k c ≡ none → Permᴰ (assign k v c) ((k, v) ∷ c)
  unfolding find_entry assign
  assign-Perm k v [] h = Permᴰ.refl ((k, v) ∷ [])
  assign-Perm k v ((i, w) ∷ c) h = elim (Bool-cases (ltb_ℤ k i)) [
    | inl less ↦ rw less (Permᴰ.refl ((k, v) ∷ (i, w) ∷ c))
    | inr not_less ↦ elim (Bool-cases (eqb_ℤ k i)) [
      | inl e ↦ absurd (ground arith)
      | inr ne ↦
          let absent : find_entry k c ≡ none = ground arith in
          rw (not_less, ne)
            (Permᴰ.trans (Permᴰ.cons refl (assign-Perm k v c absent)) (Permᴰ.swap refl refl))
    ]
  ]

  pub std_map-MapLaws : MapLaws (std_map V)
  unfolding find_entry
  std_map-MapLaws = record {
    find-empty = λ k. refl;
    find-reserve = λ k n c. refl;
    find-insert = λ k j v c _. find_entry-assign k j v c;
    entries-empty = refl;
    entries-reserve = λ n c. Permᴰ.refl c;
    entries-insert = assign-Perm;
  }
