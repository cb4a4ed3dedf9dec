-- ===== src/Primitives/Symbols/Lookup.antt =====
-- symbol_id finds exactly the names of the table.
use syseng.Base.{
  ℕ, zero, suc, ◌+◌, ◌≡◌, ◌≢◌, ◌↔◌, refl, Bool, true, false, not, ◌&&◌, some, List, [], ◌∷◌, arith,
  All, get_elem?, Bool-cases, inl, inr, sym, subst,
}
use syseng.Base.Int.{pos, minus_one}
use syseng.Primitives.Symbols.{Symbol, symbol_table, same_text, find_symbol, symbol_id}

-- No byte of a C string before its end is 0.
abbrev pub IsText : List ℕ → Type 0
IsText s = All (λ c. c ≢ 0) s

-- On C strings the character loop decides equality.
same_text-eq : (t s : List ℕ) → IsText t → IsText s → same_text t s ≡ true → t ≡ s
unfolding same_text
same_text-eq [] [] ht hs e = refl
same_text-eq [] (c ∷ s) ht hs e = absurd (hs.0 (ground arith))
same_text-eq (x ∷ t) [] ht hs e = absurd (ht.0 (ground arith))
same_text-eq (x ∷ t) (c ∷ s) ht hs e = ground (arith, same_text-eq t s ht.1 hs.1)

same_text_refl : (s : List ℕ) → IsText s → same_text s s ≡ true
unfolding same_text
same_text_refl [] h = refl
same_text_refl (c ∷ s) h = ground (arith, same_text_refl s h.1)

-- The entries from `k` on have the identifiers k, k + 1, … and names that are texts.
abbrev Indexed : ℕ → List Symbol → Type 0
Indexed k [] = Unit
Indexed k (s ∷ table) = (s.id ≡ k) × IsText s.name × Indexed (suc k) table

find_sound :
    (k : ℕ) (table : List Symbol) (name : List ℕ) (i : ℕ)
    → Indexed k table
    → IsText name
    → find_symbol table name ≡ pos i
    → (j : ℕ) × (i ≡ k + j) × (get_elem? table j ≡ some (record { name = name; id = i }))
unfolding find_symbol
find_sound k [] name i ix text e = absurd (cc)
find_sound k (s ∷ table) name i (id, t, ix) text e = elim (Bool-cases (same_text s.name name)) [
  | inl hit ↦
      let same = same_text-eq s.name name t text hit in
      let found : s.id ≡ i = ground arith in (0, omega arith, ground arith)
  | inr miss ↦
      let (j, at, there) = find_sound (suc k) table name i ix text (ground arith) in
      (suc j, omega arith, there)
]

fresh : Symbol → List Symbol → Bool
fresh s [] = true
fresh s (u ∷ table) = not (same_text s.name u.name) && fresh s table

distinct : List Symbol → Bool
distinct [] = true
distinct (s ∷ table) = fresh s table && distinct table

fresh-get :
    (s u : Symbol) (table : List Symbol) (j : ℕ)
    → fresh s table ≡ true
    → get_elem? table j ≡ some u
    → same_text s.name u.name ≡ false
unfolding fresh
fresh-get s u [] j f h = absurd (cc)
fresh-get s u (w ∷ table) zero f h = ground arith
fresh-get s u (w ∷ table) (suc j) f h = ground (arith, fresh-get s u table j)

find_complete :
    (table : List Symbol) (j : ℕ) (u : Symbol)
    → distinct table ≡ true
    → IsText u.name
    → get_elem? table j ≡ some u
    → find_symbol table u.name ≡ pos u.id
unfolding find_symbol distinct
find_complete [] j u d text h = absurd (cc)
find_complete (s ∷ table) zero u d text h = ground (arith, same_text_refl u.name text)
find_complete (s ∷ table) (suc j) u d text h =
    ground (arith, fresh-get s u table j, find_complete table j u)

find-missing :
    (table : List Symbol) (name : List ℕ)
    → All (λ s. IsText s.name) table
    → IsText name
    → (find_symbol table name ≡ minus_one) ↔ All (λ s. s.name ≢ name) table
unfolding find_symbol
find-missing [] name ts text = (λ e. tt, λ a. refl)
find-missing (s ∷ table) name (t, ts) text = elim (Bool-cases (same_text s.name name)) [
  | inl hit ↦ (λ e. ground arith, λ (ne, _). absurd (ne (same_text-eq s.name name t text hit)))
  | inr miss ↦
      let (to, from) = find-missing table name ts text in
      (
        λ e. (
          λ same.
              ground
                (arith, subst (λ x. same_text x name ≡ true) (sym same) (same_text_refl name text)),
          to (ground arith),
        ),
        λ (_, rest). ground (arith, from rest),
      )
]

table-Indexed : Indexed 0 symbol_table
table-Indexed = omega arith

table-IsText : All (λ s. IsText s.name) symbol_table
table-IsText = omega arith

table_distinct : distinct symbol_table ≡ true
unfolding distinct fresh same_text
table_distinct = refl

-- A C string is given the identifier i exactly when it is the name of the i-th entry, which then
-- has this identifier.
pub symbol_id-eq-pos_iff :
    (name : List ℕ) (i : ℕ)
    → IsText name
    → (symbol_id name ≡ pos i) ↔ (get_elem? symbol_table i ≡ some (record { name = name; id = i }))
unfolding symbol_id
symbol_id-eq-pos_iff name i text = (
  λ e.
      let (j, at, there) = find_sound 0 symbol_table name i table-Indexed text e in
      let same : j ≡ i = omega arith in
      subst (λ k. get_elem? symbol_table k ≡ some (record { name = name; id = i })) same there,
  λ there. find_complete symbol_table i (record { name = name; id = i }) table_distinct text there,
)

-- A C string is answered by -1 exactly when no entry of the table has this name.
symbol_id-eq-minus_one_iff :
    (name : List ℕ)
    → IsText name
    → (symbol_id name ≡ minus_one) ↔ All (λ s. s.name ≢ name) symbol_table
unfolding symbol_id
symbol_id-eq-minus_one_iff name text = find-missing symbol_table name table-IsText text
