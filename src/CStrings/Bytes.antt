-- ===== src/CStrings/Bytes.antt =====
-- Reads and stores of the string functions of strings.c, and the strings that bytes stand for.
use syseng.Base.{
  get_elem?-ge, ◌∙◌, ℕ, zero, suc, ◌+◌, ◌≤◌, ◌<◌, ◌≡◌, ◌≢◌, refl, true, ◌&&◌, Option, none, some,
  List, [], ◌∷◌, ◌++◌, length, get_elem?, set, replicate, get_elem?-set, length-set, get_elem?-lt,
  get_elem?-append_lt, get_elem?-append_end, length-replicate, length-append, ltb, if◌then◌else◌,
  ◌==◌, arith, All, Option-cases, inl, inr,
}
use syseng.CStrings.{Heap, byte, put, size_of, malloc, strlen_loop, my_strlen}

pub byte-lt : (b k : ℕ) (h : Heap) {c : ℕ} → byte b k h ≡ some c → k < size_of b h
unfolding byte
byte-lt b k h e = elim (Option-cases (get_elem? h b)) [
  | inl n ↦ ground (arith, e, n)
  | inr (cs, f) ↦ elim (Option-cases (get_elem? cs k)) [
    | inl n ↦ ground (arith, e, f, n)
    | inr (c, g) ↦ rw f (get_elem?-lt cs k g)
  ]
]

pub put_lem :
    (b k c : ℕ) (h : Heap)
    → k < size_of b h
    → (h' : Heap) × (put b k c h ≡ some h')
      × ((b' k' : ℕ) → byte b' k' h' ≡ (if (b' == b) && (k' == k) then some c else byte b' k' h))
      × ((b' : ℕ) → size_of b' h' ≡ size_of b' h)
unfolding put byte
put_lem b k c h lt = elim (Option-cases (get_elem? h b)) [
  | inl n ↦ absurd (ground (arith, lt, n))
  | inr (cs, f) ↦ (
    set h b (set cs k (some c)),
    ground (arith, f, lt),
    λ b' k'. ground (
      arith,
      f,
      get_elem?-set h b (set cs k (some c)) b' (get_elem?-lt h b f),
      get_elem?-set cs k (some c) k',
    ),
    λ b'. ground (
      arith,
      f,
      get_elem?-set h b (set cs k (some c)) b' (get_elem?-lt h b f),
      length-set cs k (some c),
    ),
  )
]

-- malloc gives a block that is not there yet, and leaves the others.
pub malloc_lem :
    (n : ℕ) (h : Heap)
    → (b : ℕ) × (h' : Heap) × (malloc true n h ≡ some (b, h'))
      × (size_of b h' ≡ n)
      × (size_of b h ≡ 0)
      × ((b' k' : ℕ) → b' ≢ b → byte b' k' h' ≡ byte b' k' h)
      × ((b' : ℕ) → b' ≢ b → size_of b' h' ≡ size_of b' h)
unfolding malloc byte
malloc_lem n h =
    let unset : Option ℕ = none in
    let fresh = replicate n unset in
    (
      length h,
      h ++ fresh ∷ [],
      refl,
      ground (arith, get_elem?-append_end h fresh (length h), length-replicate n unset),
      ground (arith, get_elem?-ge h (length h)),
      λ b' k' ne. ground (
        arith,
        get_elem?-append_lt h (fresh ∷ []) b',
        get_elem?-ge h b',
        get_elem?-ge (h ++ fresh ∷ []) b',
        length-append h (fresh ∷ []),
      ),
      λ b' ne. ground (
        arith,
        get_elem?-append_lt h (fresh ∷ []) b',
        get_elem?-ge h b',
        get_elem?-ge (h ++ fresh ∷ []) b',
        length-append h (fresh ∷ []),
      ),
    )

-- The string from a place on: its bytes, none of them 0, and the terminating 0.
abbrev pub Text : Heap → ℕ → ℕ → List ℕ → Type 0
Text h b k [] = byte b k h ≡ some 0
Text h b k (c ∷ cs) = (byte b k h ≡ some c) × (c ≢ 0) × Text h b (suc k) cs

pub Text-size : (h : Heap) (b k : ℕ) (cs : List ℕ) → Text h b k cs → k + length cs < size_of b h
Text-size h b k [] t = omega (arith, byte-lt b k h t)
Text-size h b k (c ∷ cs) t = omega (arith, Text-size h b (suc k) cs t.2)

-- A text in a heap with the same bytes where it stands.
pub Text-frame :
    (h h' : Heap) (b k : ℕ) (cs : List ℕ)
    → ((j : ℕ) → k ≤ j → j ≤ k + length cs → byte b j h' ≡ byte b j h)
    → Text h b k cs
    → Text h' b k cs
Text-frame h h' b k [] same t = same k (omega arith) (omega arith) ∙ t
Text-frame h h' b k (c ∷ cs) same t = (
  same k (omega arith) (omega arith) ∙ t.0,
  t.1,
  Text-frame h h' b (suc k) cs (λ j lo hi. same j (omega arith) (omega arith)) t.2,
)

strlen_loop_lem :
    (h : Heap) (b k : ℕ) (cs : List ℕ) (rounds : ℕ)
    → Text h b k cs
    → length cs < rounds
    → strlen_loop rounds b k h ≡ some (k + length cs)
unfolding strlen_loop
strlen_loop_lem h b k cs zero t enough = absurd (omega arith)
strlen_loop_lem h b k [] (suc rounds) t enough = rw t (ground arith)
strlen_loop_lem h b k (c ∷ cs) (suc rounds) t enough =
    ground (arith, t.0, t.1, strlen_loop_lem h b (suc k) cs rounds t.2)

pub my_strlen_lem :
    (h : Heap) (b k : ℕ) (cs : List ℕ) → Text h b k cs → my_strlen b k h ≡ some (length cs)
unfolding my_strlen
my_strlen_lem h b k cs t =
    rw (strlen_loop_lem h b k cs (suc (size_of b h)) t (omega (arith, Text-size h b k cs t)))
      (ground arith)

-- The bytes of a text one by one.
pub Text-byte :
    (h : Heap) (b k : ℕ) (cs : List ℕ) (j : ℕ)
    → Text h b k cs
    → byte b (k + j) h ≡ (
        if j == length cs
        then some 0
        else if ltb j (length cs)
        then get_elem? cs j
        else byte b (k + j) h)
Text-byte h b k [] zero t = ground (arith, t)
Text-byte h b k [] (suc j) t = ground arith
Text-byte h b k (c ∷ cs) zero t = ground (arith, t.0)
Text-byte h b k (c ∷ cs) (suc j) t = ground (arith, Text-byte h b (suc k) cs j t.2)

pub Text-full : (h : Heap) (b k : ℕ) (cs : List ℕ) → Text h b k cs → All (λ c. c ≢ 0) cs
Text-full h b k [] t = tt
Text-full h b k (c ∷ cs) t = (t.1, Text-full h b (suc k) cs t.2)

pub Text-of :
    (h : Heap) (b k : ℕ) (cs : List ℕ)
    → All (λ c. c ≢ 0) cs
    → ((j : ℕ) → j < length cs → byte b (k + j) h ≡ get_elem? cs j)
    → byte b (k + length cs) h ≡ some 0
    → Text h b k cs
Text-of h b k [] full bytes ends = ground (arith, ends)
Text-of h b k (c ∷ cs) full bytes ends = (
  ground (arith, bytes 0),
  full.0,
  Text-of h b (suc k) cs full.1 (λ j lt. ground (arith, bytes (suc j))) (ground (arith, ends)),
)
