-- ===== src/CStrings/Reverse.antt =====
-- str_reverse and str_is_palindrome of strings.c.
use syseng.Base.{
  reverse, length-reverse, get_elem?-reverse, All-reverse, reverse_of_halves, ℕ, zero, suc, ◌+◌,
  ◌-◌, ◌*◌, ◌/◌, ◌≤◌, ◌<◌, ◌≡◌, ◌≢◌, ◌↔◌, refl, ap, Bool, true, false, ◌&&◌, some, List, length,
  get_elem?, leb, if◌then◌else◌, ◌==◌, arith, Bool-cases, inl, inr, swapped, get_elem?-some, ◌∙◌,
  ltb, subst,
}
use syseng.CStrings.{Heap, byte, put, reverse_loop, str_reverse, palindrome_loop, str_is_palindrome}
use syseng.CStrings.Bytes.{byte-lt, put_lem, Text, my_strlen_lem, Text-byte, Text-full, Text-of}

-- Bytes are there at all places up to len behind s.
abbrev Written : ℕ → ℕ → ℕ → Heap → Type 0
Written len b s h = (j : ℕ) → j < len → (c : ℕ) × (byte b (s + j) h ≡ some c)

-- The heap after some rounds of the loop.
record Turned (rounds i len b s : ℕ) (h h' : Heap) : Type 0 where
  inside :
      (j : ℕ)
      → byte b (s + j) h'
        ≡ (if swapped rounds i len j then byte b (s + (len - 1 - j)) h else byte b (s + j) h)
  other : (b' : ℕ) (k : ℕ) → ((b' == b) && leb s k) ≡ false → byte b' k h' ≡ byte b' k h

-- One round.
swap_lem :
    (i len b s : ℕ) (h : Heap)
    → i + (i + 1) < len
    → Written len b s h
    → (x : ℕ) × (y : ℕ) × (h1 : Heap) × (h2 : Heap) × (byte b (s + (len - 1 - i)) h ≡ some x)
      × (byte b (s + i) h ≡ some y)
      × (put b (s + (len - 1 - i)) y h ≡ some h1)
      × (put b (s + i) x h1 ≡ some h2)
      × Turned 1 i len b s h h2
swap_lem i len b s h half full =
    let (x, ex) = full (len - 1 - i) (omega arith) in
    let (y, ey) = full i (omega arith) in
    let (h1, runs1, bytes1, sizes1) =
      put_lem b (s + (len - 1 - i)) y h (byte-lt b (s + (len - 1 - i)) h ex) in
    let (h2, runs2, bytes2, sizes2) =
      put_lem b (s + i) x h1 (omega (arith, sizes1 b, byte-lt b (s + i) h ey)) in
    (
      x,
      y,
      h1,
      h2,
      ex,
      ey,
      runs1,
      runs2,
      record {
        inside = λ j. ground (arith, bytes2 b (s + j), bytes1 b (s + j), ex, ey);
        other = λ b' k no. ground (arith, bytes2 b' k, bytes1 b' k, no);
      },
    )

Written-Turned :
    (rounds i len b s : ℕ) (h h' : Heap)
    → Written len b s h
    → Turned rounds i len b s h h'
    → Written len b s h'
Written-Turned rounds i len b s h h' full t j lt = elim (Bool-cases (swapped rounds i len j)) [
  | inl moved ↦
      let (c, e) = full (len - 1 - j) (omega arith) in (c, ground (arith, t.inside j, moved, e))
  | inr kept ↦ let (c, e) = full j lt in (c, ground (arith, t.inside j, kept, e))
]

Turned-suc :
    (rounds i len b s : ℕ) (h h1 h2 : Heap)
    → (i + suc rounds) * 2 ≤ len
    → Turned 1 i len b s h h1
    → Turned rounds (suc i) len b s h1 h2
    → Turned (suc rounds) i len b s h h2
Turned-suc rounds i len b s h h1 h2 half t u = record {
  inside = λ j. ground (arith, u.inside j, t.inside j, t.inside (len - 1 - j));
  other = λ b' k no. u.other b' k no ∙ t.other b' k no;
}

reverse_loop_lem :
    (rounds i len b s : ℕ) (h : Heap)
    → (i + rounds) * 2 ≤ len
    → Written len b s h
    → (h' : Heap) × (reverse_loop rounds i len b s h ≡ some h') × Turned rounds i len b s h h'
unfolding reverse_loop
reverse_loop_lem zero i len b s h half full =
    (h, refl, record { inside = λ j. ground arith; other = λ b' k no. refl })
reverse_loop_lem (suc rounds) i len b s h half full =
    let (x, y, h1, h2, ex, ey, runs1, runs2, t) = swap_lem i len b s h (omega arith) full in
    let (h', runs, u) =
      reverse_loop_lem rounds (suc i) len b s h2 (omega arith)
        (Written-Turned 1 i len b s h h2 full t) in
    (h', rw (ex, ey, runs1, runs2) runs, Turned-suc rounds i len b s h h2 h' half t u)

Written-Text : (h : Heap) (b s : ℕ) (cs : List ℕ) → Text h b s cs → Written (length cs) b s h
Written-Text h b s cs t j lt =
    let (c, e) = get_elem?-some cs j lt in (c, ground (arith, Text-byte h b s cs j t, e))

-- The heap after the whole loop has the reversed text.
Text-Turned :
    (h h' : Heap) (b s : ℕ) (cs : List ℕ)
    → Text h b s cs
    → Turned (length cs / 2) 0 (length cs) b s h h'
    → Text h' b s (reverse cs)
Text-Turned h h' b s cs t turned =
    let n = length-reverse cs in
    Text-of h' b s (reverse cs) (All-reverse (λ c. c ≢ 0) cs (Text-full h b s cs t))
      (λ j lt. ground (
        arith,
        n,
        get_elem?-reverse cs j,
        turned.inside j,
        Text-byte h b s cs j t,
        Text-byte h b s cs (length cs - 1 - j) t,
      ))
      (ground (arith, n, turned.inside (length cs), Text-byte h b s cs (length cs) t))

str_reverse_runs :
    (h : Heap) (b s : ℕ) (cs : List ℕ)
    → Text h b s cs
    → (h' : Heap) × (str_reverse b s h ≡ some h') × Turned (length cs / 2) 0 (length cs) b s h h'
unfolding str_reverse
str_reverse_runs h b s cs t =
    let n = length cs in
    let (h', runs, turned) =
      reverse_loop_lem (n / 2) 0 n b s h (omega arith) (Written-Text h b s cs t) in
    (h', rw (my_strlen_lem h b s cs t) runs, turned)

palindrome_loop_lem :
    (rounds i len b s : ℕ) (h : Heap)
    → (i + rounds) * 2 ≤ len
    → Written len b s h
    → (answer : Bool) × (palindrome_loop rounds i len b s h ≡ some answer)
      × (answer ≡ true
          → (j : ℕ) → i ≤ j
          → j < i + rounds
          → byte b (s + j) h ≡ byte b (s + (len - 1 - j)) h)
      × (((j : ℕ) → i ≤ j → j < i + rounds → byte b (s + j) h ≡ byte b (s + (len - 1 - j)) h)
          → answer ≡ true)
unfolding palindrome_loop
palindrome_loop_lem zero i len b s h half full =
    (true, refl, (λ e j lo hi. absurd (omega arith)), λ all. refl)
palindrome_loop_lem (suc rounds) i len b s h half full =
    let (x, ex) = full i (omega arith) in
    let (y, ey) = full (len - 1 - i) (omega arith) in
    let (answer, runs, sound, complete) =
      palindrome_loop_lem rounds (suc i) len b s h (omega arith) full in
    elim (Bool-cases (x == y)) [
      | inl same ↦ (
        answer,
        rw (ex, ey, same) runs,
        (λ e j lo hi. ground (arith, sound e j, ex, ey, same)),
        λ all. complete (λ j lo hi. all j (omega arith) (omega arith)),
      )
      | inr apart ↦ (
        false,
        rw (ex, ey, apart) refl,
        (λ e j lo hi. absurd (cc)),
        λ all.
            let first = all i (omega arith) (omega arith) in
            absurd (ground (arith, first, ex, ey, apart)),
      )
    ]

is_palindrome_runs :
    (h : Heap) (b s : ℕ) (cs : List ℕ)
    → Text h b s cs
    → (answer : Bool) × (str_is_palindrome b s h ≡ some answer)
      × ((answer ≡ true) ↔ (reverse cs ≡ cs))
unfolding str_is_palindrome
is_palindrome_runs h b s cs t =
    let n = length cs in
    let (answer, runs, sound, complete) =
      palindrome_loop_lem (n / 2) 0 n b s h (omega arith) (Written-Text h b s cs t) in
    (
      answer,
      rw (my_strlen_lem h b s cs t) runs,
      (
        (λ e. reverse_of_halves cs (λ j lt.
            ground (
              arith,
              sound e j,
              Text-byte h b s cs j t,
              Text-byte h b s cs (length cs - 1 - j) t,
            ))),
        λ e. complete (λ j lo hi. ground (
          arith,
          Text-byte h b s cs j t,
          Text-byte h b s cs (length cs - 1 - j) t,
          get_elem?-reverse cs j,
          ap (λ (l : List ℕ). get_elem? l j) e,
        )),
      ),
    )

-- A byte outside the string is in another block, before the string, or at its terminating 0 or behind.
outside_same :
    (h h' : Heap) (b s len : ℕ)
    → Turned (len / 2) 0 len b s h h'
    → (b' k : ℕ) → ((b' == b) && (leb s k && ltb k (s + len))) ≡ false
    → byte b' k h' ≡ byte b' k h
outside_same h h' b s len turned b' k away = elim (Bool-cases ((b' == b) && leb s k)) [
  | inl behind ↦
      let place : s + (k - s) ≡ k = ground (arith, behind) in
      let block : b ≡ b' = ground (arith, behind) in
      let kept : byte b (s + (k - s)) h' ≡ byte b (s + (k - s)) h =
        ground (arith, turned.inside (k - s), behind, away) in
      subst (λ d. byte d k h' ≡ byte d k h) block (subst (λ q. byte b q h' ≡ byte b q h) place kept)
  | inr before ↦ turned.other b' k before
]

-- On a string str_reverse is defined and leaves the reversed string in its place, with every byte
-- outside the string as it was, the terminating 0 and those behind it included;
-- str_is_palindrome is defined, and answers 1 exactly if the string is its own reverse.
pub reverse-palindrome_lem :
    (h : Heap) (b s : ℕ) (cs : List ℕ)
    → Text h b s cs
    → (h' : Heap) × (answer : Bool) × (str_reverse b s h ≡ some h')
      × Text h' b s (reverse cs)
      × ((b' k : ℕ)
          → ((b' == b) && (leb s k && ltb k (s + length cs))) ≡ false
          → byte b' k h' ≡ byte b' k h)
      × (str_is_palindrome b s h ≡ some answer)
      × ((answer ≡ true) ↔ (reverse cs ≡ cs))
reverse-palindrome_lem h b s cs t =
    let (h', runs, turned) = str_reverse_runs h b s cs t in
    let (answer, tells, iff) = is_palindrome_runs h b s cs t in
    (
      h',
      answer,
      runs,
      Text-Turned h h' b s cs t turned,
      outside_same h h' b s (length cs) turned,
      tells,
      iff,
    )
