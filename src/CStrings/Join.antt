-- ===== src/CStrings/Join.antt =====
-- my_strdup and str_join of strings.c.
use syseng.Base.{
  length-append, subst, ℕ, ◌+◌, ◌%◌, ◌^◌, ◌<◌, ◌≡◌, ◌≢◌, refl, ◌∙◌, true, some, List, ◌++◌, length,
  arith,
}
use syseng.Base.CInt.{add, int_of_size, int_of_size_lem, size_of_int}
use syseng.Base.Int.{pos, ◌+ℤ◌}
use syseng.CStrings.{Heap, byte, size_of, my_strdup, str_join}
use syseng.CStrings.Bytes.{malloc_lem, Text, Text-size, Text-frame, my_strlen_lem}
use syseng.CStrings.Copy.{my_strcpy_lem, Text-append}

-- A new block of the right size that holds a string, beside the blocks that were there.
pub record IsFresh (h : Heap) (cs : List ℕ) (d : ℕ) (h' : Heap) : Type 0 where
  pub text : Text h' d 0 cs
  pub exact : size_of d h' ≡ length cs + 1
  pub fresh : size_of d h ≡ 0
  pub other : (b k : ℕ) → b ≢ d → byte b k h' ≡ byte b k h

-- A block with a string is not one that malloc gives.
elsewhere : (h : Heap) (b k d : ℕ) (cs : List ℕ) → Text h b k cs → size_of d h ≡ 0 → b ≢ d
elsewhere h b k d cs t gone e = ground (arith, Text-size h b k cs t, gone, e)

dup_size : (n : ℕ) → n + 1 < 2 ^ 31 → add 31 (int_of_size n) (pos 1) ≡ some (pos (n + 1))
unfolding add ◌+ℤ◌
dup_size n small = rw (int_of_size_lem n (omega arith)) (ground arith)

-- A string with fewer than 2^31 - 1 bytes is copied into a new block of just its size, if there is
-- memory, and no other block changes.
my_strdup_lem :
    (h : Heap) (b s : ℕ) (cs : List ℕ)
    → Text h b s cs
    → length cs + 1 < 2 ^ 31
    → (d : ℕ) × (h' : Heap) × (my_strdup true b s h ≡ some (d, h')) × IsFresh h cs d h'
unfolding my_strdup size_of_int
my_strdup_lem h b s cs t small =
    let (d, h1, got, size, fresh, bytes, sizes) = malloc_lem (length cs + 1) h in
    let apart = elsewhere h b s d cs t fresh in
    let kept = Text-frame h h1 b s cs (λ j lo hi. bytes b j apart) t in
    let (h', runs, copy) = my_strcpy_lem h1 d 0 b s cs kept apart (omega (arith, size)) in
    (
      d,
      h',
      rw (my_strlen_lem h b s cs t, dup_size (length cs) small, got, runs) refl,
      record {
        text = copy.text;
        exact = copy.sizes d ∙ size;
        fresh = fresh;
        other = λ b' k ne. copy.other b' k ne ∙ bytes b' k ne;
      },
    )

join_size : (m n : ℕ) → m + n + 1 < 2 ^ 31 → int_of_size ((m + n + 1) % 2 ^ 64) ≡ pos (m + n + 1)
join_size m n small =
    let whole : (m + n + 1) % 2 ^ 64 ≡ m + n + 1 = omega arith in
    rw whole (int_of_size_lem (m + n + 1) small)

-- Two strings, which may be one, with together fewer than 2^31 - 1 bytes are joined in a new block
-- of just their size, if there is memory: it holds the two in a row, and no other block changes.
pub str_join_lem :
    (h : Heap) (a p b q : ℕ) (cs ds : List ℕ)
    → Text h a p cs
    → Text h b q ds
    → length cs + length ds + 1 < 2 ^ 31
    → (d : ℕ) × (h' : Heap) × (str_join true a p b q h ≡ some (d, h')) × IsFresh h (cs ++ ds) d h'
unfolding str_join size_of_int
str_join_lem h a p b q cs ds t u small =
    let (d, h1, got, size, fresh, bytes, sizes) = malloc_lem (length cs + length ds + 1) h in
    let apart_a = elsewhere h a p d cs t fresh in
    let apart_b = elsewhere h b q d ds u fresh in
    let t1 = Text-frame h h1 a p cs (λ j lo hi. bytes a j apart_a) t in
    let u1 = Text-frame h h1 b q ds (λ j lo hi. bytes b j apart_b) u in
    let (h2, first, copy) = my_strcpy_lem h1 d 0 a p cs t1 apart_a (omega (arith, size)) in
    let t2 = Text-frame h1 h2 a p cs (λ j lo hi. copy.other a j apart_a) t1 in
    let u2 = Text-frame h1 h2 b q ds (λ j lo hi. copy.other b j apart_b) u1 in
    let (h3, second, copy') =
      my_strcpy_lem h2 d (length cs) b q ds u2 apart_b (omega (arith, size, copy.sizes d)) in
    (
      d,
      h3,
      rw
          (
            my_strlen_lem h a p cs t,
            my_strlen_lem h b q ds u,
            join_size (length cs) (length ds) small,
            got,
            first,
            my_strlen_lem h2 a p cs t2,
            second,
          )
          refl,
      record {
        text =
            Text-append h2 h3 d 0 cs ds copy.text (λ j lt. copy'.before j (omega arith))
              (subst (λ p. Text h3 d p ds) (omega arith) copy'.text);
        exact = omega (arith, copy'.sizes d, copy.sizes d, size, length-append cs ds);
        fresh = fresh;
        other = λ b' k ne. copy'.other b' k ne ∙ (copy.other b' k ne ∙ bytes b' k ne);
      },
    )
