-- ===== src/CStrings/Copy.antt =====
-- my_strcpy and my_strcat of strings.c.
use syseng.Base.{
  ◌∙◌, subst, ℕ, zero, suc, ◌+◌, ◌^◌, ◌<◌, ◌≡◌, ◌≢◌, refl, false, some, List, [], ◌∷◌, ◌++◌, length,
  ◌==◌, arith,
}
use syseng.Base.CInt.{int_of_size_lem}
use syseng.CStrings.{Heap, byte, size_of, strcpy_loop, my_strcpy, forward, my_strcat}
use syseng.CStrings.Bytes.{put_lem, Text, Text-size, Text-frame, my_strlen_lem}

-- A copy of a string: the bytes from a place on, and nothing else changed.
pub record IsCopy (h : Heap) (d dst : ℕ) (cs : List ℕ) (h' : Heap) : Type 0 where
  pub text : Text h' d dst cs
  pub sizes : (b : ℕ) → size_of b h' ≡ size_of b h
  pub other : (b k : ℕ) → b ≢ d → byte b k h' ≡ byte b k h
  pub before : (k : ℕ) → k < dst → byte d k h' ≡ byte d k h

strcpy_loop_lem :
    (h : Heap) (d dst b src : ℕ) (cs : List ℕ) (rounds : ℕ)
    → Text h b src cs
    → length cs < rounds
    → b ≢ d
    → dst + length cs < size_of d h
    → (h' : Heap) × (strcpy_loop rounds d dst b src h ≡ some h') × IsCopy h d dst cs h'
unfolding strcpy_loop
strcpy_loop_lem h d dst b src cs zero t enough apart room = absurd (omega arith)
strcpy_loop_lem h d dst b src [] (suc rounds) t enough apart room =
    let (h', runs, bytes, sizes) = put_lem d dst 0 h (omega arith) in
    (
      h',
      rw (t, runs) refl,
      record {
        text = ground (arith, bytes d dst);
        sizes = sizes;
        other = λ b' k ne. ground (arith, bytes b' k);
        before = λ k lt. ground (arith, bytes d k);
      },
    )
strcpy_loop_lem h d dst b src (c ∷ cs) (suc rounds) t enough apart room =
    let (h1, runs, bytes, sizes) = put_lem d dst c h (omega arith) in
    let rest_text = Text-frame h h1 b (suc src) cs (λ j lo hi. ground (arith, bytes b j)) t.2 in
    let (h', more, copy) =
      strcpy_loop_lem h1 d (suc dst) b (suc src) cs rounds rest_text (omega arith) apart
        (omega (arith, sizes d)) in
    let full : (c == 0) ≡ false = ground (arith, t.1) in
    (
      h',
      rw (t.0, full, runs) more,
      record {
        text = (ground (arith, copy.before dst, bytes d dst), t.1, copy.text);
        sizes = λ b'. copy.sizes b' ∙ sizes b';
        other = λ b' k ne. ground (arith, copy.other b' k ne, bytes b' k);
        before = λ k lt. ground (arith, copy.before k, bytes d k);
      },
    )

pub my_strcpy_lem :
    (h : Heap) (d dst b src : ℕ) (cs : List ℕ)
    → Text h b src cs
    → b ≢ d
    → dst + length cs < size_of d h
    → (h' : Heap) × (my_strcpy d dst b src h ≡ some h') × IsCopy h d dst cs h'
unfolding my_strcpy
my_strcpy_lem h d dst b src cs t apart room =
    strcpy_loop_lem h d dst b src cs (suc (size_of b h)) t (omega (arith, Text-size h b src cs t))
      apart room

-- A text followed by another one in the place of its terminating 0.
pub Text-append :
    (h h' : Heap) (b k : ℕ) (cs ds : List ℕ)
    → Text h b k cs
    → ((j : ℕ) → j < k + length cs → byte b j h' ≡ byte b j h)
    → Text h' b (k + length cs) ds
    → Text h' b k (cs ++ ds)
Text-append h h' b k [] ds t same u =
    let here : k + 0 ≡ k = omega arith in subst (λ p. Text h' b p ds) here u
Text-append h h' b k (c ∷ cs) ds t same u =
    let next : k + suc (length cs) ≡ suc k + length cs = omega arith in
    (
      same k (omega arith) ∙ t.0,
      t.1,
      Text-append h h' b (suc k) cs ds t.2 (λ j lt. same j (omega arith))
          (subst (λ p. Text h' b p ds) next u),
    )

-- Onto a string with fewer than 2^31 bytes, my_strcat puts a string of another block if the target
-- has room for both and the terminating 0: the target is the two strings in a row, and the other
-- blocks and what stands before the target stay.
my_strcat_lem :
    (h : Heap) (d dst b src : ℕ) (cs ds : List ℕ)
    → Text h d dst cs
    → Text h b src ds
    → b ≢ d
    → length cs < 2 ^ 31
    → dst + (length cs + length ds) < size_of d h
    → (h' : Heap) × (my_strcat d dst b src h ≡ some h')
      × Text h' d dst (cs ++ ds)
      × ((b' k : ℕ) → b' ≢ d → byte b' k h' ≡ byte b' k h)
      × ((k : ℕ) → k < dst → byte d k h' ≡ byte d k h)
unfolding my_strcat forward
my_strcat_lem h d dst b src cs ds t u apart small room =
    let (h', runs, copy) = my_strcpy_lem h d (dst + length cs) b src ds u apart (omega arith) in
    (
      h',
      rw (my_strlen_lem h d dst cs t, int_of_size_lem (length cs) small) runs,
      Text-append h h' d dst cs ds t copy.before copy.text,
      copy.other,
      λ k lt. copy.before k (omega arith),
    )
