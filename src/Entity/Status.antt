-- ===== src/Entity/Status.antt =====
-- The status text and the places of the entities of structs.c.
use syseng.Base.{
  codes, ℕ, zero, suc, ◌+◌, ◌-◌, ◌^◌, ◌≤◌, ◌≡◌, ◌≢◌, refl, ap, true, Option, none, some, List, [],
  ◌∷◌, ◌++◌, take, >>=-eq-some, length, length-append, if◌then◌else◌, ◌>>=◌, ltb, arith, All,
}
use syseng.Base.CInt.{add, sub, in_range}
use syseng.Base.Int.{eqb_ℤ, ℤ, pos, pos_part, neg_part, ◌+ℤ◌, ◌-ℤ◌, +ℤ_parts}
use syseng.Entity.{
  Entity, strncpy, text_of, entity_init, entity_move, entity_distance, abs_int, entity_status,
}

text_of-strncpy :
    (name : List ℕ) (n : ℕ)
    → All (λ c. c ≢ 0) name
    → text_of (strncpy name n ++ 0 ∷ []) ≡ take n name
unfolding text_of strncpy
text_of-strncpy name zero full = refl
text_of-strncpy [] (suc n) full = refl
text_of-strncpy (c ∷ name) (suc n) full = ground (arith, text_of-strncpy name n full.1, full.0)

length-text_of : (bytes : List ℕ) → length (text_of (bytes ++ 0 ∷ [])) ≤ length bytes
unfolding text_of
length-text_of [] = omega arith
length-text_of (c ∷ bytes) = ground (arith, length-text_of bytes)

length-strncpy : (name : List ℕ) (n : ℕ) → length (strncpy name n) ≡ n
unfolding strncpy
length-strncpy name zero = refl
length-strncpy [] (suc n) = ap suc (length-strncpy [] n)
length-strncpy (c ∷ name) (suc n) = ap suc (length-strncpy name n)

-- How far two coordinates are apart.
abbrev pub gap : ℤ → ℤ → ℕ
gap a b =
    (pos_part a + neg_part b - (pos_part b + neg_part a))
    + (pos_part b + neg_part a - (pos_part a + neg_part b))

axis :
    (a b : ℤ)
    → (do d ← sub 31 a b; abs_int d)
      ≡ (if ltb (gap a b) (2 ^ 31) then some (pos (gap a b)) else none)
unfolding sub abs_int ◌-ℤ◌
axis a b = ground arith

abbrev InRange : Entity → Type 0
InRange e =
    (in_range 31 e.x ≡ true)
    × (in_range 31 e.y ≡ true)
    × (in_range 31 e.hp ≡ true)
    × (in_range 31 e.max_hp ≡ true)

abbrev mark_of : ℤ → List ℕ
mark_of alive = if eqb_ℤ alive (pos 0) then codes " [DEAD]" else codes " [ALIVE]"

length-mark : (alive : ℤ) → length (mark_of alive) ≤ 8
length-mark alive = ground arith

layout_size :
    (n x y h m k : List ℕ)
    → length n ≤ 63
    → length x ≤ 11
    → length y ≤ 11
    → length h ≤ 11
    → length m ≤ 11
    → length k ≤ 8
    → length (
          n
          ++ (codes " ("
              ++ (x ++ (codes "," ++ (y ++ (codes ") HP: " ++ (h ++ (codes "/" ++ (m ++ k)))))))))
        + 1
      ≤ 128
layout_size n x y h m k ln lx ly lh lm lk =
    let r1 = m ++ k in
    let r2 = h ++ (codes "/" ++ r1) in
    let r3 = y ++ (codes ") HP: " ++ r2) in
    let r4 = x ++ (codes "," ++ r3) in
    omega (
      arith,
      length-append n (codes " (" ++ r4),
      length-append x (codes "," ++ r3),
      length-append y (codes ") HP: " ++ r2),
      length-append h (codes "/" ++ r1),
      length-append m k,
    )

-- If `%d` writes at most 11 bytes for an int, the status of an entity with the name that
-- entity_init stored and with int fields takes at most 128 bytes with its terminating 0, and the
-- name in it, the text of that field, is the first 63 bytes of the one given.
pub status_size :
    (decimal : ℤ → List ℕ) (name : List ℕ) (e : Entity)
    → ((v : ℤ) → in_range 31 v ≡ true → length (decimal v) ≤ 11)
    → All (λ c. c ≢ 0) name
    → e.name ≡ (entity_init name e.x e.y e.max_hp).name
    → InRange e
    → (length (entity_status decimal e) + 1 ≤ 128) × (text_of e.name ≡ take 63 name)
unfolding entity_status entity_init
status_size decimal name e short full named fits =
    let text : text_of e.name ≡ take 63 name = rw named (text_of-strncpy name 63 full) in
    let name_length : length (text_of e.name) ≤ 63 =
      rw named (omega (arith, length-text_of (strncpy name 63), length-strncpy name 63)) in
    (
      layout_size (text_of e.name) (decimal e.x) (decimal e.y) (decimal e.hp) (decimal e.max_hp)
          (mark_of e.alive) name_length (short e.x fits.0) (short e.y fits.1) (short e.hp fits.2)
          (short e.max_hp fits.3) (length-mark e.alive),
      text,
    )

-- The two axes one after the other.
abbrev along : Option ℤ → Option ℤ → Option ℤ
along p q = do ax ← p; ay ← q; add 31 ax ay

axes :
    (p q : Option ℤ)
    → (do dx ← p; ax ← abs_int dx; dy ← q; ay ← abs_int dy; add 31 ax ay)
      ≡ along (p >>= abs_int) (q >>= abs_int)
axes none q = refl
axes (some dx) none = refl
axes (some dx) (some dy) = refl

abbrev within : ℕ → Option ℤ
within g = if ltb g (2 ^ 31) then some (pos g) else none

along-within : (g k : ℕ) → along (within g) (within k) ≡ within (g + k)
unfolding add ◌+ℤ◌
along-within g k = ground arith

gap_comm : (a b : ℤ) → gap a b ≡ gap b a
gap_comm a b = omega arith

distance_lem :
    (a b : Entity)
    → entity_distance a b ≡ (
        if ltb (gap a.x b.x + gap a.y b.y) (2 ^ 31)
        then some (pos (gap a.x b.x + gap a.y b.y))
        else none)
unfolding entity_distance
distance_lem a b =
    rw (axes (sub 31 a.x b.x) (sub 31 a.y b.y), axis a.x b.x, axis a.y b.y)
      (along-within (gap a.x b.x) (gap a.y b.y))

gap-add : (a b d : ℤ) → gap (a +ℤ d) (b +ℤ d) ≡ gap a b
gap-add a b d = omega (arith, +ℤ_parts a d, +ℤ_parts b d)

add_value : (a b c : ℤ) → add 31 a b ≡ some c → c ≡ a +ℤ b
unfolding add
add_value a b c e = ground arith

move_value :
    (dx dy : ℤ) (a a' : Entity)
    → entity_move dx dy a ≡ some a'
    → (a'.x ≡ a.x +ℤ dx) × (a'.y ≡ a.y +ℤ dy)
unfolding entity_move
move_value dx dy a a' e =
    let (x, ex, rest) =
      >>=-eq-some (add 31 a.x dx) (λ x. do y ← add 31 a.y dy; some (record a { x = x; y = y })) e in
    let (y, ey, last) = >>=-eq-some (add 31 a.y dy) (λ y. some (record a { x = x; y = y })) rest in
    (ground (arith, last, add_value a.x dx x ex), ground (arith, last, add_value a.y dy y ey))

-- Where both moves by one offset are defined, the distance stays; it is the sum of the gaps where
-- that is an int, and undefined otherwise, in either order of the two entities.
distance-move :
    (a b a' b' : Entity) (dx dy : ℤ)
    → entity_move dx dy a ≡ some a'
    → entity_move dx dy b ≡ some b'
    → (entity_distance a' b' ≡ entity_distance a b)
      × (entity_distance b a ≡ entity_distance a b)
      × (entity_distance a b ≡ (
          if ltb (gap a.x b.x + gap a.y b.y) (2 ^ 31)
          then some (pos (gap a.x b.x + gap a.y b.y))
          else none))
distance-move a b a' b' dx dy ma mb =
    let p = move_value dx dy a a' ma in
    let q = move_value dx dy b b' mb in
    (
      rw
          (
            distance_lem a' b',
            distance_lem a b,
            p.0,
            p.1,
            q.0,
            q.1,
            gap-add a.x b.x dx,
            gap-add a.y b.y dy,
          )
          refl,
      rw (distance_lem b a, distance_lem a b, gap_comm b.x a.x, gap_comm b.y a.y) refl,
      distance_lem a b,
    )
