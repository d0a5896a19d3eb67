-- ===== src/Slice/Order.antt =====
-- `compare`, `operator==` and `starts_with` of common/slice.h against plain descriptions: the
-- lexicographic order, equality of the bytes, and the prefix relation.
use Prim.Native.Nat.{compare as compare_bytes, Ordering}
use c_plus_plus_examples.Base.{
  ◌≤◌, ◌≡◌, refl, ◌↔◌, true, false, [], ◌∷◌, ◌++◌, arith, length, drop, length-append,
}
use c_plus_plus_examples.Slice.{
  Slice, memcmp, is_zero, starts_with, equals, compare, by_smallest_key,
}

-- The lexicographic order on byte strings, a proper prefix first.
unfoldable pub lex : Slice → Slice → Ordering
lex [] [] = Ordering.eq
lex [] (y ∷ b) = Ordering.lt
lex (x ∷ a) [] = Ordering.gt
lex (x ∷ a) (y ∷ b) =
    let rest = lex a b in
    elim (compare_bytes x y) [
      | Ordering.eq ↦ rest
      | Ordering.lt ↦ Ordering.lt
      | Ordering.gt ↦ Ordering.gt
    ]

-- `Slice::compare` is the lexicographic order of the bytes.
pub compare-lex : (a b : Slice) → compare a b ≡ lex a b
unfolding compare lex memcmp
compare-lex [] [] = refl
compare-lex [] (y ∷ b) = ground arith
compare-lex (x ∷ a) [] = ground arith
compare-lex (x ∷ a) (y ∷ b) = ground (arith, compare-lex a b)

memcmp-drop :
    (s x : Slice)
    → length x ≤ length s
    → is_zero (memcmp s x (length x)) ≡ true
    → s ≡ x ++ drop (length x) s
unfolding memcmp
memcmp-drop s [] h e = refl
memcmp-drop [] (y ∷ x) h e = absurd (omega arith)
memcmp-drop (b ∷ s) (y ∷ x) h e = ground (arith, memcmp-drop s x)

memcmp-append : (x rest : Slice) → memcmp (x ++ rest) x (length x) ≡ Ordering.eq
unfolding memcmp
memcmp-append [] rest = refl
memcmp-append (y ∷ x) rest = ground (arith, memcmp-append x rest)

lex-eq : (a b : Slice) → lex a b ≡ Ordering.eq → a ≡ b
unfolding lex
lex-eq [] [] e = refl
lex-eq [] (y ∷ b) e = cc
lex-eq (x ∷ a) [] e = cc
lex-eq (x ∷ a) (y ∷ b) e = ground (arith, lex-eq a b)

lex_refl : (a : Slice) → lex a a ≡ Ordering.eq
unfolding lex
lex_refl [] = refl
lex_refl (x ∷ a) = ground (arith, lex_refl a)

lex_trans : (a b c : Slice) → lex a b ≡ Ordering.lt → lex b c ≡ Ordering.lt → lex a c ≡ Ordering.lt
unfolding lex
lex_trans [] [] c p q = cc
lex_trans [] (y ∷ b) [] p q = cc
lex_trans [] (y ∷ b) (z ∷ c) p q = refl
lex_trans (x ∷ a) [] c p q = cc
lex_trans (x ∷ a) (y ∷ b) [] p q = cc
lex_trans (x ∷ a) (y ∷ b) (z ∷ c) p q = ground (arith, lex_trans a b c)

lex-gt : (a b : Slice) → lex a b ≡ Ordering.gt → lex b a ≡ Ordering.lt
unfolding lex
lex-gt [] [] e = cc
lex-gt [] (y ∷ b) e = cc
lex-gt (x ∷ a) [] e = refl
lex-gt (x ∷ a) (y ∷ b) e = ground (arith, lex-gt a b)

-- `starts_with` holds exactly when the slice is `x` followed by something.
starts_with_iff : (s x : Slice) → (starts_with s x ≡ true) ↔ ((rest : Slice) × (s ≡ x ++ rest))
unfolding starts_with
starts_with_iff s x = (
  λ h. (drop (length x) s, memcmp-drop s x (ground arith) (ground arith)),
  λ (rest, e). ground (arith, memcmp-append x rest, length-append x rest),
)

equals-eq : (a b : Slice) → equals a b ≡ true → a ≡ b
unfolding equals memcmp
equals-eq [] [] h = refl
equals-eq [] (y ∷ b) h = ground arith
equals-eq (x ∷ a) [] h = ground arith
equals-eq (x ∷ a) (y ∷ b) h = ground (arith, equals-eq a b)

equals_refl : (a : Slice) → equals a a ≡ true
unfolding equals memcmp
equals_refl [] = refl
equals_refl (x ∷ a) = ground (arith, equals_refl a)

-- `operator==` holds exactly when the slices have the same bytes, and so does `compare` return 0.
equals_iff :
    (a b : Slice) → ((equals a b ≡ true) ↔ (a ≡ b)) × ((compare a b ≡ Ordering.eq) ↔ (a ≡ b))
equals_iff a b = (
  (λ h. equals-eq a b h, λ e. rw e (equals_refl b)),
  (λ h. lex-eq a b (rw compare-lex at h), λ e. rw (e, compare-lex) (lex_refl b)),
)

-- `BySmallestKey` orders slices strictly: no slice stands before itself, of two slices at most one
-- stands before the other, and the order is transitive; slices that it does not tell apart are equal.
by_smallest_key_strict :
    (a b c : Slice)
    → (by_smallest_key a a ≡ false)
      × (by_smallest_key a b ≡ true → by_smallest_key b c ≡ true → by_smallest_key a c ≡ true)
      × (by_smallest_key a b ≡ false → by_smallest_key b a ≡ false → a ≡ b)
unfolding by_smallest_key
by_smallest_key_strict a b c = ground (
  arith,
  compare-lex a a,
  compare-lex a b,
  compare-lex b a,
  compare-lex b c,
  compare-lex a c,
  lex_refl a,
  lex_trans a b c,
  lex-gt a b,
  lex-eq a b,
)
