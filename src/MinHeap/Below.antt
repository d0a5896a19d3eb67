-- ===== src/MinHeap/Below.antt =====
-- The values below an index of a heap, level by level, and how they split at its children.
use c_plus_plus_examples.Base.{
  ℕ, zero, suc, ◌+◌, ◌*◌, ◌≤◌, ◌≡◌, refl, sym, ap, ◌∙◌, List, [], ◌∷◌, ◌++◌, length, take, drop,
  arith, take-append-drop,
}

-- The sum of `f` over a list; for the right `f` the length, or how often a value occurs.
abbrev pub sum : (ℕ → ℕ) → List ℕ → ℕ
sum f [] = 0
sum f (x ∷ l) = f x + sum f l

pub sum_append : (f : ℕ → ℕ) (l m : List ℕ) → sum f (l ++ m) ≡ sum f l + sum f m
sum_append f [] m = omega arith
sum_append f (x ∷ l) m = omega (arith, sum_append f l m)

pub take_nil : (k : ℕ) → take {A = ℕ} k [] ≡ []
take_nil zero = refl
take_nil (suc k) = refl

pub drop_nil : (k : ℕ) → drop {A = ℕ} k [] ≡ []
drop_nil zero = refl
drop_nil (suc k) = refl

sum-take :
    (f : ℕ → ℕ) (m k : ℕ) (l : List ℕ)
    → sum f (take (m + k) l) ≡ sum f (take m l) + sum f (take k (drop m l))
sum-take f zero k l = let same : zero + k ≡ k = omega arith in rw same (omega arith)
sum-take f (suc m) k [] = omega (arith, ap (sum f) (take_nil (suc m + k)), ap (sum f) (take_nil k))
sum-take f (suc m) k (x ∷ l) =
    let next : suc m + k ≡ suc (m + k) = omega arith in rw next (omega (arith, sum-take f m k l))

drop-drop : (m a : ℕ) (l : List ℕ) → drop m (drop a l) ≡ drop (a + m) l
drop-drop m zero l = ap (λ (t : ℕ). drop t l) (omega arith)
drop-drop m (suc a) [] = drop_nil m ∙ sym (drop_nil (suc a + m))
drop-drop m (suc a) (x ∷ l) =
    let next : suc a + m ≡ suc (a + m) = omega arith in rw next (drop-drop m a l)

drop_all : (a : ℕ) (l : List ℕ) → length l ≤ a → drop a l ≡ []
drop_all zero [] h = refl
drop_all zero (x ∷ l) h = absurd (omega arith)
drop_all (suc a) [] h = refl
drop_all (suc a) (x ∷ l) h = drop_all a l (omega arith)

module _ (data_ : List ℕ) where
  unfoldable pub part : ℕ → ℕ → List ℕ
  part a w = take w (drop a data_)

  -- The values at `w` indices from `a` on and below them, `height` levels.
  unfoldable pub below : ℕ → ℕ → ℕ → List ℕ
  unfolding part
  below zero a w = []
  below (suc height) a w = part a w ++ below height (2 * a + 1) (2 * w)

  module _ (f : ℕ → ℕ) where
    part_split : (a m k : ℕ) → sum f (part a (m + k)) ≡ sum f (part a m) + sum f (part (a + m) k)
    unfolding part
    part_split a m k = sum-take f m k (drop a data_) ∙ rw (drop-drop m a data_) refl

    below_split :
        (height a m k : ℕ)
        → sum f (below height a (m + k)) ≡ sum f (below height a m) + sum f (below height (a + m) k)
    unfolding below
    below_split zero a m k = omega arith
    below_split (suc height) a m k =
        let wide : 2 * (m + k) ≡ 2 * m + 2 * k = omega arith in
        let left : 2 * a + 1 + 2 * m ≡ 2 * (a + m) + 1 = omega arith in
        rw wide (
          omega (
            arith,
            sum_append f (part a (m + k)) (below height (2 * a + 1) (2 * m + 2 * k)),
            sum_append f (part a m) (below height (2 * a + 1) (2 * m)),
            sum_append f (part (a + m) k) (below height (2 * (a + m) + 1) (2 * k)),
            part_split a m k,
            below_split height (2 * a + 1) (2 * m) (2 * k),
            ap (λ (t : ℕ). sum f (below height t (2 * k))) left,
          ))

    pub below_outside : (height a w : ℕ) → length data_ ≤ a → sum f (below height a w) ≡ 0
    unfolding below part
    below_outside zero a w h = refl
    below_outside (suc height) a w h =
        rw (drop_all a data_ h, take_nil w) (below_outside height (2 * a + 1) (2 * w) (omega arith))

    -- As many levels as there are values are enough.
    below_height :
        (height a w : ℕ)
        → length data_ ≤ a + height
        → sum f (below (suc height) a w) ≡ sum f (below height a w)
    unfolding below
    below_height zero a w h = below_outside 1 a w (omega arith)
    below_height (suc height) a w h = omega (
      arith,
      sum_append f (part a w) (below (suc height) (2 * a + 1) (2 * w)),
      sum_append f (part a w) (below height (2 * a + 1) (2 * w)),
      below_height height (2 * a + 1) (2 * w) (omega arith),
    )

    -- The root and what is below its children.
    pub below-children :
        (i : ℕ)
        → let n = length data_ in
          sum f (below n i 1)
          ≡ sum f (take 1 (drop i data_))
            + (sum f (below n (2 * i + 1) 1) + sum f (below n (2 * i + 2) 1))
    unfolding below part
    below-children i =
        let n = length data_ in
        let right : 2 * i + 1 + 1 ≡ 2 * i + 2 = omega arith in
        omega (
          arith,
          below_height n i 1 (omega arith),
          sum_append f (part i 1) (below n (2 * i + 1) 2),
          below_split n (2 * i + 1) 1 1,
          ap (λ (t : ℕ). sum f (below n t 1)) right,
        )

    below_level :
        (height a : ℕ)
        → length data_ ≤ a + height
        → sum f (below height a (a + 1)) ≡ sum f (drop a data_)
    unfolding below part
    below_level zero a h = rw (drop_all a data_ (omega arith)) refl
    below_level (suc height) a h =
        let wide : 2 * (a + 1) ≡ 2 * a + 1 + 1 = omega arith in
        let behind : a + (a + 1) ≡ 2 * a + 1 = omega arith in
        rw wide (
          omega (
            arith,
            sum_append f (part a (a + 1)) (below height (2 * a + 1) (2 * a + 1 + 1)),
            below_level height (2 * a + 1) (omega arith),
            ap (sum f) (take-append-drop (a + 1) (drop a data_)),
            sum_append f (part a (a + 1)) (drop (a + 1) (drop a data_)),
            ap (sum f) (drop-drop (a + 1) a data_),
            ap (λ (t : ℕ). sum f (drop t data_)) behind,
          ))

    -- Below the root lies the whole heap.
    pub below-root : sum f (below (length data_) 0 1) ≡ sum f data_
    below-root = below_level (length data_) 0 (omega arith)
