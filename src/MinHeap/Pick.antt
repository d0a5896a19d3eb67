-- ===== src/MinHeap/Pick.antt =====
-- What the loop of example-minheap-topk/min_heap.h picks.
use mathlib.Core.Option.{some-injective}
use c_plus_plus_examples.Base.{
  ℕ, zero, suc, ◌+◌, ◌*◌, ◌≤◌, ◌≡◌, refl, ap, ◌∙◌, true, false, none, some, List, [], ◌∷◌, ◌++◌,
  length, take, drop, get_elem?, arith, All, Bool-cases, inl, inr, Option-cases,
}
use c_plus_plus_examples.MinHeap.{Candidate, before, emplace, emplace_at, pick}
use c_plus_plus_examples.MinHeap.Below.{sum, sum_append, below, below-children, below_outside}
use c_plus_plus_examples.MinHeap.Order.{less, none_less, IsHeap, below-least}

-- Values in order, none greater than one of those that are left.
unfoldable pub Least : List ℕ → List ℕ → Type 0
Least [] left = Unit {0}
Least (v ∷ out) left = All (λ x. v ≤ x) out × All (λ x. v ≤ x) left × Least out left

-- The queue is in order.
unfoldable pub Sorted : List Candidate → Type 0
Sorted [] = Unit {0}
Sorted (c ∷ q) = All (λ (d : Candidate). c.val ≤ d.val) q × Sorted q

All-emplace :
    (P : Candidate → Type 0) (c : Candidate) (q : List Candidate)
    → P c
    → All P q
    → All P (emplace c q)
unfolding emplace
All-emplace P c [] h all = (h, tt)
All-emplace P c (d ∷ q) h all = elim (Bool-cases (before c d)) [
  | inl first ↦ rw first (h, all)
  | inr later ↦ rw later (all.0, All-emplace P c q h all.1)
]

All-mono :
    (P Q : Candidate → Type 0) (q : List Candidate)
    → ((c : Candidate) → P c → Q c)
    → All P q
    → All Q q
All-mono P Q [] f all = tt
All-mono P Q (c ∷ q) f all = (f c all.0, All-mono P Q q f all.1)

before-le : (c d : Candidate) → before c d ≡ true → c.val ≤ d.val
unfolding before
before-le c d h = ground (arith, h)

not_before-le : (c d : Candidate) → before c d ≡ false → d.val ≤ c.val
unfolding before
not_before-le c d h = ground (arith, h)

emplace-Sorted : (c : Candidate) (q : List Candidate) → Sorted q → Sorted (emplace c q)
unfolding emplace Sorted
emplace-Sorted c [] s = (tt, tt)
emplace-Sorted c (d ∷ q) s = elim (Bool-cases (before c d)) [
  | inl first ↦
      let le = before-le c d first in
      rw first (
        (le, All-mono (λ e. d.val ≤ e.val) (λ e. c.val ≤ e.val) q (λ e h. omega (arith, le)) s.0),
        s,
      )
  | inr later ↦
      rw later
        (All-emplace (λ e. d.val ≤ e.val) c q (not_before-le c d later) s.0, emplace-Sorted c q s.1)
]

module _ (heap_data : List ℕ) where
  -- The values below the candidates.
  unfoldable pub under : List Candidate → List ℕ
  under [] = []
  under (c ∷ q) = below heap_data (length heap_data) c.idx 1 ++ under q

  unfoldable pub Fits : List Candidate → Type 0
  Fits q = All (λ c. get_elem? heap_data c.idx ≡ some c.val) q

  under-emplace :
      (f : ℕ → ℕ) (c : Candidate) (q : List Candidate)
      → sum f (under (emplace c q)) ≡ sum f (under (c ∷ q))
  unfolding emplace under
  under-emplace f c [] = refl
  under-emplace f c (d ∷ q) = elim (Bool-cases (before c d)) [
    | inl first ↦ rw first refl
    | inr later ↦
        let n = length heap_data in
        rw later (
          omega (
            arith,
            sum_append f (below heap_data n d.idx 1) (under (emplace c q)),
            sum_append f (below heap_data n c.idx 1) (below heap_data n d.idx 1 ++ under q),
            sum_append f (below heap_data n d.idx 1) (under q),
            sum_append f (below heap_data n c.idx 1) (under q),
            under-emplace f c q,
          ))
  ]

  outside : (l : List ℕ) (i : ℕ) → get_elem? l i ≡ none → length l ≤ i
  outside [] i h = omega arith
  outside (x ∷ l) zero h = cc
  outside (x ∷ l) (suc i) h = omega (arith, outside l i h)

  -- What a call of emplace for an index keeps and adds.
  pub record Emplaced (i : ℕ) (q r : List Candidate) : Type 0 where
    pub fits : Fits r
    pub sorted : Sorted r
    pub adds :
        (f : ℕ → ℕ)
        → sum f (under r) ≡ sum f (below heap_data (length heap_data) i 1) + sum f (under q)

  pub emplace_at-Emplaced :
      (i : ℕ) (q : List Candidate) → Fits q → Sorted q → Emplaced i q (emplace_at heap_data i q)
  unfolding emplace_at Fits under
  emplace_at-Emplaced i q fits sorted = elim (Option-cases (get_elem? heap_data i)) [
    | inl out ↦
        rw (emplace_at, out)
          record {
            fits = fits;
            sorted = sorted;
            adds = λ f.
                omega (
                  arith,
                  below_outside heap_data f (length heap_data) i 1 (outside heap_data i out),
                );
          }
    | inr (val, there) ↦
        let c : Candidate = record { val = val; idx = i } in
        rw (emplace_at, there)
          record {
            fits = All-emplace (λ d. get_elem? heap_data d.idx ≡ some d.val) c q there fits;
            sorted = emplace-Sorted c q sorted;
            adds = λ f.
                under-emplace f c q
                ∙ sum_append f (below heap_data (length heap_data) i 1) (under q);
          }
  ]

  -- The values that are picked, and those that are left.
  pub record Picks (k : ℕ) (q : List Candidate) : Type 0 where
    pub out : List ℕ
    pub left : List ℕ
    pub returns : pick heap_data k q ≡ some out
    pub as_many : length out ≡ k
    pub whole : (f : ℕ → ℕ) → sum f out + sum f left ≡ sum f (under q)
    pub least : Least out left

  take_one : (l : List ℕ) (i v : ℕ) → get_elem? l i ≡ some v → take 1 (drop i l) ≡ v ∷ []
  take_one [] i v h = cc
  take_one (x ∷ l) zero v h = ap (λ t. t ∷ []) (some-injective _ _ h)
  take_one (x ∷ l) (suc i) v h = take_one l i v h

  module _ (heap : IsHeap heap_data) where
    under-least :
        (v : ℕ) (q : List Candidate)
        → Fits q
        → All (λ (c : Candidate). v ≤ c.val) q
        → sum (less v) (under q) ≡ 0
    unfolding Fits under
    under-least v [] fits above = refl
    under-least v (c ∷ q) fits above = omega (
      arith,
      sum_append (less v) (below heap_data (length heap_data) c.idx 1) (under q),
      below-least heap_data heap (length heap_data) v c.idx c.val fits.0 above.0,
      under-least v q fits.1 above.1,
    )

    pub pick-Picks :
        (k : ℕ) (q : List Candidate) → Fits q → Sorted q → k ≤ sum (λ x. 1) (under q) → Picks k q
    unfolding pick Fits Sorted under Least
    pick-Picks zero q fits sorted room = record {
      out = [];
      left = under q;
      returns = refl;
      as_many = refl;
      whole = λ f. omega arith;
      least = tt;
    }
    pick-Picks (suc k) [] fits sorted room = absurd (omega arith)
    pick-Picks (suc k) (top ∷ q) fits sorted room =
        let n = length heap_data in
        let one = emplace_at-Emplaced (2 * top.idx + 1) q fits.1 sorted.1 in
        let two =
          emplace_at-Emplaced (2 * top.idx + 2) (emplace_at heap_data (2 * top.idx + 1) q) one.fits
            one.sorted in
        let first = take_one heap_data top.idx top.val fits.0 in
        let q2 =
          emplace_at heap_data (2 * top.idx + 2) (emplace_at heap_data (2 * top.idx + 1) q) in
        let splits : (f : ℕ → ℕ) → sum f (under (top ∷ q)) ≡ f top.val + sum f (under q2) = λ f.
          omega (
            arith,
            sum_append f (below heap_data n top.idx 1) (under q),
            below-children heap_data f top.idx,
            ap (sum f) first,
            one.adds f,
            two.adds f,
          ) in
        let more = pick-Picks k q2 two.fits two.sorted (omega (arith, room, splits (λ x. 1))) in
        let bound = under-least top.val (top ∷ q) fits (omega arith, sorted.0) in
        record {
          out = top.val ∷ more.out;
          left = more.left;
          returns = rw (more.returns) refl;
          as_many = ap suc more.as_many;
          whole = λ f. omega (arith, more.whole f, splits f);
          least = (
            none_less top.val more.out
                (omega (arith, bound, splits (less top.val), more.whole (less top.val))),
            none_less top.val more.left
                (omega (arith, bound, splits (less top.val), more.whole (less top.val))),
            more.least,
          );
        }
