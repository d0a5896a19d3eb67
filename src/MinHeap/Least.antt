-- ===== src/MinHeap/Least.antt =====
-- `top_k_min` of example-minheap-topk/min_heap.h.
use c_plus_plus_examples.Base.{
  ℕ, ◌+◌, ◌≡◌, refl, ◌∙◌, some, List, [], ◌∷◌, length, arith, ◌==◌, if◌then◌else◌, min, Bool-cases,
  inl, inr, ◌||◌,
}
use c_plus_plus_examples.MinHeap.{emplace_at, top_k_min}
use c_plus_plus_examples.MinHeap.Below.{sum, below-root}
use c_plus_plus_examples.MinHeap.Order.{IsHeap}
use c_plus_plus_examples.MinHeap.Pick.{Least, Sorted, under, Fits, emplace_at-Emplaced, pick-Picks}

-- How often a value occurs.
abbrev pub occurs : ℕ → List ℕ → ℕ
occurs v l = sum (λ x. if x == v then 1 else 0) l

sum_ones : (l : List ℕ) → sum (λ x. 1) l ≡ length l
sum_ones [] = refl
sum_ones (x ∷ l) = omega (arith, sum_ones l)

-- On a heap top_k_min ends without reading the top of an empty queue, and returns as many of the heap's
-- values as k says, or all when there are fewer: the least, in ascending order, each as often as the heap has
-- it.
pub top_k_min-Least :
    (heap_data : List ℕ) (k : ℕ)
    → IsHeap heap_data
    → (out left : List ℕ) × (top_k_min heap_data k ≡ some out)
      × (length out ≡ min (length heap_data) k)
      × ((v : ℕ) → occurs v out + occurs v left ≡ occurs v heap_data)
      × Least out left
unfolding top_k_min Least Fits Sorted under
top_k_min-Least heap_data k heap = elim (Bool-cases (length heap_data == 0 || k == 0)) [
  | inl trivial ↦ ([], heap_data, rw trivial refl, ground (arith, trivial), (λ v. omega arith), tt)
  | inr many ↦
      let root = emplace_at-Emplaced heap_data 0 [] tt tt in
      let all : (f : ℕ → ℕ)
          → sum f (under heap_data (emplace_at heap_data 0 [])) ≡ sum f heap_data =
        λ f. omega (arith, root.adds f, below-root heap_data f) in
      let picks =
        pick-Picks heap_data heap (min (length heap_data) k) (emplace_at heap_data 0 []) root.fits
          root.sorted (omega (arith, all (λ x. 1), sum_ones heap_data)) in
      (
        picks.out,
        picks.left,
        rw many picks.returns,
        picks.as_many,
        (λ v. picks.whole (λ x. if x == v then 1 else 0) ∙ all (λ x. if x == v then 1 else 0)),
        picks.least,
      )
]
