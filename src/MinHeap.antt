-- ===== src/MinHeap.antt =====
-- example-minheap-topk/min_heap.h: the k least values of a binary heap, without a change to it. The
-- heap is the vector of its values, `GetData()`; values are numbers. `std::priority_queue` is the
-- list of its elements in their order, the least first. `none` is `top()` of an empty queue.
pub mod Below
pub mod Order
pub mod Pick
pub mod Least
mod Tests
use c_plus_plus_examples.Base.{
  ℕ, zero, suc, ◌+◌, ◌*◌, min, Bool, ◌&&◌, ◌||◌, Option, none, some, List, [], ◌∷◌, length,
  get_elem?, ltb, ◌==◌, if◌then◌else◌,
}
use c_plus_plus_examples.Base.Chain.{◌>>=◌}

-- A value and its index.
pub record Candidate : Type 0 where
  pub val : ℕ
  pub idx : ℕ

-- `a < b` of two pairs.
unfoldable pub before : Candidate → Candidate → Bool
before a b = ltb a.val b.val || (a.val == b.val && ltb a.idx b.idx)

unfoldable pub emplace : Candidate → List Candidate → List Candidate
unfolding before
emplace c [] = c ∷ []
emplace c (d ∷ q) = let rest = emplace c q in if before c d then c ∷ d ∷ q else d ∷ rest

-- The value at an index, if it lies in the heap, is a candidate.
unfoldable pub emplace_at : List ℕ → ℕ → List Candidate → List Candidate
unfolding emplace
emplace_at heap_data i q = elim (get_elem? heap_data i) [
  | none ↦ q
  | some val ↦ emplace (record { val = val; idx = i }) q
]

-- The loop, by the rounds left: the values that are appended to `*result`.
unfoldable pub pick : List ℕ → ℕ → List Candidate → Option (List ℕ)
unfolding emplace_at
pick heap_data zero min_candidate = some []
pick heap_data (suc k) [] = none
pick heap_data (suc k) (top ∷ q) = do
  more ←
      pick heap_data k
        (emplace_at heap_data (2 * top.idx + 2) (emplace_at heap_data (2 * top.idx + 1) q))
  some (top.val ∷ more)

unfoldable pub top_k_min : List ℕ → ℕ → Option (List ℕ)
unfolding pick emplace_at
top_k_min heap_data k =
    if length heap_data == 0 || k == 0
    then some []
    else pick heap_data (min (length heap_data) k) (emplace_at heap_data 0 [])
