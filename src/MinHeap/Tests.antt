-- ===== src/MinHeap/Tests.antt =====
-- Tests of the k least values of a heap.
use mathlib.Core.Option.{some-injective}
use c_plus_plus_examples.Base.{
  ℕ, zero, suc, ◌+◌, ◌≡◌, refl, some, List, [], ◌∷◌, length, min, arith,
}
use c_plus_plus_examples.MinHeap.{top_k_min}
use c_plus_plus_examples.MinHeap.Order.{IsHeap}
use c_plus_plus_examples.MinHeap.Pick.{Least}
use c_plus_plus_examples.MinHeap.Least.{occurs, top_k_min-Least}

abbrev heap : List ℕ
heap = 1 ∷ 4 ∷ 2 ∷ 9 ∷ 5 ∷ 2 ∷ 7 ∷ []

some_test : top_k_min heap 4 ≡ some (1 ∷ 2 ∷ 2 ∷ 4 ∷ [])
unfolding top_k_min
some_test = refl

all_test : top_k_min heap 20 ≡ some (1 ∷ 2 ∷ 2 ∷ 4 ∷ 5 ∷ 7 ∷ 9 ∷ [])
unfolding top_k_min
all_test = refl

empty_test : top_k_min [] 3 ≡ some []
unfolding top_k_min
empty_test = refl

abbrev small_heap : List ℕ
small_heap = 1 ∷ 4 ∷ 2 ∷ []

small_heap-IsHeap : IsHeap small_heap
unfolding IsHeap
small_heap-IsHeap zero u v h e e' = absurd (omega arith)
small_heap-IsHeap (suc zero) u v h e e' = omega (arith, some-injective 1 u e, some-injective 4 v e')
small_heap-IsHeap (suc (suc zero)) u v h e e' =
    omega (arith, some-injective 1 u e, some-injective 2 v e')
small_heap-IsHeap (suc (suc (suc j))) u v h e e' = cc

top_k_min-Least_example :
    (out left : List ℕ) × (top_k_min small_heap 2 ≡ some out)
    × (length out ≡ min (length small_heap) 2)
    × ((v : ℕ) → occurs v out + occurs v left ≡ occurs v small_heap)
    × Least out left
top_k_min-Least_example = top_k_min-Least small_heap 2 small_heap-IsHeap
