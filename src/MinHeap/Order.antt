-- ===== src/MinHeap/Order.antt =====
-- The order of the values in the heap of example-minheap-topk/min_heap.h.
use mathlib.Core.Option.{some-injective}
use c_plus_plus_examples.Base.{
  ℕ, zero, suc, ◌+◌, ◌-◌, ◌*◌, ◌/◌, ◌≤◌, ◌<◌, ◌≡◌, refl, sym, ap, ◌∙◌, some, List, [], ◌∷◌, take,
  drop, get_elem?, arith, ltb, if◌then◌else◌, All,
}
use c_plus_plus_examples.MinHeap.Below.{sum, sum_append, below, part, take_nil, drop_nil}

-- How many values are less than `v`.
abbrev pub less : ℕ → ℕ → ℕ
less v x = if ltb x v then 1 else 0

pub none_less : (v : ℕ) (l : List ℕ) → sum (less v) l ≡ 0 → All (λ x. v ≤ x) l
none_less v [] h = tt
none_less v (x ∷ l) h = (ground (arith, h), none_less v l (omega (arith, h)))

-- What `std::greater` makes of a priority queue: no value is less than its parent.
unfoldable pub IsHeap : List ℕ → Type 0
IsHeap l = (j u v : ℕ) → 0 < j → get_elem? l ((j - 1) / 2) ≡ some u → get_elem? l j ≡ some v → u ≤ v

-- No value of a range of indices is less than `v`.
Bound : List ℕ → ℕ → ℕ → ℕ → Type 0
Bound l v a w = (j u : ℕ) → a ≤ j → j < a + w → get_elem? l j ≡ some u → v ≤ u

less_none : (v x : ℕ) → v ≤ x → less v x ≡ 0
less_none v x h = ground arith

part-Bound : (l : List ℕ) (v a w : ℕ) → Bound l v a w → sum (less v) (take w (drop a l)) ≡ 0
unfolding Bound
part-Bound [] v a w b =
    ap (λ l. sum (less v) (take w l)) (drop_nil a) ∙ ap (sum (less v)) (take_nil w)
part-Bound (x ∷ l) v zero zero b = refl
part-Bound (x ∷ l) v zero (suc w) b =
    let here = b 0 x (omega arith) (omega arith) refl in
    omega (
      arith,
      part-Bound l v zero w (λ j u low high e. b (suc j) u (omega arith) (omega arith) e),
      less_none v x here,
    )
part-Bound (x ∷ l) v (suc a) w b =
    part-Bound l v a w (λ j u low high e. b (suc j) u (omega arith) (omega arith) e)

there_before :
    (l : List ℕ) (p j u : ℕ) → p ≤ j → get_elem? l j ≡ some u → (t : ℕ) × (get_elem? l p ≡ some t)
there_before [] p j u h e = cc
there_before (x ∷ l) zero j u h e = (x, refl)
there_before (x ∷ l) (suc p) zero u h e = absurd (omega arith)
there_before (x ∷ l) (suc p) (suc j) u h e = there_before l p j u (omega arith) e

module _ (heap_data : List ℕ) (heap : IsHeap heap_data) where
  children-Bound : (v a w : ℕ) → Bound heap_data v a w → Bound heap_data v (2 * a + 1) (2 * w)
  unfolding Bound IsHeap
  children-Bound v a w b j u low high e =
      let (t, there) = there_before heap_data ((j - 1) / 2) j u (omega arith) e in
      let above = b ((j - 1) / 2) t (omega arith) (omega arith) there in
      omega (arith, above, heap j t u (omega arith) there e)

  below-Bound :
      (height v a w : ℕ) → Bound heap_data v a w → sum (less v) (below heap_data height a w) ≡ 0
  unfolding below part
  below-Bound zero v a w b = refl
  below-Bound (suc height) v a w b = omega (
    arith,
    sum_append (less v) (part heap_data a w) (below heap_data height (2 * a + 1) (2 * w)),
    part-Bound heap_data v a w b,
    below-Bound height v (2 * a + 1) (2 * w) (children-Bound v a w b),
  )

  pub below-least :
      (height v i u : ℕ)
      → get_elem? heap_data i ≡ some u
      → v ≤ u
      → sum (less v) (below heap_data height i 1) ≡ 0
  unfolding Bound
  below-least height v i u e le = below-Bound height v i 1 (λ j t low high e'.
      let same : j ≡ i = omega arith in
      let whole : t ≡ u = some-injective _ _ (sym e' ∙ ap (get_elem? heap_data) same ∙ e) in
      omega (arith, whole))
