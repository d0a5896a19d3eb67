-- ===== src/Lru/Evict.antt =====
-- Lemmas on the end of an LRU's list, which `Put` evicts.
use c_plus_plus_examples.Base.{
  ℕ, suc, ◌≡◌, refl, ap, none, some, List, [], ◌∷◌, arith, length, take,
}
use c_plus_plus_examples.Lru.{Node, node_at, back, pop_back}
use c_plus_plus_examples.Lru.View.{entries, index, Apart}
use mathlib.Core.Logic.{ite}

module _ {K V : Type 0} (dec : Discrete K) where
  pub entries-pop_back :
      (n : Node K V) (l : List (Node K V))
      → entries dec (pop_back n l) ≡ take (length l) (entries dec (n ∷ l))
  unfolding pop_back
  entries-pop_back n [] = refl
  entries-pop_back n (m ∷ l) = ap (◌∷◌ (n.key, n.value)) (entries-pop_back m l)

  pub length-pop_back : (n : Node K V) (l : List (Node K V)) → length (pop_back n l) ≡ length l
  unfolding pop_back
  length-pop_back n [] = refl
  length-pop_back n (m ∷ l) = ap suc (length-pop_back m l)

  pub node_at-pop_back :
      (j : ℕ) (n : Node K V) (l : List (Node K V))
      → node_at j (n ∷ l) ≡ none
      → node_at j (pop_back n l) ≡ none
  unfolding pop_back node_at
  node_at-pop_back j n [] h = refl
  node_at-pop_back j n (m ∷ l) h = ground (arith, node_at-pop_back j m l)

  index-pop_back-none :
      (k : K) (n : Node K V) (l : List (Node K V))
      → index dec k (n ∷ l) ≡ none
      → index dec k (pop_back n l) ≡ none
  unfolding pop_back
  index-pop_back-none k n [] h = refl
  index-pop_back-none k n (m ∷ l) h = ground (arith, index-pop_back-none k m l)

  pub index-back :
      (n : Node K V) (l : List (Node K V)) → (i : ℕ) × (index dec (back n l).key (n ∷ l) ≡ some i)
  unfolding back
  index-back n [] = (n.id, ground arith)
  index-back n (m ∷ l) = elim (dec n.key (back m l).key) [
    | yes p ↦ (n.id, ground arith)
    | no p ↦ let (i, h) = index-back m l in (i, ground arith)
  ]

  pub index-pop_back :
      (k : K) (n : Node K V) (l : List (Node K V))
      → Apart dec (n ∷ l)
      → index dec k (pop_back n l) ≡ ite (dec (back n l).key k) none (index dec k (n ∷ l))
  unfolding pop_back back
  index-pop_back k n [] a = ground arith
  index-pop_back k n (m ∷ l) a =
      let (i, h) = index-back m l in ground (arith, index-pop_back k m l a.2)

  pub pop_back-Apart :
      (n : Node K V) (l : List (Node K V)) → Apart dec (n ∷ l) → Apart dec (pop_back n l)
  unfolding pop_back
  pop_back-Apart n [] a = tt
  pop_back-Apart n (m ∷ l) a =
      (node_at-pop_back n.id m l a.0, index-pop_back-none n.key m l a.1, pop_back-Apart m l a.2)
