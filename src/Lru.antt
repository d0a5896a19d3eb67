-- ===== src/Lru.antt =====
-- common/lru.h: the class template `LRU`, a `std::list` of items, most recently used first, and a
-- `std::unordered_map` from keys to iterators into the list. An iterator is the identity of a list
-- node, which stays as nodes are moved; the map is an association list with each key once.
pub mod View
pub mod Evict
pub mod Refines
mod Tests
use c_plus_plus_examples.Base.{
  ℕ, ◌+◌, ◌<◌, Bool, true, false, Option, none, some, List, [], ◌∷◌, ltb, ◌==◌, if◌then◌else◌,
  length,
}
use c_plus_plus_examples.Base.Map.{find, erase}

-- An `LRUItem` in its node.
pub record Node (K V : Type 0) : Type 0 where
  pub id : ℕ
  pub key : K
  pub value : V

-- `next` is the identity of the next node that is allocated.
pub record Lru (K V : Type 0) : Type 0 where
  pub cap : ℕ
  pub lru : List (Node K V)
  pub kvs : List (K × ℕ)
  pub next : ℕ

unfoldable pub init : {K V : Type 0} → ℕ → Lru K V
init cap = record { cap = cap; lru = []; kvs = []; next = 0 }

-- `size()`
unfoldable pub size : {K V : Type 0} → Lru K V → ℕ
size c = length c.lru

module _ {K V : Type 0} where
  -- The node that an iterator stands for, and the list without it.
  unfoldable pub node_at : ℕ → List (Node K V) → Option (Node K V)
  node_at i [] = none
  node_at i (n ∷ l) = if n.id == i then some n else node_at i l

  unfoldable pub unlink : ℕ → List (Node K V) → List (Node K V)
  unlink i [] = []
  unlink i (n ∷ l) = if n.id == i then l else n ∷ unlink i l

  -- `lru_.splice(lru_.begin(), lru_, item_iter)`, after the item's value has been given by `f`.
  unfoldable pub splice_front : (Node K V → Node K V) → ℕ → List (Node K V) → List (Node K V)
  splice_front f i l = elim (node_at i l) [ none ↦ l | some n ↦ f n ∷ unlink i l ]

  -- `lru_.back()` and `lru_.pop_back()`, on a list that is not empty.
  unfoldable pub back : Node K V → List (Node K V) → Node K V
  back n [] = n
  back n (m ∷ l) = back m l

  unfoldable pub pop_back : Node K V → List (Node K V) → List (Node K V)
  pop_back n [] = []
  pop_back n (m ∷ l) = n ∷ pop_back m l

module _ {K V : Type 0} (dec : Discrete K) where
  -- `Get`: the new state, and `*val` if it returns true.
  unfoldable pub get : Lru K V → K → Lru K V × Option V
  get c key = elim (find dec key c.kvs) [
    | none ↦ (c, none)
    | some i ↦ elim (node_at i c.lru) [
      | none ↦ (c, none)
      | some n ↦ (record c { lru = splice_front (λ m. m) i c.lru }, some n.value)
    ]
  ]

  -- The end of `Put`: evict the last item if the map has outgrown the capacity.
  unfoldable pub evict : Lru K V → Lru K V
  evict c = elim c.lru [
    | [] ↦ c
    | n ∷ l ↦
        if ltb c.cap (length c.kvs)
        then record c { lru = pop_back n l; kvs = erase dec (back n l).key c.kvs }
        else c
  ]

  unfoldable pub put : Lru K V → K → V → Lru K V
  unfolding evict
  put c key val = elim (find dec key c.kvs) [
    | some i ↦ record c { lru = splice_front (λ n. record n { value = val }) i c.lru }
    | none ↦ evict (record c {
      lru = record { id = c.next; key = key; value = val } ∷ c.lru;
      kvs = (key, c.next) ∷ c.kvs;
      next = c.next + 1;
    })
  ]
