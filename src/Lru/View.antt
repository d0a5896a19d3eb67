-- ===== src/Lru/View.antt =====
-- What the two structures of an LRU hold together, and lemmas on its list of nodes.
use c_plus_plus_examples.Base.{
  ℕ, ◌+◌, ◌≤◌, ◌≡◌, refl, Option, none, some, List, [], ◌∷◌, arith, length, ◌==◌, Bool-cases, inl,
  inr,
}
use c_plus_plus_examples.Base.Map.{find, erase, erase_absent, Distinct}
use c_plus_plus_examples.Lru.{Node, Lru, node_at, unlink}
use mathlib.Core.Logic.{ite}

module _ {K V : Type 0} (dec : Discrete K) where
  -- The entries, most recently used first.
  abbrev pub entries : List (Node K V) → List (K × V)
  entries [] = []
  entries (n ∷ l) = (n.key, n.value) ∷ entries l

  -- The identity of the first node with a key.
  abbrev pub index : K → List (Node K V) → Option ℕ
  index k [] = none
  index k (n ∷ l) = ite (dec n.key k) (some n.id) (index k l)

  -- No identity and no key stands twice.
  abbrev pub Apart : List (Node K V) → Type 0
  Apart [] = Unit {0}
  Apart (n ∷ l) = (node_at n.id l ≡ none) × (index n.key l ≡ none) × Apart l

  pub record IsValid (c : Lru K V) : Type 0 where
    pub apart : Apart c.lru
    pub fresh : (i : ℕ) → c.next ≤ i → node_at i c.lru ≡ none
    pub found : (k : K) → find dec k c.kvs ≡ index k c.lru
    pub distinct : Distinct dec c.kvs
    pub same_size : length c.kvs ≡ length c.lru
    pub bounded : length c.lru ≤ c.cap

  -- What the node found by a key is, and what is left without it.
  pub record Found (k : K) (l : List (Node K V)) (i : ℕ) : Type 0 where
    pub node : Node K V
    pub at : node_at i l ≡ some node
    pub key : node.key ≡ k
    pub id : node.id ≡ i
    pub value : find dec k (entries l) ≡ some node.value
    pub rest : entries (unlink i l) ≡ erase dec k (entries l)

  pub index-find-none :
      (k : K) (l : List (Node K V)) → index k l ≡ none → find dec k (entries l) ≡ none
  unfolding find
  index-find-none k [] h = refl
  index-find-none k (n ∷ l) h = ground (arith, index-find-none k l)

  pub Found-index :
      (k : K) (l : List (Node K V)) (i : ℕ) → Apart l → index k l ≡ some i → Found k l i
  unfolding node_at unlink find erase
  Found-index k [] i a h = cc
  Found-index k (n ∷ l) i a h = elim (dec n.key k) [
    | yes p ↦ record {
      node = n;
      at = ground arith;
      key = p;
      id = ground arith;
      value = ground arith;
      rest = ground (arith, erase_absent dec k (entries l), index-find-none k l);
    }
    | no p ↦
        let f : Found k l i = Found-index k l i a.2 (ground arith) in
        record {
          node = f.node;
          at = ground arith;
          key = f.key;
          id = f.id;
          value = ground arith;
          rest = ground arith;
        }
  ]

  pub node_at-unlink-none :
      (i j : ℕ) (l : List (Node K V)) → node_at j l ≡ none → node_at j (unlink i l) ≡ none
  unfolding node_at unlink
  node_at-unlink-none i j [] h = refl
  node_at-unlink-none i j (n ∷ l) h = ground (arith, node_at-unlink-none i j l)

  pub node_at-unlink_self : (i : ℕ) (l : List (Node K V)) → Apart l → node_at i (unlink i l) ≡ none
  unfolding node_at unlink
  node_at-unlink_self i [] a = refl
  node_at-unlink_self i (n ∷ l) a = ground (arith, node_at-unlink_self i l a.2)

  pub index-unlink-none :
      (i : ℕ) (k : K) (l : List (Node K V)) → index k l ≡ none → index k (unlink i l) ≡ none
  unfolding unlink
  index-unlink-none i k [] h = refl
  index-unlink-none i k (n ∷ l) h = ground (arith, index-unlink-none i k l)

  index-node_at :
      (i : ℕ) (l : List (Node K V)) (n : Node K V)
      → node_at i l ≡ some n
      → (j : ℕ) × (index n.key l ≡ some j)
  unfolding node_at
  index-node_at i [] n h = cc
  index-node_at i (m ∷ l) n h = elim (dec m.key n.key) [
    | yes p ↦ (m.id, ground arith)
    | no p ↦ let (j, e) = index-node_at i l n (ground arith) in (j, ground arith)
  ]

  pub index-unlink :
      (i : ℕ) (k : K) (l : List (Node K V)) (n : Node K V)
      → Apart l
      → node_at i l ≡ some n
      → index k (unlink i l) ≡ ite (dec n.key k) none (index k l)
  unfolding unlink node_at
  index-unlink i k [] n a h = cc
  index-unlink i k (m ∷ l) n a h = elim (Bool-cases (m.id == i)) [
    | inl here ↦ ground arith
    | inr later ↦
        let at : node_at i l ≡ some n = ground arith in
        let (j, e) = index-node_at i l n at in
        rw later (ground (arith, index-unlink i k l n a.2 at))
  ]

  pub unlink-Apart : (i : ℕ) (l : List (Node K V)) → Apart l → Apart (unlink i l)
  unfolding unlink
  unlink-Apart i [] a = tt
  unlink-Apart i (n ∷ l) a = elim (Bool-cases (n.id == i)) [
    | inl here ↦ rw here a.2
    | inr later ↦
        rw later
          (node_at-unlink-none i n.id l a.0, index-unlink-none i n.key l a.1, unlink-Apart i l a.2)
  ]

  pub length-unlink :
      (i : ℕ) (l : List (Node K V)) (n : Node K V)
      → node_at i l ≡ some n
      → length (unlink i l) + 1 ≡ length l
  unfolding unlink node_at
  length-unlink i [] n h = cc
  length-unlink i (m ∷ l) n h = ground (arith, length-unlink i l n)
