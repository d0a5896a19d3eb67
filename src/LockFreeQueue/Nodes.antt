-- ===== src/LockFreeQueue/Nodes.antt =====
-- The nodes of example-lfq/main.cc: linked lists on the heap, and what a store changes of them.
use c_plus_plus_examples.Base.{
  ℕ, true, false, Option, none, some, List, [], ◌∷◌, ◌++◌, ◌==◌, ◌≡◌, ◌≢◌, refl, sym, ap, ◌∙◌,
  arith, elem, Apart,
}
use c_plus_plus_examples.LockFreeQueue.{Node, Memory, write}

module _ {T : Type 0} where
  abbrev pub node : T → Option ℕ → Option (Node T)
  node v next = some (record { value = v; next = next })

  -- The list at `h`: the value there, then the addresses and values of the nodes behind.
  unfoldable pub Chain : Memory T → ℕ → T → List (ℕ × T) → Type 0
  Chain memory h v [] = memory h ≡ node v none
  Chain memory h v ((x, w) ∷ rest) = (memory h ≡ node v (some x)) × Chain memory x w rest

  abbrev pub addresses : List (ℕ × T) → List ℕ
  addresses [] = []
  addresses ((x, w) ∷ rest) = x ∷ addresses rest

  abbrev pub values : List (ℕ × T) → List T
  values [] = []
  values ((x, w) ∷ rest) = w ∷ values rest

  abbrev pub last : ℕ → List (ℕ × T) → ℕ
  last h [] = h
  last h ((x, w) ∷ rest) = last x rest

  abbrev pub last_value : T → List (ℕ × T) → T
  last_value v [] = v
  last_value v ((x, w) ∷ rest) = last_value w rest

  pub last-elem : (h : ℕ) (rest : List (ℕ × T)) → elem (last h rest) (h ∷ addresses rest) ≡ true
  last-elem h [] = ground arith
  last-elem h ((x, w) ∷ rest) = ground (arith, last-elem x rest)

  pub last_snoc : (h n : ℕ) (w : T) (rest : List (ℕ × T)) → last h (rest ++ ((n, w) ∷ [])) ≡ n
  last_snoc h n w [] = refl
  last_snoc h n w ((x, v) ∷ rest) = last_snoc x n w rest

  pub values_snoc :
      (n : ℕ) (w : T) (rest : List (ℕ × T))
      → values (rest ++ ((n, w) ∷ [])) ≡ values rest ++ (w ∷ [])
  values_snoc n w [] = refl
  values_snoc n w ((x, v) ∷ rest) = ap (◌∷◌ v) (values_snoc n w rest)

  pub addresses_snoc :
      (n : ℕ) (w : T) (rest : List (ℕ × T))
      → addresses (rest ++ ((n, w) ∷ [])) ≡ addresses rest ++ (n ∷ [])
  addresses_snoc n w [] = refl
  addresses_snoc n w ((x, v) ∷ rest) = ap (◌∷◌ x) (addresses_snoc n w rest)

  pub write_self : (memory : Memory T) (a : ℕ) (o : Option (Node T)) → write memory a o a ≡ o
  unfolding write
  write_self memory a o = ground arith

  pub write_ne :
      (memory : Memory T) (a b : ℕ) (o : Option (Node T)) → a ≢ b → write memory a o b ≡ memory b
  unfolding write
  write_ne memory a b o h = ground (arith, h)

  -- The last node is linked to none.
  pub Chain-last :
      (memory : Memory T) (h : ℕ) (v : T) (rest : List (ℕ × T))
      → Chain memory h v rest
      → memory (last h rest) ≡ node (last_value v rest) none
  unfolding Chain
  Chain-last memory h v [] c = c
  Chain-last memory h v ((x, w) ∷ rest) c = Chain-last memory x w rest c.1

  -- A store outside of a list leaves it.
  pub Chain-write :
      (memory : Memory T) (a : ℕ) (o : Option (Node T)) (h : ℕ) (v : T) (rest : List (ℕ × T))
      → elem a (h ∷ addresses rest) ≡ false
      → Chain memory h v rest
      → Chain (write memory a o) h v rest
  unfolding Chain
  Chain-write memory a o h v [] out c = write_ne memory a h o (ground (arith, out)) ∙ c
  Chain-write memory a o h v ((x, w) ∷ rest) out c = (
    write_ne memory a h o (ground (arith, out)) ∙ c.0,
    Chain-write memory a o x w rest (ground (arith, out)) c.1,
  )

  -- A node that is linked behind the last.
  pub Chain-snoc :
      (memory : Memory T) (n : ℕ) (w : T) (h : ℕ) (v : T) (rest : List (ℕ × T))
      → Apart (h ∷ addresses rest)
      → elem n (h ∷ addresses rest) ≡ false
      → memory n ≡ node w none
      → Chain memory h v rest
      → Chain
          (write memory (last h rest) (node (last_value v rest) (some n)))
          h
          v
          (rest ++ ((n, w) ∷ []))
  unfolding Chain
  Chain-snoc memory n w h v [] d out new c = (
    write_self memory h (node v (some n)),
    write_ne memory h n (node v (some n)) (ground (arith, out)) ∙ new,
  )
  Chain-snoc memory n w h v ((x, y) ∷ rest) d out new c = (
    write_ne memory (last x rest) h (node (last_value y rest) (some n))
          (ground (arith, last-elem x rest, d.0))
        ∙ c.0,
    Chain-snoc memory n w x y rest d.1 (ground (arith, out)) new c.1,
  )

  pub last_in :
      (b h : ℕ) (rest : List (ℕ × T))
      → (last h rest == b) ≡ true
      → elem b (h ∷ addresses rest) ≡ true
  last_in b h rest e =
      let same : last h rest ≡ b = ground arith in
      ap (λ a. elem a (h ∷ addresses rest)) (sym same) ∙ last-elem h rest

  -- What the first node is linked to.
  pub data Front (memory : Memory T) (h : ℕ) (v : T) (rest : List (ℕ × T)) : Type 0 where
    alone : rest ≡ [] → memory h ≡ node v none → Front memory h v rest
    followed :
        (f : ℕ) (w : T) (more : List (ℕ × T))
        → rest ≡ (f, w) ∷ more
        → memory h ≡ node v (some f)
        → Front memory h v rest

  pub Chain-Front :
      (memory : Memory T) (h : ℕ) (v : T) (rest : List (ℕ × T))
      → Chain memory h v rest
      → Front memory h v rest
  unfolding Chain
  Chain-Front memory h v [] c = alone refl c
  Chain-Front memory h v ((f, w) ∷ more) c = followed f w more refl c.0

  pub Chain-node :
      (memory : Memory T) (h : ℕ) (v : T) (rest : List (ℕ × T))
      → Chain memory h v rest
      → (next : Option ℕ) × (memory h ≡ node v next)
  unfolding Chain
  Chain-node memory h v [] c = (none, c)
  Chain-node memory h v ((f, w) ∷ more) c = (some f, c.0)
