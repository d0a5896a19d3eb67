-- ===== src/LockFreeQueue/Destroy.antt =====
-- The destructor of example-lfq/main.cc.
use mathlib.Core.Path.{subst}
use c_plus_plus_examples.Base.{
  ℕ, zero, suc, ◌<◌, false, Option, none, some, List, [], ◌∷◌, ◌++◌, ◌≡◌, refl, sym, ap, ◌∙◌, arith,
  elem, Apart, length, length-append, ℕ_discrete,
}
use c_plus_plus_examples.LockFreeQueue.{
  Node, Memory, System, Reachable, destroy, write, Producer.outside, Consumer.ready,
}
use c_plus_plus_examples.LockFreeQueue.Nodes.{Chain, addresses, values, Chain-write}
use c_plus_plus_examples.LockFreeQueue.Invariant.{
  created_value, moved_value, is_allocated, is_allocated-write, owned,
}
use c_plus_plus_examples.LockFreeQueue.Fifo.{Reachable-Inv}

module _ {T : Type 0} where
  free_of : (o : Option (Node T)) → is_allocated o ≡ false → o ≡ none
  unfolding is_allocated
  free_of none h = refl
  free_of (some n) h = cc

  -- A list that is all that is allocated is freed.
  destroy-Chain :
      (fuel : ℕ) (memory : Memory T) (h : ℕ) (v : T) (rest : List (ℕ × T))
      → length rest < fuel
      → Chain memory h v rest
      → Apart (h ∷ addresses rest)
      → ((a : ℕ) → is_allocated (memory a) ≡ elem a (h ∷ addresses rest))
      → (m : Memory T) × (destroy fuel memory (some h) ≡ some m) × ((a : ℕ) → m a ≡ none)
  unfolding destroy Chain is_allocated
  destroy-Chain zero memory h v rest room c d held = absurd (omega arith)
  destroy-Chain (suc fuel) memory h v [] room c d held = (
    write memory h none,
    rw c refl,
    (λ a.
        free_of (write memory h none a)
          (is_allocated-write memory h a none ∙ ground (arith, held a))),
  )
  destroy-Chain (suc fuel) memory h v ((x, w) ∷ rest) room c d held =
      let (m, run, all) =
        destroy-Chain fuel (write memory h none) x w rest (omega arith)
          (Chain-write memory h none x w rest d.0 c.1) d.1
          (λ a. is_allocated-write memory h a none ∙ elim (ℕ_discrete h a) [
            | yes e ↦ rw (sym e) (ground (arith, d.0))
            | no e ↦ ground (arith, e, held a)
          ]) in
      (m, rw (c.0) run, all)

  length-values : (rest : List (ℕ × T)) → length (values rest) ≡ length rest
  length-values [] = refl
  length-values ((x, w) ∷ rest) = ap suc (length-values rest)

  -- When no call is under way the destructor ends, reads no node that is deleted, and leaves nothing
  -- allocated.
  pub destroy_frees :
      (default : T) (s : System T) (fuel : ℕ)
      → Reachable default s
      → s.producer ≡ outside
      → s.consumer ≡ ready
      → length s.sent < fuel
      → (m : Memory T) × (destroy fuel s.queue.memory (some s.queue.head) ≡ some m)
        × ((a : ℕ) → m a ≡ none)
  destroy_frees default s fuel r out idle room =
      let v = Reachable-Inv default s r in
      let alone : owned s.producer s.consumer s.queue.head v.rest
          ≡ s.queue.head ∷ addresses v.rest =
        rw (out, idle) refl in
      let moved = moved_value s.consumer in
      let more = created_value s.producer in
      destroy-Chain fuel s.queue.memory s.queue.head v.front v.rest
        (omega (
          arith,
          ap length v.in_order,
          length-values v.rest,
          length-append s.received (moved ++ (values v.rest ++ more)),
          length-append moved (values v.rest ++ more),
          length-append (values v.rest) more,
        ))
        v.chain (subst Apart alone v.apart) (λ a. v.in_use a ∙ ap (elem a) alone)
