-- ===== src/LockFreeQueue/Invariant.antt =====
-- What holds of the queue of example-lfq/main.cc between any two steps of its threads.
use c_plus_plus_examples.Base.{
  ℕ, Bool, true, false, Option, none, some, List, [], ◌∷◌, ◌++◌, ◌≡◌, refl, arith, elem, Apart,
  ◌==◌, if◌then◌else◌, ◌∙◌, sym, ap, append_assoc,
}
use c_plus_plus_examples.LockFreeQueue.{
  Node, Memory, Producer, Consumer, System, write, new_queue, new_system, step, Move,
  Producer.outside, Producer.created, Producer.loaded, Producer.linked, Consumer.ready,
  Consumer.at_head, Consumer.at_first, Consumer.copied, Consumer.moved,
}
use c_plus_plus_examples.LockFreeQueue.Nodes.{
  node, Chain, addresses, values, last, write_self, addresses_snoc,
}

module _ {T : Type 0} where
  -- The nodes that only one of the threads knows, and the values that are not in the list.
  abbrev pub created_node : Producer T → List ℕ
  created_node outside = []
  created_node (created value n) = n ∷ []
  created_node (loaded value n t) = n ∷ []
  created_node (linked n t) = []

  abbrev pub created_value : Producer T → List T
  created_value outside = []
  created_value (created value n) = value ∷ []
  created_value (loaded value n t) = value ∷ []
  created_value (linked n t) = []

  abbrev pub moved_node : Consumer T → List ℕ
  moved_node (moved h out) = h ∷ []
  moved_node _ = []

  abbrev pub moved_value : Consumer T → List T
  moved_value (moved h out) = out ∷ []
  moved_value _ = []

  -- The tail is the last node of the list, but behind a link and before the second exchange.
  unfoldable pub ProducerFits : Memory T → ℕ → ℕ → Producer T → Type 0
  ProducerFits memory tail end outside = tail ≡ end
  ProducerFits memory tail end (created value n) = (memory n ≡ node value none) × (tail ≡ end)
  ProducerFits memory tail end (loaded value n t) =
      (memory n ≡ node value none) × (tail ≡ end) × (t ≡ end)
  ProducerFits memory tail end (linked n t) = (tail ≡ t) × (n ≡ end)

  unfoldable pub ConsumerFits : ℕ → List (ℕ × T) → Consumer T → Type 0
  ConsumerFits head rest (at_head h) = h ≡ head
  ConsumerFits head rest (at_first h f) =
      (h ≡ head) × (v : T) × (more : List (ℕ × T)) × (rest ≡ (f, v) ∷ more)
  ConsumerFits head rest (copied h f out) =
      (h ≡ head) × (more : List (ℕ × T)) × (rest ≡ (f, out) ∷ more)
  ConsumerFits head rest _ = Unit {0}

  unfoldable pub is_allocated : Option (Node T) → Bool
  is_allocated none = false
  is_allocated (some n) = true

  pub is_allocated-write :
      (memory : Memory T) (a b : ℕ) (o : Option (Node T))
      → is_allocated (write memory a o b)
        ≡ (if a == b then is_allocated o else is_allocated (memory b))
  unfolding write
  is_allocated-write memory a b o = ground arith

  abbrev pub owned : Producer T → Consumer T → ℕ → List (ℕ × T) → List ℕ
  owned p c h rest = created_node p ++ (moved_node c ++ (h ∷ addresses rest))

  -- The list starts at the head. What is allocated is in the list or known to one thread, and the
  -- values are received in the order sent.
  pub record Inv (s : System T) : Type 0 where
    pub front : T
    pub rest : List (ℕ × T)
    pub chain : Chain s.queue.memory s.queue.head front rest
    pub apart : Apart (owned s.producer s.consumer s.queue.head rest)
    pub in_use :
        (a : ℕ)
        → is_allocated (s.queue.memory a) ≡ elem a (owned s.producer s.consumer s.queue.head rest)
    pub null : s.queue.null_tail ≡ none
    pub producer_fits : ProducerFits s.queue.memory s.queue.tail (last s.queue.head rest) s.producer
    pub consumer_fits : ConsumerFits s.queue.head rest s.consumer
    pub in_order :
        s.sent ≡ s.received ++ (moved_value s.consumer ++ (values rest ++ created_value s.producer))

  pub new_system-Inv : (default : T) (a : ℕ) → Inv (new_system default a)
  unfolding new_system new_queue write Chain is_allocated ProducerFits ConsumerFits
  new_system-Inv default a = record {
    front = default;
    rest = [];
    chain = write_self (λ b. none) a (node default none);
    apart = (refl, tt);
    in_use = λ b. is_allocated-write (λ b. none) a b (node default none) ∙ ground arith;
    null = refl;
    producer_fits = refl;
    consumer_fits = tt;
    in_order = refl;
  }

  -- A step that ends, in a state that is in order again.
  unfoldable pub Steps : System T → Move T → Type 0
  Steps s m = (t : System T) × (step s m ≡ some t) × Inv t

  -- What a new node at the end changes.
  pub owned-snoc :
      (others : List ℕ) (h n : ℕ) (w : T) (rest : List (ℕ × T))
      → others ++ (h ∷ addresses (rest ++ ((n, w) ∷ [])))
        ≡ (others ++ (h ∷ addresses rest)) ++ (n ∷ [])
  owned-snoc others h n w rest =
      rw (addresses_snoc n w rest) (sym (append_assoc others (h ∷ addresses rest) (n ∷ [])))

  pub ConsumerFits-snoc :
      (h : ℕ) (x : ℕ × T) (rest : List (ℕ × T)) (c : Consumer T)
      → ConsumerFits h rest c
      → ConsumerFits h (rest ++ (x ∷ [])) c
  unfolding ConsumerFits
  ConsumerFits-snoc h x rest ready f = f
  ConsumerFits-snoc h x rest (at_head a) f = f
  ConsumerFits-snoc h x rest (at_first a b) (e, v, more, r) =
      (e, v, more ++ (x ∷ []), ap (λ l. l ++ (x ∷ [])) r)
  ConsumerFits-snoc h x rest (copied a b out) (e, more, r) =
      (e, more ++ (x ∷ []), ap (λ l. l ++ (x ∷ [])) r)
  ConsumerFits-snoc h x rest (moved a out) f = f
