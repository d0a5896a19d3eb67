-- ===== src/LockFreeQueue/Dequeue.antt =====
-- The steps of `dequeue` of example-lfq/main.cc, and the order of the queue.
use mathlib.Core.Path.{subst}
use c_plus_plus_examples.Base.{
  ℕ, true, false, Option, none, some, List, [], ◌∷◌, ◌++◌, ◌≡◌, refl, sym, ap, ◌∙◌, arith, elem,
  elem_append, Apart, Apart-right, Apart-disjoint, ◌==◌, ℕ_discrete, append_assoc, if◌then◌else◌,
}
use c_plus_plus_examples.LockFreeQueue.{
  Node, Memory, Queue, Producer, Consumer, System, write, dequeue_step, step, deliver,
  Producer.outside, Producer.created, Producer.loaded, Producer.linked, consume, Consumer.ready,
  Consumer.at_head, Consumer.at_first, Consumer.copied, Consumer.moved,
}
use c_plus_plus_examples.LockFreeQueue.Nodes.{
  alone, followed, Chain-Front, Chain-node, Chain, addresses, values, last, write_ne, Chain-write,
}
use c_plus_plus_examples.LockFreeQueue.Invariant.{
  created_node, created_value, ProducerFits, ConsumerFits, is_allocated, is_allocated-write, Inv,
  Steps,
}

-- A list without one of its elements.
Apart-drop : (l : List ℕ) (x : ℕ) (m : List ℕ) → Apart (l ++ (x ∷ m)) → Apart (l ++ m)
Apart-drop [] x m d = d.1
Apart-drop (y ∷ l) x m d =
    (ground (arith, d.0, elem_append y l (x ∷ m), elem_append y l m), Apart-drop l x m d.1)

elem-drop :
    (b : ℕ) (l : List ℕ) (x : ℕ) (m : List ℕ)
    → Apart (l ++ (x ∷ m))
    → elem b (l ++ m) ≡ (if x == b then false else elem b (l ++ (x ∷ m)))
elem-drop b [] x m d = elim (ℕ_discrete x b) [
  | yes e ↦ rw (sym e) (ground (arith, d.0))
  | no e ↦ ground (arith, e)
]
elem-drop b (y ∷ l) x m d = ground (arith, d.0, elem_append y l (x ∷ m), elem-drop b l x m d.1)

module _ {T : Type 0} where
  allocated : (o : Option (Node T)) → is_allocated o ≡ true → (n : Node T) × (o ≡ some n)
  unfolding is_allocated
  allocated none h = cc
  allocated (some n) h = (n, refl)

  ProducerFits-write :
      (memory : Memory T) (a tail end : ℕ) (o : Option (Node T)) (p : Producer T)
      → elem a (created_node p) ≡ false
      → ProducerFits memory tail end p
      → ProducerFits (write memory a o) tail end p
  unfolding ProducerFits
  ProducerFits-write memory a tail end o outside out f = f
  ProducerFits-write memory a tail end o (created w n) out f =
      (write_ne memory a n o (ground (arith, out)) ∙ f.0, f.1)
  ProducerFits-write memory a tail end o (loaded w n t) out f =
      (write_ne memory a n o (ground (arith, out)) ∙ f.0, f.1, f.2)
  ProducerFits-write memory a tail end o (linked n t) out f = f

  module _ (q : Queue T) (p : Producer T) (sent received : List T) where
    abbrev at : Consumer T → System T
    at c = record { queue = q; producer = p; consumer = c; sent = sent; received = received }

    load_head-Steps : Inv (at ready) → Steps (at ready) consume
    unfolding Steps step dequeue_step ConsumerFits deliver
    load_head-Steps v = (
      at (at_head q.head),
      refl,
      record {
        front = v.front;
        rest = v.rest;
        chain = v.chain;
        apart = v.apart;
        in_use = v.in_use;
        null = v.null;
        producer_fits = v.producer_fits;
        consumer_fits = refl;
        in_order = v.in_order;
      },
    )

    look-Steps : (h : ℕ) → Inv (at (at_head h)) → Steps (at (at_head h)) consume
    unfolding Steps step dequeue_step ConsumerFits deliver
    look-Steps h v = elim (Chain-Front q.memory q.head v.front v.rest v.chain) [
      | alone e first ↦ (
        at ready,
        rw (v.consumer_fits, first) refl,
        record {
          front = v.front;
          rest = v.rest;
          chain = v.chain;
          apart = v.apart;
          in_use = v.in_use;
          null = v.null;
          producer_fits = v.producer_fits;
          consumer_fits = tt;
          in_order = v.in_order;
        },
      )
      | followed f w more e first ↦ (
        at (at_first h f),
        rw (v.consumer_fits, first) (ap (λ a. some (at (at_first a f))) v.consumer_fits),
        record {
          front = v.front;
          rest = v.rest;
          chain = v.chain;
          apart = v.apart;
          in_use = v.in_use;
          null = v.null;
          producer_fits = v.producer_fits;
          consumer_fits = (v.consumer_fits, w, more, e);
          in_order = v.in_order;
        },
      )
    ]

    copy-Steps : (h f : ℕ) → Inv (at (at_first h f)) → Steps (at (at_first h f)) consume
    unfolding Steps step dequeue_step ConsumerFits deliver Chain
    copy-Steps h f v =
        let (e, w, more, r) = v.consumer_fits in
        let node_at =
          Chain-node q.memory f w more (subst (λ l. Chain q.memory q.head v.front l) r v.chain).1 in
        (
          at (copied h f w),
          rw (node_at.1) refl,
          record {
            front = v.front;
            rest = v.rest;
            chain = v.chain;
            apart = v.apart;
            in_use = v.in_use;
            null = v.null;
            producer_fits = v.producer_fits;
            consumer_fits = (e, more, r);
            in_order = v.in_order;
          },
        )

    move-Steps :
        (h f : ℕ) (out : T) → Inv (at (copied h f out)) → Steps (at (copied h f out)) consume
    unfolding Steps step dequeue_step ConsumerFits deliver Chain
    move-Steps h f out v =
        let (e, more, r) = v.consumer_fits in
        let same : (q.head == h) ≡ true = ground (arith, e) in
        (
          record (at (moved q.head out)) { queue = record q { head = f } },
          rw (same, e) refl,
          record {
            front = out;
            rest = more;
            chain = (subst (λ l. Chain q.memory q.head v.front l) r v.chain).1;
            apart = subst (λ l. Apart (created_node p ++ (q.head ∷ addresses l))) r v.apart;
            in_use =
                subst
                  (λ l.
                    (a : ℕ)
                    → is_allocated (q.memory a) ≡ elem a (created_node p ++ (q.head ∷ addresses l)))
                  r v.in_use;
            null = v.null;
            producer_fits =
                subst (λ l. ProducerFits q.memory q.tail (last q.head l) p) r v.producer_fits;
            consumer_fits = tt;
            in_order = subst (λ l. sent ≡ received ++ (values l ++ created_value p)) r v.in_order;
          },
        )

    delete-Steps : (h : ℕ) (out : T) → Inv (at (moved h out)) → Steps (at (moved h out)) consume
    unfolding Steps step dequeue_step ConsumerFits deliver is_allocated
    delete-Steps h out v =
        let list = q.head ∷ addresses v.rest in
        let (n, there) =
          allocated (q.memory h)
            (v.in_use h ∙ ground (arith, elem_append h (created_node p) (h ∷ list))) in
        (
          record (at ready) {
            queue = record q { memory = write q.memory h none };
            received = received ++ (out ∷ []);
          },
          rw there refl,
          record {
            front = v.front;
            rest = v.rest;
            chain =
                Chain-write q.memory h none q.head v.front v.rest
                  (Apart-right (created_node p) (h ∷ list) v.apart).0 v.chain;
            apart = Apart-drop (created_node p) h list v.apart;
            in_use = λ b.
                is_allocated-write q.memory h b none
                ∙ rw (v.in_use b) (sym (elem-drop b (created_node p) h list v.apart));
            null = v.null;
            producer_fits =
                ProducerFits-write q.memory h q.tail (last q.head v.rest) none p
                  (ground (arith, Apart-disjoint h (created_node p) (h ∷ list) v.apart))
                  v.producer_fits;
            consumer_fits = tt;
            in_order =
                v.in_order
                ∙ sym (append_assoc received (out ∷ []) (values v.rest ++ created_value p));
          },
        )

    pub consume-Steps : (c : Consumer T) → Inv (at c) → Steps (at c) consume
    consume-Steps ready v = load_head-Steps v
    consume-Steps (at_head h) v = look-Steps h v
    consume-Steps (at_first h f) v = copy-Steps h f v
    consume-Steps (copied h f out) v = move-Steps h f out v
    consume-Steps (moved h out) v = delete-Steps h out v
