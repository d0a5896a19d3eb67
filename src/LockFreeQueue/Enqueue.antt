-- ===== src/LockFreeQueue/Enqueue.antt =====
-- The steps of `enqueue` of example-lfq/main.cc, and the order of the queue.
use c_plus_plus_examples.Base.{
  ℕ, Bool, true, false, none, some, List, [], ◌∷◌, ◌++◌, ◌≡◌, refl, sym, ap, ◌∙◌, arith, elem,
  elem_append, Apart-snoc, Apart-right, ◌==◌, append_assoc, append-nil,
}
use c_plus_plus_examples.LockFreeQueue.{
  Queue, Producer, Consumer, System, write, create, same, enqueue_step, step, Producer.outside,
  Producer.created, Producer.loaded, Producer.linked, call_enqueue, produce,
}
use c_plus_plus_examples.LockFreeQueue.Nodes.{
  node, addresses, last, last_value, write_self, Chain-last, Chain-write, Chain-snoc, last_snoc,
  values_snoc, last_in,
}
use c_plus_plus_examples.LockFreeQueue.Invariant.{
  moved_node, ProducerFits, is_allocated, is_allocated-write, owned, Inv, Steps, owned-snoc,
  ConsumerFits-snoc,
}

-- What a node outside of the list is not.
not_in_list :
    (a : ℕ) (l m : List ℕ) → elem a (l ++ m) ≡ false → (elem a l ≡ false) × (elem a m ≡ false)
not_in_list a l m h = (ground (arith, elem_append a l m, h), ground (arith, elem_append a l m, h))

module _ {T : Type 0} where
  free-elem :
      (s : System T) (v : Inv s) (a : ℕ)
      → s.queue.memory a ≡ none
      → elem a (owned s.producer s.consumer s.queue.head v.rest) ≡ false
  unfolding is_allocated
  free-elem s v a h = sym (v.in_use a) ∙ ap is_allocated h

  module _ (q : Queue T) (c : Consumer T) (sent received : List T) where
    abbrev at : Producer T → System T
    at p = record { queue = q; producer = p; consumer = c; sent = sent; received = received }

    create-Steps :
        (value : T) (a : ℕ)
        → Inv (at outside)
        → q.memory a ≡ none
        → Steps (at outside) (call_enqueue value a)
    unfolding Steps step create ProducerFits is_allocated
    create-Steps value a v free =
        let fresh = free-elem (at outside) v a free in
        let out = not_in_list a (moved_node c) (q.head ∷ addresses v.rest) fresh in
        (
          _,
          refl,
          record {
            front = v.front;
            rest = v.rest;
            chain = Chain-write q.memory a (node value none) q.head v.front v.rest out.1 v.chain;
            apart = (fresh, v.apart);
            in_use =
                λ b. is_allocated-write q.memory a b (node value none) ∙ ground (arith, v.in_use b);
            null = v.null;
            producer_fits = (write_self q.memory a (node value none), v.producer_fits);
            consumer_fits = v.consumer_fits;
            in_order = simp (v.in_order, append_assoc, append-nil);
          },
        )

    load-Steps :
        (fails : Bool) (value : T) (n : ℕ)
        → Inv (at (created value n))
        → Steps (at (created value n)) (produce fails)
    unfolding Steps step enqueue_step ProducerFits
    load-Steps fails value n v = (
      _,
      refl,
      record {
        front = v.front;
        rest = v.rest;
        chain = v.chain;
        apart = v.apart;
        in_use = v.in_use;
        null = v.null;
        producer_fits = (v.producer_fits.0, v.producer_fits.1, v.producer_fits.1);
        consumer_fits = v.consumer_fits;
        in_order = v.in_order;
      },
    )

    publish-Steps :
        (fails : Bool) (n t : ℕ) → Inv (at (linked n t)) → Steps (at (linked n t)) (produce fails)
    unfolding Steps step enqueue_step ProducerFits
    publish-Steps fails n t v =
        let same : (q.tail == t) ≡ true = ground (arith, v.producer_fits.0) in
        (
          record (at outside) { queue = record q { tail = n } },
          rw same refl,
          record {
            front = v.front;
            rest = v.rest;
            chain = v.chain;
            apart = v.apart;
            in_use = v.in_use;
            null = v.null;
            producer_fits = v.producer_fits.1;
            consumer_fits = v.consumer_fits;
            in_order = v.in_order;
          },
        )

    -- The exchange of `next_` in one step, which is not refused.
    pub link-run :
        (value : T) (n t : ℕ) (v : Inv (at (loaded value n t)))
        → step (at (loaded value n t)) (produce false)
          ≡ some (record (at (linked n (last q.head v.rest))) {
            queue = record q {
              memory =
                  write q.memory (last q.head v.rest) (node (last_value v.front v.rest) (some n));
            };
          })
    unfolding step enqueue_step ProducerFits same
    link-run value n t v =
        rw (v.producer_fits.2, Chain-last q.memory q.head v.front v.rest v.chain, v.null) refl

    link-Steps :
        (value : T) (n t : ℕ)
        → Inv (at (loaded value n t))
        → Steps (at (loaded value n t)) (produce false)
    unfolding Steps step enqueue_step ProducerFits is_allocated same
    link-Steps value n t v =
        let end = last q.head v.rest in
        let out = not_in_list n (moved_node c) (q.head ∷ addresses v.rest) v.apart.0 in
        let new = node (last_value v.front v.rest) (some n) in
        let grown = owned-snoc (moved_node c) q.head n value v.rest in
        (
          record (at (linked n end)) { queue = record q { memory = write q.memory end new } },
          link-run value n t v,
          record {
            front = v.front;
            rest = v.rest ++ ((n, value) ∷ []);
            chain =
                Chain-snoc q.memory n value q.head v.front v.rest
                  (Apart-right (moved_node c) (q.head ∷ addresses v.rest) v.apart.1) out.1
                  v.producer_fits.0 v.chain;
            apart =
                rw grown
                  (Apart-snoc (moved_node c ++ (q.head ∷ addresses v.rest)) n v.apart.1 v.apart.0);
            in_use = λ b.
                is_allocated-write q.memory end b new
                ∙ rw (grown, elem_append b (moved_node c ++ (q.head ∷ addresses v.rest)) (n ∷ []))
                    (ground (
                      arith,
                      v.in_use b,
                      elem_append b (moved_node c) (q.head ∷ addresses v.rest),
                      last_in b q.head v.rest,
                    ));
            null = v.null;
            producer_fits = (v.producer_fits.1, sym (last_snoc q.head n value v.rest));
            consumer_fits = ConsumerFits-snoc q.head (n, value) v.rest c v.consumer_fits;
            in_order = rw (values_snoc n value v.rest) simp (v.in_order, append_assoc, append-nil);
          },
        )

    spurious-Steps :
        (value : T) (n t : ℕ)
        → Inv (at (loaded value n t))
        → Steps (at (loaded value n t)) (produce true)
    unfolding Steps step enqueue_step ProducerFits same
    spurious-Steps value n t v =
        let old = Chain-last q.memory q.head v.front v.rest v.chain in
        (
          record (at (created value n)) { queue = record q { null_tail = none } },
          rw (v.producer_fits.2, old, v.null) refl,
          record {
            front = v.front;
            rest = v.rest;
            chain = v.chain;
            apart = v.apart;
            in_use = v.in_use;
            null = refl;
            producer_fits = (v.producer_fits.0, v.producer_fits.1);
            consumer_fits = v.consumer_fits;
            in_order = v.in_order;
          },
        )

    pub produce-Steps : (fails : Bool) (p : Producer T) → Inv (at p) → Steps (at p) (produce fails)
    unfolding Steps step enqueue_step
    produce-Steps fails outside v = (at outside, refl, v)
    produce-Steps fails (created value n) v = load-Steps fails value n v
    produce-Steps true (loaded value n t) v = spurious-Steps value n t v
    produce-Steps false (loaded value n t) v = link-Steps value n t v
    produce-Steps fails (linked n t) v = publish-Steps fails n t v

    pub call_enqueue-Steps :
        (value : T) (a : ℕ) (p : Producer T)
        → Inv (at p)
        → p ≡ outside
        → q.memory a ≡ none
        → Steps (at p) (call_enqueue value a)
    call_enqueue-Steps value a outside v e free = create-Steps value a v free
    call_enqueue-Steps value a (created w n) v e free = cc
    call_enqueue-Steps value a (loaded w n t) v e free = cc
    call_enqueue-Steps value a (linked n t) v e free = cc
