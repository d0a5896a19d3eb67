-- ===== src/Publication/Safety.antt =====
-- The accesses and the assertions of the two threads of example-memory-ordered/main.cc.
use mathlib.Core.Path.{subst}
use mathlib.Core.Option.{some-injective}
use c_plus_plus_examples.Base.{
  ℕ, zero, suc, ◌<◌, ◌≤◌, ◌≡◌, ◌≢◌, refl, false, true, sym, ap, ◌∙◌, some, [], ◌∷◌, length, arith,
  ◌==◌,
}
use c_plus_plus_examples.Publication.{
  Memory, Producer, Place, Consumer, System, Move, May, Reachable, hello, produce, consume, step,
  consume_store, new_system, start, go_on, string_at, data_is, begins, has_string, has_data,
  has_stored, polls, has_loaded, has_compared, has_ended, produces, consumes,
}

-- What the producer has done by the time it has come somewhere.
unfoldable memory_of : Producer → Memory
memory_of begins = record { log = []; stores = [] }
memory_of (has_string p) = record { log = string_at p hello ∷ []; stores = [] }
memory_of (has_data p) = record { log = string_at p hello ∷ data_is 42 ∷ []; stores = [] }
memory_of (has_stored p) = record {
  log = string_at p hello ∷ data_is 42 ∷ [];
  stores = (p, 2) ∷ [];
}

-- Its address is not null.
Placed : Producer → Type 0
Placed begins = Unit {0}
Placed (has_string p) = 0 < p
Placed (has_data p) = 0 < p
Placed (has_stored p) = 0 < p

-- Where the consumer can be, with its view: past the first load only when the store is done.
Fits : Producer → Place → ℕ → Type 0
Fits producer polls view = view ≡ 0
Fits producer (has_loaded p) view = (producer ≡ has_stored p) × (view ≡ 2)
Fits producer has_compared view = (p : ℕ) × (producer ≡ has_stored p) × (view ≡ 2)
Fits producer has_ended view = Unit {0}

record Inv (s : System) : Type 0 where
  memory_is : s.memory ≡ memory_of s.producer
  placed : Placed s.producer
  fits : Fits s.producer s.consumer.place s.consumer.view

-- One thing that the producer does.
record Produces (producer : Producer) (p : ℕ) : Type 0 where
  next : Producer
  run : produce (memory_of producer) producer p ≡ (memory_of next, next)
  placed : Placed next
  fits : (place : Place) (view : ℕ) → Fits producer place view → Fits next place view

-- As long as the store is not done, the consumer polls.
Fits-before :
    (producer next : Producer)
    → ((p : ℕ) → producer ≢ has_stored p)
    → (place : Place) (view : ℕ) → Fits producer place view
    → Fits next place view
unfolding Fits
Fits-before producer next before polls view f = f
Fits-before producer next before (has_loaded p) view f = absurd (before p f.0)
Fits-before producer next before has_compared view f = absurd (before f.0 f.1)
Fits-before producer next before has_ended view f = tt

produce-Produces : (producer : Producer) (p : ℕ) → Placed producer → 0 < p → Produces producer p
unfolding produce memory_of Placed
produce-Produces begins p placed h = record {
  next = has_string p;
  run = refl;
  placed = h;
  fits = Fits-before begins (has_string p) (λ q e. cc);
}
produce-Produces (has_string q) p placed h = record {
  next = has_data q;
  run = refl;
  placed = placed;
  fits = Fits-before (has_string q) (has_data q) (λ r e. cc);
}
produce-Produces (has_data q) p placed h = record {
  next = has_stored q;
  run = refl;
  placed = placed;
  fits = Fits-before (has_data q) (has_stored q) (λ r e. cc);
}
produce-Produces (has_stored q) p placed h = record {
  next = has_stored q;
  run = refl;
  placed = placed;
  fits = λ place view f. f;
}

record Consumes (producer : Producer) (c : Consumer) (k : ℕ) : Type 0 where
  next : Consumer
  run : consume (memory_of producer) c k ≡ some next
  fits : Fits producer next.place next.view

at : Place → ℕ → ℕ → Consumer
at place seen view = record { place = place; seen = seen; view = view }

-- A load gives the null pointer, or the address that was stored with all that was written before.
null_first :
    (m : Memory) (seen k : ℕ) → m.stores ≡ [] → consume m (at polls seen 0) k ≡ some (at polls k 0)
unfolding consume at
null_first m seen zero none_yet = refl
null_first m seen (suc k) none_yet = rw none_yet refl

poll_early :
    (producer : Producer) (seen k : ℕ)
    → (memory_of producer).stores ≡ []
    → Consumes producer (at polls seen 0) k
unfolding at Fits
poll_early producer seen k none_yet = record {
  next = at polls k 0;
  run = null_first (memory_of producer) seen k none_yet;
  fits = refl;
}

poll_stored : (p seen k : ℕ) → 0 < p → k ≤ 1 → Consumes (has_stored p) (at polls seen 0) k
unfolding consume at Fits memory_of
poll_stored p seen zero placed h = record { next = at polls 0 0; run = refl; fits = refl }
poll_stored p seen (suc zero) placed h =
    let there : (p == 0) ≡ false = ground arith in
    record { next = at (has_loaded p) 1 2; run = rw there refl; fits = (refl, refl) }
poll_stored p seen (suc (suc k)) placed h = absurd (omega arith)

compare_stored : (p seen k : ℕ) → Consumes (has_stored p) (at (has_loaded p) seen 2) k
unfolding consume at Fits memory_of
compare_stored p seen k =
    let same : (p == p) ≡ true = ground arith in
    record { next = at has_compared seen 2; run = rw same refl; fits = (p, refl, refl) }

end_stored : (p seen k : ℕ) → Consumes (has_stored p) (at has_compared seen 2) k
unfolding consume at Fits memory_of
end_stored p seen k = record { next = at has_ended seen 2; run = refl; fits = tt }

stays_ended : (producer : Producer) (seen view k : ℕ) → Consumes producer (at has_ended seen view) k
unfolding consume at Fits
stays_ended producer seen view k = record { next = at has_ended seen view; run = refl; fits = tt }

consume-Consumes :
    (producer : Producer) (place : Place) (seen view k : ℕ)
    → Placed producer
    → Fits producer place view
    → k ≤ length (memory_of producer).stores
    → Consumes producer (at place seen view) k
unfolding Fits Placed memory_of
consume-Consumes begins polls seen view k placed f h = rw f (poll_early begins seen k refl)
consume-Consumes (has_string p) polls seen view k placed f h =
    rw f (poll_early (has_string p) seen k refl)
consume-Consumes (has_data p) polls seen view k placed f h =
    rw f (poll_early (has_data p) seen k refl)
consume-Consumes (has_stored p) polls seen view k placed f h = rw f (poll_stored p seen k placed h)
consume-Consumes producer (has_loaded p) seen view k placed f h =
    rw (f.0, f.1) (compare_stored p seen k)
consume-Consumes producer has_compared seen view k placed f h =
    rw (f.1, f.2) (end_stored f.0 seen k)
consume-Consumes producer has_ended seen view k placed f h = stays_ended producer seen view k

Steps : System → Move → Type 0
Steps s m = (t : System) × (step s m ≡ some t) × Inv t

step-Steps : (s : System) (m : Move) → Inv s → May s m → Steps s m
unfolding May Steps step at
step-Steps s (produces p) v may =
    let next = produce-Produces s.producer p v.placed may in
    (
      record s { memory = memory_of next.next; producer = next.next },
      rw (v.memory_is, next.run) refl,
      record {
        memory_is = refl;
        placed = next.placed;
        fits = next.fits s.consumer.place s.consumer.view v.fits;
      },
    )
step-Steps s (consumes k) v may =
    let bound : k ≤ length (memory_of s.producer).stores = rw (sym v.memory_is) may.1 in
    let next =
      consume-Consumes s.producer s.consumer.place s.consumer.seen s.consumer.view k v.placed v.fits
        bound in
    (
      record s { consumer = next.next },
      rw (v.memory_is, next.run) refl,
      record { memory_is = v.memory_is; placed = v.placed; fits = next.fits },
    )

Reachable-Inv : (s : System) → Reachable s → Inv s
unfolding Steps new_system memory_of Placed Fits
Reachable-Inv s start = record { memory_is = refl; placed = tt; fits = refl }
Reachable-Inv s (go_on r t m before may run) =
    let (t', run', v) = step-Steps r m (Reachable-Inv r before) may in
    subst Inv (some-injective _ _ (sym run' ∙ run)) v

-- In every interleaving of `producer` and `consumer`, whichever store a load of `ptr` reads, no access
-- to the string or to `data` is a race, and no assertion fails.
pub no_race : (s : System) (m : Move) → Reachable s → May s m → (t : System) × (step s m ≡ some t)
unfolding Steps
no_race s m r may = let (t, run, v) = step-Steps s m (Reachable-Inv s r) may in (t, run)

all_of_it :
    (p seen : ℕ)
    → 0 < p
    → consume_store (memory_of (has_stored p)) (at polls seen 0) 1 ≡ some (at has_ended 1 2)
unfolding consume_store memory_of at
all_of_it p seen placed =
    let there : (p == 0) ≡ false = ground arith in
    let same : (p == p) ≡ true = ground arith in rw there (rw same refl)

-- Once `producer` has stored its pointer, a load of `ptr` that reads that store takes `consumer` through
-- both assertions to its end.
pub consumer_ends :
    (s : System) (p : ℕ)
    → Reachable s
    → s.producer ≡ has_stored p
    → s.consumer.place ≡ polls
    → consume_store s.memory s.consumer 1 ≡ some (record { place = has_ended; seen = 1; view = 2 })
unfolding at Fits Placed
consumer_ends s p r stored waits =
    let v = Reachable-Inv s r in
    let placed : 0 < p = subst Placed stored v.placed in
    let view : s.consumer.view ≡ 0 =
      subst (λ place. Fits s.producer place s.consumer.view) waits v.fits in
    let polling : s.consumer ≡ at polls s.consumer.seen 0 =
      ap (λ place. at place s.consumer.seen s.consumer.view) waits
      ∙ ap (at polls s.consumer.seen) view in
    rw (v.memory_is, stored, polling) (all_of_it p s.consumer.seen placed)
