-- ===== src/LockFreeQueue/Progress.antt =====
-- How far the calls of `enqueue` and `dequeue` of example-lfq/main.cc are from their end.
use mathlib.Core.Path.{subst}
use mathlib.Core.Option.{some-injective}
use c_plus_plus_examples.Base.{
  ℕ, ◌<◌, ◌-◌, ◌⊎◌, inl, inr, true, false, Option, none, some, List, ◌≡◌, ◌≢◌, refl, sym, ap, ◌∙◌,
  arith, ◌==◌,
}
use c_plus_plus_examples.Base.Chain.{◌>>=◌}
use c_plus_plus_examples.LockFreeQueue.{
  Queue, Producer, Consumer, System, step, May, Reachable, dequeue_step, enqueue_step, produce,
  consume, Answer, returns_false, no_answer, Producer.outside, Producer.created, Producer.loaded,
  Producer.linked, Consumer.ready, Consumer.at_head, Consumer.at_first, Consumer.copied,
  Consumer.moved,
}
use c_plus_plus_examples.LockFreeQueue.Invariant.{ProducerFits, Inv}
use c_plus_plus_examples.LockFreeQueue.Enqueue.{link-run}
use c_plus_plus_examples.LockFreeQueue.Fifo.{Reachable-Inv, step_is_safe}

abbrev Result : Type 0 → Type 0
Result T = Queue T × Consumer T × Answer T

from_bind :
    {A B : Type 0} (o : Option A) (f : A → Option B) (P : B → Type 0)
    → ((a : A) (b : B) → o ≡ some a → f a ≡ some b → P b)
    → (b : B) → (o >>= f) ≡ some b
    → P b
from_bind none f P k b run = cc
from_bind (some a) f P k b run = k a b refl run

module _ {T : Type 0} where
  -- The accesses that are left of a call.
  abbrev pub producer_left : Producer T → ℕ
  producer_left outside = 0
  producer_left (created value n) = 3
  producer_left (loaded value n t) = 2
  producer_left (linked n t) = 1

  abbrev pub consumer_left : Consumer T → ℕ
  consumer_left ready = 0
  consumer_left (at_head h) = 4
  consumer_left (at_first h f) = 3
  consumer_left (copied h f out) = 2
  consumer_left (moved h out) = 1

  module _ (q : Queue T) (sent received : List T) where
    abbrev at : Producer T → Consumer T → System T
    at p c = record { queue = q; producer = p; consumer = c; sent = sent; received = received }

    -- One access of a call of `enqueue`.
    produce_goes_on :
        (c : Consumer T) (p : Producer T) (t : System T)
        → Inv (at p c)
        → step (at p c) (produce false) ≡ some t
        → producer_left t.producer ≡ producer_left p - 1
    unfolding step enqueue_step ProducerFits
    produce_goes_on c outside t v run =
        ap (λ u. producer_left u.producer) (sym (some-injective _ _ run))
    produce_goes_on c (created value n) t v run =
        subst (λ u. producer_left u.producer ≡ 2) (some-injective _ _ run) refl
    produce_goes_on c (loaded value n a) t v run =
        subst (λ u. producer_left u.producer ≡ 1)
          (some-injective _ _ (sym (link-run q c sent received value n a v) ∙ run)) refl
    produce_goes_on c (linked n a) t v run =
        let same : (q.tail == a) ≡ true = ground (arith, v.producer_fits.0) in
        let published : step (at (linked n a) c) (produce false)
            ≡ some (record (at outside c) { queue = record q { tail = n } }) =
          rw same refl in
        subst (λ u. producer_left u.producer ≡ 0) (some-injective _ _ (sym published ∙ run)) refl

  look_goes_on :
      (q : Queue T) (h : ℕ) (next : Option ℕ) (r : Result T)
      → (elim next [
        | none ↦ some (q, ready, returns_false)
        | some f ↦ some (q, at_first h f, no_answer)
      ])
        ≡ some r
      → consumer_left r.1 < 4
  look_goes_on q h none r run =
      subst (λ u. consumer_left u.1 < 4) (some-injective _ _ run) (omega arith)
  look_goes_on q h (some f) r run =
      subst (λ u. consumer_left u.1 < 4) (some-injective _ _ run) (omega arith)

  -- One access of a call of `dequeue`.
  consume_goes_on :
      (q : Queue T) (c : Consumer T) (r : Result T)
      → c ≢ ready
      → dequeue_step q c ≡ some r
      → consumer_left r.1 < consumer_left c
  unfolding dequeue_step
  consume_goes_on q ready r inside run = absurd (inside refl)
  consume_goes_on q (at_head h) r inside run =
      from_bind (q.memory h) _ (λ u. consumer_left u.1 < 4)
        (λ node u _. look_goes_on q h node.next u) r run
  consume_goes_on q (at_first h f) r inside run =
      from_bind (q.memory f) _ (λ u. consumer_left u.1 < 3)
        (λ node u _ e. subst (λ w. consumer_left w.1 < 3) (some-injective _ _ e) (omega arith)) r
        run
  consume_goes_on q (copied h f out) r inside run =
      subst (λ u. consumer_left u.1 < 2) (some-injective _ _ run) (ground arith)
  consume_goes_on q (moved h out) r inside run =
      from_bind (q.memory h) _ (λ u. consumer_left u.1 < 1)
        (λ node u _ e. subst (λ w. consumer_left w.1 < 1) (some-injective _ _ e) (omega arith)) r
        run

  ready-cases : (c : Consumer T) → (c ≡ ready) ⊎ (c ≢ ready)
  ready-cases ready = inl refl
  ready-cases (at_head h) = inr (λ e. cc)
  ready-cases (at_first h f) = inr (λ e. cc)
  ready-cases (copied h f out) = inr (λ e. cc)
  ready-cases (moved h out) = inr (λ e. cc)

  -- Whatever the other thread has done, the next access of a call succeeds and brings it nearer to its
  -- end: `enqueue`, where no exchange fails without reason, has one access less left of three behind
  -- `new`, and `dequeue`, once begun, has fewer than before.
  pub calls_end :
      (default : T) (s : System T)
      → Reachable default s
      → ((t : System T) × (step s (produce false) ≡ some t)
          × (producer_left t.producer ≡ producer_left s.producer - 1))
        × ((t : System T) × (step s consume ≡ some t)
            × ((s.consumer ≡ ready) ⊎ (consumer_left t.consumer < consumer_left s.consumer)))
  unfolding step May
  calls_end default s r =
      let (t, run) = step_is_safe default s (produce false) r tt in
      let (t', run') = step_is_safe default s consume r tt in
      (
        (
          t,
          run,
          produce_goes_on s.queue s.sent s.received s.consumer s.producer t
              (Reachable-Inv default s r) run,
        ),
        (
          t',
          run',
          elim (ready-cases s.consumer) [
            | inl e ↦ inl e
            | inr inside ↦ inr (
                from_bind (dequeue_step s.queue s.consumer) _
                  (λ u. consumer_left u.consumer < consumer_left s.consumer)
                  (λ found u there e.
                    subst (λ w. consumer_left w.consumer < consumer_left s.consumer)
                      (some-injective _ _ e)
                      (consume_goes_on s.queue s.consumer found inside there))
                  t' run')
          ],
        ),
      )
