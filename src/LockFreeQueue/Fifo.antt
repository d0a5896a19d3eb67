-- ===== src/LockFreeQueue/Fifo.antt =====
-- The queue of example-lfq/main.cc with one thread at either end.
use mathlib.Core.Path.{subst}
use mathlib.Core.Option.{some-injective}
use c_plus_plus_examples.Base.{
  ℕ, Option, some, List, ◌∷◌, ◌++◌, ◌≡◌, ◌≢◌, refl, sym, ap, ◌∙◌, arith, ◌↔◌, length, length-append,
}
use c_plus_plus_examples.LockFreeQueue.{
  Queue, Consumer, System, step, Move, May, Reachable, dequeue_step, start, go_on, call_enqueue,
  produce, consume, Answer, returns_false, no_answer, Consumer.ready, Consumer.at_head,
  Consumer.at_first,
}
use c_plus_plus_examples.LockFreeQueue.Nodes.{values, alone, followed, Chain-Front}
use c_plus_plus_examples.LockFreeQueue.Invariant.{
  created_value, moved_value, ConsumerFits, Inv, Steps, new_system-Inv,
}
use c_plus_plus_examples.LockFreeQueue.Enqueue.{call_enqueue-Steps, produce-Steps}
use c_plus_plus_examples.LockFreeQueue.Dequeue.{consume-Steps}

module _ {T : Type 0} where
  step-Steps : (s : System T) (m : Move T) → Inv s → May s m → Steps s m
  unfolding May
  step-Steps s (call_enqueue value a) v may =
      call_enqueue-Steps s.queue s.consumer s.sent s.received value a s.producer v may.0 may.1
  step-Steps s (produce fails) v may =
      produce-Steps s.queue s.consumer s.sent s.received fails s.producer v
  step-Steps s consume v may = consume-Steps s.queue s.producer s.sent s.received s.consumer v

  pub Reachable-Inv : (default : T) (s : System T) → Reachable default s → Inv s
  unfolding Steps
  Reachable-Inv default s (start a) = new_system-Inv default a
  Reachable-Inv default s (go_on r t m before may run) =
      let (t', run', v) = step-Steps r m (Reachable-Inv default r before) may in
      subst Inv (some-injective _ _ (sym run' ∙ run)) v

  -- In every interleaving of a thread that calls `enqueue` and one that calls `dequeue`, also where
  -- exchanges fail without reason and addresses are used again, no access is to a deleted node.
  pub step_is_safe :
      (default : T) (s : System T) (m : Move T)
      → Reachable default s
      → May s m
      → (t : System T) × (step s m ≡ some t)
  unfolding Steps
  step_is_safe default s m r may =
      let (t, run, v) = step-Steps s m (Reachable-Inv default s r) may in (t, run)

  -- The values that `dequeue` has returned are a first part of those that `enqueue` was called with, in
  -- the order of the calls.
  pub received_in_order :
      (default : T) (s : System T)
      → Reachable default s
      → (waiting : List T) × (s.sent ≡ s.received ++ waiting)
  received_in_order default s r =
      let v = Reachable-Inv default s r in
      (moved_value s.consumer ++ (values v.rest ++ created_value s.producer), v.in_order)

  other_answer :
      {q q' : Queue T} {c c' : Consumer T}
      → ◌≢◌ {A = Option (Queue T × Consumer T × Answer T)}
          (some (q, c, no_answer))
          (some (q', c', returns_false))
  other_answer e = cc

  -- A call of `dequeue` that looks behind the head returns false exactly when every value was received,
  -- but one that `enqueue` has not linked yet.
  pub returns_false_iff :
      (default : T) (s : System T) (h : ℕ)
      → Reachable default s
      → s.consumer ≡ at_head h
      → (dequeue_step s.queue (at_head h) ≡ some (s.queue, ready, returns_false))
        ↔ (s.sent ≡ s.received ++ created_value s.producer)
  unfolding dequeue_step ConsumerFits
  returns_false_iff default s h r e =
      let v = Reachable-Inv default s r in
      let at : h ≡ s.queue.head = subst (ConsumerFits s.queue.head v.rest) e v.consumer_fits in
      let order : s.sent ≡ s.received ++ (values v.rest ++ created_value s.producer) =
        subst
          (λ c.
            s.sent ≡ s.received ++ (moved_value c ++ (values v.rest ++ created_value s.producer)))
          e v.in_order in
      elim (Chain-Front s.queue.memory s.queue.head v.front v.rest v.chain) [
        | alone empty first ↦ (
          (λ run.
              subst (λ l. s.sent ≡ s.received ++ (values l ++ created_value s.producer)) empty
                order),
          (λ all. rw (at, first) refl),
        )
        | followed f w more full first ↦ (
          (λ run.
              let found : dequeue_step s.queue (at_head h)
                  ≡ some (s.queue, at_first h f, no_answer) =
                rw (ap s.queue.memory at ∙ first) refl in
              absurd (other_answer (sym found ∙ run))),
          (λ all.
              let o =
                subst (λ l. s.sent ≡ s.received ++ (values l ++ created_value s.producer)) full
                  order in
              absurd (
                omega (
                  arith,
                  ap length all,
                  ap length o,
                  length-append s.received (created_value s.producer),
                  length-append s.received (w ∷ (values more ++ created_value s.producer)),
                  length-append (values more) (created_value s.producer),
                ))),
        )
      ]
