-- ===== src/LockFreeQueue/Tests.antt =====
-- Tests of the queue without locks, and the theorems at concrete inputs.
use c_plus_plus_examples.Base.{
  ℕ, ◌<◌, ◌-◌, true, false, Option, none, some, List, [], ◌∷◌, ◌++◌, ◌≡◌, ◌⊎◌, ◌↔◌, refl, arith,
}
use c_plus_plus_examples.Base.Chain.{◌>>=◌}
use c_plus_plus_examples.LockFreeQueue.{
  Queue, Consumer, System, Memory, Move, new_queue, new_system, create, enqueue_step, dequeue_step,
  step, empty, destroy, May, Reachable, start, go_on, call_enqueue, produce, consume, returns_false,
  Consumer.ready, Consumer.at_head, Consumer.moved,
}
use c_plus_plus_examples.LockFreeQueue.Invariant.{created_value}
use c_plus_plus_examples.LockFreeQueue.Fifo.{step_is_safe, received_in_order, returns_false_iff}
use c_plus_plus_examples.LockFreeQueue.Progress.{producer_left, consumer_left, calls_end}
use c_plus_plus_examples.LockFreeQueue.Destroy.{destroy_frees}

abbrev next : System ℕ → Move ℕ → System ℕ
next s m = elim (step s m) [ none ↦ s | some t ↦ t ]

-- A queue with its sentinel at 5.
abbrev empty_system : System ℕ
empty_system = new_system 0 5

-- `enqueue(7)`, where an exchange fails once.
abbrev called : System ℕ
called = next empty_system (call_enqueue 7 6)

abbrev loaded_once : System ℕ
loaded_once = next called (produce false)

abbrev refused : System ℕ
refused = next loaded_once (produce true)

abbrev loaded_twice : System ℕ
loaded_twice = next refused (produce false)

abbrev one_linked : System ℕ
one_linked = next loaded_twice (produce false)

abbrev one_sent : System ℕ
one_sent = next one_linked (produce false)

-- A call of `dequeue` that has loaded the head.
abbrev looking : System ℕ
looking = next one_sent consume

one_sent-Reachable : Reachable 0 one_sent
unfolding step May new_system
one_sent-Reachable =
    go_on one_linked one_sent (produce false)
      (go_on loaded_twice one_linked (produce false)
        (go_on refused loaded_twice (produce false)
          (go_on loaded_once refused (produce true)
            (go_on called loaded_once (produce false)
              (go_on empty_system called (call_enqueue 7 6) (start 5) (refl, refl) refl) tt refl)
            tt refl)
          tt refl)
        tt refl)
      tt refl

looking-Reachable : Reachable 0 looking
unfolding step May new_system
looking-Reachable = go_on one_sent looking consume one_sent-Reachable tt refl

-- `dequeue()` takes the value and deletes the first sentinel.
abbrev taken : System ℕ
taken = next (next (next (next looking consume) consume) consume) consume

dequeue_test : taken.received ≡ 7 ∷ []
unfolding step new_system
dequeue_test = refl

deleted_test : taken.queue.memory 5 ≡ none
unfolding step new_system
deleted_test = refl

empty_test : empty taken.queue ≡ some true
unfolding empty step new_system
empty_test = refl

-- Two threads call `enqueue`. The first links its node; the exchange of the second is refused and stores
-- the address of that node in `null_tail`, so that the second, with the same old tail, replaces it.
two_producers : Option (Queue ℕ)
two_producers = do
  let (q1, a1) = create (new_queue 0 5) 1 6
  let (q2, b1) = create q1 2 7
  (q3, a2) ← enqueue_step false q2 a1
  (q4, b2) ← enqueue_step false q3 b1
  (q5, a3) ← enqueue_step false q4 a2
  (q6, b3) ← enqueue_step false q5 b2
  (q7, b4) ← enqueue_step false q6 b3
  (q8, b5) ← enqueue_step false q7 b4
  (q9, b6) ← enqueue_step false q8 b5
  (q10, a4) ← enqueue_step false q9 a3
  some q10

lost_value_test : (two_producers >>= λ q. q.memory 5) ≡ some (record { value = 0; next = some 7 })
unfolding two_producers create enqueue_step new_queue
lost_value_test = refl

-- Two threads call `dequeue` on a queue with one value: both take it, and both delete the sentinel.
two_consumers : Option (Queue ℕ × Consumer ℕ)
two_consumers = do
  (q1, a1, r1) ← dequeue_step one_sent.queue ready
  (q2, b1, s1) ← dequeue_step q1 ready
  (q3, a2, r2) ← dequeue_step q2 a1
  (q4, b2, s2) ← dequeue_step q3 b1
  (q5, a3, r3) ← dequeue_step q4 a2
  (q6, b3, s3) ← dequeue_step q5 b2
  (q7, a4, r4) ← dequeue_step q6 a3
  (q8, b4, s4) ← dequeue_step q7 b3
  (q9, a5, r5) ← dequeue_step q8 a4
  some (q9, b4)

taken_twice_test : (two_consumers >>= λ r. some r.1) ≡ some (moved 5 7)
unfolding two_consumers dequeue_step step new_system
taken_twice_test = refl

deleted_twice_test : (two_consumers >>= λ r. dequeue_step r.0 r.1 >>= λ t. some t.2) ≡ none
unfolding two_consumers dequeue_step step new_system
deleted_twice_test = refl

step_is_safe_example : (t : System ℕ) × (step looking consume ≡ some t)
unfolding May
step_is_safe_example = step_is_safe 0 looking consume looking-Reachable tt

received_in_order_example : (waiting : List ℕ) × (looking.sent ≡ looking.received ++ waiting)
received_in_order_example = received_in_order 0 looking looking-Reachable

returns_false_iff_example :
    (dequeue_step looking.queue (at_head 5) ≡ some (looking.queue, ready, returns_false))
    ↔ (looking.sent ≡ looking.received ++ created_value looking.producer)
unfolding step new_system
returns_false_iff_example = returns_false_iff 0 looking 5 looking-Reachable refl

calls_end_example :
    ((t : System ℕ) × (step looking (produce false) ≡ some t)
      × (producer_left t.producer ≡ producer_left looking.producer - 1))
    × ((t : System ℕ) × (step looking consume ≡ some t)
        × ((looking.consumer ≡ ready)
            ⊎ (consumer_left t.consumer < consumer_left looking.consumer)))
calls_end_example = calls_end 0 looking looking-Reachable

destroy_frees_example :
    (m : Memory ℕ) × (destroy 2 one_sent.queue.memory (some one_sent.queue.head) ≡ some m)
    × ((a : ℕ) → m a ≡ none)
unfolding step new_system
destroy_frees_example = destroy_frees 0 one_sent 2 one_sent-Reachable refl refl (omega arith)
