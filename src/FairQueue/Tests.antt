-- ===== src/FairQueue/Tests.antt =====
-- A run of example-fq/fair_queue.cc, and its theorems at inputs.
use c_plus_plus_examples.Base.{
  ℕ, ◌≡◌, refl, true, false, none, Option, List, some, [], ◌∷◌, arith, ℕ_discrete,
}
use c_plus_plus_examples.Base.Chain.{◌>>=◌}
use c_plus_plus_examples.Base.Map.{find, erase, emplace}
use c_plus_plus_examples.FairQueue.Functional.{test_fair_queue_functional}
use c_plus_plus_examples.FairQueue.{
  Request, FairQueue, init, push, pop, client_push, client_pop, update, destroy,
}
use c_plus_plus_examples.FairQueue.Rotation.{enqueue}
use c_plus_plus_examples.FairQueue.Refines.{IsValid, turns, push_refines}

abbrev request : ℕ → ℕ → Request
request id client = record { request_id = id; client_id = client }

-- Two requests of client 7, and one of client 8.
abbrev busy : FairQueue
busy = record {
  clients = (8, 1) ∷ (7, 0) ∷ [];
  queues = 0 ∷ 1 ∷ [];
  heap =
      update
        (update (λ _. record { client_id = 0; pendings = [] }) 0
          (record { client_id = 7; pendings = request 1 7 ∷ request 2 7 ∷ [] }))
        1 (record { client_id = 8; pendings = request 3 8 ∷ [] });
  next = 2;
}

-- No assertion of the source's own test fails where popped elements stay readable; else it is undefined.
functional_test : test_fair_queue_functional true ≡ some tt
unfolding test_fair_queue_functional push pop init find erase emplace ℕ_discrete client_push
    client_pop
functional_test = refl

undefined_test : test_fair_queue_functional false ≡ none
unfolding test_fair_queue_functional push pop init find erase emplace ℕ_discrete client_push
    client_pop
undefined_test = refl

-- The queue of a client whose requests are all served is never deleted.
abbrev deleted : Option (List ℕ)
deleted = do one ← push init (request 1 7); (empty, served) ← pop true one; some (destroy empty).1

leak_test : deleted ≡ some []
unfolding push pop init destroy find erase emplace ℕ_discrete client_push client_pop
leak_test = refl

turns_run : turns busy ≡ (7, request 1 7 ∷ request 2 7 ∷ []) ∷ (8, request 3 8 ∷ []) ∷ []
turns_run = refl

busy-IsValid : IsValid busy
unfolding find
busy-IsValid = record {
  apart = (refl, (refl, tt));
  found = λ c. ground arith;
  allocated = omega arith;
  waiting = (λ e. cc, (λ e. cc, tt));
}

push_refines_example :
    (s' : FairQueue) × (push busy (request 4 9) ≡ some s')
    × (turns s' ≡ enqueue (request 4 9) (turns busy))
    × IsValid s'
push_refines_example = push_refines busy (request 4 9) busy-IsValid
