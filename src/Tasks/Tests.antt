-- ===== src/Tasks/Tests.antt =====
-- Runs of the tasks of example-memory-ordered/main.cc, and the theorems at a concrete run.
use c_plus_plus_examples.Base.{
  ℕ, zero, suc, ◌<◌, ◌≡◌, refl, true, List, [], ◌∷◌, arith, elem, Bool, ◌&&◌, ltb,
}
use c_plus_plus_examples.Tasks.{
  Tasks, Run, total_tasks, init, perform_task, start, later, has_ended,
}
use c_plus_plus_examples.Tasks.Reports.{reported_once, reported_last}

-- A run by the threads whose turn it is, the last one first.
abbrev after : List ℕ → Tasks
after [] = init
after (i ∷ turns) = perform_task i (after turns)

abbrev inside : List ℕ → Bool
inside [] = true
inside (i ∷ turns) = ltb i total_tasks && inside turns

after-Run : (turns : List ℕ) → inside turns ≡ true → Run (after turns)
after-Run [] h = start
after-Run (i ∷ turns) h =
    later (after turns) i (after-Run turns (ground (arith, h))) (ground (arith, h))

-- All print, then all add, then all end.
abbrev turns : List ℕ
turns = 4 ∷ 2 ∷ 0 ∷ 1 ∷ 3 ∷ 0 ∷ 1 ∷ 2 ∷ 3 ∷ 4 ∷ 3 ∷ 1 ∷ 4 ∷ 0 ∷ 2 ∷ []

calls_test : (after turns).calls ≡ 1
unfolding perform_task init
calls_test = refl

all_ended : (i : ℕ) → i < total_tasks → (after turns).place i ≡ has_ended
unfolding perform_task init
all_ended zero h = refl
all_ended (suc zero) h = refl
all_ended (suc (suc zero)) h = refl
all_ended (suc (suc (suc zero))) h = refl
all_ended (suc (suc (suc (suc zero)))) h = refl
all_ended (suc (suc (suc (suc (suc i))))) h = absurd (omega arith)

reported_once_example : (after turns).calls ≡ 1
reported_once_example = reported_once (after turns) (after-Run turns refl) all_ended

reported_last_example : ((after turns).calls ≡ 1) × (elem 3 (after turns).printed ≡ true)
unfolding perform_task init
reported_last_example =
    reported_last (after turns) 3 (after-Run turns refl) (omega arith) (omega arith)
