-- ===== src/Tasks.antt =====
-- example-memory-ordered/main.cc: the threads that each perform a task and count it, of which the last
-- one reports that all are done. `completed_tasks` is atomic, so `fetch_add` is one step of its own.
pub mod Counts
pub mod Invariant
pub mod Reports
mod Tests
use c_plus_plus_examples.Base.{
  ℕ, ◌+◌, ◌<◌, ◌≡◌, Bool, true, false, List, [], ◌∷◌, ◌++◌, ◌==◌, if◌then◌else◌,
}

-- `TOTAL_TASKS`
abbrev pub total_tasks : ℕ
total_tasks = 5

-- The places of `perform_task`, with its `prev`.
pub data Place : Type 0 where
  sleeps has_printed has_ended : Place
  has_added : ℕ → Place

-- The counter, where each thread is, the tasks whose completion was printed, and the calls of
-- `on_all_tasks_completed`.
pub record Tasks : Type 0 where
  pub completed_tasks : ℕ
  pub place : ℕ → Place
  pub printed : List ℕ
  pub calls : ℕ

unfoldable pub init : Tasks
init = record { completed_tasks = 0; place = λ i. sleeps; printed = []; calls = 0 }

abbrev pub moved : (ℕ → Place) → ℕ → Place → ℕ → Place
moved place i p j = if i == j then p else place j

unfoldable pub on_all_tasks_completed : Tasks → Tasks
on_all_tasks_completed s = record s { calls = s.calls + 1 }

-- What `perform_task(i)` does next, by its place.
pub perform_from : Place → ℕ → Tasks → Tasks
perform_from sleeps i s = record s {
  printed = s.printed ++ (i ∷ []);
  place = moved s.place i has_printed;
}
perform_from has_printed i s = record s {
  completed_tasks = s.completed_tasks + 1;
  place = moved s.place i (has_added s.completed_tasks);
}
perform_from (has_added prev) i s =
    let ended = record s { place = moved s.place i has_ended } in
    if prev + 1 == total_tasks then on_all_tasks_completed ended else ended
perform_from has_ended i s = s

unfoldable pub perform_task : ℕ → Tasks → Tasks
unfolding perform_from on_all_tasks_completed
perform_task i s = perform_from (s.place i) i s

-- The runs of the threads, whose steps come in any order.
pub data Run : Tasks → Type 0 where
  start : Run init
  later : (s : Tasks) (i : ℕ) → Run s → i < total_tasks → Run (perform_task i s)
