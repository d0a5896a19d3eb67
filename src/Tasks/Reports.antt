-- ===== src/Tasks/Reports.antt =====
-- When the report of example-memory-ordered/main.cc that all tasks are done is made.
use c_plus_plus_examples.Base.{ℕ, ◌<◌, ◌≡◌, ap, true, arith, elem, refl}
use c_plus_plus_examples.Tasks.{
  Place, Tasks, Run, total_tasks, sleeps, has_printed, has_added, has_ended,
}
use c_plus_plus_examples.Tasks.Counts.{count, all-count, none-count, count-all}
use c_plus_plus_examples.Tasks.Invariant.{added, reports, printed, counted, Run-Inv}

-- In every interleaving, when all tasks have ended the report was made exactly once.
pub reported_once :
    (s : Tasks) → Run s → ((i : ℕ) → i < total_tasks → s.place i ≡ has_ended) → s.calls ≡ 1
unfolding counted
reported_once s run ended =
    let v = Run-Inv s run in
    let full = all-count (λ j. added (s.place j)) total_tasks (λ j h. ap added (ended j h)) in
    let silent =
      none-count (λ j. reports (s.place j)) total_tasks (λ j h. ap reports (ended j h)) in
    ground (arith, v.adds, full, silent, v.one_report)

added_printed : (p : Place) → added p ≡ true → printed p ≡ true
added_printed sleeps h = ground (arith, h)
added_printed has_printed h = refl
added_printed (has_added prev) h = refl
added_printed has_ended h = refl

-- In every interleaving, once the report was made it was made only once, and the completion of every
-- task has been printed.
pub reported_last :
    (s : Tasks) (i : ℕ)
    → Run s
    → 0 < s.calls
    → i < total_tasks
    → (s.calls ≡ 1) × (elem i s.printed ≡ true)
unfolding counted
reported_last s i run called inside =
    let v = Run-Inv s run in
    let full : count (λ j. added (s.place j)) total_tasks ≡ total_tasks =
      ground (arith, called, v.adds, v.one_report) in
    (
      ground (arith, called, v.one_report),
      v.prints i (
          added_printed (s.place i) (count-all (λ j. added (s.place j)) total_tasks full i inside)),
    )
