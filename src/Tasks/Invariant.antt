-- ===== src/Tasks/Invariant.antt =====
-- What holds in every interleaving of the tasks of example-memory-ordered/main.cc.
use c_plus_plus_examples.Base.{
  ℕ, ◌+◌, ◌<◌, ◌≤◌, ◌≡◌, ◌≢◌, refl, sym, ap, ◌∙◌, Bool, true, false, List, [], ◌∷◌, ◌++◌, ◌==◌,
  arith, if◌then◌else◌, Bool-cases, inl, inr, elem, elem_append, ℕ_discrete,
}
use c_plus_plus_examples.Tasks.{
  Place, Tasks, on_all_tasks_completed, Run, total_tasks, moved, init, perform_from, perform_task,
  start, later, sleeps, has_printed, has_added, has_ended,
}
use c_plus_plus_examples.Tasks.Counts.{count, count_bound, count_same, count_one, none-count}

-- Whether a thread has added, or has added last and not reported yet, or printed.
abbrev pub added : Place → Bool
added sleeps = false
added has_printed = false
added (has_added prev) = true
added has_ended = true

abbrev pub reports : Place → Bool
reports sleeps = false
reports has_printed = false
reports (has_added prev) = prev + 1 == total_tasks
reports has_ended = false

abbrev pub printed : Place → Bool
printed sleeps = false
printed has_printed = true
printed (has_added prev) = true
printed has_ended = true

unfoldable pub counted : (Place → Bool) → (ℕ → Place) → ℕ
counted f place = count (λ j. f (place j)) total_tasks

pub record Inv (s : Tasks) : Type 0 where
  pub adds : s.completed_tasks ≡ counted added s.place
  pub one_report :
      s.calls + counted reports s.place ≡ (if s.completed_tasks == total_tasks then 1 else 0)
  pub prints : (j : ℕ) → printed (s.place j) ≡ true → elem j s.printed ≡ true

moved_self : (place : ℕ → Place) (i : ℕ) (p : Place) → moved place i p i ≡ p
moved_self place i p = let same : (i == i) ≡ true = ground arith in rw same refl

moved_other : (place : ℕ → Place) (i j : ℕ) (p : Place) → i ≢ j → moved place i p j ≡ place j
moved_other place i j p ne = let other : (i == j) ≡ false = ground (arith, ne) in rw other refl

-- A step that changes no count of a property.
counted-moved :
    (f : Place → Bool) (place : ℕ → Place) (i : ℕ) (p : Place)
    → f p ≡ f (place i)
    → counted f (moved place i p) ≡ counted f place
unfolding counted
counted-moved f place i p same =
    count_same (λ j. f (moved place i p j)) (λ j. f (place j)) total_tasks
      (λ j. elim (ℕ_discrete i j) [
        | yes e ↦ rw (sym e, moved_self place i p) same
        | no ne ↦ rw (moved_other place i j p ne) refl
      ])

-- One that adds thread `i`, and one that takes it out.
counted-moved_in :
    (f : Place → Bool) (place : ℕ → Place) (i : ℕ) (p : Place)
    → i < total_tasks
    → f (place i) ≡ false
    → f p ≡ true
    → counted f (moved place i p) ≡ counted f place + 1
unfolding counted
counted-moved_in f place i p inside off on =
    count_one (λ j. f (place j)) (λ j. f (moved place i p j)) i total_tasks inside
      (λ j ne. ap f (sym (moved_other place i j p ne))) off (rw (moved_self place i p) on)

counted-moved_out :
    (f : Place → Bool) (place : ℕ → Place) (i : ℕ) (p : Place)
    → i < total_tasks
    → f (place i) ≡ true
    → f p ≡ false
    → counted f place ≡ counted f (moved place i p) + 1
unfolding counted
counted-moved_out f place i p inside on off =
    count_one (λ j. f (moved place i p j)) (λ j. f (place j)) i total_tasks inside
      (λ j ne. ap f (moved_other place i j p ne)) (rw (moved_self place i p) off) on

counted_bound : (f : Place → Bool) (place : ℕ → Place) → counted f place ≤ total_tasks
unfolding counted
counted_bound f place = count_bound (λ j. f (place j)) total_tasks

-- Who has printed is in the list, whoever moves.
moved_prints :
    (s : Tasks) (l : List ℕ) (i : ℕ) (p : Place)
    → ((j : ℕ) → elem j s.printed ≡ true → elem j l ≡ true)
    → elem i l ≡ true
    → ((j : ℕ) → printed (s.place j) ≡ true → elem j s.printed ≡ true)
    → (j : ℕ) → printed (moved s.place i p j) ≡ true
    → elem j l ≡ true
moved_prints s l i p grows here before j h = elim (ℕ_discrete i j) [
  | yes e ↦ rw (sym e) here
  | no ne ↦ grows j (before j (rw (ap printed (sym (moved_other s.place i j p ne))) h))
]

completes-Inv : (i : ℕ) (s : Tasks) → s.place i ≡ sleeps → Inv s → Inv (perform_from sleeps i s)
unfolding perform_from
completes-Inv i s at v = record {
  adds = v.adds ∙ sym (counted-moved added s.place i has_printed (rw at refl));
  one_report = rw (counted-moved reports s.place i has_printed (rw at refl)) v.one_report;
  prints =
      moved_prints s (s.printed ++ (i ∷ [])) i has_printed
        (λ j h. ground (arith, h, elem_append j s.printed (i ∷ [])))
        (ground (arith, elem_append i s.printed (i ∷ []))) v.prints;
}

-- The thread that `fetch_add` takes to the total is the one that reports.
adds-report :
    (i : ℕ) (s : Tasks)
    → s.place i ≡ has_printed
    → i < total_tasks
    → s.completed_tasks < total_tasks
    → Inv s
    → s.calls + counted reports (moved s.place i (has_added s.completed_tasks))
      ≡ (if s.completed_tasks + 1 == total_tasks then 1 else 0)
adds-report i s at inside small v = elim (Bool-cases (s.completed_tasks + 1 == total_tasks)) [
  | inl last ↦
      let more =
        counted-moved_in reports s.place i (has_added s.completed_tasks) inside (rw at refl) last in
      ground (arith, last, more, v.one_report)
  | inr early ↦
      let same =
        counted-moved reports s.place i (has_added s.completed_tasks) (rw (at, early) refl) in
      ground (arith, early, same, v.one_report)
]

adds-Inv :
    (i : ℕ) (s : Tasks)
    → s.place i ≡ has_printed
    → i < total_tasks
    → Inv s
    → Inv (perform_from has_printed i s)
unfolding perform_from
adds-Inv i s at inside v =
    let place = moved s.place i (has_added s.completed_tasks) in
    let more : counted added place ≡ counted added s.place + 1 =
      counted-moved_in added s.place i (has_added s.completed_tasks) inside (rw at refl) refl in
    let small : s.completed_tasks < total_tasks =
      omega (arith, more, v.adds, counted_bound added place) in
    record {
      adds = omega (arith, more, v.adds);
      one_report = adds-report i s at inside small v;
      prints =
          moved_prints s s.printed i (has_added s.completed_tasks) (λ j h. h)
            (v.prints i (rw at refl)) v.prints;
    }

ends-Inv :
    (i prev : ℕ) (s : Tasks)
    → s.place i ≡ has_added prev
    → i < total_tasks
    → Inv s
    → Inv (perform_from (has_added prev) i s)
unfolding perform_from on_all_tasks_completed
ends-Inv i prev s at inside v =
    let adds = v.adds ∙ sym (counted-moved added s.place i has_ended (rw at refl)) in
    let prints =
      moved_prints s s.printed i has_ended (λ j h. h) (v.prints i (rw at refl)) v.prints in
    elim (Bool-cases (prev + 1 == total_tasks)) [
      | inl last ↦
          let less =
            counted-moved_out reports s.place i has_ended inside (rw (at, last) refl) refl in
          rw last (record {
            adds = adds;
            one_report = omega (arith, less, v.one_report);
            prints = prints;
          })
      | inr early ↦
          let same = counted-moved reports s.place i has_ended (rw (at, early) refl) in
          rw early (record { adds = adds; one_report = rw same v.one_report; prints = prints })
    ]

perform_from-Inv :
    (p : Place) (i : ℕ) (s : Tasks)
    → s.place i ≡ p
    → i < total_tasks
    → Inv s
    → Inv (perform_from p i s)
unfolding perform_from
perform_from-Inv sleeps i s at inside v = completes-Inv i s at v
perform_from-Inv has_printed i s at inside v = adds-Inv i s at inside v
perform_from-Inv (has_added prev) i s at inside v = ends-Inv i prev s at inside v
perform_from-Inv has_ended i s at inside v = v

pub Run-Inv : (s : Tasks) → Run s → Inv s
unfolding init perform_task counted
Run-Inv s start = record {
  adds = sym (none-count (λ j. false) total_tasks (λ j h. refl));
  one_report = omega (arith, none-count (λ j. false) total_tasks (λ j h. refl));
  prints = λ j h. ground (arith, h);
}
Run-Inv s (later r i run inside) = perform_from-Inv (r.place i) i r refl inside (Run-Inv r run)
