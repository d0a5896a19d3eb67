-- ===== src/GroupCommit/Signals/Awake.antt =====
-- Who sleeps in a run of the writers in example-ping-pong-batch/main.cc.
use mathlib.Core.Path.{subst}
use mathlib.Core.Option.{some-injective}
use c_plus_plus_examples.Base.{
  ℕ, ◌+◌, ◌^◌, ◌<◌, ◌≡◌, ◌⊎◌, refl, sym, ap, ◌∙◌, true, false, some, List, ◌∷◌, arith, elem, length,
  Bool-cases, Option-cases, inl, inr,
}
use c_plus_plus_examples.WriteBatch.{WriteBatch}
use c_plus_plus_examples.WriteBatch.Format.{Update}
use c_plus_plus_examples.GroupCommit.{Db, init, step, Run}
use c_plus_plus_examples.GroupCommit.Group.{Holds}
use c_plus_plus_examples.GroupCommit.Invariant.{stage}
use c_plus_plus_examples.GroupCommit.Safety.{Run-Inv}
use c_plus_plus_examples.GroupCommit.Signals.{
  Sleepers, sleep, step_signals, WakefulRun, start, later,
}
use c_plus_plus_examples.GroupCommit.Signals.Wakes.{is_first, Rightly, after, step-Rightly}

-- The state of a step, and who sleeps then.
behind : ℕ → Sleepers → Db → Sleepers
behind i s u = record { db = u; asleep = sleep i (s.db.pc i) s.db.queue (u.pc i) s.asleep }

step_of :
    (i : ℕ) (s t : Sleepers)
    → step_signals i s ≡ some t
    → (u : Db) × (step i s.db ≡ some u) × (behind i s u ≡ t)
unfolding step_signals behind
step_of i s t e = elim (Option-cases (step i s.db)) [
  | inl failed ↦ absurd (ground (arith, failed, e))
  | inr (u, run) ↦
      let known : step_signals i s ≡ some (behind i s u) = rw run refl in
      (u, run, some-injective (behind i s u) t (sym known ∙ e))
]

-- A run with its sleepers is a run.
forget :
    {batch : ℕ → WriteBatch} {order : List ℕ} {s : Sleepers}
    → WakefulRun batch order s
    → Run batch order s.db
unfolding behind
forget start = Run.start
forget (later {order} {s} t i run e) =
    let (u, done, same) = step_of i s t e in
    Run.later t.db i (forget run) (done ∙ ap (λ (w : Sleepers). some w.db) same)

none_asleep : (batch : ℕ → WriteBatch) → Rightly (record { db = init batch; asleep = λ j. false })
unfolding Rightly
none_asleep batch j sleeps = absurd (ground (arith, sleeps))

module _ (us : ℕ → List Update) (small : (j : ℕ) → length (us j) + 1 < 2 ^ 31) where
  WakefulRun-Rightly :
      {batch : ℕ → WriteBatch} {order : List ℕ} {s : Sleepers}
      → ((j : ℕ) → Holds (batch j) (us j))
      → WakefulRun batch order s
      → Rightly s
  unfolding behind after
  WakefulRun-Rightly {batch} holds start = none_asleep batch
  WakefulRun-Rightly holds (later {order} {s} t i run e) =
      let (u, done, same) = step_of i s t e in
      subst Rightly same (
        step-Rightly us order s u i (Run-Inv us small holds (forget run))
          (WakefulRun-Rightly holds run) (s.db.pc i) refl done)

  -- In every run of writers whose batches are in the format and hold fewer than 2^31 - 1 updates, a writer
  -- that sleeps in Wait is in the queue, but not its first, and is not done: no signal is missed, and the
  -- writer that has to go on is never asleep.
  pub no_lost_wake_up :
      {batch : ℕ → WriteBatch} {order : List ℕ} {s : Sleepers}
      → ((j : ℕ) → Holds (batch j) (us j))
      → WakefulRun batch order s
      → (j : ℕ) → s.asleep j ≡ true
      → (s.db.done j ≡ false) × (elem j s.db.queue ≡ true) × (is_first j s.db.queue ≡ false)
  unfolding Rightly
  no_lost_wake_up {s = s} holds run j sleeps =
      let (at, undone, not_first) = WakefulRun-Rightly holds run j sleeps in
      let v = Run-Inv us small holds (forget run) in
      (undone, ground (arith, v.waits j, at, undone), not_first)

  -- In every such run the writer at the front of the queue is awake, and leads or waits to lead: the
  -- queue never stands still.
  front_is_awake :
      {batch : ℕ → WriteBatch} {order : List ℕ} {s : Sleepers}
      → ((j : ℕ) → Holds (batch j) (us j))
      → WakefulRun batch order s
      → (first : ℕ) (ws : List ℕ) → s.db.queue ≡ first ∷ ws
      → (s.asleep first ≡ false) × ((stage (s.db.pc first) ≡ 1) ⊎ (stage (s.db.pc first) ≡ 2))
  front_is_awake {s = s} holds run first ws front = (
    elim (Bool-cases (s.asleep first)) [
      | inl sleeps ↦ absurd (ground (arith, front, (no_lost_wake_up holds run first sleeps).2))
      | inr awake ↦ awake
    ],
    (Run-Inv us small holds (forget run)).members first (rw front ground arith),
  )
