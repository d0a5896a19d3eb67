-- ===== src/GroupCommit/Signals.antt =====
-- The condition variables of the writers in example-ping-pong-batch/main.cc: who sleeps in `Wait`, and
-- whom the leader wakes.
pub mod Wakes
pub mod Awake
use c_plus_plus_examples.Base.{
  ℕ, Bool, true, false, Option, some, List, [], ◌∷◌, ◌++◌, ◌==◌, if◌then◌else◌, ◌≡◌,
}
use c_plus_plus_examples.Base.Chain.{◌>>=◌}
use c_plus_plus_examples.WriteBatch.{WriteBatch}
use c_plus_plus_examples.GroupCommit.{
  Db, Pc, idle, waiting, writing, written, returned, init, update, step, arrival,
}

-- A call of `Wait` has put writer `j` to sleep when `asleep j`.
pub record Sleepers : Type 0 where
  pub db : Db
  pub asleep : ℕ → Bool

-- `writers_.front()->cv_.Signal()`, if there is one.
unfoldable pub signal_front : List ℕ → (ℕ → Bool) → ℕ → Bool
signal_front [] asleep = asleep
signal_front (first ∷ ws) asleep = update asleep first false

-- The signals of the loop that takes the group off the queue, and the one behind it.
unfoldable pub signals : ℕ → ℕ → List ℕ → (ℕ → Bool) → ℕ → Bool
unfolding signal_front
signals i last [] asleep = asleep
signals i last (ready ∷ ws) asleep =
    let asleep' = if ready == i then asleep else update asleep ready false in
    let rest = signals i last ws asleep' in if ready == last then signal_front ws asleep' else rest

abbrev pub is_waiting : Pc → Bool
is_waiting waiting = true
is_waiting _ = false

-- Who sleeps behind a step of writer `i`, which takes it from `p` in a state with a queue to `p'`.
unfoldable pub sleep : ℕ → Pc → List ℕ → Pc → (ℕ → Bool) → ℕ → Bool
unfolding signals
sleep i idle queue p' asleep = update asleep i (is_waiting p')
sleep i waiting queue p' asleep = update asleep i (is_waiting p')
sleep i (writing last) queue p' asleep = asleep
sleep i (written last) queue p' asleep = signals i last queue asleep
sleep i returned queue p' asleep = asleep

unfoldable pub step_signals : ℕ → Sleepers → Option Sleepers
unfolding sleep
step_signals i s = do
  t ← step i s.db
  some (record { db = t; asleep = sleep i (s.db.pc i) s.db.queue (t.pc i) s.asleep })

-- The runs of any number of writers. A writer that sleeps may also wake up without a signal.
pub data WakefulRun (batch : ℕ → WriteBatch) : List ℕ → Sleepers → Type 0 where
  start : WakefulRun batch [] (record { db = init batch; asleep = λ j. false })
  later :
      {order : List ℕ} {s : Sleepers} (t : Sleepers) (i : ℕ)
      → WakefulRun batch order s
      → step_signals i s ≡ some t
      → WakefulRun batch (order ++ arrival (s.db.pc i) i) t
