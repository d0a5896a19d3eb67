-- ===== src/GroupCommit.antt =====
-- example-ping-pong-batch/main.cc: `DBImpl`, where writers queue up and the first one logs the batches
-- of those behind it with its own. A writer is one call of `Write`, with a batch of its own; each
-- function here is what one writer does while it holds the mutex, or with the mutex released, the
-- write to the log. `none` is `front()` or `pop_front()` on an empty queue.
pub mod Queue
pub mod Group
pub mod Invariant
pub mod Turn
pub mod Steps
pub mod Safety
pub mod Signals
mod Tests
use c_plus_plus_examples.Base.{
  ℕ, ◌^◌, Bool, true, false, not, Option, none, some, List, [], ◌∷◌, ◌++◌, ltb, leb, ◌==◌, ◌&&◌,
  if◌then◌else◌, ◌≡◌,
}
use c_plus_plus_examples.Base.Chain.{◌>>=◌}
use c_plus_plus_examples.WriteBatch
use c_plus_plus_examples.WriteBatch.{WriteBatch}

-- Where a writer is: not come yet, waiting on its condition variable, the leader before and after
-- its write to the log, with `last_writer`, and back.
pub data Pc : Type 0 where
  idle waiting returned : Pc
  writing written : ℕ → Pc

-- `writers_`, and for each writer its place, `batch_` and `done_`; the status is OK throughout.
pub record Db : Type 0 where
  pub queue : List ℕ
  pub pc : ℕ → Pc
  pub batch : ℕ → WriteBatch
  pub done : ℕ → Bool
  pub log : List WriteBatch

unfoldable pub init : (ℕ → WriteBatch) → Db
init batch = record { queue = []; pc = λ i. idle; batch = batch; done = λ i. false; log = [] }

abbrev pub update {ℓ} : {A : Type ℓ} → (ℕ → A) → ℕ → A → ℕ → A
update f i a j = if i == j then a else f j

-- `kMaxBatchSize`
abbrev pub max_batch_size : ℕ
max_batch_size = 2

-- `Count(result) >= kMaxBatchSize`, where the count is an `int`.
unfoldable pub is_full : WriteBatch → Bool
is_full b = leb max_batch_size (WriteBatch.count b) && ltb (WriteBatch.count b) (2 ^ 31)

-- The loop of `BuildBatchGroup` over the writers behind the first: the group's batch, and
-- `*last_writer`. The counts that `Append` adds are taken to have a sum that is an `int`.
unfoldable pub group_loop : (ℕ → WriteBatch) → WriteBatch → ℕ → List ℕ → WriteBatch × ℕ
group_loop batch result last [] = (result, last)
group_loop batch result last (w ∷ ws) =
    let rest = group_loop batch (WriteBatch.with_appended result (batch w)) w ws in
    if is_full result then (result, last) else rest

-- `BuildBatchGroup`: the batch of the first writer is changed in place.
unfoldable pub build_batch_group : Db → Option (Db × ℕ)
build_batch_group s = elim s.queue [
  | [] ↦ none
  | first ∷ ws ↦
      let (result, last) = group_loop s.batch (s.batch first) first ws in
      some (record s { batch = update s.batch first result }, last)
]

unfoldable pub fire : ℕ → Db → Option Db
unfolding build_batch_group
fire i s = do
  (s', last) ← build_batch_group s
  some (record s' { pc = update s'.pc i (writing last) })

-- The test of the `while` loop, whenever writer `i` holds the mutex: return, lead, or wait.
unfoldable pub check_turn : ℕ → Db → Option Db
check_turn i s =
    if s.done i then some (record s { pc = update s.pc i returned }) else elim s.queue [
      | [] ↦ none
      | first ∷ ws ↦ if first == i then fire i s else some (record s { pc = update s.pc i waiting })
    ]

-- A new call of `Write`, up to the first wait or the end of `BuildBatchGroup`.
unfoldable pub arrive : ℕ → Db → Option Db
arrive i s = check_turn i (record s { queue = s.queue ++ (i ∷ []); done = update s.done i false })

-- The write to the log, with the mutex released. The source stands in for it with a print of the
-- batch's count; the model keeps the batch.
unfoldable pub write_log : ℕ → ℕ → Db → Db
write_log i last s = record s { log = s.log ++ (s.batch i ∷ []); pc = update s.pc i (written last) }

-- The loop that takes the group off the queue.
unfoldable pub release : ℕ → ℕ → List ℕ → (ℕ → Bool) → Option (List ℕ × (ℕ → Bool))
release i last [] done = none
release i last (ready ∷ ws) done =
    let done' = if ready == i then done else update done ready true in
    let rest = release i last ws done' in if ready == last then some (ws, done') else rest

-- The end of `Write` for the leader.
unfoldable pub finish : ℕ → ℕ → Db → Option Db
finish i last s = do
  (queue, done) ← release i last s.queue s.done
  some (record s { queue = queue; done = done; pc = update s.pc i returned })

-- What writer `i` does next.
unfoldable pub step : ℕ → Db → Option Db
step i s = elim (s.pc i) [
  | idle ↦ arrive i s
  | waiting ↦ check_turn i s
  | writing last ↦ some (write_log i last s)
  | written last ↦ finish i last s
  | returned ↦ some s
]

-- The new writer of a step.
abbrev pub arrival : Pc → ℕ → List ℕ
arrival idle i = i ∷ []
arrival p i = []

-- The runs of any number of writers, whose steps come in any order, with the writers in the order of
-- their arrival. A writer that waits may wake up at any time.
pub data Run (batch : ℕ → WriteBatch) : List ℕ → Db → Type 0 where
  start : Run batch [] (init batch)
  later :
      {order : List ℕ} {s : Db} (t : Db) (i : ℕ)
      → Run batch order s
      → step i s ≡ some t
      → Run batch (order ++ arrival (s.pc i) i) t
