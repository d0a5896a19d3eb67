-- ===== src/GroupCommit/Invariant.antt =====
-- What holds whenever the mutex of `DBImpl` in example-ping-pong-batch/main.cc is free: who is in the
-- queue, and how the log and the queue make up the updates of all writers in the order of arrival.
use c_plus_plus_examples.Base.{ℕ, ◌<◌, ◌≡◌, ◌⊎◌, true, false, List, [], ◌∷◌, ◌++◌, elem, Apart}
use c_plus_plus_examples.WriteBatch.{WriteBatch}
use c_plus_plus_examples.WriteBatch.Format.{Update}
use c_plus_plus_examples.GroupCommit.{Db, Pc}
use c_plus_plus_examples.GroupCommit.Group.{gather, Holds}
use c_plus_plus_examples.GroupCommit.Queue.{EndsWith}

-- Not come yet, waiting, the leader, back.
abbrev pub stage : Pc → ℕ
stage Pc.idle = 0
stage Pc.waiting = 1
stage (Pc.writing last) = 2
stage (Pc.written last) = 2
stage Pc.returned = 3

-- The batches of a log, one behind the other, hold a list of updates.
pub data Logged : List WriteBatch → List Update → Type 0 where
  empty : Logged [] []
  entry :
      {l : List WriteBatch} {us : List Update} (b : WriteBatch) (vs : List Update)
      → Logged l us
      → Holds b vs
      → Logged (l ++ (b ∷ [])) (us ++ vs)

-- The leader `i`, whose group is `i ∷ ws`, at the front of the queue.
pub record Leads (s : Db) (i last : ℕ) (ws rest : List ℕ) : Type 0 where
  pub front : s.queue ≡ i ∷ (ws ++ rest)
  pub ends : EndsWith last (i ∷ ws)
  pub only : (j : ℕ) → stage (s.pc j) ≡ 2 → i ≡ j

pub data Phase (us : ℕ → List Update) (order : List ℕ) (s : Db) (logged : List Update)
    : Type 0 where
  quiet :
      ((j : ℕ) → ¬ (stage (s.pc j) ≡ 2))
      → logged ++ gather us s.queue ≡ gather us order
      → Phase us order s logged
  writes :
      (i last : ℕ) (ws rest : List ℕ)
      → Leads s i last ws rest
      → s.pc i ≡ Pc.writing last
      → Holds (s.batch i) (gather us (i ∷ ws))
      → logged ++ gather us s.queue ≡ gather us order
      → Phase us order s logged
  wrote :
      (i last : ℕ) (ws rest : List ℕ)
      → Leads s i last ws rest
      → s.pc i ≡ Pc.written last
      → logged ++ gather us rest ≡ gather us order
      → Phase us order s logged

pub record Inv (us : ℕ → List Update) (order : List ℕ) (s : Db) : Type 0 where
  pub apart : Apart s.queue
  pub members : (j : ℕ) → elem j s.queue ≡ true → (stage (s.pc j) ≡ 1) ⊎ (stage (s.pc j) ≡ 2)
  pub undone : (j : ℕ) → elem j s.queue ≡ true → s.done j ≡ false
  pub waits : (j : ℕ) → stage (s.pc j) ≡ 1 → (elem j s.queue ≡ true) ⊎ (s.done j ≡ true)
  pub own : (j : ℕ) → stage (s.pc j) < 2 → Holds (s.batch j) (us j)
  pub logged : List Update
  pub log : Logged s.log logged
  pub phase : Phase us order s logged
