-- ===== src/GroupCommit/Safety.antt =====
-- What holds in every run of the writers in example-ping-pong-batch/main.cc.
use c_plus_plus_examples.Base.{
  ℕ, ◌+◌, ◌^◌, ◌<◌, ◌≡◌, refl, sym, ◌∙◌, some, List, [], ◌++◌, append-nil, arith, length,
}
use c_plus_plus_examples.WriteBatch.{WriteBatch}
use c_plus_plus_examples.WriteBatch.Format.{Update}
use c_plus_plus_examples.GroupCommit.{
  Db, Pc, idle, waiting, writing, written, returned, write_log, step, arrival, Run, start, later,
}
use c_plus_plus_examples.GroupCommit.Group.{gather, Holds}
use c_plus_plus_examples.GroupCommit.Invariant.{stage, Logged, Phase, quiet, writes, wrote, Inv}
use c_plus_plus_examples.GroupCommit.Steps.{
  init-Inv, arrive-Inv, wakes-Inv, write_log-Inv, finish-Inv,
}

module _ (us : ℕ → List Update) (small : (j : ℕ) → length (us j) + 1 < 2 ^ 31) where
  -- The next step of any writer does not fail and keeps the invariant.
  step-Inv :
      (order : List ℕ) (s : Db) (i : ℕ)
      → Inv us order s
      → (p : Pc) → s.pc i ≡ p
      → (t : Db) × (step i s ≡ some t) × Inv us (order ++ arrival p i) t
  unfolding step
  step-Inv order s i v idle at =
      let (t, e, w) = arrive-Inv us order s i v at small in (t, rw (at, step) e, w)
  step-Inv order s i v waiting at =
      let (t, e, w) = wakes-Inv us order s i v small at in (t, rw (at, step) e, rw append-nil w)
  step-Inv order s i v (writing last) at =
      (write_log i last s, rw (at, step) refl, rw append-nil (write_log-Inv us order s i v last at))
  step-Inv order s i v (written last) at =
      let (t, e, w) = finish-Inv us order s i v last at in (t, rw (at, step) e, rw append-nil w)
  step-Inv order s i v returned at = (s, rw (at, step) refl, rw append-nil v)

  some_injective : {s t : Db} → some s ≡ some t → s ≡ t
  some_injective e = cc

  pub Run-Inv :
      {batch : ℕ → WriteBatch} {order : List ℕ} {s : Db}
      → ((j : ℕ) → Holds (batch j) (us j))
      → Run batch order s
      → Inv us order s
  Run-Inv {batch} holds start = init-Inv us batch holds
  Run-Inv holds (later {order} {s} t i run e) =
      let (t', e', w) = step-Inv order s i (Run-Inv holds run) (s.pc i) refl in
      let same : t' ≡ t = some_injective (sym e' ∙ e) in rw (sym same) w

  -- In every run of writers whose batches are in the format and hold fewer than 2^31 - 1 updates, the
  -- log holds a first part of the updates of all writers, each batch once and in the order of arrival.
  log_in_order :
      {batch : ℕ → WriteBatch} {order : List ℕ} {s : Db}
      → ((j : ℕ) → Holds (batch j) (us j))
      → Run batch order s
      → (logged : List Update) × (rest : List Update) × Logged s.log logged
        × (logged ++ rest ≡ gather us order)
  log_in_order {s} holds run = let v = Run-Inv holds run in in_order v.log v.phase
    where
      in_order :
          {order : List ℕ} {logged : List Update}
          → Logged s.log logged
          → Phase us order s logged
          → (logged : List Update) × (rest : List Update) × Logged s.log logged
            × (logged ++ rest ≡ gather us order)
      in_order {logged = l} log (quiet none whole) = (l, gather us s.queue, log, whole)
      in_order {logged = l} log (writes i last ws rest leads at held whole) =
          (l, gather us s.queue, log, whole)
      in_order {logged = l} log (wrote i last ws rest leads at whole) =
          (l, gather us rest, log, whole)

  -- In every run of writers whose batches are in the format and hold fewer than 2^31 - 1 updates, when
  -- no writer is in the queue, the log holds the updates of all that have come, each batch once and in
  -- the order of arrival.
  pub log_complete :
      {batch : ℕ → WriteBatch} {order : List ℕ} {s : Db}
      → ((j : ℕ) → Holds (batch j) (us j))
      → Run batch order s
      → s.queue ≡ []
      → Logged s.log (gather us order)
  log_complete {s} holds run none_left = let v = Run-Inv holds run in complete v.log v.phase
    where
      complete :
          {order : List ℕ} {logged : List Update}
          → Logged s.log logged
          → Phase us order s logged
          → Logged s.log (gather us order)
      complete {logged = l} log (quiet none whole) = rw (sym whole) (rw (none_left, append-nil) log)
      complete log (writes i last ws rest leads at held whole) =
          absurd (ground (arith, leads.front, none_left))
      complete log (wrote i last ws rest leads at whole) =
          absurd (ground (arith, leads.front, none_left))

  -- In every run with batches in the format, of fewer than 2^31 - 1 updates, no two writers lead at the
  -- same time: from the forming of a group to its release there is one.
  pub one_leader :
      {batch : ℕ → WriteBatch} {order : List ℕ} {s : Db}
      → ((j : ℕ) → Holds (batch j) (us j))
      → Run batch order s
      → (i j : ℕ) → stage (s.pc i) ≡ 2
      → stage (s.pc j) ≡ 2
      → i ≡ j
  one_leader {s} holds run i j leads_i leads_j = one (Run-Inv holds run).phase
    where
      one : {order : List ℕ} {logged : List Update} → Phase us order s logged → i ≡ j
      one (quiet none whole) = absurd (none i leads_i)
      one (writes k last ws rest leads at held whole) =
          sym (leads.only i leads_i) ∙ leads.only j leads_j
      one (wrote k last ws rest leads at whole) = sym (leads.only i leads_i) ∙ leads.only j leads_j

  -- In every run with batches in the format, of fewer than 2^31 - 1 updates, no next step of any writer
  -- meets an empty queue or fails.
  pub step_total :
      {batch : ℕ → WriteBatch} {order : List ℕ} {s : Db}
      → ((j : ℕ) → Holds (batch j) (us j))
      → Run batch order s
      → (i : ℕ) → (t : Db) × (step i s ≡ some t)
  step_total {order = order} {s} holds run i =
      let (t, e, w) = step-Inv order s i (Run-Inv holds run) (s.pc i) refl in (t, e)
