-- ===== src/GroupCommit/Tests.antt =====
-- The four writers of `TestPingPongBatch` in example-ping-pong-batch/main.cc, in one order of steps.
use c_plus_plus_examples.Base.{
  ℕ, ◌≡◌, refl, true, false, elem, Option, none, some, List, [], ◌∷◌, ◌++◌, arith, ◌⊎◌, inl, inr,
}
use c_plus_plus_examples.WriteBatch
use c_plus_plus_examples.WriteBatch.{WriteBatch}
use c_plus_plus_examples.WriteBatch.Format.{Update}
use c_plus_plus_examples.WriteBatch.Represents.{clear-Represents, with_put-Represents}
use c_plus_plus_examples.GroupCommit.{
  Db, Pc, init, step, arrival, Run, start, later, arrive, check_turn, fire, build_batch_group,
  group_loop, is_full, write_log, finish, release,
}
use c_plus_plus_examples.Coding.{
  decode_fixed32, encode_fixed32, put_length_prefixed_slice, put_varint32, encode_varint32,
}
use c_plus_plus_examples.GroupCommit.Group.{gather, Holds}
use c_plus_plus_examples.GroupCommit.Invariant.{stage, Logged}
use c_plus_plus_examples.GroupCommit.Signals.{Sleepers, WakefulRun, step_signals, sleep, signals}
use c_plus_plus_examples.GroupCommit.Signals.Wakes.{is_first}
use c_plus_plus_examples.GroupCommit.Signals.Awake.{no_lost_wake_up}
use c_plus_plus_examples.GroupCommit.Safety.{log_complete, one_leader}

-- Writer `j` puts one key, with `j` as the value.
abbrev one_put : ℕ → List Update
one_put j = Update.put (b'k' ∷ []) (j ∷ []) ∷ []

unfoldable batches : ℕ → WriteBatch
batches j = WriteBatch.with_put WriteBatch.new_batch (b'k' ∷ []) (j ∷ [])

batches-Holds : (j : ℕ) → Holds (batches j) (one_put j)
unfolding batches WriteBatch.new_batch
batches-Holds j = record {
  seq = 0;
  batch =
      with_put-Represents WriteBatch.new_batch 0 [] (b'k' ∷ []) (j ∷ [])
        (clear-Represents (record { rep = [] })) (omega arith, omega arith) (omega arith);
  few = omega arith;
}

record Reached : Type 0 where
  order : List ℕ
  last : Db
  run : Run batches order last

outcome : (o : Option Db) → (o ≡ none) ⊎ ((t : Db) × (o ≡ some t))
outcome none = inl refl
outcome (some t) = inr (t, refl)

-- One step of a writer; a step that fails would change nothing.
turn : Reached → ℕ → Reached
unfolding outcome
turn r i = elim (outcome (step i r.last)) [
  | inl failed ↦ r
  | inr (t, e) ↦ record {
    order = r.order ++ arrival (r.last.pc i) i;
    last = t;
    run = later t i r.run e;
  }
]

turns : List ℕ → Reached → Reached
turns [] r = r
turns (i ∷ l) r = turns l (turn r i)

abbrev begun : Reached
begun = record { order = []; last = init batches; run = start }

-- Writer 0 leads alone, 1 leads with 2, and 3 waits.
abbrev half_way : Reached
unfolding turns turn
half_way = turns (0 ∷ 1 ∷ 2 ∷ 3 ∷ 0 ∷ 0 ∷ 1 ∷ []) begun

abbrev all_done : Reached
unfolding turns turn
all_done = turns (1 ∷ 1 ∷ 2 ∷ 3 ∷ 3 ∷ 3 ∷ []) half_way

who_leads : half_way.last.pc 1 ≡ Pc.writing 2
unfolding half_way init batches step turn turns outcome arrive check_turn fire build_batch_group
    group_loop is_full write_log finish release WriteBatch.count WriteBatch.with_put
    WriteBatch.with_appended WriteBatch.set_count WriteBatch.new_batch WriteBatch.clear
    decode_fixed32 encode_fixed32 put_length_prefixed_slice put_varint32 encode_varint32
who_leads = refl

empty_queue : all_done.last.queue ≡ []
unfolding all_done half_way init batches step turn turns outcome arrive check_turn fire
    build_batch_group group_loop is_full write_log finish release WriteBatch.count
    WriteBatch.with_put WriteBatch.with_appended WriteBatch.set_count WriteBatch.new_batch
    WriteBatch.clear decode_fixed32 encode_fixed32 put_length_prefixed_slice put_varint32
    encode_varint32
empty_queue = refl

came : all_done.order ≡ 0 ∷ 1 ∷ 2 ∷ 3 ∷ []
unfolding all_done half_way init batches step turn turns outcome arrive check_turn fire
    build_batch_group group_loop is_full write_log finish release WriteBatch.count
    WriteBatch.with_put WriteBatch.with_appended WriteBatch.set_count WriteBatch.new_batch
    WriteBatch.clear decode_fixed32 encode_fixed32 put_length_prefixed_slice put_varint32
    encode_varint32
came = refl

log_complete_example : Logged all_done.last.log (gather one_put all_done.order)
log_complete_example =
    log_complete one_put (λ j. omega arith) batches-Holds all_done.run empty_queue

stage_1 : stage (half_way.last.pc 1) ≡ 2
unfolding half_way init batches step turn turns outcome arrive check_turn fire build_batch_group
    group_loop is_full write_log finish release WriteBatch.count WriteBatch.with_put
    WriteBatch.with_appended WriteBatch.set_count WriteBatch.new_batch WriteBatch.clear
    decode_fixed32 encode_fixed32 put_length_prefixed_slice put_varint32 encode_varint32
stage_1 = refl

one_leader_example : ◌≡◌ {A = ℕ} 1 1
one_leader_example =
    one_leader one_put (λ j. omega arith) batches-Holds half_way.run 1 1 stage_1 stage_1

record Watched : Type 0 where
  order : List ℕ
  last : Sleepers
  run : WakefulRun batches order last

outcome_watched : (o : Option Sleepers) → (o ≡ none) ⊎ ((t : Sleepers) × (o ≡ some t))
outcome_watched none = inl refl
outcome_watched (some t) = inr (t, refl)

turn_watched : Watched → ℕ → Watched
unfolding outcome_watched
turn_watched r i = elim (outcome_watched (step_signals i r.last)) [
  | inl failed ↦ r
  | inr (t, e) ↦ record {
    order = r.order ++ arrival (r.last.db.pc i) i;
    last = t;
    run = WakefulRun.later t i r.run e;
  }
]

turns_watched : List ℕ → Watched → Watched
turns_watched [] r = r
turns_watched (i ∷ l) r = turns_watched l (turn_watched r i)

-- Writer 0 is about to write; the others sleep.
abbrev watched : Watched
unfolding turns_watched turn_watched
watched = turns_watched (0 ∷ 1 ∷ 2 ∷ []) (record { order = []; last = _; run = WakefulRun.start })

sleeps_2 : watched.last.asleep 2 ≡ true
unfolding watched init batches step_signals sleep signals step turn_watched turns_watched
    outcome_watched arrive check_turn fire build_batch_group group_loop is_full
sleeps_2 = refl

no_lost_wake_up_example :
    (watched.last.db.done 2 ≡ false)
    × (elem 2 watched.last.db.queue ≡ true)
    × (is_first 2 watched.last.db.queue ≡ false)
no_lost_wake_up_example =
    no_lost_wake_up one_put (λ j. omega arith) batches-Holds watched.run 2 sleeps_2
