-- ===== src/GroupCommit/Signals/Wakes.antt =====
-- Whom a step of the writers in example-ping-pong-batch/main.cc wakes.
use mathlib.Core.Path.{subst}
use mathlib.Core.Option.{some-injective}
use c_plus_plus_examples.Base.{
  ℕ, ◌≡◌, refl, sym, ap, ◌∙◌, Bool, true, false, not, some, List, [], ◌∷◌, ◌++◌, arith, elem, ◌==◌,
  ◌&&◌, Bool-cases, inl, inr, if◌then◌else◌,
}
use c_plus_plus_examples.WriteBatch.Format.{Update}
use c_plus_plus_examples.GroupCommit.{
  Db, Pc, idle, waiting, writing, written, returned, update, step, check_turn, arrive, write_log,
  fire, build_batch_group, group_loop,
}
use c_plus_plus_examples.GroupCommit.Invariant.{Inv}
use c_plus_plus_examples.GroupCommit.Queue.{EndsWith, one, more, mark_lem}
use c_plus_plus_examples.GroupCommit.Turn.{List-cases}
use c_plus_plus_examples.GroupCommit.Steps.{written-Phase, finished, finish-finished}
use c_plus_plus_examples.GroupCommit.Signals.{Sleepers, signal_front, signals, sleep, is_waiting}

-- The front of a queue.
abbrev pub is_first : ℕ → List ℕ → Bool
is_first j [] = false
is_first j (first ∷ ws) = first == j

signal_front_lem :
    (j : ℕ) (r : List ℕ) (asleep : ℕ → Bool)
    → signal_front r asleep j ≡ true
    → (asleep j ≡ true) × (is_first j r ≡ false)
unfolding signal_front
signal_front_lem j [] asleep h = (h, refl)
signal_front_lem j (first ∷ ws) asleep h = ground (arith, h)

-- Who is still asleep was asleep, and was not woken: it is not in the group, and not the next.
signals_lem :
    (i last j : ℕ) {g : List ℕ} (r : List ℕ) (asleep : ℕ → Bool)
    → EndsWith last g
    → signals i last (g ++ r) asleep j ≡ true
    → (asleep j ≡ true) × ((elem j g && not (i == j)) ≡ false) × (is_first j r ≡ false)
unfolding signals
signals_lem i last j r asleep (one x e) h =
    let asleep' = if x == i then asleep else update asleep x false in
    ground (arith, h, e, signal_front_lem j r asleep')
signals_lem i last j r asleep (more x ne g) h =
    let asleep' = if x == i then asleep else update asleep x false in
    ground (arith, ne, h, signals_lem i last j r asleep' g)

-- A writer that sleeps has reason to.
unfoldable pub Rightly : Sleepers → Type 0
Rightly s =
    (j : ℕ)
    → s.asleep j ≡ true
    → (s.db.pc j ≡ waiting) × (s.db.done j ≡ false) × (is_first j s.db.queue ≡ false)

-- What the test of the loop leaves as it is, and where it waits.
record Turned (i : ℕ) (s t : Db) : Type 0 where
  queue : t.queue ≡ s.queue
  done : t.done ≡ s.done
  others : (j : ℕ) → (i == j) ≡ false → t.pc j ≡ s.pc j
  waits :
      is_waiting (t.pc i) ≡ true
      → (t.pc i ≡ waiting) × (s.done i ≡ false) × (is_first i s.queue ≡ false)

fire_run :
    (i first : ℕ) (ws : List ℕ) (s : Db)
    → s.queue ≡ first ∷ ws
    → let group = group_loop s.batch (s.batch first) first ws in
      fire i s
      ≡ some
          (record s { batch = update s.batch first group.0; pc = update s.pc i (writing group.1) })
unfolding fire build_batch_group
fire_run i first ws s front = ground (arith, front)

check_turn-Turned : (i : ℕ) (s t : Db) → check_turn i s ≡ some t → Turned i s t
unfolding check_turn
check_turn-Turned i s t e = elim (Bool-cases (s.done i)) [
  | inl done ↦
      known (record s { pc = update s.pc i returned }) (rw done refl)
        record {
          queue = refl;
          done = refl;
          others = λ j ne. ground (arith, ne);
          waits = λ w. absurd (ground (arith, w));
        }
  | inr not_done ↦ elim (List-cases s.queue) [
    | inl no_one ↦ absurd (ground (arith, not_done, no_one, e))
    | inr (first, ws, front) ↦ elim (Bool-cases (first == i)) [
      | inl mine ↦
          let group = group_loop s.batch (s.batch first) first ws in
          known
            (record s {
              batch = update s.batch first group.0;
              pc = update s.pc i (writing group.1);
            })
            (ground (arith, not_done, front, mine, fire_run i first ws s front))
            record {
              queue = refl;
              done = refl;
              others = λ j ne. ground (arith, ne);
              waits = λ w. absurd (ground (arith, w));
            }
      | inr other ↦
          known (record s { pc = update s.pc i waiting }) (ground (arith, not_done, front, other))
            record {
              queue = refl;
              done = refl;
              others = λ j ne. ground (arith, ne);
              waits = λ w. (ground arith, not_done, rw front other);
            }
    ]
  ]
]
  where
    known : (a : Db) → check_turn i s ≡ some a → Turned i s a → Turned i s t
    known a run h = subst (λ u. Turned i s u) (some-injective _ _ (sym run ∙ e)) h

is_first-snoc :
    (i j : ℕ) (q : List ℕ)
    → (i == j) ≡ false
    → is_first j q ≡ false
    → is_first j (q ++ (i ∷ [])) ≡ false
is_first-snoc i j [] ne h = ne
is_first-snoc i j (first ∷ q) ne h = h

-- A step of a writer keeps that all who sleep have reason to.
module _ (us : ℕ → List Update) (order : List ℕ) (s : Sleepers) (t : Db) (i : ℕ)
    (v : Inv us order s.db) (r : Rightly s) where
  unfoldable pub after : Sleepers
  after = record { db = t; asleep = sleep i (s.db.pc i) s.db.queue (t.pc i) s.asleep }

  -- Behind the test of the loop.
  Turned-Rightly :
      (s' : Db)
      → Turned i s' t
      → ((j : ℕ)
          → (i == j) ≡ false
          → s.asleep j ≡ true
          → (s'.pc j ≡ s.db.pc j) × (s'.done j ≡ false) × (is_first j s'.queue ≡ false))
      → Rightly (record { db = t; asleep = update s.asleep i (is_waiting (t.pc i)) })
  unfolding Rightly
  Turned-Rightly s' turned same j sleeps = elim (Bool-cases (i == j)) [
    | inl mine ↦
        let e : j ≡ i = ground arith in
        let (at, undone, not_first) = turned.waits (ground (arith, mine, sleeps)) in
        rw e (at, ap (λ d. d i) turned.done ∙ undone, ap (is_first i) turned.queue ∙ not_first)
    | inr other ↦
        let (at, undone, not_first) = same j other (ground (arith, other, sleeps)) in
        (
          turned.others j other ∙ at ∙ (r j (ground (arith, other, sleeps))).0,
          ap (λ d. d j) turned.done ∙ undone,
          ap (is_first j) turned.queue ∙ not_first,
        )
  ]

  pub step-Rightly : (p : Pc) → s.db.pc i ≡ p → step i s.db ≡ some t → Rightly after
  unfolding Rightly after sleep step arrive write_log finished
  step-Rightly idle at run = rw at (
      Turned-Rightly
        (record s.db { queue = s.db.queue ++ (i ∷ []); done = update s.db.done i false })
        (check_turn-Turned i _ t (ground (arith, at, run)))
        (λ j ne sleeps.
          (refl, ground (arith, ne, r j sleeps), is_first-snoc i j s.db.queue ne (r j sleeps).2)))
  step-Rightly waiting at run = rw at (
      Turned-Rightly s.db (check_turn-Turned i s.db t (ground (arith, at, run)))
        (λ j ne sleeps. (refl, (r j sleeps).1, (r j sleeps).2)))
  step-Rightly (writing last) at run = rw at (
      subst (λ u. Rightly (record { db = u; asleep = s.asleep }))
        (some-injective (write_log i last s.db) t (ground (arith, at, run)))
        (λ j sleeps. (ground (arith, at, r j sleeps), (r j sleeps).1, (r j sleeps).2)))
  step-Rightly (written last) at run =
      let (ws, rest, l, whole) = written-Phase us order s.db i v last at v.phase in
      let same =
        some-injective (finished us order s.db i v last ws rest) t
          (sym (finish-finished us order s.db i v last ws rest l) ∙ ground (arith, at, run)) in
      rw at (
        subst (λ u. Rightly (record { db = u; asleep = signals i last s.db.queue s.asleep })) same
          (λ j sleeps.
            let (before, out, next) =
              signals_lem i last j rest s.asleep l.ends
                (subst (λ q. signals i last q s.asleep j ≡ true) l.front sleeps) in
            (
              ground (arith, at, (r j before).0),
              ground (arith, mark_lem i (i ∷ ws) s.db.done j, out, (r j before).1),
              next,
            )))
  step-Rightly returned at run = rw at (
      subst (λ u. Rightly (record { db = u; asleep = s.asleep }))
        (some-injective s.db t (ground (arith, at, run))) r)
