-- ===== src/GroupCommit/Turn.antt =====
-- The test of the `while` loop in `DBImpl::Write` of example-ping-pong-batch/main.cc, and the invariant.
use c_plus_plus_examples.Base.{
  ℕ, ◌+◌, ◌^◌, ◌<◌, ◌≡◌, ◌≢◌, ◌⊎◌, refl, sym, ap, ◌∙◌, true, some, List, [], ◌∷◌, ◌++◌, arith, elem,
  length, ◌==◌, Bool-cases, inl, inr,
}
use c_plus_plus_examples.WriteBatch.{WriteBatch}
use c_plus_plus_examples.WriteBatch.Format.{Update}
use c_plus_plus_examples.GroupCommit.{
  Db, Pc, waiting, writing, returned, update, check_turn, fire, build_batch_group, group_loop,
}
use c_plus_plus_examples.GroupCommit.Group.{gather, Holds, Grouped, group_loop-Grouped}
use c_plus_plus_examples.GroupCommit.Invariant.{stage, Leads, Phase, quiet, writes, wrote, Inv}

-- The state with writer `i` waiting.
abbrev pub with_pc : Db → ℕ → Pc → Db
with_pc s i p = record s { pc = update s.pc i p }

pub List-cases : (l : List ℕ) → (l ≡ []) ⊎ ((x : ℕ) × (r : List ℕ) × (l ≡ x ∷ r))
List-cases [] = inl refl
List-cases (x ∷ r) = inr (x, r, refl)

-- A step that makes no leader leaves the leader as it is.
Leads-other :
    (s : Db) (i k last : ℕ) (p : Pc) (ws rest : List ℕ)
    → stage p ≢ 2
    → Leads (with_pc s i waiting) k last ws rest
    → Leads (with_pc s i p) k last ws rest
Leads-other s i k last p ws rest h l = record {
  front = l.front;
  ends = l.ends;
  only = λ j leads. l.only j (ground arith);
}

Phase-other :
    (us : ℕ → List Update) (order : List ℕ) (s : Db) (i : ℕ) (p : Pc) {l : List Update}
    → stage p ≢ 2
    → Phase us order (with_pc s i waiting) l
    → Phase us order (with_pc s i p) l
Phase-other us order s i p h (quiet no_leader whole) =
    quiet (λ j leads. no_leader j (ground arith)) whole
Phase-other us order s i p h (writes k last ws rest l at held whole) =
    writes k last ws rest (Leads-other s i k last p ws rest h l) (ground arith) held whole
Phase-other us order s i p h (wrote k last ws rest l at whole) =
    wrote k last ws rest (Leads-other s i k last p ws rest h l) (ground arith) whole

module _ (us : ℕ → List Update) (order : List ℕ) (s : Db) (i : ℕ)
    (v : Inv us order (with_pc s i waiting)) where
  returns-Inv : s.done i ≡ true → Inv us order (with_pc s i returned)
  returns-Inv done = record {
    apart = v.apart;
    members = λ j there. ground (arith, v.members j there, v.undone j there);
    undone = v.undone;
    waits = λ j w. ground (arith, v.waits j);
    own = λ j small. v.own j (ground arith);
    logged = v.logged;
    log = v.log;
    phase = Phase-other us order s i returned (λ e. omega (arith, e)) v.phase;
  }

  -- There is no leader while the writer at the front waits.
  front_quiet :
      (ws : List ℕ) {l : List Update}
      → s.queue ≡ i ∷ ws
      → Phase us order (with_pc s i waiting) l
      → ((j : ℕ) → ¬ (stage (update s.pc i waiting j) ≡ 2))
        × (l ++ gather us s.queue ≡ gather us order)
  front_quiet ws front (quiet no_leader whole) = (no_leader, whole)
  front_quiet ws front (writes k last g rest l at held whole) =
      absurd (ground (arith, l.front, front, at))
  front_quiet ws front (wrote k last g rest l at whole) =
      absurd (ground (arith, l.front, front, at))

  own_behind :
      (ws : List ℕ) → s.queue ≡ i ∷ ws → (j : ℕ) → elem j ws ≡ true → Holds (s.batch j) (us j)
  own_behind ws front j there =
      let queued : elem j s.queue ≡ true = rw front (ground (arith, there)) in
      v.own j (ground (arith, v.members j queued, (front_quiet ws front v.phase).0 j))

  fired : (ws : List ℕ) → WriteBatch × ℕ
  fired ws = group_loop s.batch (s.batch i) i ws

  fired_state : (ws : List ℕ) → Db
  fired_state ws = record s {
    batch = update s.batch i (fired ws).0;
    pc = update s.pc i (writing (fired ws).1);
  }

  fired-Grouped :
      (ws : List ℕ)
      → ((j : ℕ) → length (us j) + 1 < 2 ^ 31)
      → s.queue ≡ i ∷ ws
      → Grouped us (us i) i ws (fired ws)
  unfolding fired
  fired-Grouped ws small front =
      group_loop-Grouped us s.batch (s.batch i) (us i) i ws (v.own i (ground arith))
        (rw front at v.apart) (own_behind ws front) small

  fired-Leads :
      (ws : List ℕ) (g : Grouped us (us i) i ws (fired ws))
      → s.queue ≡ i ∷ ws
      → Leads (fired_state ws) i (fired ws).1 g.group g.rest
  unfolding fired_state
  fired-Leads ws g front = record {
    front = front ∙ ap (λ l. i ∷ l) g.parts;
    ends = g.ends;
    only = λ j leads. ground (arith, (front_quiet ws front v.phase).0 j, leads);
  }

  -- The writer at the front becomes the leader.
  fires-Inv :
      (ws : List ℕ)
      → ((j : ℕ) → length (us j) + 1 < 2 ^ 31)
      → s.queue ≡ i ∷ ws
      → Inv us order (fired_state ws)
  unfolding fired_state
  fires-Inv ws small front =
      let g : Grouped us (us i) i ws (fired ws) = fired-Grouped ws small front in
      record {
        apart = v.apart;
        members = λ j there. ground (arith, v.members j there);
        undone = v.undone;
        waits = λ j w. ground (arith, v.waits j);
        own = λ j early. elim (Bool-cases (i == j)) [
          | inl same ↦ absurd (ground (arith, same, early))
          | inr other ↦ rw other (v.own j (ground (arith, other, early)))
        ];
        logged = v.logged;
        log = v.log;
        phase =
            writes i (fired ws).1 g.group g.rest (fired-Leads ws g front) (ground arith)
              (let at : (i == i) ≡ true = ground arith in rw at g.made)
              (front_quiet ws front v.phase).1;
      }

  fire-fired : (ws : List ℕ) → s.queue ≡ i ∷ ws → fire i s ≡ some (fired_state ws)
  unfolding fire build_batch_group fired fired_state
  fire-fired ws front = ground (arith, front)

  -- The test does not fail, and what it leads to keeps the invariant.
  pub check_turn-Inv :
      ((j : ℕ) → length (us j) + 1 < 2 ^ 31) → (t : Db) × (check_turn i s ≡ some t) × Inv us order t
  unfolding check_turn
  check_turn-Inv small = elim (Bool-cases (s.done i)) [
    | inl done ↦ (with_pc s i returned, rw done refl, returns-Inv done)
    | inr not_done ↦ elim (List-cases s.queue) [
      | inl no_one ↦ absurd (ground (arith, v.waits i, not_done, no_one))
      | inr (first, ws, front) ↦ elim (Bool-cases (first == i)) [
        | inl mine ↦
            let same : first ≡ i = ground arith in
            let front' : s.queue ≡ i ∷ ws = rw (sym same) front in
            (
              fired_state ws,
              ground (arith, not_done, front', fire-fired ws front'),
              fires-Inv ws small front',
            )
        | inr other ↦ (with_pc s i waiting, ground (arith, not_done, front, other), v)
      ]
    ]
  ]
