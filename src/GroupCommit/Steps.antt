-- ===== src/GroupCommit/Steps.antt =====
-- The steps of a writer in example-ping-pong-batch/main.cc, and the invariant.
use mathlib.Core.Path.{fun_ext, subst}
use c_plus_plus_examples.Base.{
  ℕ, ◌+◌, ◌^◌, ◌<◌, ◌≡◌, refl, sym, ap, ◌∙◌, true, false, some, List, [], ◌∷◌, ◌++◌, append_assoc,
  arith, elem, elem_append, Apart-disjoint, Apart-right, Apart-snoc, length, ◌==◌, ◌||◌, Bool-cases,
  inl, inr,
}
use c_plus_plus_examples.WriteBatch.{WriteBatch}
use c_plus_plus_examples.WriteBatch.Format.{Update}
use c_plus_plus_examples.GroupCommit.{
  Db, Pc, idle, waiting, writing, written, returned, update, init, check_turn, arrive, write_log,
  finish,
}
use c_plus_plus_examples.GroupCommit.Group.{gather, gather-append, Holds}
use c_plus_plus_examples.GroupCommit.Invariant.{
  stage, empty, entry, Leads, Phase, quiet, writes, wrote, Inv,
}
use c_plus_plus_examples.GroupCommit.Queue.{mark, mark_lem, release-mark}
use c_plus_plus_examples.GroupCommit.Turn.{with_pc, check_turn-Inv}

pub init-Inv :
    (us : ℕ → List Update) (batch : ℕ → WriteBatch)
    → ((j : ℕ) → Holds (batch j) (us j))
    → Inv us [] (init batch)
unfolding init
init-Inv us batch holds = record {
  apart = tt;
  members = λ j there. absurd (ground arith);
  undone = λ j there. refl;
  waits = λ j w. absurd (omega (arith, w));
  own = λ j early. holds j;
  logged = [];
  log = empty;
  phase = quiet (λ j leads. omega (arith, leads)) refl;
}

-- The new writer at the end of the queue, as if it waited.
abbrev queued : Db → ℕ → Db
queued s i = record s { queue = s.queue ++ (i ∷ []); done = update s.done i false }

module _ (us : ℕ → List Update) (order : List ℕ) (s : Db) (i : ℕ) (v : Inv us order s)
    (new : s.pc i ≡ idle) where
  absent : elem i s.queue ≡ false
  absent = elim (Bool-cases (elem i s.queue)) [
    | inr out ↦ out
    | inl there ↦ absurd (ground (arith, v.members i there, new))
  ]

  whole_queued :
      (logged : List Update) (queue : List ℕ)
      → logged ++ gather us queue ≡ gather us order
      → logged ++ gather us (queue ++ (i ∷ [])) ≡ gather us (order ++ (i ∷ []))
  whole_queued logged queue whole =
      rw (gather-append us queue (i ∷ []), gather-append us order (i ∷ []), sym whole, append_assoc)
        refl

  Leads-queued :
      (k last : ℕ) (ws rest : List ℕ)
      → stage (s.pc k) ≡ 2
      → Leads s k last ws rest
      → Leads (with_pc (queued s i) i waiting) k last ws (rest ++ (i ∷ []))
  Leads-queued k last ws rest at l = record {
    front = rw (l.front) (ap (λ l. k ∷ l) (append_assoc ws rest (i ∷ [])));
    ends = l.ends;
    only = λ j leads. l.only j (ground (arith, leads));
  }

  Phase-queued :
      {logged : List Update}
      → Phase us order s logged
      → Phase us (order ++ (i ∷ [])) (with_pc (queued s i) i waiting) logged
  Phase-queued (quiet no_leader whole) =
      quiet (λ j leads. no_leader j (ground (arith, leads))) (whole_queued _ s.queue whole)
  Phase-queued (writes k last ws rest l at held whole) =
      writes k last ws (rest ++ (i ∷ [])) (Leads-queued k last ws rest (ap stage at) l)
        (ground (arith, at, new)) held (whole_queued _ s.queue whole)
  Phase-queued (wrote k last ws rest l at whole) =
      wrote k last ws (rest ++ (i ∷ [])) (Leads-queued k last ws rest (ap stage at) l)
        (ground (arith, at, new)) (whole_queued _ rest whole)

  queued-Inv : Inv us (order ++ (i ∷ [])) (with_pc (queued s i) i waiting)
  queued-Inv = record {
    apart = Apart-snoc s.queue i v.apart absent;
    members = λ j there. ground (arith, elem_append j s.queue (i ∷ []), v.members j, there);
    undone = λ j there. ground (arith, elem_append j s.queue (i ∷ []), v.undone j, there);
    waits = λ j w. ground (arith, elem_append j s.queue (i ∷ []), v.waits j, w);
    own = λ j early. v.own j (ground (arith, early, new));
    logged = v.logged;
    log = v.log;
    phase = Phase-queued v.phase;
  }

  pub arrive-Inv :
      ((j : ℕ) → length (us j) + 1 < 2 ^ 31)
      → (t : Db) × (arrive i s ≡ some t) × Inv us (order ++ (i ∷ [])) t
  unfolding arrive
  arrive-Inv small = check_turn-Inv us (order ++ (i ∷ [])) (queued s i) i queued-Inv small

module _ (us : ℕ → List Update) (order : List ℕ) (s : Db) (i : ℕ) (v : Inv us order s) where
  pub wakes-Inv :
      ((j : ℕ) → length (us j) + 1 < 2 ^ 31)
      → s.pc i ≡ waiting
      → (t : Db) × (check_turn i s ≡ some t) × Inv us order t
  wakes-Inv small asleep =
      let same : s.pc ≡ update s.pc i waiting = fun_ext (λ j. ground (arith, asleep)) in
      check_turn-Inv us order s i
        (subst (λ (pc : ℕ → Pc). Inv us order (record s { pc = pc })) same v) small

  last_same :
      (k last last' : ℕ) → k ≡ i → s.pc i ≡ writing last → s.pc k ≡ writing last' → last ≡ last'
  last_same k last last' same at at' = ground (arith, same, at, at')

  whole_logged :
      (k : ℕ) (ws rest : List ℕ) (logged : List Update)
      → s.queue ≡ k ∷ (ws ++ rest)
      → logged ++ gather us s.queue ≡ gather us order
      → (logged ++ gather us (k ∷ ws)) ++ gather us rest ≡ gather us order
  whole_logged k ws rest logged front whole =
      append_assoc logged (gather us (k ∷ ws)) (gather us rest)
      ∙ ap (λ l. logged ++ l) (sym (gather-append us (k ∷ ws) rest) ∙ ap (gather us) (sym front))
      ∙ whole

  log-Phase :
      (last : ℕ) {logged : List Update}
      → s.pc i ≡ writing last
      → Phase us order s logged
      → (vs : List Update) × Holds (s.batch i) vs
        × Phase us order (write_log i last s) (logged ++ vs)
  unfolding write_log
  log-Phase last at (quiet no_leader whole) = absurd (no_leader i (ap stage at))
  log-Phase last at (wrote k last' ws rest l at' whole) =
      absurd (ground (arith, l.only i (ap stage at), at, at'))
  log-Phase last at (writes k last' ws rest l at' held whole) =
      let same : k ≡ i = l.only i (ap stage at) in
      (
        gather us (k ∷ ws),
        rw (sym same) held,
        wrote k last ws rest
            (record {
              front = l.front;
              ends = rw (last_same k last last' same at at') l.ends;
              only = λ j leads. elim (Bool-cases (i == j)) [
                | inl e ↦ let e' : i ≡ j = ground arith in same ∙ e'
                | inr ne ↦ l.only j (ground (arith, ne, leads))
              ];
            })
            (ground (arith, same)) (whole_logged k ws rest _ l.front whole),
      )

  pub write_log-Inv : (last : ℕ) → s.pc i ≡ writing last → Inv us order (write_log i last s)
  unfolding write_log
  write_log-Inv last at =
      let (vs, held, next) = log-Phase last at v.phase in
      record {
        apart = v.apart;
        members = λ j there. ground (arith, v.members j there);
        undone = v.undone;
        waits = λ j w. ground (arith, v.waits j, w);
        own = λ j early. v.own j (ground (arith, early));
        logged = v.logged ++ vs;
        log = entry (s.batch i) vs v.log held;
        phase = next;
      }

  -- The leader that has written its group.
  pub written-Phase :
      (last : ℕ) {logged : List Update}
      → s.pc i ≡ written last
      → Phase us order s logged
      → (ws : List ℕ) × (rest : List ℕ) × Leads s i last ws rest
        × (logged ++ gather us rest ≡ gather us order)
  written-Phase last at (quiet no_leader whole) = absurd (no_leader i (ap stage at))
  written-Phase last at (writes k last' ws rest l at' held whole) =
      absurd (ground (arith, l.only i (ap stage at), at, at'))
  written-Phase last at (wrote k last' ws rest l at' whole) =
      let same : k ≡ i = l.only i (ap stage at) in
      let same_last : last ≡ last' = ground (arith, same, at, at') in
      (ws, rest, rw (sym same, same_last) l, whole)

  unfoldable pub finished : (last : ℕ) (ws rest : List ℕ) → Db
  finished last ws rest = record s {
    queue = rest;
    done = mark i (i ∷ ws) s.done;
    pc = update s.pc i returned;
  }

  pub finish-finished :
      (last : ℕ) (ws rest : List ℕ)
      → Leads s i last ws rest
      → finish i last s ≡ some (finished last ws rest)
  unfolding finish finished
  finish-finished last ws rest l = rw (l.front, release-mark i last rest s.done l.ends) refl

  in_queue :
      (j : ℕ) (ws rest : List ℕ)
      → s.queue ≡ i ∷ (ws ++ rest)
      → elem j s.queue ≡ (elem j (i ∷ ws) || elem j rest)
  in_queue j ws rest front = rw front (elem_append j (i ∷ ws) rest)

  off_group :
      (j : ℕ) (ws rest : List ℕ)
      → s.queue ≡ i ∷ (ws ++ rest)
      → elem j rest ≡ true
      → elem j (i ∷ ws) ≡ false
  off_group j ws rest front there = elim (Bool-cases (elem j (i ∷ ws))) [
    | inr out ↦ out
    | inl in_group ↦
        absurd
          (ground (arith, Apart-disjoint j (i ∷ ws) rest (rw front at v.apart) in_group, there))
  ]

  finished-Inv :
      (last : ℕ) (ws rest : List ℕ)
      → s.pc i ≡ written last
      → Leads s i last ws rest
      → v.logged ++ gather us rest ≡ gather us order
      → Inv us order (finished last ws rest)
  unfolding finished
  finished-Inv last ws rest at l whole = record {
    apart = Apart-right (i ∷ ws) rest (rw l.front at v.apart);
    members = λ j there.
        ground (arith, there, in_queue j ws rest l.front, off_group j ws rest l.front, v.members j);
    undone = λ j there. ground (
      arith,
      mark_lem i (i ∷ ws) s.done j,
      there,
      in_queue j ws rest l.front,
      off_group j ws rest l.front,
      v.undone j,
    );
    waits = λ j w.
        ground (arith, mark_lem i (i ∷ ws) s.done j, w, in_queue j ws rest l.front, v.waits j);
    own = λ j early. v.own j (ground (arith, early));
    logged = v.logged;
    log = v.log;
    phase = quiet (λ j leads. ground (arith, leads, l.only j)) whole;
  }

  pub finish-Inv :
      (last : ℕ) → s.pc i ≡ written last → (t : Db) × (finish i last s ≡ some t) × Inv us order t
  finish-Inv last at =
      let (ws, rest, l, whole) = written-Phase last at v.phase in
      (finished last ws rest, finish-finished last ws rest l, finished-Inv last ws rest at l whole)
