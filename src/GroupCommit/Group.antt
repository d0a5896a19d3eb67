-- ===== src/GroupCommit/Group.antt =====
-- `BuildBatchGroup` of example-ping-pong-batch/main.cc: which writers it takes, and what their
-- batch is.
use c_plus_plus_examples.Base.{
  ℕ, ◌+◌, ◌^◌, ◌<◌, ◌≡◌, refl, sym, ap, true, false, List, [], ◌∷◌, ◌++◌, append_assoc, append-nil,
  arith, elem, length, length-append, Apart, Bool-cases, inl, inr, Apart,
}
use c_plus_plus_examples.WriteBatch
use c_plus_plus_examples.WriteBatch.{WriteBatch}
use c_plus_plus_examples.WriteBatch.Format.{Update, Represents}
use c_plus_plus_examples.WriteBatch.Represents.{with_appended-Represents, Represents-reads}
use c_plus_plus_examples.GroupCommit.{is_full, group_loop}
use c_plus_plus_examples.GroupCommit.Queue.{EndsWith, one, more, ne-EndsWith}

-- The updates of the writers in a list, in its order.
abbrev pub gather : (ℕ → List Update) → List ℕ → List Update
gather us [] = []
gather us (i ∷ l) = us i ++ gather us l

pub gather-append :
    (us : ℕ → List Update) (l m : List ℕ) → gather us (l ++ m) ≡ gather us l ++ gather us m
gather-append us [] m = refl
gather-append us (i ∷ l) m = rw (gather-append us l m, append_assoc) refl

-- A batch with a number of updates that an `int` holds.
pub record Holds (b : WriteBatch) (us : List Update) : Type 0 where
  pub seq : ℕ
  pub batch : Represents b seq us
  pub few : length us < 2 ^ 31

-- The batch that is made is that of the first writer with a first part of the others appended.
pub record Grouped (us : ℕ → List Update) (vs : List Update) (first : ℕ) (ws : List ℕ)
    (out : WriteBatch × ℕ) : Type 0 where
  pub group : List ℕ
  pub rest : List ℕ
  pub parts : ws ≡ group ++ rest
  pub ends : EndsWith out.1 (first ∷ group)
  pub made : Holds out.0 (vs ++ gather us group)

is_full_count : (b : WriteBatch) (us : List Update) → Holds b us → is_full b ≡ false → length us < 2
unfolding is_full
is_full_count b us h full =
    let count : WriteBatch.count b ≡ length us =
      (Represents-reads b h.seq 0 us h.batch (omega arith)).0 in
    ground (arith, count, full, h.few)

append-Holds :
    (b c : WriteBatch) (us vs : List Update)
    → Holds b us
    → length us < 2
    → Holds c vs
    → length vs + 1 < 2 ^ 31
    → Holds (WriteBatch.with_appended b c) (us ++ vs)
append-Holds b c us vs h short k small = record {
  seq = h.seq;
  batch = with_appended-Represents b c h.seq k.seq us vs h.batch k.batch (omega arith);
  few = omega (arith, length-append us vs);
}

module _ (us : ℕ → List Update) (batch : ℕ → WriteBatch) where
  pub group_loop-Grouped :
      (result : WriteBatch) (vs : List Update) (first : ℕ) (ws : List ℕ)
      → Holds result vs
      → Apart (first ∷ ws)
      → ((j : ℕ) → elem j ws ≡ true → Holds (batch j) (us j))
      → ((j : ℕ) → length (us j) + 1 < 2 ^ 31)
      → Grouped us vs first ws (group_loop batch result first ws)
  unfolding group_loop
  group_loop-Grouped result vs first [] h d hold small = record {
    group = [];
    rest = [];
    parts = refl;
    ends = one first refl;
    made = rw append-nil h;
  }
  group_loop-Grouped result vs first (w ∷ ws) h d hold small = elim (Bool-cases (is_full result)) [
    | inl full ↦ rw full (record {
      group = [];
      rest = w ∷ ws;
      parts = refl;
      ends = one first refl;
      made = rw append-nil h;
    })
    | inr space ↦
        let next =
          group_loop-Grouped (WriteBatch.with_appended result (batch w)) (vs ++ us w) w ws
            (append-Holds result (batch w) vs (us w) h (is_full_count result vs h space)
              (hold w (ground arith)) (small w))
            d.1 (λ j there. hold j (ground (arith, there))) small in
        rw space (record {
          group = w ∷ next.group;
          rest = next.rest;
          parts = ap (λ l. w ∷ l) next.parts;
          ends =
              more first
                (ne-EndsWith first _ (w ∷ next.group) next.rest (w ∷ ws) next.ends
                  (ap (λ l. w ∷ l) next.parts) d.0)
                next.ends;
          made = rw (sym (append_assoc vs (us w) (gather us next.group))) next.made;
        })
  ]
