-- ===== src/TimeWheel/Cascade.antt =====
-- Cascade of example-time-wheel/time_wheel.cc, and the timers that wait.
use c_plus_plus_examples.Base.{
  ℕ, zero, suc, ◌+◌, ◌%◌, ◌^◌, ◌<◌, ◌≡◌, refl, ◌∙◌, Bool, true, false, [], arith, ltb, ◌==◌, ◌&&◌,
  if◌then◌else◌, Bool-cases, inl, inr,
}
use c_plus_plus_examples.TimeWheel.{
  TimeWheel, set_slot, set_idx, add_all, cascade, tvn_size, tvn_num,
}
use c_plus_plus_examples.TimeWheel.Pending.{Held, Pending, add_all-Moves, add_all-Held}

-- What Cascade does: every timer that waits still waits.
pub record Settles (w w' : TimeWheel) : Type 0 where
  pub same_now : w'.now ≡ w.now
  pub same_timers : w'.timers ≡ w.timers
  pub kept : (t : ℕ) → Pending w t → Pending w' t

Settles-trans : {u v w : TimeWheel} → Settles u v → Settles v w → Settles u w
Settles-trans a b = record {
  same_now = b.same_now ∙ a.same_now;
  same_timers = b.same_timers ∙ a.same_timers;
  kept = λ t h. b.kept t (a.kept t h);
}

unfoldable pub cleared : TimeWheel → ℕ → ℕ → TimeWheel
cleared w i j = record w { tv = set_slot w.tv i j [] }

-- One level: its slot is emptied, and its active timers are added again.
unfoldable pub emptied : TimeWheel → ℕ → TimeWheel
emptied w i = add_all (w.tv i (w.tv_idx i)) (cleared w i (w.tv_idx i))

emptied-Held :
    (w : TimeWheel) (i t : ℕ)
    → (w.timers t).active ≡ true
    → (w.timers t).expires < w.now + 2 ^ 32
    → Held w.tv t
    → Held (emptied w i).tv t
unfolding emptied cleared
emptied-Held w i t act soon h = elim (Bool-cases (i == h.level && w.tv_idx i == h.slot)) [
  | inl same ↦
      let at_level : i ≡ h.level = ground arith in
      let at_slot : w.tv_idx i ≡ h.slot = ground arith in
      add_all-Held (w.tv i (w.tv_idx i)) (cleared w i (w.tv_idx i)) t act soon
        (rw (at_slot, at_level) h.here)
  | inr other ↦ (add_all-Moves (w.tv i (w.tv_idx i)) (cleared w i (w.tv_idx i))).kept t (record {
    level = h.level;
    slot = h.slot;
    level_bound = h.level_bound;
    slot_bound = h.slot_bound;
    here = rw other h.here;
  })
]

emptied-Settles : (w : TimeWheel) (i : ℕ) → Settles w (emptied w i)
unfolding emptied cleared
emptied-Settles w i =
    let moves = add_all-Moves (w.tv i (w.tv_idx i)) (cleared w i (w.tv_idx i)) in
    record {
      same_now = moves.same_now;
      same_timers = moves.same_timers;
      kept = λ t p. record {
        active = rw moves.same_timers p.active;
        soon = rw (moves.same_timers, moves.same_now) p.soon;
        held = emptied-Held w i t p.active p.soon p.held;
      };
    }

unfoldable pub turned : TimeWheel → ℕ → TimeWheel
turned w i = record w { tv_idx = set_idx w.tv_idx i ((w.tv_idx i + 1) % tvn_size) }

turned-Settles : (w : TimeWheel) (i : ℕ) → Settles w (turned w i)
unfolding turned
turned-Settles w i = record {
  same_now = refl;
  same_timers = refl;
  kept = λ t p. record { active = p.active; soon = p.soon; held = p.held };
}

pub either_Settles :
    {u v w : TimeWheel} (b : Bool) → Settles w u → Settles w v → Settles w (if b then u else v)
either_Settles true a b = a
either_Settles false a b = b

-- Cascade keeps the timers and the time, and every timer that waits keeps waiting.
pub cascade-Settles : (levels i : ℕ) (w : TimeWheel) → Settles w (cascade levels i w)
unfolding cascade emptied cleared turned
cascade-Settles zero i w = record { same_now = refl; same_timers = refl; kept = λ t p. p }
cascade-Settles (suc levels) i w =
    let w2 = turned (emptied w i) i in
    let done : Settles w w2 =
      Settles-trans (emptied-Settles w i) (turned-Settles (emptied w i) i) in
    either_Settles (((emptied w i).tv_idx i + 1) % tvn_size == 0 && ltb (i + 1) tvn_num)
      (Settles-trans done (cascade-Settles levels (i + 1) w2)) done
