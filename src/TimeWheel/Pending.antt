-- ===== src/TimeWheel/Pending.antt =====
-- The timers that wait in the slots of example-time-wheel/time_wheel.cc, through AddTimer.
use c_plus_plus_examples.Base.{
  elem, ℕ, ◌+◌, ◌^◌, ◌<◌, ◌≡◌, refl, ◌∙◌, true, false, List, [], ◌∷◌, ◌++◌, arith, leb, ◌==◌,
  if◌then◌else◌, Bool-cases, inl, inr, some,
}
use c_plus_plus_examples.TimeWheel.{
  TimeWheel, get_level, get_slot, get_delta, push_back, add_timer, add_all,
}
use c_plus_plus_examples.TimeWheel.Slots.{slot_of_delay}

-- `t` is in a slot of the array.
pub record Held (tv : ℕ → ℕ → List ℕ) (t : ℕ) : Type 0 where
  pub level : ℕ
  pub slot : ℕ
  pub level_bound : level < 4
  pub slot_bound : slot < 256
  pub here : elem t (tv level slot) ≡ true

-- An active timer that waits, with a delay that AddTimer accepts.
pub record Pending (w : TimeWheel) (t : ℕ) : Type 0 where
  pub active : (w.timers t).active ≡ true
  pub soon : (w.timers t).expires < w.now + 2 ^ 32
  pub held : Held w.tv t

elem-append : (t : ℕ) (l m : List ℕ) → elem t l ≡ true → elem t (l ++ m) ≡ true
elem-append t [] m h = ground arith
elem-append t (u ∷ l) m h = ground (arith, elem-append t l m)

elem_last : (t : ℕ) (l : List ℕ) → elem t (l ++ (t ∷ [])) ≡ true
elem_last t [] = ground arith
elem_last t (u ∷ l) = ground (arith, elem_last t l)

-- What a step that only moves timers does: none gets lost that had `t` waiting.
pub record Moves (w w' : TimeWheel) : Type 0 where
  pub same_now : w'.now ≡ w.now
  pub same_timers : w'.timers ≡ w.timers
  pub kept : (t : ℕ) → Held w.tv t → Held w'.tv t

Moves-refl : (w : TimeWheel) → Moves w w
Moves-refl w = record { same_now = refl; same_timers = refl; kept = λ t h. h }

Moves-trans : {u v w : TimeWheel} → Moves u v → Moves v w → Moves u w
Moves-trans a b = record {
  same_now = b.same_now ∙ a.same_now;
  same_timers = b.same_timers ∙ a.same_timers;
  kept = λ t h. b.kept t (a.kept t h);
}

Held-pushed : (w : TimeWheel) (i j t u : ℕ) → Held w.tv u → Held (push_back w i j t).tv u
unfolding push_back
Held-pushed w i j t u h = record {
  level = h.level;
  slot = h.slot;
  level_bound = h.level_bound;
  slot_bound = h.slot_bound;
  here = ground (arith, h.here, elem-append u (w.tv i j) (t ∷ []));
}

push_Moves : (w : TimeWheel) (i j t : ℕ) → Moves w (push_back w i j t)
unfolding push_back
push_Moves w i j t = record {
  same_now = refl;
  same_timers = refl;
  kept = λ u h. Held-pushed w i j t u h;
}

add_Moves : (w : TimeWheel) (t : ℕ) → Moves w (add_timer w (some t)).0
unfolding add_timer
add_Moves w t = elim (Bool-cases (w.timers t).active) [
  | inr idle ↦ rw idle (Moves-refl w)
  | inl act ↦ elim (Bool-cases (leb (2 ^ 32) (get_delta w t))) [
    | inl far ↦ rw (act, far) (Moves-refl w)
    | inr near ↦
        rw (act, near)
          (push_Moves w (get_level (get_delta w t))
            (get_slot (get_level (get_delta w t)) (get_delta w t)) t)
  ]
]

soon-get_delta :
    (w : TimeWheel) (t : ℕ) → (w.timers t).expires < w.now + 2 ^ 32 → get_delta w t < 2 ^ 32
unfolding get_delta
soon-get_delta w t h = ground arith

Held-new : (w : TimeWheel) (i j t : ℕ) → i < 4 → j < 256 → Held (push_back w i j t).tv t
unfolding push_back
Held-new w i j t hi hj = record {
  level = i;
  slot = j;
  level_bound = hi;
  slot_bound = hj;
  here = ground (arith, elem_last t (w.tv i j));
}

add_Held :
    (w : TimeWheel) (t : ℕ)
    → (w.timers t).active ≡ true
    → (w.timers t).expires < w.now + 2 ^ 32
    → Held (add_timer w (some t)).0.tv t
unfolding add_timer
add_Held w t act soon =
    let near : leb (2 ^ 32) (get_delta w t) ≡ false = ground (arith, soon-get_delta w t soon) in
    let place = slot_of_delay (get_delta w t) (soon-get_delta w t soon) in
    rw (act, near) (Held-new w _ _ t place.level_bound place.slot_bound)

-- AddTimer on an active timer that is due within 2 ^ 32 ticks returns true, and the timer waits.
pub add_accepts :
    (w : TimeWheel) (t : ℕ)
    → (w.timers t).active ≡ true
    → (w.timers t).expires < w.now + 2 ^ 32
    → ((add_timer w (some t)).1 ≡ true) × Pending (add_timer w (some t)).0 t
unfolding add_timer
add_accepts w t act soon = (
  answered,
  record {
    active = rw (add_Moves w t).same_timers act;
    soon = rw ((add_Moves w t).same_timers, (add_Moves w t).same_now) soon;
    held = add_Held w t act soon;
  },
)
  where
    answered : (add_timer w (some t)).1 ≡ true
    answered =
        let near : leb (2 ^ 32) (get_delta w t) ≡ false = ground (arith, soon-get_delta w t soon) in
        rw (act, near) refl

add_active : TimeWheel → ℕ → TimeWheel
add_active w t = if (w.timers t).active then (add_timer w (some t)).0 else w

add_active-Moves : (w : TimeWheel) (t : ℕ) → Moves w (add_active w t)
unfolding add_active
add_active-Moves w t = elim (Bool-cases (w.timers t).active) [
  | inl act ↦ rw act (add_Moves w t)
  | inr idle ↦ rw idle (Moves-refl w)
]

pub add_all-Moves : (l : List ℕ) (w : TimeWheel) → Moves w (add_all l w)
unfolding add_all add_active
add_all-Moves [] w = Moves-refl w
add_all-Moves (t ∷ l) w = Moves-trans (add_active-Moves w t) (add_all-Moves l (add_active w t))

pub add_all-Held :
    (l : List ℕ) (w : TimeWheel) (t : ℕ)
    → (w.timers t).active ≡ true
    → (w.timers t).expires < w.now + 2 ^ 32
    → elem t l ≡ true
    → Held (add_all l w).tv t
unfolding add_all add_active
add_all-Held [] w t act soon h = absurd (ground (arith, h))
add_all-Held (u ∷ l) w t act soon h = elim (Bool-cases (u == t)) [
  | inl e ↦
      let same : u ≡ t = ground arith in
      (add_all-Moves l (add_active w u)).kept t (rw same (rw act (add_Held w t act soon)))
  | inr e ↦
      let moves = add_active-Moves w u in
      add_all-Held l (add_active w u) t (rw moves.same_timers act)
        (rw (moves.same_timers, moves.same_now) soon) (ground (arith, h, e))
]
