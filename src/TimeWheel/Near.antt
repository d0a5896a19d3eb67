-- ===== src/TimeWheel/Near.antt =====
-- What Cascade of example-time-wheel/time_wheel.cc, above level 0, does to level 0.
use c_plus_plus_examples.Base.{
  elem, elem_append, ℕ, zero, suc, ◌+◌, ◌%◌, ◌^◌, ◌<◌, ◌≡◌, refl, ◌∙◌, Bool, true, false, List, [],
  ◌∷◌, arith, leb, ltb, ◌==◌, ◌&&◌, Bool-cases, inl, inr, if◌then◌else◌, some,
}
use c_plus_plus_examples.TimeWheel.{
  TimeWheel, tick, tvn_size, tvn_num, cascade, add_all, add_timer, push_back, get_level, get_slot,
  get_delta,
}
use c_plus_plus_examples.TimeWheel.Cascade.{cleared, emptied, turned}
use c_plus_plus_examples.TimeWheel.Tick.{scanned, advanced}

-- What leaves level 0 as it is, but for timers that are added.
pub record Grows (w w' : TimeWheel) : Type 0 where
  pub same_idx : w'.tv_idx 0 ≡ w.tv_idx 0
  pub kept : (t slot : ℕ) → elem t (w.tv 0 slot) ≡ true → elem t (w'.tv 0 slot) ≡ true

Grows-trans : {u v w : TimeWheel} → Grows u v → Grows v w → Grows u w
Grows-trans a b = record {
  same_idx = b.same_idx ∙ a.same_idx;
  kept = λ t slot h. b.kept t slot (a.kept t slot h);
}

push_Grows : (w : TimeWheel) (level slot t : ℕ) → Grows w (push_back w level slot t)
unfolding push_back
push_Grows w level slot t = record {
  same_idx = refl;
  kept = λ u other h. ground (arith, h, elem_append u (w.tv level slot) (t ∷ []));
}

add_Grows : (w : TimeWheel) (t : ℕ) → Grows w (add_timer w (some t)).0
unfolding add_timer
add_Grows w t = elim (Bool-cases (w.timers t).active) [
  | inr idle ↦ rw idle (record { same_idx = refl; kept = λ u slot h. h })
  | inl act ↦ elim (Bool-cases (leb (2 ^ 32) (get_delta w t))) [
    | inl far ↦ rw (act, far) (record { same_idx = refl; kept = λ u slot h. h })
    | inr near ↦
        rw (act, near)
          (push_Grows w (get_level (get_delta w t))
            (get_slot (get_level (get_delta w t)) (get_delta w t)) t)
  ]
]

add_all-Grows : (l : List ℕ) (w : TimeWheel) → Grows w (add_all l w)
unfolding add_all
add_all-Grows [] w = record { same_idx = refl; kept = λ u slot h. h }
add_all-Grows (t ∷ l) w = elim (Bool-cases (w.timers t).active) [
  | inl act ↦ rw act (Grows-trans (add_Grows w t) (add_all-Grows l (add_timer w (some t)).0))
  | inr idle ↦ rw idle (add_all-Grows l w)
]

either_Grows : {u v w : TimeWheel} (b : Bool) → Grows w u → Grows w v → Grows w (if b then u else v)
either_Grows true a b = a
either_Grows false a b = b

turned-Grows : (w : TimeWheel) (i : ℕ) → 0 < i → Grows w (turned (emptied w i) i)
unfolding turned emptied cleared
turned-Grows w i above =
    let cleared_Grows : Grows w (cleared w i (w.tv_idx i)) = record {
      same_idx = refl;
      kept = λ t slot h. ground (arith, h, above);
    } in
    let grown =
      Grows-trans cleared_Grows (add_all-Grows (w.tv i (w.tv_idx i)) (cleared w i (w.tv_idx i))) in
    record { same_idx = ground (arith, above, grown.same_idx); kept = grown.kept }

-- Cascade above level 0 only adds to level 0.
cascade-Grows : (levels i : ℕ) (w : TimeWheel) → 0 < i → Grows w (cascade levels i w)
unfolding cascade emptied cleared turned
cascade-Grows zero i w above = record { same_idx = refl; kept = λ u slot h. h }
cascade-Grows (suc levels) i w above =
    let w2 = turned (emptied w i) i in
    let done = turned-Grows w i above in
    either_Grows (((emptied w i).tv_idx i + 1) % tvn_size == 0 && ltb (i + 1) tvn_num)
      (Grows-trans done (cascade-Grows levels (i + 1) w2 (omega arith))) done

pub tick-Grows : (w : TimeWheel) → Grows (advanced w) (tick w).0
unfolding tick advanced scanned
tick-Grows w =
    either_Grows ((w.tv_idx 0 + 1) % tvn_size == 0) (cascade-Grows 3 1 (advanced w) (omega arith))
      (record { same_idx = refl; kept = λ u s h. h })
