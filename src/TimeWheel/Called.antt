-- ===== src/TimeWheel/Called.antt =====
-- When the timers of level 0 of example-time-wheel/time_wheel.cc are called.
use c_plus_plus_examples.Base.{
  elem, elem_append, ℕ, zero, suc, ◌+◌, ◌-◌, ◌%◌, ◌^◌, ◌≤◌, ◌<◌, ◌≡◌, refl, sym, ap, ◌∙◌, true,
  false, List, [], ◌∷◌, ◌++◌, arith, leb, ◌||◌, Bool-cases, inl, inr, some,
}
use c_plus_plus_examples.TimeWheel.{
  Timer, TimeWheel, tick, add_timer, push_back, get_level, get_slot, get_delta,
}
use c_plus_plus_examples.TimeWheel.Safety.{scan_due, scan_early, scan_unfired}
use c_plus_plus_examples.TimeWheel.Tick.{scanned, advanced, tick-Settles}
use c_plus_plus_examples.TimeWheel.Slots.{Place, slot_of_delay, level_0}
use c_plus_plus_examples.TimeWheel.Near.{tick-Grows}

-- A number of ticks, and the timers that they call.
unfoldable pub ticks : ℕ → TimeWheel → TimeWheel × List ℕ
ticks zero w = (w, [])
ticks (suc n) w = let rest = ticks n (tick w).0 in (rest.0, (tick w).1 ++ rest.1)

-- Where a timer of level 0 waits, and when: its slot, the current slot, and the time.
record Waits (w : TimeWheel) (t slot idx now : ℕ) (timer : Timer) : Type 0 where
  here : elem t (w.tv 0 slot) ≡ true
  same_idx : w.tv_idx 0 ≡ idx
  same_now : w.now ≡ now
  same_timer : w.timers t ≡ timer

tick_calls : (w : TimeWheel) → (tick w).1 ≡ (scanned w).expired
unfolding tick scanned
tick_calls w = refl

-- The current slot calls what is due, and keeps what is not.
scanned_due :
    (w : TimeWheel) (t : ℕ)
    → w.now + 1 < 2 ^ 64
    → (w.timers t).active ≡ true
    → (w.timers t).expires ≤ w.now + 1
    → elem t (w.tv 0 (w.tv_idx 0)) ≡ true
    → elem t (tick w).1 ≡ true
unfolding scanned
scanned_due w t small act due here =
    rw (tick_calls w)
      (scan_due ((w.now + 1) % 2 ^ 64) w.timers (w.tv 0 (w.tv_idx 0)) t act (ground arith) here)

advanced_here :
    (w : TimeWheel) (t slot : ℕ)
    → (w.timers t).active ≡ true
    → elem t (w.tv 0 slot) ≡ true
    → elem t (scanned w).expired ≡ false
    → elem t ((advanced w).tv 0 slot) ≡ true
unfolding advanced scanned
advanced_here w t slot act here unfired = ground (
  arith,
  here,
  act,
  unfired,
  scan_due ((w.now + 1) % 2 ^ 64) w.timers (w.tv 0 slot) t act,
  scan_early ((w.now + 1) % 2 ^ 64) w.timers (w.tv 0 slot) t act,
)

advanced_now : (w : TimeWheel) → w.now + 1 < 2 ^ 64 → (advanced w).now ≡ w.now + 1
unfolding advanced
advanced_now w small = omega arith

advanced_idx : (w : TimeWheel) → (advanced w).tv_idx 0 ≡ (w.tv_idx 0 + 1) % 256
unfolding advanced
advanced_idx w = refl

advanced_timer :
    (w : TimeWheel) (t : ℕ)
    → elem t (scanned w).expired ≡ false
    → (advanced w).timers t ≡ w.timers t
unfolding advanced scanned
advanced_timer w t = scan_unfired ((w.now + 1) % 2 ^ 64) w.timers (w.tv 0 (w.tv_idx 0)) t

-- A timer of level 0 that a tick does not call stays in its slot.
tick-Waits :
    (w : TimeWheel) (t slot : ℕ)
    → w.now + 1 < 2 ^ 64
    → (w.timers t).active ≡ true
    → elem t (w.tv 0 slot) ≡ true
    → elem t (tick w).1 ≡ false
    → Waits (tick w).0 t slot ((w.tv_idx 0 + 1) % 256) (w.now + 1) (w.timers t)
tick-Waits w t slot small act here uncalled =
    let unfired : elem t (scanned w).expired ≡ false = rw (sym (tick_calls w)) uncalled in
    record {
      here = (tick-Grows w).kept t slot (advanced_here w t slot act here unfired);
      same_idx = (tick-Grows w).same_idx ∙ advanced_idx w;
      same_now = (tick-Settles w).same_now ∙ advanced_now w small;
      same_timer = ap (λ f. f t) (tick-Settles w).same_timers ∙ advanced_timer w t unfired;
    }

ticks-suc :
    (n t : ℕ) (w : TimeWheel)
    → elem t (ticks (suc n) w).1 ≡ elem t (tick w).1 || elem t (ticks n (tick w).0).1
unfolding ticks
ticks-suc n t w = elem_append t (tick w).1 (ticks n (tick w).0).1

ticks_more :
    (n k t : ℕ) (w : TimeWheel) → elem t (ticks n w).1 ≡ true → elem t (ticks (n + k) w).1 ≡ true
unfolding ticks
ticks_more zero k t w h = ground arith
ticks_more (suc n) k t w h =
    let one : suc n + k ≡ suc (n + k) = omega arith in
    rw one (ground (arith, h, ticks-suc n t w, ticks-suc (n + k) t w, ticks_more n k t (tick w).0))

-- The tick after `m` others finds the slot of the timer current, and the timer due.
called_at :
    (m : ℕ) (w : TimeWheel) (t slot : ℕ)
    → w.now + m + 1 < 2 ^ 64
    → w.tv_idx 0 < 256
    → (w.tv_idx 0 + m) % 256 ≡ slot
    → (w.timers t).active ≡ true
    → (w.timers t).expires ≤ w.now + m + 1
    → elem t (w.tv 0 slot) ≡ true
    → elem t (ticks (suc m) w).1 ≡ true
called_at zero w t slot small idx turns act due here =
    let current : slot ≡ w.tv_idx 0 = omega (arith, turns, idx) in
    let now = scanned_due w t (omega arith) act (omega (arith, due)) (rw (sym current) here) in
    rw (ticks-suc zero t w, now) refl
called_at (suc m) w t slot small idx turns act due here = elim (Bool-cases (elem t (tick w).1)) [
  | inl now ↦ rw (ticks-suc (suc m) t w, now) refl
  | inr later ↦
      let next = tick-Waits w t slot (omega arith) act here later in
      let rest : elem t (ticks (suc m) (tick w).0).1 ≡ true =
        called_at m (tick w).0 t slot (rw next.same_now (omega arith))
          (rw next.same_idx (omega arith)) (rw next.same_idx (omega arith)) (rw next.same_timer act)
          (rw (next.same_timer, next.same_now) (omega arith)) next.here in
      rw (ticks-suc (suc m) t w, later) rest
]

-- An active timer in a slot of level 0 is called, whatever the slot, at the latest 255 ticks after
-- the first tick at which it is due, while the 64-bit time does not wrap.
called_in_time :
    (w : TimeWheel) (t slot : ℕ)
    → w.tv_idx 0 < 256
    → slot < 256
    → (w.timers t).active ≡ true
    → elem t (w.tv 0 slot) ≡ true
    → w.now + ((w.timers t).expires - (w.now + 1)) + 256 < 2 ^ 64
    → elem t (ticks ((w.timers t).expires - (w.now + 1) + 256) w).1 ≡ true
called_in_time w t slot idx inside act here small =
    let e = (w.timers t).expires - (w.now + 1) in
    let turn = (slot + 256 - (w.tv_idx 0 + e) % 256) % 256 in
    let called : elem t (ticks (suc (e + turn)) w).1 ≡ true =
      called_at (e + turn) w t slot (omega arith) idx (omega arith) act (omega arith) here in
    let all : e + 256 ≡ suc (e + turn) + (255 - turn) = omega arith in
    rw all (ticks_more (suc (e + turn)) (255 - turn) t w called)

near_add :
    (w : TimeWheel) (t : ℕ)
    → (w.timers t).active ≡ true
    → get_delta w t < 256
    → (add_timer w (some t)).0 ≡ push_back w 0 (get_slot 0 (get_delta w t)) t
unfolding add_timer
near_add w t act near =
    let level : get_level (get_delta w t) ≡ 0 = level_0 (get_delta w t) (omega arith) in
    let accepted : leb (2 ^ 32) (get_delta w t) ≡ false = ground arith in
    rw (act, accepted, level) refl

expires_delta : (w : TimeWheel) (t : ℕ) → (w.timers t).expires ≤ w.now + get_delta w t
unfolding get_delta
expires_delta w t = ground arith

pushed : (w : TimeWheel) (slot t : ℕ) → elem t ((push_back w 0 slot t).tv 0 slot) ≡ true
unfolding push_back
pushed w slot t = ground (arith, elem_append t (w.tv 0 slot) (t ∷ []))

-- An active timer that is added with a delay below 256 ticks is called at the latest 255 ticks
-- after the first tick at which it is due, if the current slot of level 0 is one that the array has
-- and the 64-bit time is not within 512 ticks of its end.
pub add_called_in_time :
    (w : TimeWheel) (t : ℕ)
    → w.tv_idx 0 < 256
    → (w.timers t).active ≡ true
    → get_delta w t < 256
    → w.now + 512 < 2 ^ 64
    → elem t (ticks ((w.timers t).expires - (w.now + 1) + 256) (add_timer w (some t)).0).1 ≡ true
unfolding push_back
add_called_in_time w t idx act near small =
    let delta = get_delta w t in
    let slot = get_slot 0 delta in
    let place : Place (get_level delta) (get_slot (get_level delta) delta) delta =
      slot_of_delay delta (omega arith) in
    let inside : slot < 256 = rw (sym (level_0 delta (omega arith))) place.slot_bound in
    let soon : (w.timers t).expires ≤ w.now + delta = expires_delta w t in
    rw (near_add w t act near)
      (called_in_time (push_back w 0 slot t) t slot idx inside act (pushed w slot t) (omega arith))
