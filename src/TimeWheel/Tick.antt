-- ===== src/TimeWheel/Tick.antt =====
-- Tick of example-time-wheel/time_wheel.cc: the timers that it calls, and those that it keeps.
use c_plus_plus_examples.Base.{
  elem, ℕ, ◌+◌, ◌%◌, ◌^◌, ◌<◌, ◌≡◌, refl, true, false, arith, leb, ◌==◌, ◌&&◌, Bool-cases, inl, inr,
  ◌⊎◌, All,
}
use c_plus_plus_examples.TimeWheel.{TimeWheel, Scan, scan, set_slot, set_idx, tick, tvn_size}
use c_plus_plus_examples.TimeWheel.Safety.{Fires, scan-Fires, scan_due, scan_early, scan_unfired}
use c_plus_plus_examples.TimeWheel.Pending.{Held, Pending}
use c_plus_plus_examples.TimeWheel.Cascade.{Settles, cascade-Settles, either_Settles}

-- The scan of the current slot, and the wheel before Cascade.
unfoldable pub scanned : TimeWheel → Scan
scanned w = scan ((w.now + 1) % 2 ^ 64) w.timers (w.tv 0 (w.tv_idx 0))

unfoldable pub advanced : TimeWheel → TimeWheel
advanced w = record {
  tv = set_slot w.tv 0 (w.tv_idx 0) (scanned w).kept;
  tv_idx = set_idx w.tv_idx 0 ((w.tv_idx 0 + 1) % tvn_size);
  now = (w.now + 1) % 2 ^ 64;
  timers = (scanned w).timers;
}

pub tick-Settles : (w : TimeWheel) → Settles (advanced w) (tick w).0
unfolding tick advanced scanned
tick-Settles w =
    either_Settles ((w.tv_idx 0 + 1) % tvn_size == 0) (cascade-Settles 3 1 (advanced w))
      (record { same_now = refl; same_timers = refl; kept = λ t p. p })

-- Every timer that a tick calls was active and due at the new time, and is inactive afterwards.
pub tick-Fires :
    (w : TimeWheel) → All (Fires ((w.now + 1) % 2 ^ 64) w.timers (tick w).0.timers) (tick w).1
unfolding tick advanced scanned
tick-Fires w = rw (tick-Settles w).same_timers (
    scan-Fires ((w.now + 1) % 2 ^ 64) w.timers w.timers (w.tv 0 (w.tv_idx 0)) (λ u h. h)
      (λ u. refl))

advanced-Held :
    (w : TimeWheel) (t : ℕ)
    → (w.timers t).active ≡ true
    → elem t (scanned w).expired ≡ false
    → Held w.tv t
    → Held (advanced w).tv t
unfolding advanced scanned
advanced-Held w t act unfired h = record {
  level = h.level;
  slot = h.slot;
  level_bound = h.level_bound;
  slot_bound = h.slot_bound;
  here = elim (Bool-cases (0 == h.level && w.tv_idx 0 == h.slot)) [
    | inr other ↦ rw other h.here
    | inl same ↦
        let at_level : 0 ≡ h.level = ground arith in
        let at_slot : w.tv_idx 0 ≡ h.slot = ground arith in
        let current : elem t (w.tv 0 (w.tv_idx 0)) ≡ true = rw (at_slot, at_level) h.here in
        rw same (elim (Bool-cases (leb (w.timers t).expires ((w.now + 1) % 2 ^ 64))) [
          | inl due ↦ absurd (
              ground (
                arith,
                unfired,
                scan_due ((w.now + 1) % 2 ^ 64) w.timers (w.tv 0 (w.tv_idx 0)) t act due current,
              ))
          | inr early ↦
              scan_early ((w.now + 1) % 2 ^ 64) w.timers (w.tv 0 (w.tv_idx 0)) t act early current
        ])
  ];
}

-- A timer that waits, active, in a slot and due within 2 ^ 32 ticks, is called by the next tick or
-- still waits after it, while the 64-bit time does not wrap.
pub tick_keeps :
    (w : TimeWheel) (t : ℕ)
    → w.now + 1 < 2 ^ 64
    → Pending w t
    → (elem t (tick w).1 ≡ true) ⊎ Pending (tick w).0 t
unfolding tick advanced scanned
tick_keeps w t small p = elim (Bool-cases (elem t (tick w).1)) [
  | inl fired ↦ inl fired
  | inr unfired ↦
      let same = scan_unfired ((w.now + 1) % 2 ^ 64) w.timers (w.tv 0 (w.tv_idx 0)) t unfired in
      inr (
        (tick-Settles w).kept t (record {
          active = rw same p.active;
          soon = rw same (omega (arith, p.soon));
          held = advanced-Held w t p.active unfired p.held;
        }))
]
