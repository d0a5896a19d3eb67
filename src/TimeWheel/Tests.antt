-- ===== src/TimeWheel/Tests.antt =====
-- Runs of the timer wheel of example-time-wheel at concrete timers.
use c_plus_plus_examples.Base.{
  elem, ◌+◌, ◌-◌, ◌%◌, ◌^◌, ◌≡◌, ◌⊎◌, refl, true, [], ◌∷◌, some, arith, All,
}
use c_plus_plus_examples.TimeWheel.{TimeWheel, init, add_timer, tick}
use c_plus_plus_examples.TimeWheel.Safety.{Fires}
use c_plus_plus_examples.TimeWheel.Pending.{Pending, add_accepts}
use c_plus_plus_examples.TimeWheel.Called.{ticks, add_called_in_time}
use c_plus_plus_examples.TimeWheel.Tick.{tick-Fires, tick_keeps}

-- Timer 7 is due at time 1, in a new wheel.
unfoldable new_wheel : TimeWheel
unfolding init
new_wheel = init (λ _. record { expires = 1; active = true })

abbrev one_timer : TimeWheel
one_timer = (add_timer new_wheel (some 7)).0

-- Slot 0 comes first, so the timer in slot 1 is called by the second tick, at time 2.
not_yet : (tick one_timer).1 ≡ []
unfolding tick add_timer new_wheel
not_yet = refl

late : (tick (tick one_timer).0).1 ≡ 7 ∷ []
unfolding tick add_timer new_wheel
late = refl

tick-Fires_example :
    All
      (Fires
        (((tick one_timer).0.now + 1) % 2 ^ 64)
        (tick one_timer).0.timers
        (tick (tick one_timer).0).0.timers)
      (tick (tick one_timer).0).1
tick-Fires_example = tick-Fires (tick one_timer).0

tick_keeps_example : (elem 7 (tick one_timer).1 ≡ true) ⊎ Pending (tick one_timer).0 7
unfolding add_timer new_wheel
tick_keeps_example =
    tick_keeps one_timer 7 (omega arith) (add_accepts new_wheel 7 refl (omega arith)).1

-- After two ticks slot 1 lies behind, and a timer that is due at time 3 waits for a whole turn.
unfoldable turned_wheel : TimeWheel
unfolding init ticks
turned_wheel = (ticks 2 (init (λ _. record { expires = 3; active = true }))).0

abbrev behind : TimeWheel
behind = (add_timer turned_wheel (some 7)).0

not_called : (ticks 255 behind).1 ≡ []
unfolding ticks add_timer turned_wheel tick
not_called = refl

called : (ticks 256 behind).1 ≡ 7 ∷ []
unfolding ticks add_timer turned_wheel tick
called = refl

add_called_in_time_example :
    elem 7 (ticks ((turned_wheel.timers 7).expires - (turned_wheel.now + 1) + 256) behind).1 ≡ true
unfolding turned_wheel tick
add_called_in_time_example =
    add_called_in_time turned_wheel 7 (omega arith) refl (omega arith) (omega arith)
