-- ===== src/TimeWheel/Slots.antt =====
-- Where AddTimer of example-time-wheel/time_wheel.cc puts a timer, by its delay.
use c_plus_plus_examples.Base.{
  ℕ, ◌+◌, ◌-◌, ◌*◌, ◌/◌, ◌%◌, ◌^◌, ◌<◌, ◌≤◌, ◌≡◌, min, arith, dec_lt, bit_and,
}
use c_plus_plus_examples.Base.Bits.{bit_and_255}
use c_plus_plus_examples.TimeWheel.{get_level, get_slot}

-- A level and a slot that the array has, and the delays that belong there.
pub record Place (level slot delta : ℕ) : Type 0 where
  pub level_bound : level < 4
  pub slot_bound : slot < 256
  pub delay : delta / 2 ^ (8 * level) ≡ slot + min level 1

low_bits : (x : ℕ) → bit_and x 255 < 256
low_bits x = omega (arith, bit_and_255 x)

pub level_0 : (delta : ℕ) → delta < 2 ^ 8 → get_level delta ≡ 0
unfolding get_level
level_0 delta a = ground arith

level_1 : (delta : ℕ) → 2 ^ 8 ≤ delta → delta < 2 ^ 16 → get_level delta ≡ 1
unfolding get_level
level_1 delta a b = ground arith

level_2 : (delta : ℕ) → 2 ^ 16 ≤ delta → delta < 2 ^ 24 → get_level delta ≡ 2
unfolding get_level
level_2 delta a b = ground arith

level_3 : (delta : ℕ) → 2 ^ 24 ≤ delta → get_level delta ≡ 3
unfolding get_level
level_3 delta a = ground arith

Place-0 : (delta : ℕ) → delta < 2 ^ 8 → Place 0 (get_slot 0 delta) delta
unfolding get_slot
Place-0 delta a = record {
  level_bound = omega arith;
  slot_bound = low_bits delta;
  delay = omega (arith, bit_and_255 delta);
}

Place-1 : (delta : ℕ) → 2 ^ 8 ≤ delta → delta < 2 ^ 16 → Place 1 (get_slot 1 delta) delta
unfolding get_slot
Place-1 delta a b = record {
  level_bound = omega arith;
  slot_bound = low_bits ((delta - 2 ^ 8) % 2 ^ 32 / 2 ^ 8);
  delay = omega (arith, bit_and_255 ((delta - 2 ^ 8) % 2 ^ 32 / 2 ^ 8));
}

Place-2 : (delta : ℕ) → 2 ^ 16 ≤ delta → delta < 2 ^ 24 → Place 2 (get_slot 2 delta) delta
unfolding get_slot
Place-2 delta a b = record {
  level_bound = omega arith;
  slot_bound = low_bits ((delta - 2 ^ 16) % 2 ^ 32 / 2 ^ 16);
  delay = omega (arith, bit_and_255 ((delta - 2 ^ 16) % 2 ^ 32 / 2 ^ 16));
}

Place-3 : (delta : ℕ) → 2 ^ 24 ≤ delta → delta < 2 ^ 32 → Place 3 (get_slot 3 delta) delta
unfolding get_slot
Place-3 delta a b = record {
  level_bound = omega arith;
  slot_bound = low_bits ((delta - 2 ^ 24) % 2 ^ 32 / 2 ^ 24);
  delay = omega (arith, bit_and_255 ((delta - 2 ^ 24) % 2 ^ 32 / 2 ^ 24));
}

-- For a delay below 2 ^ 32 the level and the slot lie inside the array, and the slot is the number
-- of whole units of the level in the delay, less the first one above level 0.
pub slot_of_delay :
    (delta : ℕ) → delta < 2 ^ 32 → Place (get_level delta) (get_slot (get_level delta) delta) delta
slot_of_delay delta h = elim (dec_lt delta (2 ^ 8)) [
  | yes a ↦ rw (level_0 delta a) (Place-0 delta a)
  | no a ↦ elim (dec_lt delta (2 ^ 16)) [
    | yes b ↦ rw (level_1 delta (omega arith) b) (Place-1 delta (omega arith) b)
    | no b ↦ elim (dec_lt delta (2 ^ 24)) [
      | yes c ↦ rw (level_2 delta (omega arith) c) (Place-2 delta (omega arith) c)
      | no c ↦ rw (level_3 delta (omega arith)) (Place-3 delta (omega arith) h)
    ]
  ]
]
