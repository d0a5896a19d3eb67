-- ===== src/DynamicBits/Functional.antt =====
-- The tests of example-dynamic-bits/main.cc. A failed `ASSERT` is `none`.
use c_plus_plus_examples.Base.{ℕ, ◌-◌, ◌^◌, not, Option, ◌==◌}
use c_plus_plus_examples.Base.Chain.{◌>>=◌, ◌>>◌, check}
use c_plus_plus_examples.DynamicBits.{
  DynamicBits, new_bits, nopos, test, set_bit, clear_bit, find_first_set, find_last_set,
  find_next_set,
}

-- `ASSERT(bits.test(i))` and `ASSERT(!bits.test(i))`.
is_in : ℕ → DynamicBits → Option (Unit {0})
is_in i bits = do b ← test bits i; check b

is_out : ℕ → DynamicBits → Option (Unit {0})
is_out i bits = do b ← test bits i; check (not b)

-- `ASSERT(pos == i)`, for the position that a search returns.
is_at : ℕ → Option ℕ → Option (Unit {0})
is_at i found = do pos ← found; check (pos == i)

unfoldable pub test_functional : Option (Unit {0})
unfolding is_in is_out is_at
test_functional = do
  bits ← new_bits 10000
  is_out 0 bits
  with_0 ← set_bit bits 0
  is_in 0 with_0
  without_0 ← clear_bit with_0 0
  is_out 0 without_0
  is_out 9527 without_0
  with_9527 ← set_bit without_0 9527
  is_in 9527 with_9527
  is_at 9527 (find_first_set with_9527)
  with_231 ← set_bit with_9527 231
  is_at 231 (find_first_set with_231)
  is_at 9527 (find_last_set with_231)
  without_9527 ← clear_bit with_231 9527
  is_out 9527 without_9527
  is_at 231 (find_last_set without_9527)

unfoldable pub test_find_next : Option (Unit {0})
unfolding is_at
test_find_next = do
  empty ← new_bits 10000
  a ← set_bit empty 0
  b ← set_bit a 64
  c ← set_bit b 4095
  d ← set_bit c 4096
  e ← set_bit d 9527
  bits ← set_bit e 8000
  is_at 0 (find_next_set bits (2 ^ 64 - 1))
  is_at 64 (find_next_set bits 0)
  is_at 4095 (find_next_set bits 64)
  is_at 4096 (find_next_set bits 4095)
  is_at 8000 (find_next_set bits 4096)
  is_at 9527 (find_next_set bits 8000)
  is_at nopos (find_next_set bits 9527)
