-- ===== src/WriteBatch/Tests.antt =====
-- Runs of example-ping-pong-batch/write_batch.cc, and its theorems at inputs.
use c_plus_plus_examples.Base.{◌-◌, ◌^◌, ◌≡◌, refl, false, some, [], ◌∷◌, arith}
use c_plus_plus_examples.Coding.{
  encode_fixed32, decode_fixed32, put_length_prefixed_slice, put_varint32, encode_varint32,
}
use c_plus_plus_examples.WriteBatch
use c_plus_plus_examples.WriteBatch.{WriteBatch, int_sum_fits}
use c_plus_plus_examples.WriteBatch.Format.{Update, Represents}
use c_plus_plus_examples.WriteBatch.Represents.{
  clear-Represents, with_put-Represents, put-Represents, append-Represents,
}

abbrev one : WriteBatch
one = WriteBatch.with_put WriteBatch.new_batch (1 ∷ []) (7 ∷ 8 ∷ [])

one_run : one.rep ≡ 0 ∷ 0 ∷ 0 ∷ 0 ∷ 0 ∷ 0 ∷ 0 ∷ 0 ∷ 1 ∷ 0 ∷ 0 ∷ 0 ∷ 1 ∷ 1 ∷ 1 ∷ 2 ∷ 7 ∷ 8 ∷ []
unfolding WriteBatch.with_put WriteBatch.new_batch WriteBatch.count WriteBatch.set_count
    encode_fixed32 decode_fixed32 put_length_prefixed_slice put_varint32 encode_varint32
one_run = refl

abbrev update : Update
update = Update.put (1 ∷ []) (7 ∷ 8 ∷ [])

new-Represents : Represents WriteBatch.new_batch 0 []
unfolding WriteBatch.new_batch
new-Represents = clear-Represents (record { rep = [] })

clear-Represents_example : Represents (WriteBatch.clear one) 0 []
clear-Represents_example = clear-Represents one

one-Represents : Represents one 0 (update ∷ [])
one-Represents =
    with_put-Represents WriteBatch.new_batch 0 [] (1 ∷ []) (7 ∷ 8 ∷ []) new-Represents
      (omega arith, omega arith) (omega arith)

-- The count of a batch can be 2^31 - 1, and then a sum is undefined.
full_test : int_sum_fits (2 ^ 31 - 1) 1 ≡ false
unfolding int_sum_fits
full_test = refl

put-Represents_example :
    (b : WriteBatch) × (WriteBatch.put one (1 ∷ []) (7 ∷ 8 ∷ []) ≡ some b)
    × Represents b 0 (update ∷ update ∷ [])
put-Represents_example =
    put-Represents one 0 (update ∷ []) (1 ∷ []) (7 ∷ 8 ∷ []) one-Represents (omega arith)
      (omega arith) (omega arith)

append-Represents_example :
    (b : WriteBatch) × (WriteBatch.append one one ≡ some b) × Represents b 0 (update ∷ update ∷ [])
append-Represents_example =
    append-Represents one one 0 0 (update ∷ []) (update ∷ []) one-Represents one-Represents
      (omega arith)
