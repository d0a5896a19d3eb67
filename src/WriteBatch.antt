-- ===== src/WriteBatch.antt =====
-- example-ping-pong-batch/write_batch.h, write_batch.cc and common/dbformat.h: a batch of updates
-- as one byte string, an 8-byte sequence number, a 4-byte count and the records.
pub mod Format
pub mod Represents
mod Tests
use c_plus_plus_examples.Base.{
  ℕ, ◌+◌, ◌-◌, ◌%◌, ◌^◌, Bool, true, Option, some, ltb, leb, ◌&&◌, if◌then◌else◌, List, [], ◌∷◌,
  ◌++◌, length, take, drop, replicate,
}
use c_plus_plus_examples.Base.Chain.{◌>>◌, check}
use c_plus_plus_examples.Coding.{
  encode_fixed32, encode_fixed64, decode_fixed32, decode_fixed64, put_length_prefixed_slice,
}
use c_plus_plus_examples.Slice.{Slice}

-- `kTypeDeletion` and `kTypeValue` of `enum ValueType`.
pub data ValueType : Type 0 where
  k_type_deletion k_type_value : ValueType

abbrev pub type_byte : ValueType → ℕ
type_byte ValueType.k_type_deletion = 0
type_byte ValueType.k_type_value = 1

-- `kHeader`
abbrev pub header : ℕ
header = 12

pub record WriteBatch : Type 0 where
  pub rep : List ℕ

-- `rep_.clear()` and `rep_.resize(kHeader)`, whatever the batch was.
unfoldable pub clear : WriteBatch → WriteBatch
clear b = record { rep = replicate header 0 }

-- The constructor.
unfoldable pub new_batch : WriteBatch
unfolding clear
new_batch = clear (record { rep = [] })

unfoldable pub approximate_size : WriteBatch → ℕ
approximate_size b = length b.rep

-- `WriteBatchInternal::Count`, as the unsigned number behind the `int`, and `SetCount`.
unfoldable pub count : WriteBatch → ℕ
count b = decode_fixed32 b.rep 8

unfoldable pub set_count : WriteBatch → ℕ → WriteBatch
set_count b n = record { rep = encode_fixed32 b.rep 8 n }

unfoldable pub sequence : WriteBatch → ℕ
sequence b = decode_fixed64 b.rep 0

unfoldable pub set_sequence : WriteBatch → ℕ → WriteBatch
set_sequence b seq = record { rep = encode_fixed64 b.rep 0 seq }

unfoldable pub contents : WriteBatch → Slice
contents b = b.rep

unfoldable pub byte_size : WriteBatch → ℕ
byte_size b = length b.rep

unfoldable pub set_contents : WriteBatch → Slice → WriteBatch
set_contents b contents = record { rep = contents }

-- Whether the sum of two `int`s, given by their 32-bit patterns, is an `int`; else it is undefined.
unfoldable pub int_sum_fits : ℕ → ℕ → Bool
int_sum_fits a b =
    if ltb a (2 ^ 31) && ltb b (2 ^ 31)
    then ltb (a + b) (2 ^ 31)
    else if leb (2 ^ 31) a && leb (2 ^ 31) b
    then leb (2 ^ 32 + 2 ^ 31) (a + b)
    else true

-- `Put`, where the count can be raised.
unfoldable pub with_put : WriteBatch → Slice → Slice → WriteBatch
with_put b key value =
    let b = set_count b ((count b + 1) % 2 ^ 32) in
    let rep = b.rep ++ (type_byte ValueType.k_type_value ∷ []) in
    let rep = put_length_prefixed_slice rep key in
    record { rep = put_length_prefixed_slice rep value }

-- `Put`, with `none` for a sum that is undefined.
unfoldable pub put : WriteBatch → Slice → Slice → Option WriteBatch
unfolding int_sum_fits with_put
put b key value = do check (int_sum_fits (count b) 1); some (with_put b key value)

-- `Delete`, where the count can be raised.
unfoldable pub with_deletion : WriteBatch → Slice → WriteBatch
with_deletion b key =
    let b = set_count b ((count b + 1) % 2 ^ 32) in
    let rep = b.rep ++ (type_byte ValueType.k_type_deletion ∷ []) in
    record { rep = put_length_prefixed_slice rep key }

unfoldable pub delete : WriteBatch → Slice → Option WriteBatch
unfolding int_sum_fits with_deletion
delete b key = do check (int_sum_fits (count b) 1); some (with_deletion b key)

-- `WriteBatchInternal::Append`, where the sum of the counts is an `int`: the bytes behind the header of
-- `src`, which is not changed.
unfoldable pub with_appended : WriteBatch → WriteBatch → WriteBatch
with_appended dst src =
    let dst = set_count dst ((count dst + count src) % 2 ^ 32) in
    record { rep = dst.rep ++ take (length src.rep - header) (drop header src.rep) }

unfoldable pub append : WriteBatch → WriteBatch → Option WriteBatch
unfolding int_sum_fits with_appended
append dst src = do check (int_sum_fits (count dst) (count src)); some (with_appended dst src)
