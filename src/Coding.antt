-- ===== src/Coding.antt =====
-- common/coding.h, common/coding.cc: fixed-width and variable-length integers in byte strings.
-- A byte is a number below 256, a `std::string` or a `char` buffer is a list of bytes. A pointer
-- into a buffer is an offset where it is written through, and the bytes from it up to `limit`
-- where it is read through; the shifts and casts keep their wrap-around.
pub mod Fixed
pub mod Varint
pub mod Slices
pub mod RoundTrip
mod Tests
use c_plus_plus_examples.Base.{
  ℕ, zero, suc, ◌+◌, ◌*◌, ◌/◌, ◌%◌, ◌^◌, ◌<◌, bit_and, bit_or, Bool, true, false, Option, none,
  some, List, [], ◌∷◌, ◌++◌, ltb, leb, ◌==◌, if◌then◌else◌, ◌&&◌, length, set, get_or, take, drop,
  replicate, dec_lt, arith,
}
use c_plus_plus_examples.Base.Order.{lt_wf}
use mathlib.Core.Logic.{dite}
use mathlib.Core.WellFounded.{Acc}

-- `static_cast<uint8_t>(x)`, `x >> k`, and `x << k` on a word of `w` bits.
abbrev pub as_u8 : ℕ → ℕ
as_u8 x = x % 256

abbrev pub shr : ℕ → ℕ → ℕ
shr x k = x / 2 ^ k

abbrev pub shl : ℕ → ℕ → ℕ → ℕ
shl w x k = x * 2 ^ k % 2 ^ w

abbrev pub IsByte : ℕ → Type 0
IsByte b = b < 256

-- The stores of `EncodeFixed32(dst, value)` into the memory `buf`, with `dst` at offset `at`.
unfoldable pub encode_fixed32 : List ℕ → ℕ → ℕ → List ℕ
encode_fixed32 buf at value =
    let buf = set buf at (as_u8 value) in
    let buf = set buf (at + 1) (as_u8 (shr value 8)) in
    let buf = set buf (at + 2) (as_u8 (shr value 16)) in set buf (at + 3) (as_u8 (shr value 24))

unfoldable pub encode_fixed64 : List ℕ → ℕ → ℕ → List ℕ
encode_fixed64 buf at value =
    let buf = set buf at (as_u8 value) in
    let buf = set buf (at + 1) (as_u8 (shr value 8)) in
    let buf = set buf (at + 2) (as_u8 (shr value 16)) in
    let buf = set buf (at + 3) (as_u8 (shr value 24)) in
    let buf = set buf (at + 4) (as_u8 (shr value 32)) in
    let buf = set buf (at + 5) (as_u8 (shr value 40)) in
    let buf = set buf (at + 6) (as_u8 (shr value 48)) in set buf (at + 7) (as_u8 (shr value 56))

-- The loads of `DecodeFixed32(ptr)`, with `ptr` at offset `at`. A load behind the end of the
-- memory, which the source leaves undefined, gives 0 here.
-- A load past the end of the buffer, which is undefined, gives zeros here; the theorems are about loads
-- inside it.
unfoldable pub decode_fixed32 : List ℕ → ℕ → ℕ
decode_fixed32 buf at =
    let r = get_or buf at 0 in
    let r = bit_or r (shl 32 (get_or buf (at + 1) 0) 8) in
    let r = bit_or r (shl 32 (get_or buf (at + 2) 0) 16) in
    bit_or r (shl 32 (get_or buf (at + 3) 0) 24)

unfoldable pub decode_fixed64 : List ℕ → ℕ → ℕ
decode_fixed64 buf at =
    let r = get_or buf at 0 in
    let r = bit_or r (shl 64 (get_or buf (at + 1) 0) 8) in
    let r = bit_or r (shl 64 (get_or buf (at + 2) 0) 16) in
    let r = bit_or r (shl 64 (get_or buf (at + 3) 0) 24) in
    let r = bit_or r (shl 64 (get_or buf (at + 4) 0) 32) in
    let r = bit_or r (shl 64 (get_or buf (at + 5) 0) 40) in
    let r = bit_or r (shl 64 (get_or buf (at + 6) 0) 48) in
    bit_or r (shl 64 (get_or buf (at + 7) 0) 56)

-- The local buffer `char buf[sizeof(value)]` is written in full before it is appended.
unfoldable pub put_fixed32 : List ℕ → ℕ → List ℕ
put_fixed32 dst value = dst ++ encode_fixed32 (replicate 4 0) 0 value

unfoldable pub put_fixed64 : List ℕ → ℕ → List ℕ
put_fixed64 dst value = dst ++ encode_fixed64 (replicate 8 0) 0 value

-- The bytes that `EncodeVarint32` stores from `dst` up to the pointer that it returns.
unfoldable pub encode_varint32 : ℕ → List ℕ
encode_varint32 v =
    if ltb v (2 ^ 7)
    then as_u8 v ∷ []
    else if ltb v (2 ^ 14)
    then as_u8 (bit_or v 128) ∷ as_u8 (shr v 7) ∷ []
    else if ltb v (2 ^ 21)
    then as_u8 (bit_or v 128) ∷ as_u8 (bit_or (shr v 7) 128) ∷ as_u8 (shr v 14) ∷ []
    else if ltb v (2 ^ 28)
    then as_u8 (bit_or v 128)
      ∷ as_u8 (bit_or (shr v 7) 128)
      ∷ as_u8 (bit_or (shr v 14) 128)
      ∷ as_u8 (shr v 21)
      ∷ []
    else as_u8 (bit_or v 128)
      ∷ as_u8 (bit_or (shr v 7) 128)
      ∷ as_u8 (bit_or (shr v 14) 128)
      ∷ as_u8 (bit_or (shr v 21) 128)
      ∷ as_u8 (shr v 28)
      ∷ []

pub shift_lt : (v : ℕ) → 127 < v → v / 2 ^ 7 < v
shift_lt v h = omega arith

-- The loop of `EncodeVarint64`, which runs while `value >= B`.
encode_varint64_loop : (value : ℕ) → Acc ◌<◌ value → List ℕ
encode_varint64_loop value (Acc.intro _ smaller) =
    dite (dec_lt 127 value)
      (λ big.
        as_u8 (bit_or value 128)
        ∷ encode_varint64_loop (shr value 7) (smaller _ (shift_lt value big)))
      (λ _. as_u8 value ∷ [])

unfoldable pub encode_varint64 : ℕ → List ℕ
unfolding encode_varint64_loop lt_wf dec_lt
encode_varint64 value = encode_varint64_loop value (lt_wf.apply value)

unfoldable pub put_varint32 : List ℕ → ℕ → List ℕ
put_varint32 dst value = dst ++ encode_varint32 value

unfoldable pub put_varint64 : List ℕ → ℕ → List ℕ
put_varint64 dst value = dst ++ encode_varint64 value

-- `size_t` to `uint32_t` in the call of `PutVarint32`.
unfoldable pub put_length_prefixed_slice : List ℕ → List ℕ → List ℕ
put_length_prefixed_slice dst value = put_varint32 dst (length value % 2 ^ 32) ++ value

varint_length_loop : (v : ℕ) → Acc ◌<◌ v → ℕ → ℕ
varint_length_loop v (Acc.intro _ smaller) len =
    dite (dec_lt 127 v) (λ big. varint_length_loop (shr v 7) (smaller _ (shift_lt v big)) (len + 1))
      (λ _. len)

unfoldable pub varint_length : ℕ → ℕ
unfolding varint_length_loop lt_wf dec_lt
varint_length v = varint_length_loop v (lt_wf.apply v) 1

-- The loops of `GetVarint32PtrFullback` (`w` = 32, `last` = 28) and `GetVarint64Ptr` (`w` = 64,
-- `last` = 63), which are the same but for the word and the last shift. The list is what lies
-- between `p` and `limit`; `none` is `nullptr`, else the value and what lies behind the returned
-- pointer.
unfoldable pub get_varint_loop : (w last : ℕ) → List ℕ → ℕ → ℕ → Option (ℕ × List ℕ)
get_varint_loop w last [] shift result = none
get_varint_loop w last (byte ∷ p) shift result =
    let more =
      get_varint_loop w last p (shift + 7) (bit_or result (shl w (bit_and byte 127) shift)) in
    if leb shift last
    then if bit_and byte 128 == 0 then some (bit_or result (shl w byte shift), p) else more
    else none

unfoldable pub get_varint32_ptr_fullback : List ℕ → Option (ℕ × List ℕ)
get_varint32_ptr_fullback p = get_varint_loop 32 28 p 0 0

-- The inline fast path of coding.h.
unfoldable pub get_varint32_ptr : List ℕ → Option (ℕ × List ℕ)
get_varint32_ptr [] = get_varint32_ptr_fullback []
get_varint32_ptr (result ∷ p) =
    if bit_and result 128 == 0 then some (result, p) else get_varint32_ptr_fullback (result ∷ p)

unfoldable pub get_varint64_ptr : List ℕ → Option (ℕ × List ℕ)
get_varint64_ptr p = get_varint_loop 64 63 p 0 0

-- The `Slice* input` versions: the parsed value and the advanced slice, or `none` for `false`.
unfoldable pub get_varint32 : List ℕ → Option (ℕ × List ℕ)
get_varint32 input = get_varint32_ptr_fullback input

unfoldable pub get_varint64 : List ℕ → Option (ℕ × List ℕ)
get_varint64 input = get_varint64_ptr input

prefixed : List ℕ → Option (ℕ × List ℕ) → Option (List ℕ) × List ℕ
prefixed input none = (none, input)
prefixed _ (some (len, input)) =
    if leb len (length input) then (some (take len input), drop len input) else (none, input)

-- The result slice, `none` for `false`, and what `*input` is afterwards: where the length was read
-- and the data is too short, the input has been advanced behind the length.
unfoldable pub get_length_prefixed_slice : List ℕ → Option (List ℕ) × List ℕ
unfolding prefixed
get_length_prefixed_slice input = prefixed input (get_varint32 input)
