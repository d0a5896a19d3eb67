-- ===== src/Coding/Tests.antt =====
-- Runs of common/coding.cc on the values of common/coding_test.cc, and its theorems at inputs.
use c_plus_plus_examples.Base.{ℕ, ◌^◌, ◌≡◌, refl, some, none, List, [], ◌∷◌, ◌++◌, arith}
use c_plus_plus_examples.Coding.{
  encode_fixed32, encode_varint32, encode_varint64, put_varint32, put_varint64, put_fixed32,
  get_varint_loop, get_varint32, get_varint64, get_varint32_ptr_fullback, get_varint64_ptr,
  get_length_prefixed_slice,
}
use c_plus_plus_examples.Coding.RoundTrip.{get_varint32-put_varint32}

put_fixed32_run : put_fixed32 (9 ∷ []) 0x0403_0201 ≡ 9 ∷ 1 ∷ 2 ∷ 3 ∷ 4 ∷ []
unfolding put_fixed32 encode_fixed32
put_fixed32_run = refl

put_varint32_run : put_varint32 [] 300 ≡ 0xac ∷ 0x02 ∷ []
unfolding put_varint32 encode_varint32
put_varint32_run = refl

put_varint64_run : put_varint64 [] (2 ^ 35) ≡ 0x80 ∷ 0x80 ∷ 0x80 ∷ 0x80 ∷ 0x80 ∷ 0x01 ∷ []
unfolding put_varint64 encode_varint64
put_varint64_run = refl

-- The overflow of coding_test.cc: a sixth byte is not read.
get_varint32_overflow : get_varint32 (0x81 ∷ 0x82 ∷ 0x83 ∷ 0x84 ∷ 0x85 ∷ 0x11 ∷ []) ≡ none
unfolding get_varint32 get_varint32_ptr_fullback get_varint_loop
get_varint32_overflow = refl

-- A fifth byte above 15 loses its upper bits.
get_varint32_wide : get_varint32 (0x80 ∷ 0x80 ∷ 0x80 ∷ 0x80 ∷ 0x7f ∷ []) ≡ some (0xf000_0000, [])
unfolding get_varint32 get_varint32_ptr_fullback get_varint_loop
get_varint32_wide = refl

get_varint64_padded : get_varint64 (0x80 ∷ 0x00 ∷ 7 ∷ []) ≡ some (0, 7 ∷ [])
unfolding get_varint64 get_varint64_ptr get_varint_loop
get_varint64_padded = refl

get_length_prefixed_slice_run :
    get_length_prefixed_slice (2 ∷ 5 ∷ 6 ∷ 7 ∷ []) ≡ (some (5 ∷ 6 ∷ []), 7 ∷ [])
unfolding get_length_prefixed_slice get_varint32 get_varint32_ptr_fullback get_varint_loop
get_length_prefixed_slice_run = refl

get_length_prefixed_slice_short : get_length_prefixed_slice (2 ∷ 5 ∷ []) ≡ (none, 5 ∷ [])
unfolding get_length_prefixed_slice get_varint32 get_varint32_ptr_fullback get_varint_loop
get_length_prefixed_slice_short = refl

abbrev six : List ℕ
six = 1 ∷ 2 ∷ 3 ∷ 4 ∷ 5 ∷ 6 ∷ []

get_varint32-put_varint32_example :
    get_varint32 (put_varint32 [] 300 ++ (9 ∷ [])) ≡ some (300, 9 ∷ [])
get_varint32-put_varint32_example = get_varint32-put_varint32 300 (9 ∷ []) (omega arith)
