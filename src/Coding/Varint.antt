-- ===== src/Coding/Varint.antt =====
-- Variable-length integers of common/coding.cc: the encoders, and the groups of seven bits of a value.
use c_plus_plus_examples.Base.{
  ℕ, zero, suc, ◌+◌, ◌/◌, ◌%◌, ◌^◌, ◌≤◌, ◌<◌, bit_or, ◌≡◌, sym, ◌∙◌, true, false, List, [], ◌∷◌,
  arith, length, ltb,
}
use c_plus_plus_examples.Base.Bits.{bit_or_128}
use c_plus_plus_examples.Base.Order.{lt_wf}
use c_plus_plus_examples.Coding.{
  encode_varint32, encode_varint64_loop, encode_varint64, varint_length_loop, varint_length,
}
use mathlib.Core.WellFounded.{Acc}

-- The groups of seven bits of a number below 128 ^ (k + 1), lowest first, with the top bit set on
-- all but the last.
unfoldable pub groups : ℕ → ℕ → List ℕ
groups zero v = v ∷ []
groups (suc k) v = elim (ltb v 128) [ true ↦ v ∷ [] | false ↦ (v % 128 + 128) ∷ groups k (v / 128) ]

continued : (v : ℕ) → bit_or v 128 % 256 ≡ v % 128 + 128
continued v = omega (arith, bit_or_128 v)

-- The unrolled `EncodeVarint32` writes the groups of every 32-bit value.
pub encode_varint32-groups : (v : ℕ) → v < 2 ^ 32 → encode_varint32 v ≡ groups 4 v
unfolding encode_varint32 groups
encode_varint32-groups v h =
    ground
      (arith, continued v, continued (v / 2 ^ 7), continued (v / 2 ^ 14), continued (v / 2 ^ 21))

encode_varint64_loop-groups :
    (k v : ℕ) (w : Acc ◌<◌ v) → v < 128 ^ suc k → encode_varint64_loop v w ≡ groups k v
unfolding encode_varint64_loop groups
encode_varint64_loop-groups zero v (Acc.intro _ smaller) h = ground arith
encode_varint64_loop-groups (suc k) v (Acc.intro _ smaller) h = grind (
  arith,
  continued v,
  λ (w : Acc ◌<◌ (v / 2 ^ 7)). encode_varint64_loop-groups k (v / 2 ^ 7) w (omega arith),
)

pub encode_varint64-groups : (v : ℕ) → v < 2 ^ 64 → encode_varint64 v ≡ groups 9 v
unfolding encode_varint64
encode_varint64-groups v h = encode_varint64_loop-groups 9 v (lt_wf.apply v) (omega arith)

varint_length_loop-groups :
    (k v len : ℕ) (w : Acc ◌<◌ v)
    → v < 128 ^ suc k
    → varint_length_loop v w len + 1 ≡ len + length (groups k v)
unfolding varint_length_loop groups
varint_length_loop-groups zero v len (Acc.intro _ smaller) h = ground arith
varint_length_loop-groups (suc k) v len (Acc.intro _ smaller) h = grind (
  arith,
  λ (w : Acc ◌<◌ (v / 2 ^ 7)). varint_length_loop-groups k (v / 2 ^ 7) (len + 1) w (omega arith),
)

pub length-groups : (k v : ℕ) → (1 ≤ length (groups k v)) × (length (groups k v) ≤ k + 1)
unfolding groups
length-groups zero v = omega arith
length-groups (suc k) v = ground (arith, length-groups k (v / 128))

-- `VarintLength` is the number of bytes that `EncodeVarint64` writes, for every 64-bit value, and
-- this number lies between 1 and 10.
varint_length-encode_varint64 :
    (v : ℕ)
    → v < 2 ^ 64
    → (varint_length v ≡ length (encode_varint64 v))
      × (1 ≤ length (encode_varint64 v))
      × (length (encode_varint64 v) ≤ 10)
unfolding varint_length
varint_length-encode_varint64 v h = rw (encode_varint64-groups v h) (
  omega (arith, varint_length_loop-groups 9 v 1 (lt_wf.apply v)),
  (length-groups 9 v).0,
  (length-groups 9 v).1,
)

-- Both encoders write the same bytes for a 32-bit value.
encode_varint32-eq-encode_varint64 : (v : ℕ) → v < 2 ^ 32 → encode_varint32 v ≡ encode_varint64 v
unfolding encode_varint64
encode_varint32-eq-encode_varint64 v h =
    encode_varint32-groups v h ∙ sym (encode_varint64_loop-groups 4 v (lt_wf.apply v) (omega arith))
