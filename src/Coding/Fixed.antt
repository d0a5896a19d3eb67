-- ===== src/Coding/Fixed.antt =====
-- Fixed-width integers of common/coding.h: stores and loads.
use c_plus_plus_examples.Base.{
  ℕ, zero, suc, ◌+◌, ◌*◌, ◌/◌, ◌%◌, ◌^◌, ◌≤◌, ◌<◌, bit_or, ◌≡◌, refl, ap, ◌∙◌, List, [], ◌∷◌, ◌++◌,
  arith, length, take, drop,
}
use native.Mathlib.Nat.{suc-add}
use c_plus_plus_examples.Base.Bits.{bit_or_shifted}
use c_plus_plus_examples.Coding.{encode_fixed32, encode_fixed64, decode_fixed32, decode_fixed64}

-- A little-endian load, byte by byte.
pub bytes_value32 :
    (a b c d : ℕ)
    → a < 256
    → b < 256
    → c < 256
    → d < 256
    → bit_or (bit_or (bit_or a (b * 2 ^ 8 % 2 ^ 32)) (c * 2 ^ 16 % 2 ^ 32)) (d * 2 ^ 24 % 2 ^ 32)
      ≡ a + b * 2 ^ 8 + c * 2 ^ 16 + d * 2 ^ 24
bytes_value32 a b c d ha hb hc hd = ground (
  arith,
  bit_or_shifted 8 b a,
  bit_or_shifted 16 c (a + b * 2 ^ 8),
  bit_or_shifted 24 d (a + b * 2 ^ 8 + c * 2 ^ 16),
)

-- The bytes of a value, lowest first.
abbrev pub fixed32_bytes : ℕ → List ℕ
fixed32_bytes v = v % 256 ∷ v / 2 ^ 8 % 256 ∷ v / 2 ^ 16 % 256 ∷ v / 2 ^ 24 % 256 ∷ []

abbrev pub fixed64_bytes : ℕ → List ℕ
fixed64_bytes v =
    v % 256
    ∷ v / 2 ^ 8 % 256
    ∷ v / 2 ^ 16 % 256
    ∷ v / 2 ^ 24 % 256
    ∷ v / 2 ^ 32 % 256
    ∷ v / 2 ^ 40 % 256
    ∷ v / 2 ^ 48 % 256
    ∷ v / 2 ^ 56 % 256
    ∷ []

encode_fixed32-suc :
    (x : ℕ) (buf : List ℕ) (at v : ℕ)
    → encode_fixed32 (x ∷ buf) (suc at) v ≡ x ∷ encode_fixed32 buf at v
unfolding encode_fixed32
encode_fixed32-suc x buf at v = simp suc-add

encode_fixed64-suc :
    (x : ℕ) (buf : List ℕ) (at v : ℕ)
    → encode_fixed64 (x ∷ buf) (suc at) v ≡ x ∷ encode_fixed64 buf at v
unfolding encode_fixed64
encode_fixed64-suc x buf at v = simp suc-add

decode_fixed32-suc :
    (x : ℕ) (buf : List ℕ) (at : ℕ) → decode_fixed32 (x ∷ buf) (suc at) ≡ decode_fixed32 buf at
unfolding decode_fixed32
decode_fixed32-suc x buf at = simp suc-add

decode_fixed64-suc :
    (x : ℕ) (buf : List ℕ) (at : ℕ) → decode_fixed64 (x ∷ buf) (suc at) ≡ decode_fixed64 buf at
unfolding decode_fixed64
decode_fixed64-suc x buf at = simp suc-add

-- `EncodeFixed32` replaces the four bytes at `dst` by those of the value, lowest first, and keeps
-- every other byte, if the buffer has room.
encode_fixed32-splice :
    (buf : List ℕ) (at v : ℕ)
    → at + 4 ≤ length buf
    → encode_fixed32 buf at v ≡ take at buf ++ (fixed32_bytes v ++ drop (at + 4) buf)
unfolding encode_fixed32
encode_fixed32-splice (a ∷ b ∷ c ∷ d ∷ rest) zero v room = refl
encode_fixed32-splice (x ∷ buf) (suc at) v room =
    encode_fixed32-suc x buf at v
    ∙ simp suc-add (ap (◌∷◌ x) (encode_fixed32-splice buf at v (omega arith)))
encode_fixed32-splice buf at v room = absurd (omega arith)

pub decode_fixed32_bytes :
    (v : ℕ) (rest : List ℕ) → v < 2 ^ 32 → decode_fixed32 (fixed32_bytes v ++ rest) 0 ≡ v
unfolding decode_fixed32
decode_fixed32_bytes v rest h = omega (
  arith,
  bytes_value32 (v % 256) (v / 2 ^ 8 % 256) (v / 2 ^ 16 % 256) (v / 2 ^ 24 % 256) (omega arith)
      (omega arith) (omega arith) (omega arith),
)

-- `DecodeFixed32` loads what `EncodeFixed32` stored at the same place.
decode_fixed32-encode_fixed32 :
    (buf : List ℕ) (at v : ℕ)
    → at + 4 ≤ length buf
    → v < 2 ^ 32
    → decode_fixed32 (encode_fixed32 buf at v) at ≡ v
decode_fixed32-encode_fixed32 (a ∷ b ∷ c ∷ d ∷ rest) zero v room h =
    rw (encode_fixed32-splice (a ∷ b ∷ c ∷ d ∷ rest) zero v (omega arith))
      (decode_fixed32_bytes v rest h)
decode_fixed32-encode_fixed32 (x ∷ buf) (suc at) v room h =
    rw (encode_fixed32-suc, decode_fixed32-suc)
      (decode_fixed32-encode_fixed32 buf at v (omega arith) h)
decode_fixed32-encode_fixed32 buf at v room h = absurd (omega arith)

bytes_value64_low :
    (a b c d : ℕ)
    → a < 256
    → b < 256
    → c < 256
    → d < 256
    → bit_or (bit_or (bit_or a (b * 2 ^ 8 % 2 ^ 64)) (c * 2 ^ 16 % 2 ^ 64)) (d * 2 ^ 24 % 2 ^ 64)
      ≡ a + b * 2 ^ 8 + c * 2 ^ 16 + d * 2 ^ 24
bytes_value64_low a b c d ha hb hc hd = ground (
  arith,
  bit_or_shifted 8 b a,
  bit_or_shifted 16 c (a + b * 2 ^ 8),
  bit_or_shifted 24 d (a + b * 2 ^ 8 + c * 2 ^ 16),
)

bytes_value64 :
    (r e f g h : ℕ)
    → r < 2 ^ 32
    → e < 256
    → f < 256
    → g < 256
    → h < 256
    → bit_or
        (bit_or
          (bit_or (bit_or r (e * 2 ^ 32 % 2 ^ 64)) (f * 2 ^ 40 % 2 ^ 64))
          (g * 2 ^ 48 % 2 ^ 64))
        (h * 2 ^ 56 % 2 ^ 64)
      ≡ r + e * 2 ^ 32 + f * 2 ^ 40 + g * 2 ^ 48 + h * 2 ^ 56
bytes_value64 r e f g h hr he hf hg hh = ground (
  arith,
  bit_or_shifted 32 e r,
  bit_or_shifted 40 f (r + e * 2 ^ 32),
  bit_or_shifted 48 g (r + e * 2 ^ 32 + f * 2 ^ 40),
  bit_or_shifted 56 h (r + e * 2 ^ 32 + f * 2 ^ 40 + g * 2 ^ 48),
)

encode_fixed64-splice :
    (buf : List ℕ) (at v : ℕ)
    → at + 8 ≤ length buf
    → encode_fixed64 buf at v ≡ take at buf ++ (fixed64_bytes v ++ drop (at + 8) buf)
unfolding encode_fixed64
encode_fixed64-splice (a ∷ b ∷ c ∷ d ∷ e ∷ f ∷ g ∷ h ∷ rest) zero v room = refl
encode_fixed64-splice (x ∷ buf) (suc at) v room =
    encode_fixed64-suc x buf at v
    ∙ simp suc-add (ap (◌∷◌ x) (encode_fixed64-splice buf at v (omega arith)))
encode_fixed64-splice buf at v room = absurd (omega arith)

fixed64_sum :
    (v : ℕ)
    → v < 2 ^ 64
    → v % 256
        + v / 2 ^ 8 % 256 * 2 ^ 8
        + v / 2 ^ 16 % 256 * 2 ^ 16
        + v / 2 ^ 24 % 256 * 2 ^ 24
        + v / 2 ^ 32 % 256 * 2 ^ 32
        + v / 2 ^ 40 % 256 * 2 ^ 40
        + v / 2 ^ 48 % 256 * 2 ^ 48
        + v / 2 ^ 56 % 256 * 2 ^ 56
      ≡ v
fixed64_sum v h = omega arith

pub decode_fixed64_bytes :
    (v : ℕ) (rest : List ℕ) → v < 2 ^ 64 → decode_fixed64 (fixed64_bytes v ++ rest) 0 ≡ v
unfolding decode_fixed64
decode_fixed64_bytes v rest h =
    let low : ℕ =
      v % 256 + v / 2 ^ 8 % 256 * 2 ^ 8 + v / 2 ^ 16 % 256 * 2 ^ 16 + v / 2 ^ 24 % 256 * 2 ^ 24 in
    rw
      (bytes_value64_low (v % 256) (v / 2 ^ 8 % 256) (v / 2 ^ 16 % 256) (v / 2 ^ 24 % 256)
        (omega arith) (omega arith) (omega arith) (omega arith))
      (bytes_value64 low (v / 2 ^ 32 % 256) (v / 2 ^ 40 % 256) (v / 2 ^ 48 % 256) (v / 2 ^ 56 % 256)
          (omega arith) (omega arith) (omega arith) (omega arith) (omega arith)
        ∙ fixed64_sum v h)

-- `DecodeFixed64` loads what `EncodeFixed64` stored at the same place.
decode_fixed64-encode_fixed64 :
    (buf : List ℕ) (at v : ℕ)
    → at + 8 ≤ length buf
    → v < 2 ^ 64
    → decode_fixed64 (encode_fixed64 buf at v) at ≡ v
decode_fixed64-encode_fixed64 (a ∷ b ∷ c ∷ d ∷ e ∷ f ∷ g ∷ h ∷ rest) zero v room lt =
    rw (encode_fixed64-splice (a ∷ b ∷ c ∷ d ∷ e ∷ f ∷ g ∷ h ∷ rest) zero v (omega arith))
      (decode_fixed64_bytes v rest lt)
decode_fixed64-encode_fixed64 (x ∷ buf) (suc at) v room lt =
    rw (encode_fixed64-suc, decode_fixed64-suc)
      (decode_fixed64-encode_fixed64 buf at v (omega arith) lt)
decode_fixed64-encode_fixed64 buf at v room lt = absurd (omega arith)
