-- ===== src/Coding/RoundTrip.antt =====
-- The decoders of common/coding.cc on the bytes that the encoders write.
use c_plus_plus_examples.Base.{
  ℕ, zero, suc, ◌+◌, ◌*◌, ◌/◌, ◌%◌, ◌^◌, ◌≤◌, ◌<◌, bit_and, bit_or, ◌≡◌, refl, ap, inl, inr,
  Option-cases, append-nil, none, some, List, [], ◌∷◌, ◌++◌, arith, length, length-append, All,
}
use c_plus_plus_examples.Base.Bits.{
  bit_or_shifted, bit_and_127, bit_and_128, zero-bit_or, bit_or-lt-pow,
}
use c_plus_plus_examples.Coding.{
  get_varint32, get_varint64, put_varint32, put_varint64, get_varint_loop,
  get_varint32_ptr_fullback, get_varint32_ptr, get_varint64_ptr, IsByte,
}
use native.Mathlib.Nat.{div-add-mod, mod-eq_of_lt, mod-lt, one-le-pow}
use native.Mathlib.Numerals.{towards_suc}
use c_plus_plus_examples.Coding.Varint.{groups, encode_varint32-groups, encode_varint64-groups}

-- One round on the last byte, and on a byte with the top bit set.
last_byte :
    (w last byte shift result : ℕ) (rest : List ℕ)
    → byte < 128
    → shift ≤ last
    → result < 2 ^ shift
    → result + byte * 2 ^ shift < 2 ^ w
    → get_varint_loop w last (byte ∷ rest) shift result ≡ some (result + byte * 2 ^ shift, rest)
unfolding get_varint_loop
last_byte w last byte shift result rest hb hs hr fits =
    ground (arith, bit_and_128 byte, bit_or_shifted shift byte result, mod-eq_of_lt fit)
  where
    fit : byte * 2 ^ shift < 2 ^ w
    fit = omega arith

inner_byte :
    (w last g shift result : ℕ) (rest : List ℕ)
    → g < 128
    → shift ≤ last
    → result < 2 ^ shift
    → result + g * 2 ^ shift < 2 ^ w
    → get_varint_loop w last ((g + 128) ∷ rest) shift result
      ≡ get_varint_loop w last rest (shift + 7) (result + g * 2 ^ shift)
unfolding get_varint_loop
inner_byte w last g shift result rest hb hs hr fits = ground (
  arith,
  bit_and_128 (g + 128),
  bit_and_127 (g + 128),
  bit_or_shifted shift g result,
  mod-eq_of_lt fit,
)
  where
    fit : g * 2 ^ shift < 2 ^ w
    fit = omega arith

next_shift : (s : ℕ) → 2 ^ (s + 7) ≡ 2 ^ s * 128
next_shift s = simp towards_suc (omega arith)

-- What is still to be read is `v`, which counts from bit `shift` on.
low_group_apart : (v s : ℕ) → v * 2 ^ s ≡ v % 128 * 2 ^ s + v / 128 * 2 ^ (s + 7)
low_group_apart v s =
    rw (next_shift s) (omega (arith, ap (λ (n : ℕ). n * 2 ^ s) (div-add-mod v 128)))

group_lt : (g s r : ℕ) → g < 128 → r < 2 ^ s → r + g * 2 ^ s < 2 ^ (s + 7)
group_lt g s r hg hr = rw next_shift (grind arith)

get_varint_loop-groups :
    (k w last v shift result : ℕ) (rest : List ℕ)
    → v < 128 ^ suc k
    → shift + 7 * k ≤ last
    → result < 2 ^ shift
    → result + v * 2 ^ shift < 2 ^ w
    → get_varint_loop w last (groups k v ++ rest) shift result ≡ some (result + v * 2 ^ shift, rest)
unfolding groups
get_varint_loop-groups zero w last v shift result rest hv hs hr fits =
    last_byte w last v shift result rest (omega arith) (omega arith) hr fits
get_varint_loop-groups (suc k) w last v shift result rest hv hs hr fits = ground (
  arith,
  last_byte w last v shift result rest,
  low_group_apart v shift,
  inner_byte w last (v % 128) shift result (groups k (v / 128) ++ rest),
  group_lt (v % 128) shift result,
  get_varint_loop-groups k w last (v / 128) (shift + 7) (result + v % 128 * 2 ^ shift) rest
      (omega arith) (omega arith),
)

-- `GetVarint32` reads back the 32-bit value that `PutVarint32` appended, and leaves the slice at
-- whatever follows it.
pub get_varint32-put_varint32 :
    (v : ℕ) (rest : List ℕ) → v < 2 ^ 32 → get_varint32 (put_varint32 [] v ++ rest) ≡ some (v, rest)
unfolding get_varint32 get_varint32_ptr_fullback put_varint32
get_varint32-put_varint32 v rest h =
    rw (encode_varint32-groups v h)
      (ground (arith, get_varint_loop-groups 4 32 28 v 0 0 rest (omega arith) (omega arith)))

-- `GetVarint64` reads back the 64-bit value that `PutVarint64` appended, and leaves the slice at
-- whatever follows it.
get_varint64-put_varint64 :
    (v : ℕ) (rest : List ℕ) → v < 2 ^ 64 → get_varint64 (put_varint64 [] v ++ rest) ≡ some (v, rest)
unfolding get_varint64 get_varint64_ptr put_varint64
get_varint64-put_varint64 v rest h =
    rw (encode_varint64-groups v h)
      (ground (arith, get_varint_loop-groups 9 64 63 v 0 0 rest (omega arith) (omega arith)))

-- The inline fast path of `GetVarint32Ptr` answers as the loop behind it, on every byte string.
get_varint32_ptr-eq-fullback :
    (p : List ℕ) → All IsByte p → get_varint32_ptr p ≡ get_varint32_ptr_fullback p
unfolding get_varint32_ptr get_varint32_ptr_fullback get_varint_loop
get_varint32_ptr-eq-fullback [] h = refl
get_varint32_ptr-eq-fullback (b ∷ p) h = ground (arith, zero-bit_or b)

-- On any byte string, well formed or not: a parsed value fits its word, and what is left is the
-- input without the bytes that were read, of which there are 1 up to the rounds of the loop.
get_varint_loop_takes :
    (rounds w last : ℕ) (src : List ℕ) (shift result v : ℕ) (rest : List ℕ)
    → last < shift + 7 * rounds
    → result < 2 ^ w
    → get_varint_loop w last src shift result ≡ some (v, rest)
    → (v < 2 ^ w) × (length rest < length src) × (length src ≤ length rest + rounds)
unfolding get_varint_loop
get_varint_loop_takes rounds w last [] shift result v rest hr hw e = cc
get_varint_loop_takes zero w last (b ∷ p) shift result v rest hr hw e = ground arith
get_varint_loop_takes (suc rounds) w last (b ∷ p) shift result v rest hr hw e = ground (
  arith,
  step b,
  step (bit_and b 127),
  get_varint_loop_takes rounds w last p (shift + 7)
      (bit_or result (bit_and b 127 * 2 ^ shift % 2 ^ w)) v rest,
)
  where
    step : (x : ℕ) → bit_or result (x * 2 ^ shift % 2 ^ w) < 2 ^ w
    step x = bit_or-lt-pow w result _ hw (mod-lt _ (one-le-pow w 2 (omega arith)))

-- Whatever bytes the input holds, a successful `GetVarint32` yields a 32-bit value and takes 1 to
-- 5 bytes off the slice.
pub get_varint32_takes :
    (input : List ℕ) (v : ℕ) (rest : List ℕ)
    → get_varint32 input ≡ some (v, rest)
    → (v < 2 ^ 32) × (length rest < length input) × (length input ≤ length rest + 5)
unfolding get_varint32 get_varint32_ptr_fullback
get_varint32_takes input v rest e =
    get_varint_loop_takes 5 32 28 input 0 0 v rest (omega arith) (omega arith) e

-- Whatever bytes the input holds, a successful `GetVarint64` yields a 64-bit value and takes 1 to
-- 10 bytes off the slice.
get_varint64_takes :
    (input : List ℕ) (v : ℕ) (rest : List ℕ)
    → get_varint64 input ≡ some (v, rest)
    → (v < 2 ^ 64) × (length rest < length input) × (length input ≤ length rest + 10)
unfolding get_varint64 get_varint64_ptr
get_varint64_takes input v rest e =
    get_varint_loop_takes 10 64 63 input 0 0 v rest (omega arith) (omega arith) e

-- The decoders do not look behind the number: more input joins what is left.
get_varint_loop-append :
    (w last : ℕ) (src more : List ℕ) (shift result v : ℕ) (rest : List ℕ)
    → get_varint_loop w last src shift result ≡ some (v, rest)
    → get_varint_loop w last (src ++ more) shift result ≡ some (v, rest ++ more)
unfolding get_varint_loop
get_varint_loop-append w last [] more shift result v rest e = cc
get_varint_loop-append w last (b ∷ p) more shift result v rest e = ground (
  arith,
  get_varint_loop-append w last p more (shift + 7)
      (bit_or result (bit_and b 127 * 2 ^ shift % 2 ^ w)) v rest,
)

-- On a proper prefix of what `PutVarint64` wrote, `GetVarint64` answers `false`.
get_varint64_truncated :
    (v x : ℕ) (front back : List ℕ)
    → v < 2 ^ 64
    → put_varint64 [] v ≡ front ++ (x ∷ back)
    → get_varint64 front ≡ none
unfolding get_varint64 get_varint64_ptr
get_varint64_truncated v x front back h e = elim (Option-cases (get_varint_loop 64 63 front 0 0)) [
  | inl r ↦ r
  | inr ((u, rest), r) ↦ absurd (
      ground (
        arith,
        whole,
        get_varint_loop-append 64 63 front (x ∷ back) 0 0 u rest r,
        length-append rest (x ∷ back),
      ))
]
  where
    whole : get_varint64 (front ++ (x ∷ back)) ≡ some (v, [])
    whole = rw (append-nil, e) at (get_varint64-put_varint64 v [] h)
