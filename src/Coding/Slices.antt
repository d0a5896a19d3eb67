-- ===== src/Coding/Slices.antt =====
-- `PutLengthPrefixedSlice` and `GetLengthPrefixedSlice` of common/coding.cc.
use c_plus_plus_examples.Base.{
  ℕ, ◌+◌, ◌%◌, ◌^◌, ◌≤◌, ◌<◌, ◌≡◌, refl, ap, inl, inr, some, List, [], ◌∷◌, ◌++◌, append_assoc,
  arith, length, length-append, take-append-drop, length-take, take-length-append,
  drop-length-append, Option-cases, Bool-cases, ◌==◌, bit_and, bit_or, ◌*◌,
}
use c_plus_plus_examples.Coding.{
  get_varint_loop, get_varint32_ptr_fullback, put_varint32, put_length_prefixed_slice, get_varint32,
  prefixed, get_length_prefixed_slice,
}
use c_plus_plus_examples.Coding.RoundTrip.{get_varint32-put_varint32, get_varint32_takes}
use c_plus_plus_examples.Coding.Varint.{groups, encode_varint32-groups}
use native.Mathlib.Nat.{mod-eq_of_lt}

pub put_length_prefixed_slice-append :
    (dst value : List ℕ)
    → put_length_prefixed_slice dst value ≡ dst ++ put_length_prefixed_slice [] value
unfolding put_length_prefixed_slice put_varint32
put_length_prefixed_slice-append dst value = append_assoc dst _ value

-- What is written: the length in groups of seven bits, and the bytes.
pub put_length_prefixed_slice-groups :
    (value : List ℕ)
    → length value < 2 ^ 32
    → put_length_prefixed_slice [] value ≡ groups 4 (length value) ++ value
unfolding put_length_prefixed_slice put_varint32
put_length_prefixed_slice-groups value h =
    rw (mod-eq_of_lt h, encode_varint32-groups (length value) h) refl

-- `GetLengthPrefixedSlice` reads back a slice of less than 2 ^ 32 bytes that
-- `PutLengthPrefixedSlice` appended, and leaves the input at whatever follows it.
pub get_length_prefixed_slice-put :
    (value rest : List ℕ)
    → length value < 2 ^ 32
    → get_length_prefixed_slice (put_length_prefixed_slice [] value ++ rest) ≡ (some value, rest)
unfolding get_length_prefixed_slice put_length_prefixed_slice
get_length_prefixed_slice-put value rest h =
    rw (mod-eq_of_lt h, append_assoc, get_varint32-put_varint32)
      (ground (
        arith,
        length-append value rest,
        take-length-append value rest,
        drop-length-append value rest,
      ))

-- What a decoder leaves is a suffix of its input.
get_varint_loop_suffix :
    (w last : ℕ) (src : List ℕ) (shift result v : ℕ) (rest : List ℕ)
    → get_varint_loop w last src shift result ≡ some (v, rest)
    → (head : List ℕ) × (src ≡ head ++ rest)
unfolding get_varint_loop
get_varint_loop_suffix w last [] shift result v rest e = cc
get_varint_loop_suffix w last (b ∷ p) shift result v rest e =
    elim (Bool-cases (bit_and b 128 == 0)) [
      | inl done ↦ (b ∷ [], ground arith)
      | inr more ↦
          let (head, q) =
            get_varint_loop_suffix w last p (shift + 7)
              (bit_or result (bit_and b 127 * 2 ^ shift % 2 ^ w)) v rest (ground arith) in
          (b ∷ head, ap (◌∷◌ b) q)
    ]

prefixed_split :
    (input s rest : List ℕ) (len : ℕ) (more : List ℕ)
    → prefixed input (some (len, more)) ≡ (some s, rest)
    → (more ≡ s ++ rest) × (len ≡ length s)
unfolding prefixed
prefixed_split input s rest len more e =
    ground (arith, take-append-drop len more, length-take len more)

-- On any input, a slice that `GetLengthPrefixedSlice` yields lies inside the input, directly before
-- what it leaves, behind a length of 1 to 5 bytes that is the slice's length.
get_length_prefixed_slice_within :
    (input s rest : List ℕ)
    → get_length_prefixed_slice input ≡ (some s, rest)
    → (head : List ℕ) × (input ≡ head ++ (s ++ rest))
      × (get_varint32 input ≡ some (length s, s ++ rest))
      × (1 ≤ length head)
      × (length head ≤ 5)
unfolding get_varint32 get_varint32_ptr_fullback get_length_prefixed_slice
get_length_prefixed_slice_within input s rest e = elim (Option-cases (get_varint32 input)) [
  | inl no_length ↦ absurd (ground arith)
  | inr ((len, more), r) ↦
      let (split, size) = prefixed_split input s rest len more (rw r at e) in
      let (head, q) = get_varint_loop_suffix 32 28 input 0 0 len more r in
      (
        head,
        rw (← split) q,
        rw (← split, ← size) r,
        omega (arith, get_varint32_takes input len more r, ap length q, length-append head more),
        omega (arith, get_varint32_takes input len more r, ap length q, length-append head more),
      )
]
