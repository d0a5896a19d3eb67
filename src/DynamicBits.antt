-- ===== src/DynamicBits.antt =====
-- example-dynamic-bits/dynamic_bits.h, dynamic_bits.cc, with common/align.h and common/bitopts.h: a set
-- of bits in words of 64, with levels above it in which a bit stands for a word that is not zero. A
-- word is the list of its bits, index 0 first. `none` is a failed assertion, or a read or write past
-- the end of a vector.
pub mod Levels
pub mod Align
pub mod New
pub mod Set
pub mod Find
pub mod Pick
pub mod Search
pub mod Tower
pub mod Climb
pub mod Next
mod Tests
pub mod Functional
use c_plus_plus_examples.Base.{
  ℕ, zero, suc, ◌+◌, ◌-◌, ◌*◌, ◌/◌, ◌%◌, ◌^◌, bit_and, Bool, true, false, not, ◌||◌, Option, none,
  some, List, [], ◌∷◌, length, get_elem?, set, replicate, ltb, leb, ◌==◌, if◌then◌else◌,
}
use c_plus_plus_examples.Base.Chain.{◌>>=◌, ◌>>◌, check}

abbrev pub Word : Type 0
Word = List Bool

abbrev pub Level : Type 0
Level = List Word

-- `bits_`, the level of all bits first, and `nr_bits_`.
pub record DynamicBits : Type 0 where
  pub bits : List Level
  pub nr_bits : ℕ

-- `npos`, `bits_per_int`
abbrev pub nopos : ℕ
nopos = 2 ^ 64 - 1

abbrev pub bits_per_int : ℕ
bits_per_int = 64

-- `v != 0`
unfoldable pub is_set : Word → Bool
is_set [] = false
is_set (b ∷ v) = b || is_set v

-- `__builtin_ctzl` and `__builtin_clzl` of a word.
unfoldable pub count_trailing_zeros : Word → ℕ
count_trailing_zeros [] = 0
count_trailing_zeros (b ∷ v) = if b then 0 else suc (count_trailing_zeros v)

unfoldable pub count_leading_zeros : Word → ℕ
unfolding is_set
count_leading_zeros [] = 0
count_leading_zeros (b ∷ v) =
    let rest = count_leading_zeros v in
    if is_set v then rest else if b then length v else suc (length v)

-- `__builtin_clzl` of a number of `w` bits.
unfoldable pub leading_zeros : ℕ → ℕ → ℕ
leading_zeros zero x = 0
leading_zeros (suc w) x = let rest = leading_zeros w x in if leb (2 ^ w) x then 0 else suc rest

unfoldable pub log2ceil : ℕ → ℕ
unfolding leading_zeros
log2ceil x = if x == 1 then 0 else 64 - leading_zeros 64 ((x + 2 ^ 64 - 1) % 2 ^ 64)

-- `level_shift`
abbrev pub level_shift : ℕ
level_shift = 6

unfoldable pub align_up : ℕ → ℕ → Option ℕ
align_up v align = do
  check (bit_and align (align - 1) == 0)
  some (bit_and ((v + align - 1) % 2 ^ 64) (2 ^ 64 - align))

unfoldable pub align_down : ℕ → ℕ → Option ℕ
align_down v align = do check (bit_and align (align - 1) == 0); some (bit_and v (2 ^ 64 - align))

unfoldable pub div_ceil : ℕ → ℕ → ℕ
div_ceil num den = (num + den - 1) / den

-- The loop of the constructor, by the levels left; `level_words` is an `unsigned`.
unfoldable pub resize_levels : ℕ → ℕ → Option (List Level)
unfolding align_up
resize_levels zero level_bits = some []
resize_levels (suc levels) level_bits = do
  aligned ← align_up level_bits bits_per_int
  let level_words = aligned / bits_per_int % 2 ^ 32
  rest ← resize_levels levels level_words
  some (replicate level_words (replicate bits_per_int false) ∷ rest)

unfoldable pub new_bits : ℕ → Option DynamicBits
unfolding align_up div_ceil log2ceil resize_levels
new_bits nr_bits = do
  aligned ← align_up nr_bits bits_per_int
  bits ← resize_levels (div_ceil (log2ceil aligned) level_shift) nr_bits
  some (record { bits = bits; nr_bits = nr_bits })

-- The bit `n` of a level.
unfoldable pub test_level : Level → ℕ → Option Bool
test_level level n = do v ← get_elem? level (n / bits_per_int); get_elem? v (n % bits_per_int)

unfoldable pub test : DynamicBits → ℕ → Option Bool
unfolding test_level
test s n = elim s.bits [ [] ↦ none | level ∷ above ↦ test_level level n ]

-- The loop of `set`, from the level of all bits up.
unfoldable pub set_levels : List Level → ℕ → Option (List Level)
unfolding is_set
set_levels [] n = some []
set_levels (level ∷ above) n = do
  let idx = n / bits_per_int % 2 ^ 32
  old ← get_elem? level idx
  let level' = set level idx (set old (n % bits_per_int) true)
  let next = set_levels above idx
  if is_set old then some (level' ∷ above) else do above' ← next; some (level' ∷ above')

unfoldable pub clear_levels : List Level → ℕ → Option (List Level)
unfolding is_set
clear_levels [] n = some []
clear_levels (level ∷ above) n = do
  let idx = n / bits_per_int % 2 ^ 32
  old ← get_elem? level idx
  let new = set old (n % bits_per_int) false
  let level' = set level idx new
  let next = clear_levels above idx
  if not (is_set old) || is_set new
      then some (level' ∷ above)
      else do above' ← next; some (level' ∷ above')

unfoldable pub set_bit : DynamicBits → ℕ → Option DynamicBits
unfolding set_levels
set_bit s n = do bits ← set_levels s.bits n; some (record s { bits = bits })

unfoldable pub clear_bit : DynamicBits → ℕ → Option DynamicBits
unfolding clear_levels
clear_bit s n = do bits ← clear_levels s.bits n; some (record s { bits = bits })

-- The loops of `find_first_set` and `find_last_set`, from the last level down: `pick` is the bit that
-- is taken in a word, and the answer `none` the early return.
unfoldable pub descend : (Word → ℕ) → List Level → Option (Option ℕ)
unfolding is_set
descend pick [] = some (some 0)
descend pick (level ∷ above) = do
  found ← descend pick above
  elim found [
    | none ↦ some none
    | some pos ↦ do
      v ← get_elem? level pos
      some (if is_set v then some (pos * bits_per_int + pick v) else none)
  ]

unfoldable pub find_first_set : DynamicBits → Option ℕ
unfolding descend count_trailing_zeros
find_first_set s = do
  found ← descend count_trailing_zeros s.bits
  some (elim found [ none ↦ nopos | some pos ↦ pos ])

unfoldable pub find_last_set : DynamicBits → Option ℕ
unfolding descend count_leading_zeros
find_last_set s = do
  found ← descend (λ v. bits_per_int - 1 - count_leading_zeros v) s.bits
  some (elim found [ none ↦ nopos | some pos ↦ pos ])

unfoldable pub level_idx : ℕ → ℕ → ℕ
level_idx level n = n / 2 ^ ((level + 1) * level_shift)

unfoldable pub level_remainder : ℕ → ℕ → ℕ
level_remainder level n = bit_and (n / 2 ^ (level * level_shift)) (bits_per_int - 1)

-- `v & mask_higer_bits(n)`: the bits from `n` on.
unfoldable pub mask_higher_bits : ℕ → Word → Word
mask_higher_bits zero v = v
mask_higher_bits (suc n) [] = []
mask_higher_bits (suc n) (b ∷ v) = false ∷ mask_higher_bits n v

-- The word of a level at `n`, from `n` on.
unfoldable pub masked_word : List Level → ℕ → ℕ → Option Word
unfolding level_idx level_remainder mask_higher_bits
masked_word bits level n = do
  words ← get_elem? bits level
  v ← get_elem? words (level_idx level n)
  some (mask_higher_bits (level_remainder level n) v)

-- The first loop of `find_next_set`, by the levels left: the level and `n` where it breaks off, or
-- `none` where it leads to `nopos`.
unfoldable pub climb : List Level → ℕ → ℕ → ℕ → ℕ → Option (Option (ℕ × ℕ))
unfolding masked_word align_up
climb bits nr_bits zero level n = some none
climb bits nr_bits (suc left) level n =
    let round = do
      v ← masked_word bits level n
      let next =
          align_up n (2 ^ ((level + 1) * level_shift)) >>= climb bits nr_bits left (level + 1)
      if is_set v then some (some (level, n)) else next
    in if leb nr_bits n then some none else round

-- `count_trailing_zeros(v) << (level * level_shift)`, a shift of an `unsigned`.
unfoldable pub shift_up : ℕ → ℕ → Option ℕ
shift_up bit level = do
  check (ltb (level * level_shift) 32)
  some (bit * 2 ^ (level * level_shift) % 2 ^ 32)

-- The body of the second loop, and the loop.
unfoldable pub go_down : List Level → ℕ → ℕ → Option ℕ
unfolding masked_word align_down count_trailing_zeros shift_up
go_down bits level n = do
  v ← masked_word bits level n
  n' ← align_down n (2 ^ (level_shift * (level + 1)))
  shifted ← shift_up (count_trailing_zeros v) level
  some ((n' + shifted) % 2 ^ 64)

unfoldable pub next_down : List Level → ℕ → ℕ → Option ℕ
unfolding go_down
next_down bits zero n = go_down bits 0 n
next_down bits (suc level) n = go_down bits (suc level) n >>= next_down bits level

unfoldable pub find_next_set : DynamicBits → ℕ → Option ℕ
unfolding climb next_down
find_next_set s n = do
  found ← climb s.bits s.nr_bits (length s.bits) 0 ((n + 1) % 2 ^ 64)
  elim found [ none ↦ some nopos | some (level, n') ↦ next_down s.bits level n' ]
