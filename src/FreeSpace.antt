-- ===== src/FreeSpace.antt =====
-- example-bitset/main.cc: `MetaDataLayout<N>`, a map of used blocks, and its search for free ones.
-- `std::bitset<N>` is the list of its N bits, index 0 first.
pub mod Finders
pub mod Search
pub mod Words
pub mod Chunks
mod Tests
pub mod Functional
use c_plus_plus_examples.Base.{
  take, drop, replicate, min, ◌++◌, ◌*◌, ◌/◌, Option, none, some, ℕ, zero, suc, ◌+◌, ◌-◌, Bool,
  true, false, not, List, [], ◌∷◌, length, get_or, set, ltb, leb, ◌==◌, if◌then◌else◌,
}
use mathlib.Core.Option.{map}

-- `space.test(i)`, which the source calls below N only.
abbrev pub test : List Bool → ℕ → Bool
test space i = get_or space i false

-- `space.count()`
unfoldable pub count : List Bool → ℕ
count [] = 0
count (b ∷ space) = if b then count space + 1 else count space

-- The loop of `FindFirstZero` and `FindFirstOne`; the fuel is what is left up to N.
unfoldable pub find_first : (Bool → Bool) → List Bool → ℕ → ℕ → ℕ
find_first wanted space zero from = length space
find_first wanted space (suc fuel) from =
    let rest = find_first wanted space fuel (from + 1) in
    if wanted (test space from) then from else rest

unfoldable pub find_first_zero : List Bool → ℕ → ℕ
unfolding find_first
find_first_zero space from = find_first not space (length space - from) from

unfoldable pub find_first_one : List Bool → ℕ → ℕ
unfolding find_first
find_first_one space from = find_first (λ b. b) space (length space - from) from

-- The loop of the search; each round moves `curr` on, so N + 1 rounds are enough.
unfoldable pub search : (find_zero find_one : ℕ → ℕ) (n cnt : ℕ) → ℕ → ℕ → ℕ
search find_zero find_one n cnt zero curr = n
search find_zero find_one n cnt (suc fuel) curr =
    let first_zero = find_zero curr in
    let first_one = find_one (first_zero + 1) in
    let rest = search find_zero find_one n cnt fuel (first_one + 1) in
    if not (leb curr (n - cnt))
    then n
    else if first_zero == n
    then n
    else if leb cnt (first_one - first_zero)
    then first_zero
    else rest

unfoldable pub find_with : (find_zero find_one : ℕ → ℕ) → List Bool → ℕ → ℕ
unfolding search count
find_with find_zero find_one space cnt =
    let n = length space in
    if cnt == 0
    then n
    else if ltb (n - count space) cnt
    then n
    else search find_zero find_one n cnt (n + 1) 0

unfoldable pub find_continuous_free_space : List Bool → ℕ → ℕ
unfolding find_with find_first_zero find_first_one
find_continuous_free_space space cnt =
    find_with (find_first_zero space) (find_first_one space) space cnt

-- `space >>= n`
unfoldable pub shift_down : ℕ → List Bool → List Bool
shift_down n space = drop n space ++ replicate (min n (length space)) false

-- `(space & MARSK).to_ullong()`, as its 64 bits.
unfoldable pub low_word : List Bool → List Bool
low_word space = take 64 (space ++ replicate 64 false)

-- `FindFirstZeroUInt64` and `FindFirstOneUInt64` by the bits of the word, with `none` for false.
unfoldable pub find_first_uint64 : (Bool → Bool) → List Bool → Option ℕ
find_first_uint64 wanted [] = none
find_first_uint64 wanted (b ∷ v) = if wanted b then some 0 else map suc (find_first_uint64 wanted v)

-- The loop of `FindFirstZeroV1` and `FindFirstOneV1`; the fuel is the number of chunks left.
unfoldable pub find_first_v1 : (Bool → Bool) → (n from : ℕ) → ℕ → ℕ → List Bool → ℕ
unfolding low_word find_first_uint64 shift_down
find_first_v1 wanted n from zero chunk_index space = n
find_first_v1 wanted n from (suc chunks) chunk_index space =
    elim (find_first_uint64 wanted (low_word space)) [
      | some pos ↦ pos + chunk_index * 64 + from
      | none ↦ find_first_v1 wanted n from chunks (chunk_index + 1) (shift_down 64 space)
    ]

unfoldable pub total_chunk : ℕ → ℕ
total_chunk n = (n + 64 - 1) / 64

unfoldable pub find_first_zero_v1 : List Bool → ℕ → ℕ
unfolding find_first_v1 shift_down total_chunk
find_first_zero_v1 space from =
    find_first_v1 not (length space) from (total_chunk (length space - from)) 0
      (shift_down from space)

unfoldable pub find_first_one_v1 : List Bool → ℕ → ℕ
unfolding find_first_v1 shift_down total_chunk
find_first_one_v1 space from =
    find_first_v1 (λ b. b) (length space) from (total_chunk (length space - from)) 0
      (shift_down from space)

unfoldable pub find_continuous_free_space_v1 : List Bool → ℕ → ℕ
unfolding find_with find_first_zero_v1 find_first_one_v1
find_continuous_free_space_v1 space cnt =
    find_with (find_first_zero_v1 space) (find_first_one_v1 space) space cnt

-- `MarkSpaceUsed` and `MarkSpaceFreed`, for positions below N.
unfoldable pub mark_space : Bool → List Bool → List ℕ → List Bool
mark_space used space [] = space
mark_space used space (pos ∷ l) = mark_space used (set space pos used) l
