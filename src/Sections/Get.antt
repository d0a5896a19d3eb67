-- ===== src/Sections/Get.antt =====
-- `Section::Get` of example-str-utils/section.cc. The conversions of the C++ library are parameters,
-- `none` where they throw; a conversion between integer types keeps the value modulo the width.
use c_plus_plus_examples.Base.{
  ℕ, ◌-◌, ◌^◌, ◌%◌, ◌<◌, ◌≤◌, ◌≡◌, dec_lt, refl, Bool, true, false, Option, none, some, arith, ltb,
  leb, ◌||◌, if◌then◌else◌,
}
use c_plus_plus_examples.Base.Integers.{ℤ, pos, negsuc}
use c_plus_plus_examples.Base.Map.{find}
use c_plus_plus_examples.Status.{codes}
use c_plus_plus_examples.Sections.{Bytes, Bytes-discrete, Section, to_upper}

-- `val < min()` and `val > max()` for a signed type of `w + 1` bits.
unfoldable pub below_min : ℕ → ℤ → Bool
below_min w (pos n) = false
below_min w (negsuc n) = leb (2 ^ w) n

unfoldable pub above_max : ℕ → ℤ → Bool
above_max w (pos n) = leb (2 ^ w) n
above_max w (negsuc n) = false

unfoldable pub convert_int32 : Option ℤ → ℤ → ℤ
unfolding below_min above_max
convert_int32 none def = def
convert_int32 (some val) def = if below_min 31 val || above_max 31 val then def else val

unfoldable pub get_int32 : (Bytes → Option ℤ) → Section → Bytes → ℤ → ℤ
unfolding find convert_int32
get_int32 stol s key def = elim (find Bytes-discrete key s.kvs) [
  | none ↦ def
  | some text ↦ convert_int32 (stol text) def
]

unfoldable pub convert_int64 : Option ℤ → ℤ → ℤ
unfolding below_min above_max
convert_int64 none def = def
convert_int64 (some val) def = if below_min 63 val || above_max 63 val then def else val

unfoldable pub get_int64 : (Bytes → Option ℤ) → Section → Bytes → ℤ → ℤ
unfolding find convert_int64
get_int64 stoll s key def = elim (find Bytes-discrete key s.kvs) [
  | none ↦ def
  | some text ↦ convert_int64 (stoll text) def
]

-- An `unsigned long` in a `long`, and an integer in an unsigned type of `w` bits.
unfoldable pub to_long : ℕ → ℤ
to_long n = if ltb n (2 ^ 63) then pos n else negsuc (2 ^ 64 - 1 - n)

unfoldable pub to_unsigned : ℕ → ℤ → ℕ
to_unsigned w (pos n) = n % 2 ^ w
to_unsigned w (negsuc n) = 2 ^ w - 1 - n % 2 ^ w

-- `val < 0`
unfoldable pub is_negative : ℤ → Bool
is_negative (pos n) = false
is_negative (negsuc n) = true

-- The result of `stoul` is kept in a `long`, and compared as one.
unfoldable pub convert_uint32 : Option ℕ → ℕ → ℕ
unfolding is_negative above_max to_long to_unsigned
convert_uint32 none def = def
convert_uint32 (some n) def =
    let val = to_long n in if is_negative val || above_max 32 val then def else to_unsigned 32 val

unfoldable pub get_uint32 : (Bytes → Option ℕ) → Section → Bytes → ℕ → ℕ
unfolding find convert_uint32
get_uint32 stoul s key def = elim (find Bytes-discrete key s.kvs) [
  | none ↦ def
  | some text ↦ convert_uint32 (stoul text) def
]

-- The result of `stoul` is kept in a `long long`, and compared as an unsigned integer.
unfoldable pub convert_uint64 : Option ℕ → ℕ → ℕ
unfolding to_long to_unsigned
convert_uint64 none def = def
convert_uint64 (some n) def =
    let val = to_unsigned 64 (to_long n) in if ltb val 0 || ltb (2 ^ 64 - 1) val then def else val

unfoldable pub get_uint64 : (Bytes → Option ℕ) → Section → Bytes → ℕ → ℕ
unfolding find convert_uint64
get_uint64 stoul s key def = elim (find Bytes-discrete key s.kvs) [
  | none ↦ def
  | some text ↦ convert_uint64 (stoul text) def
]

unfoldable pub get_bool : (ℕ → ℕ) → Section → Bytes → Bool → Bool
unfolding find to_upper
get_bool upper s key def = elim (find Bytes-discrete key s.kvs) [
  | none ↦ def
  | some text ↦
      let val = to_upper upper text in
      elim (Bytes-discrete val (codes "TRUE")) [
        | yes _ ↦ true
        | no _ ↦ elim (Bytes-discrete val (codes "FALSE")) [ yes _ ↦ false | no _ ↦ def ]
      ]
]

unfoldable pub get_string : Section → Bytes → Bytes → Bytes
unfolding find
get_string s key def = elim (find Bytes-discrete key s.kvs) [ none ↦ def | some text ↦ text ]

-- What a number below a bound is read as, by the value that the library's conversion gives.
unfoldable pub read_below : ℕ → (Bytes → Option ℕ) → Option Bytes → ℕ → ℕ
read_below bound stoul none def = def
read_below bound stoul (some text) def = elim (stoul text) [
  | none ↦ def
  | some n ↦ if ltb n bound then n else def
]

to_long_small : (n : ℕ) → n < 2 ^ 63 → to_long n ≡ pos n
unfolding to_long
to_long_small n h = ground (arith, h)

to_long_large : (n : ℕ) → 2 ^ 63 ≤ n → to_long n ≡ negsuc (2 ^ 64 - 1 - n)
unfolding to_long
to_long_large n h = ground (arith, h)

to_unsigned-to_long : (n : ℕ) → n < 2 ^ 64 → to_unsigned 64 (to_long n) ≡ n
unfolding to_unsigned
to_unsigned-to_long n small = elim (dec_lt n (2 ^ 63)) [
  | yes h ↦ rw (to_long_small n h) (omega arith)
  | no h ↦ rw (to_long_large n (omega arith)) (omega arith)
]

convert_uint32_lem : (n def : ℕ) → convert_uint32 (some n) def ≡ (if ltb n (2 ^ 32) then n else def)
unfolding convert_uint32 is_negative above_max to_unsigned
convert_uint32_lem n def = elim (dec_lt n (2 ^ 63)) [
  | yes h ↦ rw (to_long_small n h) (ground (arith, h))
  | no h ↦ rw (to_long_large n (omega arith)) (ground (arith, h))
]

convert_uint64_lem :
    (n def : ℕ) → n < 2 ^ 64 → convert_uint64 (some n) def ≡ (if ltb n (2 ^ 64) then n else def)
unfolding convert_uint64
convert_uint64_lem n def small = rw (to_unsigned-to_long n small) (ground (arith, small))

convert_lem :
    (o : Option ℕ) (def : ℕ)
    → ((n : ℕ) → o ≡ some n → n < 2 ^ 64)
    → (convert_uint32 o def ≡ elim o [ none ↦ def | some n ↦ if ltb n (2 ^ 32) then n else def ])
      × (convert_uint64 o def ≡ elim o [ none ↦ def | some n ↦ if ltb n (2 ^ 64) then n else def ])
unfolding convert_uint32 convert_uint64
convert_lem none def small = (refl, refl)
convert_lem (some n) def small = (convert_uint32_lem n def, convert_uint64_lem n def (small n refl))

-- Get<uint32_t> and Get<uint64_t> give what `std::stoul` reads under the key, when that fits 32 or 64
-- bits, and the default otherwise, also where it throws: the way through a signed integer changes
-- nothing. What `std::stoul` reads is an unsigned 64-bit integer, for "-1" the largest one.
pub get_unsigned_lem :
    (stoul : Bytes → Option ℕ)
    → ((text : Bytes) (n : ℕ) → stoul text ≡ some n → n < 2 ^ 64)
    → (s : Section) (key : Bytes) (def : ℕ)
    → (get_uint32 stoul s key def ≡ read_below (2 ^ 32) stoul (find Bytes-discrete key s.kvs) def)
      × (get_uint64 stoul s key def ≡ read_below (2 ^ 64) stoul (find Bytes-discrete key s.kvs) def)
unfolding get_uint32 get_uint64 read_below
get_unsigned_lem stoul bound s key def = by_found (find Bytes-discrete key s.kvs)
  where
    by_found :
        (found : Option Bytes)
        → ((elim found [ none ↦ def | some text ↦ convert_uint32 (stoul text) def ])
            ≡ read_below (2 ^ 32) stoul found def)
          × ((elim found [ none ↦ def | some text ↦ convert_uint64 (stoul text) def ])
              ≡ read_below (2 ^ 64) stoul found def)
    by_found none = (refl, refl)
    by_found (some text) = convert_lem (stoul text) def (bound text)
