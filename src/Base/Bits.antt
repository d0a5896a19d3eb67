-- ===== src/Base/Bits.antt =====
-- `&` and `|` of words at variables: one equation for the lowest digit, and from it the masks and
-- fields that the coders use, as arithmetic.
use Prim.Native.Nat.{
  ℕ, zero, suc, ◌+◌, ◌*◌, ◌/◌, ◌%◌, ◌^◌, ◌≤◌, ◌<◌, min, max, bit_and, bit_or, digits, bitwise,
  bit_and-bitwise, bit_or-bitwise,
}
use mathlib.Core.Path.{◌≡◌, refl, sym, ap, ◌∙◌}
use native.Mathlib.Nat.{pow-suc}
use native.Mathlib.Omega.{arith}
use native.Mathlib.Decide.{dec_lt}

-- A word operation by its digit recursion: `low` combines two digits, and `end` takes the second
-- number when the first is used up. Any fuel that is enough gives the same number.
module _ (end : ℕ → ℕ) (low : ℕ → ℕ → ℕ) where
  used_up : (fuel y : ℕ) → digits end low fuel 0 y ≡ end y
  used_up zero y = refl
  used_up (suc fuel) y = refl

  fuel_free :
      (fuel spare x y : ℕ)
      → x ≤ fuel
      → x ≤ spare
      → digits end low fuel x y ≡ digits end low spare x y
  fuel_free fuel spare zero y few _ = used_up fuel y ∙ sym (used_up spare y)
  fuel_free zero spare (suc x) y few _ = absurd (omega arith)
  fuel_free (suc fuel) zero (suc x) y _ few = absurd (omega arith)
  fuel_free (suc fuel) (suc spare) (suc x) y enough also =
      ap (λ high. high * 2 + low (suc x % 2) (y % 2))
        (fuel_free fuel spare (suc x / 2) (y / 2) (omega arith) (omega arith))

  lowest_digit :
      (x y : ℕ)
      → bitwise end low (suc x) y
        ≡ bitwise end low (suc x / 2) (y / 2) * 2 + low (suc x % 2) (y % 2)
  lowest_digit x y =
      ap (λ high. high * 2 + low (suc x % 2) (y % 2))
        (fuel_free x (suc x / 2) (suc x / 2) (y / 2) (omega arith) (omega arith))

pub zero-bit_or : (b : ℕ) → bit_or 0 b ≡ b
zero-bit_or y = bit_or-bitwise 0 y

zero-bit_and : (b : ℕ) → bit_and 0 b ≡ 0
zero-bit_and y = bit_and-bitwise 0 y

pub bit_or_step : (a b : ℕ) → bit_or a b ≡ bit_or (a / 2) (b / 2) * 2 + max (a % 2) (b % 2)
bit_or_step zero y = rw (zero-bit_or, zero-bit_or) (omega arith)
bit_or_step (suc x) y =
    rw (bit_or-bitwise (suc x) y, bit_or-bitwise (suc x / 2) (y / 2))
      (lowest_digit (λ d. d) max x y)

pub bit_and_step : (a b : ℕ) → bit_and a b ≡ bit_and (a / 2) (b / 2) * 2 + min (a % 2) (b % 2)
bit_and_step zero y = rw (zero-bit_and, zero-bit_and) (omega arith)
bit_and_step (suc x) y =
    rw (bit_and-bitwise (suc x) y, bit_and-bitwise (suc x / 2) (y / 2))
      (lowest_digit (λ d. 0) min x y)

-- Zero on the right, by induction on a bound.
or_zero_below : (bound x : ℕ) → x < bound → bit_or x 0 ≡ x
or_zero_below zero x h = absurd (omega arith)
or_zero_below (suc bound) x h = elim (dec_lt 0 x) [
  | yes more ↦ omega (arith, bit_or_step x 0, or_zero_below bound (x / 2) (omega arith))
  | no done ↦ let e : x ≡ 0 = omega arith in rw e (zero-bit_or 0)
]

pub bit_or-zero : (a : ℕ) → bit_or a 0 ≡ a
bit_or-zero x = or_zero_below (x + 1) x (omega arith)

and_zero_below : (bound x : ℕ) → x < bound → bit_and x 0 ≡ 0
and_zero_below zero x h = absurd (omega arith)
and_zero_below (suc bound) x h = elim (dec_lt 0 x) [
  | yes more ↦ omega (arith, bit_and_step x 0, and_zero_below bound (x / 2) (omega arith))
  | no done ↦ let e : x ≡ 0 = omega arith in rw e (zero-bit_and 0)
]

pub bit_and-zero : (a : ℕ) → bit_and a 0 ≡ 0
bit_and-zero x = and_zero_below (x + 1) x (omega arith)

-- `r | (q << k)` is a sum when `r` has `k` bits at most.
pub bit_or_shifted : (k q r : ℕ) → r < 2 ^ k → bit_or r (q * 2 ^ k) ≡ r + q * 2 ^ k
bit_or_shifted zero q zero h = omega (arith, zero-bit_or (q * 2 ^ 0))
bit_or_shifted zero q (suc r) h = absurd (omega arith)
bit_or_shifted (suc k) q r h = ground (
  arith,
  bit_or_step r (q * 2 ^ suc k),
  ap (λ (t : ℕ). q * t) (pow-suc 2 k),
  pow-suc 2 k,
  bit_or_shifted k q (r / 2) (omega (arith, pow-suc 2 k)),
)

bit_or_even : (v m : ℕ) → bit_or v (2 * m) ≡ bit_or (v / 2) m * 2 + v % 2
bit_or_even v m = rw (bit_or_step v (2 * m)) (ground (arith, half))
  where
    half : 2 * m / 2 ≡ m
    half = omega arith

pub bit_and_even : (v m : ℕ) → bit_and v (2 * m) ≡ bit_and (v / 2) m * 2
bit_and_even v m = rw (bit_and_step v (2 * m)) (ground (arith, half))
  where
    half : 2 * m / 2 ≡ m
    half = omega arith

-- A single bit of a byte, set: `v | 2 ^ k`.
or_1 : (v : ℕ) → bit_or v 1 ≡ v / 2 * 2 + 1
or_1 v = omega (arith, bit_or_step v 1, bit_or-zero (v / 2))

or_2 : (v : ℕ) → bit_or v 2 ≡ v / 4 * 4 + 2 + v % 2
or_2 v = omega (arith, bit_or_even v 1, or_1 (v / 2))

or_4 : (v : ℕ) → bit_or v 4 ≡ v / 8 * 8 + 4 + v % 4
or_4 v = omega (arith, bit_or_even v 2, or_2 (v / 2))

or_8 : (v : ℕ) → bit_or v 8 ≡ v / 16 * 16 + 8 + v % 8
or_8 v = omega (arith, bit_or_even v 4, or_4 (v / 2))

or_16 : (v : ℕ) → bit_or v 16 ≡ v / 32 * 32 + 16 + v % 16
or_16 v = omega (arith, bit_or_even v 8, or_8 (v / 2))

or_32 : (v : ℕ) → bit_or v 32 ≡ v / 64 * 64 + 32 + v % 32
or_32 v = omega (arith, bit_or_even v 16, or_16 (v / 2))

or_64 : (v : ℕ) → bit_or v 64 ≡ v / 128 * 128 + 64 + v % 64
or_64 v = omega (arith, bit_or_even v 32, or_32 (v / 2))

pub bit_or_128 : (v : ℕ) → bit_or v 128 ≡ v / 256 * 256 + 128 + v % 128
bit_or_128 v = omega (arith, bit_or_even v 64, or_64 (v / 2))

-- The low bits: `v & (2 ^ k - 1)`.
and_1 : (v : ℕ) → bit_and v 1 ≡ v % 2
and_1 v = omega (arith, bit_and_step v 1, bit_and-zero (v / 2))

and_3 : (v : ℕ) → bit_and v 3 ≡ v % 4
and_3 v = omega (arith, bit_and_step v 3, and_1 (v / 2))

and_7 : (v : ℕ) → bit_and v 7 ≡ v % 8
and_7 v = omega (arith, bit_and_step v 7, and_3 (v / 2))

and_15 : (v : ℕ) → bit_and v 15 ≡ v % 16
and_15 v = omega (arith, bit_and_step v 15, and_7 (v / 2))

and_31 : (v : ℕ) → bit_and v 31 ≡ v % 32
and_31 v = omega (arith, bit_and_step v 31, and_15 (v / 2))

and_63 : (v : ℕ) → bit_and v 63 ≡ v % 64
and_63 v = omega (arith, bit_and_step v 63, and_31 (v / 2))

pub bit_and_127 : (v : ℕ) → bit_and v 127 ≡ v % 128
bit_and_127 v = omega (arith, bit_and_step v 127, and_63 (v / 2))

pub bit_and_255 : (v : ℕ) → bit_and v 255 ≡ v % 256
bit_and_255 v = omega (arith, bit_and_step v 255, bit_and_127 (v / 2))

-- A single bit of a byte, kept: `v & 2 ^ k`.
bit_2 : (v : ℕ) → bit_and v 2 ≡ v / 2 % 2 * 2
bit_2 v = omega (arith, bit_and_even v 1, and_1 (v / 2))

bit_4 : (v : ℕ) → bit_and v 4 ≡ v / 4 % 2 * 4
bit_4 v = omega (arith, bit_and_even v 2, bit_2 (v / 2))

bit_8 : (v : ℕ) → bit_and v 8 ≡ v / 8 % 2 * 8
bit_8 v = omega (arith, bit_and_even v 4, bit_4 (v / 2))

bit_16 : (v : ℕ) → bit_and v 16 ≡ v / 16 % 2 * 16
bit_16 v = omega (arith, bit_and_even v 8, bit_8 (v / 2))

bit_32 : (v : ℕ) → bit_and v 32 ≡ v / 32 % 2 * 32
bit_32 v = omega (arith, bit_and_even v 16, bit_16 (v / 2))

bit_64 : (v : ℕ) → bit_and v 64 ≡ v / 64 % 2 * 64
bit_64 v = omega (arith, bit_and_even v 32, bit_32 (v / 2))

pub bit_and_128 : (v : ℕ) → bit_and v 128 ≡ v / 128 % 2 * 128
bit_and_128 v = omega (arith, bit_and_even v 64, bit_64 (v / 2))

-- `|` of two words is a word.
pub bit_or-lt-pow : (w a b : ℕ) → a < 2 ^ w → b < 2 ^ w → bit_or a b < 2 ^ w
bit_or-lt-pow zero zero b ha hb = omega (arith, zero-bit_or b)
bit_or-lt-pow zero (suc a) b ha hb = absurd (omega arith)
bit_or-lt-pow (suc w) a b ha hb = omega (
  arith,
  bit_or_step a b,
  pow-suc 2 w,
  bit_or-lt-pow w (a / 2) (b / 2) (omega (arith, pow-suc 2 w)) (omega (arith, pow-suc 2 w)),
)
