-- ===== src/Base/Masks.antt =====
-- Masks of any width, as arithmetic: the low digits of a word, and all but those.
use Prim.Native.Nat.{ℕ, zero, suc, ◌+◌, ◌-◌, ◌*◌, ◌/◌, ◌%◌, ◌^◌, ◌<◌, bit_and}
use mathlib.Core.Path.{◌≡◌, refl, ap, ◌∙◌}
use native.Mathlib.Nat.{
  add-suc, pow-suc, mod-eq-sub-mul-div, div-div-eq-div-mul, mod-eq_of_lt, mul-div-le,
  div-lt_iff_lt-mul,
}
use native.Mathlib.Omega.{arith}
use c_plus_plus_examples.Base.Bits.{bit_and_step, bit_and-zero, bit_and_even}

pub pow_pos : (k : ℕ) → 0 < 2 ^ k
pow_pos zero = omega arith
pow_pos (suc k) = omega (arith, pow-suc 2 k, pow_pos k)

pub pow_split : (k l : ℕ) → 2 ^ (k + l) ≡ 2 ^ k * 2 ^ l
pow_split k zero = let e : k + 0 ≡ k = omega arith in rw e (omega arith)
pow_split k (suc l) = omega (
  arith,
  ap (λ (t : ℕ). 2 ^ t) (add-suc k l),
  pow-suc 2 (k + l),
  ap (λ (t : ℕ). 2 ^ k * t) (pow-suc 2 l),
  ap (λ (t : ℕ). t * 2) (pow_split k l),
)

div_one : (x : ℕ) → x / 1 ≡ x
div_one x = omega arith

-- One digit off.
mod_double : (x m : ℕ) → x % (2 * m) ≡ x / 2 % m * 2 + x % 2
mod_double x m = omega (
  arith,
  mod-eq-sub-mul-div x (2 * m),
  mod-eq-sub-mul-div (x / 2) m,
  ap (λ (t : ℕ). m * t) (div-div-eq-div-mul x 2 m),
  mul-div-le (x / 2) m,
)

-- `x & ((1 << k) - 1)`
pub bit_and_low : (k x : ℕ) → bit_and x (2 ^ k - 1) ≡ x % 2 ^ k
bit_and_low zero x = omega (arith, bit_and-zero x)
bit_and_low (suc k) x =
    let half : (2 ^ suc k - 1) / 2 ≡ 2 ^ k - 1 = omega (arith, pow-suc 2 k, pow_pos k) in
    let odd : (2 ^ suc k - 1) % 2 ≡ 1 = omega (arith, pow-suc 2 k, pow_pos k) in
    let twice : 2 ^ suc k ≡ 2 * 2 ^ k = omega (arith, pow-suc 2 k) in
    bit_and_step x (2 ^ suc k - 1)
    ∙ rw (half, odd, bit_and_low k (x / 2), twice, mod_double x (2 ^ k)) (omega arith)

-- `x & (q << k)`
pub bit_and_shifted : (k x q : ℕ) → bit_and x (q * 2 ^ k) ≡ bit_and (x / 2 ^ k) q * 2 ^ k
bit_and_shifted zero x q = let e : q * 2 ^ 0 ≡ q = omega arith in rw (e, div_one x) (omega arith)
bit_and_shifted (suc k) x q =
    let twice : q * 2 ^ suc k ≡ 2 * (q * 2 ^ k) =
      omega (arith, ap (λ (t : ℕ). q * t) (pow-suc 2 k)) in
    let quarter : x / 2 / 2 ^ k ≡ x / 2 ^ suc k =
      div-div-eq-div-mul x 2 (2 ^ k) ∙ ap (λ (t : ℕ). x / t) (omega (arith, pow-suc 2 k)) in
    rw twice (
      omega (
        arith,
        bit_and_even x (q * 2 ^ k),
        bit_and_shifted k (x / 2) q,
        ap (λ (t : ℕ). bit_and t q * 2 ^ k) quarter,
        ap (λ (t : ℕ). bit_and (x / 2 ^ suc k) q * t) (pow-suc 2 k),
      ))

-- `x & ~((1 << k) - 1)`, in `k + l` bits.
pub bit_and_high :
    (k l x : ℕ) → x < 2 ^ (k + l) → bit_and x (2 ^ (k + l) - 2 ^ k) ≡ x / 2 ^ k * 2 ^ k
bit_and_high k l x h =
    let mask : 2 ^ (k + l) - 2 ^ k ≡ (2 ^ l - 1) * 2 ^ k =
      let e : 2 ^ l ≡ 2 ^ l - 1 + 1 = omega (arith, pow_pos l) in
      omega (arith, pow_split k l, ap (λ (t : ℕ). t * 2 ^ k) e) in
    let small : x / 2 ^ k < 2 ^ l =
      (div-lt_iff_lt-mul (pow_pos k)).1 (omega (arith, pow_split k l)) in
    rw (mask, bit_and_shifted k x (2 ^ l - 1), bit_and_low l (x / 2 ^ k), mod-eq_of_lt small) refl
