-- ===== src/DynamicBits/Align.antt =====
-- common/align.h and common/bitopts.h as arithmetic: alignment to a power of two, and the logarithm.
use native.Mathlib.Nat.{mod_self}
use c_plus_plus_examples.Base.{
  ℕ, zero, suc, ◌+◌, ◌-◌, ◌*◌, ◌/◌, ◌%◌, ◌^◌, ◌≤◌, ◌<◌, ◌≡◌, sym, ap, ◌∙◌, bit_and, false, some,
  arith, Bool-cases, inl, inr, leb, ◌==◌,
}
use c_plus_plus_examples.Base.Masks.{bit_and_low, bit_and_high}
use c_plus_plus_examples.DynamicBits.{align_up, align_down, leading_zeros, log2ceil}

-- The assertion that the alignment is a power of two.
is_power : (k : ℕ) → bit_and (2 ^ k) (2 ^ k - 1) ≡ 0
is_power k = bit_and_low k (2 ^ k) ∙ mod_self (2 ^ k)

pub mask_64 : (k l v : ℕ) → k + l ≡ 64 → v < 2 ^ 64 → bit_and v (2 ^ 64 - 2 ^ k) ≡ v / 2 ^ k * 2 ^ k
mask_64 k l v e h =
    let w : 2 ^ (k + l) ≡ 2 ^ 64 = ap (λ (t : ℕ). 2 ^ t) e in
    rw (sym w) (bit_and_high k l v (rw w h))

pub align_up-pow :
    (k l v : ℕ)
    → k + l ≡ 64
    → v + 2 ^ k ≤ 2 ^ 64
    → 0 < 2 ^ k
    → align_up v (2 ^ k) ≡ some ((v + 2 ^ k - 1) / 2 ^ k * 2 ^ k)
unfolding align_up
align_up-pow k l v e h pos =
    let small : (v + 2 ^ k - 1) % 2 ^ 64 ≡ v + 2 ^ k - 1 = omega arith in
    rw (align_up, is_power k, small, mask_64 k l (v + 2 ^ k - 1) e (omega arith)) (ground arith)

pub align_down-pow :
    (k l v : ℕ) → k + l ≡ 64 → v < 2 ^ 64 → align_down v (2 ^ k) ≡ some (v / 2 ^ k * 2 ^ k)
unfolding align_down
align_down-pow k l v e h = rw (align_down, is_power k, mask_64 k l v e h) (ground arith)

leading_zeros-lt : (w x : ℕ) → x < 2 ^ w → x < 2 ^ (w - leading_zeros w x)
unfolding leading_zeros
leading_zeros-lt zero x h = h
leading_zeros-lt (suc w) x h = elim (Bool-cases (leb (2 ^ w) x)) [
  | inl top ↦ let whole : suc w - 0 ≡ suc w = omega arith in rw (leading_zeros, top, whole) h
  | inr rest ↦
      let fewer : suc w - suc (leading_zeros w x) ≡ w - leading_zeros w x = omega arith in
      rw (leading_zeros, rest, fewer) (leading_zeros-lt w x (ground (arith, rest)))
]

leading_zeros-ge : (w x : ℕ) → 0 < x → x < 2 ^ w → 2 ^ (w - leading_zeros w x - 1) ≤ x
unfolding leading_zeros
leading_zeros-ge zero x pos h = absurd (omega arith)
leading_zeros-ge (suc w) x pos h = elim (Bool-cases (leb (2 ^ w) x)) [
  | inl top ↦
      let whole : suc w - 0 - 1 ≡ w = omega arith in
      rw (leading_zeros, top, whole) (ground (arith, top))
  | inr rest ↦
      let fewer : suc w - suc (leading_zeros w x) - 1 ≡ w - leading_zeros w x - 1 = omega arith in
      rw (leading_zeros, rest, fewer) (leading_zeros-ge w x pos (ground (arith, rest)))
]

-- The logarithm is the least that is enough.
pub pow-log2ceil-lt : (x : ℕ) → 1 < x → x < 2 ^ 64 → 2 ^ (log2ceil x - 1) < x
unfolding log2ceil
pow-log2ceil-lt x more small =
    let several : (x == 1) ≡ false = ground (arith, more) in
    let pred : (x + 2 ^ 64 - 1) % 2 ^ 64 ≡ x - 1 = omega arith in
    rw (log2ceil, several, pred)
      (omega (arith, leading_zeros-ge 64 (x - 1) (omega arith) (omega arith)))

pub log2ceil-le : (x : ℕ) → 0 < x → x < 2 ^ 64 → x ≤ 2 ^ log2ceil x
unfolding log2ceil
log2ceil-le x pos small = elim (Bool-cases (x == 1)) [
  | inl one ↦ rw (log2ceil, one) (ground (arith, one))
  | inr more ↦
      let pred : (x + 2 ^ 64 - 1) % 2 ^ 64 ≡ x - 1 = omega arith in
      rw (log2ceil, more, pred) (omega (arith, leading_zeros-lt 64 (x - 1) (omega arith)))
]
