-- ===== src/DynamicBits/Climb.antt =====
-- The words that `find_next_set` of example-dynamic-bits/dynamic_bits.cc looks at, and its loop up
-- through the levels.
use native.Mathlib.Nat.{
  div-div-eq-div-mul, div-lt_iff_lt-mul, mul-div_left, lt_of_mul-lt-mul_right, add-mul-div_right,
  div-eq_of_lt, mul-le-mul_right, pow-le-pow_right, le-div_iff_mul-le,
}
use c_plus_plus_examples.Base.{
  ℕ, zero, suc, ◌+◌, ◌-◌, ◌*◌, ◌/◌, ◌%◌, ◌^◌, ◌≤◌, ◌<◌, ◌≡◌, refl, sym, ap, ◌∙◌, true, false, ◌&&◌,
  Option, none, some, List, [], ◌∷◌, length, get_elem?, get_or, arith, Bool-cases, inl, inr, dec_lt,
  leb,
}
use c_plus_plus_examples.Base.Masks.{pow_pos, bit_and_low}
use c_plus_plus_examples.DynamicBits.{
  Word, Level, DynamicBits, is_set, mask_higher_bits, masked_word, level_idx, level_remainder,
  align_up, climb,
}
use c_plus_plus_examples.DynamicBits.Align.{align_up-pow}
use c_plus_plus_examples.DynamicBits.Levels.{word, bit, IsValid, get_elem?-word, zero_bits}
use c_plus_plus_examples.DynamicBits.Tower.{
  span, span-suc, level_at, at, at_room, at_last, zero_below,
}

pub bit_at-mask :
    (r : ℕ) (w : Word) (i : ℕ)
    → get_or (mask_higher_bits r w) i false ≡ (leb r i && get_or w i false)
unfolding mask_higher_bits
bit_at-mask zero w i = ground arith
bit_at-mask (suc r) [] i = ground arith
bit_at-mask (suc r) (b ∷ w) zero = ground arith
bit_at-mask (suc r) (b ∷ w) (suc i) = ground (arith, bit_at-mask r w i)

get_elem?-level :
    (bits : List Level) (k : ℕ) → k < length bits → get_elem? bits k ≡ some (level_at bits k)
get_elem?-level [] k h = absurd (omega arith)
get_elem?-level (l ∷ bits) zero h = refl
get_elem?-level (l ∷ bits) (suc k) h = get_elem?-level bits k (omega arith)

-- The position of bit `q` of level `k`, in the words of that level.
pub idx_at : (k q : ℕ) → level_idx k (q * span k) ≡ q / 64
unfolding level_idx
idx_at k q =
    let e : 2 ^ ((k + 1) * 6) ≡ span k * 64 =
      let next : k + 1 ≡ suc k = omega arith in rw next (omega (arith, span-suc k)) in
    ap (λ (t : ℕ). q * span k / t) e
    ∙ sym (div-div-eq-div-mul (q * span k) (span k) 64)
    ∙ ap (λ (t : ℕ). t / 64) (mul-div_left q (pow_pos (k * 6)))

pub remainder_at : (k q : ℕ) → level_remainder k (q * span k) ≡ q % 64
unfolding level_remainder
remainder_at k q = rw (mul-div_left q (pow_pos (k * 6))) (bit_and_low 6 q)

pub up_at :
    (k q : ℕ)
    → (q * span k + span (suc k) - 1) / span (suc k) * span (suc k) ≡ (q + 63) / 64 * span (suc k)
up_at k q =
    let pos = pow_pos (k * 6) in
    let sum : q * span k + span (suc k) - 1 ≡ span k - 1 + (q + 63) * span k =
      omega (arith, span-suc k, pos) in
    let none_over : (span k - 1) / span k ≡ 0 = div-eq_of_lt (omega (arith, pos)) in
    let low : (span k - 1 + (q + 63) * span k) / span k ≡ q + 63 =
      add-mul-div_right (span k - 1) (q + 63) pos ∙ omega (arith, none_over) in
    let e : (q * span k + span (suc k) - 1) / span (suc k) ≡ (q + 63) / 64 =
      ap (λ (t : ℕ). t / span (suc k)) sum
      ∙ ap (λ (t : ℕ). (span k - 1 + (q + 63) * span k) / t) (omega (arith, span-suc k))
      ∙ sym (div-div-eq-div-mul (span k - 1 + (q + 63) * span k) (span k) 64)
      ∙ ap (λ (t : ℕ). t / 64) low in
    ap (λ (t : ℕ). t * span (suc k)) e

module _ (s : DynamicBits) (v : IsValid s) where
  unfoldable pub masked : ℕ → ℕ → Word
  masked k q = mask_higher_bits (q % 64) (word (at s v k) (q / 64))

  word_room : (k q : ℕ) → k ≤ length v.above → q * span k < s.nr_bits → q / 64 < length (at s v k)
  word_room k q l h =
      let below : q < 64 * length (at s v k) =
        lt_of_mul-lt-mul_right (span k) (omega (arith, at_room s v k l)) in
      omega arith

  pub masked_word-at :
      (k q : ℕ)
      → k ≤ length v.above
      → q * span k < s.nr_bits
      → masked_word (v.level ∷ v.above) k (q * span k) ≡ some (masked k q)
  unfolding masked_word masked
  masked_word-at k q l h =
      rw
        (
          masked_word,
          idx_at k q,
          remainder_at k q,
          get_elem?-level (v.level ∷ v.above) k (omega arith),
          get_elem?-word (at s v k) (q / 64) (word_room k q l h),
        )
        refl

  -- The bits of the set from one position to another, all unset.
  abbrev pub Unset : ℕ → ℕ → Type 0
  Unset from to = (i : ℕ) → from ≤ i → i < to → bit v.level i ≡ false

  -- What the loop breaks off with: no member is left, or a word with a member not before `q`.
  pub data Climbed (n : ℕ) : Option (ℕ × ℕ) → Type 0 where
    no_member : ((i : ℕ) → n ≤ i → bit v.level i ≡ false) → Climbed n none
    stopped :
        (k q m : ℕ)
        → m ≡ q * span k
        → k ≤ length v.above
        → q * span k < s.nr_bits
        → n ≤ q * span k
        → Unset n (q * span k)
        → is_set (masked k q) ≡ true
        → Climbed n (some (k, m))

  pub height : length v.above ≤ 6
  height = elim (dec_lt 6 (length v.above)) [
    | yes tall ↦
        absurd (omega (arith, v.few, v.small, pow-le-pow_right {n = 64} (omega arith) tall))
    | no low ↦ omega arith
  ]

  -- The rest of a word without members, from the masked bits on.
  empty_word :
      (k q : ℕ)
      → k ≤ length v.above
      → is_set (masked k q) ≡ false
      → (i : ℕ) → q ≤ i / span k
      → i / span k / 64 ≡ q / 64
      → bit v.level i ≡ false
  unfolding bit masked
  empty_word k q l empty i low same = zero_below s v k i l (
      rw (bit, same)
        (ground (
          arith,
          bit_at-mask (q % 64) (word (at s v k) (q / 64)) (i / span k % 64),
          zero_bits (masked k q) (i / span k % 64) empty,
        )))

  -- It is skipped.
  skipped :
      (k q : ℕ)
      → k ≤ length v.above
      → is_set (masked k q) ≡ false
      → (i : ℕ) → q * span k ≤ i
      → i < (q + 63) / 64 * span (suc k)
      → bit v.level i ≡ false
  skipped k q l empty i from to =
      let pos = pow_pos (k * 6) in
      let low : q ≤ i / span k = (le-div_iff_mul-le pos).1 from in
      let high : i / span k < (q + 63) / 64 * 64 =
        (div-lt_iff_lt-mul pos).1
          (omega (arith, to, ap (λ (t : ℕ). (q + 63) / 64 * t) (span-suc k))) in
      empty_word k q l empty i low (omega arith)

  -- At position 0 the loop goes up without moving on; the words that it has looked at stand for the
  -- first bits.
  pub First : ℕ → ℕ → Type 0
  First k q = q ≡ 0 → 0 < k → (i : ℕ) → i < span k → bit v.level i ≡ false

  pub First-0 : (q : ℕ) → First 0 q
  unfolding First
  First-0 q e pos i low = absurd (omega arith)

  First-suc :
      (k q : ℕ) → k ≤ length v.above → is_set (masked k q) ≡ false → First (suc k) ((q + 63) / 64)
  unfolding First
  First-suc k q l empty e pos i low =
      let zero_q : q ≡ 0 = omega (arith, e) in
      let high : i / span k < 64 =
        (div-lt_iff_lt-mul (pow_pos (k * 6))).1 (omega (arith, low, span-suc k)) in
      empty_word k q l empty i (omega (arith, zero_q)) (omega (arith, zero_q, high))

  -- No member lies behind the last bit.
  none_behind : (i : ℕ) → s.nr_bits ≤ i → bit v.level i ≡ false
  none_behind i h = v.unused i h

  behind : (n m : ℕ) → s.nr_bits ≤ m → Unset n m → (i : ℕ) → n ≤ i → bit v.level i ≡ false
  behind n m h unset i l = elim (dec_lt i m) [
    | yes below ↦ unset i l below
    | no above ↦ none_behind i (omega arith)
  ]

  -- Above the last level there is nothing left.
  top :
      (k q n : ℕ)
      → k ≡ suc (length v.above)
      → n ≤ q * span k
      → Unset n (q * span k)
      → First k q
      → (i : ℕ) → n ≤ i
      → bit v.level i ≡ false
  unfolding First
  top k q n e low unset first =
      let room : s.nr_bits ≤ span k = omega (
        arith,
        at_room s v (length v.above) (omega arith),
        ap (λ (t : ℕ). span (length v.above) * t) (at_last s v),
        ap (λ (t : ℕ). span t) e,
        span-suc (length v.above),
      ) in
      elim (dec_lt 0 q) [
        | yes some_q ↦
            behind n (q * span k) (omega (arith, room, mul-le-mul_right (span k) some_q)) unset
        | no none_q ↦ λ i l. elim (dec_lt i (span k)) [
          | yes low_i ↦ first (omega arith) (omega arith) i low_i
          | no above ↦ none_behind i (omega (arith, room))
        ]
      ]

  farther :
      (k q n : ℕ)
      → k ≤ length v.above
      → Unset n (q * span k)
      → is_set (masked k q) ≡ false
      → Unset n ((q + 63) / 64 * span (suc k))
  farther k q n l unset empty i low high = elim (dec_lt i (q * span k)) [
    | yes below ↦ unset i low below
    | no above ↦ skipped k q l empty i (omega arith) high
  ]

  aligned :
      (k q : ℕ)
      → k ≤ length v.above
      → q * span k < s.nr_bits
      → align_up (q * span k) (span (suc k)) ≡ some ((q + 63) / 64 * span (suc k))
  aligned k q l h =
      let low : suc k * 6 ≤ 42 = omega (arith, height) in
      let bound : span (suc k) ≤ 2 ^ 42 = pow-le-pow_right (omega arith) low in
      align_up-pow (suc k * 6) (64 - suc k * 6) (q * span k) (omega arith)
        (omega (arith, bound, v.small)) (pow_pos (suc k * 6))
      ∙ ap some (up_at k q)

  unfoldable pub Climbs : ℕ → ℕ → ℕ → ℕ → Type 0
  Climbs n left k m =
      (r : Option (ℕ × ℕ)) × (climb (v.level ∷ v.above) s.nr_bits left k m ≡ some r) × Climbed n r

  pub climb-Climbed :
      (left k q n : ℕ)
      → k + left ≡ suc (length v.above)
      → n ≤ q * span k
      → Unset n (q * span k)
      → First k q
      → Climbs n left k (q * span k)
  unfolding Climbs climb
  climb-Climbed zero k q n e low unset first =
      (none, refl, no_member (top k q n (omega arith) low unset first))
  climb-Climbed (suc left) k q n e low unset first =
      let m = q * span k in
      let next : k + 1 ≡ suc k = omega arith in
      elim (Bool-cases (leb s.nr_bits m)) [
        | inl over ↦ (none, rw over refl, no_member (behind n m (ground (arith, over)) unset))
        | inr under ↦
            let l : k ≤ length v.above = omega arith in
            let here : m < s.nr_bits = ground (arith, under) in
            elim (Bool-cases (is_set (masked k q))) [
              | inl set ↦ (
                some (k, m),
                rw (under, masked_word-at k q l here, set) refl,
                stopped k q m refl l here low unset set,
              )
              | inr unset_word ↦
                  let rounded : q ≤ (q + 63) / 64 * 64 = omega arith in
                  let up : m ≤ (q + 63) / 64 * span (suc k) = omega (
                    arith,
                    mul-le-mul_right (span k) rounded,
                    ap (λ (t : ℕ). (q + 63) / 64 * t) (span-suc k),
                  ) in
                  let (r, run, climbed) =
                    climb-Climbed left (suc k) ((q + 63) / 64) n (omega arith) (omega arith)
                      (farther k q n l unset unset_word) (First-suc k q l unset_word) in
                  (
                    r,
                    rw (under, masked_word-at k q l here, unset_word, next, aligned k q l here) run,
                    climbed,
                  )
            ]
      ]
