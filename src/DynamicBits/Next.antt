-- ===== src/DynamicBits/Next.antt =====
-- `find_next_set` of example-dynamic-bits/dynamic_bits.cc: its loop down through the levels, and the
-- whole function.
use native.Mathlib.Nat.{pow-le-pow_right, mul-le-mul_right, le-div_iff_mul-le, div-lt_iff_lt-mul}
use mathlib.Core.Path.{subst}
use c_plus_plus_examples.Base.{
  ℕ, zero, suc, ◌+◌, ◌-◌, ◌*◌, ◌/◌, ◌%◌, ◌^◌, ◌≤◌, ◌<◌, ◌≡◌, refl, sym, ap, ◌∙◌, true, false,
  Option, none, some, List, [], ◌∷◌, length, get_or, arith, dec_lt,
}
use c_plus_plus_examples.Base.Chain.{◌>>=◌}
use c_plus_plus_examples.Base.Masks.{pow_pos}
use c_plus_plus_examples.DynamicBits.{
  Word, Level, DynamicBits, climb, mask_higher_bits, level_idx, nopos, is_set, count_trailing_zeros,
  align_down, go_down, next_down, shift_up, find_next_set,
}
use c_plus_plus_examples.DynamicBits.Align.{align_down-pow}
use c_plus_plus_examples.DynamicBits.Levels.{word, bit, contains, IsValid, length-word, is_set-bit}
use c_plus_plus_examples.DynamicBits.Find.{in_level}
use c_plus_plus_examples.DynamicBits.Pick.{trailing_bit, trailing_zeros}
use c_plus_plus_examples.DynamicBits.Search.{member_room}
use c_plus_plus_examples.DynamicBits.Tower.{
  span, span-suc, at, at-All, above_set, zero_below, set_below,
}
use c_plus_plus_examples.DynamicBits.Climb.{
  First-0, bit_at-mask, idx_at, height, masked, masked_word-at, Unset, Climbed, no_member, stopped,
  Climbs, climb-Climbed,
}

bit-lt-length : (w : Word) (i : ℕ) → get_or w i false ≡ true → i < length w
bit-lt-length [] i h = cc
bit-lt-length (b ∷ w) zero h = omega arith
bit-lt-length (b ∷ w) (suc i) h = omega (arith, bit-lt-length w i h)

module _ (s : DynamicBits) (v : IsValid s) where
  -- The bit of level `k` that a round down takes.
  chosen : ℕ → ℕ → ℕ
  chosen k q = q / 64 * 64 + count_trailing_zeros (masked s v k q)

  -- The bit lies in the word, and not before `q`.
  lowest :
      (k q : ℕ)
      → is_set (masked s v k q) ≡ true
      → let c = count_trailing_zeros (masked s v k q) in
        (get_or (word (at s v k) (q / 64)) c false ≡ true) × (q % 64 ≤ c)
  unfolding masked
  lowest k q set =
      let w = word (at s v k) (q / 64) in
      let c = count_trailing_zeros (masked s v k q) in
      let one : get_or (masked s v k q) c false ≡ true = trailing_bit (masked s v k q) set in
      (ground (arith, one, bit_at-mask (q % 64) w c), ground (arith, one, bit_at-mask (q % 64) w c))

  chosen-lt :
      (k q : ℕ)
      → k ≤ length v.above
      → is_set (masked s v k q) ≡ true
      → count_trailing_zeros (masked s v k q) < 64
  chosen-lt k q l set =
      let w = word (at s v k) (q / 64) in
      let c = count_trailing_zeros (masked s v k q) in
      let found = lowest k q set in
      let some_bit = is_set-bit w c found.0 in
      omega (
        arith,
        bit-lt-length w c found.0,
        length-word (at s v k) (q / 64) (at-All s v k l) (in_level (at s v k) (q / 64) some_bit),
      )

  chosen_set :
      (k q : ℕ)
      → k ≤ length v.above
      → is_set (masked s v k q) ≡ true
      → (bit (at s v k) (chosen k q) ≡ true) × (q ≤ chosen k q)
  unfolding chosen bit
  chosen_set k q l set =
      let c = count_trailing_zeros (masked s v k q) in
      let found = lowest k q set in
      let fits = chosen-lt k q l set in
      let hi : (q / 64 * 64 + c) / 64 ≡ q / 64 = omega arith in
      let lo : (q / 64 * 64 + c) % 64 ≡ c = omega arith in
      (rw (bit, chosen, hi, lo) found.0, omega (arith, found.1))

  -- What is passed over on the way to it holds no member.
  passed :
      (k q : ℕ)
      → k ≤ length v.above
      → is_set (masked s v k q) ≡ true
      → (i : ℕ) → q * span k ≤ i
      → i < chosen k q * span k
      → bit v.level i ≡ false
  unfolding chosen bit masked
  passed k q l set i from to =
      let pos = pow_pos (k * 6) in
      let j = i / span k in
      let fits = chosen-lt k q l set in
      let low : q ≤ j = (le-div_iff_mul-le pos).1 from in
      let high : j < chosen k q = (div-lt_iff_lt-mul pos).1 to in
      let same : j / 64 ≡ q / 64 = omega arith in
      zero_below s v k i l (
        rw (bit, same)
          (ground (
            arith,
            same,
            high,
            bit_at-mask (q % 64) (word (at s v k) (q / 64)) (j % 64),
            trailing_zeros (masked s v k q) (j % 64) (omega arith),
          )))

  down_at :
      (k q : ℕ)
      → k ≤ length v.above
      → q * span k < 2 ^ 64
      → align_down (q * span k) (2 ^ (6 * (k + 1))) ≡ some (q / 64 * 64 * span k)
  unfolding level_idx
  down_at k q l h =
      let flip : 6 * (k + 1) ≡ (k + 1) * 6 = omega arith in
      let next : k + 1 ≡ suc k = omega arith in
      rw flip (
        align_down-pow ((k + 1) * 6) (64 - (k + 1) * 6) (q * span k) (omega (arith, height s v)) h
        ∙ ap some (
            ap (λ (t : ℕ). t * 2 ^ ((k + 1) * 6)) (idx_at k q)
            ∙ rw next (omega (arith, ap (λ (t : ℕ). q / 64 * t) (span-suc k)))))

  shift_at :
      (k c : ℕ)
      → k ≤ length v.above
      → s.nr_bits ≤ 2 ^ 32
      → c * span k < 2 ^ 32
      → shift_up c k ≡ some (c * span k)
  unfolding shift_up
  shift_at k c l small h =
      let low : k ≤ 5 = elim (dec_lt 5 (length v.above)) [
        | yes tall ↦
            absurd (omega (arith, v.few, small, pow-le-pow_right {n = 64} (omega arith) tall))
        | no short ↦ omega arith
      ] in
      ground (arith, h, low)

  go_down-chosen :
      (k q : ℕ)
      → k ≤ length v.above
      → s.nr_bits ≤ 2 ^ 32
      → q * span k < s.nr_bits
      → is_set (masked s v k q) ≡ true
      → go_down (v.level ∷ v.above) k (q * span k) ≡ some (chosen k q * span k)
  unfolding go_down chosen
  go_down-chosen k q l small h set =
      let found = chosen_set k q l set in
      let below = set_below s v k (chosen k q) l found.0 in
      rw
        (
          masked_word-at s v k q l h,
          down_at k q l (omega arith),
          shift_at k (count_trailing_zeros (masked s v k q)) l small (
              omega (
                arith,
                below,
                small,
                mul-le-mul_right {m = count_trailing_zeros (masked s v k q)} {n = chosen k q}
                    (span k) (omega arith),
              )),
        )
        (ap some (omega (arith, below)))

  -- The next member behind `n`.
  Reached : ℕ → Option ℕ → Type 0
  Reached n result = (r : ℕ) × (result ≡ some r) × (n ≤ r) × (bit v.level r ≡ true) × Unset s v n r

  past :
      (k q n : ℕ)
      → k ≤ length v.above
      → is_set (masked s v k q) ≡ true
      → Unset s v n (q * span k)
      → Unset s v n (chosen k q * span k)
  past k q n l set unset i low high = elim (dec_lt i (q * span k)) [
    | yes below ↦ unset i low below
    | no above ↦ passed k q l set i (omega arith) high
  ]

  -- The loop down, from a word with a member not before `q`.
  next_down-Reached :
      (k q n : ℕ)
      → k ≤ length v.above
      → s.nr_bits ≤ 2 ^ 32
      → q * span k < s.nr_bits
      → n ≤ q * span k
      → Unset s v n (q * span k)
      → is_set (masked s v k q) ≡ true
      → Reached n (next_down (v.level ∷ v.above) k (q * span k))
  unfolding Reached next_down masked mask_higher_bits
  next_down-Reached zero q n l small h low unset set =
      let found = chosen_set zero q l set in
      let one : chosen zero q * span zero ≡ chosen zero q = omega arith in
      (
        chosen zero q,
        go_down-chosen zero q l small h set ∙ ap some one,
        omega (arith, found.1),
        found.0,
        (λ i a b. past zero q n l set unset i a (omega (arith, b))),
      )
  next_down-Reached (suc k) q n l small h low unset set =
      let p = chosen (suc k) q in
      let found = chosen_set (suc k) q l set in
      let here : p * 64 * span k ≡ p * span (suc k) =
        omega (arith, ap (λ (t : ℕ). p * t) (span-suc k)) in
      let word_at : p * 64 / 64 ≡ p = omega arith in
      let whole : p * 64 % 64 ≡ 0 = omega arith in
      let full : is_set (masked s v k (p * 64)) ≡ true =
        rw (masked, word_at, whole) (sym (above_set s v k p (omega arith)) ∙ found.0) in
      let mono = mul-le-mul_right {m = q} {n = p} (span (suc k)) found.1 in
      let (r, run, low', one, clear) =
        next_down-Reached k (p * 64) n (omega arith) small
          (omega (arith, here, set_below s v (suc k) p l found.0)) (omega (arith, here, mono, low))
          (λ i a b. past (suc k) q n l set unset i a (omega (arith, here, b))) full in
      (r, rw (go_down-chosen (suc k) q l small h set, sym here) run, low', one, clear)

-- The two loops, one behind the other.
both_loops :
    (bits tower : List Level) (nr m m' : ℕ) (found : Option (ℕ × ℕ)) (r : ℕ)
    → bits ≡ tower
    → m ≡ m'
    → climb tower nr (length tower) 0 m' ≡ some found
    → (elim found [ none ↦ some nopos | some (level, n') ↦ next_down tower level n' ]) ≡ some r
    → (climb bits nr (length bits) 0 m >>= λ found. elim found [
      | none ↦ some nopos
      | some (level, n') ↦ next_down bits level n'
    ])
      ≡ some r
both_loops bits tower nr m m' found r e start run ends =
    subst
      (λ (l : List Level).
        (climb l nr (length l) 0 m >>= λ found. elim found [
          | none ↦ some nopos
          | some (level, n') ↦ next_down l level n'
        ])
        ≡ some r)
      (sym e) (rw (start, run) ends)

-- The answer of a search from `n` on.
pub data NextAnswer (s : DynamicBits) (n : ℕ) : ℕ → Type 0 where
  no_next : (r : ℕ) → r ≡ nopos → ((m : ℕ) → n ≤ m → contains s m ≡ false) → NextAnswer s n r
  next :
      (r : ℕ)
      → n ≤ r
      → r < s.nr_bits
      → contains s r ≡ true
      → ((m : ℕ) → n ≤ m → m < r → contains s m ≡ false)
      → NextAnswer s n r

-- find_next_set(n), for a set of at most 2^32 bits and any 64-bit `n`, answers with the least member at or
-- above n + 1 modulo 2^64, or npos if there is none. That is the least member above `n`, and the least of
-- all for the largest `n`, where n + 1 wraps around. The levels, their reads and the shifts stay in range.
pub find_next_set-NextAnswer :
    (s : DynamicBits) (n : ℕ)
    → IsValid s
    → s.nr_bits ≤ 2 ^ 32
    → n < 2 ^ 64
    → (r : ℕ) × (find_next_set s n ≡ some r) × NextAnswer s ((n + 1) % 2 ^ 64) r
unfolding find_next_set Climbs contains Reached
find_next_set-NextAnswer s n v small fits =
    let from = (n + 1) % 2 ^ 64 in
    let start : from ≡ from * span 0 = omega arith in
    let (found, run, climbed) =
      climb-Climbed s v (suc (length v.above)) 0 from from (omega arith) (omega arith)
        (λ i a b. absurd (omega arith)) (First-0 s v from) in
    let (r, ends, answer) = finish from climbed in
    (
      r,
      both_loops s.bits (v.level ∷ v.above) s.nr_bits from (from * span 0) found r v.whole start run
          ends,
      answer,
    )
  where
    finish :
        (from : ℕ) {found : Option (ℕ × ℕ)}
        → Climbed s v from found
        → (r : ℕ) × ((elim found [
          | none ↦ some nopos
          | some (level, n') ↦ next_down (v.level ∷ v.above) level n'
        ])
            ≡ some r)
          × NextAnswer s from r
    finish from (no_member none_left) =
        (nopos, refl, no_next nopos refl (λ m h. rw v.whole (none_left m h)))
    finish from (stopped k q m e l h low unset set) =
        let (r, run, above, one, clear) = next_down-Reached s v k q from l small h low unset set in
        let here : contains s r ≡ true = rw (v.whole) one in
        (
          r,
          rw e run,
          next r above (member_room s r v here) here (λ m a b. rw v.whole (clear m a b)),
        )
