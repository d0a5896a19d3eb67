-- ===== src/DynamicBits/Tower.antt =====
-- The levels of example-dynamic-bits/dynamic_bits.cc by their index: what a bit of the level `k` says of
-- the bits of the set.
use native.Mathlib.Nat.{div-div-eq-div-mul}
use c_plus_plus_examples.Base.{
  ℕ, zero, suc, ◌+◌, ◌*◌, ◌/◌, ◌%◌, ◌^◌, ◌≤◌, ◌<◌, ◌≡◌, sym, ap, ◌∙◌, true, false, List, [], ◌∷◌,
  length, get_or, All, arith, dec_lt,
}
use c_plus_plus_examples.Base.Masks.{pow_split}
use c_plus_plus_examples.DynamicBits.{Level, DynamicBits, is_set, count_trailing_zeros}
use c_plus_plus_examples.DynamicBits.Levels.{
  word, bit, Linked, Linked-All, IsValid, zero_bits, length-word,
}
use c_plus_plus_examples.DynamicBits.Find.{in_level}
use c_plus_plus_examples.DynamicBits.Pick.{count_trailing_zeros-lt, trailing_bit}

-- How many bits of the set a bit of level `k` stands for.
abbrev pub span : ℕ → ℕ
span k = 2 ^ (k * 6)

pub span-suc : (k : ℕ) → span (suc k) ≡ 64 * span k
span-suc k =
    let e : suc k * 6 ≡ k * 6 + 6 = omega arith in rw e (omega (arith, pow_split (k * 6) 6))

abbrev pub level_at : List Level → ℕ → Level
level_at bits k = get_or bits k []

Linked-step :
    (level : Level) (above : List Level) (k : ℕ)
    → Linked level above
    → k < length above
    → (i : ℕ)
    → bit (level_at (level ∷ above) (suc k)) i ≡ is_set (word (level_at (level ∷ above) k) i)
Linked-step level [] k h l i = absurd (omega arith)
Linked-step level (up ∷ above) zero h l i = h.2 i
Linked-step level (up ∷ above) (suc k) h l i = Linked-step up above k h.3 (omega arith) i

All-at :
    (level : Level) (above : List Level) (k : ℕ)
    → Linked level above
    → k ≤ length above
    → All (λ v. length v ≡ 64) (level_at (level ∷ above) k)
All-at level above zero h l = Linked-All level above h
All-at level [] (suc k) h l = absurd (omega arith)
All-at level (up ∷ above) (suc k) h l = All-at up above k h.3 (omega arith)

-- The bits of a level are enough for the set.
room_at :
    (level : Level) (above : List Level) (k : ℕ)
    → Linked level above
    → k ≤ length above
    → length level ≤ span k * length (level_at (level ∷ above) k)
room_at level above zero h l = omega arith
room_at level [] (suc k) h l = absurd (omega arith)
room_at level (up ∷ above) (suc k) h l =
    let rest = room_at up above k h.3 (omega arith) in
    omega (arith, h.0, ap (λ (t : ℕ). t * length (level_at (up ∷ above) k)) (span-suc k))

last_at :
    (level : Level) (above : List Level)
    → Linked level above
    → length (level_at (level ∷ above) (length above)) ≡ 1
last_at level [] h = h.0
last_at level (up ∷ above) h = last_at up above h.3

module _ (s : DynamicBits) (v : IsValid s) where
  abbrev pub at : ℕ → Level
  at k = level_at (v.level ∷ v.above) k

  pub at-All : (k : ℕ) → k ≤ length v.above → All (λ v. length v ≡ 64) (at k)
  at-All k l = All-at v.level v.above k v.linked l

  pub at_room : (k : ℕ) → k ≤ length v.above → s.nr_bits ≤ 64 * (span k * length (at k))
  at_room k l = omega (arith, v.covers, room_at v.level v.above k v.linked l)

  pub at_last : length (at (length v.above)) ≡ 1
  at_last = last_at v.level v.above v.linked

  pub above_set : (k i : ℕ) → k < length v.above → bit (at (suc k)) i ≡ is_set (word (at k) i)
  above_set k i l = Linked-step v.level v.above k v.linked l i

  -- A bit that is not set stands for bits of the set that are not.
  pub zero_below :
      (k m : ℕ) → k ≤ length v.above → bit (at k) (m / span k) ≡ false → bit v.level m ≡ false
  unfolding bit
  zero_below zero m l h = let e : m / span 0 ≡ m = omega arith in rw e at h
  zero_below (suc k) m l h =
      let e : m / span (suc k) ≡ m / span k / 64 =
        sym
          (div-div-eq-div-mul m (span k) 64 ∙ ap (λ (t : ℕ). m / t) (omega (arith, span-suc k))) in
      let empty : is_set (word (at k) (m / span k / 64)) ≡ false =
        rw (sym e) (sym (above_set k (m / span (suc k)) (omega arith)) ∙ h) in
      zero_below k m (omega arith)
        (zero_bits (word (at k) (m / span k / 64)) (m / span k % 64) empty)

  -- A bit that is set stands for some bit of the set.
  pub set_below : (k p : ℕ) → k ≤ length v.above → bit (at k) p ≡ true → p * span k < s.nr_bits
  unfolding bit
  set_below zero p l h = elim (dec_lt p s.nr_bits) [
    | yes r ↦ omega arith
    | no r ↦ absurd (ground (arith, v.unused p (omega arith), h))
  ]
  set_below (suc k) p l h =
      let set : is_set (word (at k) p) ≡ true = sym (above_set k p (omega arith)) ∙ h in
      let c = count_trailing_zeros (word (at k) p) in
      let sized = length-word (at k) p (at-All k (omega arith)) (in_level (at k) p set) in
      let fits : c < 64 = omega (arith, sized, count_trailing_zeros-lt (word (at k) p) set) in
      let hi : (p * 64 + c) / 64 ≡ p = omega arith in
      let lo : (p * 64 + c) % 64 ≡ c = omega arith in
      let here : bit (at k) (p * 64 + c) ≡ true =
        rw (bit, hi, lo) (trailing_bit (word (at k) p) set) in
      omega (arith, set_below k (p * 64 + c) (omega arith) here, ap (λ (t : ℕ). p * t) (span-suc k))
