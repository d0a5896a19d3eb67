-- ===== src/DynamicBits/Pick.antt =====
-- The first and the last bit of a word, as example-dynamic-bits/dynamic_bits.cc takes them by counting
-- zeros.
use c_plus_plus_examples.Base.{
  ℕ, zero, suc, ◌+◌, ◌-◌, ◌*◌, ◌/◌, ◌%◌, ◌<◌, ◌≡◌, ◌⊎◌, inl, inr, refl, true, false, [], ◌∷◌,
  length, get_or, arith, dec_lt, Bool-cases,
}
use c_plus_plus_examples.DynamicBits.{Word, is_set, count_trailing_zeros, count_leading_zeros}
use c_plus_plus_examples.DynamicBits.Levels.{zero_bits}
use c_plus_plus_examples.DynamicBits.Find.{Picks}

pub count_trailing_zeros-lt : (v : Word) → is_set v ≡ true → count_trailing_zeros v < length v
unfolding count_trailing_zeros is_set
count_trailing_zeros-lt [] h = cc
count_trailing_zeros-lt (b ∷ v) h = ground (arith, count_trailing_zeros-lt v)

pub trailing_bit : (v : Word) → is_set v ≡ true → get_or v (count_trailing_zeros v) false ≡ true
unfolding count_trailing_zeros is_set
trailing_bit [] h = cc
trailing_bit (true ∷ v) h = refl
trailing_bit (false ∷ v) h = trailing_bit v h

pub trailing_zeros : (v : Word) (j : ℕ) → j < count_trailing_zeros v → get_or v j false ≡ false
unfolding count_trailing_zeros
trailing_zeros [] j h = absurd (omega arith)
trailing_zeros (true ∷ v) j h = absurd (omega arith)
trailing_zeros (false ∷ v) zero h = refl
trailing_zeros (false ∷ v) (suc j) h = trailing_zeros v j (omega arith)

below_words : (j p k : ℕ) → k < 64 → j < p * 64 + k → (j / 64 < p) ⊎ ((j / 64 ≡ p) × (j % 64 < k))
below_words j p k fits h = elim (dec_lt (j / 64) p) [
  | yes l ↦ inl l
  | no n ↦ inr (omega arith, omega arith)
]

above_words : (j p k : ℕ) → k < 64 → p * 64 + k < j → (p < j / 64) ⊎ ((j / 64 ≡ p) × (k < j % 64))
above_words j p k fits h = elim (dec_lt p (j / 64)) [
  | yes l ↦ inl l
  | no n ↦ inr (omega arith, omega arith)
]

pub lowest_first : Picks ◌<◌ count_trailing_zeros
lowest_first = record {
  irreflexive = λ i j h e. omega arith;
  by_words = below_words;
  within = λ v sized set. omega (arith, count_trailing_zeros-lt v set);
  picked = λ v sized. trailing_bit v;
  earlier = λ v j sized set h. trailing_zeros v j h;
}

-- The last bit that is set is where the zeros above it begin.
leading_bit :
    (v : Word)
    → is_set v ≡ true
    → (p : ℕ) × (p + count_leading_zeros v + 1 ≡ length v)
      × (get_or v p false ≡ true)
      × ((j : ℕ) → p < j → get_or v j false ≡ false)
unfolding count_leading_zeros is_set
leading_bit [] h = cc
leading_bit (b ∷ v) h = elim (Bool-cases (is_set v)) [
  | inl set ↦
      let (p, e, one, zeros) = leading_bit v set in
      (suc p, rw set (omega (arith, e)), one, later p zeros)
  | inr unset ↦
      let one : b ≡ true = ground (arith, h, unset) in
      (0, rw (unset, one) (omega arith), one, alone unset)
]
  where
    later :
        (p : ℕ)
        → ((j : ℕ) → p < j → get_or v j false ≡ false)
        → (j : ℕ) → suc p < j
        → get_or (b ∷ v) j false ≡ false
    later p zeros zero l = absurd (omega arith)
    later p zeros (suc j) l = zeros j (omega arith)

    alone : is_set v ≡ false → (j : ℕ) → 0 < j → get_or (b ∷ v) j false ≡ false
    alone unset zero l = absurd (omega arith)
    alone unset (suc j) l = zero_bits v j unset

highest :
    (v : Word)
    → length v ≡ 64
    → is_set v ≡ true
    → (64 - 1 - count_leading_zeros v < 64)
      × ((j : ℕ) → 64 - 1 - count_leading_zeros v < j → get_or v j false ≡ false)
highest v sized set =
    let (p, e, one, zeros) = leading_bit v set in
    (omega arith, λ j l. zeros j (omega (arith, e, sized)))

highest_bit :
    (v : Word)
    → length v ≡ 64
    → is_set v ≡ true
    → get_or v (64 - 1 - count_leading_zeros v) false ≡ true
highest_bit v sized set =
    let (p, e, one, zeros) = leading_bit v set in
    let at : 64 - 1 - count_leading_zeros v ≡ p = omega (arith, e, sized) in rw at one

pub highest_first : Picks (λ i j. j < i) (λ v. 64 - 1 - count_leading_zeros v)
highest_first = record {
  irreflexive = λ i j h e. omega arith;
  by_words = above_words;
  within = λ v sized set. (highest v sized set).0;
  picked = highest_bit;
  earlier = λ v j sized set h. (highest v sized set).1 j h;
}
