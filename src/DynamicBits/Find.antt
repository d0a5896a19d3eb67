-- ===== src/DynamicBits/Find.antt =====
-- The searches of example-dynamic-bits/dynamic_bits.cc that go down through the levels, for any order
-- of the bits and any bit of a word that comes first in that order.
use c_plus_plus_examples.Base.{
  ℕ, ◌+◌, ◌*◌, ◌/◌, ◌%◌, ◌<◌, ◌≡◌, ◌≢◌, ◌⊎◌, inl, inr, refl, sym, ap, ◌∙◌, true, false, Option,
  none, some, List, [], ◌∷◌, length, get_or, set, if◌then◌else◌, arith, All, Bool-cases, dec_lt,
  ℕ_discrete,
}
use c_plus_plus_examples.DynamicBits.{Word, Level, is_set, descend}
use c_plus_plus_examples.DynamicBits.Levels.{
  word, bit, Linked, get_elem?-word, length-word, word_beyond, zero_bits,
}

-- The bit that comes first in the order `Earlier`, or that there is none.
abbrev pub Found : (ℕ → ℕ → Type 0) → Level → Option ℕ → Type 0
Found Earlier level (some p) = (bit level p ≡ true) × ((j : ℕ) → Earlier j p → bit level j ≡ false)
Found Earlier level none = (j : ℕ) → bit level j ≡ false

-- An order that compares the words first, and the bit that it wants of a word.
pub record Picks (Earlier : ℕ → ℕ → Type 0) (pick : Word → ℕ) : Type 0 where
  pub irreflexive : (i j : ℕ) → Earlier i j → i ≢ j
  pub by_words :
      (j p k : ℕ)
      → k < 64
      → Earlier j (p * 64 + k)
      → Earlier (j / 64) p ⊎ ((j / 64 ≡ p) × Earlier (j % 64) k)
  pub within : (v : Word) → length v ≡ 64 → is_set v ≡ true → pick v < 64
  pub picked : (v : Word) → length v ≡ 64 → is_set v ≡ true → get_or v (pick v) false ≡ true
  pub earlier :
      (v : Word) (j : ℕ)
      → length v ≡ 64
      → is_set v ≡ true
      → Earlier j (pick v)
      → get_or v j false ≡ false

zero_word : (level : Level) (j : ℕ) → is_set (word level (j / 64)) ≡ false → bit level j ≡ false
unfolding bit
zero_word level j h = zero_bits (word level (j / 64)) (j % 64) h

pub in_level : (level : Level) (i : ℕ) → is_set (word level i) ≡ true → i < length level
unfolding is_set
in_level level i h = elim (dec_lt i (length level)) [
  | yes l ↦ l
  | no n ↦ absurd (ground (arith, h, ap is_set (word_beyond level i (omega arith))))
]

module _ (Earlier : ℕ → ℕ → Type 0) (pick : Word → ℕ) (picks : Picks Earlier pick) where
  -- The first word that is not zero holds the first bit.
  in_word :
      (level : Level) (p : ℕ)
      → All (λ v. length v ≡ 64) level
      → is_set (word level p) ≡ true
      → ((i : ℕ) → Earlier i p → is_set (word level i) ≡ false)
      → Found Earlier level (some (p * 64 + pick (word level p)))
  unfolding bit
  in_word level p w set before =
      let k = pick (word level p) in
      let sized = length-word level p w (in_level level p set) in
      let fits : k < 64 = picks.within (word level p) sized set in
      let hi : (p * 64 + k) / 64 ≡ p = omega arith in
      let lo : (p * 64 + k) % 64 ≡ k = omega arith in
      (
        rw (bit, hi, lo) (picks.picked (word level p) sized set),
        λ j e. elim (picks.by_words j p k fits e) [
          | inl above ↦ zero_word level j (before (j / 64) above)
          | inr (same, below) ↦
              rw (bit, same) (picks.earlier (word level p) (j % 64) sized set below)
        ],
      )

  -- The round on a level, when the levels above have found word `p`, or none.
  descend_round :
      (level : Level) (above : List Level) (p : ℕ)
      → p < length level
      → descend pick above ≡ some (some p)
      → descend pick (level ∷ above)
        ≡ some (if is_set (word level p) then some (p * 64 + pick (word level p)) else none)
  unfolding descend
  descend_round level above p room run = rw (run, get_elem?-word level p room) refl

  descend_stops :
      (level : Level) (above : List Level)
      → descend pick above ≡ some none
      → descend pick (level ∷ above) ≡ some none
  unfolding descend
  descend_stops level above run = rw run refl

  -- What a call of the loop gives.
  unfoldable pub Finds : List Level → Level → Type 0
  Finds levels level = (r : Option ℕ) × (descend pick levels ≡ some r) × Found Earlier level r

  -- The one word of the last level.
  in_last : (level : Level) → Linked level [] → Finds (level ∷ []) level
  unfolding Finds descend is_set
  in_last level h =
      let run = descend_round level [] 0 (omega (arith, h.0)) refl in
      let beyond : (i : ℕ) → i ≢ 0 → is_set (word level i) ≡ false =
        λ i some_i. rw (word_beyond level i (omega (arith, h.0, some_i))) refl in
      elim (Bool-cases (is_set (word level 0))) [
        | inl set ↦ (
          some (0 * 64 + pick (word level 0)),
          run ∙ rw set refl,
          in_word level 0 h.1 set (λ i e. beyond i (picks.irreflexive i 0 e)),
        )
        | inr unset ↦ (
          none,
          run ∙ rw unset refl,
          λ j.
              zero_word level j
                (elim (ℕ_discrete (j / 64) 0) [ yes e ↦ rw e unset | no n ↦ beyond (j / 64) n ]),
        )
      ]

  below :
      (level up : Level) (above : List Level) (r : Option ℕ)
      → Linked level (up ∷ above)
      → descend pick (up ∷ above) ≡ some r
      → Found Earlier up r
      → Finds (level ∷ up ∷ above) level
  unfolding Finds
  below level up above none h run found = (
    none,
    descend_stops level (up ∷ above) run,
    λ j. zero_word level j (sym (h.2 (j / 64)) ∙ found (j / 64)),
  )
  below level up above (some p) h run found =
      let set : is_set (word level p) ≡ true = sym (h.2 p) ∙ found.0 in
      (
        some (p * 64 + pick (word level p)),
        descend_round level (up ∷ above) p (in_level level p set) run ∙ rw set refl,
        in_word level p h.1 set (λ i e. sym (h.2 i) ∙ found.1 i e),
      )

  -- The loop finds the first bit of the level of all bits, or that there is none.
  pub descend-Found :
      (level : Level) (above : List Level) → Linked level above → Finds (level ∷ above) level
  unfolding Finds
  descend-Found level [] h = in_last level h
  descend-Found level (up ∷ above) h =
      let (r, run, found) = descend-Found up above h.3 in below level up above r h run found
