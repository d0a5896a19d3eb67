-- ===== src/DynamicBits/Levels.antt =====
-- The levels of example-dynamic-bits/dynamic_bits.cc: what the bits of a level stand for.
use c_plus_plus_examples.Base.{
  ℕ, zero, suc, ◌*◌, ◌/◌, ◌%◌, ◌^◌, ◌≤◌, ◌<◌, ◌≡◌, ◌≢◌, refl, sym, ap, ◌∙◌, Bool, true, false, some,
  List, [], ◌∷◌, length, get_elem?, get_or, set, ◌==◌, if◌then◌else◌, arith, All, ℕ_discrete,
}
use c_plus_plus_examples.DynamicBits.{Word, Level, DynamicBits, is_set}

-- The word `i` of a level, and a bit, false past the end.
abbrev pub word : Level → ℕ → Word
word level i = get_or level i []

unfoldable pub bit : Level → ℕ → Bool
bit level n = get_or (word level (n / 64)) (n % 64) false

-- Whether the set holds `n`.
abbrev pub first_level : List Level → Level
first_level [] = []
first_level (level ∷ above) = level

unfoldable pub contains : DynamicBits → ℕ → Bool
unfolding bit
contains s n = bit (first_level s.bits) n

-- Each level is in whole words, each bit of the level above it stands for a word that is not zero,
-- and the last level is one word.
abbrev pub Linked : Level → List Level → Type 0
Linked level [] = (length level ≡ 1) × All (λ v. length v ≡ 64) level
Linked level (up ∷ above) =
    (length level ≤ 64 * length up)
    × All (λ v. length v ≡ 64) level
    × ((i : ℕ) → bit up i ≡ is_set (word level i))
    × Linked up above

pub Linked-All :
    (level : Level) (above : List Level) → Linked level above → All (λ v. length v ≡ 64) level
Linked-All level [] h = h.1
Linked-All level (up ∷ above) h = h.1

-- A set of `nr_bits_` bits, whose words have 32-bit indices.
pub record IsValid (s : DynamicBits) : Type 0 where
  pub level : Level
  pub above : List Level
  pub whole : s.bits ≡ level ∷ above
  pub linked : Linked level above
  pub covers : s.nr_bits ≤ 64 * length level
  pub small : s.nr_bits ≤ 2 ^ 38
  pub few : 64 ^ length above ≤ s.nr_bits
  pub unused : (n : ℕ) → s.nr_bits ≤ n → bit level n ≡ false

pub get_elem?-word :
    (level : Level) (i : ℕ) → i < length level → get_elem? level i ≡ some (word level i)
get_elem?-word [] i h = absurd (omega arith)
get_elem?-word (v ∷ level) zero h = refl
get_elem?-word (v ∷ level) (suc i) h = get_elem?-word level i (omega arith)

pub get_elem?-get_or : (v : Word) (i : ℕ) → i < length v → get_elem? v i ≡ some (get_or v i false)
get_elem?-get_or [] i h = absurd (omega arith)
get_elem?-get_or (b ∷ v) zero h = refl
get_elem?-get_or (b ∷ v) (suc i) h = get_elem?-get_or v i (omega arith)

pub word_beyond : (level : Level) (i : ℕ) → length level ≤ i → word level i ≡ []
word_beyond [] i h = refl
word_beyond (v ∷ level) zero h = absurd (omega arith)
word_beyond (v ∷ level) (suc i) h = word_beyond level i (omega arith)

pub length-word :
    (level : Level) (i : ℕ)
    → All (λ v. length v ≡ 64) level
    → i < length level
    → length (word level i) ≡ 64
length-word [] i w h = absurd (omega arith)
length-word (v ∷ level) zero w h = w.0
length-word (v ∷ level) (suc i) w h = length-word level i w.1 (omega arith)

pub word-set_self :
    (level : Level) (i : ℕ) (v : Word) → i < length level → word (set level i v) i ≡ v
word-set_self [] i v h = absurd (omega arith)
word-set_self (u ∷ level) zero v h = refl
word-set_self (u ∷ level) (suc i) v h = word-set_self level i v (omega arith)

pub word-set_ne :
    (level : Level) (i j : ℕ) (v : Word) → i ≢ j → word (set level i v) j ≡ word level j
word-set_ne [] i j v h = refl
word-set_ne (u ∷ level) zero zero v h = absurd (h refl)
word-set_ne (u ∷ level) zero (suc j) v h = refl
word-set_ne (u ∷ level) (suc i) zero v h = refl
word-set_ne (u ∷ level) (suc i) (suc j) v h = word-set_ne level i j v (λ e. h (ap suc e))

pub All-set :
    (level : Level) (i : ℕ) (v : Word)
    → All (λ v. length v ≡ 64) level
    → length v ≡ 64
    → All (λ v. length v ≡ 64) (set level i v)
All-set [] i v w h = tt
All-set (u ∷ level) zero v w h = (h, w.1)
All-set (u ∷ level) (suc i) v w h = (w.0, All-set level i v w.1 h)

pub bit_at-set :
    (v : Word) (i j : ℕ) (b : Bool)
    → i < length v
    → get_or (set v i b) j false ≡ (if i == j then b else get_or v j false)
bit_at-set [] i j b h = absurd (omega arith)
bit_at-set (c ∷ v) zero zero b h = ground arith
bit_at-set (c ∷ v) zero (suc j) b h = ground arith
bit_at-set (c ∷ v) (suc i) zero b h = ground arith
bit_at-set (c ∷ v) (suc i) (suc j) b h = ground (arith, bit_at-set v i j b)

pub is_set-bit : (v : Word) (i : ℕ) → get_or v i false ≡ true → is_set v ≡ true
unfolding is_set
is_set-bit [] i h = h
is_set-bit (b ∷ v) zero h = rw h refl
is_set-bit (b ∷ v) (suc i) h = ground (arith, is_set-bit v i h)

pub is_set-set-true : (v : Word) (i : ℕ) → i < length v → is_set (set v i true) ≡ true
is_set-set-true v i h = is_set-bit (set v i true) i (bit_at-set v i i true h ∙ ground arith)

pub zero_bits : (v : Word) (i : ℕ) → is_set v ≡ false → get_or v i false ≡ false
unfolding is_set
zero_bits [] i h = refl
zero_bits (b ∷ v) zero h = ground (arith, h)
zero_bits (b ∷ v) (suc i) h = zero_bits v i (ground (arith, h))

pub is_set-set-false : (v : Word) (i : ℕ) → is_set v ≡ false → is_set (set v i false) ≡ false
unfolding is_set
is_set-set-false [] i h = h
is_set-set-false (b ∷ v) zero h = ground (arith, h)
is_set-set-false (b ∷ v) (suc i) h = ground (arith, h, is_set-set-false v i)

-- A bit that is written, and the others.
pub bit-set :
    (level : Level) (n m : ℕ) (b : Bool)
    → All (λ v. length v ≡ 64) level
    → n / 64 < length level
    → bit (set level (n / 64) (set (word level (n / 64)) (n % 64) b)) m
      ≡ (if n == m then b else bit level m)
unfolding bit
bit-set level n m b w h = elim (ℕ_discrete (n / 64) (m / 64)) [
  | yes e ↦
      let fits : n % 64 < length (word level (n / 64)) =
        omega (arith, length-word level (n / 64) w h) in
      rw
        (
          bit,
          sym e,
          word-set_self level (n / 64) (set (word level (n / 64)) (n % 64) b) h,
          bit_at-set (word level (n / 64)) (n % 64) (m % 64) b fits,
        )
        (ground (arith, e))
  | no e ↦
      rw (word-set_ne level (n / 64) (m / 64) (set (word level (n / 64)) (n % 64) b) e)
        (ground (arith, e))
]
