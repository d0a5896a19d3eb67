-- ===== src/DynamicBits/New.antt =====
-- The constructor of example-dynamic-bits/dynamic_bits.cc: the levels for a number of bits.
use native.Mathlib.Nat.{pow-suc, pow-le-pow_right}
use c_plus_plus_examples.Base.{
  ℕ, zero, suc, ◌+◌, ◌-◌, ◌*◌, ◌/◌, ◌%◌, ◌^◌, ◌≤◌, ◌<◌, ◌≡◌, refl, sym, ap, ◌∙◌, false, some, List,
  [], ◌∷◌, length, get_or, replicate, length-replicate, All, arith,
}
use c_plus_plus_examples.Base.Masks.{pow_split}
use c_plus_plus_examples.DynamicBits.{
  Level, DynamicBits, is_set, div_ceil, log2ceil, resize_levels, new_bits,
}
use c_plus_plus_examples.DynamicBits.Align.{mask_64, log2ceil-le, pow-log2ceil-lt}
use c_plus_plus_examples.DynamicBits.Levels.{word, bit, contains, Linked, IsValid}

-- The words of a new level.
fresh : ℕ → Level
fresh n = replicate n (replicate 64 false)

fresh-All : (n : ℕ) → All (λ v. length v ≡ 64) (fresh n)
unfolding fresh
fresh-All zero = tt
fresh-All (suc n) = (length-replicate 64 false, fresh-All n)

false-replicate : (n i : ℕ) → get_or (replicate n false) i false ≡ false
false-replicate zero i = refl
false-replicate (suc n) zero = refl
false-replicate (suc n) (suc i) = false-replicate n i

fresh-bit : (n i j : ℕ) → get_or (word (fresh n) i) j false ≡ false
unfolding fresh
fresh-bit zero i j = refl
fresh-bit (suc n) zero j = false-replicate 64 j
fresh-bit (suc n) (suc i) j = fresh-bit n i j

fresh-word : (n i : ℕ) → is_set (word (fresh n) i) ≡ false
unfolding fresh is_set
fresh-word zero i = refl
fresh-word (suc n) zero = refl
fresh-word (suc n) (suc i) = fresh-word n i

-- The words for `n` bits.
words : ℕ → ℕ
words n = (n + 63) / 64

fresh_links : (n m i : ℕ) → bit (fresh m) i ≡ is_set (word (fresh n) i)
unfolding bit
fresh_links n m i = fresh-bit m (i / 64) (i % 64) ∙ sym (fresh-word n i)

resize_round :
    (k n : ℕ) (rest : List Level)
    → n ≤ 2 ^ 38 - 64
    → resize_levels k (words n) ≡ some rest
    → resize_levels (suc k) n ≡ some (fresh (words n) ∷ rest)
unfolding resize_levels words fresh
resize_round k n rest small run =
    let whole : (n + 64 - 1) % 2 ^ 64 ≡ n + 63 = omega arith in
    let down : (n + 63) / 64 * 64 / 64 % 2 ^ 32 ≡ (n + 63) / 64 = omega arith in
    rw (resize_levels, whole, mask_64 6 58 (n + 63) refl (omega arith), down, run) refl

length-fresh : (n : ℕ) → length (fresh n) ≡ n
unfolding fresh
length-fresh n = length-replicate n (replicate 64 false)

-- With enough levels for the bits, the last is one word.
resize_levels-Linked :
    (k n : ℕ)
    → 0 < n
    → n ≤ 2 ^ 38 - 64
    → n ≤ 64 ^ suc k
    → (above : List Level) × (resize_levels (suc k) n ≡ some (fresh (words n) ∷ above))
      × Linked (fresh (words n)) above
      × (length above ≡ k)
unfolding resize_levels words
resize_levels-Linked zero n pos small enough = (
  [],
  resize_round 0 n [] small refl,
  (length-fresh (words n) ∙ omega arith, fresh-All (words n)),
  refl,
)
resize_levels-Linked (suc k) n pos small enough =
    let (above, run, linked, height) =
      resize_levels-Linked k (words n) (omega arith) (omega arith)
        (omega (arith, pow-suc 64 (suc k))) in
    (
      fresh (words (words n)) ∷ above,
      resize_round (suc k) n (fresh (words (words n)) ∷ above) small run,
      (
        omega (arith, length-fresh (words n), length-fresh (words (words n))),
        fresh-All (words n),
        fresh_links (words n) (words (words n)),
        linked,
      ),
      ap suc height,
    )

pow_64 : (k : ℕ) → 64 ^ k ≡ 2 ^ (6 * k)
pow_64 zero = refl
pow_64 (suc k) =
    let e : 6 * suc k ≡ 6 * k + 6 = omega arith in
    rw e (omega (arith, pow-suc 64 k, pow_64 k, pow_split (6 * k) 6))

has_logarithm : (x l : ℕ) → 1 < x → x ≤ 2 ^ l → 0 < l
has_logarithm x zero h le = absurd (omega arith)
has_logarithm x (suc l) h le = omega arith

few_levels : (k n : ℕ) → 0 < n → 64 ^ k < words n * 64 → 64 ^ k ≤ n
unfolding words
few_levels zero n pos h = omega arith
few_levels (suc k) n pos h = omega (arith, pow-suc 64 k)

-- The number of levels is enough, and one less is not.
levels_cover :
    (n : ℕ)
    → 0 < n
    → n ≤ 2 ^ 38 - 64
    → (k : ℕ) × (div_ceil (log2ceil (words n * 64)) 6 ≡ suc k) × (n ≤ 64 ^ suc k) × (64 ^ k ≤ n)
unfolding words div_ceil
levels_cover n pos small =
    let L = log2ceil (words n * 64) in
    let up = log2ceil-le (words n * 64) (omega arith) (omega arith) in
    let some_level = has_logarithm (words n * 64) L (omega arith) up in
    let k = (L + 5) / 6 - 1 in
    let fits : 2 ^ L ≤ 2 ^ (6 * suc k) = pow-le-pow_right (omega arith) (omega arith) in
    let least : 2 ^ (6 * k) ≤ 2 ^ (L - 1) = pow-le-pow_right (omega arith) (omega arith) in
    (
      k,
      omega arith,
      omega (arith, pow_64 (suc k)),
      few_levels k n pos (
          omega
            (arith, pow_64 k, least, pow-log2ceil-lt (words n * 64) (omega arith) (omega arith))),
    )

-- The constructor, for 1 to 2^38 - 64 bits, makes an empty set of that many bits, with its levels
-- linked.
pub new_bits-IsValid :
    (n : ℕ)
    → 0 < n
    → n ≤ 2 ^ 38 - 64
    → (s : DynamicBits) × (new_bits n ≡ some s)
      × IsValid s
      × (s.nr_bits ≡ n)
      × ((m : ℕ) → contains s m ≡ false)
unfolding new_bits contains bit words
new_bits-IsValid n pos small =
    let (k, levels, enough, few) = levels_cover n pos small in
    let (above, run, linked, height) = resize_levels-Linked k n pos small enough in
    let whole : (n + 64 - 1) % 2 ^ 64 ≡ n + 63 = omega arith in
    let e = mask_64 6 58 (n + 63) refl (omega arith) in
    (
      record { bits = fresh (words n) ∷ above; nr_bits = n },
      rw (new_bits, whole, e, levels, run) refl,
      record {
        level = fresh (words n);
        above = above;
        whole = refl;
        linked = linked;
        covers = omega (arith, length-fresh (words n));
        small = omega arith;
        few = rw height few;
        unused = λ m h. fresh-bit (words n) (m / 64) (m % 64);
      },
      refl,
      λ m. fresh-bit (words n) (m / 64) (m % 64),
    )
