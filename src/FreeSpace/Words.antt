-- ===== src/FreeSpace/Words.antt =====
-- Words of 64 bits of example-bitset/main.cc: shifts, masks and the search in one word.
use c_plus_plus_examples.Base.{
  ℕ, zero, suc, ◌+◌, ◌≤◌, ◌<◌, ◌≡◌, refl, ◌∙◌, ap, Bool, true, false, Option, none, some, List, [],
  ◌∷◌, ◌++◌, length, take, drop, replicate, min, length-append, length-take, length-replicate,
  Bool-cases, inl, inr, arith,
}
use mathlib.Core.Option.{map}
use c_plus_plus_examples.FreeSpace.{test, shift_down, low_word, find_first_uint64}

test-replicate : (n j : ℕ) → test (replicate n false) j ≡ false
test-replicate zero j = refl
test-replicate (suc n) zero = refl
test-replicate (suc n) (suc j) = test-replicate n j

test-padded : (l : List Bool) (n j : ℕ) → test (l ++ replicate n false) j ≡ test l j
test-padded [] n j = test-replicate n j
test-padded (b ∷ l) n zero = refl
test-padded (b ∷ l) n (suc j) = test-padded l n j

test-drop : (n : ℕ) (l : List Bool) (j : ℕ) → test (drop n l) j ≡ test l (n + j)
test-drop zero l j = let at : j ≡ 0 + j = omega arith in ap (test l) at
test-drop (suc n) [] j = refl
test-drop (suc n) (b ∷ l) j =
    let at : suc (n + j) ≡ suc n + j = omega arith in test-drop n l j ∙ ap (test (b ∷ l)) at

test-take : (n : ℕ) (l : List Bool) (j : ℕ) → j < n → test (take n l) j ≡ test l j
test-take zero l j h = absurd (omega arith)
test-take (suc n) [] j h = refl
test-take (suc n) (b ∷ l) zero h = refl
test-take (suc n) (b ∷ l) (suc j) h = test-take n l j (omega arith)

pub test-shift_down : (n : ℕ) (l : List Bool) (j : ℕ) → test (shift_down n l) j ≡ test l (n + j)
unfolding shift_down
test-shift_down n l j = test-padded (drop n l) (min n (length l)) j ∙ test-drop n l j

pub test-low_word : (l : List Bool) (j : ℕ) → j < 64 → test (low_word l) j ≡ test l j
unfolding low_word
test-low_word l j h = test-take 64 (l ++ replicate 64 false) j h ∙ test-padded l 64 j

pub length-low_word : (l : List Bool) → length (low_word l) ≡ 64
unfolding low_word
length-low_word l = omega (
  arith,
  length-take 64 (l ++ replicate 64 false),
  length-append l (replicate 64 false),
  length-replicate 64 false,
)

-- The answer of a search in one word.
pub data Answer (wanted : Bool → Bool) (v : List Bool) : Option ℕ → Type 0 where
  hit :
      (p : ℕ)
      → p < length v
      → wanted (test v p) ≡ true
      → ((j : ℕ) → j < p → wanted (test v j) ≡ false)
      → Answer wanted v (some p)
  miss : ((j : ℕ) → j < length v → wanted (test v j) ≡ false) → Answer wanted v none

unwanted_below :
    (wanted : Bool → Bool) (v : List Bool) (b : Bool) (n : ℕ)
    → wanted b ≡ false
    → ((j : ℕ) → j < n → wanted (test v j) ≡ false)
    → (j : ℕ) → j < suc n
    → wanted (test (b ∷ v) j) ≡ false
unwanted_below wanted v b n unwanted below zero h = unwanted
unwanted_below wanted v b n unwanted below (suc j) h = below j (omega arith)

Answer-later :
    (wanted : Bool → Bool) (v : List Bool) (b : Bool) {o : Option ℕ}
    → wanted b ≡ false
    → Answer wanted v o
    → Answer wanted (b ∷ v) (map suc o)
Answer-later wanted v b unwanted (hit p small found least) =
    hit (suc p) (omega arith) found (unwanted_below wanted v b p unwanted least)
Answer-later wanted v b unwanted (miss below) =
    miss (unwanted_below wanted v b (length v) unwanted below)

pub find_first_uint64-Answer :
    (wanted : Bool → Bool) (v : List Bool) → Answer wanted v (find_first_uint64 wanted v)
unfolding find_first_uint64
find_first_uint64-Answer wanted [] = miss (λ j h. absurd (omega arith))
find_first_uint64-Answer wanted (b ∷ v) = elim (Bool-cases (wanted b)) [
  | inl yes_ ↦ rw yes_ (hit 0 (omega arith) yes_ (λ j h. absurd (omega arith)))
  | inr no_ ↦ rw no_ (Answer-later wanted v b no_ (find_first_uint64-Answer wanted v))
]

-- Nothing is set beyond the end.
pub test-ge : (l : List Bool) (i : ℕ) → length l ≤ i → test l i ≡ false
test-ge [] i h = refl
test-ge (b ∷ l) zero h = absurd (omega arith)
test-ge (b ∷ l) (suc i) h = test-ge l i (omega arith)
