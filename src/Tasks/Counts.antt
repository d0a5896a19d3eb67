-- ===== src/Tasks/Counts.antt =====
-- How many of the first numbers have a property.
use c_plus_plus_examples.Base.{
  ℕ, zero, suc, ◌+◌, ◌<◌, ◌≤◌, ◌≡◌, ◌≢◌, refl, Bool, true, false, arith, if◌then◌else◌, ℕ_discrete,
}

pub count : (ℕ → Bool) → ℕ → ℕ
count f zero = 0
count f (suc n) = (if f n then 1 else 0) + count f n

pub count_bound : (f : ℕ → Bool) (n : ℕ) → count f n ≤ n
unfolding count
count_bound f zero = omega arith
count_bound f (suc n) = ground (arith, count_bound f n)

pub count_same : (f g : ℕ → Bool) (n : ℕ) → ((j : ℕ) → f j ≡ g j) → count f n ≡ count g n
unfolding count
count_same f g zero same = refl
count_same f g (suc n) same = rw (same n, count_same f g n same) refl

-- The numbers below `n` do not include `i`.
count_below :
    (f g : ℕ → Bool) (i n : ℕ) → n ≤ i → ((j : ℕ) → i ≢ j → f j ≡ g j) → count f n ≡ count g n
unfolding count
count_below f g i zero out same = refl
count_below f g i (suc n) out same =
    rw (same n (omega arith), count_below f g i n (omega arith) same) refl

-- One more, where `f` and `g` differ at `i` only.
pub count_one :
    (f g : ℕ → Bool) (i n : ℕ)
    → i < n
    → ((j : ℕ) → i ≢ j → f j ≡ g j)
    → f i ≡ false
    → g i ≡ true
    → count g n ≡ count f n + 1
unfolding count
count_one f g i zero inside same off on = absurd (omega arith)
count_one f g i (suc n) inside same off on = elim (ℕ_discrete i n) [
  | yes e ↦ ground (arith, e, off, on, count_below f g i n (omega arith) same)
  | no ne ↦ ground (arith, same n ne, count_one f g i n (omega arith) same off on)
]

pub all-count : (f : ℕ → Bool) (n : ℕ) → ((j : ℕ) → j < n → f j ≡ true) → count f n ≡ n
unfolding count
all-count f zero all = refl
all-count f (suc n) all =
    rw (all n (omega arith), all-count f n (λ j h. all j (omega arith))) (omega arith)

pub none-count : (f : ℕ → Bool) (n : ℕ) → ((j : ℕ) → j < n → f j ≡ false) → count f n ≡ 0
unfolding count
none-count f zero all = refl
none-count f (suc n) all =
    rw (all n (omega arith), none-count f n (λ j h. all j (omega arith))) (omega arith)

pub count-all : (f : ℕ → Bool) (n : ℕ) → count f n ≡ n → (j : ℕ) → j < n → f j ≡ true
unfolding count
count-all f zero full j inside = absurd (omega arith)
count-all f (suc n) full j inside = elim (ℕ_discrete j n) [
  | yes e ↦ ground (arith, e, full, count_bound f n)
  | no ne ↦
      let part : count f n ≡ n = ground (arith, full, count_bound f n) in
      count-all f n part j (omega arith)
]
