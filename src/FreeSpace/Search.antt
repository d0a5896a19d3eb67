-- ===== src/FreeSpace/Search.antt =====
-- What the search of `MetaDataLayout` in example-bitset/main.cc finds.
use c_plus_plus_examples.Base.{
  ℕ, zero, suc, ◌+◌, ◌-◌, ◌≤◌, ◌<◌, ◌≡◌, Bool, true, false, not, List, [], ◌∷◌, length, ltb, leb,
  ◌==◌, Bool-cases, inl, inr, arith, dec_lt,
}
use c_plus_plus_examples.FreeSpace.{
  test, count, find_first_zero, find_first_one, search, find_with, find_continuous_free_space,
}
use c_plus_plus_examples.FreeSpace.Finders.{First, find_first_zero-First, find_first_one-First}

-- `cnt` free positions from `i` on.
pub record Free (space : List Bool) (cnt i : ℕ) : Type 0 where
  pub within : i + cnt ≤ length space
  pub free : (j : ℕ) → i ≤ j → j < i + cnt → test space j ≡ false

-- The first place where `cnt` positions are free, or N when there is none.
pub record FirstFree (space : List Bool) (cnt r : ℕ) : Type 0 where
  pub bound : r ≤ length space
  pub free : r < length space → Free space cnt r
  pub least : (i : ℕ) → i < r → ¬ Free space cnt i

-- No free run starts before a set bit that is inside it, nor where the search skips.
used-Free :
    (space : List Bool) (cnt i j : ℕ)
    → test space j ≡ true
    → i ≤ j
    → j < i + cnt
    → ¬ Free space cnt i
used-Free space cnt i j h a b f = ground (arith, f.free j a b)

module _ (space : List Bool) (cnt : ℕ) (some_wanted : 0 < cnt) (fits : cnt ≤ length space) where
  none_left :
      (curr : ℕ)
      → ((i : ℕ) → i < curr → ¬ Free space cnt i)
      → length space - cnt < curr
      → FirstFree space cnt (length space)
  none_left curr before far = record {
    bound = omega arith;
    free = λ small. absurd (omega arith);
    least = λ i small f. elim (dec_lt i curr) [
      | yes early ↦ before i early f
      | no late ↦ omega (arith, f.within)
    ];
  }

  -- No free run starts before the first zero.
  before_zero :
      (curr z : ℕ)
      → ((i : ℕ) → i < curr → ¬ Free space cnt i)
      → First not space curr z
      → (i : ℕ) → i < z
      → ¬ Free space cnt i
  before_zero curr z before zero_at i small f = elim (dec_lt i curr) [
    | yes early ↦ before i early f
    | no late ↦
        let used : not (test space i) ≡ false = zero_at.least i (omega arith) small in
        ground (arith, used, f.free i (omega arith) (omega arith))
  ]

  no_zero :
      (curr z : ℕ)
      → ((i : ℕ) → i < curr → ¬ Free space cnt i)
      → First not space curr z
      → z ≡ length space
      → FirstFree space cnt (length space)
  no_zero curr z before zero_at end = record {
    bound = omega arith;
    free = λ small. absurd (omega arith);
    least = λ i small. before_zero curr z before zero_at i (omega arith);
  }

  -- Nor up to the first one behind it, when the gap is too small.
  before_one :
      (curr z o : ℕ)
      → ((i : ℕ) → i < curr → ¬ Free space cnt i)
      → First not space curr z
      → First (λ b. b) space (z + 1) o
      → o < z + cnt
      → (i : ℕ) → i < o + 1
      → ¬ Free space cnt i
  before_one curr z o before zero_at one_at gap i small f = elim (dec_lt i z) [
    | yes early ↦ before_zero curr z before zero_at i early f
    | no late ↦ elim (dec_lt o (length space)) [
      | yes inside ↦ used-Free space cnt i o (one_at.found inside) (omega arith) (omega arith) f
      | no end ↦ omega (arith, f.within)
    ]
  ]

  long_gap :
      (curr z o : ℕ)
      → ((i : ℕ) → i < curr → ¬ Free space cnt i)
      → First not space curr z
      → First (λ b. b) space (z + 1) o
      → z < length space
      → z + cnt ≤ o
      → FirstFree space cnt z
  long_gap curr z o before zero_at one_at inside gap = record {
    bound = omega arith;
    free = λ _. record {
      within = omega (arith, one_at.within);
      free = λ j a b. elim (dec_lt z j) [
        | yes later ↦ one_at.least j (omega arith) (omega arith)
        | no here ↦ let same : j ≡ z = omega arith in rw same (ground (arith, zero_at.found inside))
      ];
    };
    least = before_zero curr z before zero_at;
  }

  search-FirstFree :
      (find_zero find_one : ℕ → ℕ)
      → ((from : ℕ) → from ≤ length space → First not space from (find_zero from))
      → ((from : ℕ) → from ≤ length space → First (λ b. b) space from (find_one from))
      → (fuel curr : ℕ) → length space < curr + fuel
      → ((i : ℕ) → i < curr → ¬ Free space cnt i)
      → FirstFree space cnt (search find_zero find_one (length space) cnt fuel curr)
  unfolding search
  search-FirstFree fz fo zeros ones zero curr enough before = none_left curr before (omega arith)
  search-FirstFree fz fo zeros ones (suc fuel) curr enough before =
      elim (Bool-cases (leb curr (length space - cnt))) [
        | inr far ↦ rw far (none_left curr before (ground arith))
        | inl near ↦
            let zero_at = zeros curr (ground arith) in
            elim (Bool-cases (fz curr == length space)) [
              | inl end ↦ rw (near, end) (no_zero curr (fz curr) before zero_at (ground arith))
              | inr inside ↦
                  let in_range : fz curr < length space = ground (arith, zero_at.within, inside) in
                  let one_at = ones (fz curr + 1) (omega arith) in
                  elim (Bool-cases (leb cnt (fo (fz curr + 1) - fz curr))) [
                    | inl long ↦
                        rw (near, inside, long)
                          (long_gap curr (fz curr) (fo (fz curr + 1)) before zero_at one_at in_range
                            (ground (arith, one_at.after, long)))
                    | inr short ↦
                        rw (near, inside, short)
                          (search-FirstFree fz fo zeros ones fuel (fo (fz curr + 1) + 1)
                            (omega (arith, one_at.after, zero_at.after))
                            (before_one curr (fz curr) (fo (fz curr + 1)) before zero_at one_at
                              (ground (arith, one_at.after, short))))
                  ]
            ]
      ]

-- A free run leaves no room for more used positions.
count-le : (space : List Bool) → count space ≤ length space
unfolding count
count-le [] = omega arith
count-le (true ∷ space) = omega (arith, count-le space)
count-le (false ∷ space) = omega (arith, count-le space)

count-Free : (space : List Bool) (cnt i : ℕ) → Free space cnt i → count space + cnt ≤ length space
unfolding count
count-Free space zero i f = omega (arith, count-le space)
count-Free [] (suc cnt) i f = absurd (omega (arith, f.within))
count-Free (b ∷ space) (suc cnt) (suc i) f =
    let rest = count-Free space (suc cnt) i (record {
      within = omega (arith, f.within);
      free = λ j x y. f.free (suc j) (omega arith) (omega arith);
    }) in
    ground (arith, rest)
count-Free (b ∷ space) (suc cnt) zero f =
    let unused : b ≡ false = f.free 0 (omega arith) (omega arith) in
    let rest = count-Free space cnt 0 (record {
      within = omega (arith, f.within);
      free = λ j x y. f.free (suc j) (omega arith) (omega arith);
    }) in
    rw unused (omega (arith, rest))

-- For any two searches that find the first zero and the first one.
pub find_with-FirstFree :
    (space : List Bool) (cnt : ℕ) (find_zero find_one : ℕ → ℕ)
    → 0 < cnt
    → ((from : ℕ) → from ≤ length space → First not space from (find_zero from))
    → ((from : ℕ) → from ≤ length space → First (λ b. b) space from (find_one from))
    → FirstFree space cnt (find_with find_zero find_one space cnt)
unfolding find_with
find_with-FirstFree space cnt fz fo some_wanted zeros ones = elim (Bool-cases (cnt == 0)) [
  | inl none_wanted ↦ absurd (ground arith)
  | inr wanted ↦ elim (Bool-cases (ltb (length space - count space) cnt)) [
    | inl full ↦
        rw (wanted, full)
          (record {
            bound = omega arith;
            free = λ small. absurd (omega arith);
            least = λ i small f. ground (arith, count-Free space cnt i f, full);
          })
    | inr room ↦
        rw (wanted, room)
          (search-FirstFree space cnt some_wanted (ground (arith, room)) fz fo zeros ones
            (length space + 1) 0 (omega arith) (λ i small. absurd (omega arith)))
  ]
]

-- The search returns the first position where `cnt` positions are free, and N exactly when there is
-- none, for a count above 0.
pub find_continuous_free_space-FirstFree :
    (space : List Bool) (cnt : ℕ)
    → 0 < cnt
    → FirstFree space cnt (find_continuous_free_space space cnt)
unfolding find_continuous_free_space
find_continuous_free_space-FirstFree space cnt some_wanted =
    find_with-FirstFree space cnt (find_first_zero space) (find_first_one space) some_wanted
      (find_first_zero-First space) (find_first_one-First space)
