-- ===== src/FreeSpace/Finders.antt =====
-- `FindFirstZero` and `FindFirstOne` of example-bitset/main.cc: the first bit of a kind.
use c_plus_plus_examples.Base.{
  ℕ, zero, suc, ◌+◌, ◌-◌, ◌≤◌, ◌<◌, ◌≡◌, Bool, true, false, not, List, length, Bool-cases, inl, inr,
  arith, dec_lt,
}
use c_plus_plus_examples.FreeSpace.{test, find_first, find_first_zero, find_first_one}

-- `i` is the first position from `from` on whose bit is wanted, or N.
pub record First (wanted : Bool → Bool) (space : List Bool) (from i : ℕ) : Type 0 where
  pub after : from ≤ i
  pub within : i ≤ length space
  pub found : i < length space → wanted (test space i) ≡ true
  pub least : (j : ℕ) → from ≤ j → j < i → wanted (test space j) ≡ false

find_first-First :
    (wanted : Bool → Bool) (space : List Bool) (fuel from : ℕ)
    → from + fuel ≡ length space
    → First wanted space from (find_first wanted space fuel from)
unfolding find_first
find_first-First wanted space zero from h = record {
  after = omega arith;
  within = omega arith;
  found = λ small. absurd (omega arith);
  least = λ j a b. absurd (omega arith);
}
find_first-First wanted space (suc fuel) from h = elim (Bool-cases (wanted (test space from))) [
  | inl hit ↦ rw hit (record {
    after = omega arith;
    within = omega arith;
    found = λ _. hit;
    least = λ j a b. absurd (omega arith);
  })
  | inr miss ↦
      let rest = find_first-First wanted space fuel (from + 1) (omega arith) in
      rw miss (record {
        after = omega (arith, rest.after);
        within = rest.within;
        found = rest.found;
        least = λ j a b. elim (dec_lt from j) [
          | yes later ↦ rest.least j (omega arith) b
          | no now ↦ let same : j ≡ from = omega arith in rw same miss
        ];
      })
]

pub find_first_zero-First :
    (space : List Bool) (from : ℕ)
    → from ≤ length space
    → First not space from (find_first_zero space from)
unfolding find_first_zero
find_first_zero-First space from h =
    find_first-First not space (length space - from) from (omega arith)

pub find_first_one-First :
    (space : List Bool) (from : ℕ)
    → from ≤ length space
    → First (λ b. b) space from (find_first_one space from)
unfolding find_first_one
find_first_one-First space from h =
    find_first-First (λ b. b) space (length space - from) from (omega arith)
