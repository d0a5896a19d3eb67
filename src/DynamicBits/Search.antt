-- ===== src/DynamicBits/Search.antt =====
-- The first and the last bit of a set, by example-dynamic-bits/dynamic_bits.cc.
use c_plus_plus_examples.Base.{
  ℕ, ◌-◌, ◌<◌, ◌≡◌, refl, true, false, Option, none, some, arith, dec_lt,
}
use c_plus_plus_examples.Base.Chain.{◌>>=◌}
use c_plus_plus_examples.DynamicBits.{
  Word, DynamicBits, nopos, count_trailing_zeros, count_leading_zeros, descend, find_first_set,
  find_last_set,
}
use c_plus_plus_examples.DynamicBits.Levels.{contains, IsValid}
use c_plus_plus_examples.DynamicBits.Find.{Picks, Finds, Found, descend-Found}
use c_plus_plus_examples.DynamicBits.Pick.{lowest_first, highest_first}

-- The answer of a search: `npos` for an empty set, or the member that comes first.
pub data Answer (Earlier : ℕ → ℕ → Type 0) (s : DynamicBits) : ℕ → Type 0 where
  no_member : (r : ℕ) → r ≡ nopos → ((m : ℕ) → contains s m ≡ false) → Answer Earlier s r
  member :
      (r : ℕ)
      → r < s.nr_bits
      → contains s r ≡ true
      → ((m : ℕ) → Earlier m r → contains s m ≡ false)
      → Answer Earlier s r

-- A bit that is set lies among the bits of the set.
pub member_room : (s : DynamicBits) (n : ℕ) → IsValid s → contains s n ≡ true → n < s.nr_bits
unfolding contains
member_room s n v h = elim (dec_lt n s.nr_bits) [
  | yes l ↦ l
  | no k ↦ absurd (ground (arith, v.unused n (omega arith), rw v.whole at h))
]

position : Option ℕ → ℕ
position none = nopos
position (some p) = p

module _ (Earlier : ℕ → ℕ → Type 0) (s : DynamicBits) (v : IsValid s) where
  answer : (r : Option ℕ) → Found Earlier v.level r → Answer Earlier s (position r)
  unfolding position contains
  answer none found = no_member nopos refl (λ m. rw v.whole (found m))
  answer (some p) found =
      let here : contains s p ≡ true = rw (contains, v.whole) found.0 in
      member p (member_room s p v here) here (λ m e. rw (contains, v.whole) (found.1 m e))

  searched :
      (pick : Word → ℕ)
      → Picks Earlier pick
      → (r : ℕ) × ((descend pick s.bits >>= λ found.
            some (elim found [ none ↦ nopos | some pos ↦ pos ]))
          ≡ some r)
        × Answer Earlier s r
  unfolding Finds position
  searched pick picks =
      let (r, run, found) = descend-Found Earlier pick picks v.level v.above v.linked in
      (position r, rw (v.whole, run) (by_answer r), answer r found)
    where
      by_answer :
          (r : Option ℕ)
          → ◌≡◌ {A = Option ℕ} (some (elim r [ none ↦ nopos | some pos ↦ pos ])) (some (position r))
      by_answer none = refl
      by_answer (some p) = refl

-- find_first_set() answers with the least member of the set, or npos if it is empty.
pub find_first_set-Answer :
    (s : DynamicBits) → IsValid s → (r : ℕ) × (find_first_set s ≡ some r) × Answer ◌<◌ s r
unfolding find_first_set
find_first_set-Answer s v = searched ◌<◌ s v count_trailing_zeros lowest_first

-- find_last_set() answers with the greatest member of the set, or npos if it is empty.
find_last_set-Answer :
    (s : DynamicBits) → IsValid s → (r : ℕ) × (find_last_set s ≡ some r) × Answer (λ i j. j < i) s r
unfolding find_last_set
find_last_set-Answer s v =
    searched (λ i j. j < i) s v (λ w. 64 - 1 - count_leading_zeros w) highest_first
