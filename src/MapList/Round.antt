-- ===== src/MapList/Round.antt =====
-- One call of `Run` of example-tmp/tmp.cc: the buckets in turn, from where the last call stopped.
use c_plus_plus_examples.Base.{
  ℕ, suc, ◌+◌, ◌^◌, ◌≤◌, ◌<◌, ◌≡◌, ◌⊎◌, inl, inr, refl, false, some, List, [], ◌∷◌, length,
  length-append, ◌==◌, arith, dec_lt,
}
use c_plus_plus_examples.MapList.{Item, bucket_at, round, run}
use c_plus_plus_examples.MapList.Loop.{
  in_turn, Shows, Bounded, display-Shows, end-Bounded, more-Bounded, more, later, round_displays,
  more_full,
}

module _ (buckets : List (List Item)) (limit curr : ℕ) where
  -- The bounds of a call: one bucket at least, and not more items than the limit, but for one bucket
  -- that is longer.
  abbrev pub Within : ℕ → Type 0
  Within m = (0 < m) × ((length (in_turn buckets curr m) ≤ limit) ⊎ (m ≡ 1))

  first_round :
      (fuel : ℕ)
      → suc fuel ≡ length buckets
      → curr + length buckets < 2 ^ 64
      → (s : Shows buckets limit curr curr 0 (round buckets limit curr (suc fuel) curr 0)) × Within
          s.m
  unfolding Bounded display-Shows end-Bounded
  first_round fuel e small =
      let len = 0 + length (bucket_at buckets curr) in
      rw (round_displays buckets limit curr fuel curr 0 (λ _. refl)) elim (dec_lt limit len) [
        | yes full ↦
            rw (more_full buckets limit curr fuel curr len small (omega arith) (omega arith)) (
              display-Shows buckets limit curr curr 0 (some (curr + 1, []))
                  (end-Bounded buckets limit curr (curr + 1) len (omega arith)
                    (inr (inr (omega arith)))).0,
              (omega arith, inr refl),
            )
        | no fits ↦
            let (s, bound) =
              more-Bounded buckets limit curr fuel curr len small (omega arith) (omega arith)
                (λ inside few.
                  later buckets limit curr fuel (curr + 1) len small (omega arith) inside
                    (omega arith) few) in
            (
              display-Shows buckets limit curr curr 0 (more buckets limit curr fuel curr len) s,
              (
                omega arith,
                inl (
                    omega (
                      arith,
                      bound,
                      length-append (bucket_at buckets curr) (in_turn buckets (curr + 1) s.m),
                    )),
              ),
            )
      ]

-- Run displays a number of whole buckets, each once, in turn from where the last call stopped. It stops behind
-- one bucket at least, when all were displayed, when the limit is reached, or before a bucket that would
-- go beyond it; only the first bucket may be longer than the limit.
pub run-Shows :
    (buckets : List (List Item)) (limit curr : ℕ)
    → 0 < length buckets
    → curr + length buckets < 2 ^ 64
    → (s : Shows buckets limit curr curr 0 (run buckets limit curr)) × Within buckets limit curr s.m
unfolding run
run-Shows [] limit curr some_bucket small = absurd (omega arith)
run-Shows (b ∷ bs) limit curr some_bucket small =
    let some_bucket : (suc (length bs) == 0) ≡ false = ground arith in
    rw some_bucket (first_round (b ∷ bs) limit curr (length bs) refl small)
