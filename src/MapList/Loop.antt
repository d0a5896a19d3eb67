-- ===== src/MapList/Loop.antt =====
-- The loop of `Run` of example-tmp/tmp.cc, by rounds.
use c_plus_plus_examples.Base.{
  ℕ, zero, suc, ◌+◌, ◌-◌, ◌%◌, ◌^◌, ◌≤◌, ◌<◌, ◌≡◌, ◌⊎◌, inl, inr, refl, sym, ap, true, false, not,
  ◌&&◌, Option, none, some, List, [], ◌∷◌, ◌++◌, length, length-append, ltb, ◌==◌, if◌then◌else◌,
  arith, Bool-cases, dec_lt,
}
use c_plus_plus_examples.MapList.{Item, bucket_at, display, round}

-- `m` buckets in turn from `curr` on.
abbrev pub in_turn : List (List Item) → ℕ → ℕ → List Item
in_turn buckets curr zero = []
in_turn buckets curr (suc m) = bucket_at buckets curr ++ in_turn buckets (curr + 1) m

module _ (buckets : List (List Item)) (limit start : ℕ) where
  -- `m` buckets from `curr` on are displayed, all `length buckets` of a round or as many as `limit`
  -- allows, when `cnt` items were displayed before.
  pub record Shows (curr cnt : ℕ) (result : Option (ℕ × List Item)) : Type 0 where
    pub m : ℕ
    pub returns : result ≡ some (curr + m, in_turn buckets curr m)
    pub inside : curr + m ≤ start + length buckets
    pub stops :
        (curr + m ≡ start + length buckets)
        ⊎ (limit < cnt + length (in_turn buckets curr m) + length (bucket_at buckets (curr + m)))
        ⊎ (limit ≤ cnt + length (in_turn buckets curr m))

  unfoldable pub display-Shows :
      (curr cnt : ℕ) (more : Option (ℕ × List Item))
      → (s : Shows (curr + 1) (cnt + length (bucket_at buckets curr)) more)
      → Shows curr cnt (display (bucket_at buckets curr) more)
  unfolding display
  display-Shows curr cnt more s =
      let shift : curr + 1 + s.m ≡ curr + suc s.m = omega arith in
      let both = length-append (bucket_at buckets curr) (in_turn buckets (curr + 1) s.m) in
      let there = ap (λ t. length (bucket_at buckets t)) shift in
      record {
        m = suc s.m;
        returns = rw (s.returns, shift) refl;
        inside = omega (arith, s.inside);
        stops = elim s.stops [
          | inl end ↦ inl (omega arith)
          | inr why ↦ elim why [
            | inl full ↦ inr (inl (omega (arith, both, there)))
            | inr many ↦ inr (inr (omega (arith, both)))
          ]
        ];
      }

  -- What follows a bucket that is displayed.
  pub more : ℕ → ℕ → ℕ → Option (ℕ × List Item)
  more fuel curr cnt' =
      let next = (curr + 1) % 2 ^ 64 in
      if ltb ((next + 2 ^ 64 - start) % 2 ^ 64) (length buckets) && ltb cnt' limit
      then round buckets limit start fuel next cnt'
      else some (next, [])

  unfoldable pub Bounded : ℕ → ℕ → Option (ℕ × List Item) → Type 0
  Bounded curr cnt result =
      (s : Shows curr cnt result) × (cnt ≤ limit → cnt + length (in_turn buckets curr s.m) ≤ limit)

  -- The loop ends before the bucket at `curr`.
  unfoldable pub end-Bounded :
      (curr cnt : ℕ)
      → curr ≤ start + length buckets
      → (curr ≡ start + length buckets)
        ⊎ (limit < cnt + length (bucket_at buckets curr))
        ⊎ (limit ≤ cnt)
      → Bounded curr cnt (some (curr, []))
  unfolding Bounded
  end-Bounded curr cnt inside why =
      let none_more : curr + 0 ≡ curr = omega arith in
      (
        record {
          m = 0;
          returns = rw none_more refl;
          inside = omega arith;
          stops = elim why [
            | inl end ↦ inl (omega arith)
            | inr early ↦ elim early [
              | inl full ↦ inr (inl (rw none_more (omega arith)))
              | inr many ↦ inr (inr (omega arith))
            ]
          ];
        },
        (λ fits. omega arith),
      )

  pub more-Bounded :
      (fuel curr cnt' : ℕ)
      → start + length buckets < 2 ^ 64
      → start ≤ curr
      → curr < start + length buckets
      → (curr + 1 < start + length buckets
          → cnt' < limit
          → Bounded (curr + 1) cnt' (round buckets limit start fuel (curr + 1) cnt'))
      → Bounded (curr + 1) cnt' (more fuel curr cnt')
  unfolding Bounded more
  more-Bounded fuel curr cnt' small low high rest =
      let next : (curr + 1) % 2 ^ 64 ≡ curr + 1 = omega arith in
      let passed : (curr + 1 + 2 ^ 64 - start) % 2 ^ 64 ≡ curr + 1 - start = omega arith in
      rw (next, passed)
        elim (dec_lt (curr + 1) (start + length buckets)) [
          | yes inside ↦ elim (dec_lt cnt' limit) [
            | yes few ↦
                let test : (ltb (curr + 1 - start) (length buckets) && ltb cnt' limit) ≡ true =
                  ground arith in
                rw test (rest inside few)
            | no many ↦
                let test : (ltb (curr + 1 - start) (length buckets) && ltb cnt' limit) ≡ false =
                  ground arith in
                rw test (end-Bounded (curr + 1) cnt' (omega arith) (inr (inr (omega arith))))
          ]
          | no outside ↦
              let test : (ltb (curr + 1 - start) (length buckets) && ltb cnt' limit) ≡ false =
                ground arith in
              rw test (end-Bounded (curr + 1) cnt' (omega arith) (inl (omega arith)))
        ]

  pub more_full :
      (fuel curr cnt' : ℕ)
      → start + length buckets < 2 ^ 64
      → curr < start + length buckets
      → limit ≤ cnt'
      → more fuel curr cnt' ≡ some (curr + 1, [])
  unfolding more
  more_full fuel curr cnt' small high many =
      let next : (curr + 1) % 2 ^ 64 ≡ curr + 1 = omega arith in
      let test : (ltb ((curr + 1 + 2 ^ 64 - start) % 2 ^ 64) (length buckets) && ltb cnt' limit)
          ≡ false =
        ground arith in
      rw (next, test) refl

  display_empty :
      (bucket : List Item) (result : Option (ℕ × List Item))
      → length bucket ≡ 0
      → display bucket result ≡ result
  unfolding display
  display_empty [] none h = refl
  display_empty [] (some r) h = refl
  display_empty (x ∷ bucket) r h = absurd (omega arith)

  -- A round that does not stop before the bucket.
  pub round_displays :
      (fuel curr cnt : ℕ)
      → (limit < cnt + length (bucket_at buckets curr) → curr ≡ start)
      → round buckets limit start (suc fuel) curr cnt
        ≡ display (bucket_at buckets curr) (more fuel curr (cnt + length (bucket_at buckets curr)))
  unfolding round more
  round_displays fuel curr cnt first = elim (Bool-cases (length (bucket_at buckets curr) == 0)) [
    | inl empty ↦ rw empty (
        sym (
          display_empty (bucket_at buckets curr)
            (more fuel curr (cnt + length (bucket_at buckets curr))) (ground arith)))
    | inr full ↦
        let goes_on : (ltb limit (cnt + length (bucket_at buckets curr)) && not (curr == start))
            ≡ false =
          ground (arith, first) in
        rw (full, goes_on) refl
  ]

  round_stops :
      (fuel curr cnt : ℕ)
      → cnt ≤ limit
      → start < curr
      → limit < cnt + length (bucket_at buckets curr)
      → round buckets limit start (suc fuel) curr cnt ≡ some (curr, [])
  unfolding round
  round_stops fuel curr cnt few low full =
      let filled : (length (bucket_at buckets curr) == 0) ≡ false = ground arith in
      let stop : (ltb limit (cnt + length (bucket_at buckets curr)) && not (curr == start)) ≡ true =
        ground arith in
      rw (filled, stop) refl

  display-Bounded :
      (curr cnt : ℕ) (result : Option (ℕ × List Item))
      → cnt + length (bucket_at buckets curr) ≤ limit
      → Bounded (curr + 1) (cnt + length (bucket_at buckets curr)) result
      → Bounded curr cnt (display (bucket_at buckets curr) result)
  unfolding Bounded display-Shows
  display-Bounded curr cnt result fits (s, bound) = (
    display-Shows curr cnt result s,
    (λ few. omega (
      arith,
      bound fits,
      length-append (bucket_at buckets curr) (in_turn buckets (curr + 1) s.m),
    )),
  )

  -- The buckets that follow the first.
  pub later :
      (fuel curr cnt : ℕ)
      → start + length buckets < 2 ^ 64
      → start < curr
      → curr < start + length buckets
      → start + length buckets ≤ curr + fuel
      → cnt < limit
      → Bounded curr cnt (round buckets limit start fuel curr cnt)
  later zero curr cnt small low high enough few = absurd (omega arith)
  later (suc fuel) curr cnt small low high enough few =
      elim (dec_lt limit (cnt + length (bucket_at buckets curr))) [
        | yes full ↦
            rw (round_stops fuel curr cnt (omega arith) low full)
              (end-Bounded curr cnt (omega arith) (inr (inl full)))
        | no fits ↦
            let next =
              more-Bounded fuel curr (cnt + length (bucket_at buckets curr)) small (omega arith)
                high
                (λ inside few'.
                  later fuel (curr + 1) (cnt + length (bucket_at buckets curr)) small (omega arith)
                    inside (omega arith) few') in
            rw (round_displays fuel curr cnt (λ full. absurd (fits full))) (
              display-Bounded curr cnt (more fuel curr (cnt + length (bucket_at buckets curr)))
                (omega arith) next)
      ]
