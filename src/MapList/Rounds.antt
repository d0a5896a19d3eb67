-- ===== src/MapList/Rounds.antt =====
-- Calls of `Run` of example-tmp/tmp.cc, one after the other.
use native.Mathlib.Nat.{mod-add-mod, add-mod_right, mod-eq_of_lt}
use c_plus_plus_examples.Base.{
  ℕ, zero, suc, ◌+◌, ◌-◌, ◌*◌, ◌%◌, ◌^◌, ◌≤◌, ◌<◌, ◌≡◌, sym, ap, ◌∙◌, some, List, [], ◌++◌, length,
  get_or, arith, append_assoc, dec_lt,
}
use c_plus_plus_examples.MapList.{Item, bucket_at, runs}
use c_plus_plus_examples.MapList.Loop.{in_turn}
use c_plus_plus_examples.MapList.Round.{run-Shows}

in_turn_add :
    (buckets : List (List Item)) (curr m k : ℕ)
    → in_turn buckets curr (m + k) ≡ in_turn buckets curr m ++ in_turn buckets (curr + m) k
in_turn_add buckets curr zero k =
    ap (in_turn buckets curr) (omega arith) ∙ ap (λ c. in_turn buckets c k) (omega arith)
in_turn_add buckets curr (suc m) k =
    let next : suc m + k ≡ suc (m + k) = omega arith in
    let there : curr + 1 + m ≡ curr + suc m = omega arith in
    rw next (
      ap (◌++◌ (bucket_at buckets curr)) (in_turn_add buckets (curr + 1) m k)
      ∙ rw there (
          sym (
            append_assoc (bucket_at buckets curr) (in_turn buckets (curr + 1) m)
              (in_turn buckets (curr + suc m) k))))

runs-in_turn :
    (buckets : List (List Item)) (limit times curr : ℕ)
    → 0 < length buckets
    → curr + times * length buckets < 2 ^ 64
    → (m : ℕ) × (runs buckets limit times curr ≡ some (curr + m, in_turn buckets curr m))
      × (times ≤ m)
unfolding runs
runs-in_turn buckets limit zero curr some_bucket small =
    (0, ap (λ c. some (c, [])) (omega arith), omega arith)
runs-in_turn buckets limit (suc times) curr some_bucket small =
    let per : suc times * length buckets ≡ length buckets + times * length buckets = omega arith in
    let (s, w) = run-Shows buckets limit curr some_bucket (omega (arith, per)) in
    let (m, all, many) =
      runs-in_turn buckets limit times (curr + s.m) some_bucket (omega (arith, per, s.inside)) in
    (
      s.m + m,
      rw (s.returns, all, in_turn_add buckets curr s.m m)
          (ap (λ c. some (c, in_turn buckets curr s.m ++ in_turn buckets (curr + s.m) m))
            (omega arith)),
      omega (arith, w, many),
    )

-- Every place comes in its turn.
turn_of : (curr n i : ℕ) → i < n → (j : ℕ) × (j < n) × ((curr + j) % n ≡ i)
turn_of curr n i inside = elim (dec_lt i (curr % n)) [
  | yes passed ↦
      let sum : curr % n + (i + n - curr % n) ≡ i + n = omega arith in
      (
        i + n - curr % n,
        omega arith,
        sym (mod-add-mod curr n (i + n - curr % n))
            ∙ ap (λ (t : ℕ). t % n) sum
            ∙ add-mod_right i n
            ∙ mod-eq_of_lt inside,
      )
  | no ahead ↦
      let sum : curr % n + (i - curr % n) ≡ i = omega arith in
      (
        i - curr % n,
        omega arith,
        sym (mod-add-mod curr n (i - curr % n)) ∙ ap (λ (t : ℕ). t % n) sum ∙ mod-eq_of_lt inside,
      )
]

-- As many calls of Run as there are buckets, on a map that is not changed meanwhile, display every bucket
-- whole, whatever the limit and wherever the last call has stopped.
pub runs-show_all :
    (buckets : List (List Item)) (limit curr i : ℕ)
    → i < length buckets
    → curr + length buckets * length buckets < 2 ^ 64
    → (end : ℕ) × (before after : List Item) × (runs buckets limit (length buckets) curr
        ≡ some (end, before ++ (get_or buckets i [] ++ after)))
unfolding bucket_at
runs-show_all buckets limit curr i inside small =
    let n = length buckets in
    let (m, all, many) = runs-in_turn buckets limit n curr (omega arith) small in
    let (j, early, place) = turn_of curr n i inside in
    let split : j + suc (m - j - 1) ≡ m = omega arith in
    (
      curr + m,
      in_turn buckets curr j,
      in_turn buckets (curr + j + 1) (m - j - 1),
      all
          ∙ ap (λ l. some (curr + m, l))
              (ap (in_turn buckets curr) (sym split)
                ∙ in_turn_add buckets curr j (suc (m - j - 1))
                ∙ ap
                    (λ c.
                      in_turn buckets curr j
                      ++ (get_or buckets c [] ++ in_turn buckets (curr + j + 1) (m - j - 1)))
                    place),
    )
