-- ===== src/BlockList/Report.antt =====
-- What a call of `ReportFailed` of example-blocklist/block_list.cc does, on every path.
use c_plus_plus_examples.Base.{
  ℕ, zero, suc, ap, ◌||◌, ◌==◌, ltb, length, ◌+◌, ◌-◌, ◌^◌, ◌<◌, ◌≤◌, ◌≡◌, ◌≢◌, refl, arith, Bool,
  true, false, Option, none, some, List, [], ◌∷◌, ◌++◌, map, leb, ◌&&◌, if◌then◌else◌, ℕ_discrete,
  elem,
}
use c_plus_plus_examples.Base.Integers.{ℤ, pos, negsuc}
use mathlib.Core.Path.{subst}
use c_plus_plus_examples.Base.Map.{find}
use c_plus_plus_examples.BlockList.{
  num, connect_error, disk_error, type_ne, BlockType, BlockPolicy, BlockItem, BlockList,
  BlockType-discrete, convert_error, is_block, erase_before, ttl_at, record_failure, report_failed,
  get_block_list,
}
use c_plus_plus_examples.BlockList.Blocks.{
  failures, recent, enough, Recorded, record_failure-Recorded,
}

-- The type of an error: ERROR_CONNECT is -1, and ERROR_IO_ERROR is -2.
pub data Means : ℤ → BlockType → Type 0 where
  connect : Means (negsuc 0) connect_error
  io : Means (negsuc 1) disk_error

-- The failures that lie within the interval before the time `curr`; all of them without an interval.
unfoldable pub in_window : ℕ → ℕ → List ℕ → List ℕ
in_window interval curr [] = []
in_window interval curr (time ∷ times) =
    let rest = in_window interval curr times in
    if interval == 0 || leb curr (time + interval) then time ∷ rest else rest

-- Whether they are as many as the threshold says; without an interval any failure is enough.
unfoldable pub reaches : BlockPolicy → List ℕ → Bool
reaches policy times =
    policy.record_interval_ms == 0 || leb policy.block_threhold_cnt (length times)

-- A report either changes nothing, for an error of no type, a blocked disk or a type without a policy,
-- or is recorded by its type's policy.
pub data Reported (s : BlockList) (v : ℕ) (r : ℤ) (failed_at curr : ℕ) : BlockList → Type 0 where
  unknown : ((type : BlockType) → ¬ Means r type) → Reported s v r failed_at curr s
  blocked : is_block v s ≡ true → Reported s v r failed_at curr s
  no_policy :
      (type : BlockType)
      → Means r type
      → find BlockType-discrete type s.block_policy ≡ none
      → Reported s v r failed_at curr s
  recorded :
      (t : BlockList) (type : BlockType) (policy : BlockPolicy)
      → Means r type
      → is_block v s ≡ false
      → find BlockType-discrete type s.block_policy ≡ some policy
      → (let times =
            in_window policy.record_interval_ms curr (failures s v type ++ (failed_at ∷ [])) in
          Recorded s t v type times (reaches policy times))
      → Reported s v r failed_at curr t

-- The ways through the function, by its own tests.
data Goes (s : BlockList) (v : ℕ) (r : ℤ) (failed_at curr : ℕ) : BlockList → Type 0 where
  unknown : convert_error r ≡ num → Goes s v r failed_at curr s
  blocked : is_block v s ≡ true → Goes s v r failed_at curr s
  no_policy :
      convert_error r ≢ num
      → find BlockType-discrete (convert_error r) s.block_policy ≡ none
      → Goes s v r failed_at curr s
  recorded :
      (t : BlockList) (policy : BlockPolicy)
      → convert_error r ≢ num
      → is_block v s ≡ false
      → find BlockType-discrete (convert_error r) s.block_policy ≡ some policy
      → (let times = recent policy curr (failures s v (convert_error r) ++ (failed_at ∷ [])) in
          Recorded s t v (convert_error r) times (enough policy times))
      → Goes s v r failed_at curr t

report_failed-Goes :
    (s : BlockList) (v : ℕ) (r : ℤ) (failed_at curr blocked_at : ℕ)
    → Goes s v r failed_at curr (report_failed v r failed_at curr blocked_at s)
unfolding report_failed
report_failed-Goes s v r failed_at curr blocked_at =
    by_type (BlockType-discrete (convert_error r) num)
  where
    policies : Option BlockPolicy
    policies = find BlockType-discrete (convert_error r) s.block_policy

    record_by : Option BlockPolicy → BlockList
    record_by none = s
    record_by (some p) = record_failure v (convert_error r) p failed_at curr blocked_at s

    by_policy :
        convert_error r ≢ num
        → is_block v s ≡ false
        → (p : Option BlockPolicy) → policies ≡ p
        → Goes s v r failed_at curr (record_by p)
    by_policy h free none e = no_policy h e
    by_policy h free (some p) e =
        recorded _ p h free e
          (record_failure-Recorded s v (convert_error r) _ p failed_at curr blocked_at refl free)

    by_block :
        convert_error r ≢ num
        → (b : Bool) → is_block v s ≡ b
        → Goes s v r failed_at curr (if b then s else record_by policies)
    by_block h true e = blocked e
    by_block h false e = by_policy h e policies refl

    by_type :
        (d : Dec (convert_error r ≡ num))
        → Goes s v r failed_at curr
            (elim d [ yes _ ↦ s | no _ ↦ if is_block v s then s else record_by policies ])
    by_type (yes e) = unknown e
    by_type (no h) = by_block h (is_block v s) refl

known : (r : ℤ) → convert_error r ≢ num → Means r (convert_error r)
unfolding convert_error
known (pos n) h = absurd (h refl)
known (negsuc zero) h = connect
known (negsuc (suc zero)) h = io
known (negsuc (suc (suc n))) h = absurd (h refl)

not_known : (r : ℤ) (type : BlockType) → convert_error r ≡ num → ¬ Means r type
unfolding convert_error
not_known r type e connect = type_ne (omega arith) e
not_known r type e io = type_ne (omega arith) e

ttl_small :
    (curr interval : ℕ) → interval ≤ curr → curr < 2 ^ 64 → ttl_at curr interval ≡ curr - interval
unfolding ttl_at
ttl_small curr interval le small = omega arith

elem-erase_before :
    (ttl time : ℕ) (times : List ℕ)
    → elem time (erase_before ttl times) ≡ (elem time times && leb ttl time)
unfolding erase_before
elem-erase_before ttl time [] = refl
elem-erase_before ttl time (t ∷ times) = ground (arith, elem-erase_before ttl time times)

all_kept : (curr : ℕ) (times : List ℕ) → in_window 0 curr times ≡ times
unfolding in_window
all_kept curr [] = refl
all_kept curr (t ∷ times) = ap (λ l. t ∷ l) (all_kept curr times)

erase_before-in_window :
    (interval curr : ℕ) (times : List ℕ)
    → 0 < interval
    → interval ≤ curr
    → erase_before (curr - interval) times ≡ in_window interval curr times
unfolding erase_before in_window
erase_before-in_window interval curr [] wanted le = refl
erase_before-in_window interval curr (t ∷ times) wanted le =
    ground (arith, wanted, le, erase_before-in_window interval curr times wanted le)

recent-in_window :
    (policy : BlockPolicy) (curr : ℕ) (times : List ℕ)
    → policy.record_interval_ms ≤ curr
    → curr < 2 ^ 64
    → recent policy curr times ≡ in_window policy.record_interval_ms curr times
unfolding recent
recent-in_window policy curr times le small = elim (ℕ_discrete policy.record_interval_ms 0) [
  | yes none_set ↦ rw (none_set, all_kept curr times) refl
  | no set ↦
      let wanted : ltb 0 policy.record_interval_ms ≡ true = ground arith in
      rw (wanted, ttl_small curr policy.record_interval_ms le small)
        (erase_before-in_window policy.record_interval_ms curr times (omega arith) le)
]

enough-reaches :
    (policy : BlockPolicy) (times : List ℕ) → enough policy times ≡ reaches policy times
unfolding enough reaches
enough-reaches policy times = ground arith

-- A report of an error other than ERROR_CONNECT and ERROR_IO_ERROR, for a blocked disk or without a
-- policy changes nothing. Any other adds the failure, keeps those within the interval before the time of
-- the report, and blocks the disk when they reach the threshold, or when no interval is set, which clears
-- them; other disks and other types of error are left as they are. The clock has run as long as the
-- intervals of the policies, so that the time to compare with does not wrap around.
pub report_failed-Reported :
    (s : BlockList) (v : ℕ) (r : ℤ) (failed_at curr blocked_at : ℕ)
    → curr < 2 ^ 64
    → ((type : BlockType) (policy : BlockPolicy)
        → find BlockType-discrete type s.block_policy ≡ some policy
        → policy.record_interval_ms ≤ curr)
    → Reported s v r failed_at curr (report_failed v r failed_at curr blocked_at s)
report_failed-Reported s v r failed_at curr blocked_at small late =
    told (report_failed-Goes s v r failed_at curr blocked_at)
  where
    told : {t : BlockList} → Goes s v r failed_at curr t → Reported s v r failed_at curr t
    told (unknown e) = unknown (λ type. not_known r type e)
    told (blocked e) = blocked e
    told (no_policy h e) = no_policy (convert_error r) (known r h) e
    told (recorded t policy h free e done) =
        let added = failures s v (convert_error r) ++ (failed_at ∷ []) in
        let same = recent-in_window policy curr added (late (convert_error r) policy e) small in
        recorded t (convert_error r) policy (known r h) free e (
          subst (λ times. Recorded s t v (convert_error r) times (reaches policy times)) same
            (subst (Recorded s t v (convert_error r) (recent policy curr added))
              (enough-reaches policy (recent policy curr added)) done))

-- GetBlockList lists exactly the blocked disks.
get_block_list-elem : (s : BlockList) (v : ℕ) → elem v (get_block_list s) ≡ is_block v s
unfolding get_block_list is_block find
get_block_list-elem s v = listed s.block_items
  where
    listed :
        (items : List (ℕ × BlockItem))
        → elem v (map (λ block. block.0) items)
          ≡ (elim (find ℕ_discrete v items) [ none ↦ false | some _ ↦ true ])
    listed [] = refl
    listed ((w, item) ∷ items) = ground (arith, listed items)
