-- ===== src/BlockList/Blocks.antt =====
-- What `ReportFailed` of example-blocklist/block_list.cc does to the blocked disks and to the failures
-- that are kept for each disk.
use c_plus_plus_examples.Base.{
  ℕ, ◌≡◌, ◌≢◌, refl, sym, ap, ◌∙◌, arith, Bool, true, false, not, none, some, List, [], ◌∷◌, ◌++◌,
  length, ltb, ◌==◌, ◌&&◌, if◌then◌else◌, ℕ_discrete,
}
use c_plus_plus_examples.Base.Map.{
  find, erase, assign, find-erase_self, find-erase_ne, find-emplace, find-assign_self,
  find-assign_ne,
}
use c_plus_plus_examples.BlockList.{
  BlockType, BlockPolicy, SuspectRecords, BlockItem, BlockList, BlockType-discrete, is_block,
  records_of, failures_of, erase_before, ttl_at, block, record_failure,
}

-- The failures of a disk with one type of error that are kept.
unfoldable pub failures : BlockList → ℕ → BlockType → List ℕ
failures s vdisk_id type = failures_of type (records_of vdisk_id s.suspect_items)

records_of-assign_self :
    (v : ℕ) (records : SuspectRecords) (items : List (ℕ × SuspectRecords))
    → records_of v (assign ℕ_discrete v records items) ≡ records
unfolding records_of
records_of-assign_self v records items =
    rw (records_of, find-assign_self ℕ_discrete v records items) refl

records_of-assign_ne :
    (v w : ℕ) (records : SuspectRecords) (items : List (ℕ × SuspectRecords))
    → v ≢ w
    → records_of w (assign ℕ_discrete v records items) ≡ records_of w items
unfolding records_of
records_of-assign_ne v w records items h =
    rw (records_of, find-assign_ne ℕ_discrete v w records items h) refl

failures_of-assign_self :
    (t : BlockType) (times : List ℕ) (records : SuspectRecords)
    → failures_of t (assign BlockType-discrete t times records) ≡ times
unfolding failures_of
failures_of-assign_self t times records =
    rw (failures_of, find-assign_self BlockType-discrete t times records) refl

failures_of-assign_ne :
    (t u : BlockType) (times : List ℕ) (records : SuspectRecords)
    → t ≢ u
    → failures_of u (assign BlockType-discrete t times records) ≡ failures_of u records
unfolding failures_of
failures_of-assign_ne t u times records h =
    rw (failures_of, find-assign_ne BlockType-discrete t u times records h) refl

failures_of-erase_self :
    (t : BlockType) (records : SuspectRecords)
    → failures_of t (erase BlockType-discrete t records) ≡ []
unfolding failures_of
failures_of-erase_self t records =
    rw (failures_of, find-erase_self BlockType-discrete t records) refl

failures_of-erase_ne :
    (t u : BlockType) (records : SuspectRecords)
    → t ≢ u
    → failures_of u (erase BlockType-discrete t records) ≡ failures_of u records
unfolding failures_of
failures_of-erase_ne t u records h =
    rw (failures_of, find-erase_ne BlockType-discrete t u records h) refl

-- A disk's records, put back unless they are empty.
settle : ℕ → SuspectRecords → List (ℕ × SuspectRecords) → List (ℕ × SuspectRecords)
settle v left items =
    if length left == 0 then erase ℕ_discrete v items else assign ℕ_discrete v left items

settle-cons :
    (v : ℕ) (x : BlockType × List ℕ) (left : SuspectRecords) (items : List (ℕ × SuspectRecords))
    → settle v (x ∷ left) items ≡ assign ℕ_discrete v (x ∷ left) items
unfolding settle
settle-cons v x left items = ground arith

failures_of-settle_self :
    (v : ℕ) (u : BlockType) (left : SuspectRecords) (items : List (ℕ × SuspectRecords))
    → failures_of u (records_of v (settle v left items)) ≡ failures_of u left
unfolding settle records_of failures_of
failures_of-settle_self v u [] items =
    rw (settle, records_of, find-erase_self ℕ_discrete v items) refl
failures_of-settle_self v u (x ∷ left) items =
    rw (settle-cons v x left items, records_of-assign_self v (x ∷ left) items) refl

records_of-settle_ne :
    (v w : ℕ) (left : SuspectRecords) (items : List (ℕ × SuspectRecords))
    → v ≢ w
    → records_of w (settle v left items) ≡ records_of w items
unfolding settle records_of
records_of-settle_ne v w [] items h =
    rw (settle, records_of, find-erase_ne ℕ_discrete v w items h) refl
records_of-settle_ne v w (x ∷ left) items h =
    rw (settle-cons v x left items) (records_of-assign_ne v w (x ∷ left) items h)

-- The failures that count, and whether they are enough.
unfoldable pub recent : BlockPolicy → ℕ → List ℕ → List ℕ
recent policy curr times =
    if ltb 0 policy.record_interval_ms
    then erase_before (ttl_at curr policy.record_interval_ms) times
    else times

unfoldable pub enough : BlockPolicy → List ℕ → Bool
enough policy times =
    not (ltb 0 policy.record_interval_ms && ltb (length times) policy.block_threhold_cnt)

-- What the report of a failure does: the disk is blocked when the failures are enough, and they are
-- kept otherwise; nothing else changes.
pub record Recorded (s t : BlockList) (v : ℕ) (type : BlockType) (times : List ℕ) (over : Bool)
    : Type 0 where
  pub blocked : is_block v t ≡ over
  pub kept : failures t v type ≡ (if over then [] else times)
  pub same_disk : (u : BlockType) → type ≢ u → failures t v u ≡ failures s v u
  pub others : (w : ℕ) → v ≢ w → is_block w t ≡ is_block w s
  pub other_failures : (w : ℕ) (u : BlockType) → v ≢ w → failures t w u ≡ failures s w u
  pub policy : t.block_policy ≡ s.block_policy

find_here : (v : ℕ) (item : BlockItem) → find ℕ_discrete v ((v, item) ∷ []) ≡ some item
unfolding find
find_here v item = ground arith

find_there : (v w : ℕ) (item : BlockItem) → v ≢ w → find ℕ_discrete w ((v, item) ∷ []) ≡ none
unfolding find
find_there v w item h = ground (arith, h)

module _ (s : BlockList) (v : ℕ) (type : BlockType) (times : List ℕ) where
  -- The state with the failures that count put in.
  noted : BlockList
  noted = record s {
    suspect_items =
        assign ℕ_discrete v (assign BlockType-discrete type times (records_of v s.suspect_items))
          s.suspect_items;
  }

  noted-Recorded : is_block v s ≡ false → Recorded s noted v type times false
  unfolding noted failures is_block
  noted-Recorded free =
      let records = records_of v s.suspect_items in
      let records' = assign BlockType-discrete type times records in
      record {
        blocked = free;
        kept =
            rw (records_of-assign_self v records' s.suspect_items)
              (failures_of-assign_self type times records);
        same_disk = λ u h.
            rw (records_of-assign_self v records' s.suspect_items)
              (failures_of-assign_ne type u times records h);
        others = λ w h. refl;
        other_failures = λ w u h. rw (records_of-assign_ne v w records' s.suspect_items h) refl;
        policy = refl;
      }

  block-Recorded :
      (time : ℕ)
      → is_block v s ≡ false
      → Recorded s
          (block v type time
            (assign BlockType-discrete type times (records_of v s.suspect_items))
            noted)
          v
          type
          times
          true
  unfolding noted failures is_block block settle
  block-Recorded time free =
      let item : BlockItem = record { type = type; block_timestamp = time } in
      let records = records_of v s.suspect_items in
      let records' = assign BlockType-discrete type times records in
      let left = erase BlockType-discrete type records' in
      let items = assign ℕ_discrete v records' s.suspect_items in
      record {
        blocked =
            rw (block, is_block, find-emplace ℕ_discrete v v item s.block_items)
              (ground (arith, find_here v item, free));
        kept = failures_of-settle_self v type left items ∙ failures_of-erase_self type records';
        same_disk = λ u h.
            failures_of-settle_self v u left items
            ∙ failures_of-erase_ne type u records' h
            ∙ failures_of-assign_ne type u times records h;
        others = λ w h.
            rw (block, is_block, find-emplace ℕ_discrete v w item s.block_items)
              (ground (arith, find_there v w item h));
        other_failures = λ w u h. ap (failures_of u) (
            records_of-settle_ne v w left items h
            ∙ records_of-assign_ne v w records' s.suspect_items h);
        policy = refl;
      }

  pub record_failure-Recorded :
      (policy : BlockPolicy) (failed_at curr blocked_at : ℕ)
      → times ≡ recent policy curr (failures s v type ++ (failed_at ∷ []))
      → is_block v s ≡ false
      → Recorded s
          (record_failure v type policy failed_at curr blocked_at s)
          v
          type
          times
          (enough policy times)
  unfolding record_failure recent enough noted failures
  record_failure-Recorded policy failed_at curr blocked_at e free =
      rw (record_failure, sym e)
        (by_count (ltb 0 policy.record_interval_ms && ltb (length times) policy.block_threhold_cnt))
    where
      records' : SuspectRecords
      records' = assign BlockType-discrete type times (records_of v s.suspect_items)

      by_count :
          (b : Bool)
          → Recorded s
              (if b then noted else block v type blocked_at records' noted)
              v
              type
              times
              (not b)
      by_count true = noted-Recorded free
      by_count false = block-Recorded blocked_at free
