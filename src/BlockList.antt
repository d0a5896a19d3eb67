-- ===== src/BlockList.antt =====
-- example-blocklist/block_list.h, block_list.cc: disks that fail too often within an interval are
-- blocked. What the clock reads at each of its calls is an argument.
pub mod Blocks
pub mod Report
pub mod Functional
mod Tests
use c_plus_plus_examples.Base.{
  ℕ, zero, suc, ◌+◌, ◌-◌, ◌%◌, ◌^◌, ◌≡◌, ◌≢◌, refl, sym, ap, arith, Bool, true, false, not, Option,
  none, some, List, [], ◌∷◌, ◌++◌, map, length, ltb, leb, ◌==◌, ◌&&◌, if◌then◌else◌, ℕ_discrete,
}
use c_plus_plus_examples.Base.Integers.{ℤ, pos, negsuc}
use c_plus_plus_examples.Base.Map.{find, erase, emplace, assign}

pub data BlockType : Type 0 where
  connect_error disk_error num : BlockType

-- `BlockPolicy`, a number of failures within an interval.
pub record BlockPolicy : Type 0 where
  pub record_interval_ms : ℕ
  pub block_threhold_cnt : ℕ

pub record BlockItem : Type 0 where
  pub type : BlockType
  pub block_timestamp : ℕ

abbrev pub SuspectRecords : Type 0
SuspectRecords = List (BlockType × List ℕ)

pub record BlockList : Type 0 where
  pub block_policy : List (BlockType × BlockPolicy)
  pub block_items : List (ℕ × BlockItem)
  pub suspect_items : List (ℕ × SuspectRecords)

abbrev pub type_code : BlockType → ℕ
type_code connect_error = 0
type_code disk_error = 1
type_code num = 2

pub type_ne : {a b : BlockType} → type_code a ≢ type_code b → a ≢ b
type_ne h e = h (ap type_code e)

unfoldable pub BlockType-discrete : Discrete BlockType
BlockType-discrete connect_error connect_error = yes refl
BlockType-discrete disk_error disk_error = yes refl
BlockType-discrete num num = yes refl
BlockType-discrete connect_error disk_error = no (type_ne (λ e. ground (arith, e)))
BlockType-discrete connect_error num = no (type_ne (λ e. ground (arith, e)))
BlockType-discrete disk_error connect_error = no (type_ne (λ e. ground (arith, e)))
BlockType-discrete disk_error num = no (type_ne (λ e. ground (arith, e)))
BlockType-discrete num connect_error = no (type_ne (λ e. ground (arith, e)))
BlockType-discrete num disk_error = no (type_ne (λ e. ground (arith, e)))

-- `ConvertErrorToBlockType`, with ERROR_CONNECT = -1 and ERROR_IO_ERROR = -2.
unfoldable pub convert_error : ℤ → BlockType
convert_error (negsuc zero) = connect_error
convert_error (negsuc (suc zero)) = disk_error
convert_error r = num

unfoldable pub is_block : ℕ → BlockList → Bool
unfolding find
is_block vdisk_id s = elim (find ℕ_discrete vdisk_id s.block_items) [ none ↦ false | some _ ↦ true ]

-- `suspect_items_[vdisk_id]` and `records[type]`, which are empty where there is none.
unfoldable pub records_of : ℕ → List (ℕ × SuspectRecords) → SuspectRecords
unfolding find
records_of vdisk_id items = elim (find ℕ_discrete vdisk_id items) [
  | none ↦ []
  | some records ↦ records
]

unfoldable pub failures_of : BlockType → SuspectRecords → List ℕ
unfolding find
failures_of type records = elim (find BlockType-discrete type records) [
  | none ↦ []
  | some times ↦ times
]

-- The loop that erases the failures before `ttl`.
unfoldable pub erase_before : ℕ → List ℕ → List ℕ
erase_before ttl [] = []
erase_before ttl (time ∷ times) =
    let rest = erase_before ttl times in if ltb time ttl then rest else time ∷ rest

-- `curr - record_interval_ms`, in 64 bits.
unfoldable pub ttl_at : ℕ → ℕ → ℕ
ttl_at curr interval = (curr + 2 ^ 64 - interval) % 2 ^ 64

-- The end of `ReportFailed`: the disk is blocked.
unfoldable pub block : ℕ → BlockType → ℕ → SuspectRecords → BlockList → BlockList
unfolding emplace erase assign
block vdisk_id type time records s =
    let left = erase BlockType-discrete type records in
    record s {
      block_items =
          emplace ℕ_discrete vdisk_id (record { type = type; block_timestamp = time })
            s.block_items;
      suspect_items =
          if length left == 0
          then erase ℕ_discrete vdisk_id s.suspect_items
          else assign ℕ_discrete vdisk_id left s.suspect_items;
    }

-- `ReportFailed` behind the early returns; the three numbers are what the clock reads in turn.
unfoldable pub record_failure : ℕ → BlockType → BlockPolicy → ℕ → ℕ → ℕ → BlockList → BlockList
unfolding records_of failures_of erase_before ttl_at block assign
record_failure vdisk_id type policy failed_at curr blocked_at s =
    let records = records_of vdisk_id s.suspect_items in
    let faileds = failures_of type records ++ (failed_at ∷ []) in
    let kept =
      if ltb 0 policy.record_interval_ms
      then erase_before (ttl_at curr policy.record_interval_ms) faileds
      else faileds in
    let records' = assign BlockType-discrete type kept records in
    let s' = record s { suspect_items = assign ℕ_discrete vdisk_id records' s.suspect_items } in
    if ltb 0 policy.record_interval_ms && ltb (length kept) policy.block_threhold_cnt
    then s'
    else block vdisk_id type blocked_at records' s'

unfoldable pub report_failed : ℕ → ℤ → ℕ → ℕ → ℕ → BlockList → BlockList
unfolding convert_error is_block record_failure find
report_failed vdisk_id r failed_at curr blocked_at s =
    let type = convert_error r in
    elim (BlockType-discrete type num) [
      | yes _ ↦ s
      | no _ ↦
          if is_block vdisk_id s then s else elim (find BlockType-discrete type s.block_policy) [
            | none ↦ s
            | some policy ↦ record_failure vdisk_id type policy failed_at curr blocked_at s
          ]
    ]

unfoldable pub get_block_list : BlockList → List ℕ
get_block_list s = map (λ block. block.0) s.block_items
