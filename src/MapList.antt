-- ===== src/MapList.antt =====
-- example-tmp/tmp.h, tmp.cc: `MapList`, a hash map whose buckets are displayed a few at a time. How
-- the map lays its elements out in buckets is the library's; the buckets are an argument of `run`, the
-- list of the elements of each.
pub mod Loop
pub mod Round
pub mod Rounds
mod Tests
use c_plus_plus_examples.Base.{
  ℕ, zero, suc, ◌+◌, ◌-◌, ◌%◌, ◌^◌, Bool, true, false, not, ◌&&◌, Option, none, some, List, [], ◌∷◌,
  ◌++◌, length, get_or, ltb, ◌==◌, if◌then◌else◌, ℕ_discrete,
}
use c_plus_plus_examples.Base.Chain.{◌>>=◌}
use c_plus_plus_examples.Base.Map.{find, emplace}

-- `kvs_`
abbrev pub MapList : Type 0
MapList = List (ℕ × ℕ)

-- `count`
unfoldable pub count : MapList → ℕ → ℕ
count kvs key = elim (find ℕ_discrete key kvs) [ none ↦ 0 | some val ↦ 1 ]

unfoldable pub push : MapList → ℕ → ℕ → MapList
unfolding count
push kvs key val = if ltb 0 (count kvs key) then kvs else emplace ℕ_discrete key val kvs

abbrev pub Item : Type 0
Item = ℕ × ℕ

-- The bucket that `curr_bucket_idx` stands for.
unfoldable pub bucket_at : List (List Item) → ℕ → List Item
bucket_at buckets curr = get_or buckets (curr % length buckets) []

-- The elements of a bucket are displayed before what follows.
unfoldable pub display : List Item → Option (ℕ × List Item) → Option (ℕ × List Item)
display bucket more = do (end, items) ← more; some (end, bucket ++ items)

-- The loop of `Run`, on fuel: `curr_bucket_idx` behind it and the items that are displayed. `limit` is
-- PER_ROUND_BLOCK_ITEM_CNT, `start` is round_start_idx.
unfoldable pub round : List (List Item) → ℕ → ℕ → ℕ → ℕ → ℕ → Option (ℕ × List Item)
unfolding bucket_at display
round buckets limit start zero curr cnt = none
round buckets limit start (suc fuel) curr cnt =
    let bucket = bucket_at buckets curr in
    let next = (curr + 1) % 2 ^ 64 in
    let cnt' = cnt + length bucket in
    let rest = round buckets limit start fuel next cnt' in
    let more =
      if ltb ((next + 2 ^ 64 - start) % 2 ^ 64) (length buckets) && ltb cnt' limit
      then rest
      else some (next, []) in
    if length bucket == 0
    then more
    else if ltb limit cnt' && not (curr == start)
    then some (curr, [])
    else display bucket more

-- `Run`, with the value of `curr_bucket_idx` before and behind it.
unfoldable pub run : List (List Item) → ℕ → ℕ → Option (ℕ × List Item)
unfolding round
run buckets limit curr =
    if length buckets == 0
    then some (curr, [])
    else round buckets limit curr (length buckets) curr 0

-- The two variables that all maps share, as they are at first and when the limit is set.
pub record Globals : Type 0 where
  pub per_round_block_item_cnt : ℕ
  pub curr_bucket_idx : ℕ

unfoldable pub initial_globals : Globals
initial_globals = record { per_round_block_item_cnt = 4; curr_bucket_idx = 0 }

unfoldable pub set_per_round_max_item_cnt : ℕ → Globals → Globals
set_per_round_max_item_cnt cnt g = record g { per_round_block_item_cnt = cnt }

-- `Run` on these.
unfoldable pub run_globals : List (List Item) → Globals → Option (Globals × List Item)
unfolding run
run_globals buckets g = do
  (curr, items) ← run buckets g.per_round_block_item_cnt g.curr_bucket_idx
  some (record g { curr_bucket_idx = curr }, items)

-- `Run` a number of times, on a map that is not changed meanwhile.
unfoldable pub runs : List (List Item) → ℕ → ℕ → ℕ → Option (ℕ × List Item)
unfolding run
runs buckets limit zero curr = some (curr, [])
runs buckets limit (suc times) curr = do
  (next, items) ← run buckets limit curr
  (end, more) ← runs buckets limit times next
  some (end, items ++ more)
