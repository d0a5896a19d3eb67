-- ===== src/BlockList/Functional.antt =====
-- TestBlockListFunctional of example-blocklist/main.cc. A failed `ASSERT` is `none`; `clock` is what the
-- clock reads, one reading after the other.
use c_plus_plus_examples.Base.{ℕ, Bool, true, false, Option, List, [], ◌∷◌, ◌==◌, ◌&&◌}
use c_plus_plus_examples.Base.Chain.{◌>>◌, check}
use c_plus_plus_examples.Base.Integers.{negsuc}
use c_plus_plus_examples.BlockList.{
  BlockList, connect_error, disk_error, report_failed, get_block_list,
}

-- `ASSERT(vdisks.empty())`, and that there is one disk, which is `disk`.
is_empty : List ℕ → Bool
is_empty [] = true
is_empty (v ∷ vdisks) = false

is_only : ℕ → List ℕ → Bool
is_only disk [] = false
is_only disk (v ∷ vdisks) = is_empty vdisks && v == disk

unfoldable pub test_block_list_functional : (ℕ → ℕ) → Option (Unit {0})
unfolding is_empty is_only
test_block_list_functional clock =
    let bl : BlockList = record {
      block_policy =
          (disk_error, record { record_interval_ms = 0; block_threhold_cnt = 1 })
          ∷ (connect_error, record { record_interval_ms = 3000; block_threhold_cnt = 2 })
          ∷ [];
      block_items = [];
      suspect_items = [];
    } in
    let once = report_failed 3 (negsuc 1) (clock 0) (clock 1) (clock 2) bl in
    let twice = report_failed 3 (negsuc 1) (clock 3) (clock 4) (clock 5) once in
    do
      check (is_empty (get_block_list bl))
      check (is_only 3 (get_block_list once))
      check (is_only 3 (get_block_list twice))
