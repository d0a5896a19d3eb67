-- ===== src/BlockList/Tests.antt =====
-- Tests of the block list, and the theorems at concrete inputs.
use c_plus_plus_examples.Base.{ℕ, ◌≤◌, ◌≡◌, refl, true, false, some, arith, [], ◌∷◌, ℕ_discrete}
use mathlib.Core.Path.{subst}
use mathlib.Core.Option.{some-injective}
use c_plus_plus_examples.Base.Integers.{negsuc}
use c_plus_plus_examples.Base.Map.{find, assign}
use c_plus_plus_examples.BlockList.{
  BlockType, BlockPolicy, BlockList, connect_error, disk_error, num, BlockType-discrete, is_block,
  report_failed, get_block_list,
}
use c_plus_plus_examples.BlockList.Functional.{test_block_list_functional}
use c_plus_plus_examples.BlockList.Report.{Reported, report_failed-Reported}

-- Two failures within 100 block a disk.
abbrev twice : BlockPolicy
twice = record { record_interval_ms = 100; block_threhold_cnt = 2 }

abbrev fresh : BlockList
fresh = record { block_policy = (connect_error, twice) ∷ []; block_items = []; suspect_items = [] }

abbrev once_failed : BlockList
once_failed = report_failed 7 (negsuc 0) 1000 1000 1000 fresh

abbrev twice_failed : BlockList
twice_failed = report_failed 7 (negsuc 0) 1050 1050 1050 once_failed

once_failed_test : is_block 7 once_failed ≡ false
unfolding report_failed is_block BlockType-discrete find
once_failed_test = refl

twice_failed_test : is_block 7 twice_failed ≡ true
unfolding report_failed is_block BlockType-discrete find assign ℕ_discrete
twice_failed_test = refl

late :
    (type : BlockType) (policy : BlockPolicy)
    → find BlockType-discrete type once_failed.block_policy ≡ some policy
    → policy.record_interval_ms ≤ 1050
unfolding report_failed BlockType-discrete find
late connect_error policy e =
    subst (λ p. p.record_interval_ms ≤ 1050) (some-injective _ _ e) (omega arith)
late disk_error policy e = absurd (ground arith)
late num policy e = absurd (ground arith)

report_failed-Reported_example : Reported once_failed 7 (negsuc 0) 1050 1050 twice_failed
report_failed-Reported_example =
    report_failed-Reported once_failed 7 (negsuc 0) 1050 1050 1050 (omega arith) late

-- No assertion of the source's own test fails, whatever the clock reads.
functional_run : (clock : ℕ → ℕ) → test_block_list_functional clock ≡ some tt
unfolding test_block_list_functional report_failed get_block_list BlockType-discrete ℕ_discrete
functional_run clock = refl
