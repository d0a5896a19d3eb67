-- ===== src/FreeSpace/Tests.antt =====
-- The tests of example-bitset/main.cc, on ten positions.
use c_plus_plus_examples.Base.{◌≡◌, refl, some, Bool, true, false, List, [], ◌∷◌, arith}
use c_plus_plus_examples.FreeSpace.{
  find_continuous_free_space, find_continuous_free_space_v1, mark_space,
}
use c_plus_plus_examples.FreeSpace.Functional.{test_meta_data_layout, test_meta_data_layout_v1}
use c_plus_plus_examples.FreeSpace.Search.{FirstFree, find_continuous_free_space-FirstFree}
use c_plus_plus_examples.FreeSpace.Chunks.{find_continuous_free_space_v1-find_continuous_free_space}

-- "1100100010", written from the right.
abbrev tmp1 : List Bool
tmp1 = false ∷ true ∷ false ∷ false ∷ false ∷ true ∷ false ∷ false ∷ true ∷ true ∷ []

test_10 : find_continuous_free_space tmp1 10 ≡ 10
unfolding find_continuous_free_space
test_10 = refl

test_3 : find_continuous_free_space tmp1 3 ≡ 2
unfolding find_continuous_free_space
test_3 = refl

unfoldable marked : List Bool
unfolding mark_space
marked = mark_space false (mark_space true tmp1 (3 ∷ 6 ∷ [])) (8 ∷ 9 ∷ [])

test_marked : find_continuous_free_space marked 3 ≡ 7
unfolding find_continuous_free_space mark_space marked
test_marked = refl

find_continuous_free_space-FirstFree_example : FirstFree tmp1 3 (find_continuous_free_space tmp1 3)
find_continuous_free_space-FirstFree_example =
    find_continuous_free_space-FirstFree tmp1 3 (omega arith)

test_v1 : find_continuous_free_space_v1 marked 3 ≡ 7
unfolding find_continuous_free_space_v1 mark_space marked
test_v1 = refl

find_continuous_free_space_v1-find_continuous_free_space_example :
    find_continuous_free_space_v1 tmp1 2 ≡ find_continuous_free_space tmp1 2
find_continuous_free_space_v1-find_continuous_free_space_example =
    find_continuous_free_space_v1-find_continuous_free_space tmp1 2

-- No assertion of the source's own tests fails.
functional_run : test_meta_data_layout ≡ some tt
unfolding test_meta_data_layout find_continuous_free_space mark_space
functional_run = refl

functional_v1_run : test_meta_data_layout_v1 ≡ some tt
unfolding test_meta_data_layout_v1 find_continuous_free_space_v1 mark_space
functional_v1_run = refl
