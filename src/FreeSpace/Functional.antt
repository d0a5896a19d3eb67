-- ===== src/FreeSpace/Functional.antt =====
-- The tests of example-bitset/main.cc. A failed `assert` is `none`; a bit set is written from position 0
-- on.
use c_plus_plus_examples.Base.{true, false, Option, [], ◌∷◌, ◌++◌, ◌==◌, replicate}
use c_plus_plus_examples.Base.Chain.{◌>>◌, check}
use c_plus_plus_examples.FreeSpace.{
  find_continuous_free_space, find_continuous_free_space_v1, mark_space,
}

unfoldable pub test_meta_data_layout : Option (Unit {0})
test_meta_data_layout =
    let tmp = replicate 10 false in
    let tmp1 = false ∷ true ∷ false ∷ false ∷ false ∷ true ∷ false ∷ false ∷ true ∷ true ∷ [] in
    let marked = mark_space false (mark_space true tmp1 (3 ∷ 6 ∷ [])) (8 ∷ 9 ∷ []) in
    do
      check (find_continuous_free_space tmp 10 == 0)
      check (find_continuous_free_space tmp 11 == 10)
      check (find_continuous_free_space tmp1 10 == 10)
      check (find_continuous_free_space tmp1 3 == 2)
      check (find_continuous_free_space marked 3 == 7)
      check (find_continuous_free_space marked 4 == 10)

unfoldable pub test_meta_data_layout_v1 : Option (Unit {0})
test_meta_data_layout_v1 =
    let tmp =
      replicate 65 true ++ (replicate 7 false ++ (replicate 2 true ++ replicate 66 false)) in
    let tmp1 = replicate 140 true in
    let freed = mark_space false tmp1 (138 ∷ 137 ∷ []) in
    let freed_more = mark_space false freed (139 ∷ []) in
    do
      check (find_continuous_free_space_v1 tmp 8 == 74)
      check (find_continuous_free_space_v1 tmp 4 == 65)
      check (find_continuous_free_space_v1 tmp1 1 == 140)
      check (find_continuous_free_space_v1 freed 2 == 137)
      check (find_continuous_free_space_v1 freed 3 == 140)
      check (find_continuous_free_space_v1 freed_more 3 == 137)
