-- ===== src/Slice/Tests.antt =====
-- Runs of common/slice.h, and its theorems at inputs.
use Prim.Native.Nat.{Ordering}
use c_plus_plus_examples.Base.{◌≡◌, refl, none, some, [], ◌∷◌}
use c_plus_plus_examples.Slice.{Slice, at, remove_prefix, memcmp, compare}
use c_plus_plus_examples.Slice.Order.{lex, compare-lex}

abbrev abc : Slice
abc = b'a' ∷ b'b' ∷ b'c' ∷ []

abbrev bc : Slice
bc = b'b' ∷ b'c' ∷ []

compare_run : (compare abc bc ≡ Ordering.lt) × (compare abc (b'a' ∷ []) ≡ Ordering.gt)
unfolding compare memcmp
compare_run = (refl, refl)

remove_prefix_run : (remove_prefix abc 1 ≡ some bc) × (remove_prefix bc 3 ≡ none)
unfolding remove_prefix
remove_prefix_run = (refl, refl)

at_run : (at abc 2 ≡ some b'c') × (at abc 3 ≡ none)
unfolding at
at_run = (refl, refl)

compare-lex_example : compare abc bc ≡ lex abc bc
compare-lex_example = compare-lex abc bc
