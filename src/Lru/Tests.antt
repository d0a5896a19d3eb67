-- ===== src/Lru/Tests.antt =====
-- The run of common/lru_test.cc, and the theorems on common/lru.h at inputs.
use c_plus_plus_examples.Base.{ℕ, ◌≡◌, refl, none, some, [], ◌∷◌, ℕ_discrete as dec, take}
use c_plus_plus_examples.Base.Map.{find, erase}
use c_plus_plus_examples.Lru.{Lru, init, node_at, unlink, splice_front, back, pop_back, get, put}
use c_plus_plus_examples.Lru.View.{entries, IsValid}
use c_plus_plus_examples.Lru.Refines.{touch, get_refines, put_refines, init-IsValid}

abbrev empty : Lru ℕ ℕ
empty = init 2

abbrev two : Lru ℕ ℕ
two = put dec (put dec empty 1 10) 2 20

two_run : entries dec two.lru ≡ (2, 20) ∷ (1, 10) ∷ []
unfolding init put find splice_front node_at dec
two_run = refl

evict_run : entries dec (put dec (get dec two 1).0 3 30).lru ≡ (3, 30) ∷ (1, 10) ∷ []
unfolding init put get find erase splice_front node_at unlink back pop_back dec
evict_run = refl

two-IsValid : IsValid dec two
two-IsValid =
    (put_refines dec (put dec empty 1 10) 2 20
      (put_refines dec empty 1 10 (init-IsValid dec 2)).1).1

get_refines_example :
    ((get dec two 1).1 ≡ find dec 1 (entries dec two.lru))
    × (entries dec (get dec two 1).0.lru ≡ elim (find dec 1 (entries dec two.lru)) [
      | none ↦ entries dec two.lru
      | some v ↦ touch dec 1 v (entries dec two.lru)
    ])
    × IsValid dec (get dec two 1).0
get_refines_example = get_refines dec two 1 two-IsValid

put_refines_example :
    (entries dec (put dec two 3 30).lru ≡ take two.cap (touch dec 3 30 (entries dec two.lru)))
    × IsValid dec (put dec two 3 30)
put_refines_example = put_refines dec two 3 30 two-IsValid
