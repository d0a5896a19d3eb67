-- ===== src/Slice.antt =====
-- common/slice.h: the class `Slice`. A slice is the list of the bytes in `[data_, data_ + size_)`;
-- the bytes outside are out of its reach. A failed `assert` is `none`. What a comparison returns
-- is read by its sign only, as an `Ordering`.
pub mod Order
mod Tests
use Prim.Native.Nat.{compare as compare_bytes, Ordering}
use c_plus_plus_examples.Base.{
  ℕ, zero, suc, ◌-◌, Bool, true, false, Option, none, some, List, [], ◌∷◌, ltb, leb, ◌==◌, ◌&&◌,
  not, if◌then◌else◌, length, get_elem?, drop,
}

abbrev pub Slice : Type 0
Slice = List ℕ

-- `std::memcmp` on the first `n` bytes: the sign of the first difference. Both arguments have `n`
-- bytes wherever it is called.
unfoldable pub memcmp : List ℕ → List ℕ → ℕ → Ordering
memcmp a b zero = Ordering.eq
memcmp [] b (suc n) = Ordering.eq
memcmp (x ∷ a) [] (suc n) = Ordering.eq
memcmp (x ∷ a) (y ∷ b) (suc n) =
    let rest = memcmp a b n in
    elim (compare_bytes x y) [
      | Ordering.eq ↦ rest
      | Ordering.lt ↦ Ordering.lt
      | Ordering.gt ↦ Ordering.gt
    ]

abbrev pub is_zero : Ordering → Bool
is_zero Ordering.eq = true
is_zero _ = false

unfoldable pub empty : Slice → Bool
empty s = length s == 0

-- `operator[]`
unfoldable pub at : Slice → ℕ → Option ℕ
at s n = if ltb n (length s) then get_elem? s n else none

unfoldable pub clear : Slice → Slice
clear s = []

unfoldable pub remove_prefix : Slice → ℕ → Option Slice
remove_prefix s n = if leb n (length s) then some (drop n s) else none

unfoldable pub starts_with : Slice → Slice → Bool
starts_with s x = leb (length x) (length s) && is_zero (memcmp s x (length x))

-- `operator==` and `operator!=`
unfoldable pub equals : Slice → Slice → Bool
equals a b = length a == length b && is_zero (memcmp a b (length a))

unfoldable pub differs : Slice → Slice → Bool
unfolding equals
differs a b = not (equals a b)

-- The sign of the result of `Slice::compare`.
unfoldable pub compare : Slice → Slice → Ordering
compare a b =
    let min_size = if ltb (length b) (length a) then length b else length a in
    let r = memcmp a b min_size in
    if is_zero r
    then if ltb (length a) (length b)
      then Ordering.lt
      else if ltb (length b) (length a)
      then Ordering.gt
      else r
    else r

-- `BySmallestKey::operator()` of example-algorithm/main.cc.
unfoldable pub by_smallest_key : Slice → Slice → Bool
by_smallest_key s1 s2 = elim (compare s1 s2) [ Ordering.lt ↦ true | _ ↦ false ]
