-- ===== src/Base/Map.antt =====
-- `std::unordered_map` as an association list that holds each key once. The order of the entries
-- is no part of what the map means, and no theorem depends on it.
use Prim.Native.Nat.{◌+◌}
use mathlib.Core.Path.{◌≡◌, refl, sym}
use mathlib.Core.Logic.{ite, if_pos, if_neg, ◌≢◌}
use mathlib.Core.Option.{Option, none, some}
use mathlib.Core.List.{List, [], ◌∷◌, ◌++◌}
use native.Mathlib.Omega.{arith}
use c_plus_plus_examples.Base.Lists.{length}

module _ {ℓ} {K V : Type ℓ} (dec : Discrete K) where
  -- `find(k)`: the value, or `none` for `end()`.
  unfoldable pub find : K → List (K × V) → Option V
  find k [] = none
  find k ((j, v) ∷ m) = ite (dec j k) (some v) (find k m)

  -- `erase(k)`
  unfoldable pub erase : K → List (K × V) → List (K × V)
  erase k [] = []
  erase k ((j, v) ∷ m) = ite (dec j k) (erase k m) ((j, v) ∷ erase k m)

  -- `emplace(k, v)`, which keeps an entry that is there.
  unfoldable pub emplace : K → V → List (K × V) → List (K × V)
  emplace k v m = elim (find k m) [ none ↦ (k, v) ∷ m | some _ ↦ m ]

  -- `m[k] = v`
  unfoldable pub assign : K → V → List (K × V) → List (K × V)
  assign k v m = (k, v) ∷ erase k m

  abbrev pub Distinct : List (K × V) → Type ℓ
  Distinct [] = Unit {ℓ}
  Distinct ((k, v) ∷ m) = (find k m ≡ none) × Distinct m

  pub find-erase_self : (k : K) (m : List (K × V)) → find k (erase k m) ≡ none
  unfolding find erase
  find-erase_self k [] = refl
  find-erase_self k ((j, v) ∷ m) = ground (arith, find-erase_self k m)

  pub find-erase_ne : (k j : K) (m : List (K × V)) → k ≢ j → find j (erase k m) ≡ find j m
  unfolding find erase
  find-erase_ne k j [] h = refl
  find-erase_ne k j ((i, v) ∷ m) h = ground (arith, find-erase_ne k j m h)

  pub erase_absent : (k : K) (m : List (K × V)) → find k m ≡ none → erase k m ≡ m
  unfolding find erase
  erase_absent k [] h = refl
  erase_absent k ((j, v) ∷ m) h = ground (arith, erase_absent k m)

  pub erase-Distinct : (k : K) (m : List (K × V)) → Distinct m → Distinct (erase k m)
  unfolding erase
  erase-Distinct k [] h = tt
  erase-Distinct k ((j, v) ∷ m) h = elim (dec j k) [
    | yes p ↦ rw (if_pos _ p) (erase-Distinct k m h.1)
    | no p ↦ rw (if_neg _ p) (rw (find-erase_ne k j m (λ e. p (sym e))) h.0, erase-Distinct k m h.1)
  ]

  pub length-erase :
      (k : K) (m : List (K × V)) (v : V)
      → Distinct m
      → find k m ≡ some v
      → length (erase k m) + 1 ≡ length m
  unfolding find erase
  length-erase k [] v d h = cc
  length-erase k ((j, w) ∷ m) v d h = ground (arith, length-erase k m v d.1, erase_absent k m)

  -- What two maps behind each other hold: what the first has counts.
  abbrev pub or_else : Option V → Option V → Option V
  or_else none v = v
  or_else (some u) v = some u

  pub find-append : (k : K) (m n : List (K × V)) → find k (m ++ n) ≡ or_else (find k m) (find k n)
  unfolding find
  find-append k [] n = refl
  find-append k ((j, v) ∷ m) n = ground (arith, find-append k m n)

  -- An emplaced entry counts behind those that are there.
  pub find-emplace :
      (k j : K) (v : V) (m : List (K × V))
      → find j (emplace k v m) ≡ or_else (find j m) (find j ((k, v) ∷ []))
  unfolding find emplace
  find-emplace k j v m = ground arith

  -- An assigned entry counts before those that are there.
  pub find-assign :
      (k j : K) (v : V) (m : List (K × V)) → find j (assign k v m) ≡ find j ((k, v) ∷ m)
  unfolding find assign
  find-assign k j v m = elim (dec k j) [
    | yes p ↦ rw (if_pos _ p, if_pos _ p) refl
    | no p ↦ rw (if_neg _ p, if_neg _ p) (find-erase_ne k j m p)
  ]

  pub find-assign_self : (k : K) (v : V) (m : List (K × V)) → find k (assign k v m) ≡ some v
  unfolding find assign
  find-assign_self k v m = ground arith

  pub find-assign_ne :
      (k j : K) (v : V) (m : List (K × V)) → k ≢ j → find j (assign k v m) ≡ find j m
  unfolding find assign
  find-assign_ne k j v m h = ground (arith, h, find-erase_ne k j m h)
