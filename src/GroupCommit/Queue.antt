-- ===== src/GroupCommit/Queue.antt =====
-- The group at the front of the queue of example-ping-pong-batch/main.cc, and its release.
use c_plus_plus_examples.Base.{
  ℕ, ◌≡◌, refl, ◌∙◌, Bool, true, false, not, some, List, [], ◌∷◌, ◌++◌, arith, elem, elem_append,
  Bool-cases, inl, inr, ◌==◌, ◌&&◌, ◌||◌, if◌then◌else◌,
}
use c_plus_plus_examples.GroupCommit.{update, release}

-- A list that ends with `last`, where `last` is nowhere else.
pub data EndsWith (last : ℕ) : List ℕ → Type 0 where
  one : (x : ℕ) → x ≡ last → EndsWith last (x ∷ [])
  more : {g : List ℕ} (x : ℕ) → (x == last) ≡ false → EndsWith last g → EndsWith last (x ∷ g)

-- `done_` when the writers of `g` have been woken by the leader `i`.
pub mark : ℕ → List ℕ → (ℕ → Bool) → ℕ → Bool
mark i [] done = done
mark i (ready ∷ g) done = mark i g (if ready == i then done else update done ready true)

pub mark_lem :
    (i : ℕ) (g : List ℕ) (done : ℕ → Bool) (j : ℕ)
    → mark i g done j ≡ (done j || (elem j g && not (i == j)))
unfolding mark
mark_lem i [] done j = ground arith
mark_lem i (x ∷ g) done j =
    mark_lem i g (if x == i then done else update done x true) j ∙ ground arith

pub release-mark :
    (i last : ℕ) {g : List ℕ} (r : List ℕ) (done : ℕ → Bool)
    → EndsWith last g
    → release i last (g ++ r) done ≡ some (r, mark i g done)
unfolding release mark
release-mark i last r done (one x e) = ground arith
release-mark i last r done (more x ne h) =
    ground (arith, release-mark i last r (if x == i then done else update done x true) h)

elem-EndsWith : {last : ℕ} {g : List ℕ} → EndsWith last g → elem last g ≡ true
elem-EndsWith (one x e) = ground arith
elem-EndsWith (more x ne h) = ground (arith, elem-EndsWith h)

-- A writer that is not in a list is not the last of its first part.
pub ne-EndsWith :
    (first last : ℕ) (g rest l : List ℕ)
    → EndsWith last g
    → l ≡ g ++ rest
    → elem first l ≡ false
    → (first == last) ≡ false
ne-EndsWith first last g rest l h parts apart = elim (Bool-cases (first == last)) [
  | inr ne ↦ ne
  | inl e ↦
      let same : first ≡ last = ground arith in
      let there : elem first l ≡ true =
        rw (parts, elem_append first g rest, same, elem-EndsWith h) refl in
      absurd (ground (arith, there, apart))
]
