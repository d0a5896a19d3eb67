-- ===== src/WritableFile/Close.antt =====
-- `Close` and `Dirname` of example-writablefile/writable_file.h.
use c_plus_plus_examples.Base.{
  ℕ, zero, suc, ◌+◌, ◌≡◌, refl, ◌⊎◌, inl, inr, true, false, Option, none, some, List, [], ◌∷◌, ◌++◌,
  take, drop, arith, Option-cases,
}
use c_plus_plus_examples.Status.{Status, is_ok, codes}
use c_plus_plus_examples.WritableFile.{Posix, WritableFile, find_slash, rfind_slash, dirname_of}
use c_plus_plus_examples.WritableFile.Buffer.{pending}

module _ (os : Posix) (contents : os.World → List ℕ) where
  -- The call returned and the descriptor is given up. Either it is OK and the file has got all the
  -- bytes that waited, or it is not, and it has got a first part of them.
  pub record Closed (f : WritableFile) (w : os.World)
      (o : Option (os.World × WritableFile × Status)) : Type 0 where
    pub after : os.World
    pub file : WritableFile
    pub status : Status
    pub returned : o ≡ some (after, file, status)
    pub closed : file.fd ≡ none
    pub lost : List ℕ
    pub whole : contents after ++ lost ≡ contents w ++ pending f
    pub outcome : ((is_ok status ≡ true) × (lost ≡ [])) ⊎ (is_ok status ≡ false)

no_slash : (s : List ℕ) → rfind_slash s ≡ none → find_slash s ≡ none
unfolding rfind_slash find_slash
no_slash [] h = refl
no_slash (c ∷ s) h = elim (Option-cases (rfind_slash s)) [
  | inl plain ↦ ground (arith, no_slash s plain, plain)
  | inr (i, there) ↦ absurd (ground (arith, there, h))
]

no_slash_behind : (s : List ℕ) (i : ℕ) → rfind_slash s ≡ some i → find_slash (drop (suc i) s) ≡ none
unfolding rfind_slash find_slash
no_slash_behind [] i h = refl
no_slash_behind (c ∷ s) zero h = elim (Option-cases (rfind_slash s)) [
  | inl plain ↦ no_slash s plain
  | inr (j, there) ↦ absurd (ground (arith, there, h))
]
no_slash_behind (c ∷ s) (suc i) h = no_slash_behind s i (ground (arith, h))

-- Every file name has a directory part: the assertion of `Dirname` holds.
pub dirname_of_total : (filename : List ℕ) → (d : List ℕ) × (dirname_of filename ≡ some d)
unfolding dirname_of
dirname_of_total filename = elim (Option-cases (rfind_slash filename)) [
  | inl plain ↦ (codes ".", ground (arith, plain))
  | inr (i, there) ↦
      let e : i + 1 ≡ suc i = omega arith in
      let plain : find_slash (drop (i + 1) filename) ≡ none =
        rw e (no_slash_behind filename i there) in
      (take i filename, ground (arith, there, plain))
]
