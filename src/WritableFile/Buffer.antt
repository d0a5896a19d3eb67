-- ===== src/WritableFile/Buffer.antt =====
-- The buffer of example-writablefile/writable_file.h: what lies in front of `pos_`.
use c_plus_plus_examples.Base.{
  ℕ, zero, suc, ◌+◌, ◌≤◌, ◌<◌, ◌≡◌, refl, ap, ◌∙◌, List, [], ◌∷◌, ◌++◌, length, set, take, arith,
  append_assoc, append-nil, length-set,
}
use c_plus_plus_examples.Status.{memcpy}
use c_plus_plus_examples.WritableFile.{WritableFile, buffer_size}

-- `pos_` stays within the buffer.
pub record IsValid (f : WritableFile) : Type 0 where
  pub size : length f.buf ≡ buffer_size
  pub within : f.pos ≤ buffer_size

-- The bytes that wait.
abbrev pub pending : WritableFile → List ℕ
pending f = take f.pos f.buf

pub length-memcpy : (buf : List ℕ) (at : ℕ) (src : List ℕ) → length (memcpy buf at src) ≡ length buf
unfolding memcpy
length-memcpy buf at [] = refl
length-memcpy buf at (x ∷ src) = length-memcpy (set buf at x) (at + 1) src ∙ length-set buf at x

take-set :
    (buf : List ℕ) (at x : ℕ)
    → at < length buf
    → take (suc at) (set buf at x) ≡ take at buf ++ (x ∷ [])
take-set [] at x h = absurd (omega arith)
take-set (b ∷ buf) zero x h = refl
take-set (b ∷ buf) (suc at) x h = ap (◌∷◌ b) (take-set buf at x (omega arith))

-- A copy behind the waiting bytes makes them wait too.
pub take-memcpy :
    (buf : List ℕ) (at : ℕ) (src : List ℕ)
    → at + length src ≤ length buf
    → take (at + length src) (memcpy buf at src) ≡ take at buf ++ src
unfolding memcpy
take-memcpy buf at [] h = let e : at + 0 ≡ at = omega arith in rw (e, append-nil) refl
take-memcpy buf at (x ∷ src) h =
    let e : at + suc (length src) ≡ suc at + length src = omega arith in
    let next : at + 1 ≡ suc at = omega arith in
    rw (e, next)
      (take-memcpy (set buf at x) (suc at) src (omega (arith, length-set buf at x))
        ∙ rw (take-set buf at x (omega arith), append_assoc))
