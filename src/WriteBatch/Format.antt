-- ===== src/WriteBatch/Format.antt =====
-- The format that the comment in example-ping-pong-batch/write_batch.cc gives: the bytes of a
-- sequence of records, and a reader of them by `GetLengthPrefixedSlice`.
use c_plus_plus_examples.Base.{
  ℕ, zero, suc, ◌^◌, ◌<◌, ◌≡◌, refl, Option, none, some, List, [], ◌∷◌, ◌++◌, append_assoc, All,
  length, ◌==◌, if◌then◌else◌,
}
use c_plus_plus_examples.Coding.{get_length_prefixed_slice}
use c_plus_plus_examples.Coding.Fixed.{fixed32_bytes, fixed64_bytes}
use c_plus_plus_examples.Coding.Slices.{
  get_length_prefixed_slice-put, put_length_prefixed_slice-groups,
}
use c_plus_plus_examples.Coding.Varint.{groups}
use mathlib.Core.Path.{subst}
use c_plus_plus_examples.Slice.{Slice}
use c_plus_plus_examples.WriteBatch.{WriteBatch}

-- record := kTypeValue varstring varstring | kTypeDelete varstring
pub data Update : Type 0 where
  put : Slice → Slice → Update
  delete : Slice → Update

-- varstring := len: varint32, data: uint8[len]
abbrev pub varstring : Slice → List ℕ
varstring s = groups 4 (length s) ++ s

varstring_read :
    (s rest : Slice)
    → length s < 2 ^ 32
    → get_length_prefixed_slice ((groups 4 (length s) ++ s) ++ rest) ≡ (some s, rest)
varstring_read s rest h =
    subst (λ l. get_length_prefixed_slice (l ++ rest) ≡ (some s, rest))
      (put_length_prefixed_slice-groups s h) (get_length_prefixed_slice-put s rest h)

abbrev pub update_bytes : Update → List ℕ
update_bytes (Update.put key value) = 1 ∷ (varstring key ++ varstring value)
update_bytes (Update.delete key) = 0 ∷ varstring key

abbrev pub data_bytes : List Update → List ℕ
data_bytes [] = []
data_bytes (u ∷ us) = update_bytes u ++ data_bytes us

pub data_bytes-append :
    (us vs : List Update) → data_bytes (us ++ vs) ≡ data_bytes us ++ data_bytes vs
data_bytes-append [] vs = refl
data_bytes-append (u ∷ us) vs = simp (data_bytes-append us vs, append_assoc)

-- A batch holds a sequence number and the updates, in the order in which they were made.
pub record Represents (b : WriteBatch) (seq : ℕ) (us : List Update) : Type 0 where
  pub bytes : b.rep ≡ fixed64_bytes seq ++ (fixed32_bytes (length us) ++ data_bytes us)
  pub seq_fits : seq < 2 ^ 64
  pub count_fits : length us < 2 ^ 32

abbrev pub Fits : Update → Type 0
Fits (Update.put key value) = (length key < 2 ^ 32) × (length value < 2 ^ 32)
Fits (Update.delete key) = length key < 2 ^ 32

-- The update at the front of the data, and the data behind it.
read_value : Slice → Option Slice × List ℕ → Option (Update × List ℕ)
read_value key (none, rest) = none
read_value key (some value, rest) = some (Update.put key value, rest)

read_put : Option Slice × List ℕ → Option (Update × List ℕ)
unfolding read_value
read_put (none, rest) = none
read_put (some key, rest) = read_value key (get_length_prefixed_slice rest)

read_delete : Option Slice × List ℕ → Option (Update × List ℕ)
read_delete (none, rest) = none
read_delete (some key, rest) = some (Update.delete key, rest)

unfoldable pub read_update : List ℕ → Option (Update × List ℕ)
unfolding read_put read_delete
read_update [] = none
read_update (t ∷ rest) =
    if t == 1
    then read_put (get_length_prefixed_slice rest)
    else if t == 0
    then read_delete (get_length_prefixed_slice rest)
    else none

cons_read : Option (Update × List ℕ) → (List ℕ → Option (List Update)) → Option (List Update)
cons_read none more = none
cons_read (some (u, rest)) more = elim (more rest) [ none ↦ none | some us ↦ some (u ∷ us) ]

-- `n` updates, after which the data must be at its end.
unfoldable pub read_updates : ℕ → List ℕ → Option (List Update)
unfolding cons_read
read_updates zero [] = some []
read_updates zero (x ∷ rest) = none
read_updates (suc n) rest = cons_read (read_update rest) (read_updates n)

read_update-update_bytes :
    (u : Update) (rest : List ℕ) → Fits u → read_update (update_bytes u ++ rest) ≡ some (u, rest)
unfolding read_update
read_update-update_bytes (Update.put key value) rest h =
    rw (append_assoc (varstring key) (varstring value) rest, varstring_read key _ h.0, read_put)
      (rw (varstring_read value rest h.1))
read_update-update_bytes (Update.delete key) rest h = rw (varstring_read key rest h)

-- The data of a batch determines its updates: the reader gets them back.
pub read_updates-data_bytes :
    (us : List Update) → All Fits us → read_updates (length us) (data_bytes us) ≡ some us
unfolding read_updates
read_updates-data_bytes [] h = refl
read_updates-data_bytes (u ∷ us) h =
    rw (read_update-update_bytes u (data_bytes us) h.0, read_updates-data_bytes us h.1)
