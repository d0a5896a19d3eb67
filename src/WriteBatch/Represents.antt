-- ===== src/WriteBatch/Represents.antt =====
-- The operations of a batch of example-ping-pong-batch/write_batch.cc, and the format of its bytes.
use c_plus_plus_examples.Base.{
  ℕ, ◌+◌, ◌-◌, ◌%◌, ◌^◌, ◌<◌, ◌≡◌, refl, ◌∙◌, true, some, List, [], ◌∷◌, ◌++◌, append_assoc, arith,
  length, length-append, take-length, append-nil, take, drop,
}
use c_plus_plus_examples.Coding.{
  encode_fixed32, encode_fixed64, decode_fixed32, decode_fixed64, put_length_prefixed_slice,
}
use c_plus_plus_examples.Coding.Fixed.{
  fixed32_bytes, fixed64_bytes, decode_fixed32_bytes, decode_fixed64_bytes,
}
use c_plus_plus_examples.Coding.Slices.{
  put_length_prefixed_slice-append, put_length_prefixed_slice-groups,
}
use c_plus_plus_examples.Slice.{Slice}
use c_plus_plus_examples.WriteBatch
use c_plus_plus_examples.WriteBatch.{WriteBatch, int_sum_fits}
use c_plus_plus_examples.WriteBatch.Format.{
  Update, Fits, varstring, data_bytes, data_bytes-append, Represents,
}
use native.Mathlib.Nat.{mod-eq_of_lt}

abbrev batch_bytes : ℕ → ℕ → List ℕ → List ℕ
batch_bytes seq n rest = fixed64_bytes seq ++ (fixed32_bytes n ++ rest)

count-batch_bytes :
    (b : WriteBatch) (seq n : ℕ) (rest : List ℕ)
    → b.rep ≡ batch_bytes seq n rest
    → n < 2 ^ 32
    → WriteBatch.count b ≡ n
unfolding WriteBatch.count decode_fixed32
count-batch_bytes b seq n rest e h = rw e (decode_fixed32_bytes n rest h)

set_count-batch_bytes :
    (b : WriteBatch) (seq n m : ℕ) (rest : List ℕ)
    → b.rep ≡ batch_bytes seq n rest
    → (WriteBatch.set_count b m).rep ≡ batch_bytes seq m rest
unfolding WriteBatch.set_count encode_fixed32
set_count-batch_bytes b seq n m rest e = rw e

data-batch_bytes :
    (b : WriteBatch) (seq n : ℕ) (rest : List ℕ)
    → b.rep ≡ batch_bytes seq n rest
    → take (length b.rep - WriteBatch.header) (drop WriteBatch.header b.rep) ≡ rest
data-batch_bytes b seq n rest e = rw (e, all) (take-length rest)
  where
    all : length (batch_bytes seq n rest) - 12 ≡ length rest
    all = omega arith

-- The count is raised by the updates that `d` holds, and the bytes of `d` are appended.
grow-Represents :
    (b : WriteBatch) (seq : ℕ) (us vs : List Update) (b' : WriteBatch)
    → Represents b seq us
    → length us + length vs < 2 ^ 32
    → b'.rep
      ≡ (WriteBatch.set_count b ((WriteBatch.count b + length vs) % 2 ^ 32)).rep ++ data_bytes vs
    → Represents b' seq (us ++ vs)
grow-Represents b seq us vs b' r h e = record {
  bytes =
      e
      ∙ rw (
        count-batch_bytes b seq (length us) (data_bytes us) r.bytes r.count_fits,
        mod-eq_of_lt h,
        set_count-batch_bytes b seq (length us) (length us + length vs) (data_bytes us) r.bytes,
        length-append us vs,
        data_bytes-append us vs,
      );
  seq_fits = r.seq_fits;
  count_fits = omega (arith, length-append us vs);
}

-- A new batch, and any batch that is cleared, holds no update and has sequence number 0.
pub clear-Represents : (b : WriteBatch) → Represents (WriteBatch.clear b) 0 []
unfolding WriteBatch.clear
clear-Represents b = record { bytes = refl; seq_fits = omega arith; count_fits = omega arith }

put_bytes :
    (rep : List ℕ) (t : ℕ) (key : Slice)
    → length key < 2 ^ 32
    → put_length_prefixed_slice (rep ++ (t ∷ [])) key ≡ rep ++ (t ∷ varstring key)
put_bytes rep t key h =
    put_length_prefixed_slice-append (rep ++ (t ∷ [])) key
    ∙ rw (put_length_prefixed_slice-groups key h) (append_assoc rep (t ∷ []) (varstring key))

pub with_put-Represents :
    (b : WriteBatch) (seq : ℕ) (us : List Update) (key value : Slice)
    → Represents b seq us
    → Fits (Update.put key value)
    → length us + 1 < 2 ^ 32
    → Represents (WriteBatch.with_put b key value) seq (us ++ (Update.put key value ∷ []))
unfolding WriteBatch.with_put
with_put-Represents b seq us key value r fits h =
    grow-Represents b seq us (Update.put key value ∷ []) (WriteBatch.with_put b key value) r h (
      put_length_prefixed_slice-append _ value
      ∙ rw (put_bytes rep 1 key fits.0, put_length_prefixed_slice-groups value fits.1)
          (simp (append_assoc, append-nil)))
  where
    rep : List ℕ
    rep = (WriteBatch.set_count b ((WriteBatch.count b + 1) % 2 ^ 32)).rep

-- The count can be raised by `n`.
sum_fits :
    (b : WriteBatch) (seq : ℕ) (us : List Update) (n : ℕ)
    → Represents b seq us
    → length us + n < 2 ^ 31
    → int_sum_fits (WriteBatch.count b) n ≡ true
unfolding int_sum_fits
sum_fits b seq us n r small =
    rw (count-batch_bytes b seq (length us) (data_bytes us) r.bytes r.count_fits)
      (ground (arith, small))

-- `Put` of a key and a value of less than 2^32 bytes each is defined where the count stays below 2^31,
-- and adds one update at the end, in the documented format, keeping the sequence number.
pub put-Represents :
    (b : WriteBatch) (seq : ℕ) (us : List Update) (key value : Slice)
    → Represents b seq us
    → length key < 2 ^ 32
    → length value < 2 ^ 32
    → length us + 1 < 2 ^ 31
    → (b' : WriteBatch) × (WriteBatch.put b key value ≡ some b')
      × Represents b' seq (us ++ (Update.put key value ∷ []))
unfolding WriteBatch.put
put-Represents b seq us key value r key_fits value_fits small = (
  WriteBatch.with_put b key value,
  rw (sum_fits b seq us 1 r small) refl,
  with_put-Represents b seq us key value r (key_fits, value_fits) (omega arith),
)

-- `Delete` of a key of less than 2^32 bytes is defined where the count stays below 2^31, and adds one
-- update at the end, keeping the sequence number.
delete-Represents :
    (b : WriteBatch) (seq : ℕ) (us : List Update) (key : Slice)
    → Represents b seq us
    → length key < 2 ^ 32
    → length us + 1 < 2 ^ 31
    → (b' : WriteBatch) × (WriteBatch.delete b key ≡ some b')
      × Represents b' seq (us ++ (Update.delete key ∷ []))
unfolding WriteBatch.delete WriteBatch.with_deletion
delete-Represents b seq us key r fits small = (
  WriteBatch.with_deletion b key,
  rw (sum_fits b seq us 1 r small) refl,
  grow-Represents b seq us (Update.delete key ∷ []) (WriteBatch.with_deletion b key) r (omega arith)
      (put_bytes _ 0 key fits ∙ simp append-nil),
)

pub with_appended-Represents :
    (dst src : WriteBatch) (seq seq' : ℕ) (us vs : List Update)
    → Represents dst seq us
    → Represents src seq' vs
    → length us + length vs < 2 ^ 32
    → Represents (WriteBatch.with_appended dst src) seq (us ++ vs)
unfolding WriteBatch.with_appended
with_appended-Represents dst src seq seq' us vs r r' h =
    grow-Represents dst seq us vs (WriteBatch.with_appended dst src) r h (
      rw (
        data-batch_bytes src seq' (length vs) (data_bytes vs) r'.bytes,
        count-batch_bytes src seq' (length vs) (data_bytes vs) r'.bytes r'.count_fits,
      ))

-- `Append` is defined where the sum of the counts is below 2^31, and adds the updates of `src` behind those
-- of `dst`, in their order, keeping the sequence number of `dst`.
pub append-Represents :
    (dst src : WriteBatch) (seq seq' : ℕ) (us vs : List Update)
    → Represents dst seq us
    → Represents src seq' vs
    → length us + length vs < 2 ^ 31
    → (b : WriteBatch) × (WriteBatch.append dst src ≡ some b) × Represents b seq (us ++ vs)
unfolding WriteBatch.append
append-Represents dst src seq seq' us vs r r' small = (
  WriteBatch.with_appended dst src,
  rw
      (
        count-batch_bytes src seq' (length vs) (data_bytes vs) r'.bytes r'.count_fits,
        sum_fits dst seq us (length vs) r small,
      )
      refl,
  with_appended-Represents dst src seq seq' us vs r r' (omega arith),
)

-- `Count` and `Sequence` read what the batch holds, `SetSequence` replaces the sequence number
-- alone, and `ApproximateSize` is the number of bytes, 12 of them the header.
pub Represents-reads :
    (b : WriteBatch) (seq seq' : ℕ) (us : List Update)
    → Represents b seq us
    → seq' < 2 ^ 64
    → (WriteBatch.count b ≡ length us)
      × (WriteBatch.sequence b ≡ seq)
      × Represents (WriteBatch.set_sequence b seq') seq' us
      × (WriteBatch.approximate_size b ≡ 12 + length (data_bytes us))
unfolding WriteBatch.sequence WriteBatch.set_sequence WriteBatch.approximate_size encode_fixed64
    decode_fixed64
Represents-reads b seq seq' us r h = (
  count-batch_bytes b seq (length us) (data_bytes us) r.bytes r.count_fits,
  rw r.bytes (decode_fixed64_bytes seq (fixed32_bytes (length us) ++ data_bytes us) r.seq_fits),
  record { bytes = rw r.bytes; seq_fits = h; count_fits = r.count_fits },
  rw r.bytes (omega arith),
)
