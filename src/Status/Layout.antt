-- ===== src/Status/Layout.antt =====
-- The layout of a status's array, and what its readers make of it.
use c_plus_plus_examples.Base.{
  ℕ, ◌+◌, ◌%◌, ◌^◌, ◌<◌, ◌≡◌, refl, sym, ap, ◌∙◌, some, List, [], ◌∷◌, ◌++◌, append_assoc,
  append-nil, ◌==◌, if◌then◌else◌, length, length-append, set, take-length, replicate, arith,
}
use c_plus_plus_examples.Coding.Fixed.{fixed32_bytes, decode_fixed32_bytes}
use c_plus_plus_examples.Slice.{Slice}
use c_plus_plus_examples.Status.{
  Code, code_value, Status, memcpy, put_message, error_status, code, copy_state, copy, codes,
  type_text, to_string,
}
use native.Mathlib.Nat.{add-zero, zero-add, suc-add}
use native.Mathlib.Numerals.{towards_suc}

set-length-append :
    (pre post : List ℕ) (y x : ℕ) → set (pre ++ (y ∷ post)) (length pre) x ≡ pre ++ (x ∷ post)
set-length-append [] post y x = refl
set-length-append (z ∷ pre) post y x = ap (◌∷◌ z) (set-length-append pre post y x)

-- A copy into the unwritten part of a buffer, directly behind what was written.
memcpy-append :
    (pre src : List ℕ) (k : ℕ)
    → memcpy (pre ++ replicate (length src + k) 0) (length pre) src ≡ pre ++ (src ++ replicate k 0)
unfolding memcpy
memcpy-append pre [] k = rw zero-add
memcpy-append pre (x ∷ src) k =
    rw (suc-add, set-length-append, end, ← whole)
      (memcpy-append (pre ++ (x ∷ [])) src k ∙ append_assoc pre (x ∷ []) _)
  where
    end : length pre + 1 ≡ length (pre ++ (x ∷ []))
    end = omega (arith, length-append pre (x ∷ []))

    whole :
        (pre ++ (x ∷ [])) ++ replicate (length src + k) 0
        ≡ pre ++ (x ∷ replicate (length src + k) 0)
    whole = append_assoc pre (x ∷ []) _

memcpy_at :
    (pre src : List ℕ) (k at n : ℕ)
    → at ≡ length pre
    → n ≡ length src + k
    → memcpy (pre ++ replicate n 0) at src ≡ (pre ++ src) ++ replicate k 0
memcpy_at pre src k at n p q = rw (p, q, append_assoc) (memcpy-append pre src k)

-- The part of the array behind the header: the messages, with ": " between them if there are two.
abbrev pub message : Slice → Slice → List ℕ
message msg1 [] = msg1
message msg1 (y ∷ msg2) = msg1 ++ (b':' ∷ b' ' ∷ y ∷ msg2)

abbrev pub header : ℕ → ℕ → List ℕ
header size c = fixed32_bytes size ++ (c ∷ [])

written_header :
    (size c : ℕ)
    → set (memcpy (replicate (size + 5) 0) 0 (fixed32_bytes size)) 4 c
      ≡ header size c ++ replicate size 0
unfolding memcpy
written_header size c = simp towards_suc

-- ": " and the second message, written behind the first.
write_second :
    (pre msg2 : List ℕ) (n n1 n2 size : ℕ)
    → n ≡ length pre
    → n1 ≡ n + 1
    → n2 ≡ n + 1 + 1
    → size ≡ 2 + length msg2
    → memcpy (set (set (pre ++ replicate size 0) n b':') n1 b' ') n2 msg2
      ≡ pre ++ (b':' ∷ b' ' ∷ msg2)
unfolding memcpy
write_second pre msg2 n n1 n2 size h e1 e2 e =
    rw (e1, e2, e)
      (memcpy_at pre (b':' ∷ b' ' ∷ msg2) 0 n (2 + length msg2) h (omega arith) ∙ append-nil _)

put_message_lem :
    (head msg1 msg2 : List ℕ)
    → length head ≡ 5
    → put_message
        (head ++ replicate (length (message msg1 msg2)) 0)
        (length msg1)
        (length msg2)
        msg1
        msg2
      ≡ head ++ message msg1 msg2
unfolding put_message
put_message_lem head msg1 [] h =
    rw take-length
      (memcpy_at head msg1 0 5 _ (sym h) (sym (add-zero _)) ∙ append-nil (head ++ msg1))
put_message_lem head msg1 (y ∷ msg2) h = ground (
  arith,
  take-length msg1,
  memcpy_at head msg1 (3 + length msg2) 5 (length (message msg1 (y ∷ msg2))) (sym h)
      (omega (arith, length-append msg1 (b':' ∷ b' ' ∷ y ∷ msg2))),
  write_second (head ++ msg1) (y ∷ msg2) (5 + length msg1) (6 + length msg1) (5 + length msg1 + 2)
      (3 + length msg2) (omega (arith, length-append head msg1)) (omega arith) (omega arith)
      (omega arith),
  append_assoc head msg1 (b':' ∷ b' ' ∷ y ∷ msg2),
)

length-message :
    (msg1 msg2 : Slice)
    → length (message msg1 msg2) ≡ length msg1 + (if length msg2 == 0 then 0 else length msg2 + 2)
length-message msg1 [] = omega arith
length-message msg1 (y ∷ msg2) = ground (arith, length-append msg1 (b':' ∷ b' ' ∷ y ∷ msg2))

-- The constructor writes the size of the message, the code and the message, the two texts with ": "
-- between them, and fills the array exactly, if the whole fits 2 ^ 32 bytes.
error_status_state :
    (c : Code) (msg1 msg2 : Slice)
    → length (message msg1 msg2) + 5 < 2 ^ 32
    → (error_status c msg1 msg2).state
      ≡ some (header (length (message msg1 msg2)) (code_value c) ++ message msg1 msg2)
unfolding error_status
error_status_state c msg1 msg2 h = ap some (
    rw (small1, small2, ← length-message msg1 msg2, small, small5, written_header)
      (put_message_lem (header size (code_value c)) msg1 msg2 refl))
  where
    size : ℕ
    size = length (message msg1 msg2)

    small : size % 2 ^ 32 ≡ size
    small = omega arith

    small5 : (size + 5) % 2 ^ 32 ≡ size + 5
    small5 = omega arith

    small1 : length msg1 % 2 ^ 32 ≡ length msg1
    small1 = ground (arith, length-message msg1 msg2)

    small2 : length msg2 % 2 ^ 32 ≡ length msg2
    small2 = ground (arith, length-message msg1 msg2)

-- `code()` returns the code that an error status was made with, so each of its tests is true of
-- its own constructor only.
pub code-error_status :
    (c : Code) (msg1 msg2 : Slice)
    → length (message msg1 msg2) + 5 < 2 ^ 32
    → code (error_status c msg1 msg2) ≡ code_value c
unfolding code
code-error_status c msg1 msg2 h = rw (error_status_state c msg1 msg2 h)

copy_state-header :
    (size c : ℕ) (m : List ℕ)
    → size ≡ length m
    → size + 5 < 2 ^ 32
    → copy_state (header size c ++ m) ≡ header size c ++ m
unfolding copy_state
copy_state-header size c m e h =
    rw (decode_fixed32_bytes size (c ∷ m) (omega arith), small, ← whole, take-length)
      (memcpy_at [] (header size c ++ m) 0 0 _ refl (sym (add-zero _)) ∙ append-nil _)
  where
    small : (size + 5) % 2 ^ 32 ≡ size + 5
    small = omega arith

    whole : length (header size c ++ m) ≡ size + 5
    whole = omega arith

-- A copy of an error status has the same array.
copy-error_status :
    (c : Code) (msg1 msg2 : Slice)
    → length (message msg1 msg2) + 5 < 2 ^ 32
    → copy (error_status c msg1 msg2) ≡ error_status c msg1 msg2
unfolding copy
copy-error_status c msg1 msg2 h = ground (
  arith,
  error_status_state c msg1 msg2 h,
  copy_state-header (length (message msg1 msg2)) (code_value c) (message msg1 msg2) refl h,
)

-- The prefix of each code.
abbrev pub type_name : Code → List ℕ
type_name Code.k_ok = codes "OK"
type_name Code.k_not_found = codes "NotFound: "
type_name Code.k_corruption = codes "Corruption: "
type_name Code.k_not_supported = codes "NotSupported: "
type_name Code.k_invalid_argument = codes "InvalidArgument: "
type_name Code.k_io_error = codes "IOError: "

type_text-code_value :
    (unknown : ℕ → List ℕ) (c : Code) → type_text unknown (code_value c) ≡ type_name c
unfolding type_text
type_text-code_value unknown Code.k_ok = refl
type_text-code_value unknown Code.k_not_found = refl
type_text-code_value unknown Code.k_corruption = refl
type_text-code_value unknown Code.k_not_supported = refl
type_text-code_value unknown Code.k_invalid_argument = refl
type_text-code_value unknown Code.k_io_error = refl

to_string-header :
    (unknown : ℕ → List ℕ) (s : Status) (size c : ℕ) (m : List ℕ)
    → s.state ≡ some (header size c ++ m)
    → size ≡ length m
    → size < 2 ^ 32
    → to_string unknown s ≡ type_text unknown c ++ m
unfolding to_string code
to_string-header unknown s size c m e f h =
    rw (e, to_string) (rw (decode_fixed32_bytes size (c ∷ m) h, f, take-length, e, code))

-- `ToString` of an error status is the prefix of its code, the first text, and, unless the second
-- text is empty, ": " and the second text; the text for an unknown code never shows.
to_string-error_status :
    (unknown : ℕ → List ℕ) (c : Code) (msg1 msg2 : Slice)
    → length (message msg1 msg2) + 5 < 2 ^ 32
    → to_string unknown (error_status c msg1 msg2) ≡ type_name c ++ message msg1 msg2
to_string-error_status unknown c msg1 msg2 h =
    to_string-header unknown (error_status c msg1 msg2) _ (code_value c) (message msg1 msg2)
      (error_status_state c msg1 msg2 h) refl (omega arith)
    ∙ rw type_text-code_value
