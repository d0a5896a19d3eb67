-- ===== src/Status.antt =====
-- common/status.h, common/status.cc: the class `Status`. A status is its `state_`: `none` for the
-- null pointer of OK, else the bytes of the array. Copies are deep, so a status is a value, and the
-- destructor has nothing left to do. The host is little-endian, as where the program runs.

pub mod Layout
mod Tests
use Prim.Native.Char.{code as char_code}
use Prim.Native.String
use Prim.Native.String.{String}
use c_plus_plus_examples.Base.{
  ℕ, zero, suc, ◌+◌, ◌%◌, ◌^◌, ◌≡◌, Bool, true, false, Option, none, some, List, [], ◌∷◌, ◌++◌,
  ◌==◌, if◌then◌else◌, length, set, get_or, take, drop, replicate,
}
use c_plus_plus_examples.Coding.{decode_fixed32}
use c_plus_plus_examples.Coding.Fixed.{fixed32_bytes}
use c_plus_plus_examples.Slice.{Slice}

-- The characters of a literal.
abbrev pub codes : String → List ℕ
codes String.[] = []
codes (String.◌∷◌ c s) = char_code c ∷ codes s

pub data Code : Type 0 where
  k_ok k_not_found k_corruption k_not_supported k_invalid_argument k_io_error : Code

abbrev pub code_value : Code → ℕ
code_value Code.k_ok = 0
code_value Code.k_not_found = 1
code_value Code.k_corruption = 2
code_value Code.k_not_supported = 3
code_value Code.k_invalid_argument = 4
code_value Code.k_io_error = 5

pub record Status : Type 0 where
  pub state : Option (List ℕ)

-- `std::memcpy` to offset `at` of a buffer; a byte behind the end of the buffer is lost.
unfoldable pub memcpy : List ℕ → ℕ → List ℕ → List ℕ
memcpy buf at [] = buf
memcpy buf at (x ∷ src) = memcpy (set buf at x) (at + 1) src

-- `msg1` and `msg2` as they lie behind the header: the second after ": ", unless it is empty.
put_message : List ℕ → ℕ → ℕ → Slice → Slice → List ℕ
put_message buf len1 len2 msg1 msg2 =
    let buf = memcpy buf 5 (take len1 msg1) in
    if len2 == 0
    then buf
    else (let buf = set buf (5 + len1) b':' in
        let buf = set buf (6 + len1) b' ' in memcpy buf (5 + len1 + 2) msg2)

-- The private constructor. Its `assert(code != kOk)` holds at each of the five calls below.
unfoldable pub error_status : Code → Slice → Slice → Status
unfolding put_message
error_status code msg1 msg2 =
    let len1 = length msg1 % 2 ^ 32 in
    let len2 = length msg2 % 2 ^ 32 in
    let size = (len1 + (if len2 == 0 then 0 else len2 + 2)) % 2 ^ 32 in
    let result = replicate ((size + 5) % 2 ^ 32) 0 in
    let result = memcpy result 0 (fixed32_bytes size) in
    let result = set result 4 (code_value code) in
    record { state = some (put_message result len1 len2 msg1 msg2) }

unfoldable pub ok_status : Status
ok_status = record { state = none }

unfoldable pub not_found : Slice → Slice → Status
not_found = error_status Code.k_not_found

unfoldable pub corruption : Slice → Slice → Status
corruption = error_status Code.k_corruption

unfoldable pub not_supported : Slice → Slice → Status
not_supported = error_status Code.k_not_supported

unfoldable pub invalid_argument : Slice → Slice → Status
invalid_argument = error_status Code.k_invalid_argument

unfoldable pub io_error : Slice → Slice → Status
io_error = error_status Code.k_io_error

unfoldable pub is_ok : Status → Bool
is_ok s = elim s.state [ none ↦ true | some _ ↦ false ]

-- `Status::code()`, as the number that the byte holds.
unfoldable pub code : Status → ℕ
code s = elim s.state [ none ↦ 0 | some state ↦ get_or state 4 0 ]

unfoldable pub is_not_found : Status → Bool
is_not_found s = code s == 1

unfoldable pub is_corruption : Status → Bool
is_corruption s = code s == 2

unfoldable pub is_not_supported : Status → Bool
is_not_supported s = code s == 3

unfoldable pub is_invalid_argument : Status → Bool
is_invalid_argument s = code s == 4

unfoldable pub is_io_error : Status → Bool
is_io_error s = code s == 5

-- `CopyState`: the size is read from the array, and as many bytes with the header are copied.
unfoldable pub copy_state : List ℕ → List ℕ
copy_state state =
    let size = decode_fixed32 state 0 in
    memcpy (replicate ((size + 5) % 2 ^ 32) 0) 0 (take ((size + 5) % 2 ^ 32) state)

-- The copy constructor, and the copy assignment between different objects.
unfoldable pub copy : Status → Status
copy rhs = record { state = elim rhs.state [ none ↦ none | some s ↦ some (copy_state s) ] }

-- The move assignment swaps: the target's new status, and what `rhs` is afterwards. The move
-- constructor is the case of an empty target.
unfoldable pub move_assign : Status → Status → Status × Status
move_assign this rhs = (rhs, this)

-- The prefix that `ToString` chooses by `code()`. What `snprintf` writes for a number that is no
-- code is a parameter.
unfoldable pub type_text : (ℕ → List ℕ) → ℕ → List ℕ
type_text unknown c =
    if c == 0
    then codes "OK"
    else if c == 1
    then codes "NotFound: "
    else if c == 2
    then codes "Corruption: "
    else if c == 3
    then codes "NotSupported: "
    else if c == 4
    then codes "InvalidArgument: "
    else if c == 5
    then codes "IOError: "
    else unknown c

unfoldable pub to_string : (ℕ → List ℕ) → Status → List ℕ
to_string unknown s = elim s.state [
  | none ↦ codes "OK"
  | some state ↦ type_text unknown (code s) ++ take (decode_fixed32 state 0) (drop 5 state)
]
