-- ===== src/Status/Tests.antt =====
-- Runs of common/status.cc, and its theorems at inputs.
use c_plus_plus_examples.Base.{ℕ, ◌≡◌, refl, true, false, List, [], arith}
use c_plus_plus_examples.Coding.{decode_fixed32}
use c_plus_plus_examples.Status.{
  Code, codes, memcpy, error_status, not_found, ok_status, is_ok, is_not_found, is_io_error, code,
  to_string, type_text,
}
use c_plus_plus_examples.Status.Layout.{code-error_status}

abbrev no_number : ℕ → List ℕ
no_number c = codes "Unknow code(?)"

not_found_run :
    to_string no_number (not_found (codes "a.txt") (codes "missing"))
    ≡ codes "NotFound: a.txt: missing"
unfolding not_found error_status memcpy to_string code type_text decode_fixed32
not_found_run = refl

tests_run :
    (is_ok ok_status ≡ true)
    × (is_not_found (not_found (codes "a") []) ≡ true)
    × (is_io_error (not_found (codes "a") []) ≡ false)
unfolding is_ok ok_status is_not_found is_io_error not_found error_status memcpy code
tests_run = (refl, refl, refl)

code-error_status_example : code (error_status Code.k_io_error (codes "a") (codes "b")) ≡ 5
code-error_status_example = code-error_status Code.k_io_error (codes "a") (codes "b") (omega arith)
