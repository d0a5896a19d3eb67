-- ===== src/Sections.antt =====
-- example-str-utils/section.h, section.cc and common/strutils.h: the sections of an options file.
-- A string is its bytes. What the C++ library does, `std::toupper`, `std::stol`, `std::stoul` and the
-- reading of lines, is a parameter; a conversion that throws is `none`.
pub mod Get
pub mod Trim
pub mod Document
pub mod Lines
pub mod Parse
mod Tests
use mathlib.Core.List.{reverse}
use c_plus_plus_examples.Base.{
  ℕ, zero, suc, ◌-◌, ◌+◌, ◌^◌, ◌%◌, ◌≡◌, ◌≢◌, refl, sym, arith, Bool, true, false, not, Option,
  none, some, List, [], ◌∷◌, ◌++◌, map, length, take, drop, get_or, ltb, leb, ◌==◌, ◌&&◌, ◌||◌,
  if◌then◌else◌, ℕ_discrete,
}
use c_plus_plus_examples.Base.Chain.{◌>>=◌, ◌>>◌, check}
use c_plus_plus_examples.Base.Map.{find, emplace, assign}

abbrev pub Bytes : Type 0
Bytes = List ℕ

pub head_ne : {c d : ℕ} {s t : Bytes} → c ≢ d → c ∷ s ≢ d ∷ t
head_ne h e = ground (arith, e, h)

pub tail_ne : {c d : ℕ} {s t : Bytes} → s ≢ t → c ∷ s ≢ d ∷ t
tail_ne h e = ground (arith, e, h)

pub nil_ne : {c : ℕ} {s : Bytes} → c ∷ s ≢ []
nil_ne e = ground (arith, e)

-- Whether two strings are the same.
unfoldable pub Bytes-discrete : Discrete Bytes
unfolding ℕ_discrete
Bytes-discrete [] [] = yes refl
Bytes-discrete [] (d ∷ t) = no (λ e. nil_ne (sym e))
Bytes-discrete (c ∷ s) [] = no nil_ne
Bytes-discrete (c ∷ s) (d ∷ t) =
    let rest = Bytes-discrete s t in
    elim (ℕ_discrete c d) [
      | yes p ↦ elim rest [ yes q ↦ yes cc | no q ↦ no (tail_ne q) ]
      | no p ↦ no (head_ne p)
    ]

abbrev pub is_blank : ℕ → Bool
is_blank c = c == b' ' || c == b'\t'

unfoldable pub ltrim : Bytes → Bytes
ltrim [] = []
ltrim (c ∷ s) = if is_blank c then ltrim s else c ∷ s

unfoldable pub rtrim : Bytes → Bytes
unfolding ltrim
rtrim s = reverse (ltrim (reverse s))

unfoldable pub trim : Bytes → Bytes
unfolding ltrim rtrim
trim s = ltrim (rtrim s)

unfoldable pub to_upper : (ℕ → ℕ) → Bytes → Bytes
to_upper upper s = map upper s

pub record Section : Type 0 where
  pub name : Bytes
  pub kvs : List (Bytes × Bytes)

unfoldable pub new_section : Section
new_section = record { name = []; kvs = [] }

abbrev pub is_empty : Bytes → Bool
is_empty s = length s == 0

unfoldable pub clear : Section → Section
clear s = record { name = []; kvs = [] }

unfoldable pub set_name : Section → Bytes → Section
set_name s name = record s { name = name }

-- `Set`, with `none` for the assertion that fails.
unfoldable pub set_value : Section → Bytes → Bytes → Option Section
unfolding assign
set_value s key value = do
  check (not (is_empty s.name))
  some (record s { kvs = assign Bytes-discrete key value s.kvs })

abbrev pub Sections : Type 0
Sections = List (Bytes × Section)

-- The position of the first `c`, with `none` for `npos`.
unfoldable pub find_char : ℕ → Bytes → Option ℕ
find_char c [] = none
find_char c (d ∷ s) =
    if d == c then some 0 else elim (find_char c s) [ none ↦ none | some i ↦ some (suc i) ]

-- `sections->emplace(curr.Name(), curr)` unless `curr` is empty.
unfoldable pub emplace_current : Section → Sections → Sections
unfolding emplace
emplace_current curr sections =
    if is_empty curr.name then sections else emplace Bytes-discrete curr.name curr sections

-- A line that is no comment and no section's name.
unfoldable pub parse_entry : Bytes → Section → Option Section
unfolding find_char trim set_value
parse_entry line curr = elim (find_char b'=' line) [
  | none ↦ some curr
  | some equal_pos ↦
      let key = trim (take equal_pos line) in
      let value = trim (drop (equal_pos + 1) line) in
      if is_empty key || is_empty value then some curr else set_value curr key value
]

-- `curr` behind a line with a section's name in brackets.
unfoldable pub start_section : Bytes → Section → Section
unfolding clear set_name
start_section line curr =
    let cleared = if is_empty curr.name then curr else clear curr in
    set_name cleared (take (length line - 2) (drop 1 line))

-- The `while` loop, one line in a round.
unfoldable pub parse_line : Bytes → Section → Sections → Option (Section × Sections)
unfolding trim start_section emplace_current parse_entry
parse_line raw curr sections =
    let line = trim raw in
    let first = get_or line 0 0 in
    if is_empty line
    then some (curr, sections)
    else if first == b'#' || first == b'"'
    then some (curr, sections)
    else if first == b'[' && get_or line (length line - 1) 0 == b']'
    then some (start_section line curr, emplace_current curr sections)
    else do curr' ← parse_entry line curr; some (curr', sections)

unfoldable pub parse_lines : List Bytes → Section → Sections → Option (Section × Sections)
unfolding parse_line
parse_lines [] curr sections = some (curr, sections)
parse_lines (line ∷ lines) curr sections = do
  (curr', sections') ← parse_line line curr sections
  parse_lines lines curr' sections'

-- `ParseSectionFile`, with the reading of a file's lines as a parameter, `none` if it cannot be opened.
unfoldable pub parse_section_file :
    (Bytes → Option (List Bytes)) → Bytes → Sections → Option (Bool × Sections)
unfolding parse_lines new_section emplace_current
parse_section_file read_lines filename sections = elim (read_lines filename) [
  | none ↦ some (false, sections)
  | some lines ↦ do
    (curr, sections') ← parse_lines lines new_section sections
    some (true, emplace_current curr sections')
]
