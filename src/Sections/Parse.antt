-- ===== src/Sections/Parse.antt =====
-- What `ParseSectionFile` of example-str-utils/section.cc makes of the lines of a file.
use mathlib.Core.List.{reverse, reverse-cons}
use mathlib.Core.Logic.{if_pos, if_neg}
use c_plus_plus_examples.Base.{
  ◌≡◌, refl, sym, ◌∙◌, ◌≢◌, Bool, true, false, Option, none, some, List, [], ◌∷◌, ◌++◌,
  append_assoc, append-nil, arith, if◌then◌else◌,
}
use c_plus_plus_examples.Base.Chain.{◌>>=◌}
use c_plus_plus_examples.Base.Map.{find, emplace, assign, find-append, find-emplace, find-assign}
use c_plus_plus_examples.Sections.{
  Bytes, Bytes-discrete, Section, Sections, is_empty, set_value, new_section, emplace_current,
  parse_lines, parse_section_file,
}
use c_plus_plus_examples.Sections.Document.{
  Line, empty, comment, header, entry, IsValid, Written, entries, groups, meaning, lookup,
}
use c_plus_plus_examples.Sections.Lines.{
  trim-content, not_empty, parse_empty, parse_comment, parse_header, parse_keyed,
}

-- The entries in the map of a section.
unfoldable store : List (Bytes × Bytes) → List (Bytes × Bytes) → List (Bytes × Bytes)
store [] kvs = kvs
store ((key, value) ∷ ks) kvs = store ks (assign Bytes-discrete key value kvs)

unfoldable built : List (Bytes × List (Bytes × Bytes)) → Sections
built [] = []
built ((name, ks) ∷ gs) = (name, record { name = name; kvs = store ks [] }) ∷ built gs

-- The section at hand with the entries that follow.
unfoldable now : Section → List (Bytes × Bytes) → Sections
now curr ks =
    if is_empty curr.name
    then []
    else (curr.name, record { name = curr.name; kvs = store ks curr.kvs }) ∷ []

find-store :
    (key : Bytes) (ks kvs : List (Bytes × Bytes))
    → find Bytes-discrete key (store ks kvs) ≡ find Bytes-discrete key (reverse ks ++ kvs)
unfolding store
find-store key [] kvs = refl
find-store key ((k, v) ∷ ks) kvs =
    let d = Bytes-discrete in
    rw
      (
        find-store key ks (assign d k v kvs),
        find-append d key (reverse ks) (assign d k v kvs),
        find-assign d k key v kvs,
        reverse-cons (k, v) ks,
        append_assoc (reverse ks) ((k, v) ∷ []) kvs,
        find-append d key (reverse ks) ((k, v) ∷ kvs),
      )
      refl

lookup-built :
    (name key : Bytes) (gs : List (Bytes × List (Bytes × Bytes)))
    → lookup name key (built gs)
      ≡ (find Bytes-discrete name gs >>= λ ks. find Bytes-discrete key (reverse ks))
unfolding lookup built find
lookup-built name key [] = refl
lookup-built name key ((n, ks) ∷ gs) = elim (Bytes-discrete n name) [
  | yes p ↦ rw (if_pos _ p, if_pos _ p, find-store key ks [], append-nil (reverse ks)) refl
  | no p ↦ rw (if_neg _ p, if_neg _ p) (lookup-built name key gs)
]

find-emplace_current :
    (n : Bytes) (curr : Section) (sections : Sections)
    → find Bytes-discrete n (emplace_current curr sections)
      ≡ find Bytes-discrete n (sections ++ now curr [])
unfolding emplace_current now store
find-emplace_current n curr sections = by_name (is_empty curr.name) refl
  where
    by_name :
        (b : Bool)
        → is_empty curr.name ≡ b
        → find Bytes-discrete n
            (if b then sections else emplace Bytes-discrete curr.name curr sections)
          ≡ find Bytes-discrete n (sections ++ (if b then [] else (curr.name, curr) ∷ []))
    by_name true e = rw append-nil refl
    by_name false e =
        find-emplace Bytes-discrete curr.name n curr sections
        ∙ sym (find-append Bytes-discrete n sections ((curr.name, curr) ∷ []))

-- The end of the loop and of `ParseSectionFile`: the sections that are there, the one at hand with its
-- entries, and those that follow.
Reads : List Bytes → List Line → Section → Sections → Type 0
Reads raws lines curr sections =
    (t : Section × Sections) × (parse_lines raws curr sections ≡ some t)
    × ((n : Bytes)
        → find Bytes-discrete n (emplace_current t.0 t.1)
          ≡ find Bytes-discrete n (sections ++ (now curr (entries lines) ++ built (groups lines))))

-- A header ends the section at hand.
header_moves :
    (n name : Bytes) (curr : Section) (sections : Sections) (ks : List (Bytes × Bytes))
    (more : Sections)
    → name ≢ []
    → find Bytes-discrete n
        (emplace_current curr sections ++ (now (record { name = name; kvs = [] }) ks ++ more))
      ≡ find Bytes-discrete n
          (sections ++ (now curr [] ++ ((name, record { name = name; kvs = store ks [] }) ∷ more)))
unfolding now
header_moves n name curr sections ks more some_name =
    let new = (name, record { name = name; kvs = store ks [] }) ∷ more in
    rw
      (
        not_empty name some_name,
        find-append Bytes-discrete n (emplace_current curr sections) new,
        find-emplace_current n curr sections,
        sym (find-append Bytes-discrete n (sections ++ now curr []) new),
        append_assoc sections (now curr []) new,
      )
      refl

set_value-named :
    (curr : Section) (key value : Bytes)
    → is_empty curr.name ≡ false
    → set_value curr key value
      ≡ some (record curr { kvs = assign Bytes-discrete key value curr.kvs })
unfolding set_value
set_value-named curr key value named = rw named refl

has_name :
    (b : Bool) {e : Bytes × Bytes} {es : List (Bytes × Bytes)}
    → (b ≡ true → e ∷ es ≡ [])
    → b ≡ false
has_name true h = absurd (ground (arith, h refl))
has_name false h = refl

parse_lines-Reads :
    (raws : List Bytes) (lines : List Line) (curr : Section) (sections : Sections)
    → Written raws lines
    → (is_empty curr.name ≡ true → curr.kvs ≡ [])
    → (is_empty curr.name ≡ true → entries lines ≡ [])
    → Reads raws lines curr sections
unfolding Reads Written entries groups built parse_lines IsValid now store
parse_lines-Reads [] [] curr sections w fresh none_first =
    ((curr, sections), refl, λ n. rw append-nil (find-emplace_current n curr sections))
parse_lines-Reads (raw ∷ raws) (empty ∷ lines) curr sections (v, padded, w) fresh none_first =
    let e = parse_empty raw curr sections (trim-content raw empty v padded) in
    rw e (parse_lines-Reads raws lines curr sections w fresh none_first)
parse_lines-Reads (raw ∷ raws) (comment q s ∷ lines) curr sections (v, padded, w) fresh none_first =
    let e = parse_comment raw curr sections q s (trim-content raw (comment q s) v padded) in
    rw e (parse_lines-Reads raws lines curr sections w fresh none_first)
parse_lines-Reads (raw ∷ raws) (header name ∷ lines) curr sections (v, padded, w) fresh none_first =
    let e = parse_header raw curr sections name (trim-content raw (header name) v padded) fresh in
    let (t, run, found) =
      parse_lines-Reads raws lines (record { name = name; kvs = [] })
        (emplace_current curr sections) w (λ h. refl)
        (λ h. absurd (ground (arith, h, not_empty name v))) in
    rw e (
      t,
      run,
      λ n. found n ∙ header_moves n name curr sections (entries lines) (built (groups lines)) v,
    )
parse_lines-Reads (raw ∷ raws) (entry k b d u ∷ lines) curr sections (v, padded, w) fresh
      none_first =
    let named = has_name (is_empty curr.name) none_first in
    let e = parse_keyed raw curr sections k b d u v (trim-content raw (entry k b d u) v padded) in
    let curr' = record curr { kvs = assign Bytes-discrete k u curr.kvs } in
    let unnamed : is_empty curr.name ≡ true → ⊥ = λ h. ground (arith, h, named) in
    let (t, run, found) =
      parse_lines-Reads raws lines curr' sections w (λ h. absurd (unnamed h))
        (λ h. absurd (unnamed h)) in
    rw (e, set_value-named curr k u named) (t, run, found)
parse_lines-Reads (raw ∷ raws) [] curr sections w fresh none_first = absurd w
parse_lines-Reads [] (line ∷ lines) curr sections w fresh none_first = absurd w

-- An entry before the first header makes the assertion of `Set` fail.
parse_lines_stray :
    (raws : List Bytes) (lines : List Line) (sections : Sections)
    → Written raws lines
    → entries lines ≢ []
    → parse_lines raws new_section sections ≡ none
unfolding Written entries parse_lines new_section
parse_lines_stray [] [] sections w stray = absurd (stray refl)
parse_lines_stray (raw ∷ raws) (empty ∷ lines) sections (v, padded, w) stray =
    rw (parse_empty raw new_section sections (trim-content raw empty v padded))
      (parse_lines_stray raws lines sections w stray)
parse_lines_stray (raw ∷ raws) (comment q s ∷ lines) sections (v, padded, w) stray =
    rw (parse_comment raw new_section sections q s (trim-content raw (comment q s) v padded))
      (parse_lines_stray raws lines sections w stray)
parse_lines_stray (raw ∷ raws) (header name ∷ lines) sections w stray = absurd (stray refl)
parse_lines_stray (raw ∷ raws) (entry k b d u ∷ lines) sections (v, padded, w) stray =
    rw (parse_keyed raw new_section sections k b d u v (trim-content raw (entry k b d u) v padded))
      refl
parse_lines_stray (raw ∷ raws) [] sections w stray = absurd w
parse_lines_stray [] (line ∷ lines) sections w stray = absurd w

module _ (read_lines : Bytes → Option (List Bytes)) (filename : Bytes) where
  -- A file whose lines are in the format, with no entry before the first header, is read to its end: a key of a
  -- section has the value of its last entry under the first header of that name. Under a later header of the
  -- same name the entries are dropped.
  pub parse_section_file-meaning :
      (raws : List Bytes) (lines : List Line)
      → read_lines filename ≡ some raws
      → Written raws lines
      → entries lines ≡ []
      → (sections : Sections) × (parse_section_file read_lines filename [] ≡ some (true, sections))
        × ((name key : Bytes) → lookup name key sections ≡ meaning name key lines)
  unfolding parse_section_file Reads new_section now lookup meaning
  parse_section_file-meaning raws lines e w none_first =
      let ((curr, sections), run, found) =
        parse_lines-Reads raws lines new_section [] w (λ h. refl) (λ h. none_first) in
      (
        emplace_current curr sections,
        rw (parse_section_file, e, run) refl,
        λ name key. rw (found name) (lookup-built name key (groups lines)),
      )

  -- A file whose lines are in the format, with an entry before the first header, ends the program by a
  -- failed assertion.
  pub parse_section_file_stray :
      (raws : List Bytes) (lines : List Line)
      → read_lines filename ≡ some raws
      → Written raws lines
      → entries lines ≢ []
      → parse_section_file read_lines filename [] ≡ none
  unfolding parse_section_file
  parse_section_file_stray raws lines e w stray =
      rw (parse_section_file, e, parse_lines_stray raws lines [] w stray) refl
