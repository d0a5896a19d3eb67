-- ===== src/Sections/Lines.antt =====
-- What one round of the loop of `ParseSectionFile` does with each kind of line.
use mathlib.Core.List.{reverse-append}
use native.Mathlib.Numerals.{unary_clauses}
use c_plus_plus_examples.Base.{
  ℕ, suc, ◌+◌, ◌-◌, ◌≡◌, refl, sym, ◌≢◌, Bool, true, false, some, [], ◌∷◌, ◌++◌, append_assoc,
  append-nil, arith, elem, elem_append, get_or, length, length-append, take, drop,
  take-length-append,
}
use c_plus_plus_examples.Base.Chain.{◌>>=◌}
use c_plus_plus_examples.Sections.{
  Bytes, Section, Sections, is_empty, trim, clear, set_name, set_value, find_char, start_section,
  emplace_current, parse_entry, parse_line,
}
use c_plus_plus_examples.Sections.Trim.{
  Blank, starts_bare, Solid, bare_before, padded-back, trim-padded,
}
use c_plus_plus_examples.Sections.Document.{
  Line, empty, comment, header, entry, content, IsKey, IsValid,
}

Solid-content : (line : Line) → IsValid line → Solid (content line)
unfolding IsValid content starts_bare
Solid-content empty v = record { front = refl; back = refl }
Solid-content (comment quote s) v = v
Solid-content (header name) v = record {
  front = refl;
  back = rw (reverse-append (b'[' ∷ name) (b']' ∷ [])) refl;
}
Solid-content (entry key before behind []) v = absurd (v.3 refl)
Solid-content (entry key before behind (c ∷ value)) v = record {
  front =
      rw (append_assoc key before (b'=' ∷ (behind ++ (c ∷ value))))
        (bare_before key (before ++ (b'=' ∷ (behind ++ (c ∷ value)))) v.0.solid.front v.0.some_key);
  back =
      rw (sym (append_assoc (key ++ before) (b'=' ∷ behind) (c ∷ value)))
        (padded-back (key ++ before ++ (b'=' ∷ behind)) c value v.4.back);
}

pub trim-content :
    (raw : Bytes) (line : Line)
    → IsValid line
    → ((l r : Bytes) × Blank l × Blank r × (raw ≡ l ++ content line ++ r))
    → trim raw ≡ content line
trim-content raw line v (l, r, hl, hr, whole) =
    rw whole (trim-padded l (content line) r hl (Solid-content line v) hr)

Blank-is_no_equals : (s : Bytes) → Blank s → elem b'=' s ≡ false
unfolding Blank
Blank-is_no_equals [] h = refl
Blank-is_no_equals (c ∷ s) h = ground (arith, h.0, Blank-is_no_equals s h.1)

find_char-append :
    (c : ℕ) (s t : Bytes) → elem c s ≡ false → find_char c (s ++ (c ∷ t)) ≡ some (length s)
unfolding find_char
find_char-append c [] t h = ground arith
find_char-append c (d ∷ s) t h = ground (arith, find_char-append c s t)

last_of_snoc : (s : Bytes) (c : ℕ) → get_or (s ++ (c ∷ [])) (length s) 0 ≡ c
last_of_snoc [] c = refl
last_of_snoc (d ∷ s) c = last_of_snoc s c

pub not_empty : (s : Bytes) → s ≢ [] → is_empty s ≡ false
not_empty [] h = absurd (h refl)
not_empty (c ∷ s) h = ground arith

take_before : (s t : Bytes) (n : ℕ) → n ≡ length s → take n (s ++ t) ≡ s
take_before s t n e = rw e (take-length-append s t)

drop_behind_suc : (s t : Bytes) (c : ℕ) → drop (suc (length s)) (s ++ (c ∷ t)) ≡ t
drop_behind_suc [] t c = refl
drop_behind_suc (d ∷ s) t c = drop_behind_suc s t c

drop_behind : (s t : Bytes) (c : ℕ) → drop (length s + 1) (s ++ (c ∷ t)) ≡ t
drop_behind s t c = simp unary_clauses (drop_behind_suc s t c)

brackets_off :
    (name : Bytes)
    → take (length (content (header name)) - 2) (drop 1 (content (header name))) ≡ name
unfolding content
brackets_off name = take_before name (b']' ∷ []) _ (ground (arith, length-append name (b']' ∷ [])))

pub start_section_lem :
    (name : Bytes) (curr : Section)
    → (is_empty curr.name ≡ true → curr.kvs ≡ [])
    → start_section (content (header name)) curr ≡ record { name = name; kvs = [] }
unfolding start_section clear set_name
start_section_lem name curr fresh = rw (brackets_off name) (ground (arith, fresh))

-- The equals sign that `find` meets is the one between key and value.
entry_equals :
    (key before rest : Bytes)
    → elem b'=' key ≡ false
    → Blank before
    → find_char b'=' (key ++ before ++ (b'=' ∷ rest)) ≡ some (length (key ++ before))
entry_equals key before rest h blank =
    find_char-append b'=' (key ++ before) rest
      (rw (elem_append b'=' key before, h) (Blank-is_no_equals before blank))

pub parse_entry_lem :
    (key before behind value : Bytes) (curr : Section)
    → IsValid (entry key before behind value)
    → parse_entry (content (entry key before behind value)) curr ≡ set_value curr key value
unfolding parse_entry content IsValid Blank
parse_entry_lem key before behind value curr (k, blank, blank', some_value, solid) =
    rw
      (
        parse_entry,
        entry_equals key before (behind ++ value) k.no_equals blank,
        take_before (key ++ before) (b'=' ∷ (behind ++ value)) (length (key ++ before)) refl,
        drop_behind (key ++ before) (behind ++ value) b'=',
        trim-padded [] key before tt k.solid blank,
        sym (append-nil (behind ++ value)),
        trim-padded behind value [] blank' solid tt,
        not_empty key k.some_key,
        not_empty value some_value,
      )
      refl

header_last :
    (name : Bytes) → get_or (content (header name)) (length (content (header name)) - 1) 0 ≡ b']'
unfolding content
header_last name =
    let at : length (content (header name)) - 1 ≡ length (b'[' ∷ name) =
      ground (arith, length-append name (b']' ∷ [])) in
    rw at (last_of_snoc (b'[' ∷ name) b']')

first_of :
    (s t : Bytes) → s ≢ [] → (is_empty (s ++ t) ≡ false) × (get_or (s ++ t) 0 0 ≡ get_or s 0 0)
first_of [] t h = absurd (h refl)
first_of (c ∷ s) t h = (ground arith, refl)

entry_first :
    (key before behind value : Bytes)
    → IsKey key
    → (is_empty (content (entry key before behind value)) ≡ false)
      × (get_or (content (entry key before behind value)) 0 0 ≡ get_or key 0 0)
unfolding content
entry_first key before behind value k =
    rw (append_assoc key before (b'=' ∷ (behind ++ value)))
      (first_of key (before ++ (b'=' ∷ (behind ++ value))) k.some_key)

-- The round on a line of each kind, its blanks included.
module _ (raw : Bytes) (curr : Section) (sections : Sections) where
  pub parse_empty : trim raw ≡ content empty → parse_line raw curr sections ≡ some (curr, sections)
  unfolding parse_line content
  parse_empty e = rw (parse_line, e) refl

  pub parse_comment :
      (quote : Bool) (s : Bytes)
      → trim raw ≡ content (comment quote s)
      → parse_line raw curr sections ≡ some (curr, sections)
  unfolding parse_line content
  parse_comment true s e = rw (parse_line, e) (ground arith)
  parse_comment false s e = rw (parse_line, e) (ground arith)

  pub parse_header :
      (name : Bytes)
      → trim raw ≡ content (header name)
      → (is_empty curr.name ≡ true → curr.kvs ≡ [])
      → parse_line raw curr sections
        ≡ some (record { name = name; kvs = [] }, emplace_current curr sections)
  unfolding parse_line content
  parse_header name e fresh =
      rw (parse_line, e, start_section_lem name curr fresh, header_last name) (ground arith)

  pub parse_keyed :
      (key before behind value : Bytes)
      → IsValid (entry key before behind value)
      → trim raw ≡ content (entry key before behind value)
      → parse_line raw curr sections ≡ (set_value curr key value >>= λ s. some (s, sections))
  unfolding parse_line IsValid
  parse_keyed key before behind value v e =
      let (filled, first) = entry_first key before behind value v.0 in
      rw (parse_line, e, parse_entry_lem key before behind value curr v, filled, first)
        (ground (arith, v.0.no_hash, v.0.no_quote, v.0.no_bracket))
