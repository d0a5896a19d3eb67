-- ===== src/Sections/Tests.antt =====
-- Tests of the sections of an options file, and the theorems at concrete inputs.
use c_plus_plus_examples.Base.{
  ℕ, ◌≡◌, refl, ◌<◌, ◌^◌, true, false, Option, none, some, List, [], ◌∷◌, arith,
}
use c_plus_plus_examples.Base.Map.{find}
use c_plus_plus_examples.Status.{codes}
use c_plus_plus_examples.Sections.{
  Bytes, Bytes-discrete, Section, Sections, trim, parse_section_file,
}
use c_plus_plus_examples.Sections.Get.{get_uint32, get_uint64, read_below, get_unsigned_lem}
use c_plus_plus_examples.Sections.Trim.{Blank, starts_bare}
use c_plus_plus_examples.Sections.Document.{
  Line, comment, header, entry, content, IsKey, IsValid, Written, entries, groups, meaning, lookup,
}
use c_plus_plus_examples.Sections.Parse.{parse_section_file-meaning}

trim_test : trim (codes "  a b\t") ≡ codes "a b"
unfolding trim
trim_test = refl

-- "42" reads as 42, and all else throws.
abbrev stoul : Bytes → Option ℕ
stoul s = elim (Bytes-discrete s (codes "42")) [ yes _ ↦ some 42 | no _ ↦ none ]

stoul_bound : (text : Bytes) (n : ℕ) → stoul text ≡ some n → n < 2 ^ 64
stoul_bound text n e = ground (arith, e)

abbrev sizes : Section
sizes = record { name = codes "sizes"; kvs = (codes "depth", codes "42") ∷ [] }

get_uint32_test : get_uint32 stoul sizes (codes "depth") 7 ≡ 42
unfolding get_uint32 Bytes-discrete
get_uint32_test = refl

get_unsigned_lem_example :
    (get_uint32 stoul sizes (codes "depth") 7
      ≡ read_below (2 ^ 32) stoul (find Bytes-discrete (codes "depth") sizes.kvs) 7)
    × (get_uint64 stoul sizes (codes "depth") 7
        ≡ read_below (2 ^ 64) stoul (find Bytes-discrete (codes "depth") sizes.kvs) 7)
get_unsigned_lem_example = get_unsigned_lem stoul stoul_bound sizes (codes "depth") 7

-- A comment, a section's name, and an entry with blanks.
abbrev raws : List Bytes
raws = codes "# options" ∷ codes " [db]" ∷ codes "path = /tmp " ∷ []

abbrev lines : List Line
lines =
    comment false (codes " options")
    ∷ header (codes "db")
    ∷ entry (codes "path") (codes " ") (codes " ") (codes "/tmp")
    ∷ []

abbrev read_lines : Bytes → Option (List Bytes)
read_lines s = some raws

path-IsKey : IsKey (codes "path")
unfolding starts_bare
path-IsKey = record {
  some_key = λ e. absurd (ground (arith, e));
  solid = record { front = refl; back = refl };
  no_equals = refl;
  no_hash = ground arith;
  no_quote = ground arith;
  no_bracket = ground arith;
}

raws-Written : Written raws lines
unfolding Written IsValid Blank content starts_bare
raws-Written = (
  record { front = refl; back = refl },
  ([], [], tt, tt, refl),
  (
    (λ e. absurd (ground (arith, e))),
    (codes " ", [], (refl, tt), tt, refl),
    (
      (
        path-IsKey,
        (refl, tt),
        (refl, tt),
        (λ e. absurd (ground (arith, e))),
        record { front = refl; back = refl },
      ),
      ([], codes " ", tt, (refl, tt), refl),
      tt,
    ),
  ),
)

parse_section_file-meaning_example :
    (sections : Sections) × (parse_section_file read_lines (codes "f") [] ≡ some (true, sections))
    × ((name key : Bytes) → lookup name key sections ≡ meaning name key lines)
unfolding entries
parse_section_file-meaning_example =
    parse_section_file-meaning read_lines (codes "f") raws lines refl raws-Written refl

meaning_test : meaning (codes "db") (codes "path") lines ≡ some (codes "/tmp")
unfolding meaning find groups Bytes-discrete entries
meaning_test = refl

-- The entry alone, with no section before it.
abbrev stray_raws : List Bytes
stray_raws = codes "path=/tmp" ∷ []

abbrev stray_lines : List Line
stray_lines = entry (codes "path") [] [] (codes "/tmp") ∷ []

stray_raws-Written : Written stray_raws stray_lines
unfolding Written IsValid Blank content starts_bare
stray_raws-Written = (
  (path-IsKey, tt, tt, (λ e. absurd (ground (arith, e))), record { front = refl; back = refl }),
  ([], [], tt, tt, refl),
  tt,
)
