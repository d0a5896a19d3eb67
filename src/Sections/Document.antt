-- ===== src/Sections/Document.antt =====
-- The format that `ParseSectionFile` of example-str-utils/section.cc reads, as lines of four kinds,
-- and the sections that such a text stands for.
use mathlib.Core.List.{reverse}
use c_plus_plus_examples.Base.{
  ◌≡◌, ◌≢◌, Bool, true, false, Option, List, [], ◌∷◌, ◌++◌, elem, get_or,
}
use c_plus_plus_examples.Base.Map.{find}
use c_plus_plus_examples.Base.Chain.{◌>>=◌}
use c_plus_plus_examples.Sections.{Bytes, Bytes-discrete, Sections}
use c_plus_plus_examples.Sections.Trim.{Blank, Solid}

-- A line without its indentation. The two strings between key and value stand before and behind
-- the equals sign.
pub data Line : Type 0 where
  empty : Line
  comment : (quote : Bool) → Bytes → Line
  header : Bytes → Line
  entry : (key before behind value : Bytes) → Line

unfoldable pub content : Line → Bytes
content empty = []
content (comment true s) = b'"' ∷ s
content (comment false s) = b'#' ∷ s
content (header name) = b'[' ∷ (name ++ (b']' ∷ []))
content (entry key before behind value) = key ++ before ++ (b'=' ∷ (behind ++ value))

-- A key that reads as one: no blanks at its ends, no equals sign, and it does not start a comment or
-- a header.
pub record IsKey (key : Bytes) : Type 0 where
  pub some_key : key ≢ []
  pub solid : Solid key
  pub no_equals : elem b'=' key ≡ false
  pub no_hash : get_or key 0 0 ≢ b'#'
  pub no_quote : get_or key 0 0 ≢ b'"'
  pub no_bracket : get_or key 0 0 ≢ b'['

unfoldable pub IsValid : Line → Type 0
IsValid empty = Unit {0}
IsValid (comment quote s) = Solid (content (comment quote s))
IsValid (header name) = name ≢ []
IsValid (entry key before behind value) =
    IsKey key × Blank before × Blank behind × (value ≢ []) × Solid value

-- The lines of a text, each with blanks around it.
unfoldable pub Written : List Bytes → List Line → Type 0
Written [] [] = Unit {0}
Written (raw ∷ raws) (line ∷ lines) =
    IsValid line
    × ((l r : Bytes) × Blank l × Blank r × (raw ≡ l ++ content line ++ r))
    × Written raws lines
Written raws lines = ⊥

-- The entries up to the next header.
unfoldable pub entries : List Line → List (Bytes × Bytes)
entries [] = []
entries (header name ∷ lines) = []
entries (entry key before behind value ∷ lines) = (key, value) ∷ entries lines
entries (line ∷ lines) = entries lines

-- The sections, each with its entries, as they stand in the text.
unfoldable pub groups : List Line → List (Bytes × List (Bytes × Bytes))
groups [] = []
groups (header name ∷ lines) = (name, entries lines) ∷ groups lines
groups (line ∷ lines) = groups lines

-- The value of a key in a section, by the text: the first section of that name counts, and in it the
-- last entry of that key.
unfoldable pub meaning : Bytes → Bytes → List Line → Option Bytes
meaning name key lines = do
  kvs ← find Bytes-discrete name (groups lines)
  find Bytes-discrete key (reverse kvs)

-- And by the sections that were read.
unfoldable pub lookup : Bytes → Bytes → Sections → Option Bytes
lookup name key sections = do
  section ← find Bytes-discrete name sections
  find Bytes-discrete key section.kvs
