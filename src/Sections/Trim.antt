-- ===== src/Sections/Trim.antt =====
-- What `trim` of common/strutils.h takes off a string.
use mathlib.Core.List.{reverse, reverse-cons, reverse-append, reverse-reverse}
use c_plus_plus_examples.Base.{
  ℕ, ◌≡◌, refl, sym, ap, ◌∙◌, Bool, true, false, not, [], ◌∷◌, ◌++◌, append-nil, ◌↔◌, arith,
  if◌then◌else◌, ◌≢◌,
}
use c_plus_plus_examples.Sections.{Bytes, is_blank, ltrim, rtrim, trim}

-- Blanks only.
unfoldable pub Blank : Bytes → Type 0
Blank [] = Unit {0}
Blank (c ∷ s) = (is_blank c ≡ true) × Blank s

unfoldable pub starts_bare : Bytes → Bool
starts_bare [] = true
starts_bare (c ∷ s) = not (is_blank c)

-- Neither the first nor the last byte is blank.
pub record Solid (s : Bytes) : Type 0 where
  pub front : starts_bare s ≡ true
  pub back : starts_bare (reverse s) ≡ true

pub Blank-append : (a b : Bytes) → Blank a → Blank b → Blank (a ++ b)
unfolding Blank
Blank-append [] b h k = k
Blank-append (c ∷ a) b (e, h) k = (e, Blank-append a b h k)

pub Blank-reverse : (a : Bytes) → Blank a → Blank (reverse a)
unfolding Blank
Blank-reverse [] h = tt
Blank-reverse (c ∷ a) (e, h) =
    rw (reverse-cons c a) (Blank-append (reverse a) (c ∷ []) (Blank-reverse a h) (e, tt))

starts_bare-append : (a b : Bytes) → starts_bare (a ++ b) ≡ true → starts_bare a ≡ true
unfolding starts_bare
starts_bare-append [] b h = refl
starts_bare-append (c ∷ a) b h = h

pub bare_before : (a b : Bytes) → starts_bare a ≡ true → a ≢ [] → starts_bare (a ++ b) ≡ true
unfolding starts_bare
bare_before [] b h some_a = absurd (some_a refl)
bare_before (c ∷ a) b h some_a = h

-- `ltrim` takes off blanks up to the first byte that is none.
ltrim_parts :
    (s : Bytes) → (l : Bytes) × Blank l × (s ≡ l ++ ltrim s) × (starts_bare (ltrim s) ≡ true)
unfolding ltrim starts_bare Blank
ltrim_parts [] = ([], tt, refl, refl)
ltrim_parts (c ∷ s) = by_first (is_blank c) refl (ltrim_parts s)
  where
    by_first :
        (b : Bool)
        → is_blank c ≡ b
        → (l : Bytes) × Blank l × (s ≡ l ++ ltrim s) × (starts_bare (ltrim s) ≡ true)
        → (l : Bytes) × Blank l
          × (c ∷ s ≡ l ++ (if b then ltrim s else c ∷ s))
          × (starts_bare (if b then ltrim s else c ∷ s) ≡ true)
    by_first true e (l, blank, whole, bare) = (c ∷ l, (e, blank), ap (◌∷◌ c) whole, bare)
    by_first false e rest = ([], tt, refl, ap not e)

ltrim_bare : (t : Bytes) → starts_bare t ≡ true → ltrim t ≡ t
unfolding ltrim starts_bare
ltrim_bare [] bare = refl
ltrim_bare (c ∷ t) bare = ground (arith, bare)

ltrim-padded : (l t : Bytes) → Blank l → starts_bare t ≡ true → ltrim (l ++ t) ≡ t
unfolding ltrim starts_bare Blank
ltrim-padded [] t h bare = ltrim_bare t bare
ltrim-padded (c ∷ l) t (e, h) bare = rw e (ltrim-padded l t h bare)

ltrim-Blank : (l : Bytes) → Blank l → ltrim l ≡ []
unfolding starts_bare
ltrim-Blank l h = rw (sym (append-nil l)) (ltrim-padded l [] h refl)

-- The back of what `ltrim` leaves is the back of the string.
ltrim-back : (s : Bytes) → starts_bare (reverse s) ≡ true → starts_bare (reverse (ltrim s)) ≡ true
ltrim-back s h =
    let (l, blank, whole, bare) = ltrim_parts s in
    starts_bare-append (reverse (ltrim s)) (reverse l)
      (rw (sym (reverse-append l (ltrim s))) (rw (sym whole) h))

rtrim_parts :
    (s : Bytes)
    → (r : Bytes) × Blank r × (s ≡ rtrim s ++ r) × (starts_bare (reverse (rtrim s)) ≡ true)
unfolding rtrim
rtrim_parts s =
    let (r, blank, whole, bare) = ltrim_parts (reverse s) in
    (
      reverse r,
      Blank-reverse r blank,
      sym (reverse-reverse s) ∙ ap reverse whole ∙ reverse-append r (ltrim (reverse s)),
      rw (reverse-reverse (ltrim (reverse s))) bare,
    )

rtrim-padded : (t r : Bytes) → starts_bare (reverse t) ≡ true → Blank r → rtrim (t ++ r) ≡ t
unfolding rtrim
rtrim-padded t r bare blank =
    rw (reverse-append t r, ltrim-padded (reverse r) (reverse t) (Blank-reverse r blank) bare)
      (reverse-reverse t)

-- Behind blanks, the back of a string that is not empty is its back.
pub padded-back :
    (l : Bytes) (c : ℕ) (t : Bytes)
    → starts_bare (reverse (c ∷ t)) ≡ true
    → starts_bare (reverse (l ++ (c ∷ t))) ≡ true
padded-back l c t bare = rw (reverse-append l (c ∷ t)) (
    bare_before (reverse (c ∷ t)) (reverse l) bare
      (λ e. absurd (ground (arith, sym (reverse-reverse (c ∷ t)) ∙ ap reverse e))))

pub trim-padded : (l t r : Bytes) → Blank l → Solid t → Blank r → trim (l ++ t ++ r) ≡ t
unfolding trim starts_bare ltrim
trim-padded l [] r hl solid hr =
    rw (append-nil l, rtrim-padded [] (l ++ r) refl (Blank-append l r hl hr)) refl
trim-padded l (c ∷ t) r hl solid hr =
    rw (rtrim-padded (l ++ (c ∷ t)) r (padded-back l c t solid.back) hr)
      (ltrim-padded l (c ∷ t) hl solid.front)

trim_parts :
    (s : Bytes) → (l r : Bytes) × Blank l × Solid (trim s) × Blank r × (s ≡ l ++ trim s ++ r)
unfolding trim
trim_parts s =
    let (r, blank_r, whole_r, bare_r) = rtrim_parts s in
    let (l, blank_l, whole_l, bare_l) = ltrim_parts (rtrim s) in
    (
      l,
      r,
      blank_l,
      record { front = bare_l; back = ltrim-back (rtrim s) bare_r },
      blank_r,
      whole_r ∙ ap (λ u. u ++ r) whole_l,
    )

-- `trim` takes exactly the blanks off both ends: what it leaves is the one string without blanks at
-- its ends which, between blanks, makes up the argument.
trim_iff :
    (s t : Bytes) → (trim s ≡ t) ↔ ((l r : Bytes) × Blank l × Solid t × Blank r × (s ≡ l ++ t ++ r))
trim_iff s t = (
  (λ e. rw (sym e) (trim_parts s)),
  λ (l, r, hl, solid, hr, whole). rw whole (trim-padded l t r hl solid hr),
)
