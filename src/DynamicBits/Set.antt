-- ===== src/DynamicBits/Set.antt =====
-- `set` and `clear` of example-dynamic-bits/dynamic_bits.cc.
use c_plus_plus_examples.Base.{
  ℕ, suc, ◌/◌, ◌%◌, ◌^◌, ◌<◌, ◌≡◌, refl, sym, ap, ◌∙◌, Bool, true, false, not, ◌||◌, Option, some,
  List, [], ◌∷◌, length, set, ◌==◌, if◌then◌else◌, arith, All, length-set, Bool-cases, inl, inr,
  ℕ_discrete,
}
use c_plus_plus_examples.Base.Chain.{◌>>=◌}
use c_plus_plus_examples.DynamicBits.{
  Word, Level, DynamicBits, is_set, set_levels, clear_levels, set_bit, clear_bit, test, test_level,
}
use c_plus_plus_examples.DynamicBits.Levels.{
  word, bit, contains, Linked, Linked-All, IsValid, get_elem?-get_or, get_elem?-word, length-word,
  word-set_self, word-set_ne, All-set, is_set-set-true, is_set-set-false, bit-set,
}

-- The levels after a write of `b` to bit `n` of the first.
pub record Written (level : Level) (above : List Level) (n : ℕ) (b : Bool) (out : List Level)
    : Type 0 where
  pub level' : Level
  pub above' : List Level
  pub whole : out ≡ level' ∷ above'
  pub linked : Linked level' above'
  pub same_length : length level' ≡ length level
  pub same_height : length above' ≡ length above
  pub bits : (m : ℕ) → bit level' m ≡ (if n == m then b else bit level m)

module _ (level : Level) (n : ℕ) (b : Bool) where
  new_word : Word
  new_word = set (word level (n / 64)) (n % 64) b

  new_level : Level
  new_level = set level (n / 64) new_word

  is_set-new_level :
      (i : ℕ)
      → n / 64 < length level
      → is_set (word new_level i) ≡ (if n / 64 == i then is_set new_word else is_set (word level i))
  unfolding new_level
  is_set-new_level i h = elim (ℕ_discrete (n / 64) i) [
    | yes e ↦ rw (sym e, word-set_self level (n / 64) new_word h) (ground arith)
    | no e ↦ rw (word-set_ne level (n / 64) i new_word e) (ground (arith, e))
  ]

  new_level-All :
      All (λ v. length v ≡ 64) level → n / 64 < length level → All (λ v. length v ≡ 64) new_level
  unfolding new_level new_word
  new_level-All w h =
      All-set level (n / 64) new_word w
        (length-set (word level (n / 64)) (n % 64) b ∙ length-word level (n / 64) w h)

  unchanged :
      (i : ℕ)
      → is_set new_word ≡ is_set (word level (n / 64))
      → (if n / 64 == i then is_set new_word else is_set (word level i)) ≡ is_set (word level i)
  unchanged i same = elim (ℕ_discrete (n / 64) i) [
    | yes e ↦ rw (sym e) (ground (arith, same))
    | no e ↦ ground (arith, e)
  ]

  -- The last level has none above it.
  stop_last : Linked level [] → n / 64 < length level → Written level [] n b (new_level ∷ [])
  unfolding new_level new_word
  stop_last h room = record {
    level' = new_level;
    above' = [];
    whole = refl;
    linked = (length-set level (n / 64) new_word ∙ h.0, new_level-All h.1 room);
    same_length = length-set level (n / 64) new_word;
    same_height = refl;
    bits = λ m. bit-set level n m b h.1 room;
  }

  -- Where the word changes neither from nor to zero, the levels above are right as they are.
  stop_here :
      (up : Level) (above : List Level)
      → Linked level (up ∷ above)
      → n / 64 < length level
      → is_set new_word ≡ is_set (word level (n / 64))
      → Written level (up ∷ above) n b (new_level ∷ up ∷ above)
  unfolding new_level new_word
  stop_here up above h room same = record {
    level' = new_level;
    above' = up ∷ above;
    whole = refl;
    linked = (
      rw (length-set level (n / 64) new_word) h.0,
      new_level-All h.1 room,
      (λ i. h.2 i ∙ sym (is_set-new_level i room ∙ unchanged i same)),
      h.3,
    );
    same_length = length-set level (n / 64) new_word;
    same_height = refl;
    bits = λ m. bit-set level n m b h.1 room;
  }

  -- Else the bit for the word is written in the level above.
  go_on :
      (up : Level) (above : List Level) (out : List Level)
      → Linked level (up ∷ above)
      → n / 64 < length level
      → is_set new_word ≡ b
      → Written up above (n / 64) b out
      → Written level (up ∷ above) n b (new_level ∷ out)
  unfolding new_level new_word
  go_on up above out h room changed w = record {
    level' = new_level;
    above' = w.level' ∷ w.above';
    whole = ap (◌∷◌ new_level) w.whole;
    linked = (
      rw (length-set level (n / 64) new_word, w.same_length) h.0,
      new_level-All h.1 room,
      (λ i. w.bits i ∙ sym (is_set-new_level i room ∙ ground (arith, changed, h.2 i))),
      w.linked,
    );
    same_length = length-set level (n / 64) new_word;
    same_height = ap suc w.same_height;
    bits = λ m. bit-set level n m b h.1 room;
  }

  set_round :
      (above : List Level)
      → n / 64 < length level
      → n < 2 ^ 38
      → b ≡ true
      → set_levels (level ∷ above) n ≡ (
          if is_set (word level (n / 64))
          then some (new_level ∷ above)
          else (set_levels above (n / 64) >>= λ out. some (new_level ∷ out)))
  unfolding set_levels new_level new_word
  set_round above room small e =
      let at : n / 64 % 2 ^ 32 ≡ n / 64 = omega arith in
      rw (set_levels, at, get_elem?-word level (n / 64) room, e) refl

  clear_round :
      (above : List Level)
      → n / 64 < length level
      → n < 2 ^ 38
      → b ≡ false
      → clear_levels (level ∷ above) n ≡ (
          if not (is_set (word level (n / 64))) || is_set new_word
          then some (new_level ∷ above)
          else (clear_levels above (n / 64) >>= λ out. some (new_level ∷ out)))
  unfolding clear_levels new_level new_word
  clear_round above room small e =
      let at : n / 64 % 2 ^ 32 ≡ n / 64 = omega arith in
      rw (clear_levels, at, get_elem?-word level (n / 64) room, e) refl

  word_room :
      All (λ v. length v ≡ 64) level → n / 64 < length level → n % 64 < length (word level (n / 64))
  word_room w room = omega (arith, length-word level (n / 64) w room)

either : (b : Bool) {x : Option (List Level)} → (if b then x else x) ≡ x
either true = refl
either false = refl

-- What a call makes of the levels.
pub Writes : Option (List Level) → Level → List Level → ℕ → Bool → Type 0
Writes result level above n b =
    (out : List Level) × (result ≡ some out) × Written level above n b out

pub set_levels-Written :
    (level : Level) (above : List Level) (n : ℕ)
    → Linked level above
    → n / 64 < length level
    → n < 2 ^ 38
    → Writes (set_levels (level ∷ above) n) level above n true
unfolding Writes new_word set_levels
set_levels-Written level [] n h room small = (
  new_level level n true ∷ [],
  set_round level n true [] room small refl ∙ either (is_set (word level (n / 64))),
  stop_last level n true h room,
)
set_levels-Written level (up ∷ above) n h room small =
    let set : is_set (new_word level n true) ≡ true =
      is_set-set-true (word level (n / 64)) (n % 64) (word_room level n true h.1 room) in
    elim (Bool-cases (is_set (word level (n / 64)))) [
      | inl old ↦ (
        new_level level n true ∷ up ∷ above,
        set_round level n true (up ∷ above) room small refl ∙ rw old refl,
        stop_here level n true up above h room (set ∙ sym old),
      )
      | inr old ↦
          let (out, run, w) =
            set_levels-Written up above (n / 64) h.3 (omega (arith, h.0)) (omega arith) in
          (
            new_level level n true ∷ out,
            set_round level n true (up ∷ above) room small refl ∙ rw (old, run) refl,
            go_on level n true up above out h room set w,
          )
    ]

pub clear_levels-Written :
    (level : Level) (above : List Level) (n : ℕ)
    → Linked level above
    → n / 64 < length level
    → n < 2 ^ 38
    → Writes (clear_levels (level ∷ above) n) level above n false
unfolding Writes new_word clear_levels
clear_levels-Written level [] n h room small = (
  new_level level n false ∷ [],
  clear_round level n false [] room small refl
      ∙ either (not (is_set (word level (n / 64))) || is_set (new_word level n false)),
  stop_last level n false h room,
)
clear_levels-Written level (up ∷ above) n h room small =
    let old = is_set (word level (n / 64)) in
    let new = is_set (new_word level n false) in
    elim (Bool-cases (not old || new)) [
      | inl done ↦ (
        new_level level n false ∷ up ∷ above,
        clear_round level n false (up ∷ above) room small refl ∙ rw done refl,
        stop_here level n false up above h room
            (ground (arith, done, is_set-set-false (word level (n / 64)) (n % 64))),
      )
      | inr more ↦
          let (out, run, w) =
            clear_levels-Written up above (n / 64) h.3 (omega (arith, h.0)) (omega arith) in
          (
            new_level level n false ∷ out,
            clear_round level n false (up ∷ above) room small refl ∙ rw (more, run) refl,
            go_on level n false up above out h room (ground (arith, more)) w,
          )
    ]

-- A set that differs in whether it holds `n`.
pub record Changed (s t : DynamicBits) (n : ℕ) (b : Bool) : Type 0 where
  pub valid : IsValid t
  pub same_size : t.nr_bits ≡ s.nr_bits
  pub changed : (m : ℕ) → contains t m ≡ (if n == m then b else contains s m)

Written-Changed :
    (s : DynamicBits) (v : IsValid s) (n : ℕ) (b : Bool) (out : List Level)
    → n < s.nr_bits
    → Written v.level v.above n b out
    → Changed s (record s { bits = out }) n b
unfolding contains
Written-Changed s v n b out room w = record {
  valid = record {
    level = w.level';
    above = w.above';
    whole = w.whole;
    linked = w.linked;
    covers = rw w.same_length v.covers;
    small = v.small;
    few = rw w.same_height v.few;
    unused = λ m h. w.bits m ∙ ground (arith, v.unused m h);
  };
  same_size = refl;
  changed = λ m. rw (w.whole, v.whole) (w.bits m);
}

-- set(n), for a bit of the set, adds it and changes no other; the levels stay linked.
pub set_bit-Changed :
    (s : DynamicBits) (n : ℕ)
    → IsValid s
    → n < s.nr_bits
    → (t : DynamicBits) × (set_bit s n ≡ some t) × Changed s t n true
unfolding set_bit Writes
set_bit-Changed s n v room =
    let (out, run, w) =
      set_levels-Written v.level v.above n v.linked (omega (arith, v.covers))
        (omega (arith, v.small)) in
    (
      record s { bits = out },
      rw (set_bit, v.whole, run) refl,
      Written-Changed s v n true out room w,
    )

-- clear(n), for a bit of the set, takes it out and changes no other; the levels stay linked.
pub clear_bit-Changed :
    (s : DynamicBits) (n : ℕ)
    → IsValid s
    → n < s.nr_bits
    → (t : DynamicBits) × (clear_bit s n ≡ some t) × Changed s t n false
unfolding clear_bit Writes
clear_bit-Changed s n v room =
    let (out, run, w) =
      clear_levels-Written v.level v.above n v.linked (omega (arith, v.covers))
        (omega (arith, v.small)) in
    (
      record s { bits = out },
      rw (clear_bit, v.whole, run) refl,
      Written-Changed s v n false out room w,
    )

-- test(n), for a bit of the set, says whether the set holds it.
pub test-contains :
    (s : DynamicBits) (n : ℕ) → IsValid s → n < s.nr_bits → test s n ≡ some (contains s n)
unfolding test test_level contains bit
test-contains s n v room =
    let at : n / 64 < length v.level = omega (arith, v.covers) in
    rw (test, v.whole, get_elem?-word v.level (n / 64) at)
      (get_elem?-get_or (word v.level (n / 64)) (n % 64)
        (omega (arith, length-word v.level (n / 64) (Linked-All v.level v.above v.linked) at)))
