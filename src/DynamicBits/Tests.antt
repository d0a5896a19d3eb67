-- ===== src/DynamicBits/Tests.antt =====
-- Tests of the dynamic bits, and the theorems at concrete inputs.
use c_plus_plus_examples.Base.{
  ℕ, ◌+◌, ◌-◌, ◌%◌, ◌^◌, ◌<◌, ◌≡◌, refl, sym, ◌∙◌, true, false, some, [], ◌∷◌, set, replicate,
  arith,
}
use c_plus_plus_examples.DynamicBits.{
  Word, DynamicBits, nopos, is_set, align_up, log2ceil, new_bits, test, set_bit, clear_bit,
  find_first_set, find_last_set, find_next_set,
}
use c_plus_plus_examples.DynamicBits.Functional.{test_functional, test_find_next}
use c_plus_plus_examples.DynamicBits.Levels.{IsValid}
use c_plus_plus_examples.DynamicBits.New.{new_bits-IsValid}
use c_plus_plus_examples.DynamicBits.Set.{Changed, set_bit-Changed, clear_bit-Changed}
use c_plus_plus_examples.DynamicBits.Search.{Answer, find_first_set-Answer}
use c_plus_plus_examples.DynamicBits.Next.{NextAnswer, find_next_set-NextAnswer}

-- No assertion of the source's own tests fails.
functional_run : test_functional ≡ some tt
unfolding test_functional new_bits test set_bit clear_bit find_first_set find_last_set
functional_run = refl

find_next_run : test_find_next ≡ some tt
unfolding test_find_next new_bits set_bit find_next_set is_set
find_next_run = refl

align_up_test : align_up 130 64 ≡ some 192
unfolding align_up
align_up_test = refl

log2ceil_test : log2ceil 192 ≡ 8
unfolding log2ceil
log2ceil_test = refl

abbrev zero_word : Word
zero_word = replicate 64 false

abbrev word_with : ℕ → Word
word_with i = set zero_word i true

-- 130 bits in three words, and one word above them.
abbrev no_bits : DynamicBits
no_bits = record {
  bits = (zero_word ∷ zero_word ∷ zero_word ∷ []) ∷ (zero_word ∷ []) ∷ [];
  nr_bits = 130;
}

-- The same with bit 70.
abbrev one_bit : DynamicBits
one_bit = record {
  bits = (zero_word ∷ word_with 6 ∷ zero_word ∷ []) ∷ (word_with 1 ∷ []) ∷ [];
  nr_bits = 130;
}

new_bits_test : new_bits 130 ≡ some no_bits
unfolding new_bits
new_bits_test = refl

set_bit_test : set_bit no_bits 70 ≡ some one_bit
unfolding set_bit
set_bit_test = refl

clear_bit_test : clear_bit one_bit 70 ≡ some no_bits
unfolding clear_bit
clear_bit_test = refl

find_first_set_test : find_first_set one_bit ≡ some 70
unfolding find_first_set
find_first_set_test = refl

find_last_set_test : find_last_set one_bit ≡ some 70
unfolding find_last_set
find_last_set_test = refl

find_next_set_test : find_next_set one_bit 3 ≡ some 70
unfolding find_next_set is_set
find_next_set_test = refl

find_next_set_beyond_test : find_next_set one_bit 70 ≡ some nopos
unfolding find_next_set is_set
find_next_set_beyond_test = refl

same_set : {s t : DynamicBits} → some s ≡ some t → s ≡ t
same_set e = cc

no_bits-IsValid : IsValid no_bits
no_bits-IsValid =
    let (s, run, valid, size, clear) = new_bits-IsValid 130 (omega arith) (omega arith) in
    let e : s ≡ no_bits = same_set (sym run ∙ new_bits_test) in rw e at valid

one_bit-IsValid : IsValid one_bit
one_bit-IsValid =
    let (s, run, changed) = set_bit-Changed no_bits 70 no_bits-IsValid (omega arith) in
    let e : s ≡ one_bit = same_set (sym run ∙ set_bit_test) in rw e at changed.valid

set_bit-Changed_example :
    (t : DynamicBits) × (set_bit no_bits 70 ≡ some t) × Changed no_bits t 70 true
set_bit-Changed_example = set_bit-Changed no_bits 70 no_bits-IsValid (omega arith)

clear_bit-Changed_example :
    (t : DynamicBits) × (clear_bit one_bit 70 ≡ some t) × Changed one_bit t 70 false
clear_bit-Changed_example = clear_bit-Changed one_bit 70 one_bit-IsValid (omega arith)

find_first_set-Answer_example : (r : ℕ) × (find_first_set one_bit ≡ some r) × Answer ◌<◌ one_bit r
find_first_set-Answer_example = find_first_set-Answer one_bit one_bit-IsValid

-- The largest number wraps around.
find_next_set_first_test : find_next_set one_bit (2 ^ 64 - 1) ≡ some 70
unfolding find_next_set is_set
find_next_set_first_test = refl

find_next_set-NextAnswer_example :
    (r : ℕ) × (find_next_set one_bit (2 ^ 64 - 1) ≡ some r)
    × NextAnswer one_bit ((2 ^ 64 - 1 + 1) % 2 ^ 64) r
find_next_set-NextAnswer_example =
    find_next_set-NextAnswer one_bit (2 ^ 64 - 1) one_bit-IsValid (omega arith) (omega arith)
