-- ===== src/FreeSpace/Chunks.antt =====
-- `FindFirstZeroV1` and `FindFirstOneV1` of example-bitset/main.cc, which read 64 bits at a time.
use c_plus_plus_examples.Base.{
  ℕ, zero, suc, ◌+◌, ◌-◌, ◌*◌, ◌/◌, ◌≤◌, ◌<◌, ◌≡◌, refl, sym, ◌∙◌, ap, Bool, true, false, not,
  Option, none, some, List, length, arith, dec_lt,
}
use c_plus_plus_examples.FreeSpace.{
  test, shift_down, low_word, find_first_v1, total_chunk, find_first_zero_v1, find_first_one_v1,
  find_continuous_free_space, find_continuous_free_space_v1,
}
use c_plus_plus_examples.FreeSpace.Finders.{First}
use c_plus_plus_examples.FreeSpace.Search.{
  FirstFree, find_with-FirstFree, find_continuous_free_space-FirstFree,
}
use c_plus_plus_examples.FreeSpace.Words.{
  test-shift_down, test-low_word, length-low_word, Answer, find_first_uint64-Answer, test-ge, hit,
  miss,
}

module _ (wanted : Bool → Bool) (space : List Bool) (from : ℕ) where
  -- The first wanted position in the chunk at `start` is the first of all, or N.
  chunk_hit :
      (start p : ℕ)
      → from ≤ start
      → start ≤ length space
      → ((j : ℕ) → from ≤ j → j < start → wanted (test space j) ≡ false)
      → wanted (test space (start + p)) ≡ true
      → ((j : ℕ) → j < p → wanted (test space (start + j)) ≡ false)
      → First wanted space from (start + p)
  chunk_hit start p behind inside before found least = record {
    after = omega arith;
    within = elim (dec_lt (length space) (start + p)) [
      | no small ↦ omega arith
      | yes big ↦
          let end = length space - start in
          let a : wanted false ≡ true =
            sym (ap wanted (test-ge space (start + p) (omega arith))) ∙ found in
          let b : wanted false ≡ false =
            sym (ap wanted (test-ge space (start + end) (omega arith))) ∙ least end (omega arith) in
          absurd (ground (arith, a, b))
    ];
    found = λ _. found;
    least = λ j a b. elim (dec_lt j start) [
      | yes early ↦ before j a early
      | no late ↦
          let at : start + (j - start) ≡ j = omega arith in
          rw (sym at) (least (j - start) (omega arith))
    ];
  }

  chunk_miss :
      (start : ℕ)
      → ((j : ℕ) → from ≤ j → j < start → wanted (test space j) ≡ false)
      → ((j : ℕ) → j < 64 → wanted (test space (start + j)) ≡ false)
      → (j : ℕ) → from ≤ j
      → j < start + 64
      → wanted (test space j) ≡ false
  chunk_miss start before none_here j a b = elim (dec_lt j start) [
    | yes early ↦ before j a early
    | no late ↦
        let at : start + (j - start) ≡ j = omega arith in
        rw (sym at) (none_here (j - start) (omega arith))
  ]

  -- A bit of the chunk's word.
  bit_at :
      (start : ℕ) (word : List Bool)
      → ((j : ℕ) → test word j ≡ test space (start + j))
      → (b : Bool) (j : ℕ) → j < 64
      → wanted (test (low_word word) j) ≡ b
      → wanted (test space (start + j)) ≡ b
  bit_at start word at b j h bit = sym (ap wanted (test-low_word word j h ∙ at j)) ∙ bit

  -- The chunks from `index` on, when those before hold nothing that is wanted.
  find_first_v1-First :
      (chunks index : ℕ) (word : List Bool)
      → ((j : ℕ) → test word j ≡ test space (from + index * 64 + j))
      → from ≤ length space
      → from + (index + chunks) * 64 < length space + 64
      → length space ≤ from + (index + chunks) * 64
      → ((j : ℕ) → from ≤ j → j < from + index * 64 → wanted (test space j) ≡ false)
      → First wanted space from (find_first_v1 wanted (length space) from chunks index word)
  unfolding find_first_v1
  find_first_v1-First zero index word at inside few enough before = record {
    after = inside;
    within = omega arith;
    found = λ small. absurd (omega arith);
    least = λ j a b. before j a (omega (arith, enough));
  }
  find_first_v1-First (suc chunks) index word at inside few enough before =
      go
        (find_first_v1-First chunks (index + 1) (shift_down 64 word)
          (λ j.
            let sum : from + index * 64 + (64 + j) ≡ from + (index + 1) * 64 + j = omega arith in
            test-shift_down 64 word j ∙ at (64 + j) ∙ ap (test space) sum)
          inside (omega (arith, few)) (omega (arith, enough)))
        (find_first_uint64-Answer wanted (low_word word))
    where
      go :
          {o : Option ℕ}
          → (((j : ℕ) → from ≤ j → j < from + (index + 1) * 64 → wanted (test space j) ≡ false)
              → First wanted space from (
                  find_first_v1 wanted (length space) from chunks (index + 1) (shift_down 64 word)))
          → Answer wanted (low_word word) o
          → First wanted space from (elim o [
            | some pos ↦ pos + index * 64 + from
            | none ↦
                find_first_v1 wanted (length space) from chunks (index + 1) (shift_down 64 word)
          ])
      go next (hit p small found least) =
          let sum : from + index * 64 + p ≡ p + index * 64 + from = omega arith in
          let short : p < 64 = omega (arith, small, length-low_word word) in
          rw (sym sum) (
            chunk_hit (from + index * 64) p (omega arith) (omega (arith, few)) before
              (bit_at (from + index * 64) word at true p short found)
              (λ j h. bit_at (from + index * 64) word at false j (omega arith) (least j h)))
      go next (miss below) = next (λ j a b.
          chunk_miss (from + index * 64) before
            (λ k h.
              bit_at (from + index * 64) word at false k h
                (below k (omega (arith, length-low_word word))))
            j a (omega (arith, b)))

  -- From the start, with the chunks that N - from positions take.
  find_v1-First :
      from ≤ length space
      → First wanted space from (
          find_first_v1 wanted
            (length space)
            from
            (total_chunk (length space - from))
            0
            (shift_down from space))
  unfolding total_chunk
  find_v1-First inside =
      find_first_v1-First ((length space - from + 64 - 1) / 64) 0 (shift_down from space)
        (λ j.
          let sum : from + j ≡ from + 0 * 64 + j = omega arith in
          test-shift_down from space j ∙ ap (test space) sum)
        inside (omega arith) (omega arith) (λ j a b. absurd (omega arith))

-- The search by chunks of 64 bits also returns the first position where `cnt` positions are free,
-- and N exactly when there is none, for a count above 0.
find_continuous_free_space_v1-FirstFree :
    (space : List Bool) (cnt : ℕ)
    → 0 < cnt
    → FirstFree space cnt (find_continuous_free_space_v1 space cnt)
unfolding find_continuous_free_space_v1 find_first_zero_v1 find_first_one_v1
find_continuous_free_space_v1-FirstFree space cnt some_wanted =
    find_with-FirstFree space cnt (find_first_zero_v1 space) (find_first_one_v1 space) some_wanted
      (find_v1-First not space) (find_v1-First (λ b. b) space)

FirstFree-le :
    (space : List Bool) (cnt r s : ℕ) → FirstFree space cnt r → FirstFree space cnt s → s ≤ r
FirstFree-le space cnt r s first second = elim (dec_lt r s) [
  | no small ↦ omega arith
  | yes big ↦ absurd (second.least r big (first.free (omega (arith, second.bound))))
]

nothing_wanted :
    (space : List Bool) → find_continuous_free_space_v1 space 0 ≡ find_continuous_free_space space 0
unfolding find_continuous_free_space find_continuous_free_space_v1
nothing_wanted space = refl

-- Both searches return the same, for every map and every count.
pub find_continuous_free_space_v1-find_continuous_free_space :
    (space : List Bool) (cnt : ℕ)
    → find_continuous_free_space_v1 space cnt ≡ find_continuous_free_space space cnt
find_continuous_free_space_v1-find_continuous_free_space space cnt = elim (dec_lt 0 cnt) [
  | yes some_wanted ↦
      let chunked = find_continuous_free_space_v1-FirstFree space cnt some_wanted in
      let plain = find_continuous_free_space-FirstFree space cnt some_wanted in
      omega
        (arith, FirstFree-le space cnt _ _ chunked plain, FirstFree-le space cnt _ _ plain chunked)
  | no none_wanted ↦ let at : cnt ≡ 0 = omega arith in rw at (nothing_wanted space)
]
