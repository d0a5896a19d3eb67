-- ===== src/WritableFile/Ends.antt =====
-- When the loop of `WriteUnbuffered` of example-writablefile/writable_file.h ends.
use c_plus_plus_examples.Base.{
  ℕ, zero, suc, ◌+◌, ◌≤◌, ◌≡◌, refl, ◌∙◌, ◌⊎◌, inl, inr, true, false, Option, none, some, List, [],
  ◌∷◌, ◌++◌, length, take, drop, arith, append_assoc, append-nil, take-append-drop, length-drop,
  ◌==◌, if◌then◌else◌, Bool-cases, Option-cases,
}
use c_plus_plus_examples.Status.{Status, is_ok, ok_status}
use c_plus_plus_examples.WritableFile.{
  Posix, WritableFile, posix_error, after_write, write_unbuffered,
}
use c_plus_plus_examples.WritableFile.Write.{posix_error-is_ok, ok_status-is_ok}

-- What POSIX says of `write` on one open descriptor: it appends the first `n` bytes or, when it
-- fails, nothing.
pub record Appends (os : Posix) (fd : Option ℕ) (contents : os.World → List ℕ) : Type 0 where
  pub written :
      (s : List ℕ) (w : os.World) (n : ℕ)
      → (os.write fd s w).1 ≡ some n
      → (n ≤ length s) × (contents (os.write fd s w).0 ≡ contents w ++ take n s)
  pub refused :
      (s : List ℕ) (w : os.World)
      → (os.write fd s w).1 ≡ none
      → contents (os.write fd s w).0 ≡ contents w

module _ (os : Posix) where
  -- What one call of `write` adds to those that are interrupted or write no byte.
  idle_after : os.World → Option ℕ → ℕ → (ℕ → ℕ) → ℕ
  idle_after w none same more = if os.errno w == os.eintr then suc same else 0
  idle_after w (some zero) same more = suc same
  idle_after w (some (suc n)) same more = more n

  -- How many of the first calls of `write`, for a string that is written until it is used up, are
  -- interrupted or write no byte.
  unfoldable pub idle_calls : Option ℕ → ℕ → List ℕ → os.World → ℕ
  unfolding idle_after
  idle_calls fd zero s w = 0
  idle_calls fd (suc calls) [] w = 0
  idle_calls fd (suc calls) (c ∷ s) w =
      let (w', result) = os.write fd (c ∷ s) w in
      let same = idle_calls fd calls (c ∷ s) w' in
      idle_after w' result same (λ n. idle_calls fd calls (drop n s) w')

  idle_calls-suc :
      (fd : Option ℕ) (calls c : ℕ) (s : List ℕ) (w : os.World) (o : Option ℕ)
      → (os.write fd (c ∷ s) w).1 ≡ o
      → idle_calls fd (suc calls) (c ∷ s) w ≡ (
          let w' = (os.write fd (c ∷ s) w).0 in
          idle_after w' o (idle_calls fd calls (c ∷ s) w') (λ n. idle_calls fd calls (drop n s) w'))
  unfolding idle_calls
  idle_calls-suc fd calls c s w o e = rw e refl

module _ (os : Posix) (contents : os.World → List ℕ) where
  -- The call returned; the file has got the first part of `s`, and all of it if the status is OK.
  pub record Ended (s : List ℕ) (w : os.World) (o : Option (os.World × Status)) : Type 0 where
    pub after : os.World
    pub status : Status
    pub returned : o ≡ some (after, status)
    pub sent : List ℕ
    pub unsent : List ℕ
    pub parts : sent ++ unsent ≡ s
    pub file : contents after ≡ contents w ++ sent
    pub outcome : ((is_ok status ≡ true) × (unsent ≡ [])) ⊎ (is_ok status ≡ false)

module _ (os : Posix) (f : WritableFile) (contents : os.World → List ℕ)
    (laws : Appends os f.fd contents) where
  Ended-later :
      (s : List ℕ) (n : ℕ) (w w' : os.World) {o : Option (os.World × Status)}
      → contents w' ≡ contents w ++ take n s
      → Ended os contents (drop n s) w' o
      → Ended os contents s w o
  Ended-later s n w w' got r = record {
    after = r.after;
    status = r.status;
    returned = r.returned;
    sent = take n s ++ r.sent;
    unsent = r.unsent;
    parts = rw (append_assoc, r.parts) (take-append-drop n s);
    file = r.file ∙ rw (got, append_assoc);
    outcome = r.outcome;
  }

  -- The loop ends, at the latest when it has made more calls of `write` than there are bytes and calls
  -- that are interrupted or write no byte, whatever the system does. The file has then got a first part
  -- of the bytes, and all of them if the status is OK.
  pub write_unbuffered-Ended :
      (fuel : ℕ) (s : List ℕ) (w : os.World)
      → length s + idle_calls os f.fd fuel s w ≤ fuel
      → Ended os contents s w (write_unbuffered os fuel f s w)
  unfolding write_unbuffered after_write idle_after
  write_unbuffered-Ended fuel [] w h = record {
    after = w;
    status = ok_status;
    returned = refl;
    sent = [];
    unsent = [];
    parts = refl;
    file = rw append-nil;
    outcome = inl (ok_status-is_ok, refl);
  }
  write_unbuffered-Ended zero (c ∷ s) w h = absurd (omega arith)
  write_unbuffered-Ended (suc fuel) (c ∷ s) w h =
      let w' = (os.write f.fd (c ∷ s) w).0 in
      elim (Option-cases (os.write f.fd (c ∷ s) w).1) [
        | inl failed ↦
            let same : contents w' ≡ contents w ++ [] =
              laws.refused (c ∷ s) w failed ∙ rw append-nil refl in
            elim (Bool-cases (os.errno w' == os.eintr)) [
              | inl again ↦
                  let idle : idle_calls os f.fd (suc fuel) (c ∷ s) w
                      ≡ suc (idle_calls os f.fd fuel (c ∷ s) w') =
                    idle_calls-suc os f.fd fuel c s w none failed ∙ rw again refl in
                  rw (failed, again)
                    (Ended-later (c ∷ s) 0 w w' same
                      (write_unbuffered-Ended fuel (c ∷ s) w' (omega (arith, idle))))
              | inr other ↦
                  rw (failed, other)
                    (record {
                      after = w';
                      status = posix_error os f.filename (os.errno w');
                      returned = refl;
                      sent = [];
                      unsent = c ∷ s;
                      parts = refl;
                      file = same;
                      outcome = inr (posix_error-is_ok os f.filename (os.errno w'));
                    })
            ]
        | inr (zero, wrote) ↦
            let idle = idle_calls-suc os f.fd fuel c s w (some 0) wrote in
            rw wrote (
              Ended-later (c ∷ s) 0 w w' (laws.written (c ∷ s) w 0 wrote).1
                (write_unbuffered-Ended fuel (c ∷ s) w' (omega (arith, idle))))
        | inr (suc n, wrote) ↦
            let idle = idle_calls-suc os f.fd fuel c s w (some (suc n)) wrote in
            rw wrote (
              Ended-later (c ∷ s) (suc n) w w' (laws.written (c ∷ s) w (suc n) wrote).1
                (write_unbuffered-Ended fuel (drop n s) w' (omega (arith, idle, length-drop n s))))
      ]
