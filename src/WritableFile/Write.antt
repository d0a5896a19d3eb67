-- ===== src/WritableFile/Write.antt =====
-- `WriteUnbuffered` of example-writablefile/writable_file.h.
use c_plus_plus_examples.Base.{
  ℕ, zero, suc, ◌+◌, ◌≤◌, ◌<◌, ◌≡◌, refl, ◌∙◌, ◌⊎◌, inl, inr, true, false, Option, none, some, List,
  [], ◌∷◌, ◌++◌, length, take, drop, arith, append_assoc, append-nil, take-append-drop, length-drop,
  ◌==◌, if◌then◌else◌, Bool-cases, Option-cases, ==_iff,
}
use c_plus_plus_examples.Status.{Status, is_ok, ok_status, not_found, io_error, error_status}
use c_plus_plus_examples.WritableFile.{
  Posix, WritableFile, posix_error, after_write, write_unbuffered,
}

pub posix_error-is_ok :
    (os : Posix) (filename : List ℕ) (e : ℕ) → is_ok (posix_error os filename e) ≡ false
unfolding posix_error not_found io_error error_status is_ok
posix_error-is_ok os filename e = elim (Bool-cases (e == os.enoent)) [
  | inl missing ↦ rw missing refl
  | inr other ↦ rw other refl
]

pub ok_status-is_ok : is_ok ok_status ≡ true
unfolding is_ok ok_status
ok_status-is_ok = refl

module _ (os : Posix) (filename : List ℕ) (w : os.World) (again : Option (os.World × Status))
    (more : ℕ → Option (os.World × Status)) where
  after_write-none :
      after_write os filename w none again more
      ≡ (if os.errno w == os.eintr then again else some (w, posix_error os filename (os.errno w)))
  unfolding after_write
  after_write-none = refl

  after_write-some : (n : ℕ) → after_write os filename w (some n) again more ≡ more n
  unfolding after_write
  after_write-some n = refl

-- What POSIX says of `write` on one open descriptor: it appends the first `n` bytes or, when it
-- fails, nothing. `patience` bounds how often it may be interrupted or write no byte at all.
pub record Writes (os : Posix) (fd : Option ℕ) (contents : os.World → List ℕ)
    (patience : os.World → ℕ) : Type 0 where
  pub written :
      (s : List ℕ) (w : os.World) (n : ℕ)
      → (os.write fd s w).1 ≡ some n
      → (n ≤ length s) × (contents (os.write fd s w).0 ≡ contents w ++ take n s)
  pub refused :
      (s : List ℕ) (w : os.World)
      → (os.write fd s w).1 ≡ none
      → contents (os.write fd s w).0 ≡ contents w
  pub steady : (s : List ℕ) (w : os.World) → patience (os.write fd s w).0 ≤ patience w
  pub stalls :
      (c : ℕ) (s : List ℕ) (w : os.World)
      → (os.write fd (c ∷ s) w).1 ≡ some 0
      → patience (os.write fd (c ∷ s) w).0 < patience w
  pub interrupts :
      (s : List ℕ) (w : os.World)
      → (os.write fd s w).1 ≡ none
      → os.errno (os.write fd s w).0 ≡ os.eintr
      → patience (os.write fd s w).0 < patience w

module _ (os : Posix) (contents : os.World → List ℕ) (patience : os.World → ℕ) where
  -- The call returned; the file has got the first part of `s`, and all of it if the status is OK.
  pub record Wrote (s : List ℕ) (w : os.World) (o : Option (os.World × Status)) : Type 0 where
    pub after : os.World
    pub status : Status
    pub returned : o ≡ some (after, status)
    pub steady : patience after ≤ patience w
    pub sent : List ℕ
    pub unsent : List ℕ
    pub parts : sent ++ unsent ≡ s
    pub file : contents after ≡ contents w ++ sent
    pub outcome : ((is_ok status ≡ true) × (unsent ≡ [])) ⊎ (is_ok status ≡ false)

module _ (os : Posix) (f : WritableFile) (contents : os.World → List ℕ) (patience : os.World → ℕ)
    (laws : Writes os f.fd contents patience) where
  Wrote-later :
      (s : List ℕ) (n : ℕ) (w w' : os.World) {o : Option (os.World × Status)}
      → contents w' ≡ contents w ++ take n s
      → patience w' ≤ patience w
      → Wrote os contents patience (drop n s) w' o
      → Wrote os contents patience s w o
  Wrote-later s n w w' got less r = record {
    after = r.after;
    status = r.status;
    returned = r.returned;
    steady = omega (arith, r.steady);
    sent = take n s ++ r.sent;
    unsent = r.unsent;
    parts = rw (append_assoc, r.parts) (take-append-drop n s);
    file = r.file ∙ rw (got, append_assoc);
    outcome = r.outcome;
  }

  shorter :
      (fuel c : ℕ) (s : List ℕ) (w : os.World) (n : ℕ)
      → patience w + suc (length s) ≤ suc fuel
      → (os.write f.fd (c ∷ s) w).1 ≡ some n
      → patience (os.write f.fd (c ∷ s) w).0 + length (drop n (c ∷ s)) ≤ fuel
  shorter fuel c s w zero h wrote = omega (arith, laws.stalls c s w wrote)
  shorter fuel c s w (suc n) h wrote = omega (arith, laws.steady (c ∷ s) w, length-drop n s)

  -- With enough fuel for the bytes and the interruptions the loop ends by itself.
  pub write_unbuffered-Wrote :
      (fuel : ℕ) (s : List ℕ) (w : os.World)
      → patience w + length s ≤ fuel
      → Wrote os contents patience s w (write_unbuffered os fuel f s w)
  unfolding write_unbuffered
  write_unbuffered-Wrote fuel [] w h = record {
    after = w;
    status = ok_status;
    returned = refl;
    steady = omega arith;
    sent = [];
    unsent = [];
    parts = refl;
    file = rw append-nil;
    outcome = inl (ok_status-is_ok, refl);
  }
  write_unbuffered-Wrote zero (c ∷ s) w h = absurd (omega arith)
  write_unbuffered-Wrote (suc fuel) (c ∷ s) w h =
      let w' = (os.write f.fd (c ∷ s) w).0 in
      elim (Option-cases (os.write f.fd (c ∷ s) w).1) [
        | inl failed ↦
            rw (failed, after_write-none)
              (elim (Bool-cases (os.errno w' == os.eintr)) [
                | inl again ↦ rw again (
                    Wrote-later (c ∷ s) 0 w w' (laws.refused (c ∷ s) w failed ∙ rw append-nil refl)
                      (laws.steady (c ∷ s) w)
                      (write_unbuffered-Wrote fuel (c ∷ s) w'
                        (omega (arith, laws.interrupts (c ∷ s) w failed ((==_iff _ _).0 again)))))
                | inr other ↦ rw other (record {
                  after = w';
                  status = posix_error os f.filename (os.errno w');
                  returned = refl;
                  steady = laws.steady (c ∷ s) w;
                  sent = [];
                  unsent = c ∷ s;
                  parts = refl;
                  file = laws.refused (c ∷ s) w failed ∙ rw append-nil refl;
                  outcome = inr (posix_error-is_ok os f.filename (os.errno w'));
                })
              ])
        | inr (n, wrote) ↦
            rw (wrote, after_write-some)
              (Wrote-later (c ∷ s) n w w' (laws.written (c ∷ s) w n wrote).1 (laws.steady (c ∷ s) w)
                (write_unbuffered-Wrote fuel (drop n (c ∷ s)) w' (shorter fuel c s w n h wrote)))
      ]
