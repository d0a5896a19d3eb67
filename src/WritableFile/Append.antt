-- ===== src/WritableFile/Append.antt =====
-- `Append`, `Flush` and `Close` of example-writablefile/writable_file.h against the stream of bytes
-- that the file stands for: those that it has, and behind them those that wait in the buffer.
use c_plus_plus_examples.Base.{
  ℕ, ◌+◌, ◌-◌, ◌≤◌, ◌≡◌, refl, sym, ap, ◌∙◌, ◌⊎◌, inl, inr, true, false, Option, some, List, [],
  ◌++◌, length, take, drop, min, arith, append_assoc, append-nil, take-append-drop, length-drop,
  length-take, ltb, ◌==◌, Bool-cases,
}
use c_plus_plus_examples.Slice.{Slice}
use c_plus_plus_examples.Status.{Status, memcpy, is_ok, ok_status}
use c_plus_plus_examples.WritableFile.{
  Posix, WritableFile, buffer_size, flush_buffer, append_rest, append_flushed, append,
}
use c_plus_plus_examples.WritableFile.Buffer.{IsValid, pending, length-memcpy, take-memcpy}
use c_plus_plus_examples.WritableFile.Write.{Writes, Wrote, write_unbuffered-Wrote, ok_status-is_ok}

-- The buffer with as much of `s` as fits, as `Append` fills it.
abbrev copied : WritableFile → Slice → ℕ
copied f s = min (length s) (buffer_size - f.pos)

filled : WritableFile → Slice → WritableFile
filled f s = record f { buf = memcpy f.buf f.pos (take (copied f s) s); pos = f.pos + copied f s }

filled-IsValid : (f : WritableFile) (s : Slice) → IsValid f → IsValid (filled f s)
unfolding filled
filled-IsValid f s v = record {
  size = length-memcpy f.buf f.pos (take (copied f s) s) ∙ v.size;
  within = omega (arith, v.within);
}

filled-pending :
    (f : WritableFile) (s : Slice)
    → IsValid f
    → pending (filled f s) ≡ pending f ++ take (copied f s) s
unfolding filled
filled-pending f s v =
    let n : length (take (copied f s) s) ≡ copied f s = omega (arith, length-take (copied f s) s) in
    rw n at (take-memcpy f.buf f.pos (take (copied f s) s) (omega (arith, n, v.size, v.within)))

pub length-pending : (f : WritableFile) → IsValid f → length (pending f) ≤ buffer_size
length-pending f v = omega (arith, length-take f.pos f.buf, v.within)

module _ (os : Posix) (contents : os.World → List ℕ) (patience : os.World → ℕ) where
  -- The call returned. Either it is OK and the stream has grown by `s`, or it is not, and the file
  -- has a part of that stream, from its start.
  pub record Appended (f : WritableFile) (s : Slice) (w : os.World)
      (o : Option (os.World × WritableFile × Status)) : Type 0 where
    pub after : os.World
    pub file : WritableFile
    pub status : Status
    pub returned : o ≡ some (after, file, status)
    pub valid : IsValid file
    pub same_fd : file.fd ≡ f.fd
    pub steady : patience after ≤ patience w
    pub lost : List ℕ
    pub outcome :
        ((is_ok status ≡ true) × (contents after ++ pending file ≡ (contents w ++ pending f) ++ s))
        ⊎ ((is_ok status ≡ false) × (contents after ++ lost ≡ (contents w ++ pending f) ++ s))

pub none_pending : (f : WritableFile) → f.pos ≡ 0 → pending f ≡ []
none_pending f empty = ap (λ n. take n f.buf) empty

memcpy_front :
    (buf rest : List ℕ) → length rest ≤ length buf → take (length rest) (memcpy buf 0 rest) ≡ rest
memcpy_front buf rest h =
    let e : length rest ≡ 0 + length rest = omega arith in
    ap (λ n. take n (memcpy buf 0 rest)) e ∙ take-memcpy buf 0 rest (omega arith)

-- The file and what was not sent make up the whole.
pub Wrote-whole :
    (os : Posix) (contents : os.World → List ℕ) (patience : os.World → ℕ) (s : List ℕ)
    (w : os.World) {o : Option (os.World × Status)} (r : Wrote os contents patience s w o)
    → contents r.after ++ r.unsent ≡ contents w ++ s
Wrote-whole os contents patience s w r = rw (r.file, append_assoc, r.parts) refl

module _ (os : Posix) (f : WritableFile) (contents : os.World → List ℕ) (patience : os.World → ℕ)
    (laws : Writes os f.fd contents patience) (v : IsValid f) where
  -- Nothing of `s` is left over when the buffer has room.
  filled_stream : (s : Slice) → pending (filled f s) ++ drop (copied f s) s ≡ pending f ++ s
  filled_stream s = rw (filled-pending f s v, append_assoc, take-append-drop (copied f s) s) refl

  -- Behind a flush that was OK: `rest` goes to the empty buffer, or to the file if it is too long.
  append_rest-Appended :
      (fuel : ℕ) (rest : Slice) (w : os.World)
      → f.pos ≡ 0
      → patience w + length rest ≤ fuel
      → Appended os contents patience f rest w (append_rest os fuel f rest w)
  unfolding append_rest
  append_rest-Appended fuel rest w empty h = elim (Bool-cases (ltb (length rest) buffer_size)) [
    | inl short ↦ rw short (record {
      after = w;
      file = record f { buf = memcpy f.buf 0 rest; pos = length rest };
      status = ok_status;
      returned = refl;
      valid = record { size = length-memcpy f.buf 0 rest ∙ v.size; within = ground arith };
      same_fd = refl;
      steady = omega arith;
      lost = [];
      outcome = inl (
        ok_status-is_ok,
        rw (none_pending f empty, append-nil)
            (ap (λ l. contents w ++ l) (memcpy_front f.buf rest (ground (arith, v.size)))),
      );
    })
    | inr long ↦
        let r = write_unbuffered-Wrote os f contents patience laws fuel rest w h in
        rw (long, r.returned)
          (record {
            after = r.after;
            file = f;
            status = r.status;
            returned = refl;
            valid = v;
            same_fd = refl;
            steady = r.steady;
            lost = r.unsent;
            outcome = elim r.outcome [
              | inl (fine, done) ↦ inl (
                fine,
                rw (none_pending f empty, append-nil, append-nil)
                    (sym (append-nil _)
                      ∙ (rw (sym done) (Wrote-whole os contents patience rest w r))),
              )
              | inr bad ↦ inr (
                bad,
                rw (none_pending f empty, append-nil) (Wrote-whole os contents patience rest w r),
              )
            ];
          })
  ]

Appended-later :
    (os : Posix) (contents : os.World → List ℕ) (patience : os.World → ℕ) (f f2 : WritableFile)
    (s rest : Slice) (w w2 : os.World) {o : Option (os.World × WritableFile × Status)}
    → f2.fd ≡ f.fd
    → (contents w2 ++ pending f2) ++ rest ≡ (contents w ++ pending f) ++ s
    → patience w2 ≤ patience w
    → Appended os contents patience f2 rest w2 o
    → Appended os contents patience f s w o
Appended-later os contents patience f f2 s rest w w2 fd stream less r = record {
  after = r.after;
  file = r.file;
  status = r.status;
  returned = r.returned;
  valid = r.valid;
  same_fd = r.same_fd ∙ fd;
  steady = omega (arith, r.steady);
  lost = r.lost;
  outcome = elim r.outcome [
    | inl (fine, all) ↦ inl (fine, all ∙ stream)
    | inr (bad, part) ↦ inr (bad, part ∙ stream)
  ];
}

nil_of_length : (l : List ℕ) → (length l == 0) ≡ true → l ≡ []
nil_of_length l h = ground arith

-- `Append` returns, given fuel for the interruptions, the buffer and the new bytes. If it is OK, the
-- stream is longer by exactly `s`; if not, what the file has is a first part of that stream. The
-- buffer stays valid and the descriptor is the same.
pub append-Appended :
    (os : Posix) (f : WritableFile) (contents : os.World → List ℕ) (patience : os.World → ℕ)
    (fuel : ℕ) (s : Slice) (w : os.World)
    → Writes os f.fd contents patience
    → IsValid f
    → patience w + (buffer_size + length s) ≤ fuel
    → Appended os contents patience f s w (append os fuel f s w)
unfolding append flush_buffer append_flushed filled
append-Appended os f contents patience fuel s w laws v h =
    let rest = drop (copied f s) s in
    let f2 = record (filled f s) { pos = 0 } in
    let valid = filled-IsValid f s v in
    let r =
      write_unbuffered-Wrote os (filled f s) contents patience laws fuel (pending (filled f s)) w
        (omega (arith, length-pending (filled f s) valid)) in
    let whole : (contents r.after ++ r.unsent) ++ rest ≡ (contents w ++ pending f) ++ s =
      rw
        (
          Wrote-whole os contents patience _ w r,
          append_assoc,
          append_assoc,
          filled_stream os f contents patience laws v s,
        )
        refl in
    elim (Bool-cases (length rest == 0)) [
      | inl all ↦ rw all (record {
        after = w;
        file = filled f s;
        status = ok_status;
        returned = refl;
        valid = valid;
        same_fd = refl;
        steady = omega arith;
        lost = [];
        outcome = inl (
          ok_status-is_ok,
          rw append_assoc (
              ap (λ l. contents w ++ l)
                (sym (append-nil (pending (filled f s)))
                  ∙ (rw (nil_of_length rest all) at
                      (filled_stream os f contents patience laws v s)))),
        );
      })
      | inr more ↦ elim r.outcome [
        | inl (fine, done) ↦
            rw (more, r.returned, fine)
              (Appended-later os contents patience f f2 s rest w r.after refl (rw done at whole)
                r.steady
                (append_rest-Appended os f2 contents patience laws
                  (record { size = valid.size; within = omega arith }) fuel rest r.after refl
                  (omega (arith, r.steady, length-drop (copied f s) s))))
        | inr bad ↦
            rw (more, r.returned, bad)
              (record {
                after = r.after;
                file = f2;
                status = r.status;
                returned = refl;
                valid = record { size = valid.size; within = omega arith };
                same_fd = refl;
                steady = r.steady;
                lost = r.unsent ++ rest;
                outcome = inr (bad, sym (append_assoc (contents r.after) r.unsent rest) ∙ whole);
              })
      ]
    ]
