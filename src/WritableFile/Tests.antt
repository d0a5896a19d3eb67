-- ===== src/WritableFile/Tests.antt =====
-- The writable file over a disk that is interrupted at first and then takes three bytes at a time.
use Prim.Native.Nat.{min}
use c_plus_plus_examples.Base.{
  ℕ, zero, suc, ◌≤◌, ◌<◌, ◌≡◌, refl, Option, none, some, List, [], ◌∷◌, ◌++◌, length, take,
  replicate, length-replicate, arith,
}
use c_plus_plus_examples.Status.{codes, ok_status}
use c_plus_plus_examples.WritableFile.{
  Posix, WritableFile, buffer_size, write_unbuffered, after_write, append,
}
use c_plus_plus_examples.WritableFile.Buffer.{IsValid}
use c_plus_plus_examples.WritableFile.Write.{Writes}
use c_plus_plus_examples.WritableFile.Ends.{Appends, Ended, idle_calls, write_unbuffered-Ended}
use c_plus_plus_examples.WritableFile.Append.{Appended, append-Appended}

record Disk : Type 0 where
  file : List ℕ
  interruptions : ℕ

abbrev answer : ℕ → List ℕ → List ℕ → Disk × Option ℕ
answer zero s file = (
  record { file = file ++ take (min 3 (length s)) s; interruptions = 0 },
  some (min 3 (length s)),
)
answer (suc n) s file = (record { file = file; interruptions = n }, none)

-- Every failure is EINTR, which is 4.
abbrev disk_os : Posix
disk_os = record {
  World = Disk;
  open_file = λ fname w. (record w { file = [] }, some 3);
  write = λ fd s w. answer w.interruptions s w.file;
  fsync = λ fd w. (w, some 0);
  close_fd = λ fd w. (w, some 0);
  unlink = λ fname w. (record w { file = [] }, some 0);
  errno = λ w. 4;
  strerror = λ e. [];
  eintr = 4;
  enoent = 2;
}

answer_written :
    (k n : ℕ) (s file : List ℕ)
    → (answer k s file).1 ≡ some n
    → (n ≤ length s) × ((answer k s file).0.file ≡ file ++ take n s)
answer_written zero n s file h = ground arith
answer_written (suc k) n s file h = absurd (ground arith)

answer_refused :
    (k : ℕ) (s file : List ℕ) → (answer k s file).1 ≡ none → (answer k s file).0.file ≡ file
answer_refused zero s file h = absurd (ground arith)
answer_refused (suc k) s file h = refl

answer_steady : (k : ℕ) (s file : List ℕ) → (answer k s file).0.interruptions ≤ k
answer_steady zero s file = omega arith
answer_steady (suc k) s file = omega arith

answer_stalls :
    (k c : ℕ) (s file : List ℕ)
    → (answer k (c ∷ s) file).1 ≡ some 0
    → (answer k (c ∷ s) file).0.interruptions < k
answer_stalls zero c s file h = absurd (ground arith)
answer_stalls (suc k) c s file h = omega arith

answer_interrupts :
    (k : ℕ) (s file : List ℕ) → (answer k s file).1 ≡ none → (answer k s file).0.interruptions < k
answer_interrupts zero s file h = absurd (ground arith)
answer_interrupts (suc k) s file h = omega arith

disk-Writes : Writes disk_os (some 3) (λ w. w.file) (λ w. w.interruptions)
disk-Writes = record {
  written = λ s w n h. answer_written w.interruptions n s w.file h;
  refused = λ s w h. answer_refused w.interruptions s w.file h;
  steady = λ s w. answer_steady w.interruptions s w.file;
  stalls = λ c s w h. answer_stalls w.interruptions c s w.file h;
  interrupts = λ s w h e. answer_interrupts w.interruptions s w.file h;
}

abbrev blank : Disk
blank = record { file = []; interruptions = 2 }

-- `char buf_[kWritableFileBufferSize]`
blank_buffer : List ℕ
blank_buffer = replicate buffer_size 0

length-blank_buffer : length blank_buffer ≡ buffer_size
unfolding blank_buffer
length-blank_buffer = length-replicate {A = ℕ} buffer_size 0

hello : WritableFile
hello = record {
  buf = blank_buffer;
  pos = 0;
  fd = some 3;
  filename = codes "./hello.txt";
  dirname = codes ".";
}

hello-IsValid : IsValid hello
unfolding hello
hello-IsValid = record { size = length-blank_buffer; within = omega arith }

-- Two interruptions and three partial writes.
written_in_parts :
    write_unbuffered disk_os 5 hello (codes "hello, w") blank
    ≡ some (record { file = codes "hello, w"; interruptions = 0 }, ok_status)
unfolding write_unbuffered after_write hello
written_in_parts = refl

disk-Appends : Appends disk_os (some 3) (λ w. w.file)
disk-Appends = record { written = disk-Writes.written; refused = disk-Writes.refused }

-- Two of the first five calls are interrupted, and three write the eight bytes.
write_unbuffered-Ended_example :
    Ended disk_os
      (λ w. w.file)
      (codes "hello, w")
      blank
      (write_unbuffered disk_os 10 hello (codes "hello, w") blank)
unfolding hello idle_calls
write_unbuffered-Ended_example =
    write_unbuffered-Ended disk_os hello (λ w. w.file) disk-Appends 10 (codes "hello, w") blank
      (omega arith)

append-Appended_example :
    Appended disk_os
      (λ w. w.file)
      (λ w. w.interruptions)
      hello
      (codes "hello")
      blank
      (append disk_os 70000 hello (codes "hello") blank)
unfolding hello
append-Appended_example =
    append-Appended disk_os hello (λ w. w.file) (λ w. w.interruptions) 70000 (codes "hello") blank
      disk-Writes hello-IsValid (omega arith)
