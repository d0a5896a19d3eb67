-- ===== src/WritableFile.antt =====
-- example-writablefile/writable_file.h, writable_file.cc: a file with a buffer of 64 KB. The system
-- calls are a parameter, `Posix`; a call that returns -1 is `none`, and `errno` is read from the
-- world behind it. `none` as the result of a function here is fuel that has run out.
pub mod Buffer
pub mod Write
pub mod Ends
pub mod Append
pub mod Close
pub mod Save
mod Tests
use c_plus_plus_examples.Base.{
  ℕ, zero, suc, ◌+◌, ◌-◌, Bool, true, false, not, Option, none, some, List, [], ◌∷◌, length, take,
  drop, min, ltb, leb, ◌==◌, ◌&&◌, if◌then◌else◌,
}
use c_plus_plus_examples.Base.Chain.{◌>>=◌}
use c_plus_plus_examples.Slice.{Slice}
use c_plus_plus_examples.Status.{
  Status, memcpy, ok_status, is_ok, not_found, io_error, not_supported, codes,
}

-- The system calls that the source uses, and the numbers of <errno.h>.
pub record Posix : Type 1 where
  pub World : Type 0
  pub open_file : List ℕ → World → World × Option ℕ
  pub write : Option ℕ → List ℕ → World → World × Option ℕ
  pub fsync : Option ℕ → World → World × Option ℕ
  pub close_fd : Option ℕ → World → World × Option ℕ
  pub unlink : List ℕ → World → World × Option ℕ
  pub errno : World → ℕ
  pub strerror : ℕ → List ℕ
  pub eintr : ℕ
  pub enoent : ℕ

-- `kWritableFileBufferSize`
abbrev pub buffer_size : ℕ
buffer_size = 65536

-- `WritableFileImpl`: `buf_` with all its bytes, and `none` for the descriptor -1.
pub record WritableFile : Type 0 where
  pub buf : List ℕ
  pub pos : ℕ
  pub fd : Option ℕ
  pub filename : List ℕ
  pub dirname : List ℕ

-- `find('/', from)` and `rfind('/')`, with `none` for `npos`.
unfoldable pub find_slash : List ℕ → Option ℕ
find_slash [] = none
find_slash (c ∷ s) =
    if c == b'/' then some 0 else elim (find_slash s) [ none ↦ none | some i ↦ some (suc i) ]

unfoldable pub rfind_slash : List ℕ → Option ℕ
rfind_slash [] = none
rfind_slash (c ∷ s) = elim (rfind_slash s) [
  | none ↦ if c == b'/' then some 0 else none
  | some i ↦ some (suc i)
]

-- `Dirname`, with `none` for the assertion that fails.
unfoldable pub dirname_of : List ℕ → Option (List ℕ)
unfolding find_slash rfind_slash
dirname_of filename = elim (rfind_slash filename) [
  | none ↦ some (codes ".")
  | some pos ↦ elim (find_slash (drop (pos + 1) filename)) [
    | none ↦ some (take pos filename)
    | some _ ↦ none
  ]
]

module _ (os : Posix) where
  open os use {World, open_file, write, fsync, close_fd, unlink, errno, strerror, eintr, enoent}

  unfoldable pub posix_error : List ℕ → ℕ → Status
  posix_error filename errcode =
      if errcode == enoent
      then not_found filename (strerror errcode)
      else io_error filename (strerror errcode)

  unfoldable pub remove_file : List ℕ → World → World × Status
  unfolding posix_error
  remove_file fname w =
      let (w, result) = unlink fname w in
      elim result [
        | some zero ↦ (w, ok_status)
        | some (suc _) ↦ (w, posix_error fname (errno w))
        | none ↦ (w, posix_error fname (errno w))
      ]

  -- One round of `WriteUnbuffered` behind the call of `write`.
  unfoldable pub after_write :
      List ℕ
      → World
      → Option ℕ
      → Option (World × Status)
      → (ℕ → Option (World × Status))
      → Option (World × Status)
  after_write filename w none again more =
      if errno w == eintr then again else some (w, posix_error filename (errno w))
  after_write filename w (some n) again more = more n

  -- The loop of `WriteUnbuffered`; the fuel is the number of calls of `write`.
  unfoldable pub write_unbuffered : ℕ → WritableFile → List ℕ → World → Option (World × Status)
  write_unbuffered fuel f [] w = some (w, ok_status)
  write_unbuffered zero f (c ∷ s) w = none
  write_unbuffered (suc fuel) f (c ∷ s) w =
      let (w', result) = write f.fd (c ∷ s) w in
      let again = write_unbuffered fuel f (c ∷ s) w' in
      after_write f.filename w' result again (λ n. write_unbuffered fuel f (drop n (c ∷ s)) w')

  -- `FlushBuffer`: `pos_` is reset whatever the result is.
  unfoldable pub flush_buffer : ℕ → WritableFile → World → Option (World × WritableFile × Status)
  unfolding write_unbuffered
  flush_buffer fuel f w = do
    (w', r) ← write_unbuffered fuel f (take f.pos f.buf) w
    some (w', record f { pos = 0 }, r)

  -- The end of `Append`, behind the flush.
  unfoldable pub append_rest :
      ℕ → WritableFile → List ℕ → World → Option (World × WritableFile × Status)
  unfolding write_unbuffered
  append_rest fuel f rest w =
      if ltb (length rest) buffer_size
      then some (w, record f { buf = memcpy f.buf 0 rest; pos = length rest }, ok_status)
      else do (w', r) ← write_unbuffered fuel f rest w; some (w', f, r)

  unfoldable pub append_flushed :
      ℕ → List ℕ → World × WritableFile × Status → Option (World × WritableFile × Status)
  unfolding append_rest
  append_flushed fuel rest (w, f, r) =
      if not (is_ok r) then some (w, f, r) else append_rest fuel f rest w

  unfoldable pub append : ℕ → WritableFile → Slice → World → Option (World × WritableFile × Status)
  unfolding flush_buffer append_flushed
  append fuel f s w =
      let copy_size = min (length s) (buffer_size - f.pos) in
      let rest = drop copy_size s in
      let f' = record f { buf = memcpy f.buf f.pos (take copy_size s); pos = f.pos + copy_size } in
      if length rest == 0
      then some (w, f', ok_status)
      else do flushed ← flush_buffer fuel f' w; append_flushed fuel rest flushed

  unfoldable pub close : ℕ → WritableFile → World → Option (World × WritableFile × Status)
  unfolding flush_buffer posix_error
  close fuel f w = do
    (w1, f1, s) ← flush_buffer fuel f w
    let (w2, close_result) = close_fd f1.fd w1
    let failed = (elim close_result [ none ↦ true | some _ ↦ false ]) && is_ok s
    some (w2, record f1 { fd = none }, if failed then posix_error f1.filename (errno w2) else s)

  -- `bool sync_success = ::fsync(fd)` is true for -1 and false for 0.
  unfoldable pub sync_fd : Option ℕ → List ℕ → World → World × Status
  unfolding posix_error
  sync_fd fd filename w =
      let (w', result) = fsync fd w in
      elim result [
        | none ↦ (w', ok_status)
        | some zero ↦ (w', posix_error filename (errno w'))
        | some (suc _) ↦ (w', ok_status)
      ]

  unfoldable pub flush : ℕ → WritableFile → World → Option (World × WritableFile × Status)
  unfolding flush_buffer sync_fd
  flush fuel f w = do
    (w1, f1, s) ← flush_buffer fuel f w
    let (w2, r) = sync_fd f1.fd f1.filename w1
    some (if not (is_ok s) then (w1, f1, s) else (w2, f1, r))

  unfoldable pub sync : Status
  sync = not_supported [] []

  -- The destructor.
  unfoldable pub destroy : ℕ → WritableFile → World → Option World
  unfolding close
  destroy fuel f w = elim f.fd [ none ↦ some w | some _ ↦ do (w', f', s) ← close fuel f w; some w' ]

  -- `NewWritableFile`: the buffer is not initialised, so its bytes are a parameter.
  unfoldable pub new_writable_file :
      List ℕ → List ℕ → World → Option (World × Option WritableFile × Status)
  unfolding posix_error
  new_writable_file buf fname w =
      let (w', result) = open_file fname w in
      elim result [
        | none ↦ some (w', none, posix_error fname (errno w'))
        | some fd ↦ do
          dirname ← dirname_of fname
          some (
            w',
            some (record { buf = buf; pos = 0; fd = some fd; filename = fname; dirname = dirname }),
            ok_status,
          )
      ]

  -- `DoWriteStringToFile` behind `NewWritableFile`.
  unfoldable pub write_to_file :
      ℕ → Slice → List ℕ → Bool → World → WritableFile → Option (World × Status)
  write_to_file fuel s fname should_sync w file = do
    (w1, f1, r1) ← append fuel file s w
    let r2 = if is_ok r1 && should_sync then sync else r1
    (w3, f3, r3) ← if is_ok r2 then close fuel f1 w1 else some (w1, f1, r2)
    w4 ← destroy fuel f3 w3
    some (if not (is_ok r3) then ((remove_file fname w4).0, r3) else (w4, r3))

  do_write_opened :
      ℕ → Slice → List ℕ → Bool → World × Option WritableFile × Status → Option (World × Status)
  do_write_opened fuel s fname should_sync (w, none, r) = some (w, r)
  do_write_opened fuel s fname should_sync (w, some file, r) =
      write_to_file fuel s fname should_sync w file

  unfoldable pub do_write_string_to_file :
      ℕ → List ℕ → Slice → List ℕ → Bool → World → Option (World × Status)
  unfolding do_write_opened
  do_write_string_to_file fuel buf s fname should_sync w = do
    opened ← new_writable_file buf fname w
    do_write_opened fuel s fname should_sync opened
