-- ===== src/WritableFile/Save.antt =====
-- `DoWriteStringToFile` of example-writablefile/writable_file.cc.
use c_plus_plus_examples.Base.{ℕ, ◌≡◌, ◌⊎◌, Bool, true, false, Option, none, some, List, ◌++◌}
use c_plus_plus_examples.Slice.{Slice}
use c_plus_plus_examples.Status.{Status, is_ok}
use c_plus_plus_examples.WritableFile.{Posix, WritableFile, destroy, do_write_string_to_file}

module _ (os : Posix) (contents : os.World → List ℕ) where
  -- The call returned. Either it is OK, no sync was asked for, and the file has got all of `s`
  -- behind what it had when it was opened; or it is not OK, and the last step, behind the destructor of
  -- the file, was to unlink it.
  pub record Saved (fuel : ℕ) (fname : List ℕ) (s : Slice) (should_sync : Bool) (w : os.World)
      (o : Option (os.World × Status)) : Type 0 where
    pub after : os.World
    pub status : Status
    pub returned : o ≡ some (after, status)
    pub file : WritableFile
    pub before : os.World
    pub last : os.World
    pub outcome :
        ((is_ok status ≡ true) × (should_sync ≡ false) × (contents after ≡ contents w ++ s))
        ⊎ ((is_ok status ≡ false)
            × (destroy os fuel file before ≡ some last)
            × (after ≡ (os.unlink fname last).0))

module _ (os : Posix) (contents : os.World → List ℕ) (patience : os.World → ℕ) where
  -- What a call comes to: the file could not be opened, and the error is reported with nothing done; or it
  -- could, and what follows is as `Saved` says.
  pub data Outcome (buf : List ℕ) (s : Slice) (fname : List ℕ) (should_sync : Bool) (fuel : ℕ)
      (w : os.World) : Type 0 where
    not_opened :
        (status : Status)
        → (os.open_file fname w).1 ≡ none
        → do_write_string_to_file os fuel buf s fname should_sync w
          ≡ some ((os.open_file fname w).0, status)
        → is_ok status ≡ false
        → Outcome buf s fname should_sync fuel w
    opened :
        (fd : ℕ)
        → (os.open_file fname w).1 ≡ some fd
        → Saved os contents fuel fname s should_sync
            (os.open_file fname w).0
            (do_write_string_to_file os fuel buf s fname should_sync w)
        → Outcome buf s fname should_sync fuel w
