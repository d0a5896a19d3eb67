-- ===== src/Publication/Tests.antt =====
-- Runs of the two threads of example-memory-ordered/main.cc, and the theorems at concrete runs.
use c_plus_plus_examples.Base.{◌≡◌, refl, none, some, [], ◌∷◌, arith}
use c_plus_plus_examples.Publication.{
  System, Move, May, Reachable, hello, step, consume_store, read_data, new_system, start, go_on,
  string_at, data_is, has_ended, produces, consumes,
}
use c_plus_plus_examples.Publication.Safety.{no_race, consumer_ends}

abbrev next : System → Move → System
next s m = elim (step s m) [ none ↦ s | some t ↦ t ]

-- A string at address 5, and a load of the null pointer meanwhile.
abbrev string_written : System
string_written = next new_system (produces 5)

abbrev polled : System
polled = next string_written (consumes 0)

abbrev data_written : System
data_written = next polled (produces 5)

abbrev pointer_stored : System
pointer_stored = next data_written (produces 5)

pointer_stored-Reachable : Reachable pointer_stored
unfolding step May new_system
pointer_stored-Reachable =
    go_on data_written pointer_stored (produces 5)
      (go_on polled data_written (produces 5)
        (go_on string_written polled (consumes 0)
          (go_on new_system string_written (produces 5) start (omega arith) refl)
          (omega arith, omega arith) refl)
        (omega arith) refl)
      (omega arith) refl

-- Without the view of the store, a read of `data` is a race.
race_test : read_data 1 (string_at 5 hello ∷ data_is 42 ∷ []) ≡ none
unfolding read_data
race_test = refl

no_race_example : (t : System) × (step pointer_stored (consumes 1) ≡ some t)
unfolding step May new_system
no_race_example =
    no_race pointer_stored (consumes 1) pointer_stored-Reachable (omega arith, omega arith)

consumer_ends_example :
    consume_store pointer_stored.memory pointer_stored.consumer 1
    ≡ some (record { place = has_ended; seen = 1; view = 2 })
unfolding step new_system
consumer_ends_example = consumer_ends pointer_stored 5 pointer_stored-Reachable refl refl
