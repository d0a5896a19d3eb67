-- ===== src/MapList/Tests.antt =====
-- Tests of the list of maps, and the theorems at concrete inputs.
use c_plus_plus_examples.Base.{
  ℕ, ◌≡◌, refl, some, List, [], ◌∷◌, ◌++◌, get_or, length, arith, ℕ_discrete,
}
use c_plus_plus_examples.Base.Map.{find, emplace}
use c_plus_plus_examples.MapList.{
  Item, Globals, push, run, runs, run_globals, initial_globals, set_per_round_max_item_cnt,
}
use c_plus_plus_examples.MapList.Loop.{Shows}
use c_plus_plus_examples.MapList.Round.{Within, run-Shows}
use c_plus_plus_examples.MapList.Rounds.{runs-show_all}

-- Three buckets, the second empty.
abbrev three_buckets : List (List Item)
three_buckets = ((3, 30) ∷ (6, 60) ∷ []) ∷ [] ∷ ((5, 50) ∷ (2, 20) ∷ (8, 80) ∷ []) ∷ []

push_test : push (push (push [] 1 10) 2 20) 1 30 ≡ (2, 20) ∷ (1, 10) ∷ []
unfolding push find emplace ℕ_discrete
push_test = refl

-- With a limit of four the third bucket has to wait for the second call.
run_test : run three_buckets 4 0 ≡ some (2, (3, 30) ∷ (6, 60) ∷ [])
unfolding run
run_test = refl

runs_test :
    runs three_buckets 4 2 0 ≡ some (3, (3, 30) ∷ (6, 60) ∷ (5, 50) ∷ (2, 20) ∷ (8, 80) ∷ [])
unfolding runs
runs_test = refl

-- A higher limit, from where the first call has stopped.
abbrev raised : Globals
raised = set_per_round_max_item_cnt 20 (record initial_globals { curr_bucket_idx = 2 })

run_globals_test :
    run_globals three_buckets raised
    ≡ some (
      record raised { curr_bucket_idx = 5 },
      (5, 50) ∷ (2, 20) ∷ (8, 80) ∷ (3, 30) ∷ (6, 60) ∷ [],
    )
unfolding run_globals set_per_round_max_item_cnt initial_globals
run_globals_test = refl

run-Shows_example :
    (s : Shows three_buckets 4 2 2 0 (run three_buckets 4 2)) × Within three_buckets 4 2 s.m
run-Shows_example = run-Shows three_buckets 4 2 (omega arith) (omega arith)

runs-show_all_example :
    (end : ℕ) × (before after : List Item) × (runs three_buckets 4 (length three_buckets) 2
      ≡ some (end, before ++ (get_or three_buckets 0 [] ++ after)))
runs-show_all_example = runs-show_all three_buckets 4 2 0 (omega arith) (omega arith)
