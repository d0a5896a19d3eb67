-- ===== src/FairQueue/Destroy.antt =====
-- What the destructor of example-fq/fair_queue.cc deletes.
use c_plus_plus_examples.Base.{
  ℕ, ◌<◌, ◌≡◌, refl, sym, ◌∙◌, true, false, some, none, List, [], ◌∷◌, arith, All, elem, ℕ_discrete,
}
use c_plus_plus_examples.Base.Map.{find}
use c_plus_plus_examples.FairQueue.{ClientQueue, FairQueue, destroy}
use c_plus_plus_examples.FairQueue.Rotation.{index, Apart}
use c_plus_plus_examples.FairQueue.Refines.{IsValid}

absent-elem :
    (h : ℕ → ClientQueue) (p : ℕ) (ps : List ℕ)
    → index h (h p).client_id ps ≡ none
    → elem p ps ≡ false
absent-elem h p [] absent = refl
absent-elem h p (x ∷ ps) absent = ground (arith, absent, absent-elem h p ps)

index-elem :
    (h : ℕ → ClientQueue) (c p : ℕ) (ps : List ℕ) → index h c ps ≡ some p → elem p ps ≡ true
index-elem h c p [] e = ground (arith, e)
index-elem h c p (x ∷ ps) e = ground (arith, e, index-elem h c p ps)

-- No pointer comes twice.
pub Once : List ℕ → Type 0
Once [] = Unit {0}
Once (p ∷ ps) = (elem p ps ≡ false) × Once ps

Apart-Once : (h : ℕ → ClientQueue) (ps : List ℕ) → Apart h ps → Once ps
unfolding Once
Apart-Once h [] apart = tt
Apart-Once h (p ∷ ps) apart = (absent-elem h p ps apart.0, Apart-Once h ps apart.1)

-- The destructor deletes objects that `new` returned, none of them twice, and among them the queue of
-- every client that has requests.
destroy-Once :
    (s : FairQueue)
    → IsValid s
    → Once (destroy s).1
      × All (λ p. p < s.next) (destroy s).1
      × ((c p : ℕ) → find ℕ_discrete c s.clients ≡ some p → elem p (destroy s).1 ≡ true)
unfolding destroy
destroy-Once s v = (
  Apart-Once s.heap s.queues v.apart,
  v.allocated,
  λ c p here. index-elem s.heap c p s.queues (sym (v.found c) ∙ here),
)
