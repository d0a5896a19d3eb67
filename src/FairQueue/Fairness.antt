-- ===== src/FairQueue/Fairness.antt =====
-- When a client of the fair queue of example-fq/fair_queue.cc is served.
use c_plus_plus_examples.Base.{
  ℕ, suc, ◌≡◌, refl, true, Option, some, List, [], ◌∷◌, ◌++◌, ◌==◌, Bool-cases, inl, inr,
}
use c_plus_plus_examples.Base.Chain.{◌>>=◌}
use c_plus_plus_examples.FairQueue.{Request, FairQueue, push, pop}
use c_plus_plus_examples.FairQueue.Rotation.{Turns, enqueue, serve}
use c_plus_plus_examples.FairQueue.Refines.{IsValid, turns, push_refines, pop_refines}

-- A client waits with `r` as its oldest request, behind `i` other clients that wait too.
pub data Waits (c : ℕ) (r : Request) : ℕ → Turns → Type 0 where
  first : (rs : List Request) (ts : Turns) → Waits c r 0 ((c, r ∷ rs) ∷ ts)
  later :
      {i : ℕ} {ts : Turns} (d : ℕ) (q : Request) (rs : List Request)
      → Waits c r i ts
      → Waits c r (suc i) ((d, q ∷ rs) ∷ ts)

Waits-enqueue :
    {c : ℕ} {r : Request} {i : ℕ} {ts : Turns} (q : Request)
    → Waits c r i ts
    → Waits c r i (enqueue q ts)
unfolding enqueue
Waits-enqueue {c} q (first rs ts) = elim (Bool-cases (c == q.client_id)) [
  | inl same ↦ rw same (first (rs ++ (q ∷ [])) ts)
  | inr other ↦ rw other (first rs (enqueue q ts))
]
Waits-enqueue q (later d p rs w) = elim (Bool-cases (d == q.client_id)) [
  | inl same ↦ rw same (later d p (rs ++ (q ∷ [])) w)
  | inr other ↦ rw other (later d p rs (Waits-enqueue q w))
]

Waits-append :
    {c : ℕ} {r : Request} {i : ℕ} {ts : Turns} (us : Turns)
    → Waits c r i ts
    → Waits c r i (ts ++ us)
Waits-append us (first rs ts) = first rs (ts ++ us)
Waits-append us (later d p rs w) = later d p rs (Waits-append us w)

Waits-serve :
    {c : ℕ} {r : Request} {i : ℕ} {ts : Turns} → Waits c r (suc i) ts → Waits c r i (serve ts).0
unfolding serve
Waits-serve (later d p [] w) = w
Waits-serve (later d p (p' ∷ rs) w) = Waits-append _ w

serve-Waits : {c : ℕ} {r : Request} {ts : Turns} → Waits c r 0 ts → (serve ts).1 ≡ some r
unfolding serve
serve-Waits (first [] ts) = refl
serve-Waits (first (r' ∷ rs) ts) = refl

-- A use of the queue: requests pushed and served, in any order.
pub data Call : Type 0 where
  push_call : Request → Call
  pop_call : Call

pub run : List Call → FairQueue → Option FairQueue
run [] s = some s
run (push_call req ∷ calls) s = do s' ← push s req; run calls s'
run (pop_call ∷ calls) s = do (s', _) ← pop true s; run calls s'

abbrev pub pops : List Call → ℕ
pops [] = 0
pops (push_call req ∷ calls) = pops calls
pops (pop_call ∷ calls) = suc (pops calls)

-- With a deque whose popped elements stay readable: whatever is pushed in the meantime, a client that waits behind `i` others is served by the pop
-- after the next `i`, and what it gets served is the request that was its oldest. No call fails.
served_in_turn :
    (calls : List Call) (s : FairQueue) (c : ℕ) (r : Request)
    → IsValid s
    → Waits c r (pops calls) (turns s)
    → (s' s'' : FairQueue) × (run calls s ≡ some s') × (pop true s' ≡ some (s'', some r))
unfolding run
served_in_turn [] s c r v w =
    let (s'', e, _, _) = pop_refines s v in (s, s'', refl, rw (serve-Waits w) at e)
served_in_turn (push_call req ∷ calls) s c r v w =
    let (s1, e, same, v1) = push_refines s req v in
    rw e (served_in_turn calls s1 c r v1 (rw same (Waits-enqueue req w)))
served_in_turn (pop_call ∷ calls) s c r v w =
    let (s1, e, same, v1) = pop_refines s v in
    rw e (served_in_turn calls s1 c r v1 (rw same (Waits-serve w)))
