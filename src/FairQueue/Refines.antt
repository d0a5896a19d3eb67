-- ===== src/FairQueue/Refines.antt =====
-- The fair queue of example-fq/fair_queue.cc against its turns, with `enqueue` and `serve`.
use c_plus_plus_examples.Base.{
  ℕ, ◌+◌, ◌<◌, ◌≤◌, ◌≡◌, refl, ◌∙◌, ◌≢◌, true, false, none, some, List, [], ◌∷◌, ◌++◌, arith, All,
  ◌==◌, Bool-cases, Option-cases, inl, inr, ==_iff, ℕ_discrete,
}
use c_plus_plus_examples.Base.Map.{find, emplace, erase, find-erase_self, find-erase_ne}
use c_plus_plus_examples.FairQueue.{
  Request, ClientQueue, FairQueue, update, client_push, client_pop, push, push_old, push_new, pop,
  pop_front, init, is_empty,
}
use c_plus_plus_examples.FairQueue.Rotation.{
  Turns, enqueue, serve, view, index, Apart, view-update_absent, index-update, Apart-update,
  index-append, Apart-append, view-append, index-client, enqueue_old, enqueue_new,
}

pub record IsValid (s : FairQueue) : Type 0 where
  pub apart : Apart s.heap s.queues
  pub found : (c : ℕ) → find ℕ_discrete c s.clients ≡ index s.heap c s.queues
  pub allocated : All (λ p. p < s.next) s.queues
  pub waiting : All (λ p. (s.heap p).pendings ≢ []) s.queues

abbrev pub turns : FairQueue → Turns
turns s = view s.heap s.queues

fresh_away :
    (h : ℕ → ClientQueue) (q : ClientQueue) (n : ℕ) (ps : List ℕ)
    → All (λ p. p < n) ps
    → (view (update h n q) ps ≡ view h ps)
      × ((c : ℕ) → index (update h n q) c ps ≡ index h c ps)
      × (Apart h ps → Apart (update h n q) ps)
      × (All (λ p. (h p).pendings ≢ []) ps → All (λ p. (update h n q p).pendings ≢ []) ps)
fresh_away h q n [] f = (refl, λ c. refl, λ a. tt, λ w. tt)
fresh_away h q n (x ∷ ps) f =
    let (v, i, a, w) = fresh_away h q n ps f.1 in
    let away : (n == x) ≡ false = ground (arith, f.0) in
    (
      rw (away, v),
      λ c. rw (away, i c),
      λ z. (rw away (i (h x).client_id ∙ z.0), a z.1),
      λ z. (rw away z.0, w z.1),
    )

update_self : (h : ℕ → ClientQueue) (p : ℕ) (q : ClientQueue) → update h p q p ≡ q
update_self h p q = rw ((==_iff p p).1 refl)

waiting-update :
    (h : ℕ → ClientQueue) (p : ℕ) (q : ClientQueue) (ps : List ℕ)
    → q.pendings ≢ []
    → All (λ p. (h p).pendings ≢ []) ps
    → All (λ x. (update h p q x).pendings ≢ []) ps
waiting-update h p q [] ne w = tt
waiting-update h p q (x ∷ ps) ne w = (
  elim (Bool-cases (p == x)) [ inl e ↦ rw e ne | inr e ↦ rw e w.0 ],
  waiting-update h p q ps ne w.1,
)

waiting-absent :
    (h : ℕ → ClientQueue) (p : ℕ) (q : ClientQueue) (ps : List ℕ)
    → index h (h p).client_id ps ≡ none
    → All (λ x. (h x).pendings ≢ []) ps
    → All (λ x. (update h p q x).pendings ≢ []) ps
waiting-absent h p q [] a w = tt
waiting-absent h p q (x ∷ ps) a w = elim (Bool-cases (p == x)) [
  | inl same ↦ absurd (ground arith)
  | inr other ↦ (rw other w.0, waiting-absent h p q ps (ground arith) w.1)
]

All-snoc : (P : ℕ → Type 0) (xs : List ℕ) (y : ℕ) → All P xs → P y → All P (xs ++ (y ∷ []))
All-snoc P [] y a h = (h, tt)
All-snoc P (x ∷ xs) y a h = (a.0, All-snoc P xs y a.1 h)

All-weaken : (m n : ℕ) (xs : List ℕ) → m ≤ n → All (λ p. p < m) xs → All (λ p. p < n) xs
All-weaken m n [] h a = tt
All-weaken m n (x ∷ xs) h a = (omega arith, All-weaken m n xs h a.1)

snoc-ne-nil : (rs : List Request) (r : Request) → rs ++ (r ∷ []) ≢ []
snoc-ne-nil [] r e = cc
snoc-ne-nil (x ∷ rs) r e = cc

push_old_refines :
    (s : FairQueue) (req : Request) (p : ℕ)
    → IsValid s
    → index s.heap req.client_id s.queues ≡ some p
    → (s' : FairQueue) × (push_old s req p ≡ some s')
      × (turns s' ≡ enqueue req (turns s))
      × IsValid s'
unfolding push_old client_push
push_old_refines s req p v e =
    let q : ClientQueue = record {
      client_id = (s.heap p).client_id;
      pendings = (s.heap p).pendings ++ (req ∷ []);
    } in
    let owner : (s.heap p).client_id ≡ req.client_id =
      index-client s.heap req.client_id p s.queues e in
    (
      record s { heap = update s.heap p q },
      ground (arith, owner),
      enqueue_old s.heap req p s.queues v.apart e,
      record {
        apart = Apart-update s.heap p q refl s.queues v.apart;
        found = λ c. v.found c ∙ rw (index-update s.heap p q refl c s.queues);
        allocated = v.allocated;
        waiting = waiting-update s.heap p q s.queues (snoc-ne-nil _ req) v.waiting;
      },
    )

push_new_refines :
    (s : FairQueue) (req : Request)
    → IsValid s
    → index s.heap req.client_id s.queues ≡ none
    → (s' : FairQueue) × (push_new s req ≡ some s')
      × (turns s' ≡ enqueue req (turns s))
      × IsValid s'
unfolding push_new client_push emplace find
push_new_refines s req v e =
    let q : ClientQueue = record { client_id = req.client_id; pendings = req ∷ [] } in
    let (same_view, same_index, apart, waiting) = fresh_away s.heap q s.next s.queues v.allocated in
    let heap : ℕ → ClientQueue = update s.heap s.next q in
    let here : heap s.next ≡ q = update_self s.heap s.next q in
    (
      record {
        heap = heap;
        clients = (req.client_id, s.next) ∷ s.clients;
        queues = s.queues ++ (s.next ∷ []);
        next = s.next + 1;
      },
      ground (arith, v.found req.client_id),
      rw (view-append, same_view, enqueue_new s.heap req s.queues e, here),
      record {
        apart =
            Apart-append heap s.next s.queues (apart v.apart)
              (rw here (same_index req.client_id ∙ e));
        found = λ c.
            ground (arith, index-append heap c s.next s.queues, same_index c, here, v.found c, e);
        allocated =
            All-snoc _ s.queues s.next
              (All-weaken s.next (s.next + 1) s.queues (omega arith) v.allocated) (omega arith);
        waiting = All-snoc _ s.queues s.next (waiting v.waiting) (rw here (λ z. cc));
      },
    )

-- `Push` never fails, adds the request to its client's turn, and keeps the invariant.
pub push_refines :
    (s : FairQueue) (req : Request)
    → IsValid s
    → (s' : FairQueue) × (push s req ≡ some s') × (turns s' ≡ enqueue req (turns s)) × IsValid s'
unfolding push
push_refines s req v = elim (Option-cases (index s.heap req.client_id s.queues)) [
  | inl none_there ↦
      rw (v.found req.client_id ∙ none_there, push) (push_new_refines s req v none_there)
  | inr (p, there) ↦ rw (v.found req.client_id ∙ there, push) (push_old_refines s req p v there)
]

pub nil_of_find : (m : List (ℕ × ℕ)) → ((c : ℕ) → find ℕ_discrete c m ≡ none) → m ≡ []
unfolding find
nil_of_find [] h = refl
nil_of_find ((k, x) ∷ m) h = absurd (ground (arith, h k))

pub not_empty_of_find :
    (m : List (ℕ × ℕ)) (c x : ℕ) → find ℕ_discrete c m ≡ some x → is_empty m ≡ false
unfolding find
not_empty_of_find [] c x e = cc
not_empty_of_find ((k, y) ∷ m) c x e = refl

-- The state by its parts, so that its queues can be taken apart.
abbrev pub state : List (ℕ × ℕ) → List ℕ → (ℕ → ClientQueue) → ℕ → FairQueue
state cl qs h n = record { clients = cl; queues = qs; heap = h; next = n }

abbrev Popped : FairQueue → Type 0
Popped s =
    (s' : FairQueue) × (pop true s ≡ some (s', (serve (turns s)).1))
    × (turns s' ≡ (serve (turns s)).0)
    × IsValid s'

-- The first client has one request left.
pop_last :
    (cl : List (ℕ × ℕ)) (p : ℕ) (ps : List ℕ) (h : ℕ → ClientQueue) (n : ℕ) (r : Request)
    → IsValid (state cl (p ∷ ps) h n)
    → (h p).pendings ≡ r ∷ []
    → Popped (state cl (p ∷ ps) h n)
unfolding pop client_pop serve
pop_last cl p ps h n r v e =
    let c : ℕ = (h p).client_id in
    let q : ClientQueue = record { client_id = c; pendings = [] } in
    let there : find ℕ_discrete c cl ≡ some p = ground (arith, v.found c) in
    (
      state (erase ℕ_discrete c cl) ps (update h p q) n,
      rw (not_empty_of_find cl c p there, e, pop_front),
      rw e (view-update_absent h p q ps v.apart.0),
      record {
        apart = Apart-update h p q refl ps v.apart.1;
        found = λ d. ground (
          arith,
          index-update h p q refl d ps,
          v.found d,
          v.apart.0,
          find-erase_self ℕ_discrete c cl,
          find-erase_ne ℕ_discrete c d cl,
        );
        allocated = v.allocated.1;
        waiting = waiting-absent h p q ps v.apart.0 v.waiting.1;
      },
    )

-- The first client has more requests.
pop_more :
    (cl : List (ℕ × ℕ)) (p : ℕ) (ps : List ℕ) (h : ℕ → ClientQueue) (n : ℕ) (r r' : Request)
    (rs : List Request)
    → IsValid (state cl (p ∷ ps) h n)
    → (h p).pendings ≡ r ∷ r' ∷ rs
    → Popped (state cl (p ∷ ps) h n)
unfolding pop client_pop serve
pop_more cl p ps h n r r' rs v e =
    let c : ℕ = (h p).client_id in
    let q : ClientQueue = record { client_id = c; pendings = r' ∷ rs } in
    let there : find ℕ_discrete c cl ≡ some p = ground (arith, v.found c) in
    let here : update h p q p ≡ q = update_self h p q in
    (
      state cl (ps ++ (p ∷ [])) (update h p q) n,
      rw (not_empty_of_find cl c p there, e, pop_front),
      rw (view-append, view-update_absent h p q ps v.apart.0, here, e),
      record {
        apart =
            Apart-append (update h p q) p ps (Apart-update h p q refl ps v.apart.1)
              (rw (here, index-update h p q refl c ps) v.apart.0);
        found = λ d. ground (
          arith,
          index-append (update h p q) d p ps,
          index-update h p q refl d ps,
          here,
          v.found d,
          v.apart.0,
        );
        allocated = All-snoc _ ps p v.allocated.1 v.allocated.0;
        waiting =
            All-snoc _ ps p (waiting-update h p q ps (λ z. cc) v.waiting.1) (rw here (λ z. cc));
      },
    )

pop_first :
    (cl : List (ℕ × ℕ)) (p : ℕ) (ps : List ℕ) (h : ℕ → ClientQueue) (n : ℕ) (rs : List Request)
    → IsValid (state cl (p ∷ ps) h n)
    → (h p).pendings ≡ rs
    → Popped (state cl (p ∷ ps) h n)
pop_first cl p ps h n [] v e = absurd (v.waiting.0 e)
pop_first cl p ps h n (r ∷ []) v e = pop_last cl p ps h n r v e
pop_first cl p ps h n (r ∷ r' ∷ rs) v e = pop_more cl p ps h n r r' rs v e

pop_from :
    (cl : List (ℕ × ℕ)) (qs : List ℕ) (h : ℕ → ClientQueue) (n : ℕ)
    → IsValid (state cl qs h n)
    → Popped (state cl qs h n)
unfolding pop serve
pop_from cl [] h n v =
    let none_left : cl ≡ [] = nil_of_find cl v.found in (state cl [] h n, rw none_left, refl, v)
pop_from cl (p ∷ ps) h n v = pop_first cl p ps h n (h p).pendings v refl

-- With a deque whose popped elements stay readable, `Pop` returns false exactly on a queue with no turns. Else it serves the first turn, and that
-- client goes behind all others, or out if it has no request left. The invariant is kept.
pub pop_refines :
    (s : FairQueue)
    → IsValid s
    → (s' : FairQueue) × (pop true s ≡ some (s', (serve (turns s)).1))
      × (turns s' ≡ (serve (turns s)).0)
      × IsValid s'
pop_refines s v = pop_from s.clients s.queues s.heap s.next v

-- A new queue has no turn.
pub init-IsValid : IsValid init × (turns init ≡ [])
unfolding init find
init-IsValid = (record { apart = tt; found = λ c. refl; allocated = tt; waiting = tt }, refl)
