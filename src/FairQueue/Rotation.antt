-- ===== src/FairQueue/Rotation.antt =====
-- What a fair queue promises: clients in turn, each with its waiting requests, and lemmas that read
-- this view off the heap of example-fq/fair_queue.cc.
use c_plus_plus_examples.Base.{
  ℕ, ◌≡◌, refl, Option, none, some, List, [], ◌∷◌, ◌++◌, arith, ◌==◌, if◌then◌else◌, Bool-cases,
  inl, inr, ==_iff,
}
use c_plus_plus_examples.FairQueue.{Request, ClientQueue, update}

-- The clients in the order in which they are served, with their requests, oldest first.
abbrev pub Turns : Type 0
Turns = List (ℕ × List Request)

-- A request joins its client's turn, or opens a turn behind all others.
unfoldable pub enqueue : Request → Turns → Turns
enqueue req [] = (req.client_id, req ∷ []) ∷ []
enqueue req ((c, rs) ∷ ts) =
    if c == req.client_id then (c, rs ++ (req ∷ [])) ∷ ts else (c, rs) ∷ enqueue req ts

-- The first client is served, and goes behind all others if it has requests left.
unfoldable pub serve : Turns → Turns × Option Request
serve [] = ([], none)
serve ((c, []) ∷ ts) = ((c, []) ∷ ts, none)
serve ((c, r ∷ []) ∷ ts) = (ts, some r)
serve ((c, r ∷ r' ∷ rs) ∷ ts) = (ts ++ ((c, r' ∷ rs) ∷ []), some r)

-- The turns that the pointers `ps` stand for, and the first pointer to the queue of a client.
abbrev pub view : (ℕ → ClientQueue) → List ℕ → Turns
view h [] = []
view h (p ∷ ps) = ((h p).client_id, (h p).pendings) ∷ view h ps

abbrev pub index : (ℕ → ClientQueue) → ℕ → List ℕ → Option ℕ
index h c [] = none
index h c (p ∷ ps) = if (h p).client_id == c then some p else index h c ps

-- No client has two queues.
abbrev pub Apart : (ℕ → ClientQueue) → List ℕ → Type 0
Apart h [] = Unit {0}
Apart h (p ∷ ps) = (index h (h p).client_id ps ≡ none) × Apart h ps

module _ (h : ℕ → ClientQueue) (p : ℕ) (q : ClientQueue) where
  -- A write to an object that the pointers do not reach.
  pub view-update_absent :
      (ps : List ℕ) → index h (h p).client_id ps ≡ none → view (update h p q) ps ≡ view h ps
  view-update_absent [] e = refl
  view-update_absent (x ∷ ps) e = elim (Bool-cases (p == x)) [
    | inl same ↦ absurd (ground arith)
    | inr other ↦ rw (other, view-update_absent ps (ground arith))
  ]

  -- A write that keeps the object's client.
  module _ (same : q.client_id ≡ (h p).client_id) where
    pub index-update : (c : ℕ) (ps : List ℕ) → index (update h p q) c ps ≡ index h c ps
    index-update c [] = refl
    index-update c (x ∷ ps) = ground (arith, index-update c ps)

    client-update : (x : ℕ) → (update h p q x).client_id ≡ (h x).client_id
    client-update x = ground arith

    pub Apart-update : (ps : List ℕ) → Apart h ps → Apart (update h p q) ps
    Apart-update [] a = tt
    Apart-update (x ∷ ps) a = (rw (client-update, index-update) a.0, Apart-update ps a.1)

pub index-append :
    (h : ℕ → ClientQueue) (c p : ℕ) (ps : List ℕ)
    → index h c (ps ++ (p ∷ [])) ≡ elim (index h c ps) [
      | none ↦ if (h p).client_id == c then some p else none
      | some x ↦ some x
    ]
index-append h c p [] = refl
index-append h c p (x ∷ ps) = ground (arith, index-append h c p ps)

pub Apart-append :
    (h : ℕ → ClientQueue) (p : ℕ) (ps : List ℕ)
    → Apart h ps
    → index h (h p).client_id ps ≡ none
    → Apart h (ps ++ (p ∷ []))
Apart-append h p [] a e = (refl, tt)
Apart-append h p (x ∷ ps) a e = (
  ground (arith, index-append h (h x).client_id p ps, a.0),
  Apart-append h p ps a.1 (ground arith),
)

pub view-append :
    (h : ℕ → ClientQueue) (ps rs : List ℕ) → view h (ps ++ rs) ≡ view h ps ++ view h rs
view-append h [] rs = refl
view-append h (p ∷ ps) rs = rw (view-append h ps rs)

pub index-client :
    (h : ℕ → ClientQueue) (c p : ℕ) (ps : List ℕ) → index h c ps ≡ some p → (h p).client_id ≡ c
index-client h c p [] e = cc
index-client h c p (x ∷ ps) e = elim (Bool-cases ((h x).client_id == c)) [
  | inl here ↦ let same : x ≡ p = ground arith in rw same at ((==_iff (h x).client_id c).0 here)
  | inr later ↦ index-client h c p ps (ground arith)
]

-- The view of a push to a client that has a queue, and of one that has none.
pub enqueue_old :
    (h : ℕ → ClientQueue) (req : Request) (p : ℕ) (ps : List ℕ)
    → Apart h ps
    → index h req.client_id ps ≡ some p
    → view
        (update h p
          (record { client_id = (h p).client_id; pendings = (h p).pendings ++ (req ∷ []) }))
        ps
      ≡ enqueue req (view h ps)
unfolding enqueue
enqueue_old h req p [] a e = cc
enqueue_old h req p (x ∷ ps) a e = elim (Bool-cases ((h x).client_id == req.client_id)) [
  | inl here ↦
      let same : x ≡ p = ground arith in
      let away : index h (h p).client_id ps ≡ none = rw same at a.0 in
      ground (
        arith,
        here,
        view-update_absent h p
            (record { client_id = (h p).client_id; pendings = (h p).pendings ++ (req ∷ []) }) ps
            away,
      )
  | inr later ↦
      let there : index h req.client_id ps ≡ some p = ground arith in
      ground
        (arith, later, index-client h req.client_id p ps there, enqueue_old h req p ps a.1 there)
]

pub enqueue_new :
    (h : ℕ → ClientQueue) (req : Request) (ps : List ℕ)
    → index h req.client_id ps ≡ none
    → enqueue req (view h ps) ≡ view h ps ++ ((req.client_id, req ∷ []) ∷ [])
unfolding enqueue
enqueue_new h req [] e = refl
enqueue_new h req (x ∷ ps) e = ground (arith, enqueue_new h req ps)
