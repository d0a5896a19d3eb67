-- ===== src/FairQueue.antt =====
-- example-fq/fair_queue.h, fair_queue.cc: requests queued by client, and served round robin.
-- The client queues are objects on a heap, which `clients_` and `queues_` both point to: a pointer
-- is a number, the heap a function, and `next` the pointer that the next `new` returns. A failed
-- `ASSERT`, and a read through an empty container, is `none`.

pub mod Rotation
pub mod Refines
pub mod Fairness
pub mod Destroy
pub mod Dangling
pub mod Functional
mod Tests
use c_plus_plus_examples.Base.{
  ℕ, ◌+◌, Bool, true, false, Option, none, some, List, [], ◌∷◌, ◌++◌, ◌==◌, if◌then◌else◌, length,
  ℕ_discrete, not,
}
use c_plus_plus_examples.Base.Chain.{◌>>=◌, ◌>>◌, check}
use c_plus_plus_examples.Base.Map.{find, emplace, erase}

pub record Request : Type 0 where
  pub request_id : ℕ
  pub client_id : ℕ

abbrev pub is_empty {ℓ} : {A : Type ℓ} → List A → Bool
is_empty [] = true
is_empty (x ∷ xs) = false

-- `ClientReqeustQueue`
pub record ClientQueue : Type 0 where
  pub client_id : ℕ
  pub pendings : List Request

unfoldable pub client_push : ClientQueue → Request → Option ClientQueue
client_push q req = do
  check (req.client_id == q.client_id)
  some (record q { pendings = q.pendings ++ (req ∷ []) })

-- A read through a reference to an element of a deque that `pop_front` has taken out. The standard leaves
-- it undefined, `lasting` being false; it is true for a deque whose elements stay readable there.
unfoldable pub read_popped {ℓ} : {A : Type ℓ} → Bool → A → Option A
read_popped lasting x = if lasting then some x else none

-- The queue afterwards, `*req`, and whether the queue is empty now. `front` is a reference, and read
-- behind `pendings_.pop_front()`.
pop_front : Bool → ClientQueue → List Request → Option (ClientQueue × Request × Bool)
pop_front lasting q [] = none
pop_front lasting q (front ∷ rest) = do
  req ← read_popped lasting front
  some (record q { pendings = rest }, req, is_empty rest)

unfoldable pub client_pop : Bool → ClientQueue → Option (ClientQueue × Request × Bool)
unfolding pop_front read_popped
client_pop lasting q = pop_front lasting q q.pendings

unfoldable pub client_size : ClientQueue → ℕ
client_size q = length q.pendings

pub record FairQueue : Type 0 where
  pub clients : List (ℕ × ℕ)
  pub queues : List ℕ
  pub heap : ℕ → ClientQueue
  pub next : ℕ

abbrev pub update : (ℕ → ClientQueue) → ℕ → ClientQueue → ℕ → ClientQueue
update h p q x = if p == x then q else h x

unfoldable pub init : FairQueue
init = record {
  clients = [];
  queues = [];
  heap = λ _. record { client_id = 0; pendings = [] };
  next = 0;
}

unfoldable pub client_count : FairQueue → ℕ
client_count s = length s.clients

-- `RequestFairQueue::Push`
push_new : FairQueue → Request → Option FairQueue
push_new s req = do
  q ← client_push (record { client_id = req.client_id; pendings = [] }) req
  some (record s {
    heap = update s.heap s.next q;
    clients = emplace ℕ_discrete req.client_id s.next s.clients;
    queues = s.queues ++ (s.next ∷ []);
    next = s.next + 1;
  })

push_old : FairQueue → Request → ℕ → Option FairQueue
push_old s req p = do q ← client_push (s.heap p) req; some (record s { heap = update s.heap p q })

unfoldable pub push : FairQueue → Request → Option FairQueue
unfolding push_new push_old
push s req = elim (find ℕ_discrete req.client_id s.clients) [
  | none ↦ push_new s req
  | some p ↦ push_old s req p
]

-- `RequestFairQueue::Pop`: the state, and `*req` where it returns true. The emptied queue is taken
-- out of both containers, and the object stays allocated. `front` is a reference to the pointer, and
-- read behind `queues_.pop_front()`.
pop_queue : Bool → FairQueue → List ℕ → Option (FairQueue × Option Request)
pop_queue lasting s [] = none
pop_queue lasting s (popped ∷ rest) = do
  front ← read_popped lasting popped
  (q, req, empty) ← client_pop lasting (s.heap front)
  some (
      if empty
      then (
        record s {
          heap = update s.heap front q;
          queues = rest;
          clients = erase ℕ_discrete q.client_id s.clients;
        },
        some req,
      )
      else (record s { heap = update s.heap front q; queues = rest ++ (front ∷ []) }, some req))

unfoldable pub pop : Bool → FairQueue → Option (FairQueue × Option Request)
unfolding pop_queue client_pop read_popped
pop lasting s = if is_empty s.clients then some (s, none) else pop_queue lasting s s.queues

-- `~RequestFairQueue`: the state, and the objects that are deleted, in order.
unfoldable pub destroy : FairQueue → FairQueue × List ℕ
destroy s = (record s { clients = []; queues = [] }, s.queues)
