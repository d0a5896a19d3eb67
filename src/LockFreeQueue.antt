-- ===== src/LockFreeQueue.antt =====
-- example-lfq/main.cc: a queue as a linked list that one thread appends to and one takes from, without
-- locks. A node is an object on a heap: an address is a number, and the heap says what is allocated
-- there. `new` gives any address that is not in use, also that of a node that was deleted. Each function
-- for a thread does one access to shared memory, so that any order of their steps is an execution.
-- `none` is an access to memory that is not allocated.
pub mod Nodes
pub mod Invariant
pub mod Enqueue
pub mod Dequeue
pub mod Fifo
pub mod Progress
pub mod Destroy
mod Tests
use c_plus_plus_examples.Base.{
  ℕ, zero, suc, Bool, true, false, not, ◌&&◌, Option, none, some, List, [], ◌∷◌, ◌++◌, ◌==◌,
  if◌then◌else◌, ◌≡◌,
}
use c_plus_plus_examples.Base.Chain.{◌>>=◌}

pub record Node (T : Type 0) : Type 0 where
  pub value : T
  pub next : Option ℕ

abbrev pub Memory : Type 0 → Type 0
Memory T = ℕ → Option (Node T)

-- `null_tail` is the static variable of `enqueue`, which all queues of a type share; there is one queue here.
pub record Queue (T : Type 0) : Type 0 where
  pub memory : Memory T
  pub head : ℕ
  pub tail : ℕ
  pub null_tail : Option ℕ

-- A store to the heap, of a node or of `none` for `delete`.
unfoldable pub write : {T : Type 0} → Memory T → ℕ → Option (Node T) → Memory T
write memory a node b = if a == b then node else memory b

-- The constructor, where the sentinel is at `a` and holds `T()`.
unfoldable pub new_queue : {T : Type 0} → T → ℕ → Queue T
unfolding write
new_queue default a = record {
  memory = write (λ b. none) a (some (record { value = default; next = none }));
  head = a;
  tail = a;
  null_tail = none;
}

-- Where a call of `enqueue` is: behind `new_node`, behind a load of `old_tail`, and behind the loop.
pub data Producer (T : Type 0) : Type 0 where
  outside : Producer T
  created : (value : T) → (new_node : ℕ) → Producer T
  loaded : (value : T) → (new_node old_tail : ℕ) → Producer T
  linked : (new_node old_tail : ℕ) → Producer T

-- Two pointers are the same.
unfoldable pub same : Option ℕ → Option ℕ → Bool
same none none = true
same none (some b) = false
same (some a) none = false
same (some a) (some b) = a == b

-- `new Node<T>(value)` at an address `a`.
unfoldable pub create : {T : Type 0} → Queue T → T → ℕ → Queue T × Producer T
unfolding write
create q value a =
    let node : Node _ = record { value = value; next = none } in
    (record q { memory = write q.memory a (some node) }, created value a)

-- The next access of a call. `compare_exchange_weak` may fail though the pointers are the same, when
-- `fails`; when it fails it stores what it has read in `null_tail`, and the loop loads the tail again.
unfoldable pub enqueue_step :
    {T : Type 0} → Bool → Queue T → Producer T → Option (Queue T × Producer T)
unfolding write same
enqueue_step fails q outside = some (q, outside)
enqueue_step fails q (created value n) = some (q, loaded value n q.tail)
enqueue_step fails q (loaded value n t) = do
  node ← q.memory t
  let linked_node = some (record node { next = some n })
  some (
      if same node.next q.null_tail && not fails
      then (record q { memory = write q.memory t linked_node }, linked n t)
      else (record q { null_tail = node.next }, created value n))
enqueue_step fails q (linked n t) =
    some (if q.tail == t then (record q { tail = n }, outside) else (q, outside))

-- Where a call of `dequeue` is: behind the load of `old_head`, of `first_node`, of its value, and behind
-- the exchange.
pub data Consumer (T : Type 0) : Type 0 where
  ready : Consumer T
  at_head : (old_head : ℕ) → Consumer T
  at_first : (old_head first_node : ℕ) → Consumer T
  copied : (old_head first_node : ℕ) → (out : T) → Consumer T
  moved : (old_head : ℕ) → (out : T) → Consumer T

-- What a call returns: `false`, or `true` with `out`.
pub data Answer (T : Type 0) : Type 0 where
  no_answer : Answer T
  returns_false : Answer T
  returns_true : (out : T) → Answer T

-- The next access of a call, with the answer when it returns. The result of the exchange is not used.
unfoldable pub dequeue_step :
    {T : Type 0} → Queue T → Consumer T → Option (Queue T × Consumer T × Answer T)
unfolding write
dequeue_step q ready = some (q, at_head q.head, no_answer)
dequeue_step q (at_head h) = do
  node ← q.memory h
  elim node.next [
    | none ↦ some (q, ready, returns_false)
    | some f ↦ some (q, at_first h f, no_answer)
  ]
dequeue_step q (at_first h f) = do node ← q.memory f; some (q, copied h f node.value, no_answer)
dequeue_step q (copied h f out) = some (
    if q.head == h
    then (record q { head = f }, moved h out, no_answer)
    else (q, moved h out, no_answer))
dequeue_step q (moved h out) = do
  node ← q.memory h
  some (record q { memory = write q.memory h none }, ready, returns_true out)

-- `empty`
unfoldable pub empty : {T : Type 0} → Queue T → Option Bool
unfolding same
empty q = do node ← q.memory q.head; some (same node.next none)

-- The loop of the destructor, on fuel, where `head` is what `head_` holds.
unfoldable pub destroy : {T : Type 0} → ℕ → Memory T → Option ℕ → Option (Memory T)
unfolding write
destroy fuel memory none = some memory
destroy zero memory (some h) = none
destroy (suc fuel) memory (some h) = do
  node ← memory h
  destroy fuel (write memory h none) node.next

-- One thread that calls `enqueue`, one that calls `dequeue`, the values of all calls of `enqueue`, and
-- the values that calls of `dequeue` have returned.
pub record System (T : Type 0) : Type 0 where
  pub queue : Queue T
  pub producer : Producer T
  pub consumer : Consumer T
  pub sent : List T
  pub received : List T

unfoldable pub deliver : {T : Type 0} → List T → Answer T → List T
deliver received no_answer = received
deliver received returns_false = received
deliver received (returns_true out) = received ++ (out ∷ [])

-- A thread goes on: with a new call of `enqueue`, or with the next access.
pub data Move (T : Type 0) : Type 0 where
  call_enqueue : (value : T) → (a : ℕ) → Move T
  produce : (fails : Bool) → Move T
  consume : Move T

unfoldable pub step : {T : Type 0} → System T → Move T → Option (System T)
unfolding create enqueue_step dequeue_step deliver
step s (call_enqueue value a) =
    let (q, p) = create s.queue value a in
    some (record s { queue = q; producer = p; sent = s.sent ++ (value ∷ []) })
step s (produce fails) = do
  (q, p) ← enqueue_step fails s.queue s.producer
  some (record s { queue = q; producer = p })
step s consume = do
  (q, c, answer) ← dequeue_step s.queue s.consumer
  some (record s { queue = q; consumer = c; received = deliver s.received answer })

unfoldable pub new_system : {T : Type 0} → T → ℕ → System T
unfolding new_queue
new_system default a = record {
  queue = new_queue default a;
  producer = outside;
  consumer = ready;
  sent = [];
  received = [];
}

-- The producer calls `enqueue` again when it is back from the last call; what `new` gives is not in use.
unfoldable pub May : {T : Type 0} → System T → Move T → Type 0
May s (call_enqueue value a) = (s.producer ≡ outside) × (s.queue.memory a ≡ none)
May s (produce fails) = Unit {0}
May s consume = Unit {0}

pub data Reachable {T : Type 0} (default : T) : System T → Type 0 where
  start : (a : ℕ) → Reachable default (new_system default a)
  go_on :
      (s t : System T) (m : Move T)
      → Reachable default s
      → May s m
      → step s m ≡ some t
      → Reachable default t
