-- ===== src/FairQueue/Functional.antt =====
-- TestFairQueueFunctional of example-fq/main.cc. A failed `ASSERT` is `none`.
use c_plus_plus_examples.Base.{ℕ, ◌+◌, Bool, true, false, Option, none, some, ◌==◌}
use c_plus_plus_examples.Base.Chain.{◌>>=◌, ◌>>◌, check}
use c_plus_plus_examples.FairQueue.{Request, FairQueue, init, push, pop, client_count}

-- `NextRequest`, with `next_` before and behind it.
abbrev next_request : ℕ → ℕ → Request × ℕ
next_request next client_id = (record { request_id = next; client_id = client_id }, next + 1)

-- `fq.Push(std::move(NextRequest(client_id)))`, and the number of clients behind it.
push_next : ℕ → ℕ → FairQueue × ℕ → Option (FairQueue × ℕ)
push_next client_id clients (fq, next) =
    let (req, next') = next_request next client_id in
    do fq' ← push fq req; check (client_count fq' == clients); some (fq', next')

-- A `Pop` that has to return true, and the request.
pop_request : Bool → ℕ → ℕ → FairQueue × ℕ → Option (FairQueue × ℕ)
pop_request lasting client_id request_id (fq, next) = do
  (fq', popped) ← pop lasting fq
  req ← popped
  check (req.client_id == client_id)
  check (req.request_id == request_id)
  some (fq', next)

-- A `Pop` that has to return false.
pop_nothing : Bool → FairQueue → Option FairQueue
pop_nothing lasting fq = do
  (fq', popped) ← pop lasting fq
  check (elim popped [ none ↦ true | some req ↦ false ])
  some fq'

unfoldable pub test_fair_queue_functional : Bool → Option (Unit {0})
unfolding push_next pop_request pop_nothing client_count
test_fair_queue_functional lasting = do
  check (client_count init == 0)
  a ← push_next 0 1 (init, 0)
  b ← push_next 0 1 a
  c ← pop_request lasting 0 0 b
  d ← pop_request lasting 0 1 c
  check (client_count d.0 == 0)
  e ← push_next 0 1 d
  f ← push_next 0 1 e
  g ← push_next 1 2 f
  h ← push_next 2 3 g
  i ← pop_request lasting 0 2 h
  j ← pop_request lasting 1 4 i
  k ← pop_request lasting 2 5 j
  l ← pop_request lasting 0 3 k
  m ← pop_nothing lasting l.0
  check (client_count m == 0)
