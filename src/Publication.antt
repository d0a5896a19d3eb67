-- ===== src/Publication.antt =====
-- example-memory-ordered/main.cc: a string and a number that one thread writes and another reads, once
-- it has got the string's address through an atomic pointer. Plain memory is the list of its writes
-- in order; a thread's view is how many of them happen before what it does. A release store carries the
-- view of its thread, and an acquire load takes over the view of the store it reads. A plain access
-- that another one does not happen before is a data race, which is `none`, as a failed `assert` is.
pub mod Safety
mod Tests
use c_plus_plus_examples.Base.{
  ℕ, zero, suc, ◌+◌, ◌<◌, ◌≤◌, ◌≡◌, Bool, true, false, Option, none, some, List, [], ◌∷◌, ◌++◌,
  ◌==◌, ◌||◌, ◌&&◌, length, take, drop, get_or, ltb, if◌then◌else◌,
}
use c_plus_plus_examples.Base.Chain.{◌>>=◌, ◌>>◌, check}

-- A write to the string at an address, or to `data`.
pub data Write : Type 0 where
  string_at : ℕ → List ℕ → Write
  data_is : ℕ → Write

unfoldable pub writes_string : ℕ → List Write → Bool
writes_string p [] = false
writes_string p (string_at q text ∷ log) = q == p || writes_string p log
writes_string p (data_is n ∷ log) = writes_string p log

unfoldable pub writes_data : List Write → Bool
writes_data [] = false
writes_data (string_at q text ∷ log) = writes_data log
writes_data (data_is n ∷ log) = true

-- What is there behind some writes, from what was there before.
unfoldable pub last_string : ℕ → Option (List ℕ) → List Write → Option (List ℕ)
last_string p before [] = before
last_string p before (string_at q text ∷ log) =
    last_string p (if q == p then some text else before) log
last_string p before (data_is n ∷ log) = last_string p before log

unfoldable pub last_data : ℕ → List Write → ℕ
last_data before [] = before
last_data before (string_at q text ∷ log) = last_data before log
last_data before (data_is n ∷ log) = last_data n log

-- A read with a view: a write that is outside the view is a race.
unfoldable pub read_string : ℕ → ℕ → List Write → Option (List ℕ)
unfolding writes_string last_string
read_string p view log =
    if writes_string p (drop view log) then none else last_string p none (take view log)

unfoldable pub read_data : ℕ → List Write → Option ℕ
unfolding writes_data last_data
read_data view log =
    if writes_data (drop view log) then none else some (last_data 0 (take view log))

-- The plain writes, and the stores to `ptr`: the pointer and the view that is released.
pub record Memory : Type 0 where
  pub log : List Write
  pub stores : List (ℕ × ℕ)

-- "Hello"
abbrev pub hello : List ℕ
hello = 72 ∷ 101 ∷ 108 ∷ 108 ∷ 111 ∷ []

-- The places of `producer`, with its `p`.
pub data Producer : Type 0 where
  begins : Producer
  has_string has_data has_stored : ℕ → Producer

-- What `producer` does next, with the address that `new` returns.
unfoldable pub produce : Memory → Producer → ℕ → Memory × Producer
produce m begins p = (record m { log = m.log ++ (string_at p hello ∷ []) }, has_string p)
produce m (has_string p) q = (record m { log = m.log ++ (data_is 42 ∷ []) }, has_data p)
produce m (has_data p) q =
    (record m { stores = m.stores ++ ((p, length m.log) ∷ []) }, has_stored p)
produce m (has_stored p) q = (m, has_stored p)

-- The places of `consumer`, with its `p2`; and the store that it has read last, and its view.
pub data Place : Type 0 where
  polls : Place
  has_loaded : ℕ → Place
  has_compared has_ended : Place

pub record Consumer : Type 0 where
  pub place : Place
  pub seen : ℕ
  pub view : ℕ

-- A load that reads store `k`, where 0 is the null pointer that `ptr` starts with.
unfoldable pub load : Memory → Consumer → ℕ → Consumer
load m c k =
    let (p, released) = get_or ((0, 0) ∷ m.stores) k (0, 0) in
    record {
      place = if p == 0 then polls else has_loaded p;
      seen = k;
      view = if ltb c.view released then released else c.view;
    }

unfoldable pub same_text : List ℕ → List ℕ → Bool
same_text [] [] = true
same_text [] (c ∷ t) = false
same_text (c ∷ s) [] = false
same_text (c ∷ s) (d ∷ t) = c == d && same_text s t

-- What `consumer` does next, with the store that a load reads.
consume_from : Place → Memory → Consumer → ℕ → Option Consumer
consume_from polls m c k = some (load m c k)
consume_from (has_loaded p) m c k = do
  text ← read_string p c.view m.log
  check (same_text text hello)
  some (record c { place = has_compared })
consume_from has_compared m c k = do
  n ← read_data c.view m.log
  check (n == 42)
  some (record c { place = has_ended })
consume_from has_ended m c k = some c

unfoldable pub consume : Memory → Consumer → ℕ → Option Consumer
unfolding consume_from load read_string read_data same_text
consume m c k = consume_from c.place m c k

-- `consumer` from a load of store `k` to its end.
unfoldable pub consume_store : Memory → Consumer → ℕ → Option Consumer
unfolding consume
consume_store m c k = do loaded ← consume m c k; compared ← consume m loaded k; consume m compared k

pub record System : Type 0 where
  pub memory : Memory
  pub producer : Producer
  pub consumer : Consumer

unfoldable pub new_system : System
new_system = record {
  memory = record { log = []; stores = [] };
  producer = begins;
  consumer = record { place = polls; seen = 0; view = 0 };
}

pub data Move : Type 0 where
  produces consumes : ℕ → Move

unfoldable pub step : System → Move → Option System
unfolding produce consume
step s (produces p) =
    let (m, producer) = produce s.memory s.producer p in
    some (record s { memory = m; producer = producer })
step s (consumes k) = do c ← consume s.memory s.consumer k; some (record s { consumer = c })

-- An address is not null. A load reads some store, but none before the one that was read last.
unfoldable pub May : System → Move → Type 0
May s (produces p) = 0 < p
May s (consumes k) = (s.consumer.seen ≤ k) × (k ≤ length s.memory.stores)

-- The runs of the two threads, in any order and with any choice of the store that a load reads.
pub data Reachable : System → Type 0 where
  start : Reachable new_system
  go_on : (s t : System) (m : Move) → Reachable s → May s m → step s m ≡ some t → Reachable t
