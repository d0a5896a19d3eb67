-- ===== src/Lib.antt =====
-- A model of the C++ examples of this repository, translated function by function, with the theorems
-- that make each component correct.
--
-- Conventions. A machine integer is a native natural number, with the source's wrap-around written
-- out; its range is a hypothesis or part of an invariant. A byte is a number below 256, and a string,
-- a buffer or a slice is the list of its bytes. An object that is mutated is a record, and a method a
-- function to the new record, paired with what the method returns. A failed assertion, and a read
-- that the source leaves undefined, is `none`. Containers of the C++ library are modelled by what the
-- source uses of them: a vector, a deque or a list is a List, an unordered map is an association list
-- with each key once (Base/Map), whose order no theorem depends on.
--
-- Parts, by file:
-- - Base: shared names, tests, list lemmas, bit operations as arithmetic,
--   maps, integers, chains of fallible steps.
-- - Coding (common/coding.h, common/coding.cc): Fixed has the fixed-width integers, Varint the
--   encoders, RoundTrip the decoders, Slices the length-prefixed slices. The encoders recur on
--   accessibility and the decoders on the input, so no fuel is needed.
-- - Slice (common/slice.h, the comparator of example-algorithm/main.cc): Order has what its
--   comparisons mean.
-- - Status (common/status.h, common/status.cc): Layout has the array behind an error status.
-- - WriteBatch (example-ping-pong-batch/write_batch.h, write_batch.cc): Format is the documented
--   format of a batch as a list of updates, Represents that the operations keep to it. It uses Coding.
-- - Lru (common/lru.h): View is the cache as its entries, the most recent first, Evict the end of
--   Put, Refines the two operations against that view.
-- - FairQueue (example-fq/fair_queue.h, fair_queue.cc): Rotation is the queue as the turns of its
--   clients, Refines the operations against it, Fairness who is served when, Destroy what the
--   destructor deletes. Pop reads through references behind pop_front, which is undefined; an argument
--   of Pop says whether such a read still works, as Refines and Fairness take it, or not, as in Dangling.
-- - TimeWheel (example-time-wheel/time_wheel.h, time_wheel.cc): a timer is a number, and the
--   timers a store. Slots has the levels and slots of AddTimer, Safety the scan of a slot, Pending
--   the timers that wait, Cascade their move down a level, Tick a whole tick, Near what Cascade
--   leaves of level 0, and Called the ticks after which its timers are called. cascade recurs on the
--   number of levels that are left, which is three at level 1.
-- - FreeSpace (example-bitset/main.cc): Finders has the first zero and the first one, Search the
--   search for free space, for any two finders that meet their contract, Words and Chunks the
--   finders that read 64 bits at a time. The loop of the search has N + 1 rounds as fuel: each round
--   moves on by two positions or more.
-- - WritableFile (example-writablefile/writable_file.h, writable_file.cc): the system calls are a
--   record of functions on a state of their own. Buffer has the 64 KB buffer, Write the loop of
--   WriteUnbuffered, Append, Close and Save the operations. The fuel of the loop is the number of
--   calls of write. Ends counts the calls that are interrupted or write nothing, and these with the
--   number of bytes are enough; for the operations above the loop a law, patience, bounds these calls,
--   which POSIX does not.
-- - GroupCommit (DBImpl in example-ping-pong-batch/main.cc): the writers' steps in any order. Queue
--   and Group have the queue and the batch of a group, Invariant where the writers are, Turn and
--   Steps that the steps keep it, Safety what follows for every run, Signals who sleeps and who is
--   woken. A writer that sleeps may also wake up without a signal. It uses WriteBatch.
-- - Sections (example-str-utils/section.h, section.cc, common/strutils.h): Get has the readings of a
--   value as a number, Trim what is taken off a string, Document the format of an options file, Lines
--   what one line does, Parse what a whole file does. Lines of no kind of the format, which the parser
--   passes over, are in no theorem.
-- - BlockList (example-blocklist/block_list.h, block_list.cc): the readings of the clock are arguments.
--   Blocks has the recording of a failure, Report the whole of ReportFailed. The capacity, which the
--   code never reads, is left out.
-- - UserLiterals (example-udl/main.cc): the literals of sizes.
-- - DynamicBits (example-dynamic-bits/dynamic_bits.h, dynamic_bits.cc, common/align.h, common/bitopts.h):
--   a word is the list of its bits. Levels says what the bits of a level stand for, Align has
--   alignment and logarithm as arithmetic, New the constructor, Set the writes, Find, Pick and Search
--   the first and the last bit, Tower the levels by index, Climb and Next the search behind a bit. The
--   loops recur on the levels.
-- - LockFreeQueue (example-lfq/main.cc): each access of a thread to shared memory is a step, in any
--   order and as if memory were sequentially consistent. Nodes has the linked list on the heap,
--   Invariant what holds between two steps, Enqueue and Dequeue that the steps keep it, Fifo what
--   follows for one thread at either end, Progress that calls end, Destroy the destructor, whose fuel
--   is one round for each node.
-- - Publication (example-memory-ordered/main.cc): producer and consumer. A plain read sees the writes
--   in its thread's view and is a race when there are others; a load may read any store that is not
--   older than the last one it read. Safety has the invariant of the two threads.
-- - Tasks (example-memory-ordered/main.cc): perform_task in any number of interleaved steps. Counts
--   counts the threads with a property, Invariant relates these counts to the counter, Reports has
--   what follows for on_all_tasks_completed.
-- - MapList (example-tmp/tmp.h, tmp.cc): the buckets of the hash map are an argument. Loop has the
--   rounds of Run, Round a call, Rounds many calls. The fuel of the loop is the number of buckets, as no
--   bucket is displayed twice in a call. A count of items is taken to be less than 2^64.
-- - MinHeap (example-minheap-topk/min_heap.h): Below has the values below an index, level by level,
--   and how they split at its children, Order that none is less than the value there, Pick the loop,
--   Least the whole function. The loop recurs on the rounds that are left.
-- Each part has its tests and runs at concrete inputs in its Tests. The tests that the source has in
-- the main.cc of example-fq, example-dynamic-bits, example-bitset and example-blocklist are definitions
-- too, in the Functional of their part.
-- Not modelled: the other programs in main.cc and the unit tests, which print what the modelled operations
-- do or run them at fixed inputs; wal.h, which declares operations without a body; allocation and the
-- lifetime of objects, but where a part above names them; the examples of language features, of the
-- platform and of a profiler, and the helpers over locks and memory, which are glue around the C++
-- library; the option macros of example-inc, which the preprocessor expands; the build.
pub mod Base
pub mod Coding
pub mod Slice
pub mod Status
pub mod WriteBatch
pub mod Lru
pub mod FairQueue
pub mod TimeWheel
pub mod FreeSpace
pub mod WritableFile
pub mod GroupCommit
pub mod Sections
pub mod BlockList
pub mod UserLiterals
pub mod DynamicBits
pub mod LockFreeQueue
pub mod Publication
pub mod Tasks
pub mod MapList
pub mod MinHeap
