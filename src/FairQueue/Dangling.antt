-- ===== src/FairQueue/Dangling.antt =====
-- `Pop` of example-fq/fair_queue.cc with the references of the standard's deque.
use c_plus_plus_examples.FairQueue.{FairQueue}
