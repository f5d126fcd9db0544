-- ===== src/Lib.antt =====
-- A model of the scheduling core of blockcheckS, which probes strategies against DPI on many domains:
-- the queue that chooses the next probe, the weights that order it, the quarantine that stops the
-- probing of dead domains, the two ways in which probes are put together, the workers of the lua
-- bridge, those that drive the queue, the triage that prunes strategies and seeds the weights, the run
-- by families of strategies, the pool of network namespaces, the run lock and the clean-up.
--
-- Job: `StrategyItem` of src/blockchecks/engine/generators/base.py and `AdaptiveJob` of
--   src/blockchecks/engine/adaptive_queue.py.
-- Queue: `AdaptiveJobQueue` of src/blockchecks/engine/adaptive_queue.py. Queue.antt has the state,
--   `enqueue` and the repairs of the heap; Queue/Heap the entries and `heapq`; Queue/Pop `pop`;
--   Queue/Results `mark_done`, the metrics and the fan-out; Queue/Bulk `build`, `pop_batch` and
--   `filter_resume`. The other files of Queue hold proofs: Invariant, Keeps and Remembers what every
--   method keeps, Metrics what counts, Promise, Popping, Rounds, Exploring and Popped the two branches
--   of `pop`, Taking and Batches `pop_batch`, Fanouts the fan-out, Session sequences of calls.
-- Weights: `ScanWeights` of src/blockchecks/engine/adaptive_queue.py, which gives the queue its
--   priorities and which a pass raises.
-- Quarantine: src/blockchecks/engine/domain_quarantine.py. Its domains are the `excluded_domains`
--   of the queue. It asks FailPhase, src/blockchecks/engine/fail_phase.py, which failures count.
--   Quarantine/Denylist is the file that it may append to.
-- Batch: src/blockchecks/service/batch_scheduler.py, the batches for the lua bridge.
-- Fanout: src/blockchecks/engine/tcp_fanout.py, the batches for one curl call, whose profiles
--   `pop_batch` asks for too.
-- Bridge: src/blockchecks/engine/bridge_worker_pool.py, with the results of
--   src/blockchecks/engine/results.py. Bridge.antt has the isolation of domains, the batch and a
--   worker's round; Bridge/Runs any number of workers, whose steps interleave. It feeds Quarantine.
-- Families: src/blockchecks/engine/family_spec.py and src/blockchecks/engine/family_needs.py.
--   Families.antt has the registry, the class of a strategy and the order; Families/Gates the tracker
--   and `run_tcp_with_family_gates`; Families/Sorting Python's `sorted`.
-- Netns: src/blockchecks/service/netns_pool.py. Netns.antt has the commands, the count of namespaces
--   and the pool with its queue, whose puts wait where it is full; Netns/Leases the workers that acquire
--   and release. How the cleanup of a namespace ends is an argument of `release`.
-- RunControl: src/blockchecks/service/run_control.py. RunControl.antt has each function alone;
--   RunControl/Race several processes, whose accesses to the lock file interleave.
-- Adaptive: src/blockchecks/engine/adaptive_runner.py, which puts Queue, Batch, Bridge and Quarantine
--   together. Adaptive.antt has a worker's steps between its awaits, Adaptive/Steps any interleaving of
--   workers, Adaptive/Start `build_adaptive_queue`; Loads, Calls and Keeping follow each job, Counting
--   the counters, Queueing the queue, Whole a run from its start, Bounds and Ready what it starts
--   from.
-- Triage: src/blockchecks/engine/triage.py, with its form as a dict in Triage/Dicts;
--   src/blockchecks/engine/family_registry.py in Triage/Tags and Triage/Pruning;
--   src/blockchecks/engine/blob_filter.py in Triage/Blobs; Triage/Seeding is `seed_from_triage` of
--   src/blockchecks/engine/adaptive_queue.py.
-- Gc: src/blockchecks/engine/gc.py, the files in Gc/Files and the results in SQLite in Gc/Database.
-- Prelude: what the parts share: Boolean tests, lists, dicts and sets as lists, text, integers.
--
-- A method that changes its object returns the new object. A dict is a list of pairs in the order of
-- insertion, a set a list. A weight is a natural number of tenths, with exact sums in place of floats.
-- The heap is a list in the order of its entries. The genetics of a strategy, which other modules
-- compute from its text, and the random numbers are parameters; of the random numbers it is assumed
-- only that `randint(1, 1)` is 1. The check of `filter_resume` is a function, and nothing else changes
-- the queue while it runs. The time is an argument where the source reads a clock.
--
-- `pop` runs its loop on fuel, twice the entries of the heap and one more: a round takes an entry off
-- the heap, or replaces a stale one by one that is not stale. That this is enough is part of what is
-- proved of `pop`. `run_tcp_with_family_gates` runs on fuel, the number of its items: a round takes at
-- least one; that this is enough is part of what is proved of it. All other loops are structural, over
-- lists; a loop that waits for a process is one over the answers that it gets in time.
--
-- A command, a signal, a probe, a look at a stop event and what a store answers are functions that the
-- definitions take as arguments, by the number of the call where the answer may change.
--
-- What the regular expressions of the pruning find is a parameter too, and so is `round` of a float in
-- `to_dict`: the read rate is a number that stands for a float. A step of a worker of Adaptive
-- ends at the next await; the callbacks of one batch are taken as one step.
--
-- Not modelled: the log output, `persist_quarantine`, `classify_fail_phase` with its regular
-- expressions, the axis tables of the families, the clusters of domain reports, the hooks of the pool
-- for signals and exit, the teardown of shared memory after a session, and the parts of the
-- program that talk to the network, to SQLite and to the command line.
pub mod Prelude
pub mod Job
pub mod FailPhase
pub mod Quarantine
pub mod Weights
pub mod Fanout
pub mod Batch
pub mod Queue
pub mod Bridge
pub mod Triage
pub mod Adaptive
pub mod Families
pub mod Netns
pub mod RunControl
pub mod Gc
