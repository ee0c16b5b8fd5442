-- ===== src/Lib.antt =====
-- sync-kgraph plans synchronizing, homing and goal-reaching words for a Mealy automaton that a
-- knowledge graph holds, and monitors their execution. This library models its C core.
--
-- The parts and their files:
-- - Base (no code of its own but include/sync_kgraph/sync.h's status codes): list helpers, the result
--   monad, and size_t arithmetic (src/sync.c: sg_size_multiply).
-- - Word (src/sync.c: sg_word_*): a sequence of actions in an array that doubles; Word/Reverse is the
--   swap loop that ends the reconstructions of src/planner.c.
-- - Automaton (src/sync.c, src/sync_internal.h): the tables of sg_automaton, its accessors,
--   sg_automaton_set_cell and sg_automaton_clone_generation.
-- - Builder (src/sync.c: sg_automaton_builder_*): keys and entries by name, and the build that
--   resolves them into the tables. Builder/Reasons says why entries are refused.
-- - Bitset (src/planner.c: sg_bitset_*): a set of states as 64-bit words. Bits is one word, Card
--   counting, Laws and Members the set.
-- - Motion (src/planner.c: sg_apply_*): images of a set under actions, observed actions and words;
--   Motion/Traces has the outputs of a run.
-- - Partition (src/planner.c: sg_trace_partition_*, sg_trace_metrics, sg_fill_plan_metrics): a set in
--   groups by the outputs that a word shows, and the metrics of a plan.
-- - Plan (include/sync_kgraph/sync.h, src/planner.c: sg_plan_result_*): what a planner returns.
-- - Search (src/planner.c: sg_subset_*, sg_belief_*): the queue of nodes, the reconstruction of a
--   word, and sg_subset_bfs.
-- - Goal (src/planner.c: sg_plan_goal, sg_goal_finalize): the search for a word into a goal set.
-- - Sync (src/planner.c: sg_pair_words_load, sg_best_merge, sg_sync_finalize,
--   sg_plan_sync_with_source; src/oracle.c: sg_pair_index): pairs of states merged along the records
--   of a source, and the exact search at a dead end. Sync/Load and Sync/Sound are the
--   loading of witnesses, Sync/Merge the greedy part, Sync/Calls the whole call.
-- - Oracle (src/oracle.c: sg_pair_oracle_build and its parts): the graph of pairs of states (Fill,
--   Pairs), its edges grouped by target (Buckets), the breadth-first searches (Queue, Distances,
--   Seeds, Shortest), the choice of witnesses (Witnesses), and the whole build (Build).
-- - Records (src/oracle.c: sg_pair_oracle_record, sg_*_record_valid, sg_pair_oracle_restore,
--   sg_witness_word): what is read of an oracle, and what it is restored from. Follow is the walk
--   along the witnesses, Valid and Exact the tests of records, Stored the loop over the records to restore.
-- - OracleSync (src/planner.c: sg_oracle_record_reader, sg_plan_sync): the oracle as the record
--   source of the synchronizing planner. The test that the oracle's automaton is the one given, a
--   comparison of pointers, is an argument.
-- - Allowed (src/planner.c: sg_allowed_merge_word, sg_best_merge_allowed, sg_plan_sync_allowed): the
--   same planner for a list of allowed actions. Reach, Walks and Words are the search for a merging
--   word in the graph of pairs, Merge the greedy part, Calls the whole call.
-- - Cache (src/snapshot_cache.c): the cache of snapshots, a doubly linked list with a bound on its bytes.
--   Segment, Relink and Links are the links, Items what the list stands for, Evict and TakeOut the
--   parts of an insertion, Lookup, Insert and Lifetime the calls.
-- - Monitor (src/planner.c: sg_validate_update, sg_validate_observed_update): both monitors.
-- - Tests: runs and instances at a small automaton.
--
-- How they interact: the builder makes an automaton, which every other call only reads; a search
-- keeps nodes whose sets are images (Motion) of the initial set, and returns a word in a plan result;
-- the monitors replay a word's completed prefix and compare the set with a localizer's report; the
-- oracle is built of an automaton or restored from records, and serves the synchronizing planner.
--
-- Conventions. A pointer argument is a value, so the tests for NULL have no counterpart, and the
-- length of a list stands for its count field; `free` is not modelled. size_t is a number below 2^64
-- (LP64) and its arithmetic wraps where the code can reach the wrap. A call reads the answers of
-- malloc, calloc and realloc from a list of Booleans: it may refuse any request, and grants what lies
-- beyond the list. `Ensures m P E` says that for every such list the call ends: with a result in P,
-- or with a status in E, or with SG_ERR_ALLOC after a request that was refused. Out parameters are
-- returned. The planning time, a reading of the clock, is left out.
--
-- Fuel: sg_popcount gets 64 rounds, one for each bit; the walk to the root gets one round more than
-- there are nodes, since a parent stands before its node; the swap loop gets as many rounds as
-- actions; the rounds of sg_subset_bfs, of sg_plan_goal and
-- of the merging are the budget less the expansions made; the rounds that follow the witnesses are
-- one more than there are pairs, as the loop's bound says; the searches of the oracle get as many
-- rounds as there are pairs, since a pair enters the queue once; the walk along the witnesses of an
-- oracle gets one round more than the distance, which falls by one in each; the search for a
-- merging word gets as many rounds as there are pairs, and its walk back as many as pairs were reached; the walks of
-- the cache get as many as entries were ever made. A walk that used up
-- its fuel is `diverge`, which Ensures excludes.
--
-- The hypotheses on sizes: a number of states or outputs n has n + 63 < 2^64, so that the number of
-- words of a bitset does not wrap, and the number of cells of a table is below 2^64.
-- sg_automaton_allocate asks for 8 bytes for each cell without a test of that product: where it wraps
-- the loop behind it writes past the block, which is `within_block` in the model, and the theorem on
-- the build excludes that size.
--
-- The record source of Sync is a parameter, any call that takes pairs and gives records or a status.
--
-- Not modelled: the pair-resolution planner, the partition search, the explanation of plans, src/dynamic.c, src/snapshot.c
-- but for its reference counters, the Memgraph module and the command line.
pub mod Allowed
pub mod Automaton
pub mod Base
pub mod Bitset
pub mod Builder
pub mod Cache
pub mod Goal
pub mod Monitor
pub mod Motion
pub mod Oracle
pub mod OracleSync
pub mod Partition
pub mod Plan
pub mod Records
pub mod Search
pub mod Sync
pub mod Tests
pub mod Word
