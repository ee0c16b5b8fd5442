-- ===== src/OracleSync.antt =====
-- src/planner.c, sg_plan_sync: the synchronizing planner with a pair oracle as its source of records.
pub mod Sound
pub mod Calls
use sync_kgraph.Base.{ℕ, Bool, List, [], ◌∷◌, M, ◌>>=◌, ◌>>◌, return, guard, invalid_argument}
use sync_kgraph.Automaton.{Automaton}
use sync_kgraph.Plan.{PlanResult}
use sync_kgraph.Sync.{PairRecord, Reader, plan_sync_with_source}
use sync_kgraph.Oracle.{Oracle}
use sync_kgraph.Records.{oracle_record}

-- sg_oracle_record_reader
unfoldable pub oracle_record_reader : Oracle → Reader
oracle_record_reader o [] = return []
oracle_record_reader o (pair ∷ pair_ids) = do
  r ← oracle_record o pair
  records ← oracle_record_reader o pair_ids
  return (r ∷ records)

-- sg_plan_sync. `own` is the test on pointers: whether the oracle's automaton is the one given.
unfoldable pub plan_sync : Bool → Automaton → Oracle → List ℕ → ℕ → M PlanResult
plan_sync own a o initial_states budget = do
  guard own invalid_argument
  plan_sync_with_source a (oracle_record_reader o) initial_states budget
