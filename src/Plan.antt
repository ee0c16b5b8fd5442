-- ===== src/Plan.antt =====
-- include/sync_kgraph/sync.h and src/planner.c: what a planner returns. The planning time, a reading
-- of the clock, is left out.
use sync_kgraph.Base.{ℕ, Bool, false, index_none, List, [], ◌∷◌, zero, suc, ◌+◌}
use sync_kgraph.Automaton.{Automaton}
use sync_kgraph.Word.{Word, empty_word}

-- sg_plan_outcome
pub data Outcome : Type 0 where
  plan : Outcome
  already_satisfied : Outcome
  no_plan : Outcome
  resource_bound : Outcome

-- sg_plan_method
pub data Method : Type 0 where
  no_method : Method
  pair_merge : Method
  pair_resolution : Method
  partition_bfs : Method
  subset_bfs : Method
  belief_bfs : Method

-- sg_plan_result
pub record PlanResult : Type 0 where
  pub outcome : Outcome
  pub method : Method
  pub word : Word
  pub final_state : ℕ
  pub final_support_size : ℕ
  pub best_support_size : ℕ
  pub worst_support_size : ℕ
  pub branch_count : ℕ
  pub expansions : ℕ
  pub homing : Bool
  pub generation : ℕ

-- sg_plan_result_init
abbrev pub result_init : Automaton → PlanResult
result_init a = record {
  outcome = Outcome.no_plan;
  method = no_method;
  word = empty_word;
  final_state = index_none;
  final_support_size = 0;
  best_support_size = 0;
  worst_support_size = 0;
  branch_count = 0;
  expansions = 0;
  homing = false;
  generation = a.generation;
}

-- the ids of all actions, in their order: the loop over letters with no list of allowed actions
abbrev pub ids_up : ℕ → ℕ → List ℕ
ids_up start zero = []
ids_up start (suc n) = start ∷ ids_up (start + 1) n
