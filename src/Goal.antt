-- ===== src/Goal.antt =====
-- src/planner.c, sg_plan_goal: the exact search for a word that leads every initial state into the goal
-- set, with a queue of nodes that take their sets over.
pub mod Rounds
pub mod Finalize
pub mod Decides
use sync_kgraph.Base.{
  ℕ, zero, suc, ◌+◌, Bool, true, false, not, ◌&&◌, ◌||◌, List, [], ◌∷◌, Option, none, some, ltb,
  ◌==◌, if◌then◌else◌, length, get_or, index_none, M, ◌>>=◌, ◌>>◌, return, guard, invalid_argument,
  invalid_model,
}
use sync_kgraph.Bitset.{Bitset, init, count, subset, copy, from_ids, to_ids}
use sync_kgraph.Automaton.{Automaton}
use sync_kgraph.Motion.{apply_action_set, apply_word_set}
use sync_kgraph.Partition.{fill_plan_metrics}
use sync_kgraph.Plan.{
  Outcome, PlanResult, plan, no_plan, resource_bound, already_satisfied, belief_bfs, result_init,
}
use sync_kgraph.Search.{Node, Search, node, belief_search_add, belief_reconstruct, search_contains}

-- sg_allowed_actions_valid
unfoldable pub ids_below : ℕ → List ℕ → Bool
ids_below n [] = true
ids_below n (x ∷ xs) = ltb x n && ids_below n xs

unfoldable pub allowed_actions_valid : Automaton → List ℕ → Bool
unfolding ids_below
allowed_actions_valid a allowed = not (length allowed == 0) && ids_below a.action_count allowed

-- sg_goal_finalize
unfoldable pub goal_finalize : Automaton → Bitset → Bitset → PlanResult → M PlanResult
goal_finalize a initial goals result = do
  final ← apply_word_set a initial result.word
  guard (subset final goals) invalid_model
  fill_plan_metrics a initial (record result {
    final_support_size = count final;
    final_state = if count final == 1 then get_or (to_ids final) 0 index_none else index_none;
  })

-- what the loop over the letters leaves: the queue, and the index of a node inside the goals
pub record Expansion : Type 0 where
  pub search : Search
  pub found : Option ℕ

-- The loop over the letters of sg_plan_goal.
unfoldable pub goal_letters : Automaton → Bitset → ℕ → List ℕ → Search → M Expansion
unfolding belief_search_add search_contains
goal_letters a goals parent [] search = return (record { search = search; found = none })
goal_letters a goals parent (action ∷ rest) search =
    let go_on = goal_letters a goals parent rest search in
    do
      blank ← init a.state_count
      let next = apply_action_set a (node search.nodes parent).support action blank
      if search_contains search.nodes next then go_on else (do
        search' ← belief_search_add search next parent action
        let rest_on = goal_letters a goals parent rest search'
        if subset (node search'.nodes (length search.nodes)).support goals
            then return (record { search = search'; found = some (length search.nodes) })
            else rest_on)

-- what the `while` loop leaves
pub record Ended : Type 0 where
  pub search : Search
  pub found : Option ℕ
  pub result : PlanResult

-- a node found ends the loop
unfoldable pub leave : Expansion → PlanResult → M Ended → M Ended
leave e result go_on = elim e.found [
  | some i ↦ return (record { search = e.search; found = some i; result = result })
  | none ↦ go_on
]

-- The `while` loop of sg_plan_goal: `left` is the budget less the expansions, and each round takes one.
unfoldable pub goal_rounds : Automaton → Bitset → List ℕ → ℕ → Search → ℕ → PlanResult → M Ended
unfolding goal_letters leave
goal_rounds a goals letters zero search head result = return (record {
  search = search;
  found = none;
  result =
      if ltb head (length search.nodes) then record result { outcome = resource_bound } else result;
})
goal_rounds a goals letters (suc left) search head result =
    if ltb head (length search.nodes)
    then (do
      e ← goal_letters a goals head letters search
      let result' = record result { expansions = result.expansions + 1 }
      leave e result' (goal_rounds a goals letters left e.search (head + 1) result'))
    else return (record { search = search; found = none; result = result })

abbrev pub is_resource_bound : Outcome → Bool
is_resource_bound resource_bound = true
is_resource_bound plan = false
is_resource_bound already_satisfied = false
is_resource_bound no_plan = false

-- behind the `while` loop: reconstruct and check, or no plan
unfoldable pub goal_conclude : Automaton → Bitset → Bitset → Ended → M PlanResult
unfolding belief_reconstruct goal_finalize
goal_conclude a initial goals ended = elim ended.found [
  | some i ↦ (do
    word ← belief_reconstruct ended.search i
    goal_finalize a initial goals
        (record ended.result { word = word; outcome = plan; method = belief_bfs }))
  | none ↦ return (record ended.result {
    outcome = if is_resource_bound ended.result.outcome then resource_bound else no_plan;
  })
]

unfoldable pub goal_search : Automaton → Bitset → Bitset → List ℕ → ℕ → M PlanResult
unfolding goal_rounds goal_conclude belief_search_add
goal_search a initial goals allowed budget = do
  root ← copy initial
  search ← belief_search_add (record { nodes = []; capacity = 0 }) root index_none index_none
  ended ← goal_rounds a goals allowed budget search 0 (result_init a)
  goal_conclude a initial goals ended

-- sg_plan_goal
unfoldable pub plan_goal : Automaton → List ℕ → List ℕ → List ℕ → ℕ → M PlanResult
unfolding allowed_actions_valid goal_finalize goal_search
plan_goal a initial_states goal_states allowed_actions budget = do
  guard
      (allowed_actions_valid a allowed_actions
        && not (length initial_states == 0 || length goal_states == 0 || budget == 0))
      invalid_argument
  initial ← from_ids a.state_count initial_states
  goals ← from_ids a.state_count goal_states
  if subset initial goals
      then goal_finalize a initial goals (record (result_init a) { outcome = already_satisfied })
      else goal_search a initial goals allowed_actions budget
