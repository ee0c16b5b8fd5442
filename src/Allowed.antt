-- ===== src/Allowed.antt =====
-- src/planner.c, the synchronizing planner for a list of allowed actions: sg_allowed_merge_word,
-- sg_best_merge_allowed and sg_plan_sync_allowed.
pub mod Reach
pub mod Walks
pub mod Words
pub mod Merge
pub mod Calls
use sync_kgraph.Base.{
  ℕ, zero, suc, ◌+◌, Bool, true, false, not, ◌&&◌, ◌||◌, List, [], ◌∷◌, ◌++◌, Option, none, some,
  ltb, ◌==◌, if◌then◌else◌, length, get_or, set, replicate, index_none, size_bytes, Status,
  not_found, invalid_argument, Result, ok, err, diverge, Memory, M, ◌>>=◌, ◌>>◌, return, fail,
  stuck, guard, request_all,
}
use sync_kgraph.Bitset.{Bitset, count, copy, from_ids}
use sync_kgraph.Automaton.{Automaton, transition}
use sync_kgraph.Word.{Word, empty_word, append, extend, reverse_actions}
use sync_kgraph.Motion.{apply_word_set}
use sync_kgraph.Goal.{allowed_actions_valid}
use sync_kgraph.Search.{search_subsets}
use sync_kgraph.Plan.{PlanResult, plan, resource_bound, already_satisfied, pair_merge, result_init}
use sync_kgraph.Sync.{
  pair_index, planner_pair_count, pairs_from, Best, beats, Merged, advance, sync_finalize,
  sync_discard_plan, is_plan,
}

-- the arrays of sg_allowed_merge_word. The cells that malloc leaves are 0 here; none is read before it
-- is written.
pub record Walk : Type 0 where
  pub parent : List ℕ
  pub parent_action : List ℕ
  pub pair_first : List ℕ
  pub pair_second : List ℕ
  pub queue : List ℕ

-- a pair that is reached for the first time
unfoldable pub reach : ℕ → ℕ → ℕ → ℕ → ℕ → Walk → Walk
reach current action next_left next_right target w = record {
  parent = set w.parent target current;
  parent_action = set w.parent_action target action;
  pair_first = set w.pair_first target next_left;
  pair_second = set w.pair_second target next_right;
  queue = w.queue ++ (target ∷ []);
}

-- The loop over the allowed actions, with the pair at which it ended.
unfoldable pub walk_letters : Automaton → ℕ → ℕ → ℕ → List ℕ → Walk → Walk × Option ℕ
unfolding reach
walk_letters a current left right [] w = (w, none)
walk_letters a current left right (action ∷ rest) w =
    let next_left = transition a left action in
    let next_right = transition a right action in
    let target = pair_index a.state_count next_left next_right in
    let reached = reach current action next_left next_right target w in
    let skip = walk_letters a current left right rest w in
    let go_on = walk_letters a current left right rest reached in
    if not (get_or w.parent target index_none == index_none)
    then skip
    else if next_left == next_right
    then (reached, some target)
    else go_on

-- a goal ends the loop
unfoldable pub unless_found : Walk × Option ℕ → (Walk → M (Walk × Option ℕ)) → M (Walk × Option ℕ)
unless_found (w, some goal) go_on = return (w, some goal)
unless_found (w, none) go_on = go_on w

-- The `while` loop over the queue, with the number of pairs as fuel.
unfoldable pub walk_rounds : Automaton → List ℕ → ℕ → ℕ → Walk → M (Walk × Option ℕ)
unfolding walk_letters unless_found
walk_rounds a letters zero head w = if ltb head (length w.queue) then stuck else return (w, none)
walk_rounds a letters (suc left) head w =
    let current = get_or w.queue head 0 in
    if ltb head (length w.queue)
    then unless_found
        (walk_letters a current (get_or w.pair_first current 0) (get_or w.pair_second current 0)
          letters w)
        (walk_rounds a letters left (head + 1))
    else return (w, none)

-- The `while` loop that walks to the root, with the length of the queue as fuel.
unfoldable pub collect_parents : ℕ → Walk → ℕ → ℕ → Word → M Word
collect_parents zero w root cursor word = stuck
collect_parents (suc fuel) w root cursor word = if cursor == root then return word else (do
  longer ← append word (get_or w.parent_action cursor index_none)
  collect_parents fuel w root (get_or w.parent cursor index_none) longer)

-- behind the search
unfoldable pub spell : ℕ → Walk × Option ℕ → M Word
unfolding collect_parents
spell root (w, none) = fail not_found
spell root (w, some goal) = do
  collected ← collect_parents (length w.queue) w root goal empty_word
  return (reverse_actions collected)

-- the arrays with the root in the queue
unfoldable pub walk_start : ℕ → ℕ → ℕ → ℕ → Walk
walk_start pairs first second root = record {
  parent = set (replicate pairs index_none) root root;
  parent_action = replicate pairs index_none;
  pair_first = set (replicate pairs 0) root first;
  pair_second = set (replicate pairs 0) root second;
  queue = root ∷ [];
}

-- sg_allowed_merge_word
unfoldable pub allowed_merge_word : Automaton → ℕ → ℕ → List ℕ → M Word
unfolding walk_rounds walk_start spell
allowed_merge_word a first second letters = if first == second then return empty_word else (do
  pairs ← planner_pair_count a.state_count
  bytes ← size_bytes pairs 8
  request_all 5
  let root = pair_index a.state_count first second
  ended ← walk_rounds a letters pairs 0 (walk_start pairs first second root)
  spell root ended)

-- NOT_FOUND is no error of the caller's
unfoldable pub found_result : {A : Type 0} → Result A × Memory → Result (Option A) × Memory
found_result (ok x, h) = (ok (some x), h)
found_result (err not_found, h) = (ok none, h)
found_result (err e, h) = (err e, h)
found_result (diverge, h) = (diverge, h)

unfoldable pub optional : {A : Type 0} → M A → M (Option A)
unfolding found_result
optional m h = found_result (m h)

-- the candidate that a pair gives, against the best so far
unfoldable pub weigh : Automaton → Bitset → ℕ → Option Word → Option Best → M (Option Best)
weigh a active pair none best = return best
weigh a active pair (some word) best = do
  support ← apply_word_set a active word
  return (
      if beats (count support) (length word.actions) pair best
      then some (record { word = word; support = support; count = count support; pair = pair })
      else best)

-- The two loops over states of sg_best_merge_allowed.
unfoldable pub choose_allowed :
    Automaton → Bitset → List ℕ → List (ℕ × ℕ) → Option Best → M (Option Best)
unfolding allowed_merge_word optional weigh
choose_allowed a active letters [] best = return best
choose_allowed a active letters ((first, second) ∷ pairs) best = do
  word ← optional (allowed_merge_word a first second letters)
  best' ← weigh a active (pair_index a.state_count first second) word best
  choose_allowed a active letters pairs best'

-- sg_best_merge_allowed, with `none` for NOT_FOUND
unfoldable pub best_merge_allowed : Automaton → Bitset → List ℕ → M (Option Best)
unfolding choose_allowed
best_merge_allowed a active letters =
    choose_allowed a active letters (pairs_from active a.state_count 0) none

-- The `while` loop of sg_plan_sync_allowed: `left` is the budget less the expansions.
unfoldable pub allowed_rounds : Automaton → List ℕ → ℕ → Bitset → PlanResult → M Merged
unfolding best_merge_allowed
allowed_rounds a letters zero active result = return (record {
  active = active;
  result = if ltb 1 (count active) then record result { outcome = resource_bound } else result;
})
allowed_rounds a letters (suc left) active result =
    if ltb 1 (count active)
    then (do
      found ← best_merge_allowed a active letters
      advance found active result (allowed_rounds a letters left))
    else return (record { active = active; result = result })

-- behind the `while` loop
unfoldable pub allowed_conclude : Automaton → Bitset → List ℕ → ℕ → Merged → M PlanResult
allowed_conclude a initial letters budget m = do
  result ←
      (if count m.active == 1
        then return (record m.result { outcome = plan; method = pair_merge })
        else search_subsets a initial (some letters) budget (sync_discard_plan m.result))
  if is_plan result.outcome then sync_finalize a initial result else return result

-- sg_plan_sync_allowed
unfoldable pub plan_sync_allowed : Automaton → List ℕ → List ℕ → ℕ → M PlanResult
unfolding allowed_rounds allowed_conclude
plan_sync_allowed a initial_states letters budget = do
  guard (allowed_actions_valid a letters && not (length initial_states == 0 || budget == 0))
      invalid_argument
  initial ← from_ids a.state_count initial_states
  active ← copy initial
  if count active == 1
      then sync_finalize a initial (record (result_init a) { outcome = already_satisfied })
      else (do
        m ← allowed_rounds a letters budget active (result_init a)
        allowed_conclude a initial letters budget m)
