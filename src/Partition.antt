-- ===== src/Partition.antt =====
-- src/planner.c, sg_trace_partition: the states that a word leads to, in groups by the outputs shown,
-- and the metrics of a plan that are read off it.
pub mod Groups
pub mod Branches
pub mod Homing
use sync_kgraph.Base.{
  ℕ, zero, suc, ◌+◌, ◌%◌, Bool, true, false, not, ◌&&◌, List, [], ◌∷◌, ◌++◌, Option, none, some,
  ltb, leb, ◌==◌, if◌then◌else◌, length, get_or, set, replicate, index_none, size_mod, grow, M,
  ◌>>=◌, ◌>>◌, return, guard, request, request_all, alloc, invalid_argument,
}
use sync_kgraph.Bitset.{Bitset, init, add, has, count, copy}
use sync_kgraph.Automaton.{Automaton, transition, observation}
use sync_kgraph.Word.{Word}
use sync_kgraph.Plan.{PlanResult}

-- sg_trace_branch
pub record Branch : Type 0 where
  pub support : Bitset
  pub trace : List ℕ

-- sg_trace_partition
pub record Partition : Type 0 where
  pub branches : List Branch
  pub capacity : ℕ

-- never seen: the only index read is that of a branch
abbrev pub no_branch : Branch
no_branch = record { support = record { words = []; state_count = 0 }; trace = [] }

abbrev pub no_branches : Partition
no_branches = record { branches = []; capacity = 0 }

-- sg_trace_partition_add: the branch takes the set over and copies the trace
unfoldable pub partition_add : Partition → Bitset → List ℕ → ℕ → M Partition
partition_add partition support trace appended_output = do
  capacity ← grow 8 40 (length partition.branches) partition.capacity
  guard (not (length trace == index_none)) alloc
  request
  return (record {
    branches =
        partition.branches
        ++ (record { support = support; trace = trace ++ (appended_output ∷ []) } ∷ []);
    capacity = capacity;
  })

-- sg_trace_partition_init
unfoldable pub partition_init : Bitset → M Partition
partition_init initial = do
  request
  mine ← copy initial
  return (record { branches = record { support = mine; trace = [] } ∷ []; capacity = 1 })

-- a group that is used, or a new one; `used[output]` is that the group is there
unfoldable pub group_of : Automaton → Option Bitset → M Bitset
group_of a (some group) = return group
group_of a none = init a.state_count

-- The loop over states of sg_trace_partition_apply_action: `left` states from `state` on.
unfoldable pub group_loop :
    Automaton → Bitset → ℕ → ℕ → ℕ → List (Option Bitset) → M (List (Option Bitset))
unfolding group_of
group_loop a support action zero state groups = return groups
group_loop a support action (suc left) state groups =
    let go_on = group_loop a support action left (state + 1) groups in
    if has support state
    then (do
      group ← group_of a (get_or groups (observation a state action) none)
      group_loop a support action left (state + 1)
          (set groups (observation a state action) (some (add group (transition a state action)))))
    else go_on

-- the loop over outputs: each used group becomes a branch
unfoldable pub add_groups : List ℕ → List (Option Bitset) → ℕ → Partition → M Partition
unfolding partition_add
add_groups trace [] output destination = return destination
add_groups trace (none ∷ groups) output destination =
    add_groups trace groups (output + 1) destination
add_groups trace (some group ∷ groups) output destination = do
  destination' ← partition_add destination group trace output
  add_groups trace groups (output + 1) destination'

-- sg_trace_partition_apply_action, over the branches left
unfoldable pub apply_branches : Automaton → ℕ → List Branch → Partition → M Partition
unfolding group_loop add_groups
apply_branches a action [] destination = return destination
apply_branches a action (branch ∷ branches) destination = do
  request_all 2
  groups ← group_loop a branch.support action a.state_count 0 (replicate a.output_count none)
  destination' ← add_groups branch.trace groups 0 destination
  apply_branches a action branches destination'

unfoldable pub partition_loop : Automaton → List ℕ → Partition → M Partition
unfolding apply_branches
partition_loop a [] current = return current
partition_loop a (action ∷ rest) current = do
  next ← apply_branches a action current.branches no_branches
  partition_loop a rest next

-- sg_trace_partition_apply_word
unfoldable pub partition_apply_word : Automaton → Partition → Word → M Partition
unfolding partition_init partition_loop
partition_apply_word a source word = do
  guard (length source.branches == 1 && length (get_or source.branches 0 no_branch).trace == 0)
      invalid_argument
  current ← partition_init (get_or source.branches 0 no_branch).support
  partition_loop a word.actions current

-- sg_trace_metrics: the smallest and the largest set of the branches
unfoldable pub best_loop : List Branch → ℕ → ℕ
best_loop [] best = best
best_loop (b ∷ bs) best =
    best_loop bs (if ltb (count b.support) best then count b.support else best)

unfoldable pub worst_loop : List Branch → ℕ → ℕ
worst_loop [] worst = worst
worst_loop (b ∷ bs) worst =
    worst_loop bs (if ltb worst (count b.support) then count b.support else worst)

unfoldable pub best_of : Partition → ℕ
unfolding best_loop
best_of partition =
    let best = best_loop partition.branches index_none in
    if length partition.branches == 0 then 0 else best

unfoldable pub worst_of : Partition → ℕ
unfolding worst_loop
worst_of partition = worst_loop partition.branches 0

-- sg_fill_plan_metrics; the total of sg_trace_metrics is not used by its caller
unfoldable pub fill_plan_metrics : Automaton → Bitset → PlanResult → M PlanResult
unfolding partition_init partition_apply_word best_of worst_of
fill_plan_metrics a initial result = do
  source ← partition_init initial
  final ← partition_apply_word a source result.word
  return (record result {
    best_support_size = best_of final;
    worst_support_size = worst_of final;
    branch_count = length final.branches;
    homing = leb (worst_of final) 1;
  })
