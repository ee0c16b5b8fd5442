-- ===== src/Search.antt =====
-- src/planner.c, the exact searches over sets of states: sg_subset_bfs and the search of
-- sg_plan_goal. A queue of nodes, each with its parent's index and the action that led to it.
pub mod Nodes
pub mod Frontier
pub mod Subset
pub mod Letters
pub mod Decides
pub mod Words
use sync_kgraph.Base.{
  ℕ, zero, suc, ◌+◌, ◌-◌, Bool, true, false, not, ◌||◌, List, [], ◌∷◌, ◌++◌, Option, none, some,
  ltb, leb, ◌==◌, if◌then◌else◌, length, get_or, index_none, grow, M, ◌>>=◌, ◌>>◌, return, stuck,
  guard, request, invalid_argument,
}
use sync_kgraph.Bitset.{Bitset, init, count, equal, subset, copy}
use sync_kgraph.Automaton.{Automaton}
use sync_kgraph.Word.{Word, empty_word, append, reverse_actions}
use sync_kgraph.Motion.{apply_action_set}
use sync_kgraph.Plan.{Outcome, PlanResult, plan, no_plan, resource_bound, subset_bfs, ids_up}

-- sg_subset_node and sg_belief_node
pub record Node : Type 0 where
  pub support : Bitset
  pub parent : ℕ
  pub action : ℕ

-- sg_subset_search and sg_belief_search
pub record Search : Type 0 where
  pub nodes : List Node
  pub capacity : ℕ

-- never seen: `Nodes` shows that each index read is one of the queue
abbrev pub no_node : Node
no_node = record {
  support = record { words = []; state_count = 0 };
  parent = index_none;
  action = index_none;
}

abbrev pub node : List Node → ℕ → Node
node nodes i = get_or nodes i no_node

-- sg_subset_search_add: the node has a copy of the set
unfoldable pub subset_search_add : Search → Bitset → ℕ → ℕ → M Search
subset_search_add search support parent action = do
  capacity ← grow 16 40 (length search.nodes) search.capacity
  mine ← copy support
  return (record {
    nodes = search.nodes ++ (record { support = mine; parent = parent; action = action } ∷ []);
    capacity = capacity;
  })

-- sg_belief_search_add: the node takes the set over
unfoldable pub belief_search_add : Search → Bitset → ℕ → ℕ → M Search
belief_search_add search support parent action = do
  capacity ← grow 32 40 (length search.nodes) search.capacity
  return (record {
    nodes = search.nodes ++ (record { support = support; parent = parent; action = action } ∷ []);
    capacity = capacity;
  })

-- sg_subset_search_contains, and whether sg_belief_search_find finds a node
unfoldable pub search_contains : List Node → Bitset → Bool
search_contains [] support = false
search_contains (n ∷ ns) support = equal n.support support || search_contains ns support

-- The walk to the root of sg_subset_reconstruct and sg_belief_reconstruct, with fuel: `Nodes` shows
-- that a parent stands before its node, so as many rounds as there are nodes are enough.
unfoldable pub collect_actions : ℕ → List Node → ℕ → Word → M Word
collect_actions zero nodes cursor word = stuck
collect_actions (suc fuel) nodes cursor word =
    if (node nodes cursor).parent == index_none then return word else (do
      w ← append word (node nodes cursor).action
      collect_actions fuel nodes (node nodes cursor).parent w)

unfoldable pub subset_reconstruct : Search → ℕ → ℕ → Word → M Word
unfolding collect_actions
subset_reconstruct search parent final_action word = do
  w ← append word final_action
  collected ← collect_actions (suc (length search.nodes)) search.nodes parent w
  return (reverse_actions collected)

unfoldable pub belief_reconstruct : Search → ℕ → M Word
unfolding collect_actions
belief_reconstruct search goal = do
  collected ← collect_actions (suc (length search.nodes)) search.nodes goal empty_word
  return (reverse_actions collected)

-- what the loop over the letters leaves: the queue, the buffer, and the word when one was found
pub record Expanded : Type 0 where
  pub search : Search
  pub next : Bitset
  pub hit : Option Word

-- The loop over the letters of sg_subset_bfs. `word` is the result's word, empty at the call.
unfoldable pub subset_letters : Automaton → Word → ℕ → List ℕ → Search → Bitset → M Expanded
unfolding subset_search_add search_contains subset_reconstruct
subset_letters a word parent [] search next =
    return (record { search = search; next = next; hit = none })
subset_letters a word parent (action ∷ rest) search next =
    let image = apply_action_set a (node search.nodes parent).support action next in
    let go_on = subset_letters a word parent rest search image in
    if count image == 1
    then (do
      found ← subset_reconstruct search parent action word
      return (record { search = search; next = image; hit = some found }))
    else if search_contains search.nodes image
    then go_on
    else (do
      search' ← subset_search_add search image parent action
      subset_letters a word parent rest search' image)

-- the end of a round of sg_subset_bfs: a word found ends the loop
unfoldable pub settle : Option Word → PlanResult → M PlanResult → M PlanResult
settle (some word) result go_on =
    return (record result { outcome = plan; method = subset_bfs; word = word })
settle none result go_on = go_on

-- The `while` loop of sg_subset_bfs: `left` is the budget less the expansions, and each round takes
-- one.
unfoldable pub subset_rounds :
    Automaton → List ℕ → ℕ → Search → Bitset → ℕ → PlanResult → M PlanResult
unfolding subset_letters settle
subset_rounds a letters zero search next head result =
    return (record result {
      outcome = if ltb head (length search.nodes) then resource_bound else no_plan;
    })
subset_rounds a letters (suc left) search next head result =
    if ltb head (length search.nodes)
    then (do
      e ← subset_letters a result.word head letters search next
      let result' = record result { expansions = result.expansions + 1 }
      settle e.hit result' (subset_rounds a letters left e.search e.next (head + 1) result'))
    else return (record result { outcome = no_plan })

-- the letters of the search: those allowed, or all
unfoldable pub letters_of : Automaton → Option (List ℕ) → List ℕ
letters_of a none = ids_up 0 a.action_count
letters_of a (some allowed) = allowed

-- sg_subset_bfs
unfoldable pub search_subsets : Automaton → Bitset → Option (List ℕ) → ℕ → PlanResult → M PlanResult
unfolding subset_rounds subset_search_add letters_of
search_subsets a initial allowed budget result =
    if leb budget result.expansions
    then return (record result { outcome = resource_bound })
    else (do
      search ← subset_search_add (record { nodes = []; capacity = 0 }) initial index_none index_none
      next ← init a.state_count
      subset_rounds a (letters_of a allowed) (budget - result.expansions) search next 0 result)
