-- ===== src/Builder.antt =====
-- src/sync.c, sg_automaton_builder: keys and entries are collected by name, and `build` resolves
-- them into the tables of an automaton.
pub mod Resolve
pub mod Reasons
pub mod Build
use sync_kgraph.Base.{
  ℕ, ◌+◌, ◌*◌, Bool, true, false, not, ◌&&◌, ◌||◌, List, [], ◌∷◌, ◌++◌, ◌==◌, if◌then◌else◌, length,
  get_or, set, replicate, index_none, grow, size_bytes, M, ◌>>=◌, ◌>>◌, return, fail, guard,
  request, request_all, within_block, size_mod, leb, ◌%◌, alloc, invalid_argument, duplicate,
  not_found, incomplete, nondeterministic,
}
use sync_kgraph.Automaton.{Automaton, Key, find, cell, copy_keys}

-- sg_builder_entry
pub record Entry : Type 0 where
  pub source : Key
  pub action : Key
  pub value : Key

-- an array of the builder with its capacity; its count is the length
pub record Keys : Type 0 where
  pub items : List Key
  pub capacity : ℕ

pub record Entries : Type 0 where
  pub items : List Entry
  pub capacity : ℕ

pub record Builder : Type 0 where
  pub states : Keys
  pub actions : Keys
  pub outputs : Keys
  pub transitions : Entries
  pub observations : Entries

-- sg_automaton_builder_init: calloc of the whole struct
unfoldable pub builder_init : M Builder
builder_init = do
  request
  return (record {
    states = record { items = []; capacity = 0 };
    actions = record { items = []; capacity = 0 };
    outputs = record { items = []; capacity = 0 };
    transitions = record { items = []; capacity = 0 };
    observations = record { items = []; capacity = 0 };
  })

abbrev pub is_empty : Key → Bool
is_empty [] = true
is_empty (_ ∷ _) = false

-- sg_string_array_add
unfoldable pub string_array_add : Keys → Key → M Keys
unfolding find
string_array_add keys value = do
  guard (not (is_empty value)) invalid_argument
  guard (find keys.items value == index_none) duplicate
  capacity ← grow 8 8 (length keys.items) keys.capacity
  guard (not (length value == index_none)) alloc
  request
  return (record { items = keys.items ++ (value ∷ []); capacity = capacity })

unfoldable pub add_state : Builder → Key → M Builder
unfolding string_array_add
add_state b key = do keys ← string_array_add b.states key; return (record b { states = keys })

unfoldable pub add_action : Builder → Key → M Builder
unfolding string_array_add
add_action b key = do keys ← string_array_add b.actions key; return (record b { actions = keys })

unfoldable pub add_output : Builder → Key → M Builder
unfolding string_array_add
add_output b key = do keys ← string_array_add b.outputs key; return (record b { outputs = keys })

-- sg_builder_entry_add: all three copies are made before any is tested
unfoldable pub entry_add : Entries → Key → Key → Key → M Entries
entry_add entries source action value = do
  guard (not (is_empty source || is_empty action || is_empty value)) invalid_argument
  capacity ← grow 16 24 (length entries.items) entries.capacity
  request_all 3
  return (record {
    items = entries.items ++ (record { source = source; action = action; value = value } ∷ []);
    capacity = capacity;
  })

unfoldable pub add_transition : Builder → Key → Key → Key → M Builder
unfolding entry_add
add_transition b source action target = do
  entries ← entry_add b.transitions source action target
  return (record b { transitions = entries })

unfoldable pub add_observation : Builder → Key → Key → Key → M Builder
unfolding entry_add
add_observation b source action output = do
  entries ← entry_add b.observations source action output
  return (record b { observations = entries })

-- The loop of sg_resolve_entries over the entries left: the keys of states and of actions, the keys
-- that a value may name, and the table so far.
unfoldable pub resolve_entries : List Key → List Key → List Key → List Entry → List ℕ → M (List ℕ)
unfolding find
resolve_entries states actions values [] table = return table
resolve_entries states actions values (e ∷ es) table = do
  let source = find states e.source
  let action = find actions e.action
  let value = find values e.value
  guard (not (source == index_none || action == index_none || value == index_none)) not_found
  let index = cell (length actions) source action
  let held = get_or table index index_none
  guard (held == index_none || not (held == value)) duplicate
  guard (held == index_none) nondeterministic
  resolve_entries states actions values es (set table index value)

-- every cell of both tables is set
unfoldable pub complete : List ℕ → Bool
complete [] = true
complete (c ∷ cs) = not (c == index_none) && complete cs

-- The two tables of sg_automaton_allocate; both requests are made before either is tested. Each asks
-- for `cells * 8` bytes, a product that may wrap: then the block is too small for the loop that sets
-- all the cells.
unfoldable pub allocate : Builder → M (List ℕ)
allocate b = do
  request
  cells ← size_bytes (length b.states.items) (length b.actions.items)
  request_all 2
  within_block (leb (cells * 8) (cells * 8 % size_mod))
  return (replicate cells index_none)

-- sg_automaton_builder_build
unfoldable pub build : Builder → ℕ → M Automaton
unfolding allocate copy_keys resolve_entries complete
build b generation = do
  guard
      (not
        (length b.states.items == 0 || length b.actions.items == 0 || length b.outputs.items == 0))
      incomplete
  blank ← allocate b
  state_keys ← copy_keys b.states.items
  action_keys ← copy_keys b.actions.items
  output_keys ← copy_keys b.outputs.items
  transitions ←
      resolve_entries b.states.items b.actions.items b.states.items b.transitions.items blank
  observations ←
      resolve_entries b.states.items b.actions.items b.outputs.items b.observations.items blank
  guard (complete transitions && complete observations) incomplete
  return (record {
    generation = generation;
    state_count = length b.states.items;
    action_count = length b.actions.items;
    output_count = length b.outputs.items;
    state_keys = state_keys;
    action_keys = action_keys;
    output_keys = output_keys;
    transitions = transitions;
    observations = observations;
  })
