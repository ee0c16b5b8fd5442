-- ===== src/Automaton.antt =====
-- src/sync.c and src/sync_internal.h, sg_automaton: a deterministic complete Mealy automaton as two
-- tables of `state_count * action_count` cells, its accessors, and the two calls that change or copy
-- one. A pointer argument is a value here, so the NULL tests have no counterpart.
pub mod Laws
use sync_kgraph.Base.{
  ℕ, zero, suc, ◌+◌, ◌*◌, ◌%◌, Bool, true, false, not, ◌&&◌, ◌||◌, List, [], ◌∷◌, Option, none,
  some, ltb, ◌==◌, if◌then◌else◌, length, get_or, set, index_none, size_mod, size_multiply,
  size_bytes, M, ◌>>=◌, ◌>>◌, return, guard, fail, request, request_all, alloc, invalid_argument,
  invalid_model, not_found,
}

-- a C string: its bytes up to the terminator
abbrev pub Key : Type 0
Key = List ℕ

pub record Automaton : Type 0 where
  pub generation : ℕ
  pub state_count : ℕ
  pub action_count : ℕ
  pub output_count : ℕ
  pub state_keys : List Key
  pub action_keys : List Key
  pub output_keys : List Key
  pub transitions : List ℕ
  pub observations : List ℕ

-- strcmp(a, b) == 0
unfoldable pub key_equal : Key → Key → Bool
key_equal [] [] = true
key_equal [] (_ ∷ _) = false
key_equal (_ ∷ _) [] = false
key_equal (a ∷ as') (b ∷ bs) = a == b && key_equal as' bs

-- the loop of sg_string_array_find, from `index` on
unfoldable pub find_from : List Key → Key → ℕ → ℕ
find_from [] value index = index_none
find_from (k ∷ ks) value index = if key_equal k value then index else find_from ks value (index + 1)

unfoldable pub find : List Key → Key → ℕ
unfolding find_from key_equal
find values value = find_from values value 0

-- the product does not overflow: see `Laws.cell_lt`
abbrev pub cell : ℕ → ℕ → ℕ → ℕ
cell action_count state action = state * action_count + action

unfoldable pub transition : Automaton → ℕ → ℕ → ℕ
transition a state action =
    if ltb state a.state_count && ltb action a.action_count
    then get_or a.transitions (cell a.action_count state action) index_none
    else index_none

unfoldable pub observation : Automaton → ℕ → ℕ → ℕ
observation a state action =
    if ltb state a.state_count && ltb action a.action_count
    then get_or a.observations (cell a.action_count state action) index_none
    else index_none

unfoldable pub transition_count : Automaton → ℕ
transition_count a = (a.state_count * a.action_count) % size_mod

-- NULL for an id out of range
unfoldable pub state_key : Automaton → ℕ → Option Key
state_key a state = if ltb state a.state_count then some (get_or a.state_keys state []) else none

unfoldable pub action_key : Automaton → ℕ → Option Key
action_key a action =
    if ltb action a.action_count then some (get_or a.action_keys action []) else none

unfoldable pub output_key : Automaton → ℕ → Option Key
output_key a output =
    if ltb output a.output_count then some (get_or a.output_keys output []) else none

-- sg_find_key
unfoldable pub find_key : List Key → Key → M ℕ
unfolding find
find_key keys key = do
  let found = find keys key
  guard (not (found == index_none)) not_found
  return found

unfoldable pub find_state : Automaton → Key → M ℕ
unfolding find_key
find_state a key = find_key a.state_keys key

unfoldable pub find_action : Automaton → Key → M ℕ
unfolding find_key
find_action a key = find_key a.action_keys key

unfoldable pub find_output : Automaton → Key → M ℕ
unfolding find_key
find_output a key = find_key a.output_keys key

-- sg_automaton_set_cell
unfoldable pub set_cell : Automaton → ℕ → ℕ → ℕ → ℕ → M Automaton
set_cell a state action target output = do
  guard
      (ltb state a.state_count
        && ltb action a.action_count
        && ltb target a.state_count
        && ltb output a.output_count)
      invalid_argument
  return (record a {
    transitions = set a.transitions (cell a.action_count state action) target;
    observations = set a.observations (cell a.action_count state action) output;
  })

-- the copies that sg_copy_keys makes of the strings; each may be refused
unfoldable pub copy_each : List Key → M (List Key)
copy_each [] = return []
copy_each (k ∷ ks) = do
  guard (not (length k == index_none)) alloc
  request
  rest ← copy_each ks
  return (k ∷ rest)

unfoldable pub copy_keys : List Key → M (List Key)
unfolding copy_each
copy_keys keys = do request; copy_each keys

-- sg_automaton_clone_generation. The tables of the source are blocks of `cells * 8` bytes, so the same
-- product does not wrap in the requests and the copies.
unfoldable pub clone_generation : Automaton → ℕ → M Automaton
unfolding copy_keys
clone_generation source generation = do
  guard (not (source.state_count == 0 || source.action_count == 0 || source.output_count == 0))
      invalid_model
  request
  state_keys ← copy_keys source.state_keys
  action_keys ← copy_keys source.action_keys
  output_keys ← copy_keys source.output_keys
  cells ← size_bytes source.state_count source.action_count
  guard (not (cells == 0)) invalid_model
  request_all 2
  return (record {
    generation = generation;
    state_count = source.state_count;
    action_count = source.action_count;
    output_count = source.output_count;
    state_keys = state_keys;
    action_keys = action_keys;
    output_keys = output_keys;
    transitions = source.transitions;
    observations = source.observations;
  })
