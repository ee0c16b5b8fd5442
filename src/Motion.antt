-- ===== src/Motion.antt =====
-- src/planner.c, the motion of a set of states: the image under an action, under an action with an
-- observed output, and under a word. `Image` proves what the images are.
pub mod Image
pub mod Apply
pub mod Traces
use sync_kgraph.Base.{
  ℕ, zero, suc, ◌+◌, Bool, true, false, not, ◌&&◌, List, [], ◌∷◌, ltb, ◌==◌, if◌then◌else◌, length,
  M, ◌>>=◌, ◌>>◌, return, guard, invalid_argument,
}
use sync_kgraph.Bitset.{Bitset, init, clear, add, has, copy, from_ids, to_ids}
use sync_kgraph.Automaton.{Automaton, transition, observation}
use sync_kgraph.Word.{Word}

-- the loop of sg_apply_action_set: `left` states are to be looked at, from `state` on
unfoldable pub action_loop : Automaton → Bitset → ℕ → ℕ → ℕ → Bitset → Bitset
action_loop a source action zero state destination = destination
action_loop a source action (suc left) state destination =
    action_loop a source action left (state + 1)
      (if has source state then add destination (transition a state action) else destination)

unfoldable pub apply_action_set : Automaton → Bitset → ℕ → Bitset → Bitset
unfolding action_loop
apply_action_set a source action destination =
    action_loop a source action a.state_count 0 (clear destination)

-- the loop of sg_apply_observed_action_set
unfoldable pub observed_loop : Automaton → Bitset → ℕ → ℕ → ℕ → ℕ → Bitset → Bitset
observed_loop a source action output zero state destination = destination
observed_loop a source action output (suc left) state destination =
    observed_loop a source action output left (state + 1) (
      if has source state && observation a state action == output
      then add destination (transition a state action)
      else destination)

unfoldable pub apply_observed_action_set : Automaton → Bitset → ℕ → ℕ → Bitset → Bitset
unfolding observed_loop
apply_observed_action_set a source action output destination =
    observed_loop a source action output a.state_count 0 (clear destination)

-- The loop of sg_apply_word_set over the actions left; `current` and `next` change places each round.
unfoldable pub word_loop : Automaton → List ℕ → Bitset → Bitset → M Bitset
word_loop a [] current next = return current
word_loop a (action ∷ rest) current next = do
  guard (ltb action a.action_count) invalid_argument
  word_loop a rest (apply_action_set a current action next) current

unfoldable pub apply_word_set : Automaton → Bitset → Word → M Bitset
unfolding word_loop
apply_word_set a source word = do
  current ← copy source
  next ← init a.state_count
  word_loop a word.actions current next

-- sg_apply_word: the states that the call writes to `output_states`
unfoldable pub apply_word : Automaton → List ℕ → Word → M (List ℕ)
unfolding apply_word_set
apply_word a initial_states word = do
  guard (not (length initial_states == 0)) invalid_argument
  initial ← from_ids a.state_count initial_states
  final ← apply_word_set a initial word
  return (to_ids final)
