-- ===== src/Monitor.antt =====
-- src/planner.c, the monitors: sg_validate_update compares the localizer's report with the states
-- that the completed steps lead to; sg_validate_observed_update also conditions on the outputs seen.
pub mod Judge
pub mod Arrays
pub mod Motion
pub mod Outputs
pub mod Replay
pub mod Observed
use sync_kgraph.Base.{
  ℕ, zero, suc, ◌+◌, Bool, true, false, not, ◌&&◌, ◌||◌, List, [], ◌∷◌, Option, none, some, ltb,
  leb, ◌==◌, if◌then◌else◌, length, take, index_none, M, ◌>>=◌, ◌>>◌, return, guard, fail, request,
  invalid_argument, invalid_model,
}
use sync_kgraph.Bitset.{Bitset, init, add, has, count, equal, subset, from_ids, to_ids}
use sync_kgraph.Automaton.{Automaton, observation}
use sync_kgraph.Word.{Word}
use sync_kgraph.Motion.{word_loop, apply_observed_action_set}

-- sg_monitor_decision
pub data Decision : Type 0 where
  continue : Decision
  replan : Decision
  model_violation : Decision
  stale_generation : Decision
  wait : Decision

-- sg_monitor_result
pub record MonitorResult : Type 0 where
  pub decision : Decision
  pub expected_states : List ℕ
  pub expected_count : ℕ
  pub unexpected_states : List ℕ
  pub unexpected_count : ℕ
  pub generation : ℕ

-- the initial value of `*result`
abbrev pub waiting : ℕ → MonitorResult
waiting generation = record {
  decision = wait;
  expected_states = [];
  expected_count = 0;
  unexpected_states = [];
  unexpected_count = 0;
  generation = generation;
}

-- the comparison that both monitors make of the report with the expected set
unfoldable pub judge : Bitset → Bitset → Decision
judge reported expected =
    if equal reported expected
    then continue
    else if subset reported expected
    then replan
    else model_violation

-- the loop of sg_monitor_fill_arrays: the states reported and not expected
unfoldable pub unexpected_loop : Bitset → Bitset → ℕ → ℕ → Bitset → Bitset
unexpected_loop expected reported zero state s = s
unexpected_loop expected reported (suc left) state s =
    unexpected_loop expected reported left (state + 1)
      (if has reported state && not (has expected state) then add s state else s)

-- the ids of a set in a fresh array; an empty set takes no array
unfoldable pub listed : Bitset → M (List ℕ)
listed s = if count s == 0 then return [] else (do request; return (to_ids s))

-- sg_monitor_fill_arrays
unfoldable pub fill_arrays : Bitset → Bitset → MonitorResult → M MonitorResult
unfolding unexpected_loop listed
fill_arrays expected reported result = do
  expected_states ← listed expected
  blank ← init expected.state_count
  let unexpected = unexpected_loop expected reported expected.state_count 0 blank
  unexpected_states ← listed unexpected
  return (record result {
    expected_states = expected_states;
    expected_count = count expected;
    unexpected_states = unexpected_states;
    unexpected_count = count unexpected;
  })

-- the part of sg_validate_update behind the replay, with no localizer
unfoldable pub report_expected : Automaton → Bitset → M MonitorResult
report_expected a expected = do
  guard (not (count expected == 0)) invalid_model
  request
  return (record (waiting a.generation) {
    expected_states = to_ids expected;
    expected_count = count expected;
  })

-- and with the localizer's report
unfoldable pub compare_report : Automaton → Bitset → List ℕ → M MonitorResult
unfolding fill_arrays judge
compare_report a expected reported_states = do
  reported ← from_ids a.state_count reported_states
  result ← fill_arrays expected reported (waiting a.generation)
  return (record result { decision = judge reported expected })

-- sg_validate_update, for the plan's generation
unfoldable pub validate_current : Automaton → List ℕ → Word → ℕ → List ℕ → Bool → M MonitorResult
unfolding report_expected compare_report
validate_current a initial_states word completed_steps reported_states localizer_available = do
  initial ← from_ids a.state_count initial_states
  next ← init a.state_count
  expected ← word_loop a (take completed_steps word.actions) initial next
  if localizer_available
      then compare_report a expected reported_states
      else report_expected a expected

unfoldable pub validate_update : Automaton → ℕ → List ℕ → Word → ℕ → List ℕ → Bool → M MonitorResult
unfolding validate_current
validate_update a plan_generation initial_states word completed_steps reported_states
      localizer_available =
    do
      guard
          (not (
            length initial_states == 0
            || ltb (length word.actions) completed_steps
            || (localizer_available && length reported_states == 0)))
          invalid_argument
      if plan_generation == a.generation
          then validate_current a initial_states word completed_steps reported_states
              localizer_available
          else return (record (waiting a.generation) { decision = stale_generation })

-- sg_observed_monitor_result
pub record ObservedResult : Type 0 where
  pub monitor : MonitorResult
  pub observation_compatible : Bool
  pub failed_observation_step : ℕ
  pub observed_output : ℕ
  pub expected_outputs : List ℕ
  pub expected_output_count : ℕ

-- the loop of sg_monitor_expected_outputs
unfoldable pub outputs_loop : Automaton → Bitset → ℕ → ℕ → ℕ → Bitset → Bitset
outputs_loop a source action zero state outputs = outputs
outputs_loop a source action (suc left) state outputs =
    outputs_loop a source action left (state + 1)
      (if has source state then add outputs (observation a state action) else outputs)

-- sg_monitor_expected_outputs: the outputs that the set may show under the action
unfoldable pub expected_outputs : Automaton → Bitset → ℕ → M (List ℕ)
unfolding outputs_loop
expected_outputs a source action = do
  blank ← init a.output_count
  let outputs = outputs_loop a source action a.state_count 0 blank
  request
  return (to_ids outputs)

-- the first output that no expected state shows: its step from 1, the output, the possible outputs
pub record Failure : Type 0 where
  pub step : ℕ
  pub output : ℕ
  pub possible : List ℕ

-- what the replay leaves
pub record Replayed : Type 0 where
  pub expected : Bitset
  pub failure : Option Failure

-- The replay loop of sg_validate_observed_update over the actions and outputs left. The callers give
-- lists of one length.
unfoldable pub replay : Automaton → List ℕ → List ℕ → ℕ → Bitset → Bitset → M Replayed
unfolding expected_outputs
replay a [] outputs index expected next = return (record { expected = expected; failure = none })
replay a (action ∷ actions) [] index expected next =
    return (record { expected = expected; failure = none })
replay a (action ∷ actions) (output ∷ outputs) index expected next =
    let image = apply_observed_action_set a expected action output next in
    let rest = replay a actions outputs (index + 1) image expected in
    if count image == 0
    then (do
      possible ← expected_outputs a expected action
      return (record {
        expected = image;
        failure = some (record { step = index + 1; output = output; possible = possible });
      }))
    else rest

-- every consumed action and output is an id
unfoldable pub prefix_valid : Automaton → List ℕ → List ℕ → Bool
prefix_valid a [] outputs = true
prefix_valid a (action ∷ actions) [] = true
prefix_valid a (action ∷ actions) (output ∷ outputs) =
    ltb action a.action_count && ltb output a.output_count && prefix_valid a actions outputs

-- the report as a set: empty without a localizer or with an empty report
unfoldable pub reported_set : Automaton → List ℕ → Bool → M Bitset
reported_set a reported_states localizer_available =
    if localizer_available && not (length reported_states == 0)
    then from_ids a.state_count reported_states
    else init a.state_count

-- the result from what the replay left and the filled arrays
unfoldable pub conclude : Replayed → Bitset → Bool → MonitorResult → ObservedResult
conclude replayed reported localizer_available filled = elim replayed.failure [
  | some failed ↦ record {
    monitor = record filled { decision = model_violation };
    observation_compatible = false;
    failed_observation_step = failed.step;
    observed_output = failed.output;
    expected_outputs = failed.possible;
    expected_output_count = length failed.possible;
  }
  | none ↦ record {
    monitor = record filled {
      decision = if localizer_available then judge reported replayed.expected else wait;
    };
    observation_compatible = true;
    failed_observation_step = index_none;
    observed_output = index_none;
    expected_outputs = [];
    expected_output_count = 0;
  }
]

unfoldable pub validate_observed_current :
    Automaton → List ℕ → Word → ℕ → List ℕ → List ℕ → Bool → M ObservedResult
unfolding replay prefix_valid reported_set fill_arrays conclude
validate_observed_current a initial_states word completed_steps observed_outputs reported_states
      localizer_available =
    do
      let actions = take completed_steps word.actions
      guard (prefix_valid a actions observed_outputs) invalid_argument
      initial ← from_ids a.state_count initial_states
      next ← init a.state_count
      reported ← reported_set a reported_states localizer_available
      replayed ← replay a actions observed_outputs 0 initial next
      filled ← fill_arrays replayed.expected reported (waiting a.generation)
      return (conclude replayed reported localizer_available filled)

-- sg_validate_observed_update
unfoldable pub validate_observed_update :
    Automaton → ℕ → List ℕ → Word → ℕ → List ℕ → List ℕ → Bool → M ObservedResult
unfolding validate_observed_current
validate_observed_update a plan_generation initial_states word completed_steps observed_outputs
      reported_states localizer_available =
    do
      guard
          (not (
            length initial_states == 0
            || ltb (length word.actions) completed_steps
            || not (length observed_outputs == completed_steps)))
          invalid_argument
      if plan_generation == a.generation
          then validate_observed_current a initial_states word completed_steps observed_outputs
              reported_states localizer_available
          else return (record {
            monitor = record (waiting a.generation) { decision = stale_generation };
            observation_compatible = false;
            failed_observation_step = index_none;
            observed_output = index_none;
            expected_outputs = [];
            expected_output_count = 0;
          })
