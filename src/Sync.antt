-- ===== src/Sync.antt =====
-- src/planner.c, sg_plan_sync_with_source: greedy merging of pairs along the witnesses that a record
-- source gives, and the exact search when that comes to a dead end.
pub mod Load
pub mod Sound
pub mod Merge
pub mod Decides
pub mod Calls
use sync_kgraph.Base.{
  ℕ, zero, suc, ◌+◌, ◌-◌, ◌*◌, ◌/◌, Bool, true, false, not, ◌&&◌, ◌||◌, List, [], ◌∷◌, ◌++◌, Option,
  none, some, ltb, leb, ◌==◌, if◌then◌else◌, length, get_or, index_none, size_bytes, M, Memory,
  Result, ok, err, diverge, ◌>>=◌, ◌>>◌, return, guard, fail, request_all, alloc, invalid_argument,
  invalid_model,
}
use sync_kgraph.Bitset.{Bitset, has, count, copy, from_ids, to_ids}
use sync_kgraph.Automaton.{Automaton, transition, observation}
use sync_kgraph.Word.{Word, empty_word, append, extend}
use sync_kgraph.Motion.{apply_word_set}
use sync_kgraph.Partition.{fill_plan_metrics}
use sync_kgraph.Plan.{
  Outcome, PlanResult, plan, no_plan, resource_bound, already_satisfied, no_method, pair_merge,
  result_init,
}
use sync_kgraph.Search.{search_subsets}

-- sg_pair_record
pub record PairRecord : Type 0 where
  pub pair : ℕ
  pub mergeable : Bool
  pub merge_distance : ℕ
  pub merge_action : ℕ
  pub merge_next_pair : ℕ
  pub merge_support_count : ℕ
  pub resolvable : Bool
  pub resolution_distance : ℕ
  pub resolution_action : ℕ
  pub resolution_next_pair : ℕ
  pub resolution_support_count : ℕ

-- sg_pair_record_source: its `read` with the context applied. The records stand for the array that
-- the call fills, one for each pair asked for.
abbrev pub Reader : Type 0
Reader = List ℕ → M (List PairRecord)

-- sg_witness_kind
pub data Kind : Type 0 where
  merge : Kind
  resolution : Kind

-- one candidate of sg_pair_words_load: its cells of the arrays
pub record Candidate : Type 0 where
  pub first : ℕ
  pub second : ℕ
  pub expected_distance : ℕ
  pub word : Word
  pub available : Bool
  pub active : Bool

-- the members of a record that the kind selects
pub record Witness : Type 0 where
  pub reachable : Bool
  pub distance : ℕ
  pub action : ℕ
  pub next : ℕ
  pub supports : ℕ

unfoldable pub select : Kind → PairRecord → Witness
select merge r = record {
  reachable = r.mergeable;
  distance = r.merge_distance;
  action = r.merge_action;
  next = r.merge_next_pair;
  supports = r.merge_support_count;
}
select resolution r = record {
  reachable = r.resolvable;
  distance = r.resolution_distance;
  action = r.resolution_action;
  next = r.resolution_next_pair;
  supports = r.resolution_support_count;
}

abbrev pub is_resolution : Kind → Bool
is_resolution merge = false
is_resolution resolution = true

-- sg_pair_index, for states below `state_count` whose pairs sg_planner_pair_count can number: neither
-- product wraps then, and the subtraction does not go below 0
unfoldable pub pair_index : ℕ → ℕ → ℕ → ℕ
pair_index state_count first second =
    let low = if ltb second first then second else first in
    let high = if ltb second first then first else second in
    low * state_count - low * (low + 1) / 2 + high

-- sg_planner_pair_count, and the status of its caller
unfoldable pub planner_pair_count : ℕ → M ℕ
planner_pair_count state_count = do
  guard (not (state_count == index_none)) alloc
  product ← size_bytes state_count (state_count + 1)
  return (product / 2)

-- a reachable record with distance 0: the witness ends here
unfoldable pub end_witness : Witness → Candidate → M Candidate
end_witness w c = do
  guard (w.action == index_none && w.next == index_none && w.supports == 0) invalid_model
  return (record c { active = false })

-- a record that is not reachable: there is no witness
unfoldable pub no_witness : Witness → Candidate → M Candidate
no_witness w c = do
  guard
      (length c.word.actions == 0
        && w.distance == index_none
        && w.action == index_none
        && w.next == index_none
        && w.supports == 0)
      invalid_model
  return (record c { available = false; active = false })

-- one step more of the witness
unfoldable pub follow_witness : Automaton → Kind → Witness → Candidate → M Candidate
follow_witness a kind w c = do
  guard (ltb w.action a.action_count && not (w.supports == 0)) invalid_model
  word ← append c.word w.action
  let first_next = transition a c.first w.action
  let second_next = transition a c.second w.action
  let outputs_differ = not (observation a c.first w.action == observation a c.second w.action)
  if is_resolution kind && w.next == index_none
      then (do
        guard (w.distance == 1 && outputs_differ) invalid_model
        return (record c { word = word; active = false }))
      else (do
        guard
            (w.next == pair_index a.state_count first_next second_next
              && not (is_resolution kind && outputs_differ))
            invalid_model
        return (record c {
          word = word;
          first = first_next;
          second = second_next;
          expected_distance = w.distance - 1;
        }))

-- The body of the loop over requests in sg_pair_words_load.
unfoldable pub serve_one : Automaton → Kind → PairRecord → Candidate → M Candidate
unfolding select end_witness no_witness follow_witness
serve_one a kind r c = do
  let w = select kind r
  guard (r.pair == pair_index a.state_count c.first c.second) invalid_model
  if not w.reachable then no_witness w c else (do
    guard
        ((c.expected_distance == index_none || w.distance == c.expected_distance)
          && not (w.distance == 0 && not (c.first == c.second)))
        invalid_model
    if w.distance == 0 then end_witness w c else follow_witness a kind w c)

-- a cell of the array of records that no call has written
abbrev pub zero_record : PairRecord
zero_record = record {
  pair = 0;
  mergeable = false;
  merge_distance = 0;
  merge_action = 0;
  merge_next_pair = 0;
  merge_support_count = 0;
  resolvable = false;
  resolution_distance = 0;
  resolution_action = 0;
  resolution_next_pair = 0;
  resolution_support_count = 0;
}

-- The loop over requests: `request` counts the active candidates passed.
unfoldable pub serve : Automaton → Kind → List PairRecord → ℕ → List Candidate → M (List Candidate)
unfolding serve_one
serve a kind records request [] = return []
serve a kind records request (c ∷ cs) =
    if c.active
    then (do
      c' ← serve_one a kind (get_or records request zero_record) c
      rest ← serve a kind records (request + 1) cs
      return (c' ∷ rest))
    else (do rest ← serve a kind records request cs; return (c ∷ rest))

-- the pairs that are asked for
unfoldable pub asked : ℕ → List Candidate → List ℕ
asked n [] = []
asked n (c ∷ cs) = if c.active then pair_index n c.first c.second ∷ asked n cs else asked n cs

unfoldable pub any_active : List Candidate → Bool
any_active [] = false
any_active (c ∷ cs) = c.active || any_active cs

-- one request for the active candidates
unfoldable pub load_round : Automaton → Reader → Kind → List Candidate → M (List Candidate)
unfolding serve asked
load_round a read kind cs = do records ← read (asked a.state_count cs); serve a kind records 0 cs

-- The test at the end of the last round: active candidates that are left turn its status, an earlier
-- error too, into INVALID_MODEL. A round with an error has left at least one active.
unfoldable pub last_status : {A : Type 0} → (A → Bool) → Result A × Memory → Result A × Memory
last_status left_active (ok x, h) = if left_active x then (err invalid_model, h) else (ok x, h)
last_status left_active (err e, h) = (err invalid_model, h)
last_status left_active (diverge, h) = (diverge, h)

-- The loop over depths: `left` is the number of pairs less the depth, and one.
unfoldable pub load_rounds : Automaton → Reader → Kind → ℕ → List Candidate → M (List Candidate)
unfolding load_round any_active last_status
load_rounds a read kind zero cs = return cs
load_rounds a read kind (suc zero) cs =
    if any_active cs then (λ h. last_status any_active (load_round a read kind cs h)) else return cs
load_rounds a read kind (suc (suc left)) cs =
    if any_active cs
    then (do served ← load_round a read kind cs; load_rounds a read kind (suc left) served)
    else return cs

unfoldable pub candidates : List (ℕ × ℕ) → List Candidate
candidates [] = []
candidates ((first, second) ∷ pairs) =
    record {
      first = first;
      second = second;
      expected_distance = index_none;
      word = empty_word;
      available = true;
      active = true;
    }
    ∷ candidates pairs

-- sg_pair_words_load
unfoldable pub pair_words_load : Automaton → Reader → List (ℕ × ℕ) → Kind → M (List Candidate)
unfolding planner_pair_count candidates load_rounds
pair_words_load a read pairs kind = do
  pair_count ← planner_pair_count a.state_count
  request_all 7
  load_rounds a read kind (pair_count + 1) (candidates pairs)

-- the pairs of two states of the set, the smaller one first
unfoldable pub pairs_with : Bitset → ℕ → ℕ → ℕ → List (ℕ × ℕ)
pairs_with s first zero second = []
pairs_with s first (suc left) second =
    if has s second
    then (first, second) ∷ pairs_with s first left (second + 1)
    else pairs_with s first left (second + 1)

unfoldable pub pairs_from : Bitset → ℕ → ℕ → List (ℕ × ℕ)
unfolding pairs_with
pairs_from s zero first = []
pairs_from s (suc left) first =
    if has s first
    then pairs_with s first left (first + 1) ++ pairs_from s left (first + 1)
    else pairs_from s left (first + 1)

-- the best candidate so far
pub record Best : Type 0 where
  pub word : Word
  pub support : Bitset
  pub count : ℕ
  pub pair : ℕ

-- sg_sync_candidate_better
unfoldable pub candidate_better : ℕ → ℕ → ℕ → ℕ → ℕ → ℕ → Bool
candidate_better size len pair best_count best_length best_pair =
    ltb size best_count
    || (size == best_count && (ltb len best_length || (len == best_length && ltb pair best_pair)))

-- against the best so far, or against none: SG_INDEX_NONE in each of the three
unfoldable pub beats : ℕ → ℕ → ℕ → Option Best → Bool
unfolding candidate_better
beats size len pair none = candidate_better size len pair index_none index_none index_none
beats size len pair (some b) = candidate_better size len pair b.count (length b.word.actions) b.pair

-- The loop over candidates of sg_best_merge. `pairs` are the pairs that the candidates began with.
unfoldable pub choose :
    Automaton → Bitset → List (ℕ × ℕ) → List Candidate → Option Best → M (Option Best)
unfolding beats
choose a active [] cs best = return best
choose a active (_ ∷ _) [] best = return best
choose a active ((first, second) ∷ pairs) (c ∷ cs) best =
    if c.available
    then (do
      support ← apply_word_set a active c.word
      let pair = pair_index a.state_count first second
      choose a active pairs cs (
          if beats (count support) (length c.word.actions) pair best
          then some
              (record { word = c.word; support = support; count = count support; pair = pair })
          else best))
    else choose a active pairs cs best

-- sg_best_merge
unfoldable pub best_merge : Automaton → Reader → Bitset → M (Option Best)
unfolding pair_words_load pairs_from choose
best_merge a read active = if ltb (count active) 2 then return none else (do
  product ← size_bytes (count active) (count active - 1)
  request_all 4
  cs ← pair_words_load a read (pairs_from active a.state_count 0) merge
  choose a active (pairs_from active a.state_count 0) cs none)

-- sg_sync_finalize
unfoldable pub sync_finalize : Automaton → Bitset → PlanResult → M PlanResult
sync_finalize a initial result = do
  final ← apply_word_set a initial result.word
  guard (count final == 1) invalid_model
  fill_plan_metrics a initial
      (record result { final_support_size = count final; final_state = get_or (to_ids final) 0 0 })

-- what the `while` loop leaves
pub record Merged : Type 0 where
  pub active : Bitset
  pub result : PlanResult

-- no witness ends the loop
unfoldable pub advance :
    Option Best → Bitset → PlanResult → (Bitset → PlanResult → M Merged) → M Merged
advance none active result go_on = return (record { active = active; result = result })
advance (some b) active result go_on = do
  word ← extend result.word b.word
  go_on b.support (record result { word = word; expansions = result.expansions + 1 })

-- The `while` loop: `left` is the budget less the expansions, and each round takes one.
unfoldable pub merge_rounds : Automaton → Reader → ℕ → Bitset → PlanResult → M Merged
unfolding best_merge advance
merge_rounds a read zero active result = return (record {
  active = active;
  result = if ltb 1 (count active) then record result { outcome = resource_bound } else result;
})
merge_rounds a read (suc left) active result =
    if ltb 1 (count active)
    then (do
      found ← best_merge a read active
      advance found active result (merge_rounds a read left))
    else return (record { active = active; result = result })

-- sg_sync_discard_plan
unfoldable pub sync_discard_plan : PlanResult → PlanResult
sync_discard_plan result = record result {
  word = empty_word;
  method = no_method;
  final_state = index_none;
  final_support_size = 0;
  best_support_size = 0;
  worst_support_size = 0;
  branch_count = 0;
  homing = false;
}

abbrev pub is_plan : Outcome → Bool
is_plan plan = true
is_plan already_satisfied = false
is_plan no_plan = false
is_plan resource_bound = false

-- behind the `while` loop
unfoldable pub sync_conclude : Automaton → Bitset → ℕ → Merged → M PlanResult
unfolding sync_finalize sync_discard_plan
sync_conclude a initial budget m = do
  result ←
      (if count m.active == 1
        then return (record m.result { outcome = plan; method = pair_merge })
        else search_subsets a initial none budget (sync_discard_plan m.result))
  if is_plan result.outcome then sync_finalize a initial result else return result

-- sg_plan_sync_with_source, which sg_plan_sync_from_records only calls
unfoldable pub plan_sync_with_source : Automaton → Reader → List ℕ → ℕ → M PlanResult
unfolding merge_rounds sync_conclude sync_finalize
plan_sync_with_source a read initial_states budget = do
  guard (not (length initial_states == 0 || budget == 0)) invalid_argument
  initial ← from_ids a.state_count initial_states
  active ← copy initial
  if count active == 1
      then sync_finalize a initial (record (result_init a) { outcome = already_satisfied })
      else (do
        m ← merge_rounds a read budget active (result_init a)
        sync_conclude a initial budget m)
