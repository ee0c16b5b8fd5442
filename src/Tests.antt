-- ===== src/Tests.antt =====
-- Runs of the model at a small automaton, and the theorems at concrete inputs.
mod Allowed
mod Snapshots
mod Oracles
use sync_kgraph.Base.{
  ℕ, zero, suc, if◌then◌else◌, map, return, Ensures-return, subst, ◌⊎◌, inl, inr, index_none,
  duplicate, nondeterministic, ◌+◌, ◌*◌, ◌≤◌, ◌<◌, ◌≡◌, refl, ◌↔◌, ◌≢◌, true, false, List, [], ◌∷◌,
  ◌++◌, reverse, none, arith, Ensures, Never, alloc, invalid_argument, size_mod, length, ◌==◌, ◌||◌,
  All,
}
use sync_kgraph.Bitset.{
  word_count, Bitset, has, count, from_ids, empty, add, equal, subset, popcount,
}
use sync_kgraph.Bitset.Bits.{ones, popcount-eq-ones}
use sync_kgraph.Bitset.Card.{card}
use sync_kgraph.Bitset.Laws.{IsBitset, empty-IsBitset, add-IsBitset, has-add}
use sync_kgraph.Bitset.Members.{
  Subset, subset_iff, equal-has, count-eq-card, contains, Ensures-from_ids, InRange,
}
use sync_kgraph.Automaton.{Automaton, find, set_cell, clone_generation}
use sync_kgraph.Automaton.Laws.{IsValid, Written, set_cell_writes, clone_generation_copies}
use sync_kgraph.Word.{Word, append, extend, reverse_actions, Fits, Ensures-append, Ensures-extend}
use sync_kgraph.Word.Reverse.{reverse_actions-eq-reverse}
use sync_kgraph.Builder.{Builder, build, resolve_entries}
use sync_kgraph.Builder.Build.{BuildError, Declares, build-Declares}
use sync_kgraph.Motion.{apply_word, apply_observed_action_set}
use sync_kgraph.Motion.Image.{run, MovesShowing, apply_observed_action_set_iff}
use sync_kgraph.Motion.Apply.{Acceptable, Rejects, apply_word_image}
use sync_kgraph.Monitor.{stale_generation, validate_update}
use sync_kgraph.Monitor.Motion.{Monitored, Reached, Consumable, validate_update_decides}
use sync_kgraph.Builder.Resolve.{Known, Resolved, resolve_entries_resolves}
use sync_kgraph.Monitor.{validate_observed_update}
use sync_kgraph.Monitor.Observed.{ObservedReport, Observable, validate_observed_update_decides}
use sync_kgraph.Goal.{plan_goal}
use sync_kgraph.Goal.Decides.{GoalAnswer, GoalError, plan_goal_decides}
use sync_kgraph.Partition.{Branch, no_branches, apply_branches, fill_plan_metrics}
use sync_kgraph.Partition.Branches.{
  BranchOk, Branches, HasTrace, Onward, total, Ensures-apply_branches,
}
use sync_kgraph.Partition.Homing.{From, Homing, Kept, fill_plan_metrics_decides}
use sync_kgraph.Plan.{PlanResult, result_init}
use sync_kgraph.Search.{search_subsets, letters_of}
use sync_kgraph.Search.Words.{Synchronized, search_subsets_synchronizes}
use sync_kgraph.Sync.{Reader, PairRecord, plan_sync_with_source}
use sync_kgraph.Sync.Decides.{SyncAnswers}
use sync_kgraph.Sync.Calls.{SyncArguments, SyncError, plan_sync_decides, plan_sync_trusts}
use sync_kgraph.Sync.Sound.{SoundTable}
use sync_kgraph.Sync.{pair_index}
use sync_kgraph.Automaton.{transition}

-- Action 0 leads both states to 1, action 1 changes them; the outputs of action 1 differ.
abbrev pub sample : Automaton
sample = record {
  generation = 7;
  state_count = 2;
  action_count = 2;
  output_count = 2;
  state_keys = (65 ∷ []) ∷ (66 ∷ []) ∷ [];
  action_keys = (97 ∷ []) ∷ (98 ∷ []) ∷ [];
  output_keys = (120 ∷ []) ∷ (121 ∷ []) ∷ [];
  transitions = 1 ∷ 1 ∷ 1 ∷ 0 ∷ [];
  observations = 0 ∷ 0 ∷ 0 ∷ 1 ∷ [];
}

pub sample-IsValid : IsValid sample
sample-IsValid = omega arith

abbrev word : Word
word = record { actions = 0 ∷ 1 ∷ []; capacity = 2 }

-- both states
abbrev both : Bitset
both = record { words = 3 ∷ []; state_count = 2 }

abbrev only : Bitset
only = record { words = 1 ∷ []; state_count = 2 }

only_added : add (empty 2) 0 ≡ only
unfolding add empty word_count
only_added = refl

both_added : add only 1 ≡ both
unfolding add
both_added = refl

only-IsBitset : IsBitset 2 only
only-IsBitset =
    rw (← only_added) (add-IsBitset 2 (empty 2) 0 (empty-IsBitset 2 (omega arith)) (omega arith))

both-IsBitset : IsBitset 2 both
both-IsBitset = rw (← both_added) (add-IsBitset 2 only 1 only-IsBitset (omega arith))

-- the builder's entries for `sample`
abbrev a_key : List ℕ
a_key = 65 ∷ []

abbrev declared : Builder
declared = record {
  states = record { items = (65 ∷ []) ∷ (66 ∷ []) ∷ []; capacity = 8 };
  actions = record { items = (97 ∷ []) ∷ []; capacity = 8 };
  outputs = record { items = (120 ∷ []) ∷ []; capacity = 8 };
  transitions = record {
    items =
        record { source = 65 ∷ []; action = 97 ∷ []; value = 66 ∷ [] }
        ∷ record { source = 66 ∷ []; action = 97 ∷ []; value = 66 ∷ [] }
        ∷ [];
    capacity = 16;
  };
  observations = record {
    items =
        record { source = 65 ∷ []; action = 97 ∷ []; value = 120 ∷ [] }
        ∷ record { source = 66 ∷ []; action = 97 ∷ []; value = 120 ∷ [] }
        ∷ [];
    capacity = 16;
  };
}

both-has : has both 0 ≡ true
unfolding has
both-has = refl

both_many : (count both == 1) ≡ false
unfolding count
both_many = refl

search_example :
    Ensures
      (search_subsets sample both none 10 (result_init sample))
      (λ r. Synchronized sample both (letters_of sample none) 10 r r.outcome × (r.expansions ≤ 10))
      (λ e. (e ≡ alloc) × (size_mod ≤ 80 * (1 + 10 * length (letters_of sample none))))
search_example =
    search_subsets_synchronizes sample both none 10 (result_init sample) sample-IsValid
      both-IsBitset tt 0 both-has both_many refl (omega arith)

update_example :
    Ensures
      (validate_update sample sample.generation (0 ∷ 1 ∷ []) word 1 (0 ∷ []) true)
      (λ r.
        (r.generation ≡ sample.generation)
        × (sample.generation ≢ sample.generation → r.decision ≡ stale_generation)
        × (sample.generation ≡ sample.generation
            → Monitored (Reached sample (0 ∷ 1 ∷ []) (0 ∷ [])) (0 ∷ []) true r))
      (Rejects (Consumable sample (0 ∷ 1 ∷ []) (0 ∷ 1 ∷ []) 1 (0 ∷ []) true))
update_example =
    validate_update_decides sample (0 ∷ 1 ∷ []) word 1 (0 ∷ []) true sample-IsValid
      sample.generation

apply_word_example :
    Ensures
      (apply_word sample (0 ∷ 1 ∷ []) word)
      (λ out.
        Acceptable sample (0 ∷ 1 ∷ []) (0 ∷ 1 ∷ [])
        × ((r : ℕ)
            → (contains out r ≡ true)
              ↔ ((q : ℕ) × (contains (0 ∷ 1 ∷ []) q ≡ true) × (run sample q (0 ∷ 1 ∷ []) ≡ r))))
      (Rejects (Acceptable sample (0 ∷ 1 ∷ []) (0 ∷ 1 ∷ [])))
apply_word_example = apply_word_image sample (0 ∷ 1 ∷ []) word sample-IsValid

build_example :
    Ensures
      (build declared 7)
      (λ a.
        IsValid a
        × (a.generation ≡ 7)
        × (a.state_keys ≡ declared.states.items)
        × (a.action_keys ≡ declared.actions.items)
        × (a.output_keys ≡ declared.outputs.items)
        × Declares declared a)
      (BuildError declared)
build_example = build-Declares declared 7 (omega arith) (omega arith) (inr (omega arith))

All-Known :
    All
      (Known declared.states.items declared.actions.items declared.states.items)
      declared.transitions.items
unfolding find
All-Known = (
  ((λ e. absurd (omega arith)), (λ e. absurd (omega arith)), (λ e. absurd (omega arith))),
  (((λ e. absurd (omega arith)), (λ e. absurd (omega arith)), (λ e. absurd (omega arith))), tt),
)

set_cell_example :
    Ensures
      (set_cell sample 0 0 0 1)
      (Written sample sample-IsValid 0 0 0 1)
      (λ e. (e ≡ invalid_argument) × ¬ ((0 < 2) × (0 < 2) × (0 < 2) × (1 < 2)))
set_cell_example = set_cell_writes sample sample-IsValid 0 0 0 1

clone_example :
    Ensures
      (clone_generation sample 8)
      (λ b. (b ≡ record sample { generation = 8 }) × IsValid b)
      Never
clone_example =
    clone_generation_copies sample 8 sample-IsValid
      (λ e. absurd (omega arith), (λ e. absurd (omega arith), tt))
      (λ e. absurd (omega arith), (λ e. absurd (omega arith), tt))
      (λ e. absurd (omega arith), (λ e. absurd (omega arith), tt))

subset_example : (subset only both ≡ true) ↔ Subset only both
subset_example = subset_iff 2 only both only-IsBitset both-IsBitset

count_example : count both ≡ card (has both) 0 2
count_example = count-eq-card 2 both both-IsBitset

from_ids_example :
    Ensures
      (from_ids 2 (1 ∷ 0 ∷ []))
      (λ t.
        IsBitset 2 t
        × (◌≢◌ {A = List ℕ} (1 ∷ 0 ∷ []) [])
        × InRange 2 (1 ∷ 0 ∷ [])
        × ((q : ℕ) → has t q ≡ contains (1 ∷ 0 ∷ []) q))
      Never
from_ids_example =
    Ensures-from_ids 2 Never (1 ∷ 0 ∷ []) (omega arith) (omega arith) (λ e. cc)
      (λ no. no (omega arith, (omega arith, tt)))

add_example : has (add only 1) 1 ≡ (1 == 1 || has only 1)
add_example = has-add 2 only 1 1 only-IsBitset (omega arith)

equal_example : (equal only both ≡ true) ↔ ((q : ℕ) → has only q ≡ has both q)
equal_example = equal-has 2 only both only-IsBitset both-IsBitset

popcount_example : popcount 11 ≡ ones 64 11
popcount_example = popcount-eq-ones 11 (omega arith)

reverse_example : reverse_actions word ≡ record word { actions = reverse (0 ∷ 1 ∷ []) }
reverse_example = reverse_actions-eq-reverse word

append_example :
    Ensures (append word 1) (λ t. (t.actions ≡ (0 ∷ 1 ∷ []) ++ (1 ∷ [])) × Fits t) Never
append_example = Ensures-append word 1 (λ large. omega arith) (omega arith, omega arith)

extend_example :
    Ensures (extend word word) (λ t. (t.actions ≡ (0 ∷ 1 ∷ []) ++ (0 ∷ 1 ∷ [])) × Fits t) Never
extend_example = Ensures-extend word word (λ large. omega arith) (omega arith, omega arith)

observed_image_example :
    (has (apply_observed_action_set sample both 1 0 (empty 2)) 1 ≡ true)
    ↔ MovesShowing sample both 1 0 1
observed_image_example =
    apply_observed_action_set_iff sample sample-IsValid both 1 (omega arith) both-IsBitset 0
      (empty 2) 1 (empty-IsBitset 2 (omega arith))

observed_update_example :
    Ensures
      (validate_observed_update sample sample.generation
        (0 ∷ 1 ∷ [])
        word
        2
        (0 ∷ 1 ∷ [])
        (0 ∷ [])
        true)
      (λ r.
        (r.monitor.generation ≡ sample.generation)
        × (sample.generation ≢ sample.generation → r.monitor.decision ≡ stale_generation)
        × (sample.generation ≡ sample.generation
            → ObservedReport sample
                (λ q. contains (0 ∷ 1 ∷ []) q ≡ true)
                (0 ∷ 1 ∷ [])
                (0 ∷ 1 ∷ [])
                (0 ∷ [])
                true
                r.observation_compatible
                r))
      (Rejects (Observable sample (0 ∷ 1 ∷ []) (0 ∷ 1 ∷ []) 2 (0 ∷ 1 ∷ []) (0 ∷ []) true))
observed_update_example =
    validate_observed_update_decides sample (0 ∷ 1 ∷ []) word 2 (0 ∷ 1 ∷ []) (0 ∷ []) true
      sample-IsValid sample.generation

resolve_example :
    Ensures
      (resolve_entries declared.states.items declared.actions.items declared.states.items
        declared.transitions.items
        (index_none ∷ index_none ∷ []))
      (Resolved declared.states.items declared.actions.items declared.states.items
        (index_none ∷ index_none ∷ [])
        declared.transitions.items)
      (λ e. (e ≡ duplicate) ⊎ (e ≡ nondeterministic))
resolve_example =
    resolve_entries_resolves declared.states.items declared.actions.items declared.states.items
      (inl refl) (inr refl) (omega arith) declared.transitions.items (index_none ∷ index_none ∷ [])
      (λ z. absurd (z All-Known)) refl (inl refl, (inl refl, tt))

goal_example :
    Ensures
      (plan_goal sample (0 ∷ 1 ∷ []) (1 ∷ []) (0 ∷ 1 ∷ []) 5)
      (λ r.
        (r.generation ≡ sample.generation)
        × (r.expansions ≤ 5)
        × GoalAnswer sample (0 ∷ 1 ∷ []) (1 ∷ []) (0 ∷ 1 ∷ []) 5 r r.outcome)
      (GoalError sample sample-IsValid (0 ∷ 1 ∷ []) (1 ∷ []) (0 ∷ 1 ∷ []) 5)
goal_example = plan_goal_decides sample sample-IsValid (0 ∷ 1 ∷ []) (1 ∷ []) (0 ∷ 1 ∷ []) 5

count-both : count both ≡ 2
unfolding count
count-both = refl

abbrev planned : PlanResult
planned = record (result_init sample) { word = word }

metrics_example :
    Ensures
      (fill_plan_metrics sample both planned)
      (λ r.
        ((r.homing ≡ true) ↔ Homing sample (From both) (0 ∷ 1 ∷ []))
        × (1 ≤ r.branch_count)
        × (r.branch_count ≤ count both)
        × Kept planned r)
      Never
metrics_example =
    fill_plan_metrics_decides sample sample-IsValid both both-IsBitset 2
      (λ z. elim z [
        | inl large ↦ absurd (omega (arith, count-both))
        | inr long ↦ absurd (omega arith)
      ])
      0 planned both-has (omega arith) (omega arith, (omega arith, tt))

abbrev start_branch : Branch
start_branch = record { support = both; trace = [] }

start_branch-BranchOk : BranchOk sample (From both) [] start_branch
start_branch-BranchOk = (
  both-IsBitset,
  λ r. ((λ h. (r, h, refl)), λ (q, h, same). subst (From both) same h),
  (0, both-has),
)

apply_branches_example :
    Ensures
      (apply_branches sample 1 (start_branch ∷ []) no_branches)
      (λ p.
        Branches sample (From both) (1 ∷ []) (0 + total (start_branch ∷ [])) p
        × ((t : List ℕ) → HasTrace no_branches.branches t → HasTrace p.branches t)
        × Onward sample 1 (start_branch ∷ []) p.branches)
      Never
apply_branches_example =
    Ensures-apply_branches sample sample-IsValid (From both) [] 1 (omega arith) 2
      (λ z. elim z [ inl large ↦ absurd (omega arith) | inr long ↦ absurd (omega arith) ])
      (start_branch ∷ []) 0 no_branches (start_branch-BranchOk, tt) (omega (arith, count-both))
      (record {
        room = omega arith;
        small = omega arith;
        good = tt;
        short = omega arith;
        few = omega arith;
      })

-- The record of each pair of `sample`: action 0 merges the two states.
abbrev sample_record : ℕ → PairRecord
sample_record p = record {
  pair = p;
  mergeable = true;
  merge_distance = if p == 1 then 1 else 0;
  merge_action = if p == 1 then 0 else index_none;
  merge_next_pair = if p == 1 then 2 else index_none;
  merge_support_count = if p == 1 then 1 else 0;
  resolvable = p == 1;
  resolution_distance = if p == 1 then 1 else index_none;
  resolution_action = if p == 1 then 1 else index_none;
  resolution_next_pair = index_none;
  resolution_support_count = if p == 1 then 1 else 0;
}

abbrev sample_reader : Reader
sample_reader ids = return (map sample_record ids)

sync_example :
    Ensures
      (plan_sync_with_source sample sample_reader (0 ∷ 1 ∷ []) 10)
      (SyncAnswers sample (0 ∷ 1 ∷ []) 10)
      (SyncError sample (0 ∷ 1 ∷ []) 10 Never)
sync_example =
    plan_sync_decides sample sample_reader (0 ∷ 1 ∷ []) 10 Never sample-IsValid
      (λ ids. Ensures-return (map sample_record ids) tt)

sample_record-SoundTable : SoundTable sample sample_record
unfolding pair_index transition
sample_record-SoundTable zero zero hp hq = record {
  numbered = refl;
  absent = λ z. cc;
  ended = λ _ _. (refl, refl, refl, refl);
  onward = λ _ z. absurd (z refl);
  bounded = λ _. omega arith;
}
sample_record-SoundTable zero (suc zero) hp hq = record {
  numbered = refl;
  absent = λ z. cc;
  ended = λ _ z. absurd (omega arith);
  onward = λ _ z. (omega arith, λ y. omega arith, refl, refl, refl);
  bounded = λ _. omega arith;
}
sample_record-SoundTable (suc zero) zero hp hq = record {
  numbered = refl;
  absent = λ z. cc;
  ended = λ _ z. absurd (omega arith);
  onward = λ _ z. (omega arith, λ y. omega arith, refl, refl, refl);
  bounded = λ _. omega arith;
}
sample_record-SoundTable (suc zero) (suc zero) hp hq = record {
  numbered = refl;
  absent = λ z. cc;
  ended = λ _ _. (refl, refl, refl, refl);
  onward = λ _ z. absurd (z refl);
  bounded = λ _. omega arith;
}
sample_record-SoundTable (suc (suc p)) q hp hq = absurd (omega arith)
sample_record-SoundTable zero (suc (suc q)) hp hq = absurd (omega arith)
sample_record-SoundTable (suc zero) (suc (suc q)) hp hq = absurd (omega arith)

trusted_sync_example :
    Ensures
      (plan_sync_with_source sample sample_reader (0 ∷ 1 ∷ []) 10)
      (SyncAnswers sample (0 ∷ 1 ∷ []) 10)
      (λ e. ((e ≡ invalid_argument) × ¬ SyncArguments sample (0 ∷ 1 ∷ []) 10) ⊎ (e ≡ alloc))
trusted_sync_example =
    plan_sync_trusts sample sample_record sample_reader (0 ∷ 1 ∷ []) 10 sample-IsValid
      sample_record-SoundTable (λ ids _. Ensures-return (map sample_record ids) refl)
