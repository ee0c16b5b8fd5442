-- ===== src/Sync/Calls.antt =====
-- sg_plan_sync_with_source: its answers and its errors, for any record source and for one that agrees
-- with the automaton.
use sync_kgraph.Base.{
  ℕ, ◌<◌, map, Never, All, ◌≡◌, ◌∙◌, refl, ◌≢◌, ◌⊎◌, inl, inr, true, false, not, ◌||◌, List, [],
  arith, ◌==◌, Bool-cases, length, Status, alloc, invalid_argument, invalid_model, Ensures,
  Ensures-bind, Ensures-if, Ensures-guard, Ensures-mono,
}
use sync_kgraph.Bitset.{Bitset, has, count}
use sync_kgraph.Bitset.Laws.{IsBitset}
use sync_kgraph.Bitset.Members.{contains, InRange, Ensures-from_ids, Ensures-copy}
use sync_kgraph.Automaton.{Automaton}
use sync_kgraph.Automaton.Laws.{IsValid}
use sync_kgraph.Motion.Image.{images}
use sync_kgraph.Monitor.Motion.{empty_of_length, contains_some}
use sync_kgraph.Plan.{PlanResult, already_satisfied, result_init}
use sync_kgraph.Sync.{
  PairRecord, merge, pair_words_load, Reader, sync_finalize, plan_sync_with_source,
}
use sync_kgraph.Sync.Load.{CandidateOk, Ensures-pair_words_load}
use sync_kgraph.Sync.Sound.{SoundTable, pairs_of, Ensures-sound_words_load}
use sync_kgraph.Sync.Merge.{InPairs, Ensures-merge_rounds}
use sync_kgraph.Sync.Decides.{SyncAnswers, finalized_plan, Ensures-sync_finalize, Ensures-conclude}

-- what the call demands of its arguments
abbrev pub SyncArguments : Automaton → List ℕ → ℕ → Type 0
SyncArguments a xs budget = (xs ≢ []) × (InRange a.state_count xs) × (budget ≢ 0)

-- the call, for any bound on the errors of the loading of witnesses
pub Ensures-plan_sync :
    (a : Automaton) (read : Reader) (xs : List ℕ) (budget : ℕ) {E : Status → Type 0}
    → IsValid a
    → E alloc
    → (¬ SyncArguments a xs budget → E invalid_argument)
    → ((pairs : List (ℕ × ℕ))
        → InPairs a.state_count pairs
        → Ensures (pair_words_load a read pairs merge) (All (CandidateOk a)) E)
    → Ensures (plan_sync_with_source a read xs budget) (SyncAnswers a xs budget) E
unfolding plan_sync_with_source images
Ensures-plan_sync a read xs budget {E} v no_memory bad_arguments loads =
    Ensures-bind
      (Ensures-guard (not (length xs == 0 || budget == 0)) invalid_argument
        (λ z. bad_arguments (refused z)))
      λ _ given.
        Ensures-bind
          (Ensures-from_ids a.state_count E xs v.states_pos v.states_small
            (λ z. bad_arguments (λ c. c.0 z)) (λ z. bad_arguments (λ c. z c.1)))
          λ s (m, some_id, _, mem).
            Ensures-bind (Ensures-copy a.state_count E s v.states_pos m) λ active e. rw e (
              let (q, hq) = contains_some xs some_id in
              let hs : has s q ≡ true = mem q ∙ hq in
              Ensures-if (count s == 1) (λ one. already s m mem q hs (ground arith))
                (λ several.
                  Ensures-bind
                    (Ensures-merge_rounds a v read no_memory loads s m budget budget s
                      (result_init a) (result_init a) (omega arith)
                      (record {
                        image = refl;
                        word_ok = ((omega arith, omega arith), tt);
                        bounded = omega arith;
                        same_generation = refl;
                      }))
                    λ merged inv.
                      Ensures-conclude a v xs budget no_memory s m mem q hs (ground arith) merged
                        inv))
  where
    refused : not (length xs == 0 || budget == 0) ≡ false → ¬ SyncArguments a xs budget
    refused z c = elim (Bool-cases (length xs == 0)) [
      | inl none_in ↦ c.0 (empty_of_length xs none_in)
      | inr some_in ↦ let b = c.2 in ground arith
    ]

    already :
        (s : Bitset) (m : IsBitset a.state_count s)
        → ((q : ℕ) → has s q ≡ contains xs q)
        → (q : ℕ) → has s q ≡ true
        → count s ≡ 1
        → Ensures
            (sync_finalize a s (record (result_init a) { outcome = already_satisfied }))
            (SyncAnswers a xs budget)
            E
    already s m mem q hs single =
        let done : PlanResult = record (result_init a) { outcome = already_satisfied } in
        Ensures-mono
          (λ t h. finalized_plan a xs budget done t refl (omega arith) (inr (refl, refl)) h)
          (λ _ z. z) (Ensures-sync_finalize a v xs budget no_memory s m mem q hs done tt single)

-- INVALID_ARGUMENT is for arguments that the call does not allow; the others are ALLOC, INVALID_MODEL
-- and the errors of the source
abbrev pub SyncError : Automaton → List ℕ → ℕ → (Status → Type 0) → Status → Type 0
SyncError a xs budget SourceError e =
    ((e ≡ invalid_argument) × ¬ SyncArguments a xs budget)
    ⊎ (e ≡ alloc)
    ⊎ (e ≡ invalid_model)
    ⊎ SourceError e

-- sg_plan_sync_with_source on a valid automaton, whatever the records say, for a source that ends:
-- PLAN comes with a word that leads all the initial states to the state it names, ALREADY_SATISFIED
-- with the empty word, NO_PLAN means that no word of actions does, and RESOURCE_BOUND that the budget
-- is spent; homing tells whether the outputs determine the final state. It ends for every budget and
-- never expands more, and fails only with INVALID_ARGUMENT for arguments that it does not allow, with
-- ALLOC, with INVALID_MODEL, or with the error of the source.
pub plan_sync_decides :
    (a : Automaton) (read : Reader) (xs : List ℕ) (budget : ℕ) (SourceError : Status → Type 0)
    → IsValid a
    → ((ids : List ℕ) → Ensures (read ids) (λ _. Unit {0}) SourceError)
    → Ensures
        (plan_sync_with_source a read xs budget)
        (SyncAnswers a xs budget)
        (SyncError a xs budget SourceError)
plan_sync_decides a read xs budget SourceError v reads =
    Ensures-plan_sync a read xs budget v (inr (inl refl)) (λ z. inl (refl, z))
      λ pairs _.
        Ensures-pair_words_load a v read (inr (inl refl)) (inr (inr (inl refl)))
          (λ ids. Ensures-mono (λ _ h. h) (λ e z. inr (inr (inr z))) (reads ids)) pairs merge

-- sg_plan_sync_with_source on a valid automaton, for a source that never fails for pairs of its states
-- and whose records agree with the automaton and with each other: the answer is as above, and the call fails only with
-- INVALID_ARGUMENT for arguments that it does not allow, or with ALLOC. It never answers INVALID_MODEL.
pub plan_sync_trusts :
    (a : Automaton) (table : ℕ → PairRecord) (read : Reader) (xs : List ℕ) (budget : ℕ)
    → IsValid a
    → SoundTable a table
    → ((ids : List ℕ)
        → All (λ k. k < pairs_of a.state_count) ids
        → Ensures (read ids) (λ rs. rs ≡ map table ids) Never)
    → Ensures
        (plan_sync_with_source a read xs budget)
        (SyncAnswers a xs budget)
        (λ e. ((e ≡ invalid_argument) × ¬ SyncArguments a xs budget) ⊎ (e ≡ alloc))
plan_sync_trusts a table read xs budget v sound reads =
    Ensures-plan_sync a read xs budget v (inr refl) (λ z. inl (refl, z))
      λ pairs h.
        Ensures-sound_words_load a v table sound (inr refl) read
          (λ ids l. Ensures-mono (λ _ e. e) (λ e z. absurd z) (reads ids l)) pairs h
