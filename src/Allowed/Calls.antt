-- ===== src/Allowed/Calls.antt =====
-- sg_plan_sync_allowed: its answers and its errors.
use sync_kgraph.Base.{
  ℕ, ◌≤◌, ◌≡◌, ◌∙◌, refl, sym, ap, subst, ◌≢◌, ◌⊎◌, inl, inr, true, false, not, ◌&&◌, ◌||◌, List,
  [], arith, ◌==◌, Bool-cases, if◌then◌else◌, length, some, Status, alloc, invalid_argument,
  Ensures, Ensures-return, Ensures-bind, Ensures-if, Ensures-guard, Ensures-mono, return,
}
use sync_kgraph.Bitset.{Bitset, has, count}
use sync_kgraph.Bitset.Laws.{IsBitset}
use sync_kgraph.Bitset.Members.{contains, InRange, Ensures-from_ids, Ensures-copy}
use sync_kgraph.Automaton.{Automaton}
use sync_kgraph.Automaton.Laws.{IsValid}
use sync_kgraph.Word.{Word, empty_word}
use sync_kgraph.Motion.Image.{images, Actions}
use sync_kgraph.Plan.{
  PlanResult, Outcome, plan, no_plan, resource_bound, already_satisfied, pair_merge, result_init,
}
use sync_kgraph.Monitor.Motion.{empty_of_length, contains_some}
use sync_kgraph.Goal.{allowed_actions_valid, ids_below}
use sync_kgraph.Goal.Decides.{ids_below_iff}
use sync_kgraph.Search.{letters_of}
use sync_kgraph.Search.Nodes.{Over}
use sync_kgraph.Search.Frontier.{Actions-Over, Verdict}
use sync_kgraph.Search.Subset.{is_singleton}
use sync_kgraph.Search.Letters.{Letters-InRange}
use sync_kgraph.Search.Decides.{Searched, search_subsets_decides}
use sync_kgraph.Search.Words.{is_singleton_iff}
use sync_kgraph.Sync.{Merged, sync_finalize, sync_discard_plan, is_plan}
use sync_kgraph.Sync.Decides.{MergesAll, Synchronizes, Ensures-sync_finalize}
use sync_kgraph.Allowed.{allowed_conclude, plan_sync_allowed}
use sync_kgraph.Allowed.Merge.{MergingOver, Ensures-allowed_rounds}

-- what each outcome says, for words over the allowed actions
abbrev pub AllowedAnswer : Automaton → List ℕ → List ℕ → ℕ → PlanResult → Outcome → Type 0
AllowedAnswer a xs letters budget r plan = Synchronizes a xs r × Over letters r.word.actions
AllowedAnswer a xs letters budget r already_satisfied = Synchronizes a xs r × (r.word.actions ≡ [])
AllowedAnswer a xs letters budget r no_plan =
    (w : List ℕ) → Over letters w → (f : ℕ) → ¬ MergesAll a xs w f
AllowedAnswer a xs letters budget r resource_bound = r.expansions ≡ budget

-- the result is of this generation and within the budget, and its outcome is right
abbrev pub AllowedAnswers : Automaton → List ℕ → List ℕ → ℕ → PlanResult → Type 0
AllowedAnswers a xs letters budget r =
    (r.generation ≡ a.generation)
    × (r.expansions ≤ budget)
    × AllowedAnswer a xs letters budget r r.outcome

-- what the call demands of its arguments
abbrev pub AllowedArguments : Automaton → List ℕ → List ℕ → ℕ → Type 0
AllowedArguments a xs letters budget =
    (xs ≢ [])
    × InRange a.state_count xs
    × (letters ≢ [])
    × InRange a.action_count letters
    × (budget ≢ 0)

-- why there is no answer
abbrev pub NotAllowed : Automaton → List ℕ → List ℕ → ℕ → Status → Type 0
NotAllowed a xs letters budget e =
    ((e ≡ invalid_argument) × ¬ AllowedArguments a xs letters budget) ⊎ (e ≡ alloc)

acts_of :
    (a : Automaton) (letters w : List ℕ)
    → InRange a.action_count letters
    → Over letters w
    → Actions a w
acts_of a letters w known over = Actions-Over a letters w (Letters-InRange a letters known) over

module _ (a : Automaton) (v : IsValid a) (xs letters : List ℕ) (budget : ℕ)
    (known : InRange a.action_count letters) {E : Status → Type 0} (no_memory : E alloc)
    (s : Bitset) (m : IsBitset a.state_count s) (mem : (q : ℕ) → has s q ≡ contains xs q)
    (start : ℕ) (hs : has s start ≡ true) where
  -- A plan over the letters, finalized, answers the call.
  finalized :
      (result : PlanResult)
      → result.generation ≡ a.generation
      → result.expansions ≤ budget
      → (result.outcome ≡ plan)
        ⊎ ((result.outcome ≡ already_satisfied) × (result.word ≡ empty_word))
      → Over letters result.word.actions
      → count (images a s result.word.actions) ≡ 1
      → Ensures (sync_finalize a s result) (AllowedAnswers a xs letters budget) E
  finalized result g bound outcomes over single =
      Ensures-mono
        (λ r (sync, o, w, e, g'). (
          g' ∙ g,
          omega arith,
          elim outcomes [
            | inl is_it ↦
                subst (AllowedAnswer a xs letters budget r) (sym (o ∙ is_it))
                  (sync, subst (λ (u : Word). Over letters u.actions) (sym w) over)
            | inr (is_it, blank) ↦
                subst (AllowedAnswer a xs letters budget r) (sym (o ∙ is_it))
                  (sync, ap (λ (u : Word). u.actions) (w ∙ blank))
          ],
        ))
        (λ _ z. z)
        (Ensures-sync_finalize a v xs budget no_memory s m mem start hs result
          (acts_of a letters result.word.actions known over) single)

  -- The answer to the search, finalized when it is a plan.
  Ensures-Searched :
      (before r : PlanResult)
      → before.generation ≡ a.generation
      → Searched a s (some letters) budget before r
      → Ensures
          (if is_plan r.outcome then sync_finalize a s r else return r)
          (AllowedAnswers a xs letters budget)
          E
  unfolding letters_of
  Ensures-Searched before r g (verdict, bound, g', rest) = by_outcome r.outcome refl verdict
    where
      by_outcome :
          (o : Outcome)
          → r.outcome ≡ o
          → Verdict a letters is_singleton s budget r.word.actions r.expansions o
          → Ensures
              (if is_plan r.outcome then sync_finalize a s r else return r)
              (AllowedAnswers a xs letters budget)
              E
      by_outcome plan e (over, one) =
          subst
            (λ o.
              Ensures (if is_plan o then sync_finalize a s r else return r)
                (AllowedAnswers a xs letters budget) E)
            (sym e) (finalized r (g' ∙ g) bound (inl e) over (ground arith))
      by_outcome no_plan e never =
          subst
            (λ o.
              Ensures (if is_plan o then sync_finalize a s r else return r)
                (AllowedAnswers a xs letters budget) E)
            (sym e)
            (Ensures-return r (
              g' ∙ g,
              bound,
              subst (AllowedAnswer a xs letters budget r) (sym e) λ w over f merges.
                  let one =
                    (is_singleton_iff a v s m w (acts_of a letters w known over) start hs).1
                      (f, λ q hq. merges q (sym (mem q) ∙ hq)) in
                  let none_one = never w over in cc,
            ))
      by_outcome resource_bound e spent =
          subst
            (λ o.
              Ensures (if is_plan o then sync_finalize a s r else return r)
                (AllowedAnswers a xs letters budget) E)
            (sym e)
            (Ensures-return r
              (g' ∙ g, bound, subst (AllowedAnswer a xs letters budget r) (sym e) (omega arith)))
      by_outcome already_satisfied e h = absurd h

  -- Behind the merging: its word, or the search in its place.
  Ensures-allowed_conclude :
      count s ≢ 1
      → (merged : Merged) → MergingOver a letters s budget (result_init a) merged
      → Ensures (allowed_conclude a s letters budget merged) (AllowedAnswers a xs letters budget) E
  unfolding allowed_conclude sync_discard_plan
  Ensures-allowed_conclude several merged (inv, over) =
      elim (Bool-cases (count merged.active == 1)) [
        | inl one ↦ rw one (
            let done : PlanResult = record merged.result { outcome = plan; method = pair_merge } in
            Ensures-bind {P = λ r. r ≡ done} (Ensures-return done refl) λ r e. rw e (
              finalized done inv.same_generation inv.bounded (inl refl) over
                (ap count (sym inv.image) ∙ ground arith)))
        | inr more ↦ rw more (
            Ensures-bind
              (Ensures-mono (λ _ h. h) (λ e z. subst E (sym z.0) no_memory)
                (search_subsets_decides a s (some letters) budget (sync_discard_plan merged.result)
                  v m known (ground arith) refl inv.bounded))
              λ r h. Ensures-Searched (sync_discard_plan merged.result) r inv.same_generation h)
      ]

-- sg_plan_sync_allowed on a valid automaton: PLAN comes with a word over the allowed actions that leads
-- all the initial states to the state it names, ALREADY_SATISFIED with the empty word, NO_PLAN means
-- that no word over the allowed actions does, and RESOURCE_BOUND that the budget is spent; homing tells
-- whether the outputs determine the final state. It ends for every budget and never expands more, and
-- fails only with INVALID_ARGUMENT for arguments that it does not allow, or with ALLOC.
pub plan_sync_allowed_decides :
    (a : Automaton) (xs letters : List ℕ) (budget : ℕ)
    → IsValid a
    → Ensures
        (plan_sync_allowed a xs letters budget)
        (AllowedAnswers a xs letters budget)
        (NotAllowed a xs letters budget)
unfolding plan_sync_allowed allowed_actions_valid images
plan_sync_allowed_decides a xs letters budget v =
    Ensures-bind
      (Ensures-guard
        (not (length letters == 0)
          && ids_below a.action_count letters
          && not (length xs == 0 || budget == 0))
        invalid_argument (λ z. inl (refl, refused z)))
      λ _ given.
        let known = (ids_below_iff a.action_count letters).0 (ground arith) in
        Ensures-bind
          (Ensures-from_ids a.state_count (NotAllowed a xs letters budget) xs v.states_pos
            v.states_small (λ z. inl (refl, λ c. c.0 z)) (λ z. inl (refl, λ c. z c.1)))
          λ s (m, some_id, _, mem).
            Ensures-bind
              (Ensures-copy a.state_count (NotAllowed a xs letters budget) s v.states_pos m)
              λ active e. rw e (
                let (q, hq) = contains_some xs some_id in
                let hs : has s q ≡ true = mem q ∙ hq in
                Ensures-if (count s == 1)
                  (λ one.
                    finalized a v xs letters budget known (inr refl) s m mem q hs
                      (record (result_init a) { outcome = already_satisfied }) refl (omega arith)
                      (inr (refl, refl)) tt (ground arith))
                  (λ several.
                    Ensures-bind
                      (Ensures-allowed_rounds a v letters known (inr refl) s m budget budget s
                        (result_init a) (result_init a) (omega arith)
                        (
                          record {
                            image = refl;
                            word_ok = ((omega arith, omega arith), tt);
                            bounded = omega arith;
                            same_generation = refl;
                          },
                          tt,
                        ))
                      λ merged inv.
                        Ensures-allowed_conclude a v xs letters budget known (inr refl) s m mem q hs
                          (ground arith) merged inv))
  where
    refused :
        (not (length letters == 0)
            && ids_below a.action_count letters
            && not (length xs == 0 || budget == 0))
          ≡ false
        → ¬ AllowedArguments a xs letters budget
    refused z (c, _, l, k, b) = elim (Bool-cases (length xs == 0)) [
      | inl none_in ↦ c (empty_of_length xs none_in)
      | inr some_in ↦ elim (Bool-cases (length letters == 0)) [
        | inl no_letters ↦ l (empty_of_length letters no_letters)
        | inr some_letters ↦ let below = (ids_below_iff a.action_count letters).1 k in ground arith
      ]
    ]
