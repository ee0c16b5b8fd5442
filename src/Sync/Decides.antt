-- ===== src/Sync/Decides.antt =====
-- What the outcomes of sg_plan_sync_with_source say, and its part behind the merging.
use sync_kgraph.Base.{
  ℕ, zero, suc, ◌+◌, ◌≤◌, ◌<◌, ◌≡◌, ◌∙◌, refl, sym, ap, subst, ◌≢◌, ◌↔◌, ◌⊎◌, inl, inr, true, false,
  List, [], ◌∷◌, arith, ◌==◌, Bool-cases, if◌then◌else◌, length, get_or, none, Status, alloc,
  invalid_model, return, Ensures, Ensures-return, Ensures-bind, Ensures-if, Ensures-guard,
  Ensures-mono,
}
use sync_kgraph.Bitset.{Bitset, has, count, to_ids}
use sync_kgraph.Bitset.Laws.{IsBitset}
use sync_kgraph.Bitset.Members.{contains, Singleton-count, contains-to_ids, length-to_ids}
use sync_kgraph.Automaton.{Automaton}
use sync_kgraph.Automaton.Laws.{IsValid}
use sync_kgraph.Word.{Word, empty_word}
use sync_kgraph.Motion.Image.{run, images, images_iff, images-IsBitset, Actions}
use sync_kgraph.Motion.Apply.{Ensures-apply_word_set}
use sync_kgraph.Partition.Homing.{From, Homing, Kept, fill_plan_metrics_decides}
use sync_kgraph.Plan.{
  PlanResult, Outcome, plan, no_plan, resource_bound, already_satisfied, pair_merge, result_init,
  ids_up,
}
use sync_kgraph.Goal.Finalize.{first_of_one}
use sync_kgraph.Search.{letters_of}
use sync_kgraph.Search.Nodes.{Over}
use sync_kgraph.Search.Frontier.{Actions-Over, Verdict}
use sync_kgraph.Search.Subset.{is_singleton}
use sync_kgraph.Search.Letters.{Letters-letters_of}
use sync_kgraph.Search.Decides.{Searched, search_subsets_decides}
use sync_kgraph.Search.Words.{is_singleton_iff}
use sync_kgraph.Sync.{Merged, sync_finalize, sync_discard_plan, is_plan, sync_conclude}
use sync_kgraph.Sync.Merge.{Merging}

-- the word leads all the listed states to one
abbrev pub MergesAll : Automaton → List ℕ → List ℕ → ℕ → Type 0
MergesAll a xs w f = (q : ℕ) → contains xs q ≡ true → run a q w ≡ f

-- a word that merges the initial states into the final state, and whether it is homing
abbrev pub Synchronizes : Automaton → List ℕ → PlanResult → Type 0
Synchronizes a xs r =
    MergesAll a xs r.word.actions r.final_state
    × ((r.homing ≡ true) ↔ Homing a (λ q. contains xs q ≡ true) r.word.actions)

-- what each outcome says
abbrev pub SyncAnswer : Automaton → List ℕ → ℕ → PlanResult → Outcome → Type 0
SyncAnswer a xs budget r plan = Synchronizes a xs r
SyncAnswer a xs budget r already_satisfied = Synchronizes a xs r × (r.word.actions ≡ [])
SyncAnswer a xs budget r no_plan = (w : List ℕ) → Actions a w → (f : ℕ) → ¬ MergesAll a xs w f
SyncAnswer a xs budget r resource_bound = r.expansions ≡ budget

-- every word of actions is over all letters
Over-all : (a : Automaton) (w : List ℕ) → Actions a w → Over (letters_of a none) w
unfolding letters_of
Over-all a [] h = tt
Over-all a (c ∷ w) h =
    (has_letter 0 a.action_count c (omega arith) (omega (arith, h.0)), Over-all a w h.1)
  where
    has_letter : (i k c : ℕ) → i ≤ c → c < i + k → contains (ids_up i k) c ≡ true
    has_letter i zero c l u = absurd (omega arith)
    has_letter i (suc k) c l u = elim (Bool-cases (c == i)) [
      | inl same ↦ ground arith
      | inr other ↦ let rest = has_letter (i + 1) k c (ground arith) (omega arith) in ground arith
    ]

-- the result is of this generation and within the budget, and its outcome is right
abbrev pub SyncAnswers : Automaton → List ℕ → ℕ → PlanResult → Type 0
SyncAnswers a xs budget r =
    (r.generation ≡ a.generation) × (r.expansions ≤ budget) × SyncAnswer a xs budget r r.outcome

-- A plan that sg_sync_finalize accepts answers the call.
pub finalized_plan :
    (a : Automaton) (xs : List ℕ) (budget : ℕ) (result r : PlanResult)
    → result.generation ≡ a.generation
    → result.expansions ≤ budget
    → (result.outcome ≡ plan) ⊎ ((result.outcome ≡ already_satisfied) × (result.word ≡ empty_word))
    → Synchronizes a xs r
      × (r.outcome ≡ result.outcome)
      × (r.word ≡ result.word)
      × (r.expansions ≡ result.expansions)
      × (r.generation ≡ result.generation)
    → SyncAnswers a xs budget r
finalized_plan a xs budget result r g bound (inl is_it) (sync, o, w, e, g') =
    (g' ∙ g, omega arith, subst (SyncAnswer a xs budget r) (sym (o ∙ is_it)) sync)
finalized_plan a xs budget result r g bound (inr (is_it, blank)) (sync, o, w, e, g') = (
  g' ∙ g,
  omega arith,
  subst (SyncAnswer a xs budget r) (sym (o ∙ is_it))
      (sync, ap (λ (u : Word). u.actions) (w ∙ blank)),
)

-- A verdict of the search that is no plan answers the call.
unplanned :
    (a : Automaton) (v : IsValid a) (xs : List ℕ) (budget : ℕ) (s : Bitset)
    (m : IsBitset a.state_count s) (mem : (q : ℕ) → has s q ≡ contains xs q) (start : ℕ)
    (hs : has s start ≡ true) (r : PlanResult) (o : Outcome)
    → is_plan o ≡ false
    → r.expansions ≤ budget
    → Verdict a (letters_of a none) is_singleton s budget r.word.actions r.expansions o
    → SyncAnswer a xs budget r o
unplanned a v xs budget s m mem start hs r plan other bound h = cc
unplanned a v xs budget s m mem start hs r no_plan other bound never = λ w acts f merges.
    let one =
      (is_singleton_iff a v s m w acts start hs).1 (f, λ q hq. merges q (sym (mem q) ∙ hq)) in
    let none_one = never w (Over-all a w acts) in cc
unplanned a v xs budget s m mem start hs r resource_bound other bound h = omega arith
unplanned a v xs budget s m mem start hs r already_satisfied other bound h = absurd h

module _ (a : Automaton) (v : IsValid a) (xs : List ℕ) (budget : ℕ) {E : Status → Type 0}
    (no_memory : E alloc) (s : Bitset) (m : IsBitset a.state_count s)
    (mem : (q : ℕ) → has s q ≡ contains xs q) (start : ℕ) (hs : has s start ≡ true) where
  -- sg_sync_finalize of a word of actions with a singleton image keeps the outcome and is right.
  pub Ensures-sync_finalize :
      (result : PlanResult)
      → Actions a result.word.actions
      → count (images a s result.word.actions) ≡ 1
      → Ensures
          (sync_finalize a s result)
          (λ r.
            Synchronizes a xs r
            × (r.outcome ≡ result.outcome)
            × (r.word ≡ result.word)
            × (r.expansions ≡ result.expansions)
            × (r.generation ≡ result.generation))
          E
  unfolding sync_finalize
  Ensures-sync_finalize result acts single =
      let w = result.word.actions in
      Ensures-bind (Ensures-apply_word_set a v s result.word (λ z. absurd (z acts)) m)
        λ final (_, e). rw e (
          Ensures-bind
            (Ensures-guard (count (images a s w) == 1) invalid_model
              (λ other. absurd (ground arith)))
            λ _ one.
              Ensures-mono (λ r (homing, _, _, kept). finished (ground arith) r homing kept)
                (λ _ z. z)
                (fill_plan_metrics_decides a v s m (length w) (λ _. no_memory) start
                  (record result {
                    final_support_size = count (images a s w);
                    final_state = get_or (to_ids (images a s w)) 0 0;
                  })
                  hs (omega arith) acts))
    where
      finished :
          count (images a s result.word.actions) ≡ 1
          → (r : PlanResult) → (r.homing ≡ true) ↔ Homing a (From s) result.word.actions
          → Kept
              (record result {
                final_support_size = count (images a s result.word.actions);
                final_state = get_or (to_ids (images a s result.word.actions)) 0 0;
              })
              r
          → Synchronizes a xs r
            × (r.outcome ≡ result.outcome)
            × (r.word ≡ result.word)
            × (r.expansions ≡ result.expansions)
            × (r.generation ≡ result.generation)
      finished one r homing kept =
          let w = result.word.actions in
          let im = images-IsBitset a v w s acts m in
          let final = images a s w in
          let (x, single, _) = Singleton-count a.state_count final im one in
          let first = first_of_one (to_ids final) 0 (length-to_ids a.state_count final im ∙ one) in
          let ends : get_or (to_ids final) 0 0 ≡ x =
            single.1 (get_or (to_ids final) 0 0)
              (sym (contains-to_ids a.state_count final _ im) ∙ first) in
          let ew = ap (λ (u : Word). u.actions) kept.same_word in
          (
            (
              λ q hq.
                  ap (run a q) ew
                  ∙ single.1 (run a q w)
                      ((images_iff a v w s (run a q w) acts m).1 (q, mem q ∙ hq, refl))
                  ∙ sym ends
                  ∙ sym kept.same_final,
              rw ew (
                (λ h q r' hq hr. homing.0 h q r' (mem q ∙ hq) (mem r' ∙ hr)),
                λ h. homing.1 (λ q r' hq hr. h q r' (sym (mem q) ∙ hq) (sym (mem r') ∙ hr)),
              ),
            ),
            kept.same_outcome,
            kept.same_word,
            kept.same_expansions,
            kept.same_generation,
          )

  -- The answer to the search, finalized when it is a plan.
  Ensures-Searched :
      (before r : PlanResult)
      → before.generation ≡ a.generation
      → Searched a s none budget before r
      → Ensures
          (if is_plan r.outcome then sync_finalize a s r else return r)
          (SyncAnswers a xs budget)
          E
  Ensures-Searched before r g (verdict, bound, g', rest) =
      Ensures-if (is_plan r.outcome)
        (λ planned.
          let o = named r.outcome planned in
          Ensures-mono (λ t h. finalized_plan a xs budget r t (g' ∙ g) bound (inl o) h) (λ _ z. z)
            (let (acts, one) = over_actions r.outcome o verdict in
              Ensures-sync_finalize r acts one))
        (λ other.
          Ensures-return _ (
            g' ∙ g,
            bound,
            unplanned a v xs budget s m mem start hs r r.outcome other bound verdict,
          ))
    where
      named : (o : Outcome) → is_plan o ≡ true → o ≡ plan
      named plan h = refl
      named no_plan h = cc
      named resource_bound h = cc
      named already_satisfied h = cc

      over_actions :
          (o : Outcome)
          → o ≡ plan
          → Verdict a (letters_of a none) is_singleton s budget r.word.actions r.expansions o
          → Actions a r.word.actions × (count (images a s r.word.actions) ≡ 1)
      over_actions plan h (over, one) = (
        Actions-Over a (letters_of a none) r.word.actions (Letters-letters_of a none tt) over,
        ground arith,
      )
      over_actions no_plan h never = cc
      over_actions resource_bound h never = cc
      over_actions already_satisfied h never = cc

  -- Behind the greedy merging: its word, or the search in its place.
  pub Ensures-conclude :
      count s ≢ 1
      → (merged : Merged) → Merging a s budget (result_init a) merged
      → Ensures (sync_conclude a s budget merged) (SyncAnswers a xs budget) E
  unfolding sync_conclude sync_discard_plan
  Ensures-conclude several merged inv = elim (Bool-cases (count merged.active == 1)) [
    | inl one ↦ rw one (
        let done : PlanResult = record merged.result { outcome = plan; method = pair_merge } in
        Ensures-bind {P = λ r. r ≡ done} (Ensures-return done refl) λ r e. rw e (
          Ensures-mono
            (λ t h. finalized_plan a xs budget done t inv.same_generation inv.bounded (inl refl) h)
            (λ _ z. z)
            (Ensures-sync_finalize done inv.word_ok.1 (ap count (sym inv.image) ∙ ground arith))))
    | inr more ↦ rw more (
        Ensures-bind
          (Ensures-mono (λ _ h. h) (λ e z. subst E (sym z.0) no_memory)
            (search_subsets_decides a s none budget (sync_discard_plan merged.result) v m tt
              (ground arith) refl inv.bounded))
          λ r h. Ensures-Searched (sync_discard_plan merged.result) r inv.same_generation h)
  ]
