-- ===== src/Goal/Decides.antt =====
-- sg_plan_goal: the outcome decides whether a word over the allowed actions leads every initial state into
-- the goals.
use sync_kgraph.Base.{
  ℕ, ◌+◌, ◌*◌, ◌≤◌, ◌≡◌, ◌∙◌, refl, sym, ap, subst, ◌≢◌, ◌↔◌, ◌⊎◌, inl, inr, true, false, not, ◌&&◌,
  ◌||◌, List, [], ◌∷◌, arith, ◌==◌, Bool-cases, length, Option, none, some, index_none, size_mod,
  Status, alloc, invalid_argument, Ensures, Ensures-return, Ensures-bind, Ensures-if, Ensures-guard,
  Ensures-mono,
}
use sync_kgraph.Bitset.{Bitset, has, subset}
use sync_kgraph.Bitset.Laws.{IsBitset}
use sync_kgraph.Bitset.Members.{contains, InRange, Ensures-from_ids, Ensures-copy}
use sync_kgraph.Automaton.{Automaton}
use sync_kgraph.Automaton.Laws.{IsValid}
use sync_kgraph.Word.{Word}
use sync_kgraph.Motion.Image.{run, images, Actions}
use sync_kgraph.Monitor.Motion.{empty_of_length, contains_some}
use sync_kgraph.Partition.Homing.{Homing}
use sync_kgraph.Plan.{
  PlanResult, Outcome, plan, no_plan, resource_bound, already_satisfied, belief_bfs, result_init,
}
use sync_kgraph.Search.Nodes.{
  Over, Leads-length, Ensures-belief_reconstruct, Ensures-belief_search_add,
}
use sync_kgraph.Search.Frontier.{Letters, Actions-Over}
use sync_kgraph.Search.Letters.{Over-self, Letters-InRange}
use sync_kgraph.Search.Words.{subset_image_iff}
use sync_kgraph.Goal.{
  ids_below, allowed_actions_valid, goal_finalize, Ended, goal_conclude, goal_search, plan_goal,
}
use sync_kgraph.Goal.Rounds.{Found, Rounds, GoalSearch-root, Ensures-goal_rounds}
use sync_kgraph.Goal.Finalize.{Finished, Ensures-goal_finalize}

pub ids_below_iff : (n : ℕ) (xs : List ℕ) → (ids_below n xs ≡ true) ↔ InRange n xs
unfolding ids_below
ids_below_iff n [] = ((λ _. tt), (λ _. refl))
ids_below_iff n (x ∷ xs) =
    let ih = ids_below_iff n xs in
    ((λ h. (ground arith, ih.0 (ground arith))), (λ (l, h). let r = ih.1 h in ground arith))

-- the word leads every listed state to a goal
abbrev pub LeadsAll : Automaton → List ℕ → List ℕ → List ℕ → Type 0
LeadsAll a xs gs w = (q : ℕ) → contains xs q ≡ true → contains gs (run a q w) ≡ true

-- what the arguments must be
abbrev pub GoalArguments : Automaton → List ℕ → List ℕ → List ℕ → ℕ → Type 0
GoalArguments a xs gs allowed budget =
    (allowed ≢ [])
    × InRange a.action_count allowed
    × (xs ≢ [])
    × InRange a.state_count xs
    × (gs ≢ [])
    × InRange a.state_count gs
    × (budget ≢ 0)

-- a word that leads every initial state to a goal, and whether its outputs tell where it ended
abbrev pub Planned : Automaton → List ℕ → List ℕ → PlanResult → Type 0
Planned a xs gs r =
    LeadsAll a xs gs r.word.actions
    × ((r.homing ≡ true) ↔ Homing a (λ q. contains xs q ≡ true) r.word.actions)
    × (r.final_support_size ≡ 1
        → (q : ℕ) → contains xs q ≡ true
        → run a q r.word.actions ≡ r.final_state)

-- what each outcome says
abbrev pub GoalAnswer : Automaton → List ℕ → List ℕ → List ℕ → ℕ → PlanResult → Outcome → Type 0
GoalAnswer a xs gs allowed budget r plan =
    Planned a xs gs r × Over allowed r.word.actions × (r.method ≡ belief_bfs)
GoalAnswer a xs gs allowed budget r already_satisfied = Planned a xs gs r × (r.word.actions ≡ [])
GoalAnswer a xs gs allowed budget r no_plan = (w : List ℕ) → Over allowed w → ¬ LeadsAll a xs gs w
GoalAnswer a xs gs allowed budget r resource_bound = r.expansions ≡ budget

module _ (a : Automaton) (v : IsValid a) (xs gs allowed : List ℕ) (budget : ℕ) where
  -- how the call may fail when the allocator has not refused
  abbrev pub GoalError : Status → Type 0
  GoalError e =
      ((e ≡ invalid_argument) × ¬ GoalArguments a xs gs allowed budget)
      ⊎ ((e ≡ alloc) × (size_mod ≤ 80 * (a.state_count + (1 + budget * length allowed))))

  module _ (s goals : Bitset) (m : IsBitset a.state_count s) (mg : IsBitset a.state_count goals)
      (mem : (q : ℕ) → has s q ≡ contains xs q) (memg : (q : ℕ) → has goals q ≡ contains gs q)
      (start : ℕ) (hs : has s start ≡ true) (ok' : Letters a allowed) where
    -- an image inside the goals, in terms of the lists
    inside_iff :
        (w : List ℕ) → Actions a w → (subset (images a s w) goals ≡ true) ↔ LeadsAll a xs gs w
    inside_iff w acts =
        let it = subset_image_iff a v s m w acts goals mg in
        (
          λ h q hq. sym (memg (run a q w)) ∙ it.0 h q (mem q ∙ hq),
          λ h. it.1 (λ q hq. memg (run a q w) ∙ h q (sym (mem q) ∙ hq)),
        )

    Planned-Finished :
        (before after : PlanResult)
        → Finished a v s goals m mg start hs before after
        → LeadsAll a xs gs before.word.actions
        → Planned a xs gs after
    Planned-Finished before after f leads =
        let e = ap (λ (w : Word). w.actions) f.same_word in
        rw e (
          leads,
          (
            λ h q r hq hr. f.homing.0 h q r (mem q ∙ hq) (mem r ∙ hr),
            λ h. f.homing.1 (λ q r hq hr. h q r (sym (mem q) ∙ hq) (sym (mem r) ∙ hr)),
          ),
          λ one q hq. f.ends one q (mem q ∙ hq),
        )

    -- what the call leaves
    abbrev Answers : PlanResult → Type 0
    Answers r =
        (r.generation ≡ a.generation)
        × (r.expansions ≤ budget)
        × GoalAnswer a xs gs allowed budget r r.outcome

    answer_plan :
        (before after : PlanResult)
        → before.outcome ≡ plan
        → before.method ≡ belief_bfs
        → before.generation ≡ a.generation
        → before.expansions ≤ budget
        → Over allowed before.word.actions
        → LeadsAll a xs gs before.word.actions
        → Finished a v s goals m mg start hs before after
        → Answers after
    answer_plan before after o b g l over leads f =
        let e = f.same_outcome ∙ o in
        let ew = ap (λ (w : Word). w.actions) f.same_word in
        (
          f.same_generation ∙ g,
          (let x = f.same_expansions in omega arith),
          subst (GoalAnswer a xs gs allowed budget after) (sym e) (
            Planned-Finished before after f leads,
            subst (Over allowed) (sym ew) over,
            f.same_method ∙ b,
          ),
        )

    Ensures-goal_conclude :
        (e : Ended)
        → Rounds a v allowed ok' s m goals budget (1 + budget * length allowed) (result_init a) e
        → Ensures (goal_conclude a s goals e) Answers GoalError
    unfolding goal_conclude
    Ensures-goal_conclude e r = by_find e.found r.found refl
      where
        bounded : e.result.expansions ≤ budget
        bounded = omega (arith, r.bounded)

        by_find :
            (h : Option ℕ)
            → Found a v allowed ok' s m goals budget (result_init a) e.search e.result h
            → e.found ≡ h
            → Ensures (goal_conclude a s goals e) Answers GoalError
        by_find none (inl (o, x)) same =
            rw (same, o) (Ensures-return _ (r.same_generation, bounded, omega arith))
        by_find none (inr (o, never)) same =
            rw (same, o)
              (Ensures-return _ (
                r.same_generation,
                bounded,
                λ w over leads.
                    let acts = Actions-Over a allowed w ok' over in
                    let yes = (inside_iff w acts).1 leads in let nope = never w over in cc,
              ))
        by_find (some i) (queue, l, hit) same =
            let x = queue.explained i l in
            let few = r.few in
            let long = Leads-length e.search.nodes x.leads in
            let acts = Actions-Over a allowed x.word ok' x.over in
            let into : subset (images a s x.word) goals ≡ true =
              ap (λ (b : Bitset). subset b goals) (sym x.image) ∙ hit in
            rw same (
              Ensures-bind
                (Ensures-belief_reconstruct a s allowed e.search i
                  (λ large. inr (refl, omega arith)) x l)
                λ word ew.
                  Ensures-mono
                    (λ after f.
                      answer_plan
                        (record e.result { word = word; outcome = plan; method = belief_bfs }) after
                        refl refl r.same_generation bounded (subst (Over allowed) (sym ew) x.over)
                        (subst (LeadsAll a xs gs) (sym ew) ((inside_iff x.word acts).0 into)) f)
                    (λ _ z. z)
                    (Ensures-goal_finalize a v s goals m mg start hs
                      (record e.result { word = word; outcome = plan; method = belief_bfs })
                      (λ large. inr (refl, let y = ap length ew in omega arith))
                      (subst (Actions a) (sym ew) acts)
                      (subst (λ w. subset (images a s w) goals ≡ true) (sym ew) into)))

    Ensures-goal_search :
        subset s goals ≡ false → Ensures (goal_search a s goals allowed budget) Answers GoalError
    unfolding goal_search
    Ensures-goal_search miss =
        Ensures-bind (Ensures-copy a.state_count GoalError s v.states_pos m) λ root e. rw e (
          Ensures-bind
            (Ensures-belief_search_add (record { nodes = []; capacity = 0 }) s index_none index_none
              (λ large. absurd (omega arith)) (omega arith) (omega arith))
            λ search added.
              Ensures-bind
                (Ensures-goal_rounds a v allowed ok' s m goals (1 + budget * length allowed)
                  (λ large. inr (refl, omega arith)) budget search 0 (result_init a)
                  (Over-self allowed) (GoalSearch-root a v allowed ok' s m goals search added miss)
                  (let one = ap length added.0 in omega arith))
                λ ended r. Ensures-goal_conclude ended r)

    Ensures-already :
        subset s goals ≡ true
        → Ensures
            (goal_finalize a s goals (record (result_init a) { outcome = already_satisfied }))
            Answers
            GoalError
    unfolding images
    Ensures-already into =
        Ensures-mono
          (λ after f.
            let e = ap (λ (w : Word). w.actions) f.same_word in
            (
              f.same_generation,
              (let x = f.same_expansions in omega arith),
              subst (GoalAnswer a xs gs allowed budget after) (sym f.same_outcome)
                  (Planned-Finished _ after f ((inside_iff [] tt).0 into), e),
            ))
          (λ _ z. z)
          (Ensures-goal_finalize a v s goals m mg start hs
            (record (result_init a) { outcome = already_satisfied })
            (λ large. inr (refl, omega arith)) tt into)

  -- sg_plan_goal ends for every budget and expands at most that many nodes. PLAN comes with a word over
  -- the allowed actions that leads every initial state to a goal, ALREADY_SATISFIED with the empty
  -- word and initial states that are goals, NO_PLAN means that no word over the allowed actions leads
  -- all of them to goals, and RESOURCE_BOUND that the budget is spent; for a plan, `homing` tells
  -- whether the outputs determine the final state, and a final support of size 1 comes with the state
  -- that every run ends in. It fails only when the allocator refuses, with INVALID_ARGUMENT for bad
  -- arguments, or when the queue or the partition does not fit a size_t.
  pub plan_goal_decides :
      Ensures
        (plan_goal a xs gs allowed budget)
        (λ r.
          (r.generation ≡ a.generation)
          × (r.expansions ≤ budget)
          × GoalAnswer a xs gs allowed budget r r.outcome)
        GoalError
  unfolding plan_goal allowed_actions_valid
  plan_goal_decides =
      Ensures-bind
        (Ensures-guard
          (not (length allowed == 0)
            && ids_below a.action_count allowed
            && not (length xs == 0 || length gs == 0 || budget == 0))
          invalid_argument (λ z. inl (refl, refused z)))
        λ _ fine.
          let letters =
            Letters-InRange a allowed ((ids_below_iff a.action_count allowed).0 (ground arith)) in
          Ensures-bind
            (Ensures-from_ids a.state_count GoalError xs v.states_pos v.states_small
              (λ z. inl (refl, λ c. c.2 z)) (λ z. inl (refl, λ c. z c.3)))
            λ s (m, some_id, _, mem).
              Ensures-bind
                (Ensures-from_ids a.state_count GoalError gs v.states_pos v.states_small
                  (λ z. inl (refl, λ c. c.4 z)) (λ z. inl (refl, λ c. z c.5)))
                λ goals (mg, _, _, memg).
                  let (q, hq) = contains_some xs some_id in
                  let hs : has s q ≡ true = mem q ∙ hq in
                  Ensures-if (subset s goals)
                    (λ into. Ensures-already s goals m mg mem memg q hs letters into)
                    (λ miss. Ensures-goal_search s goals m mg mem memg q hs letters miss)
    where
      refused :
          (not (length allowed == 0)
              && ids_below a.action_count allowed
              && not (length xs == 0 || length gs == 0 || budget == 0))
            ≡ false
          → ¬ GoalArguments a xs gs allowed budget
      refused z c = elim (Bool-cases (length allowed == 0)) [
        | inl none_in ↦ c.0 (empty_of_length allowed none_in)
        | inr some_in ↦ elim (Bool-cases (length xs == 0)) [
          | inl none_in ↦ c.2 (empty_of_length xs none_in)
          | inr some_x ↦ elim (Bool-cases (length gs == 0)) [
            | inl none_in ↦ c.4 (empty_of_length gs none_in)
            | inr some_g ↦
                let y = (ids_below_iff a.action_count allowed).1 c.1 in let b = c.6 in ground arith
          ]
        ]
      ]
