-- ===== src/Search/Decides.antt =====
-- sg_subset_bfs from its first node on: the outcome decides whether a word over the letters exists.
use sync_kgraph.Base.{
  ℕ, ◌*◌, size_mod, ◌+◌, ◌-◌, ◌≤◌, ◌≡◌, refl, ap, subst, ◌≢◌, false, List, [], ◌∷◌, Option, arith,
  leb, length, index_none, alloc, Ensures, Ensures-return, Ensures-bind, Ensures-if, Ensures-mono,
}
use sync_kgraph.Bitset.{Bitset}
use sync_kgraph.Bitset.Laws.{IsBitset, empty-IsBitset}
use sync_kgraph.Bitset.Members.{Ensures-init}
use sync_kgraph.Automaton.{Automaton}
use sync_kgraph.Automaton.Laws.{IsValid}
use sync_kgraph.Word.{empty_word}
use sync_kgraph.Plan.{PlanResult, plan, subset_bfs}
use sync_kgraph.Search.{Search, letters_of, search_subsets}
use sync_kgraph.Search.Nodes.{Ensures-subset_search_add}
use sync_kgraph.Search.Frontier.{Verdict}
use sync_kgraph.Search.Subset.{is_singleton, SearchedFrom, Searching-start, Ensures-subset_rounds}
use sync_kgraph.Search.Letters.{Over-self, Letters-letters_of, AllowedOk}

-- what sg_subset_bfs leaves in the result for the budget
abbrev pub Searched : Automaton → Bitset → Option (List ℕ) → ℕ → PlanResult → PlanResult → Type 0
Searched a initial allowed budget before after =
    Verdict a (letters_of a allowed) is_singleton initial budget after.word.actions after.expansions
      after.outcome
    × (after.expansions ≤ budget)
    × (after.generation ≡ before.generation)
    × ((after.outcome ≡ plan → after.method ≡ subset_bfs)
        × (after.outcome ≢ plan → (after.word ≡ before.word) × (after.method ≡ before.method)))

-- sg_subset_bfs on a set that is no singleton: PLAN comes with a word over the letters whose image of
-- the set is a singleton, NO_PLAN means that no word over the letters has such an image, and
-- RESOURCE_BOUND that the budget is spent. It ends for every budget, never expands more, and fails
-- only when the allocator refuses or a queue of that many nodes does not fit.
pub search_subsets_decides :
    (a : Automaton) (initial : Bitset) (allowed : Option (List ℕ)) (budget : ℕ)
    (result : PlanResult)
    → IsValid a
    → IsBitset a.state_count initial
    → AllowedOk a allowed
    → is_singleton initial ≡ false
    → result.word ≡ empty_word
    → result.expansions ≤ budget
    → Ensures
        (search_subsets a initial allowed budget result)
        (Searched a initial allowed budget result)
        (λ e. (e ≡ alloc) × (size_mod ≤ 80 * (1 + budget * length (letters_of a allowed))))
unfolding search_subsets
search_subsets_decides a initial allowed budget result v m ok' many blank spent =
    Ensures-if (leb budget result.expansions)
      (λ over. Ensures-return _ (ground arith, spent, refl, ((λ e. cc), (λ _. (refl, refl)))))
      (λ left.
        Ensures-bind
          (Ensures-subset_search_add (record { nodes = []; capacity = 0 }) initial index_none
            index_none (λ large. absurd (omega arith)) (omega arith) (omega arith) a.state_count
            v.states_pos m)
          λ search added.
            Ensures-bind
              (Ensures-init a.state_count _ (λ z. absurd (let p = v.states_pos in omega arith))
                v.states_small)
              λ next e.
                Ensures-mono (λ r h. to_budget left r h) (λ _ z. z)
                  (Ensures-subset_rounds a v (letters_of a allowed)
                    (Letters-letters_of a allowed ok') initial m
                    (1 + budget * length (letters_of a allowed)) (λ large. (refl, large))
                    (budget - result.expansions) search next 0 result
                    (Over-self (letters_of a allowed)) blank
                    (Searching-start a v (letters_of a allowed) (Letters-letters_of a allowed ok')
                      initial m search next added many
                      (rw e (empty-IsBitset a.state_count v.states_small)))
                    (start_fits search added.0)))
  where
    start_fits :
        (search : Search)
        → search.nodes ≡ record { support = initial; parent = index_none; action = index_none } ∷ []
        → length search.nodes + (budget - result.expansions) * length (letters_of a allowed)
          ≤ 1 + budget * length (letters_of a allowed)
    start_fits search e =
        let one = ap length e in
        let less : budget - result.expansions ≤ budget = omega arith in
        let k = length (letters_of a allowed) in
        let product : (budget - result.expansions) * k ≤ budget * k = grind arith in omega arith

    to_budget :
        leb budget result.expansions ≡ false
        → (r : PlanResult)
        → SearchedFrom a v
            (letters_of a allowed)
            (Letters-letters_of a allowed ok')
            initial
            m
            (budget - result.expansions)
            result
            r
        → Searched a initial allowed budget result r
    to_budget left r (verdict, bound, g, rest) =
        let e : result.expansions + (budget - result.expansions) ≡ budget = ground arith in
        (
          subst
              (λ b.
                Verdict a (letters_of a allowed) is_singleton initial b r.word.actions r.expansions
                  r.outcome)
              e verdict,
          omega arith,
          g,
          rest,
        )
