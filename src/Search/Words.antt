-- ===== src/Search/Words.antt =====
-- The outcomes of the searches in terms of runs: words that merge a set of states, and words that
-- lead it into another.
use sync_kgraph.Base.{
  ℕ, size_mod, ◌+◌, ◌*◌, length, ◌≤◌, ◌≡◌, ◌∙◌, refl, sym, ◌↔◌, true, false, List, arith, Option,
  Ensures, Ensures-mono, alloc,
}
use sync_kgraph.Bitset.{Bitset, has, subset}
use sync_kgraph.Bitset.Laws.{IsBitset}
use sync_kgraph.Bitset.Members.{subset_iff, Singleton-count, count-Singleton}
use sync_kgraph.Automaton.{Automaton}
use sync_kgraph.Automaton.Laws.{IsValid}
use sync_kgraph.Motion.Image.{run, images, images_iff, images-IsBitset, Actions}
use sync_kgraph.Word.{empty_word}
use sync_kgraph.Plan.{
  Outcome, PlanResult, plan, already_satisfied, no_plan, resource_bound, subset_bfs,
}
use sync_kgraph.Search.{search_subsets, letters_of}
use sync_kgraph.Search.Nodes.{Over}
use sync_kgraph.Search.Frontier.{Letters, Actions-Over, Verdict}
use sync_kgraph.Search.Subset.{is_singleton}
use sync_kgraph.Search.Letters.{AllowedOk, Letters-letters_of}
use sync_kgraph.Search.Decides.{search_subsets_decides}

-- the word leads every state of the set to one state
abbrev pub Merges : Automaton → Bitset → List ℕ → Type 0
Merges a s w = (f : ℕ) × ((q : ℕ) → has s q ≡ true → run a q w ≡ f)

-- the word leads every state of the set into the other
abbrev pub LeadsInto : Automaton → Bitset → Bitset → List ℕ → Type 0
LeadsInto a s goals w = (q : ℕ) → has s q ≡ true → has goals (run a q w) ≡ true

module _ (a : Automaton) (v : IsValid a) (s : Bitset) (m : IsBitset a.state_count s) (w : List ℕ)
    (acts : Actions a w) where
  im : IsBitset a.state_count (images a s w)
  im = images-IsBitset a v w s acts m

  -- An image has one state exactly when the word merges the states of a nonempty set.
  pub is_singleton_iff :
      (start : ℕ) → has s start ≡ true → (is_singleton (images a s w) ≡ true) ↔ Merges a s w
  is_singleton_iff start hs = (
    λ one.
        let (f, single, _) = Singleton-count a.state_count (images a s w) im (ground arith) in
        (f, λ q hq. single.1 (run a q w) ((images_iff a v w s (run a q w) acts m).1 (q, hq, refl))),
    λ (f, to_f).
        let here = (images_iff a v w s f acts m).1 (start, hs, to_f start hs) in
        let one = count-Singleton a.state_count (images a s w) f im (
          here,
          λ r hr. let (q, hq, e) = (images_iff a v w s r acts m).0 hr in sym e ∙ to_f q hq,
        ) in
        ground arith,
  )

  -- An image lies in the goals exactly when the word leads every state there.
  pub subset_image_iff :
      (goals : Bitset)
      → IsBitset a.state_count goals
      → (subset (images a s w) goals ≡ true) ↔ LeadsInto a s goals w
  subset_image_iff goals g =
      let it = subset_iff a.state_count (images a s w) goals im g in
      (
        λ h q hq. it.0 h (run a q w) ((images_iff a v w s (run a q w) acts m).1 (q, hq, refl)),
        λ h.
            it.1 (λ r hr. let (q, hq, e) = (images_iff a v w s r acts m).0 hr in rw (← e) (h q hq)),
      )

-- what an outcome of the synchronizing search says
abbrev pub Synchronized : Automaton → Bitset → List ℕ → ℕ → PlanResult → Outcome → Type 0
Synchronized a s letters budget r plan =
    Over letters r.word.actions × Merges a s r.word.actions × (r.method ≡ subset_bfs)
Synchronized a s letters budget r no_plan = (w : List ℕ) → Over letters w → ¬ Merges a s w
Synchronized a s letters budget r resource_bound = r.expansions ≡ budget
Synchronized a s letters budget r already_satisfied = ⊥

Synchronized-Verdict :
    (a : Automaton) (s : Bitset) (letters : List ℕ) (budget : ℕ) (r : PlanResult)
    → IsValid a
    → IsBitset a.state_count s
    → Letters a letters
    → (start : ℕ) → has s start ≡ true
    → r.expansions ≤ budget
    → (o : Outcome) → (o ≡ plan → r.method ≡ subset_bfs)
    → Verdict a letters is_singleton s budget r.word.actions r.expansions o
    → Synchronized a s letters budget r o
Synchronized-Verdict a s letters budget r v m ok' start hs spent plan named (over, one) = (
  over,
  (is_singleton_iff a v s m r.word.actions (Actions-Over a letters r.word.actions ok' over) start
        hs).0
      one,
  named refl,
)
Synchronized-Verdict a s letters budget r v m ok' start hs spent no_plan named never =
    λ w over merges.
      let one =
        (is_singleton_iff a v s m w (Actions-Over a letters w ok' over) start hs).1 merges in
      let none_one = never w over in cc
Synchronized-Verdict a s letters budget r v m ok' start hs spent resource_bound named bound =
    omega arith
Synchronized-Verdict a s letters budget r v m ok' start hs spent already_satisfied named bound =
    bound

-- sg_subset_bfs on two states or more: PLAN comes with a word over the letters that leads all of
-- them to one state, NO_PLAN means that no such word over the letters exists, and RESOURCE_BOUND that
-- the budget is spent. The call ends for every budget and never expands more nodes than the budget;
-- it fails only when the allocator refuses or a queue of that many nodes does not fit a size_t.
pub search_subsets_synchronizes :
    (a : Automaton) (s : Bitset) (allowed : Option (List ℕ)) (budget : ℕ) (result : PlanResult)
    → IsValid a
    → IsBitset a.state_count s
    → AllowedOk a allowed
    → (start : ℕ) → has s start ≡ true
    → is_singleton s ≡ false
    → result.word ≡ empty_word
    → result.expansions ≤ budget
    → Ensures
        (search_subsets a s allowed budget result)
        (λ r. Synchronized a s (letters_of a allowed) budget r r.outcome × (r.expansions ≤ budget))
        (λ e. (e ≡ alloc) × (size_mod ≤ 80 * (1 + budget * length (letters_of a allowed))))
search_subsets_synchronizes a s allowed budget result v m ok' start hs many blank spent =
    Ensures-mono
      (λ r (verdict, bound, _, named). (
        Synchronized-Verdict a s (letters_of a allowed) budget r v m
            (Letters-letters_of a allowed ok') start hs bound r.outcome named.0 verdict,
        bound,
      ))
      (λ _ z. z) (search_subsets_decides a s allowed budget result v m ok' many blank spent)
