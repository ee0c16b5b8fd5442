-- ===== src/Goal/Finalize.antt =====
-- What the end of sg_plan_goal makes of a word that leads to goals.
use sync_kgraph.Base.{
  ℕ, ◌+◌, ◌*◌, ◌≤◌, ◌≡◌, ◌∙◌, refl, sym, ◌↔◌, inl, inr, true, false, List, [], ◌∷◌, arith, length,
  get_or, index_none, size_mod, Status, alloc, invalid_model, Ensures, Ensures-bind, Ensures-guard,
  Ensures-mono,
}
use sync_kgraph.Bitset.{Bitset, has, count, subset, to_ids}
use sync_kgraph.Bitset.Laws.{IsBitset}
use sync_kgraph.Bitset.Members.{contains, Singleton-count, contains-to_ids, length-to_ids, count-le}
use sync_kgraph.Automaton.{Automaton}
use sync_kgraph.Automaton.Laws.{IsValid}
use sync_kgraph.Motion.Image.{run, images, images_iff, images-IsBitset, Actions}
use sync_kgraph.Motion.Apply.{Ensures-apply_word_set}
use sync_kgraph.Partition.Homing.{From, Homing, fill_plan_metrics_decides}
use sync_kgraph.Plan.{PlanResult}
use sync_kgraph.Goal.{goal_finalize}

pub first_of_one : (xs : List ℕ) (d : ℕ) → length xs ≡ 1 → contains xs (get_or xs 0 d) ≡ true
first_of_one [] d h = absurd (omega arith)
first_of_one (x ∷ xs) d h = ground arith

module _ (a : Automaton) (v : IsValid a) (s goals : Bitset) (m : IsBitset a.state_count s)
    (mg : IsBitset a.state_count goals) (start : ℕ) (hs : has s start ≡ true) where
  -- what the metrics of a finished plan tell
  pub record Finished (before after : PlanResult) : Type 0 where
    pub same_word : after.word ≡ before.word
    pub same_outcome : after.outcome ≡ before.outcome
    pub same_method : after.method ≡ before.method
    pub same_expansions : after.expansions ≡ before.expansions
    pub same_generation : after.generation ≡ before.generation
    pub homing : (after.homing ≡ true) ↔ Homing a (From s) before.word.actions
    pub ends :
        after.final_support_size ≡ 1
        → (q : ℕ) → has s q ≡ true
        → run a q before.word.actions ≡ after.final_state

  final_of_one :
      (w : List ℕ)
      → Actions a w
      → count (images a s w) ≡ 1
      → (q : ℕ) → has s q ≡ true
      → run a q w ≡ get_or (to_ids (images a s w)) 0 index_none
  final_of_one w acts one q hq =
      let im = images-IsBitset a v w s acts m in
      let final = images a s w in
      let (x, single, _) = Singleton-count a.state_count final im one in
      let there = (images_iff a v w s (run a q w) acts m).1 (q, hq, refl) in
      let first =
        first_of_one (to_ids final) index_none (length-to_ids a.state_count final im ∙ one) in
      single.1 (run a q w) there
      ∙ sym (
          single.1 (get_or (to_ids final) 0 index_none)
            (sym (contains-to_ids a.state_count final _ im) ∙ first))

  -- sg_goal_finalize accepts a word that leads the set into the goals, and fills in its metrics.
  pub Ensures-goal_finalize :
      {E : Status → Type 0} (result : PlanResult)
      → (size_mod ≤ 80 * (a.state_count + length result.word.actions) → E alloc)
      → Actions a result.word.actions
      → subset (images a s result.word.actions) goals ≡ true
      → Ensures (goal_finalize a s goals result) (Finished result) E
  unfolding goal_finalize
  Ensures-goal_finalize {E} result allow acts into =
      let w = result.word.actions in
      Ensures-bind (Ensures-apply_word_set a v s result.word (λ no. absurd (no acts)) m)
        λ final (_, e). rw e (
          Ensures-bind
            (Ensures-guard (subset (images a s w) goals) invalid_model (λ z. absurd (clash z)))
            λ _ _.
              Ensures-mono
                (λ r (homing, _, _, kept). record {
                  same_word = kept.same_word;
                  same_outcome = kept.same_outcome;
                  same_method = kept.same_method;
                  same_expansions = kept.same_expansions;
                  same_generation = kept.same_generation;
                  homing = homing;
                  ends = λ one q hq.
                      let size : count (images a s w) ≡ 1 = sym kept.same_size ∙ one in
                      final_of_one w acts size q hq ∙ (let f = kept.same_final in ground arith);
                })
                (λ _ z. z)
                (fill_plan_metrics_decides a v s m (length w)
                  (λ z. allow (elim z [
                    | inl large ↦ let few = count-le a.state_count s m in omega arith
                    | inr long ↦ omega arith
                  ]))
                  start _ hs (omega arith) acts))
    where
      clash : subset (images a s result.word.actions) goals ≡ false → ⊥
      clash z = cc
