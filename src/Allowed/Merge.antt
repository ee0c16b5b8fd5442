-- ===== src/Allowed/Merge.antt =====
-- The merging of sg_plan_sync_allowed: the set kept is the image of the initial set under the word kept,
-- which is over the allowed actions.
use sync_kgraph.Base.{
  ℕ, zero, suc, ◌+◌, ◌≤◌, ◌≡◌, ◌≢◌, ◌∙◌, sym, ap, subst, inl, inr, Bool, true, false, List, [], ◌∷◌,
  arith, ltb, Bool-cases, if◌then◌else◌, length, Option, none, some, All-append, Status, alloc,
  not_found, invalid_argument, duplicate, incomplete, nondeterministic, invalid_model,
  resource_bound, stale_generation, M, Memory, Result, Post, good, bad, refused, Ensures,
  Ensures-return, Ensures-bind, Ensures-if, Ensures-mono,
}
use sync_kgraph.Bitset.{Bitset, count}
use sync_kgraph.Bitset.Laws.{IsBitset}
use sync_kgraph.Bitset.Members.{contains, InRange}
use sync_kgraph.Automaton.{Automaton}
use sync_kgraph.Automaton.Laws.{IsValid}
use sync_kgraph.Word.{Word, Ensures-extend}
use sync_kgraph.Motion.Image.{images, images-append, images-IsBitset}
use sync_kgraph.Motion.Apply.{Ensures-apply_word_set}
use sync_kgraph.Plan.{PlanResult}
use sync_kgraph.Search.Nodes.{Over}
use sync_kgraph.Search.Frontier.{Actions-Over}
use sync_kgraph.Search.Letters.{Letters-InRange}
use sync_kgraph.Sync.{Best, beats, pair_index, pairs_from, Merged, advance}
use sync_kgraph.Sync.Merge.{InPairs, pairs_from-InPairs, Merging}
use sync_kgraph.Allowed.{
  found_result, optional, weigh, choose_allowed, best_merge_allowed, allowed_rounds,
}
use sync_kgraph.Allowed.Words.{MergesOver, NoMerge, allowed_merge_word_merges}

-- what holds of a result that is there
abbrev Holds : {A : Type 0} → (A → Type 0) → Option A → Type 0
Holds P none = Unit
Holds P (some x) = P x

-- NOT_FOUND becomes `none`, and every other status is kept.
Ensures-optional :
    {A : Type 0} {P : A → Type 0} {E F : Status → Type 0} {m : M A}
    → ((e : Status) → e ≢ not_found → E e → F e)
    → Ensures m P E
    → Ensures (optional m) (Holds P) F
unfolding optional found_result
Ensures-optional {A} {P} {E} {F} {m} other s = record { run = λ h. caught (s.run h) }
  where
    caught :
        {h : Memory} {r : Result A × Memory} → Post P E h r → Post (Holds P) F h (found_result r)
    caught (good p k) = good p k
    caught (bad {e = alloc} x k) = bad (other alloc (λ z. cc) x) k
    caught (bad {e = invalid_argument} x k) = bad (other invalid_argument (λ z. cc) x) k
    caught (bad {e = duplicate} x k) = bad (other duplicate (λ z. cc) x) k
    caught (bad {e = not_found} x k) = good tt k
    caught (bad {e = incomplete} x k) = bad (other incomplete (λ z. cc) x) k
    caught (bad {e = nondeterministic} x k) = bad (other nondeterministic (λ z. cc) x) k
    caught (bad {e = invalid_model} x k) = bad (other invalid_model (λ z. cc) x) k
    caught (bad {e = resource_bound} x k) = bad (other resource_bound (λ z. cc) x) k
    caught (bad {e = stale_generation} x k) = bad (other stale_generation (λ z. cc) x) k
    caught (refused k) = refused k

module _ (a : Automaton) (letters : List ℕ) where
  -- the support of the best candidate is the image under its word, which is over the letters
  abbrev BestOver : Bitset → Option Best → Type 0
  BestOver active none = Unit
  BestOver active (some b) =
      Over letters b.word.actions × (b.support ≡ images a active b.word.actions)

  -- what the loop keeps, for an initial set
  abbrev pub MergingOver : Bitset → ℕ → PlanResult → Merged → Type 0
  MergingOver s bound before m = Merging a s bound before m × Over letters m.result.word.actions

module _ (a : Automaton) (v : IsValid a) (letters : List ℕ) (known : InRange a.action_count letters)
    {E : Status → Type 0} (no_memory : E alloc) where
  module _ (active : Bitset) (m : IsBitset a.state_count active) where
    Ensures-weigh :
        (pair : ℕ) (found : Option Word) (best : Option Best)
        → Holds (λ w. Over letters w.actions) found
        → BestOver a letters active best
        → Ensures (weigh a active pair found best) (BestOver a letters active) E
    unfolding weigh
    Ensures-weigh pair none best h k = Ensures-return best k
    Ensures-weigh pair (some word) best over k =
        let acts = Actions-Over a letters word.actions (Letters-InRange a letters known) over in
        Ensures-bind (Ensures-apply_word_set a v active word (λ z. absurd (z acts)) m)
          λ support (_, e). Ensures-return _ (
            either (beats (count support) (length word.actions) pair best)
              (record { word = word; support = support; count = count support; pair = pair })
              (over, e))
      where
        either :
            (t : Bool) (b : Best)
            → BestOver a letters active (some b)
            → BestOver a letters active (if t then some b else best)
        either true b h = h
        either false b h = k

    Ensures-choose_allowed :
        (pairs : List (ℕ × ℕ)) (best : Option Best)
        → InPairs a.state_count pairs
        → BestOver a letters active best
        → Ensures (choose_allowed a active letters pairs best) (BestOver a letters active) E
    unfolding choose_allowed
    Ensures-choose_allowed [] best h k = Ensures-return best k
    Ensures-choose_allowed ((p, q) ∷ pairs) best ((hp, hq), h) k =
        Ensures-bind {P = Holds (λ w. Over letters w.actions)}
          (Ensures-mono words (λ _ z. z)
            (Ensures-optional (λ e ne z. no_word e ne z)
              (allowed_merge_word_merges a p q letters v known hp hq)))
          λ found fh.
            Ensures-bind (Ensures-weigh (pair_index a.state_count p q) found best fh k)
              λ best' k'. Ensures-choose_allowed pairs best' h k'
      where
        no_word : (e : Status) → e ≢ not_found → NoMerge a letters p q e → E e
        no_word e ne (inl (x, _)) = absurd (ne x)
        no_word e ne (inr (x, _)) = subst E (sym x) no_memory

        words :
            (o : Option Word)
            → Holds (MergesOver a letters p q) o
            → Holds (λ w. Over letters w.actions) o
        words none h = tt
        words (some w) h = h.1

    Ensures-best_merge_allowed :
        Ensures (best_merge_allowed a active letters) (BestOver a letters active) E
    unfolding best_merge_allowed
    Ensures-best_merge_allowed =
        Ensures-choose_allowed (pairs_from active a.state_count 0) none
          (pairs_from-InPairs active a.state_count a.state_count 0 (omega arith)) tt

  module _ (s : Bitset) (ms : IsBitset a.state_count s) (bound : ℕ) where
    pub Ensures-allowed_rounds :
        (left : ℕ) (active : Bitset) (result before : PlanResult)
        → result.expansions + left ≤ bound
        → MergingOver a letters s bound before (record { active = active; result = result })
        → Ensures
            (allowed_rounds a letters left active result)
            (MergingOver a letters s bound before)
            E
    unfolding allowed_rounds advance
    Ensures-allowed_rounds zero active result before fits (inv, over) =
        elim (Bool-cases (ltb 1 (count active))) [
          | inl many ↦ rw many (
              Ensures-return _ (
                record {
                  image = inv.image;
                  word_ok = inv.word_ok;
                  bounded = inv.bounded;
                  same_generation = inv.same_generation;
                },
                over,
              ))
          | inr few ↦ rw few (Ensures-return _ (inv, over))
        ]
    Ensures-allowed_rounds (suc left) active result before fits (inv, over) =
        let acts = inv.word_ok.1 in
        let valid : IsBitset a.state_count active =
          subst (IsBitset a.state_count) (sym inv.image)
            (images-IsBitset a v result.word.actions s acts ms) in
        Ensures-if (ltb 1 (count active))
          (λ _. Ensures-bind (Ensures-best_merge_allowed active valid) λ found h.
            on_found valid (λ act res. Ensures-allowed_rounds left act res before) found h)
          (λ _. Ensures-return _ (inv, over))
      where
        on_found :
            (valid : IsBitset a.state_count active)
            → ((act : Bitset) (res : PlanResult)
                → res.expansions + left ≤ bound
                → MergingOver a letters s bound before (record { active = act; result = res })
                → Ensures
                    (allowed_rounds a letters left act res)
                    (MergingOver a letters s bound before)
                    E)
            → (found : Option Best) → BestOver a letters active found
            → Ensures
                (advance found active result (allowed_rounds a letters left))
                (MergingOver a letters s bound before)
                E
        on_found valid ih none h = Ensures-return _ (inv, over)
        on_found valid ih (some b) (b_over, e) =
            Ensures-bind (Ensures-extend result.word b.word (λ _. no_memory) inv.word_ok.0)
              λ word (ew, fw).
                let all_over : Over letters word.actions = subst (Over letters) (sym ew) (
                  All-append (λ c. contains letters c ≡ true) result.word.actions b.word.actions
                    over b_over) in
                ih b.support (record result { word = word; expansions = result.expansions + 1 })
                  (omega arith)
                  (
                    record {
                      image =
                          e
                          ∙ ap (λ (x : Bitset). images a x b.word.actions) inv.image
                          ∙ sym (images-append a s result.word.actions b.word.actions)
                          ∙ ap (images a s) (sym ew);
                      word_ok = (
                        fw,
                        Actions-Over a letters word.actions (Letters-InRange a letters known)
                            all_over,
                      );
                      bounded = omega arith;
                      same_generation = inv.same_generation;
                    },
                    all_over,
                  )
