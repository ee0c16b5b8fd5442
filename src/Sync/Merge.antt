-- ===== src/Sync/Merge.antt =====
-- The greedy merging: whatever the record source answers, the set kept is the image of the initial set
-- under the word kept, and every witness is a word of actions.
use sync_kgraph.Base.{
  ℕ, zero, suc, ◌+◌, ◌-◌, ◌≤◌, ◌<◌, ◌≡◌, ◌∙◌, sym, ap, subst, inl, inr, Bool, true, false, List, [],
  ◌∷◌, arith, ltb, Bool-cases, if◌then◌else◌, length, Option, none, some, All, All-append, Status,
  alloc, Ensures, Ensures-return, Ensures-bind, Ensures-if, Ensures-request_all, Ensures-size_bytes,
}
use sync_kgraph.Bitset.{Bitset, has, count}
use sync_kgraph.Bitset.Laws.{IsBitset}
use sync_kgraph.Automaton.{Automaton}
use sync_kgraph.Automaton.Laws.{IsValid}
use sync_kgraph.Word.{Ensures-extend}
use sync_kgraph.Motion.Image.{images, images-append, images-IsBitset, Actions}
use sync_kgraph.Motion.Apply.{Ensures-apply_word_set}
use sync_kgraph.Plan.{PlanResult}
use sync_kgraph.Sync.{
  Reader, merge, Candidate, pair_index, pair_words_load, pairs_from, Best, beats, choose,
  best_merge, pairs_with, Merged, advance, merge_rounds,
}
use sync_kgraph.Sync.Load.{WordOk, CandidateOk}

-- pairs of states
abbrev pub InPairs : ℕ → List (ℕ × ℕ) → Type 0
InPairs n pairs = All (λ (p : ℕ × ℕ). (p.0 < n) × (p.1 < n)) pairs

pairs_with-InPairs :
    (s : Bitset) (n first left second : ℕ)
    → first < n
    → second + left ≤ n
    → InPairs n (pairs_with s first left second)
unfolding pairs_with
pairs_with-InPairs s n first zero second h k = tt
pairs_with-InPairs s n first (suc left) second h k =
    let rest = pairs_with-InPairs s n first left (second + 1) h (omega arith) in
    elim (Bool-cases (has s second)) [
      | inl member ↦ rw member ((h, omega arith), rest)
      | inr absent ↦ rw absent rest
    ]

pub pairs_from-InPairs :
    (s : Bitset) (n left first : ℕ) → first + left ≤ n → InPairs n (pairs_from s left first)
unfolding pairs_from
pairs_from-InPairs s n zero first k = tt
pairs_from-InPairs s n (suc left) first k =
    let rest = pairs_from-InPairs s n left (first + 1) (omega arith) in
    let own = pairs_with-InPairs s n first left (first + 1) (omega arith) (omega arith) in
    elim (Bool-cases (has s first)) [
      | inl member ↦ rw member (
          All-append (λ (p : ℕ × ℕ). (p.0 < n) × (p.1 < n)) (pairs_with s first left (first + 1))
            (pairs_from s left (first + 1)) own rest)
      | inr absent ↦ rw absent rest
    ]

-- what the greedy loop keeps, for an initial set
pub record Merging (a : Automaton) (s : Bitset) (bound : ℕ) (before : PlanResult) (m : Merged)
    : Type 0 where
  pub image : m.active ≡ images a s m.result.word.actions
  pub word_ok : WordOk a m.result.word
  pub bounded : m.result.expansions ≤ bound
  pub same_generation : m.result.generation ≡ before.generation

module _ (a : Automaton) (v : IsValid a) (read : Reader) {E : Status → Type 0} (no_memory : E alloc)
    (loads : (pairs : List (ℕ × ℕ))
      → InPairs a.state_count pairs
      → Ensures (pair_words_load a read pairs merge) (All (CandidateOk a)) E) where
  module _ (active : Bitset) (m : IsBitset a.state_count active) where
    -- the support of the best candidate is the image under its word
    abbrev BestOk : Option Best → Type 0
    BestOk none = Unit
    BestOk (some b) = Actions a b.word.actions × (b.support ≡ images a active b.word.actions)

    BestOk-if :
        (t : Bool) (b : Best) (best : Option Best)
        → BestOk (some b)
        → BestOk best
        → BestOk (if t then some b else best)
    BestOk-if true b best h k = h
    BestOk-if false b best h k = k

    Ensures-choose :
        (pairs : List (ℕ × ℕ)) (cs : List Candidate) (best : Option Best)
        → All (CandidateOk a) cs
        → BestOk best
        → Ensures (choose a active pairs cs best) BestOk E
    unfolding choose
    Ensures-choose [] cs best h k = Ensures-return best k
    Ensures-choose (p ∷ pairs) [] best h k = Ensures-return best k
    Ensures-choose ((p, q) ∷ pairs) (c ∷ cs) best h k =
        Ensures-if c.available
          (λ _.
            Ensures-bind (Ensures-apply_word_set a v active c.word (λ z. absurd (z h.0.1)) m)
              λ support (acts, e). Ensures-choose pairs cs _ h.1 (
                BestOk-if
                  (beats (count support) (length c.word.actions) (pair_index a.state_count p q)
                    best)
                  (record {
                    word = c.word;
                    support = support;
                    count = count support;
                    pair = pair_index a.state_count p q;
                  })
                  best (acts, e) k))
          (λ _. Ensures-choose pairs cs best h.1 k)

    Ensures-best_merge : Ensures (best_merge a read active) BestOk E
    unfolding best_merge
    Ensures-best_merge =
        Ensures-if (ltb (count active) 2) (λ _. Ensures-return none tt)
          (λ _.
            Ensures-bind (Ensures-size_bytes (count active) (count active - 1) (λ _. no_memory))
              λ product _. Ensures-bind (Ensures-request_all 4) λ _ _.
                Ensures-bind
                  (loads (pairs_from active a.state_count 0)
                    (pairs_from-InPairs active a.state_count a.state_count 0 (omega arith)))
                  λ cs h. Ensures-choose (pairs_from active a.state_count 0) cs none h tt)

  module _ (s : Bitset) (ms : IsBitset a.state_count s) (bound : ℕ) where
    pub Ensures-merge_rounds :
        (left : ℕ) (active : Bitset) (result before : PlanResult)
        → result.expansions + left ≤ bound
        → Merging a s bound before (record { active = active; result = result })
        → Ensures (merge_rounds a read left active result) (Merging a s bound before) E
    unfolding merge_rounds advance
    Ensures-merge_rounds zero active result before fits inv =
        elim (Bool-cases (ltb 1 (count active))) [
          | inl many ↦ rw many (
              Ensures-return _ (record {
                image = inv.image;
                word_ok = inv.word_ok;
                bounded = inv.bounded;
                same_generation = inv.same_generation;
              }))
          | inr few ↦ rw few (Ensures-return _ inv)
        ]
    Ensures-merge_rounds (suc left) active result before fits inv =
        let acts = inv.word_ok.1 in
        let valid : IsBitset a.state_count active =
          subst (IsBitset a.state_count) (sym inv.image)
            (images-IsBitset a v result.word.actions s acts ms) in
        Ensures-if (ltb 1 (count active))
          (λ _.
            Ensures-bind (Ensures-best_merge active valid) λ found h.
              on_found valid (λ act res. Ensures-merge_rounds left act res before) found h)
          (λ _. Ensures-return _ inv)
      where
        on_found :
            (valid : IsBitset a.state_count active)
            → ((act : Bitset) (res : PlanResult)
                → res.expansions + left ≤ bound
                → Merging a s bound before (record { active = act; result = res })
                → Ensures (merge_rounds a read left act res) (Merging a s bound before) E)
            → (found : Option Best) → BestOk active valid found
            → Ensures
                (advance found active result (merge_rounds a read left))
                (Merging a s bound before)
                E
        on_found valid ih none h = Ensures-return _ inv
        on_found valid ih (some b) (acts, e) =
            Ensures-bind (Ensures-extend result.word b.word (λ _. no_memory) inv.word_ok.0)
              λ word (ew, fw).
                ih b.support (record result { word = word; expansions = result.expansions + 1 })
                  (omega arith)
                  (record {
                    image =
                        e
                        ∙ ap (λ (x : Bitset). images a x b.word.actions) inv.image
                        ∙ sym (images-append a s result.word.actions b.word.actions)
                        ∙ ap (images a s) (sym ew);
                    word_ok = (
                      fw,
                      subst (Actions a) (sym ew) (
                          All-append (λ x. x < a.action_count) result.word.actions b.word.actions
                            inv.word_ok.1 acts),
                    );
                    bounded = omega arith;
                    same_generation = inv.same_generation;
                  })
