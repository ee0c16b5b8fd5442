-- ===== src/Goal/Rounds.antt =====
-- The search of sg_plan_goal: a node found lies in the goals, and an exhausted queue proves that no word
-- over the letters leads there.
use sync_kgraph.Base.{
  ℕ, zero, suc, ◌+◌, ◌*◌, ◌≤◌, ◌<◌, ◌≡◌, ◌∙◌, refl, sym, ap, subst, inl, inr, Bool, true, false,
  List, [], ◌∷◌, arith, ltb, ltb→lt, ◌==◌, Bool-cases, length, length-append, get_or-append_last,
  ◌⊎◌, Option, none, some, index_none, size_mod, Status, alloc, M, Ensures, Ensures-return,
  Ensures-bind, Ensures-if, Ensures-mono,
}
use sync_kgraph.Bitset.{Bitset, subset}
use sync_kgraph.Bitset.Laws.{IsBitset}
use sync_kgraph.Bitset.Members.{contains, Ensures-init}
use sync_kgraph.Automaton.{Automaton}
use sync_kgraph.Automaton.Laws.{IsValid}
use sync_kgraph.Motion.Image.{images}
use sync_kgraph.Plan.{PlanResult, resource_bound}
use sync_kgraph.Search.{Node, Search, node, no_node, search_contains}
use sync_kgraph.Search.Nodes.{
  Over, IsQueue, IsQueue-add, IsQueue-root, Added, Ensures-belief_search_add,
}
use sync_kgraph.Search.Frontier.{
  Present, search_contains-Present, Grown, Grown-refl, Grown-trans, Grown-add, Present-Grown,
  Present-Added, Letters, post, Untested, Closed, exhausted,
}
use sync_kgraph.Search.Subset.{Untested-add}
use sync_kgraph.Goal.{Expansion, Ended, goal_letters, leave, goal_rounds}

module _ (a : Automaton) (v : IsValid a) (letters : List ℕ) (ok' : Letters a letters)
    (initial : Bitset) (m : IsBitset a.state_count initial) (goals : Bitset) where
  -- the test of this search
  abbrev pub inside : Bitset → Bool
  inside s = subset s goals

  -- what the loop over the letters ends with, when it has found nothing
  record Continues (s : Search) (p : ℕ) (rest : List ℕ) (t : Search) : Type 0 where
    queue : IsQueue a initial letters t
    grown : Grown s t
    untested : Untested a letters inside t.nodes
    covered : (c : ℕ) → contains rest c ≡ true → Present t.nodes (post a (node s.nodes p).support c)

  -- a node of the queue lies in the goals
  abbrev pub Hit : Search → ℕ → Type 0
  Hit t i =
      IsQueue a initial letters t × (i < length t.nodes) × (inside (node t.nodes i).support ≡ true)

  abbrev Letter : Search → ℕ → List ℕ → Search → Option ℕ → Type 0
  Letter s p rest t none = Continues s p rest t
  Letter s p rest t (some i) = Hit t i

  Letter-cons :
      (s u : Search) (p c : ℕ) (rest : List ℕ) (t : Search) (h : Option ℕ)
      → p < length s.nodes
      → Grown s u
      → Present u.nodes (post a (node s.nodes p).support c)
      → Letter u p rest t h
      → Letter s p (c ∷ rest) t h
  Letter-cons s u p c rest t (some i) l g here r = r
  Letter-cons s u p c rest t none l g here r = record {
    queue = r.queue;
    grown = Grown-trans s u t g r.grown;
    untested = r.untested;
    covered = λ k h. elim (Bool-cases (k == c)) [
      | inl same ↦
          let k_is : k ≡ c = ground arith in
          rw k_is (Present-Grown u t (post a (node s.nodes p).support c) r.grown here)
      | inr other ↦
          let now = r.covered k (ground arith) in
          subst (λ (x : Node). Present t.nodes (post a x.support k)) (g.same p l) now
    ];
  }

  -- the invariant of the `while` loop
  pub record GoalSearch (s : Search) (head : ℕ) : Type 0 where
    pub queue : IsQueue a initial letters s
    pub untested : Untested a letters inside s.nodes
    pub within : head ≤ length s.nodes
    pub closed : Closed a letters inside s.nodes head

  -- how the loop ends: a node was found, the budget is spent, or no word leads into the goals
  abbrev pub Found : ℕ → PlanResult → Search → PlanResult → Option ℕ → Type 0
  Found left before t after (some i) = Hit t i
  Found left before t after none =
      ((after.outcome ≡ resource_bound) × (after.expansions ≡ before.expansions + left))
      ⊎ ((after.outcome ≡ before.outcome)
          × ((w : List ℕ) → Over letters w → inside (images a initial w) ≡ false))

  pub record Rounds (left limit : ℕ) (before : PlanResult) (e : Ended) : Type 0 where
    pub found : Found left before e.search e.result e.found
    pub bounded : e.result.expansions ≤ before.expansions + left
    pub same_word : e.result.word ≡ before.word
    pub same_generation : e.result.generation ≡ before.generation
    pub few : length e.search.nodes ≤ limit

  none_leads :
      (s : Search) (head : ℕ)
      → GoalSearch s head
      → ltb head (length s.nodes) ≡ false
      → (w : List ℕ) → Over letters w
      → inside (images a initial w) ≡ false
  none_leads s head inv done =
      let within = inv.within in
      let at_end : head ≡ length s.nodes = ground arith in
      exhausted a letters inside initial s inv.queue inv.untested
        (subst (Closed a letters inside s.nodes) at_end inv.closed)

  -- a round without a find leaves the invariant for the next head
  GoalSearch-next :
      (s t : Search) (head : ℕ)
      → GoalSearch s head
      → head < length s.nodes
      → Continues s head letters t
      → GoalSearch t (head + 1)
  GoalSearch-next s t head inv here c = record {
    queue = c.queue;
    untested = c.untested;
    within = omega (arith, c.grown.longer);
    closed = λ i k l hk. elim (Bool-cases (ltb i head)) [
      | inl older ↦
          let below = ltb→lt i head older in
          subst (λ (x : Node). Present t.nodes (post a x.support k))
            (sym (c.grown.same i (omega arith)))
            (Present-Grown s t _ c.grown (inv.closed i k below hk))
      | inr this ↦
          let at_head : i ≡ head = ground arith in
          rw at_head (
            subst (λ (x : Node). Present t.nodes (post a x.support k))
              (sym (c.grown.same head here)) (c.covered k hk))
    ];
  }

  Rounds-later :
      (left limit : ℕ) (before : PlanResult) (e : Ended)
      → Rounds left limit (record before { expansions = before.expansions + 1 }) e
      → Rounds (suc left) limit before e
  Rounds-later left limit before e r = record {
    found = later e.found r.found;
    bounded = omega (arith, r.bounded);
    same_word = r.same_word;
    same_generation = r.same_generation;
    few = r.few;
  }
    where
      later :
          (h : Option ℕ)
          → Found left (record before { expansions = before.expansions + 1 }) e.search e.result h
          → Found (suc left) before e.search e.result h
      later (some i) f = f
      later none (inl (o, x)) = inl (o, omega arith)
      later none (inr f) = inr f

  -- the node that was added last
  newest :
      (s t : Search) (support : Bitset) (p c : ℕ)
      → Added s support p c t
      → (length t.nodes ≡ suc (length s.nodes))
        × ((node t.nodes (length s.nodes)).support ≡ support)
  newest s t support p c (e, _, _) =
      let fresh = let x : Node = record { support = support; parent = p; action = c } in x in
      (
        omega (arith, ap length e, length-append s.nodes (fresh ∷ [])),
        ap (λ (ns : List Node). (node ns (length s.nodes)).support) e
            ∙ ap (λ (x : Node). x.support) (get_or-append_last s.nodes fresh no_node),
      )

  module _ {E : Status → Type 0} (limit : ℕ) (allow : size_mod ≤ 80 * limit → E alloc) where
    Ensures-goal_letters :
        (p : ℕ) (rest : List ℕ) (s : Search)
        → IsQueue a initial letters s
        → Untested a letters inside s.nodes
        → p < length s.nodes
        → Over letters rest
        → length s.nodes + length rest ≤ limit
        → Ensures
            (goal_letters a goals p rest s)
            (λ e.
              Letter s p rest e.search e.found
              × (length e.search.nodes ≤ length s.nodes + length rest))
            E
    unfolding goal_letters
    Ensures-goal_letters p [] s q u l o fit =
        Ensures-return _ (
          record { queue = q; grown = Grown-refl s; untested = u; covered = λ c h. cc },
          omega arith,
        )
    Ensures-goal_letters p (c ∷ rest) s q u l o fit =
        Ensures-bind
          (Ensures-init a.state_count E (λ z. absurd (let x = v.states_pos in omega arith))
            v.states_small)
          λ blank e. rw e (
            Ensures-if (search_contains s.nodes (post a (node s.nodes p).support c))
              (λ known.
                Ensures-mono
                  (λ x (r, few). (
                    Letter-cons s s p c rest x.search x.found l (Grown-refl s)
                        (search_contains-Present s.nodes _ known) r,
                    omega arith,
                  ))
                  (λ _ z. z) (Ensures-goal_letters p rest s q u l o.1 (omega arith)))
              (λ new.
                Ensures-bind
                  (Ensures-belief_search_add s (post a (node s.nodes p).support c) p c
                    (λ large. allow (omega arith)) q.room q.small)
                  λ t added.
                    let (size, last) = newest s t _ p c added in
                    let queue =
                      IsQueue-add a initial letters s t p c q l o.0 added.0 added.1 added.2 in
                    let g = Grown-add s t _ p c added in
                    Ensures-if (subset (node t.nodes (length s.nodes)).support goals)
                      (λ hit. Ensures-return _ ((queue, omega arith, hit), omega arith))
                      (λ miss.
                        Ensures-mono
                          (λ x (r, few). (
                            Letter-cons s t p c rest x.search x.found l g
                                (Present-Added s t (post a (node s.nodes p).support c) p c added) r,
                            omega arith,
                          ))
                          (λ _ z. z)
                          (Ensures-goal_letters p rest t queue
                            (Untested-add a v letters ok' initial m inside s t _ p c u
                              (ap inside (sym last) ∙ miss) added)
                            (omega (arith, g.longer)) o.1 (omega arith)))))

    Ensures-leave :
        (left : ℕ) (s : Search) (head : ℕ) (before : PlanResult) (x : Expansion) (go_on : M Ended)
        → GoalSearch s head
        → head < length s.nodes
        → length x.search.nodes ≤ limit
        → (GoalSearch x.search (head + 1)
            → Ensures go_on
                (Rounds left limit (record before { expansions = before.expansions + 1 }))
                E)
        → (h : Option ℕ) → Letter s head letters x.search h
        → Ensures
            (leave
              (record { search = x.search; found = h })
              (record before { expansions = before.expansions + 1 })
              go_on)
            (Rounds (suc left) limit before)
            E
    unfolding leave
    Ensures-leave left s head before x go_on inv here few ih (some i) hit =
        Ensures-return _ (record {
          found = hit;
          bounded = omega arith;
          same_word = refl;
          same_generation = refl;
          few = few;
        })
    Ensures-leave left s head before x go_on inv here few ih none c =
        Ensures-mono (λ e r. Rounds-later left limit before e r) (λ _ z. z)
          (ih (GoalSearch-next s x.search head inv here c))

    pub Ensures-goal_rounds :
        (left : ℕ) (s : Search) (head : ℕ) (before : PlanResult)
        → Over letters letters
        → GoalSearch s head
        → length s.nodes + left * length letters ≤ limit
        → Ensures (goal_rounds a goals letters left s head before) (Rounds left limit before) E
    unfolding goal_rounds
    Ensures-goal_rounds zero s head before all inv fit =
        elim (Bool-cases (ltb head (length s.nodes))) [
          | inl more ↦ rw more (
              Ensures-return _ (record {
                found = inl (refl, omega arith);
                bounded = omega arith;
                same_word = refl;
                same_generation = refl;
                few = omega arith;
              }))
          | inr done ↦ rw done (
              Ensures-return _ (record {
                found = inr (refl, none_leads s head inv done);
                bounded = omega arith;
                same_word = refl;
                same_generation = refl;
                few = omega arith;
              }))
        ]
    Ensures-goal_rounds (suc left) s head before all inv fit =
        Ensures-if (ltb head (length s.nodes))
          (λ more.
            let here = ltb→lt head (length s.nodes) more in
            Ensures-bind
              (Ensures-goal_letters head letters s inv.queue inv.untested here all (omega arith))
              λ x (r, few).
                Ensures-leave left s head before x
                  (goal_rounds a goals letters left x.search (head + 1)
                    (record before { expansions = before.expansions + 1 }))
                  inv here (omega arith)
                  (λ inv'.
                    Ensures-goal_rounds left x.search (head + 1)
                      (record before { expansions = before.expansions + 1 }) all inv' (omega arith))
                  x.found r)
          (λ done. Ensures-return _ (record {
            found = inr (refl, none_leads s head inv done);
            bounded = omega arith;
            same_word = refl;
            same_generation = refl;
            few = omega arith;
          }))

  -- the queue of the root alone, which is not inside the goals
  pub GoalSearch-root :
      (s : Search)
      → Added (record { nodes = []; capacity = 0 }) initial index_none index_none s
      → inside initial ≡ false
      → GoalSearch s 0
  GoalSearch-root s (e, room, small) miss = record {
    queue = IsQueue-root a initial letters s e room small;
    untested = λ i l. rw e (only i (omega (arith, l, ap length e)));
    within = omega arith;
    closed = λ i c l _. absurd (omega arith);
  }
    where
      only :
          (i : ℕ)
          → i < 1
          → inside
              (node
                (record { support = initial; parent = index_none; action = index_none } ∷ [])
                i).support
            ≡ false
      only zero l = miss
      only (suc i) l = absurd (omega arith)
