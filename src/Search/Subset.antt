-- ===== src/Search/Subset.antt =====
-- sg_subset_bfs: a plan's word leads the initial set to a singleton, and an exhausted frontier proves
-- that no word over the letters does.
use sync_kgraph.Base.{
  ℕ, ◌*◌, size_mod, zero, suc, ◌+◌, ◌≤◌, ◌<◌, ◌≡◌, ◌∙◌, refl, sym, ap, subst, ◌≢◌, inl, inr, Bool,
  true, false, List, [], ◌∷◌, ◌++◌, Option, none, some, arith, ltb, ltb→lt, ◌==◌, Bool-cases,
  length, length-append, get_or-append_last, All-append, index_none, M, Status, alloc, Ensures,
  Ensures-return, Ensures-bind, Ensures-if, Ensures-mono,
}
use sync_kgraph.Bitset.{Bitset, count}
use sync_kgraph.Bitset.Laws.{IsBitset}
use sync_kgraph.Bitset.Members.{contains}
use sync_kgraph.Automaton.{Automaton}
use sync_kgraph.Automaton.Laws.{IsValid}
use sync_kgraph.Word.{Word, empty_word}
use sync_kgraph.Motion.{apply_action_set}
use sync_kgraph.Motion.Image.{
  images, images-IsBitset, images-append, images-one, apply_action_set-IsBitset,
  apply_action_set-fresh,
}
use sync_kgraph.Plan.{PlanResult, plan, subset_bfs}
use sync_kgraph.Search.{
  Node, Search, Expanded, node, no_node, search_contains, subset_letters, subset_rounds, settle,
}
use sync_kgraph.Search.Nodes.{
  Over, Explained, IsQueue, IsQueue-add, IsQueue-root, Added, Ensures-subset_search_add,
  Ensures-subset_reconstruct, node-append,
}
use sync_kgraph.Search.Frontier.{
  Present, search_contains-Present, Grown, Grown-refl, Grown-trans, Grown-add, Present-Grown,
  Present-Added, Letters, Actions-Over, post, Untested, Closed, exhausted, Verdict,
}

-- the test of this search: sg_bitset_count(&next) == 1U
abbrev pub is_singleton : Bitset → Bool
is_singleton s = count s == 1

module _ (a : Automaton) (v : IsValid a) (letters : List ℕ) (ok' : Letters a letters)
    (initial : Bitset) (m : IsBitset a.state_count initial) where
  abbrev n : ℕ
  n = a.state_count

  pub support-IsBitset :
      (s : Search) (i : ℕ)
      → IsQueue a initial letters s
      → i < length s.nodes
      → IsBitset n (node s.nodes i).support
  support-IsBitset s i q l =
      let x = q.explained i l in
      let h = images-IsBitset a v x.word initial (Actions-Over a letters x.word ok' x.over) m in
      rw x.image h

  -- a set that does not pass keeps the queue untested
  pub Untested-add :
      (test : Bitset → Bool) (s t : Search) (support : Bitset) (parent action : ℕ)
      → Untested a letters test s.nodes
      → test support ≡ false
      → Added s support parent action t
      → Untested a letters test t.nodes
  Untested-add test s t support parent action u f (e, _, _) i l =
      elim (Bool-cases (ltb i (length s.nodes))) [
        | inl older ↦
            let below = ltb→lt i (length s.nodes) older in
            let same = ap (λ (ns : List Node). node ns i) e ∙ node-append s.nodes fresh i below in
            ap (λ (k : Node). test k.support) same ∙ u i below
        | inr last ↦
            let at_end : i ≡ length s.nodes =
              let l' = l in
              let le = ap length e in let la = length-append s.nodes (fresh ∷ []) in ground arith in
            let same =
              ap (λ (ns : List Node). node ns i) e
              ∙ ap (λ (k : ℕ). node (s.nodes ++ (fresh ∷ [])) k) at_end
              ∙ get_or-append_last s.nodes fresh no_node in
            ap (λ (k : Node). test k.support) same ∙ f
      ]
    where
      fresh : Node
      fresh = record { support = support; parent = parent; action = action }

  one_more :
      (s t : Search) (support : Bitset) (parent action : ℕ)
      → Added s support parent action t
      → length t.nodes ≡ suc (length s.nodes)
  one_more s t support parent action (e, _, _) =
      let fresh =
        let x : Node = record { support = support; parent = parent; action = action } in x in
      omega (arith, ap length e, length-append s.nodes (fresh ∷ []))

  -- what the loop over the letters ends with
  record Continues (s : Search) (p : ℕ) (rest : List ℕ) (e : Expanded) : Type 0 where
    queue : IsQueue a initial letters e.search
    grown : Grown s e.search
    untested : Untested a letters is_singleton e.search.nodes
    buffer : IsBitset n e.next
    few : length e.search.nodes ≤ length s.nodes + length rest
    covered :
        (c : ℕ)
        → contains rest c ≡ true
        → Present e.search.nodes (post a (node s.nodes p).support c)

  abbrev Reaches : Word → Type 0
  Reaches w = Over letters w.actions × (is_singleton (images a initial w.actions) ≡ true)

  abbrev Letter : Search → ℕ → List ℕ → Expanded → Option Word → Type 0
  Letter s p rest e none = Continues s p rest e
  Letter s p rest e (some w) = Reaches w

  -- one letter more is covered, by a set that the queue has
  Letter-cons :
      (s t : Search) (p c : ℕ) (rest : List ℕ) (e : Expanded) (h : Option Word)
      → p < length s.nodes
      → length t.nodes ≤ suc (length s.nodes)
      → Grown s t
      → Present t.nodes (post a (node s.nodes p).support c)
      → Letter t p rest e h
      → Letter s p (c ∷ rest) e h
  Letter-cons s t p c rest e (some w) l one g here r = r
  Letter-cons s t p c rest e none l one g here r = record {
    queue = r.queue;
    grown = Grown-trans s t e.search g r.grown;
    untested = r.untested;
    buffer = r.buffer;
    few = omega (arith, r.few);
    covered = λ k h. elim (Bool-cases (k == c)) [
      | inl same ↦
          let k_is : k ≡ c = ground arith in
          rw k_is (Present-Grown t e.search (post a (node s.nodes p).support c) r.grown here)
      | inr other ↦
          let now = r.covered k (ground arith) in
          subst (λ (x : Node). Present e.search.nodes (post a x.support k)) (g.same p l) now
    ];
  }

  -- the word to the parent and one letter more leads to the image
  images_snoc :
      (s : Search) (p c : ℕ) (x : Explained a initial letters s.nodes p)
      → images a initial (x.word ++ (c ∷ [])) ≡ post a (node s.nodes p).support c
  images_snoc s p c x =
      images-append a initial x.word (c ∷ [])
      ∙ images-one a (images a initial x.word) c
      ∙ ap (λ (b : Bitset). post a b c) (sym x.image)

  -- the invariant of the `while` loop
  pub record Searching (s : Search) (next : Bitset) (head : ℕ) : Type 0 where
    pub queue : IsQueue a initial letters s
    pub untested : Untested a letters is_singleton s.nodes
    pub buffer : IsBitset n next
    pub within : head ≤ length s.nodes
    pub closed : Closed a letters is_singleton s.nodes head

  -- what the search tells for the budget
  abbrev pub SearchedFrom : ℕ → PlanResult → PlanResult → Type 0
  SearchedFrom left before after =
      Verdict a letters is_singleton initial (before.expansions + left) after.word.actions
        after.expansions after.outcome
      × (after.expansions ≤ before.expansions + left)
      × (after.generation ≡ before.generation)
      × ((after.outcome ≡ plan → after.method ≡ subset_bfs)
          × (after.outcome ≢ plan → (after.word ≡ before.word) × (after.method ≡ before.method)))

  exhausted_queue :
      (s : Search) (next : Bitset) (head : ℕ)
      → Searching s next head
      → ltb head (length s.nodes) ≡ false
      → (w : List ℕ) → Over letters w
      → is_singleton (images a initial w) ≡ false
  exhausted_queue s next head inv done =
      let within = inv.within in
      let at_end : head ≡ length s.nodes = ground arith in
      exhausted a letters is_singleton initial s inv.queue inv.untested
        (subst (Closed a letters is_singleton s.nodes) at_end inv.closed)

  pub Searching-start :
      (s : Search) (next : Bitset)
      → Added (record { nodes = []; capacity = 0 }) initial index_none index_none s
      → is_singleton initial ≡ false
      → IsBitset n next
      → Searching s next 0
  Searching-start s next (e, room, small) many b = record {
    queue = IsQueue-root a initial letters s e room small;
    untested = λ i l. rw e (only i (omega (arith, l, ap length e)));
    buffer = b;
    within = omega arith;
    closed = λ i c l _. absurd (omega arith);
  }
    where
      only :
          (i : ℕ)
          → i < 1
          → is_singleton
              (node
                (record { support = initial; parent = index_none; action = index_none } ∷ [])
                i).support
            ≡ false
      only zero l = many
      only (suc i) l = absurd (omega arith)

  -- the queue stays below `limit`, so only a limit that does not fit can make an array too large
  module _ {E : Status → Type 0} (limit : ℕ) (allow : size_mod ≤ 80 * limit → E alloc) where
    Ensures-subset_letters :
        (p : ℕ) (rest : List ℕ) (s : Search) (next : Bitset)
        → IsQueue a initial letters s
        → Untested a letters is_singleton s.nodes
        → IsBitset n next
        → p < length s.nodes
        → Over letters rest
        → length s.nodes + length rest ≤ limit
        → Ensures (subset_letters a empty_word p rest s next) (λ e. Letter s p rest e e.hit) E
    unfolding subset_letters
    Ensures-subset_letters p [] s next q u b l o fit = Ensures-return _ (record {
      queue = q;
      grown = Grown-refl s;
      untested = u;
      buffer = b;
      few = omega arith;
      covered = λ c h. cc;
    })
    Ensures-subset_letters p (c ∷ rest) s next q u b l o fit =
        let here = support-IsBitset s p q l in
        let hc = ok' c o.0 in
        let valid = apply_action_set-IsBitset a v (node s.nodes p).support c hc here next b in
        let fresh = apply_action_set-fresh a v (node s.nodes p).support c hc here next b in
        Ensures-if (count (apply_action_set a (node s.nodes p).support c next) == 1)
          (λ single.
            Ensures-bind
              (Ensures-subset_reconstruct a initial letters s p c (λ large. allow (omega arith))
                (q.explained p l) l)
              λ w e. Ensures-return _ (
                rw e (
                    All-append (λ k. contains letters k ≡ true) (q.explained p l).word (c ∷ [])
                      (q.explained p l).over (o.0, tt)),
                ap (λ (k : List ℕ). is_singleton (images a initial k)) e
                    ∙ ap is_singleton (images_snoc s p c (q.explained p l) ∙ sym fresh)
                    ∙ single,
              ))
          (λ many.
            Ensures-if
              (search_contains s.nodes (apply_action_set a (node s.nodes p).support c next))
              (λ known.
                Ensures-mono
                  (λ e r.
                    Letter-cons s s p c rest e e.hit l (omega arith) (Grown-refl s)
                      (subst (λ b. Present s.nodes b) fresh
                        (search_contains-Present s.nodes _ known))
                      r)
                  (λ _ z. z)
                  (Ensures-subset_letters p rest s
                    (apply_action_set a (node s.nodes p).support c next) q u valid l o.1
                    (omega arith)))
              (λ new.
                Ensures-bind
                  (Ensures-subset_search_add s (apply_action_set a (node s.nodes p).support c next)
                    p c (λ large. allow (omega arith)) q.room q.small n v.states_pos valid)
                  λ t added.
                    let as_post = subst (λ b. Added s b p c t) fresh added in
                    let g = Grown-add s t _ p c added in
                    let size = one_more s t _ p c added in
                    Ensures-mono
                      (λ e r.
                        Letter-cons s t p c rest e e.hit l (omega arith) g
                          (Present-Added s t (post a (node s.nodes p).support c) p c as_post) r)
                      (λ _ z. z)
                      (Ensures-subset_letters p rest t
                        (apply_action_set a (node s.nodes p).support c next)
                        (IsQueue-add a initial letters s t p c q l o.0 as_post.0 as_post.1
                          as_post.2)
                        (Untested-add is_singleton s t _ p c u many added) valid
                        (omega (arith, g.longer)) o.1 (omega arith))))

    -- a round: its letters end the search, or leave the invariant for the next head
    Ensures-settle :
        (left : ℕ) (s : Search) (next : Bitset) (head : ℕ) (result : PlanResult) (e : Expanded)
        → result.word ≡ empty_word
        → Searching s next head
        → head < length s.nodes
        → (go_on : M PlanResult)
        → (Searching e.search e.next (head + 1)
            → length e.search.nodes ≤ length s.nodes + length letters
            → Ensures go_on
                (SearchedFrom left (record result { expansions = result.expansions + 1 }))
                E)
        → (h : Option Word) → Letter s head letters e h
        → Ensures
            (settle h (record result { expansions = result.expansions + 1 }) go_on)
            (SearchedFrom (suc left) result)
            E
    unfolding settle
    Ensures-settle left s next head result e blank inv here go_on ih (some w) found =
        Ensures-return _ (found, omega arith, refl, ((λ _. refl), (λ no. absurd (no refl))))
    Ensures-settle left s next head result e blank inv here go_on ih none c =
        Ensures-mono (λ after r. stepped after r) (λ _ z. z)
          (ih
            (record {
              queue = c.queue;
              untested = c.untested;
              buffer = c.buffer;
              within = omega (arith, c.grown.longer);
              closed = λ i k l hk. elim (Bool-cases (ltb i head)) [
                | inl older ↦
                    let below = ltb→lt i head older in
                    subst (λ (x : Node). Present e.search.nodes (post a x.support k))
                      (sym (c.grown.same i (omega arith)))
                      (Present-Grown s e.search _ c.grown (inv.closed i k below hk))
                | inr this ↦
                    let at_head : i ≡ head = ground arith in
                    rw at_head (
                      subst (λ (x : Node). Present e.search.nodes (post a x.support k))
                        (sym (c.grown.same head here)) (c.covered k hk))
              ];
            })
            c.few)
      where
        stepped :
            (after : PlanResult)
            → SearchedFrom left (record result { expansions = result.expansions + 1 }) after
            → SearchedFrom (suc left) result after
        stepped after (verdict, bound, g, rest) =
            let e' : result.expansions + 1 + left ≡ result.expansions + suc left = omega arith in
            (
              subst
                  (λ b.
                    Verdict a letters is_singleton initial b after.word.actions after.expansions
                      after.outcome)
                  e' verdict,
              omega arith,
              g,
              rest,
            )

    pub Ensures-subset_rounds :
        (left : ℕ) (s : Search) (next : Bitset) (head : ℕ) (result : PlanResult)
        → Over letters letters
        → result.word ≡ empty_word
        → Searching s next head
        → length s.nodes + left * length letters ≤ limit
        → Ensures (subset_rounds a letters left s next head result) (SearchedFrom left result) E
    unfolding subset_rounds
    Ensures-subset_rounds zero s next head result all blank inv fit =
        elim (Bool-cases (ltb head (length s.nodes))) [
          | inl more ↦
              rw more (
                Ensures-return _ (omega arith, omega arith, refl, ((λ e. cc), (λ _. (refl, refl)))))
          | inr done ↦ rw done (
              Ensures-return _ (
                exhausted_queue s next head inv done,
                omega arith,
                refl,
                ((λ e. cc), (λ _. (refl, refl))),
              ))
        ]
    Ensures-subset_rounds (suc left) s next head result all blank inv fit =
        Ensures-if (ltb head (length s.nodes))
          (λ more.
            let here = ltb→lt head (length s.nodes) more in
            Ensures-bind
              (rw blank (
                Ensures-subset_letters head letters s next inv.queue inv.untested inv.buffer here
                  all (omega arith)))
              λ e r.
                Ensures-settle left s next head result e blank inv here
                  (subset_rounds a letters left e.search e.next (head + 1)
                    (record result { expansions = result.expansions + 1 }))
                  (λ inv' few.
                    Ensures-subset_rounds left e.search e.next (head + 1)
                      (record result { expansions = result.expansions + 1 }) all blank inv'
                      (omega arith))
                  e.hit r)
          (λ done. Ensures-return _ (
            exhausted_queue s next head inv done,
            omega arith,
            refl,
            ((λ e. cc), (λ _. (refl, refl))),
          ))
