-- ===== src/Search/Frontier.antt =====
-- The search argument that both planners share: a queue whose expanded nodes have all their images in
-- the queue, none of which passes the test, leaves no word that does.
use sync_kgraph.Base.{
  ℕ, suc, ◌≤◌, ◌<◌, ◌≡◌, ◌∙◌, refl, ap, inl, inr, Bool, true, false, List, [], ◌∷◌, arith,
  Bool-cases, length, length-append, get_or-append_last,
}
use sync_kgraph.Bitset.{Bitset, empty, equal}
use sync_kgraph.Bitset.Laws.{equal_iff}
use sync_kgraph.Bitset.Members.{contains}
use sync_kgraph.Automaton.{Automaton}
use sync_kgraph.Motion.{apply_action_set}
use sync_kgraph.Motion.Image.{images, Actions}
use sync_kgraph.Plan.{Outcome, plan, already_satisfied, no_plan, resource_bound}
use sync_kgraph.Search.{Node, Search, node, no_node, search_contains}
use sync_kgraph.Search.Nodes.{Over, IsQueue, Added, node-append}

-- some node has this set
abbrev pub Present : List Node → Bitset → Type 0
Present nodes s = (j : ℕ) × (j < length nodes) × ((node nodes j).support ≡ s)

Present-cons : (n : Node) (ns : List Node) (s : Bitset) → Present ns s → Present (n ∷ ns) s
Present-cons n ns s (j, l, e) = (suc j, omega arith, e)

pub search_contains-Present :
    (nodes : List Node) (s : Bitset) → search_contains nodes s ≡ true → Present nodes s
unfolding search_contains
search_contains-Present [] s h = cc
search_contains-Present (n ∷ ns) s h = elim (Bool-cases (equal n.support s)) [
  | inl here ↦ (0, omega arith, (equal_iff n.support s).0 here)
  | inr away ↦ Present-cons n ns s (search_contains-Present ns s (ground arith))
]

-- a queue that only grew at its end
pub record Grown (s t : Search) : Type 0 where
  pub longer : length s.nodes ≤ length t.nodes
  pub same : (i : ℕ) → i < length s.nodes → node t.nodes i ≡ node s.nodes i

pub Grown-refl : (s : Search) → Grown s s
Grown-refl s = record { longer = omega arith; same = λ i _. refl }

pub Grown-trans : (s t u : Search) → Grown s t → Grown t u → Grown s u
Grown-trans s t u g h = record {
  longer = omega (arith, g.longer, h.longer);
  same = λ i l. h.same i (omega (arith, g.longer)) ∙ g.same i l;
}

pub Grown-add :
    (s t : Search) (support : Bitset) (parent action : ℕ)
    → Added s support parent action t
    → Grown s t
Grown-add s t support parent action (e, _, _) =
    let fresh =
      let n : Node = record { support = support; parent = parent; action = action } in n in
    record {
      longer = omega (arith, ap length e, length-append s.nodes (fresh ∷ []));
      same = λ i l. ap (λ (ns : List Node). node ns i) e ∙ node-append s.nodes fresh i l;
    }

pub Present-Grown : (s t : Search) (b : Bitset) → Grown s t → Present s.nodes b → Present t.nodes b
Present-Grown s t b g (j, l, e) =
    (j, omega (arith, g.longer), ap (λ (n : Node). n.support) (g.same j l) ∙ e)

pub Present-Added :
    (s t : Search) (support : Bitset) (parent action : ℕ)
    → Added s support parent action t
    → Present t.nodes support
Present-Added s t support parent action (e, _, _) =
    let fresh =
      let n : Node = record { support = support; parent = parent; action = action } in n in
    (
      length s.nodes,
      omega (arith, ap length e, length-append s.nodes (fresh ∷ [])),
      ap (λ (ns : List Node). (node ns (length s.nodes)).support) e
          ∙ ap (λ (n : Node). n.support) (get_or-append_last s.nodes fresh no_node),
    )

-- every letter is an action
abbrev pub Letters : Automaton → List ℕ → Type 0
Letters a letters = (c : ℕ) → contains letters c ≡ true → c < a.action_count

pub Actions-Over :
    (a : Automaton) (letters w : List ℕ) → Letters a letters → Over letters w → Actions a w
Actions-Over a letters [] h o = tt
Actions-Over a letters (c ∷ w) h o = (h c o.0, Actions-Over a letters w h o.1)

-- the image of a set under one letter
abbrev pub post : Automaton → Bitset → ℕ → Bitset
post a s c = apply_action_set a s c (empty a.state_count)

module _ (a : Automaton) (letters : List ℕ) (test : Bitset → Bool) where
  -- no set of the queue passes the test
  abbrev pub Untested : List Node → Type 0
  Untested nodes = (i : ℕ) → i < length nodes → test (node nodes i).support ≡ false

  -- the images of the nodes below `head` are in the queue
  abbrev pub Closed : List Node → ℕ → Type 0
  Closed nodes head =
      (i c : ℕ)
      → i < head
      → contains letters c ≡ true
      → Present nodes (post a (node nodes i).support c)

  Present-images :
      (nodes : List Node)
      → Closed nodes (length nodes)
      → (w : List ℕ) → Over letters w
      → (s : Bitset) → Present nodes s
      → Present nodes (images a s w)
  unfolding images
  Present-images nodes closed [] o s p = p
  Present-images nodes closed (c ∷ w) o s (j, l, e) =
      let next = closed j c l o.0 in Present-images nodes closed w o.1 (post a s c) (rw e at next)

  -- An exhausted queue proves that no word over the letters passes the test.
  pub exhausted :
      (initial : Bitset) (s : Search)
      → IsQueue a initial letters s
      → Untested s.nodes
      → Closed s.nodes (length s.nodes)
      → (w : List ℕ) → Over letters w
      → test (images a initial w) ≡ false
  exhausted initial s q untested closed w o =
      let (j, l, e) = Present-images s.nodes closed w o initial (0, q.nonempty, q.first) in
      rw (← e) (untested j l)

  -- what an outcome of a search says, for a budget
  abbrev pub Verdict : Bitset → ℕ → List ℕ → ℕ → Outcome → Type 0
  Verdict initial budget word expansions plan =
      Over letters word × (test (images a initial word) ≡ true)
  Verdict initial budget word expansions no_plan =
      (w : List ℕ) → Over letters w → test (images a initial w) ≡ false
  Verdict initial budget word expansions resource_bound = budget ≤ expansions
  Verdict initial budget word expansions already_satisfied = ⊥
