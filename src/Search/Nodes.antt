-- ===== src/Search/Nodes.antt =====
-- The queue of a search: each node's set is the image of the initial set under the word that its
-- parents spell, and the reconstruction finds that word.
use mathlib.Core.List.{reverse-append, append_assoc, append-nil, reverse-reverse}
use sync_kgraph.Base.{
  ℕ, ◌+◌, zero, suc, ◌*◌, ◌≤◌, ◌<◌, ◌≡◌, ◌∙◌, refl, sym, ap, subst, ◌≢◌, inl, inr, true, List, [],
  ◌∷◌, ◌++◌, reverse, arith, ltb, ltb→lt, ◌==◌, Bool-cases, length, length-append,
  get_or-append_left, get_or-append_last, All, All-append, index_none, size_mod, Status, alloc,
  Ensures-grow, Ensures, Ensures-return, Ensures-bind, Ensures-if, Ensures-mono,
}
use sync_kgraph.Bitset.{Bitset, empty}
use sync_kgraph.Bitset.Laws.{IsBitset}
use sync_kgraph.Bitset.Members.{contains, Ensures-copy}
use sync_kgraph.Automaton.{Automaton}
use sync_kgraph.Word.{Word, Fits, empty_word, Ensures-append}
use sync_kgraph.Word.Reverse.{reverse_actions-eq-reverse}
use sync_kgraph.Motion.{apply_action_set}
use sync_kgraph.Motion.Image.{images, images-append, images-one}
use sync_kgraph.Search.{
  Node, Search, node, no_node, subset_search_add, belief_search_add, collect_actions,
  subset_reconstruct, belief_reconstruct,
}

-- the word that leads from the root to a node
pub data Leads (nodes : List Node) : ℕ → List ℕ → Type 0 where
  root : {i : ℕ} → i < length nodes → (node nodes i).parent ≡ index_none → Leads nodes i []
  step :
      {i : ℕ} {w w' : List ℕ}
      → i < length nodes
      → (node nodes i).parent < i
      → (node nodes i).parent ≢ index_none
      → Leads nodes (node nodes i).parent w
      → w' ≡ w ++ ((node nodes i).action ∷ [])
      → Leads nodes i w'

-- a parent stands before its node, so the word is no longer than the queue
pub Leads-length : (nodes : List Node) {i : ℕ} {w : List ℕ} → Leads nodes i w → length w ≤ i
Leads-length nodes (root l e) = omega arith
Leads-length nodes (step {i} {w} l below some_parent rest e) =
    omega
      (arith, Leads-length nodes rest, ap length e, length-append w ((node nodes i).action ∷ []))

pub node-append :
    (nodes : List Node) (n : Node) (i : ℕ)
    → i < length nodes
    → node (nodes ++ (n ∷ [])) i ≡ node nodes i
node-append nodes n i h = get_or-append_left nodes (n ∷ []) i no_node h

pub Leads-append :
    (nodes : List Node) (n : Node) {i : ℕ} {w : List ℕ}
    → Leads nodes i w
    → Leads (nodes ++ (n ∷ [])) i w
Leads-append nodes n (root {i} l e) =
    root (omega (arith, length-append nodes (n ∷ []))) (rw (node-append nodes n i l) e)
Leads-append nodes n (step {i} {w} l below some_parent rest e) =
    let same = node-append nodes n i l in
    let at_parent = ap (λ (x : Node). x.parent) same in
    let at_action = ap (λ (x : Node). x.action) same in
    step {w = w} (omega (arith, length-append nodes (n ∷ []))) (omega (arith, at_parent, below))
      (λ z. some_parent (sym at_parent ∙ z))
      (subst (λ k. Leads (nodes ++ (n ∷ [])) k w) (sym at_parent) (Leads-append nodes n rest))
      (e ∙ ap (λ (c : ℕ). w ++ (c ∷ [])) (sym at_action))

module _ {E : Status → Type 0} (nodes : List Node)
    (allow : size_mod ≤ 16 * length nodes → E alloc) where
  -- The walk to the root ends, and collects the word backwards.
  Ensures-collect_actions :
      (fuel i : ℕ) (w : List ℕ) (word : Word)
      → Leads nodes i w
      → i < fuel
      → length word.actions + i ≤ length nodes
      → Fits word
      → Ensures
          (collect_actions fuel nodes i word)
          (λ t. (t.actions ≡ word.actions ++ reverse w) × Fits t)
          E
  unfolding collect_actions
  Ensures-collect_actions zero i w word p h few f = absurd (omega arith)
  Ensures-collect_actions (suc fuel) i w word (root l e) h few f =
      Ensures-if ((node nodes i).parent == index_none)
        (λ _. Ensures-return word (sym (append-nil word.actions), f)) (λ no. absurd (ground arith))
  Ensures-collect_actions (suc fuel) i w word (step {w = u} l below some_parent rest e) h few f =
      Ensures-if ((node nodes i).parent == index_none)
        (λ none_left. absurd (some_parent (ground arith)))
        (λ _.
          Ensures-bind (Ensures-append word (node nodes i).action (λ large. allow (omega arith)) f)
            λ t (te, tf).
              Ensures-mono (λ z (ze, zf). (ze ∙ regroup t te, zf)) (λ _ z. z)
                (Ensures-collect_actions fuel (node nodes i).parent u t rest (omega arith)
                  (omega
                    (arith, ap length te, length-append word.actions ((node nodes i).action ∷ [])))
                  tf))
    where
      regroup :
          (t : Word)
          → t.actions ≡ word.actions ++ ((node nodes i).action ∷ [])
          → t.actions ++ reverse u ≡ word.actions ++ reverse w
      regroup t te =
          rw (te, e, reverse-append u ((node nodes i).action ∷ []))
            (append_assoc word.actions ((node nodes i).action ∷ []) (reverse u))

-- the letters of a word are among those of the search
abbrev pub Over : List ℕ → List ℕ → Type 0
Over letters w = All (λ c. contains letters c ≡ true) w

module _ (a : Automaton) (initial : Bitset) (letters : List ℕ) where
  -- a word over the letters leads to the node, and the node's set is its image
  pub record Explained (nodes : List Node) (i : ℕ) : Type 0 where
    pub word : List ℕ
    pub leads : Leads nodes i word
    pub over : Over letters word
    pub image : (node nodes i).support ≡ images a initial word

  pub record IsQueue (s : Search) : Type 0 where
    pub room : length s.nodes ≤ s.capacity
    pub small : s.capacity * 40 < size_mod
    pub nonempty : 0 < length s.nodes
    pub first : (node s.nodes 0).support ≡ initial
    pub explained : (i : ℕ) → i < length s.nodes → Explained s.nodes i

  -- A node for the image under a letter of an older node keeps the queue explained.
  pub IsQueue-add :
      (s t : Search) (p c : ℕ)
      → IsQueue s
      → p < length s.nodes
      → contains letters c ≡ true
      → t.nodes
        ≡ s.nodes
          ++ (record {
            support = apply_action_set a (node s.nodes p).support c (empty a.state_count);
            parent = p;
            action = c;
          }
              ∷ [])
      → length t.nodes ≤ t.capacity
      → t.capacity * 40 < size_mod
      → IsQueue t
  IsQueue-add s t p c q hp hc e room small = record {
    room = room;
    small = small;
    nonempty = omega (arith, ap length e, length-append s.nodes (fresh ∷ []));
    first = rw (e, node-append s.nodes fresh 0 q.nonempty) q.first;
    explained =
        λ i l. rw e (at i (omega (arith, l, ap length e, length-append s.nodes (fresh ∷ []))));
  }
    where
      fresh : Node
      fresh = record {
        support = apply_action_set a (node s.nodes p).support c (empty a.state_count);
        parent = p;
        action = c;
      }

      old : Explained s.nodes p
      old = q.explained p hp

      new_node : node (s.nodes ++ (fresh ∷ [])) (length s.nodes) ≡ fresh
      new_node = get_or-append_last s.nodes fresh no_node

      newest : Explained (s.nodes ++ (fresh ∷ [])) (length s.nodes)
      newest = record {
        word = old.word ++ (c ∷ []);
        leads =
            step {w = old.word} (omega (arith, length-append s.nodes (fresh ∷ [])))
              (omega (arith, ap (λ (x : Node). x.parent) new_node, hp))
              (let r = q.room in
                let sm = q.small in omega (arith, ap (λ (x : Node). x.parent) new_node))
              (subst (λ k. Leads (s.nodes ++ (fresh ∷ [])) k old.word)
                (sym (ap (λ (x : Node). x.parent) new_node)) (Leads-append s.nodes fresh old.leads))
              (ap (λ (k : ℕ). old.word ++ (k ∷ [])) (sym (ap (λ (x : Node). x.action) new_node)));
        over = All-append (λ k. contains letters k ≡ true) old.word (c ∷ []) old.over (hc, tt);
        image =
            ap (λ (x : Node). x.support) new_node
            ∙ ap (λ (b : Bitset). apply_action_set a b c (empty a.state_count)) old.image
            ∙ sym (
                images-append a initial old.word (c ∷ [])
                ∙ images-one a (images a initial old.word) c);
      }

      at : (i : ℕ) → i < suc (length s.nodes) → Explained (s.nodes ++ (fresh ∷ [])) i
      at i l = elim (Bool-cases (ltb i (length s.nodes))) [
        | inl older ↦
            let below = ltb→lt i (length s.nodes) older in
            let x = q.explained i below in
            record {
              word = x.word;
              leads = Leads-append s.nodes fresh x.leads;
              over = x.over;
              image = ap (λ (n : Node). n.support) (node-append s.nodes fresh i below) ∙ x.image;
            }
        | inr last ↦ let e' : i ≡ length s.nodes = ground arith in rw e' newest
      ]

  -- The queue of the root alone.
  pub IsQueue-root :
      (t : Search)
      → t.nodes ≡ record { support = initial; parent = index_none; action = index_none } ∷ []
      → length t.nodes ≤ t.capacity
      → t.capacity * 40 < size_mod
      → IsQueue t
  unfolding images
  IsQueue-root t e room small = record {
    room = room;
    small = small;
    nonempty = omega (arith, ap length e);
    first = rw e;
    explained = λ i l. rw e (only i (omega (arith, l, ap length e)));
  }
    where
      start : List Node
      start = record { support = initial; parent = index_none; action = index_none } ∷ []

      only : (i : ℕ) → i < 1 → Explained start i
      only zero l = record { word = []; leads = root (omega arith) refl; over = tt; image = refl }
      only (suc i) l = absurd (omega arith)

  -- sg_subset_reconstruct spells the word to the parent, then the last action.
  pub Ensures-subset_reconstruct :
      {E : Status → Type 0} (s : Search) (p c : ℕ)
      → (size_mod ≤ 16 * length s.nodes → E alloc)
      → (x : Explained s.nodes p) → p < length s.nodes
      → Ensures (subset_reconstruct s p c empty_word) (λ t. t.actions ≡ x.word ++ (c ∷ [])) E
  unfolding subset_reconstruct
  Ensures-subset_reconstruct s p c allow x l =
      Ensures-bind
        (Ensures-append empty_word c (λ large. absurd (omega arith)) (omega arith, omega arith))
        λ one (e, f).
          Ensures-bind
            (Ensures-collect_actions s.nodes allow (suc (length s.nodes)) p x.word one x.leads
              (omega arith) (omega (arith, ap length e)) f)
            λ all (e', f'). Ensures-return _ (
              ap (λ (w : Word). w.actions) (reverse_actions-eq-reverse all)
              ∙ rw (e', e)
                  (reverse-append (c ∷ []) (reverse x.word)
                    ∙ ap (λ (w : List ℕ). w ++ (c ∷ [])) (reverse-reverse x.word)))

  -- sg_belief_reconstruct spells the word to the node.
  pub Ensures-belief_reconstruct :
      {E : Status → Type 0} (s : Search) (p : ℕ)
      → (size_mod ≤ 16 * length s.nodes → E alloc)
      → (x : Explained s.nodes p) → p < length s.nodes
      → Ensures (belief_reconstruct s p) (λ t. t.actions ≡ x.word) E
  unfolding belief_reconstruct
  Ensures-belief_reconstruct s p allow x l =
      Ensures-bind
        (Ensures-collect_actions s.nodes allow (suc (length s.nodes)) p x.word empty_word x.leads
          (omega arith) (omega arith) (omega arith, omega arith))
        λ all (e', f'). Ensures-return _ (
          ap (λ (w : Word). w.actions) (reverse_actions-eq-reverse all)
          ∙ rw e' (reverse-reverse x.word))

-- what the two calls that add a node leave
abbrev pub Added : Search → Bitset → ℕ → ℕ → Search → Type 0
Added s support parent action t =
    (t.nodes ≡ s.nodes ++ (record { support = support; parent = parent; action = action } ∷ []))
    × (length t.nodes ≤ t.capacity)
    × (t.capacity * 40 < size_mod)

module _ {E : Status → Type 0} (s : Search) (support : Bitset) (parent action : ℕ)
    (allow : size_mod ≤ 80 * length s.nodes → E alloc) (room : length s.nodes ≤ s.capacity)
    (small : s.capacity * 40 < size_mod) where
  pub Ensures-subset_search_add :
      (n : ℕ)
      → 0 < n
      → IsBitset n support
      → Ensures (subset_search_add s support parent action) (Added s support parent action) E
  unfolding subset_search_add
  Ensures-subset_search_add n pos m =
      Ensures-bind
        (Ensures-grow 16 40 (length s.nodes) s.capacity (λ large. allow (omega arith)) (omega arith)
          (omega arith) (omega arith) room small)
        λ cap (more, fits). Ensures-bind (Ensures-copy n E support pos m) λ mine e.
          Ensures-return _ (
            rw e,
            omega (
              arith,
              length-append s.nodes
                  (record { support = mine; parent = parent; action = action } ∷ []),
            ),
            fits,
          )

  pub Ensures-belief_search_add :
      Ensures (belief_search_add s support parent action) (Added s support parent action) E
  unfolding belief_search_add
  Ensures-belief_search_add =
      Ensures-bind
        (Ensures-grow 32 40 (length s.nodes) s.capacity (λ large. allow (omega arith)) (omega arith)
          (omega arith) (omega arith) room small)
        λ cap (more, fits). Ensures-return _ (
          refl,
          omega (
            arith,
            length-append s.nodes
                (record { support = support; parent = parent; action = action } ∷ []),
          ),
          fits,
        )
