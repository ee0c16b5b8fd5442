-- ===== src/Motion/Image.antt =====
-- The image of a set of states: under an action, with an observed output, and under a word.
use sync_kgraph.Base.{
  ℕ, zero, suc, ◌+◌, ◌≤◌, ◌<◌, ◌≡◌, ◌∙◌, refl, sym, ap, ◌↔◌, ◌⊎◌, inl, inr, Bool, true, false, ◌&&◌,
  List, [], ◌∷◌, ◌++◌, ◌/◌, ◌%◌, size_mod, arith, ◌==◌, if◌then◌else◌, Bool-cases, length,
  replicate, All,
}
use sync_kgraph.Bitset.{Bitset, word_count, empty, clear, add, has}
use sync_kgraph.Bitset.Laws.{
  IsBitset, has-clear, empty-IsBitset, clear-IsBitset, has-add, add-IsBitset,
}
use sync_kgraph.Bitset.Members.{lt_of_has}
use sync_kgraph.Automaton.{Automaton, transition, observation}
use sync_kgraph.Automaton.Laws.{IsValid, transition-lt}
use sync_kgraph.Motion.{action_loop, apply_action_set, observed_loop, apply_observed_action_set}

-- some state of the set moves to `r`
abbrev pub MovesTo : Automaton → Bitset → ℕ → ℕ → Type 0
MovesTo a s c r = (q : ℕ) × (has s q ≡ true) × (transition a q c ≡ r)

-- some state of the set shows the output and moves to `r`
abbrev pub MovesShowing : Automaton → Bitset → ℕ → ℕ → ℕ → Type 0
MovesShowing a s c o r =
    (q : ℕ) × (has s q ≡ true) × (observation a q c ≡ o) × (transition a q c ≡ r)

-- Both loops add the successors of the states that pass a test.
selected_loop : Automaton → (ℕ → Bool) → ℕ → ℕ → ℕ → Bitset → Bitset
selected_loop a p c zero i d = d
selected_loop a p c (suc left) i d =
    selected_loop a p c left (i + 1) (if p i then add d (transition a i c) else d)

action_loop-eq :
    (a : Automaton) (s : Bitset) (c left i : ℕ) (d : Bitset)
    → action_loop a s c left i d ≡ selected_loop a (has s) c left i d
unfolding action_loop selected_loop
action_loop-eq a s c zero i d = refl
action_loop-eq a s c (suc left) i d = action_loop-eq a s c left (i + 1) _

observed_loop-eq :
    (a : Automaton) (s : Bitset) (c o left i : ℕ) (d : Bitset)
    → observed_loop a s c o left i d
      ≡ selected_loop a (λ q. has s q && observation a q c == o) c left i d
unfolding observed_loop selected_loop
observed_loop-eq a s c o zero i d = refl
observed_loop-eq a s c o (suc left) i d = observed_loop-eq a s c o left (i + 1) _

module _ (a : Automaton) (v : IsValid a) (p : ℕ → Bool) (c : ℕ) (hc : c < a.action_count) where
  kept :
      (b : Bool) (i : ℕ) (d : Bitset)
      → i < a.state_count
      → IsBitset a.state_count d
      → IsBitset a.state_count (if b then add d (transition a i c) else d)
  kept true i d l w = add-IsBitset a.state_count d (transition a i c) w (transition-lt a v i c l hc)
  kept false i d l w = w

  selected_loop-IsBitset :
      (left i : ℕ) (d : Bitset)
      → i + left ≤ a.state_count
      → IsBitset a.state_count d
      → IsBitset a.state_count (selected_loop a p c left i d)
  unfolding selected_loop
  selected_loop-IsBitset zero i d h w = w
  selected_loop-IsBitset (suc left) i d h w =
      selected_loop-IsBitset left (i + 1) _ (omega arith) (kept (p i) i d (omega arith) w)

  -- what the loop from `i` on leaves in the set
  abbrev Adds : ℕ → ℕ → Bitset → ℕ → Type 0
  Adds left i d r =
      (has d r ≡ true)
      ⊎ ((q : ℕ) × (i ≤ q) × (q < i + left) × (p q ≡ true) × (transition a q c ≡ r))

  Adds-here :
      (left i : ℕ) (d : Bitset) (r : ℕ)
      → i < a.state_count
      → IsBitset a.state_count d
      → p i ≡ true
      → Adds left (i + 1) (add d (transition a i c)) r ↔ Adds (suc left) i d r
  Adds-here left i d r l w pi = (
    λ z. elim z [
      | inl m ↦ elim (Bool-cases (r == transition a i c)) [
        | inl same ↦ inr (i, omega arith, omega arith, pi, ground arith)
        | inr other ↦ inl (
            let e = has-add a.state_count d (transition a i c) r w (transition-lt a v i c l hc) in
            ground arith)
      ]
      | inr (q, l', u, m, e) ↦ inr (q, omega arith, omega arith, m, e)
    ],
    λ z. elim z [
      | inl m ↦ inl (
          let e = has-add a.state_count d (transition a i c) r w (transition-lt a v i c l hc) in
          ground arith)
      | inr (q, l', u, m, e) ↦ elim (Bool-cases (q == i)) [
        | inl same ↦ inl (
            let e' = has-add a.state_count d (transition a i c) r w (transition-lt a v i c l hc) in
            let s : q ≡ i = ground arith in
            let f : transition a i c ≡ r = ap (λ (k : ℕ). transition a k c) (sym s) ∙ e in
            ground arith)
        | inr other ↦ inr (q, ground arith, omega arith, m, e)
      ]
    ],
  )

  Adds-skip :
      (left i : ℕ) (d : Bitset) (r : ℕ)
      → p i ≡ false
      → Adds left (i + 1) d r ↔ Adds (suc left) i d r
  Adds-skip left i d r pi = (
    λ z. elim z [ inl m ↦ inl m | inr (q, l', u, m, e) ↦ inr (q, omega arith, omega arith, m, e) ],
    λ z. elim z [
      | inl m ↦ inl m
      | inr (q, l', u, m, e) ↦ elim (Bool-cases (q == i)) [
        | inl same ↦ let s : q ≡ i = ground arith in let f = ap p s in absurd (ground arith)
        | inr other ↦ inr (q, ground arith, omega arith, m, e)
      ]
    ],
  )

  selected_loop-Adds :
      (left i : ℕ) (d : Bitset) (r : ℕ)
      → i + left ≤ a.state_count
      → IsBitset a.state_count d
      → (has (selected_loop a p c left i d) r ≡ true) ↔ Adds left i d r
  unfolding selected_loop
  selected_loop-Adds zero i d r h w =
      (inl, λ z. elim z [ inl m ↦ m | inr (q, l, u, _, _) ↦ absurd (omega arith) ])
  selected_loop-Adds (suc left) i d r h w = elim (Bool-cases (p i)) [
    | inl here ↦
        let ih =
          selected_loop-Adds left (i + 1) (add d (transition a i c)) r (omega arith)
            (kept true i d (omega arith) w) in
        let k = Adds-here left i d r (omega arith) w here in
        rw here ((λ m. k.0 (ih.0 m)), (λ z. ih.1 (k.1 z)))
    | inr not_here ↦
        let ih = selected_loop-Adds left (i + 1) d r (omega arith) w in
        let k = Adds-skip left i d r not_here in
        rw not_here ((λ m. k.0 (ih.0 m)), (λ z. ih.1 (k.1 z)))
  ]

pub clear-eq-empty : (n : ℕ) (d : Bitset) → IsBitset n d → clear d ≡ empty n
unfolding clear empty word_count
clear-eq-empty n d w =
    let e : length d.words ≡ (n + 63) % size_mod / 64 = omega (arith, w.sized, w.small) in
    let st = w.states in cc (st, ap (λ (k : ℕ). replicate k (let z : ℕ = 0 in z)) e)

module _ (a : Automaton) (v : IsValid a) (s : Bitset) (c : ℕ) (hc : c < a.action_count)
    (m : IsBitset a.state_count s) where
  abbrev n : ℕ
  n = a.state_count

  pub apply_action_set-IsBitset :
      (d : Bitset) → IsBitset n d → IsBitset n (apply_action_set a s c d)
  unfolding apply_action_set
  apply_action_set-IsBitset d w =
      rw action_loop-eq
        (selected_loop-IsBitset a v (has s) c hc n 0 (clear d) (omega arith) (clear-IsBitset n d w))

  -- The image under an action has exactly the successors of the set's states.
  pub apply_action_set_iff :
      (d : Bitset) (r : ℕ)
      → IsBitset n d
      → (has (apply_action_set a s c d) r ≡ true) ↔ MovesTo a s c r
  unfolding apply_action_set
  apply_action_set_iff d r w =
      let it =
        selected_loop-Adds a v (has s) c hc n 0 (clear d) r (omega arith) (clear-IsBitset n d w) in
      rw action_loop-eq (
        λ h. elim (it.0 h) [
          | inl old ↦ let e = has-clear d r in cc
          | inr (q, _, _, hq, e) ↦ (q, hq, e)
        ],
        λ (q, hq, e). it.1 (inr (q, omega arith, omega (arith, lt_of_has n s q m hq), hq, e)),
      )

  pub apply_observed_action_set-IsBitset :
      (o : ℕ) (d : Bitset) → IsBitset n d → IsBitset n (apply_observed_action_set a s c o d)
  unfolding apply_observed_action_set
  apply_observed_action_set-IsBitset o d w =
      rw observed_loop-eq
        (selected_loop-IsBitset a v _ c hc n 0 (clear d) (omega arith) (clear-IsBitset n d w))

  -- The image with an observed output has the successors of those states that show the output.
  pub apply_observed_action_set_iff :
      (o : ℕ) (d : Bitset) (r : ℕ)
      → IsBitset n d
      → (has (apply_observed_action_set a s c o d) r ≡ true) ↔ MovesShowing a s c o r
  unfolding apply_observed_action_set
  apply_observed_action_set_iff o d r w =
      let it =
        selected_loop-Adds a v (λ q. has s q && observation a q c == o) c hc n 0 (clear d) r
          (omega arith) (clear-IsBitset n d w) in
      rw observed_loop-eq (
        λ h. elim (it.0 h) [
          | inl old ↦ let e = has-clear d r in cc
          | inr (q, _, _, hq, e) ↦ (q, ground arith, ground arith, e)
        ],
        λ (q, hq, ho, e).
            it.1 (inr (q, omega arith, omega (arith, lt_of_has n s q m hq), ground arith, e)),
      )

  -- What the buffer held before does not matter.
  pub apply_action_set-fresh :
      (d : Bitset) → IsBitset n d → apply_action_set a s c d ≡ apply_action_set a s c (empty n)
  unfolding apply_action_set
  apply_action_set-fresh d w =
      ap (λ (t : Bitset). action_loop a s c n 0 t)
        (clear-eq-empty n d w ∙ sym (clear-eq-empty n (empty n) (empty-IsBitset n m.small)))

-- δ(q, w)
abbrev pub run : Automaton → ℕ → List ℕ → ℕ
run a q [] = q
run a q (c ∷ w) = run a (transition a q c) w

-- δ(S, w) as the code computes it
unfoldable pub images : Automaton → Bitset → List ℕ → Bitset
images a s [] = s
images a s (c ∷ w) = images a (apply_action_set a s c (empty a.state_count)) w

-- the actions of a word
abbrev pub Actions : Automaton → List ℕ → Type 0
Actions a w = All (λ c. c < a.action_count) w

pub images-append :
    (a : Automaton) (s : Bitset) (w u : List ℕ) → images a s (w ++ u) ≡ images a (images a s w) u
unfolding images
images-append a s [] u = refl
images-append a s (c ∷ w) u = images-append a (apply_action_set a s c (empty a.state_count)) w u

pub images-one :
    (a : Automaton) (s : Bitset) (c : ℕ)
    → images a s (c ∷ []) ≡ apply_action_set a s c (empty a.state_count)
unfolding images
images-one a s c = refl

module _ (a : Automaton) (v : IsValid a) where
  pub images-IsBitset :
      (w : List ℕ) (s : Bitset)
      → Actions a w
      → IsBitset a.state_count s
      → IsBitset a.state_count (images a s w)
  unfolding images
  images-IsBitset [] s h m = m
  images-IsBitset (c ∷ w) s h m =
      images-IsBitset w _ h.1
        (apply_action_set-IsBitset a v s c h.0 m (empty a.state_count) (empty-IsBitset _ m.small))

  -- The image of a set under a word has exactly the states that the word leads to from the set.
  pub images_iff :
      (w : List ℕ) (s : Bitset) (r : ℕ)
      → Actions a w
      → IsBitset a.state_count s
      → (has (images a s w) r ≡ true) ↔ ((q : ℕ) × (has s q ≡ true) × (run a q w ≡ r))
  unfolding images
  images_iff [] s r h m = (λ z. (r, z, refl), λ (q, z, e). rw (← e) z)
  images_iff (c ∷ w) s r h m =
      let blank = empty-IsBitset a.state_count m.small in
      let image = apply_action_set-IsBitset a v s c h.0 m (empty a.state_count) blank in
      let ih = images_iff w (apply_action_set a s c (empty a.state_count)) r h.1 image in
      let one = λ (x : ℕ). apply_action_set_iff a v s c h.0 m (empty a.state_count) x blank in
      (
        λ z. let (x, hx, e) = ih.0 z in let (q, hq, e') = (one x).0 hx in (q, hq, rw e' e),
        λ (q, hq, e). ih.1 (transition a q c, (one (transition a q c)).1 (q, hq, refl), e),
      )
