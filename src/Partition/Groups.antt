-- ===== src/Partition/Groups.antt =====
-- The groups of one branch: for each output the states that are reached with it.
use sync_kgraph.Base.{
  ℕ, zero, suc, ◌+◌, ◌≤◌, ◌<◌, ◌≡◌, ◌∙◌, refl, sym, ap, subst, ◌≢◌, ◌↔◌, inl, inr, true, false,
  List, [], ◌∷◌, Option, none, some, arith, ◌==◌, if◌then◌else◌, Bool-cases, length, length-set,
  length-replicate, get_or, set, get_or-set_self, get_or-set_ne, get_or-replicate, replicate,
  Status, Ensures, Ensures-return, Ensures-bind, Ensures-if, Ensures-mono,
}
use sync_kgraph.Bitset.{Bitset, add, has, count}
use sync_kgraph.Bitset.Card.{card, card-append}
use sync_kgraph.Bitset.Laws.{IsBitset, empty-IsBitset, has-empty, has-add, add-IsBitset}
use sync_kgraph.Bitset.Members.{count-eq-card, count-add, count_none, lt_of_has, Ensures-init}
use sync_kgraph.Automaton.{Automaton, transition, observation}
use sync_kgraph.Automaton.Laws.{IsValid, transition-lt, observation-lt}
use sync_kgraph.Motion.Image.{MovesShowing}
use sync_kgraph.Partition.{group_of, group_loop}

-- the states of all groups, counted together
abbrev pub size_of : Option Bitset → ℕ
size_of none = 0
size_of (some s) = count s

abbrev pub sizes : List (Option Bitset) → ℕ
sizes [] = 0
sizes (g ∷ gs) = size_of g + sizes gs

sizes-set :
    (gs : List (Option Bitset)) (o : ℕ) (s : Bitset)
    → o < length gs
    → sizes (set gs o (some s)) + size_of (get_or gs o none) ≡ sizes gs + count s
sizes-set [] o s h = absurd (omega arith)
sizes-set (g ∷ gs) zero s h = omega arith
sizes-set (g ∷ gs) (suc o) s h = omega (arith, sizes-set gs o s (omega arith))

sizes-replicate : (n : ℕ) → sizes (replicate n none) ≡ 0
sizes-replicate zero = refl
sizes-replicate (suc n) = omega (arith, sizes-replicate n)

module _ (a : Automaton) (v : IsValid a) (support : Bitset) (m : IsBitset a.state_count support)
    (c : ℕ) (hc : c < a.action_count) where
  -- some state of the set below `bound` shows the output and moves to `r`
  abbrev pub Below : ℕ → ℕ → ℕ → Type 0
  Below bound o r =
      (q : ℕ) × (q < bound)
      × (has support q ≡ true)
      × (observation a q c ≡ o)
      × (transition a q c ≡ r)

  -- the group of an output, when the states below `bound` are done
  abbrev pub GroupBelow : ℕ → ℕ → Option Bitset → Type 0
  GroupBelow bound o none = (r : ℕ) → ¬ Below bound o r
  GroupBelow bound o (some s) =
      IsBitset a.state_count s
      × ((r : ℕ) → (has s r ≡ true) ↔ Below bound o r)
      × ((r : ℕ) × (has s r ≡ true))

  Below-suc :
      (i o r : ℕ) → (has support i ≡ true → observation a i c ≢ o) → Below i o r ↔ Below (suc i) o r
  Below-suc i o r skip = (
    λ (q, l, h, e, f). (q, omega arith, h, e, f),
    λ (q, l, h, e, f). elim (Bool-cases (q == i)) [
      | inl same ↦
          let s : q ≡ i = ground arith in
          absurd
            (skip (subst (λ x. has support x ≡ true) s h) (subst (λ x. observation a x c ≡ o) s e))
      | inr other ↦ (q, ground arith, h, e, f)
    ],
  )

  GroupBelow-suc :
      (i o : ℕ) (g : Option Bitset)
      → (has support i ≡ true → observation a i c ≢ o)
      → GroupBelow i o g
      → GroupBelow (suc i) o g
  GroupBelow-suc i o none skip h = λ r b. h r ((Below-suc i o r skip).1 b)
  GroupBelow-suc i o (some s) skip (valid, all, some_r) = (
    valid,
    λ r. (λ z. (Below-suc i o r skip).0 ((all r).0 z), λ b. (all r).1 ((Below-suc i o r skip).1 b)),
    some_r,
  )

  -- what the group of a state's own output becomes
  grown :
      (i : ℕ) (s : Bitset)
      → has support i ≡ true
      → i < a.state_count
      → IsBitset a.state_count s
      → ((r : ℕ) → (has s r ≡ true) ↔ Below i (observation a i c) r)
      → GroupBelow (suc i) (observation a i c) (some (add s (transition a i c)))
  grown i s hi li valid all =
      let t = transition-lt a v i c li hc in
      (
        add-IsBitset a.state_count s (transition a i c) valid t,
        λ r.
            let e = has-add a.state_count s (transition a i c) r valid t in
            (
              λ z. elim (Bool-cases (r == transition a i c)) [
                | inl same ↦ (i, omega arith, hi, refl, ground arith)
                | inr other ↦
                    let (q, l, h, o, f) = (all r).0 (ground arith) in (q, omega arith, h, o, f)
              ],
              λ (q, l, h, o, f). elim (Bool-cases (q == i)) [
                | inl same ↦
                    let s' : q ≡ i = ground arith in
                    let f' : transition a i c ≡ r = ap (λ (x : ℕ). transition a x c) (sym s') ∙ f in
                    ground arith
                | inr other ↦ let here = (all r).1 (q, ground arith, h, o, f) in ground arith
              ],
            ),
        (
          transition a i c,
          let e = has-add a.state_count s (transition a i c) (transition a i c) valid t in
              ground arith,
        ),
      )

  -- the set that group_of gives: the group so far, or an empty set
  abbrev Taken : ℕ → Option Bitset → Bitset → Type 0
  Taken i g s =
      IsBitset a.state_count s
      × ((r : ℕ) → (has s r ≡ true) ↔ Below i (observation a i c) r)
      × (count s ≡ size_of g)

  Ensures-group_of :
      {E : Status → Type 0} (i : ℕ) (g : Option Bitset)
      → GroupBelow i (observation a i c) g
      → Ensures (group_of a g) (Taken i g) E
  unfolding group_of
  Ensures-group_of i (some s) (valid, all, _) = Ensures-return s (valid, all, refl)
  Ensures-group_of {E} i none h =
      Ensures-mono
        (λ s e. rw e (
          empty-IsBitset a.state_count v.states_small,
          λ r. (
            λ z. let n = has-empty a.state_count r in absurd (ground arith),
            λ b. absurd (h r b),
          ),
          count_none a.state_count v.states_small,
        ))
        (λ _ z. z)
        (Ensures-init a.state_count E (λ z. absurd (let p = v.states_pos in omega arith))
          v.states_small)

  -- the groups when the states below `bound` are done
  pub record Grouped (bound : ℕ) (groups : List (Option Bitset)) : Type 0 where
    pub each : (o : ℕ) → o < a.output_count → GroupBelow bound o (get_or groups o none)
    pub sized : length groups ≡ a.output_count
    pub few : sizes groups ≤ card (has support) 0 bound

  card-suc :
      (i : ℕ)
      → card (has support) 0 (suc i) ≡ card (has support) 0 i + (if has support i then 1 else 0)
  card-suc i =
      let one : i + 1 ≡ suc i = omega arith in
      ap (λ (k : ℕ). card (has support) 0 k) (sym one)
      ∙ omega (arith, card-append (has support) 0 i 1 i (omega arith))

  card-suc_here :
      (i : ℕ) → has support i ≡ true → card (has support) 0 (suc i) ≡ suc (card (has support) 0 i)
  card-suc_here i h = ground (arith, card-suc i)

  Grouped-skip :
      (i : ℕ) (groups : List (Option Bitset))
      → has support i ≡ false
      → Grouped i groups
      → Grouped (suc i) groups
  Grouped-skip i groups away g = record {
    each =
        λ o l. GroupBelow-suc i o (get_or groups o none) (λ h. absurd (ground arith)) (g.each o l);
    sized = g.sized;
    few = omega (arith, g.few, card-suc i);
  }

  Grouped-add :
      (i : ℕ) (groups : List (Option Bitset)) (s : Bitset)
      → has support i ≡ true
      → i < a.state_count
      → Grouped i groups
      → Taken i (get_or groups (observation a i c) none) s
      → Grouped (suc i) (set groups (observation a i c) (some (add s (transition a i c))))
  Grouped-add i groups s hi li g (valid, all, same) =
      let mine = observation a i c in
      let lo = observation-lt a v i c li hc in
      let fresh : Option Bitset = some (add s (transition a i c)) in
      record {
        each = λ o l. elim (Bool-cases (mine == o)) [
          | inl here ↦
              let e : mine ≡ o = ground arith in
              subst (λ x. GroupBelow (suc i) x (get_or (set groups mine fresh) x none)) e
                (subst (GroupBelow (suc i) mine)
                  (sym (get_or-set_self groups mine fresh none (omega (arith, g.sized))))
                  (grown i s hi li valid all))
          | inr other ↦
              subst (GroupBelow (suc i) o)
                (sym (get_or-set_ne groups mine o fresh none (λ e. absurd (ground arith))))
                (GroupBelow-suc i o (get_or groups o none) (λ _ e. absurd (ground arith))
                  (g.each o l))
        ];
        sized = length-set groups mine fresh ∙ g.sized;
        few =
            let total = sizes-set groups mine (add s (transition a i c)) (omega (arith, g.sized)) in
            let more =
              count-add a.state_count s (transition a i c) valid (transition-lt a v i c li hc) in
            omega (arith, g.few, card-suc_here i hi);
      }

  pub Ensures-group_loop :
      {E : Status → Type 0} (left i : ℕ) (groups : List (Option Bitset))
      → i + left ≡ a.state_count
      → Grouped i groups
      → Ensures (group_loop a support c left i groups) (Grouped a.state_count) E
  unfolding group_loop
  Ensures-group_loop zero i groups e g =
      Ensures-return groups
        (subst (λ k. Grouped k groups) (let e' : i ≡ a.state_count = omega arith in e') g)
  Ensures-group_loop (suc left) i groups e g =
      let one : i + 1 ≡ suc i = omega arith in
      Ensures-if (has support i)
        (λ here.
          Ensures-bind
            (Ensures-group_of i (get_or groups (observation a i c) none)
              (g.each (observation a i c) (observation-lt a v i c (omega arith) hc)))
            λ s t.
              Ensures-group_loop left (i + 1)
                (set groups (observation a i c) (some (add s (transition a i c)))) (omega arith)
                (subst
                  (λ k.
                    Grouped k (set groups (observation a i c) (some (add s (transition a i c)))))
                  (sym one) (Grouped-add i groups s here (omega arith) g t)))
        (λ away.
          Ensures-group_loop left (i + 1) groups (omega arith)
            (subst (λ k. Grouped k groups) (sym one) (Grouped-skip i groups away g)))

  -- no state is done at first
  pub Grouped-start : Grouped 0 (replicate a.output_count none)
  Grouped-start = record {
    each = λ o l.
        subst (GroupBelow 0 o)
          (sym (get_or-replicate a.output_count o (let g : Option Bitset = none in g)))
          (λ r (q, below, _, _, _). absurd (omega arith));
    sized = length-replicate a.output_count (let g : Option Bitset = none in g);
    few = omega (arith, sizes-replicate a.output_count);
  }

  -- The groups of a branch: for each output the states that the branch moves to with it, or no group
  -- when there is none.
  pub Grouped-count :
      (groups : List (Option Bitset)) → Grouped a.state_count groups → sizes groups ≤ count support
  Grouped-count groups g = omega (arith, g.few, count-eq-card a.state_count support m)

  pub Below-iff : (o r : ℕ) → Below a.state_count o r ↔ MovesShowing a support c o r
  Below-iff o r = (
    λ (q, _, h, e, f). (q, h, e, f),
    λ (q, h, e, f). (q, lt_of_has a.state_count support q m h, h, e, f),
  )
