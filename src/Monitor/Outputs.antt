-- ===== src/Monitor/Outputs.antt =====
-- sg_monitor_expected_outputs: the outputs that the states of a set may show under an action.
use sync_kgraph.Base.{
  ℕ, zero, suc, ◌+◌, ◌≤◌, ◌<◌, ◌≡◌, ◌∙◌, sym, ap, ◌↔◌, ◌⊎◌, inl, inr, Bool, true, false, arith,
  ◌==◌, if◌then◌else◌, Bool-cases, Status, Ensures, Ensures-return, Ensures-bind, Ensures-request,
}
use sync_kgraph.Bitset.{Bitset, empty, add, has, to_ids}
use sync_kgraph.Bitset.Laws.{IsBitset, empty-IsBitset, has-empty, has-add, add-IsBitset}
use sync_kgraph.Bitset.Members.{contains, contains-to_ids, lt_of_has, Ensures-init}
use sync_kgraph.Automaton.{Automaton, observation}
use sync_kgraph.Automaton.Laws.{IsValid, observation-lt}
use sync_kgraph.Monitor.{outputs_loop, expected_outputs}

-- some state of the set shows the output
abbrev pub MayShow : Automaton → Bitset → ℕ → ℕ → Type 0
MayShow a s c o = (q : ℕ) × (has s q ≡ true) × (observation a q c ≡ o)

module _ (a : Automaton) (v : IsValid a) (s : Bitset) (c : ℕ) (hc : c < a.action_count)
    (m : IsBitset a.state_count s) where
  kept :
      (b : Bool) (i : ℕ) (d : Bitset)
      → i < a.state_count
      → IsBitset a.output_count d
      → IsBitset a.output_count (if b then add d (observation a i c) else d)
  kept true i d l w =
      add-IsBitset a.output_count d (observation a i c) w (observation-lt a v i c l hc)
  kept false i d l w = w

  outputs_loop-IsBitset :
      (left i : ℕ) (d : Bitset)
      → i + left ≤ a.state_count
      → IsBitset a.output_count d
      → IsBitset a.output_count (outputs_loop a s c left i d)
  unfolding outputs_loop
  outputs_loop-IsBitset zero i d h w = w
  outputs_loop-IsBitset (suc left) i d h w =
      outputs_loop-IsBitset left (i + 1) _ (omega arith) (kept (has s i) i d (omega arith) w)

  -- what the loop from `i` on leaves in the set
  abbrev Shown : ℕ → ℕ → Bitset → ℕ → Type 0
  Shown left i d o =
      (has d o ≡ true)
      ⊎ ((q : ℕ) × (i ≤ q) × (q < i + left) × (has s q ≡ true) × (observation a q c ≡ o))

  has-outputs_loop :
      (left i : ℕ) (d : Bitset) (o : ℕ)
      → i + left ≤ a.state_count
      → IsBitset a.output_count d
      → (has (outputs_loop a s c left i d) o ≡ true) ↔ Shown left i d o
  unfolding outputs_loop
  has-outputs_loop zero i d o h w =
      (inl, λ z. elim z [ inl x ↦ x | inr (q, l, u, _, _) ↦ absurd (omega arith) ])
  has-outputs_loop (suc left) i d o h w = elim (Bool-cases (has s i)) [
    | inl here ↦
        let it =
          has-outputs_loop left (i + 1) (add d (observation a i c)) o (omega arith)
            (kept true i d (omega arith) w) in
        let e =
          has-add a.output_count d (observation a i c) o w
            (observation-lt a v i c (omega arith) hc) in
        rw here (
          λ z. elim (it.0 z) [
            | inl x ↦ elim (Bool-cases (o == observation a i c)) [
              | inl same ↦ inr (i, omega arith, omega arith, here, ground arith)
              | inr other ↦ inl (ground arith)
            ]
            | inr (q, l, u, hq, f) ↦ inr (q, omega arith, omega arith, hq, f)
          ],
          λ z. it.1 (elim z [
            | inl x ↦ inl (ground arith)
            | inr (q, l, u, hq, f) ↦ elim (Bool-cases (q == i)) [
              | inl same ↦ inl (
                  let s' : q ≡ i = ground arith in
                  let g : observation a i c ≡ o = ap (λ (k : ℕ). observation a k c) (sym s') ∙ f in
                  ground arith)
              | inr other ↦ inr (q, ground arith, omega arith, hq, f)
            ]
          ]),
        )
    | inr away ↦
        let it = has-outputs_loop left (i + 1) d o (omega arith) w in
        rw away (
          λ z. elim (it.0 z) [
            | inl x ↦ inl x
            | inr (q, l, u, hq, f) ↦ inr (q, omega arith, omega arith, hq, f)
          ],
          λ z. it.1 (elim z [
            | inl x ↦ inl x
            | inr (q, l, u, hq, f) ↦ elim (Bool-cases (q == i)) [
              | inl same ↦
                  let s' : q ≡ i = ground arith in let g = ap (has s) s' in absurd (ground arith)
              | inr other ↦ inr (q, ground arith, omega arith, hq, f)
            ]
          ]),
        )
  ]

  -- The call lists exactly the outputs that some state of the set shows.
  pub Ensures-expected_outputs :
      {E : Status → Type 0}
      → Ensures
          (expected_outputs a s c)
          (λ out. (o : ℕ) → (contains out o ≡ true) ↔ MayShow a s c o)
          E
  unfolding expected_outputs
  Ensures-expected_outputs {E} =
      Ensures-bind
        (Ensures-init a.output_count E (λ z. absurd (let p = v.outputs_pos in omega arith))
          v.outputs_small)
        λ blank e. Ensures-bind Ensures-request λ _ _. Ensures-return _ (λ o. rw e (listed o))
    where
      listed :
          (o : ℕ)
          → (contains (to_ids (outputs_loop a s c a.state_count 0 (empty a.output_count))) o ≡ true)
            ↔ MayShow a s c o
      listed o =
          let valid = empty-IsBitset a.output_count v.outputs_small in
          let it = has-outputs_loop a.state_count 0 (empty a.output_count) o (omega arith) valid in
          let out =
            outputs_loop-IsBitset a.state_count 0 (empty a.output_count) (omega arith) valid in
          rw (contains-to_ids a.output_count _ o out) (
            λ z. elim (it.0 z) [
              | inl x ↦ let n = has-empty a.output_count o in cc
              | inr (q, _, _, hq, f) ↦ (q, hq, f)
            ],
            λ (q, hq, f).
                it.1 (inr (q, omega arith, omega (arith, lt_of_has a.state_count s q m hq), hq, f)),
          )
