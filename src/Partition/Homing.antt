-- ===== src/Partition/Homing.antt =====
-- What the partition after a word says of the runs: whether the outputs tell where the automaton is.
use mathlib.Core.List.{append_assoc, append-nil}
use sync_kgraph.Base.{
  ℕ, ◌+◌, ◌*◌, ◌≤◌, ◌≡◌, ◌∙◌, refl, sym, subst, ◌↔◌, ◌⊎◌, inl, inr, true, List, [], ◌∷◌, ◌++◌,
  arith, length-append, ltb, ◌==◌, Bool-cases, if◌then◌else◌, length, All, index_none, size_mod,
  Status, alloc, invalid_argument, Ensures, Ensures-return, Ensures-bind, Ensures-guard,
  Ensures-request, Ensures-mono,
}
use sync_kgraph.Bitset.{Bitset, has, count}
use sync_kgraph.Bitset.Laws.{IsBitset}
use sync_kgraph.Bitset.Members.{Ensures-copy, count_zero_iff, Singleton-count, count-Singleton}
use sync_kgraph.Automaton.{Automaton, observation}
use sync_kgraph.Automaton.Laws.{IsValid}
use sync_kgraph.Word.{Word}
use sync_kgraph.Motion.Image.{run, Actions}
use sync_kgraph.Motion.Traces.{
  Shows, Shows-run, outputs, Shows-outputs, outputs-Shows, outputs-append,
}
use sync_kgraph.Plan.{PlanResult}
use sync_kgraph.Partition.{
  Branch, Partition, no_branches, partition_init, partition_loop, partition_apply_word, worst_loop,
  worst_of, fill_plan_metrics,
}
use sync_kgraph.Partition.Branches.{
  one_counted, HasTrace, total, BranchOk, Branches, Branches-limit, Onward, Ensures-apply_branches,
}

-- the run of every starting state has a branch
abbrev pub Covered : Automaton → (ℕ → Type 0) → List ℕ → Partition → Type 0
Covered a Start w p = (q : ℕ) → Start q → HasTrace p.branches (outputs a q w)

-- a word is homing for a set when the outputs tell the state that it ends in
abbrev pub Homing : Automaton → (ℕ → Type 0) → List ℕ → Type 0
Homing a Start w =
    (q r : ℕ) → Start q → Start r → outputs a q w ≡ outputs a r w → run a q w ≡ run a r w

module _ (a : Automaton) (Start : ℕ → Type 0) (w : List ℕ) where
  -- the branch of a trace
  branch_of :
      (P : Branch → Type 0) (bs : List Branch) (t : List ℕ)
      → HasTrace bs t
      → All P bs
      → (b : Branch) × (b.trace ≡ t) × P b
  branch_of P [] t h p = absurd h
  branch_of P (b ∷ bs) t (inl e) p = (b, e, p.0)
  branch_of P (b ∷ bs) t (inr h) p = branch_of P bs t h p.1

  -- the end of a run is in the branch of its outputs
  run-member :
      (b : Branch) (q : ℕ)
      → BranchOk a Start w b
      → Start q
      → b.trace ≡ outputs a q w
      → has b.support (run a q w) ≡ true
  run-member b q ok' h e =
      (ok'.1 (run a q w)).1
        (q, h, subst (λ t. Shows a q w t (run a q w)) (sym e) (Shows-outputs a q w))

  Covered-step :
      (c : ℕ) (bs : List Branch) (next : Partition)
      → All (BranchOk a Start w) bs
      → Onward a c bs next.branches
      → ((q : ℕ) → Start q → HasTrace bs (outputs a q w))
      → Covered a Start (w ++ (c ∷ [])) next
  Covered-step c bs next good onward covers q h =
      subst (HasTrace next.branches) (sym (outputs-append a q w c))
        (find bs good onward (covers q h))
    where
      find :
          (bs : List Branch)
          → All (BranchOk a Start w) bs
          → Onward a c bs next.branches
          → HasTrace bs (outputs a q w)
          → HasTrace next.branches (outputs a q w ++ (observation a (run a q w) c ∷ []))
      find [] good onward z = absurd z
      find (b ∷ bs) good onward (inl e) =
          subst (λ t. HasTrace next.branches (t ++ (observation a (run a q w) c ∷ []))) e
            (onward.0 (run a q w) (run-member b q good.0 h e))
      find (b ∷ bs) good onward (inr z) = find bs good.1 onward.1 z

  -- at most one state in each branch
  abbrev Single : List Branch → Type 0
  Single bs = All (λ b. count b.support ≤ 1) bs

  worst_loop_iff : (bs : List Branch) (k : ℕ) → (worst_loop bs k ≤ 1) ↔ ((k ≤ 1) × Single bs)
  unfolding worst_loop
  worst_loop_iff [] k = ((λ h. (h, tt)), (λ h. h.0))
  worst_loop_iff (b ∷ bs) k =
      let ih = worst_loop_iff bs (if ltb k (count b.support) then count b.support else k) in
      (
        λ h. let (l, s) = ih.0 h in (ground arith, (ground arith, s)),
        λ (l, (m, s)). ih.1 (ground arith, s),
      )

  module _ (n : ℕ) where
    one_member :
        (s : Bitset) (q r : ℕ)
        → IsBitset n s
        → count s ≤ 1
        → has s q ≡ true
        → has s r ≡ true
        → q ≡ r
    one_member s q r m few hq hr = elim (Bool-cases (count s == 0)) [
      | inl nothing ↦ let e = (count_zero_iff n s m).0 (ground arith) q in absurd (ground arith)
      | inr some_q ↦
          let (x, single, _) = Singleton-count n s m (ground arith) in
          single.1 q hq ∙ sym (single.1 r hr)
    ]

  -- The largest branch has one state exactly when the word is homing.
  pub worst_iff :
      (n : ℕ) (p : Partition)
      → ((b : Branch) → BranchOk a Start w b → IsBitset n b.support)
      → All (BranchOk a Start w) p.branches
      → Covered a Start w p
      → (worst_of p ≤ 1) ↔ Homing a Start w
  unfolding worst_of
  worst_iff n p valid good covers =
      let it = worst_loop_iff p.branches 0 in
      (
        λ h q r hq hr same.
            let (b, e, (ok', few)) =
              branch_of (λ x. BranchOk a Start w x × (count x.support ≤ 1)) p.branches
                (outputs a q w) (covers q hq) (both p.branches good (it.0 h).1) in
            one_member n b.support (run a q w) (run a r w) (valid b ok') few
              (run-member b q ok' hq e) (run-member b r ok' hr (e ∙ same)),
        λ homing. it.1 (omega arith, single homing p.branches good),
      )
    where
      both :
          (bs : List Branch)
          → All (BranchOk a Start w) bs
          → Single bs
          → All (λ x. BranchOk a Start w x × (count x.support ≤ 1)) bs
      both [] g s = tt
      both (b ∷ bs) g s = ((g.0, s.0), both bs g.1 s.1)

      alone :
          Homing a Start w
          → (b : Branch) → BranchOk a Start w b
          → (x y : ℕ) → has b.support x ≡ true
          → has b.support y ≡ true
          → y ≡ x
      alone homing b ok' x y hx hy =
          let (q, hq, s) = (ok'.1 x).0 hx in
          let (r, hr, t) = (ok'.1 y).0 hy in
          let same = outputs-Shows a q w b.trace x s ∙ sym (outputs-Shows a r w b.trace y t) in
          sym (Shows-run a r w b.trace y t)
          ∙ sym (homing q r hq hr same)
          ∙ Shows-run a q w b.trace x s

      single : Homing a Start w → (bs : List Branch) → All (BranchOk a Start w) bs → Single bs
      single homing [] g = tt
      single homing (b ∷ bs) g =
          let (x, hx) = g.0.2 in
          let one =
            count-Singleton n b.support x (valid b g.0)
              (hx, λ y hy. alone homing b g.0 x y hx hy) in
          (omega arith, single homing bs g.1)

-- the states of a set, as starting states
abbrev pub From : Bitset → ℕ → Type 0
From s q = has s q ≡ true

-- what the metrics leave as it was
pub record Kept (before after : PlanResult) : Type 0 where
  pub same_word : after.word ≡ before.word
  pub same_outcome : after.outcome ≡ before.outcome
  pub same_method : after.method ≡ before.method
  pub same_expansions : after.expansions ≡ before.expansions
  pub same_final : after.final_state ≡ before.final_state
  pub same_size : after.final_support_size ≡ before.final_support_size
  pub same_generation : after.generation ≡ before.generation

module _ (a : Automaton) (v : IsValid a) (s : Bitset) (m : IsBitset a.state_count s)
    {E : Status → Type 0} (len : ℕ)
    (allow : (size_mod ≤ 80 * count s) ⊎ (index_none ≤ len) → E alloc) where
  Ensures-partition_loop :
      (rest done : List ℕ) (p : Partition)
      → length done + length rest ≤ len
      → Actions a rest
      → Branches a (From s) done (count s) p
      → Covered a (From s) done p
      → Ensures
          (partition_loop a rest p)
          (λ p'.
            Branches a (From s) (done ++ rest) (count s) p' × Covered a (From s) (done ++ rest) p')
          E
  unfolding partition_loop
  Ensures-partition_loop [] done p fits acts br covers =
      Ensures-return p (rw (append-nil done) (br, covers))
  Ensures-partition_loop (c ∷ rest) done p fits acts br covers =
      let few = br.few in
      Ensures-bind
        (Ensures-apply_branches a v (From s) done c acts.0 (count s)
          (λ z. allow (elim z [ inl large ↦ inl large | inr long ↦ inr (omega arith) ])) p.branches
          0 no_branches br.good (omega arith)
          (record {
            room = omega arith;
            small = omega arith;
            good = tt;
            short = omega arith;
            few = omega arith;
          }))
        λ next (bn, _, onward).
          Ensures-mono (λ p' h. subst (After_all p') (regroup c) h) (λ _ z. z)
            (Ensures-partition_loop rest (done ++ (c ∷ [])) next
              (omega (arith, length-append done (c ∷ []))) acts.1
              (Branches-limit a (From s) (done ++ (c ∷ [])) (0 + total p.branches) (count s) next
                (omega arith) bn)
              (Covered-step a (From s) done c p.branches next br.good onward covers))
    where
      After_all : Partition → List ℕ → Type 0
      After_all p' w = Branches a (From s) w (count s) p' × Covered a (From s) w p'

      regroup : (c : ℕ) → (done ++ (c ∷ [])) ++ rest ≡ done ++ (c ∷ rest)
      regroup c = append_assoc done (c ∷ []) rest

  -- the partition that has the whole set in one branch
  Ensures-partition_init :
      (q : ℕ)
      → From s q
      → Ensures
          (partition_init s)
          (λ p.
            (p.branches ≡ record { support = s; trace = [] } ∷ [])
            × Branches a (From s) [] (count s) p
            × Covered a (From s) [] p)
          E
  unfolding partition_init
  Ensures-partition_init q hq =
      let one = one_counted a.state_count s m (q, hq) in
      Ensures-bind Ensures-request λ _ _.
        Ensures-bind (Ensures-copy a.state_count E s (let l = v.states_pos in omega arith) m)
          λ mine e. Ensures-return _ (
            rw e,
            record {
              room = omega arith;
              small = omega arith;
              good = rw e (
                (m, λ r. ((λ h. (r, h, refl)), λ (x, hx, same). subst (From s) same hx), (q, hq)),
                tt,
              );
              short = rw e (omega arith);
              few = rw e (omega arith);
            },
            λ x hx. inl refl,
          )

  -- sg_trace_partition_apply_word from the whole set
  Ensures-partition_apply_word :
      (q : ℕ) (w : Word) (source : Partition)
      → From s q
      → length w.actions ≤ len
      → Actions a w.actions
      → source.branches ≡ record { support = s; trace = [] } ∷ []
      → Ensures
          (partition_apply_word a source w)
          (λ p. Branches a (From s) w.actions (count s) p × Covered a (From s) w.actions p)
          E
  unfolding partition_apply_word
  Ensures-partition_apply_word q w source hq fits acts e = rw e (
      Ensures-bind (Ensures-guard true invalid_argument (λ z. cc)) λ _ _.
        Ensures-bind (Ensures-partition_init q hq)
          λ p (_, br, covers). Ensures-partition_loop w.actions [] p (omega arith) acts br covers)

  -- sg_fill_plan_metrics sets the four metrics: `homing` tells whether the word is homing for the
  -- set, and there are at most as many branches as states in the set, and at least one.
  pub fill_plan_metrics_decides :
      (q : ℕ) (result : PlanResult)
      → From s q
      → length result.word.actions ≤ len
      → Actions a result.word.actions
      → Ensures
          (fill_plan_metrics a s result)
          (λ r.
            ((r.homing ≡ true) ↔ Homing a (From s) result.word.actions)
            × (1 ≤ r.branch_count)
            × (r.branch_count ≤ count s)
            × Kept result r)
          E
  unfolding fill_plan_metrics
  fill_plan_metrics_decides q result hq fits acts =
      Ensures-bind (Ensures-partition_init q hq) λ source (e, _, _).
        Ensures-bind (Ensures-partition_apply_word q result.word source hq fits acts e)
          λ p (br, covers).
            let it =
              worst_iff a (From s) result.word.actions a.state_count p (λ b ok'. ok'.0) br.good
                covers in
            Ensures-return _ (
              ((λ h. it.0 (ground arith)), (λ h. let l = it.1 h in ground arith)),
              some_branch p.branches (outputs a q result.word.actions) (covers q hq),
              omega (arith, br.short, br.few),
              record {
                same_word = refl;
                same_outcome = refl;
                same_method = refl;
                same_expansions = refl;
                same_final = refl;
                same_size = refl;
                same_generation = refl;
              },
            )
    where
      some_branch : (bs : List Branch) (t : List ℕ) → HasTrace bs t → 1 ≤ length bs
      some_branch [] t h = absurd h
      some_branch (b ∷ bs) t h = omega arith
