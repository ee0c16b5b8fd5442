-- ===== src/Partition/Branches.antt =====
-- The branches after a word: each has the states that its trace allows, and each run has its branch.
use sync_kgraph.Base.{
  ℕ, zero, suc, ◌+◌, ◌*◌, ◌≤◌, ◌<◌, ◌≡◌, refl, sym, subst, ◌≢◌, ◌↔◌, ◌⊎◌, inl, inr, true, not, List,
  [], ◌∷◌, ◌++◌, Option, none, some, arith, ◌==◌, Bool-cases, length, length-append, get_or,
  replicate, All, All-append, index_none, size_mod, Status, alloc, Ensures, Ensures-return,
  Ensures-bind, Ensures-guard, Ensures-request, Ensures-request_all, Ensures-grow, Ensures-mono,
}
use sync_kgraph.Bitset.{Bitset, has, count}
use sync_kgraph.Bitset.Laws.{IsBitset}
use sync_kgraph.Bitset.Members.{count_zero_iff, lt_of_has}
use sync_kgraph.Automaton.{Automaton, transition, observation}
use sync_kgraph.Automaton.Laws.{IsValid, observation-lt}
use sync_kgraph.Motion.Traces.{Shows, After, Shows-length, Shows-last, Shows-init}
use sync_kgraph.Partition.{Branch, Partition, partition_add, add_groups, apply_branches}
use sync_kgraph.Partition.Groups.{
  sizes, GroupBelow, Grouped, Grouped-start, Grouped-count, Ensures-group_loop,
}

-- some branch has the trace
abbrev pub HasTrace : List Branch → List ℕ → Type 0
HasTrace [] t = ⊥
HasTrace (b ∷ bs) t = (b.trace ≡ t) ⊎ HasTrace bs t

HasTrace-left : (bs cs : List Branch) (t : List ℕ) → HasTrace bs t → HasTrace (bs ++ cs) t
HasTrace-left [] cs t h = absurd h
HasTrace-left (b ∷ bs) cs t (inl e) = inl e
HasTrace-left (b ∷ bs) cs t (inr h) = inr (HasTrace-left bs cs t h)

HasTrace-last : (bs : List Branch) (b : Branch) → HasTrace (bs ++ (b ∷ [])) b.trace
HasTrace-last [] b = inl refl
HasTrace-last (x ∷ bs) b = inr (HasTrace-last bs b)

-- the states of all branches, counted together
abbrev pub total : List Branch → ℕ
total [] = 0
total (b ∷ bs) = count b.support + total bs

total-append : (bs cs : List Branch) → total (bs ++ cs) ≡ total bs + total cs
total-append [] cs = omega arith
total-append (b ∷ bs) cs = omega (arith, total-append bs cs)

-- a branch after the word: a nonempty set of exactly the states that its trace allows
abbrev pub BranchOk : Automaton → (ℕ → Type 0) → List ℕ → Branch → Type 0
BranchOk a Start w b =
    IsBitset a.state_count b.support
    × ((r : ℕ) → (has b.support r ≡ true) ↔ After a Start w b.trace r)
    × ((r : ℕ) × (has b.support r ≡ true))

-- branches after the word, at most `limit` states together
pub record Branches (a : Automaton) (Start : ℕ → Type 0) (w : List ℕ) (limit : ℕ) (p : Partition)
    : Type 0 where
  pub room : length p.branches ≤ p.capacity
  pub small : p.capacity * 40 < size_mod
  pub good : All (BranchOk a Start w) p.branches
  pub short : length p.branches ≤ total p.branches
  pub few : total p.branches ≤ limit

pub Branches-limit :
    (a : Automaton) (Start : ℕ → Type 0) (w : List ℕ) (limit limit' : ℕ) (p : Partition)
    → limit ≤ limit'
    → Branches a Start w limit p
    → Branches a Start w limit' p
Branches-limit a Start w limit limit' p l br = record {
  room = br.room;
  small = br.small;
  good = br.good;
  short = br.short;
  few = omega (arith, br.few);
}

-- what holds of each group, with its output
abbrev Spread : (ℕ → Option Bitset → Type 0) → List (Option Bitset) → ℕ → Type 0
Spread P groups output = (j : ℕ) → j < length groups → P (output + j) (get_or groups j none)

module _ (P : ℕ → Option Bitset → Type 0) (g : Option Bitset) (gs : List (Option Bitset))
    (o : ℕ) where
  Spread-head : Spread P (g ∷ gs) o → P o g
  Spread-head h = subst (λ k. P k g) (let e : o + 0 ≡ o = omega arith in e) (h 0 (omega arith))

  Spread-tail : Spread P (g ∷ gs) o → Spread P gs (o + 1)
  Spread-tail h j l =
      subst (λ k. P k (get_or gs j none)) (let e : o + suc j ≡ o + 1 + j = omega arith in e)
        (h (suc j) (omega arith))

  Spread-cons : P o g → Spread P gs (o + 1) → Spread P (g ∷ gs) o
  Spread-cons h t zero l = subst (λ k. P k g) (let e : o ≡ o + 0 = omega arith in e) h
  Spread-cons h t (suc j) l =
      subst (λ k. P k (get_or gs j none)) (let e : o + 1 + j ≡ o + suc j = omega arith in e)
        (t j (omega arith))

-- a group that is there has its branch
abbrev Listed : List Branch → List ℕ → ℕ → Option Bitset → Type 0
Listed bs trace o g = g ≢ none → HasTrace bs (trace ++ (o ∷ []))

-- every state of every branch goes on in a branch with its output behind the trace
abbrev pub Onward : Automaton → ℕ → List Branch → List Branch → Type 0
Onward a c bs cs =
    All (λ b. (q : ℕ) → has b.support q ≡ true → HasTrace cs (b.trace ++ (observation a q c ∷ [])))
      bs

-- a nonempty set counts
pub one_counted : (n : ℕ) (s : Bitset) → IsBitset n s → (r : ℕ) × (has s r ≡ true) → 1 ≤ count s
one_counted n s v (r, h) = elim (Bool-cases (count s == 0)) [
  | inl nothing ↦ let e = (count_zero_iff n s v).0 (ground arith) r in absurd (ground arith)
  | inr some_r ↦ ground arith
]

module _ (a : Automaton) (v : IsValid a) (Start : ℕ → Type 0) (w : List ℕ) (c : ℕ)
    (hc : c < a.action_count) where
  abbrev longer : List ℕ
  longer = w ++ (c ∷ [])

  -- the trace of a branch is as long as the word
  trace-length : (b : Branch) → BranchOk a Start w b → length b.trace ≡ length w
  trace-length b (_, all, (r, h)) = let (q, _, s) = (all r).0 h in Shows-length a q w b.trace r s

  -- a group of a branch, with its output behind the trace, is a branch after the longer word
  group-BranchOk :
      (b : Branch) (ok' : BranchOk a Start w b) (o : ℕ) (s : Bitset)
      → GroupBelow a v b.support ok'.0 c hc a.state_count o (some s)
      → BranchOk a Start longer (record { support = s; trace = b.trace ++ (o ∷ []) })
  group-BranchOk b (m, all, some_r) o s (valid, group, some_s) = (
    valid,
    λ r. (
      λ h.
          let (q, _, hq, eo, et) = (group r).0 h in
          let (p, hp, shows) = (all q).0 hq in
          let it = Shows-last a p w b.trace q c shows in
          (
            p,
            hp,
            subst (λ x. Shows a p longer (b.trace ++ (o ∷ [])) x) et
                (subst (λ x. Shows a p longer (b.trace ++ (x ∷ [])) (transition a q c)) eo it),
          ),
      λ (p, hp, shows).
          let (q, rest, eo, et) = Shows-init a p w b.trace r c o shows in
          let here = (all q).1 (p, hp, rest) in
          (group r).1 (q, lt_of_has a.state_count b.support q m here, here, eo, et),
    ),
    some_s,
  )

  module _ {E : Status → Type 0} (bound : ℕ)
      (allow : (size_mod ≤ 80 * bound) ⊎ (index_none ≤ length w) → E alloc) where
    -- one more branch
    Ensures-partition_add :
        (b : Branch) (ok' : BranchOk a Start w b) (limit : ℕ) (s : Bitset) (o : ℕ) (p : Partition)
        → limit + count s ≤ bound
        → GroupBelow a v b.support ok'.0 c hc a.state_count o (some s)
        → Branches a Start longer limit p
        → Ensures
            (partition_add p s b.trace o)
            (λ p'.
              (p'.branches
                ≡ p.branches ++ (record { support = s; trace = b.trace ++ (o ∷ []) } ∷ []))
              × Branches a Start longer (limit + count s) p')
            E
    unfolding partition_add
    Ensures-partition_add b ok' limit s o p fits g br =
        let short = br.short in
        let few = br.few in
        let fresh = let x : Branch = record { support = s; trace = b.trace ++ (o ∷ []) } in x in
        Ensures-bind
          (Ensures-grow 8 40 (length p.branches) p.capacity (λ large. allow (inl (omega arith)))
            (omega arith) (omega arith) (omega arith) br.room br.small)
          λ capacity (more, small).
            Ensures-bind
              (Ensures-guard (not (length b.trace == index_none)) alloc
                (λ z. allow (inr (let e = trace-length b ok' in ground arith))))
              λ _ _. Ensures-bind Ensures-request λ _ _. Ensures-return _ (
                refl,
                record {
                  room = omega (arith, length-append p.branches (fresh ∷ []));
                  small = small;
                  good =
                      All-append (BranchOk a Start longer) p.branches (fresh ∷ []) br.good
                        (group-BranchOk b ok' o s g, tt);
                  short = omega (
                    arith,
                    length-append p.branches (fresh ∷ []),
                    total-append p.branches (fresh ∷ []),
                    one_counted a.state_count s g.0 g.2,
                  );
                  few = omega (arith, total-append p.branches (fresh ∷ []));
                },
              )

    -- the groups from `output` on become branches
    Ensures-add_groups :
        (b : Branch) (ok' : BranchOk a Start w b) (limit : ℕ) (groups : List (Option Bitset))
        (output : ℕ) (p : Partition)
        → limit + sizes groups ≤ bound
        → Spread (GroupBelow a v b.support ok'.0 c hc a.state_count) groups output
        → Branches a Start longer limit p
        → Ensures
            (add_groups b.trace groups output p)
            (λ p'.
              Branches a Start longer (limit + sizes groups) p'
              × ((t : List ℕ) → HasTrace p.branches t → HasTrace p'.branches t)
              × Spread (Listed p'.branches b.trace) groups output)
            E
    unfolding add_groups
    Ensures-add_groups b ok' limit [] output p fits gs br = Ensures-return p (
      Branches-limit a Start longer limit (limit + 0) p (omega arith) br,
      (λ t h. h),
      λ j l. absurd (omega arith),
    )
    Ensures-add_groups b ok' limit (none ∷ groups) output p fits gs br =
        Ensures-mono
          (λ p' (br', keeps, has_all). (
            Branches-limit a Start longer (limit + sizes groups) (limit + (0 + sizes groups)) p'
                (omega arith) br',
            keeps,
            Spread-cons (Listed p'.branches b.trace) none groups output (λ e. absurd (e refl))
                has_all,
          ))
          (λ _ z. z)
          (Ensures-add_groups b ok' limit groups (output + 1) p (omega arith)
            (Spread-tail (GroupBelow a v b.support ok'.0 c hc a.state_count) none groups output gs)
            br)
    Ensures-add_groups b ok' limit (some s ∷ groups) output p fits gs br =
        let here =
          Spread-head (GroupBelow a v b.support ok'.0 c hc a.state_count) (some s) groups output
            gs in
        let fresh =
          let x : Branch = record { support = s; trace = b.trace ++ (output ∷ []) } in x in
        Ensures-bind (Ensures-partition_add b ok' limit s output p (omega arith) here br)
          λ q (e, bq).
            Ensures-mono
              (λ p' (br', keeps, has_all). (
                Branches-limit a Start longer (limit + count s + sizes groups)
                    (limit + (count s + sizes groups)) p' (omega arith) br',
                λ t h. keeps t (
                    subst (λ bs. HasTrace bs t) (sym e)
                      (HasTrace-left p.branches (fresh ∷ []) t h)),
                Spread-cons (Listed p'.branches b.trace) (some s) groups output
                    (λ _. keeps (b.trace ++ (output ∷ [])) (
                      subst (λ bs. HasTrace bs (b.trace ++ (output ∷ []))) (sym e)
                        (HasTrace-last p.branches fresh)))
                    has_all,
              ))
              (λ _ z. z)
              (Ensures-add_groups b ok' (limit + count s) groups (output + 1) q (omega arith)
                (Spread-tail (GroupBelow a v b.support ok'.0 c hc a.state_count) (some s) groups
                  output gs)
                bq)

    -- sg_trace_partition_apply_action takes branches after a word to branches after the word and the
    -- action: each has exactly the states that its trace allows, no branch of the destination is
    -- lost, and each state of each source branch goes on in a branch with its output behind the
    -- trace. The states of all branches, counted together, do not grow. Unless the allocator refuses,
    -- it fails only when `bound` branches, or a trace, do not fit a size_t.
    pub Ensures-apply_branches :
        (bs : List Branch) (limit : ℕ) (p : Partition)
        → All (BranchOk a Start w) bs
        → limit + total bs ≤ bound
        → Branches a Start longer limit p
        → Ensures
            (apply_branches a c bs p)
            (λ p'.
              Branches a Start longer (limit + total bs) p'
              × ((t : List ℕ) → HasTrace p.branches t → HasTrace p'.branches t)
              × Onward a c bs p'.branches)
            E
    unfolding apply_branches
    Ensures-apply_branches [] limit p good fits br =
        Ensures-return p
          (Branches-limit a Start longer limit (limit + 0) p (omega arith) br, (λ t h. h), tt)
    Ensures-apply_branches (b ∷ bs) limit p good fits br =
        let ok' = good.0 in
        let m = ok'.0 in
        Ensures-bind (Ensures-request_all 2) λ _ _.
          Ensures-bind
            (Ensures-group_loop a v b.support m c hc a.state_count 0 (replicate a.output_count none)
              (omega arith) (Grouped-start a v b.support m c hc))
            λ groups g.
              let small = Grouped-count a v b.support m c hc groups g in
              let sized = g.sized in
              Ensures-bind
                (Ensures-add_groups b ok' limit groups 0 p (omega arith)
                  (λ j l.
                    subst
                      (λ k. GroupBelow a v b.support m c hc a.state_count k (get_or groups j none))
                      (let e : j ≡ 0 + j = omega arith in e) (g.each j (omega arith)))
                  br)
                λ q (bq, keeps, has_all).
                  Ensures-mono
                    (λ p' (bp, keeps', onward). (
                      Branches-limit a Start longer (limit + count b.support + total bs)
                          (limit + total (b ∷ bs)) p' (omega arith) bp,
                      λ t h. keeps' t (keeps t h),
                      (
                        λ x h.
                            keeps' (b.trace ++ (observation a x c ∷ []))
                              (goes_on b ok' groups g q.branches has_all x h),
                        onward,
                      ),
                    ))
                    (λ _ z. z)
                    (Ensures-apply_branches bs (limit + count b.support) q good.1 (omega arith) (
                      Branches-limit a Start longer (limit + sizes groups) (limit + count b.support)
                        q (omega arith) bq))
      where
        goes_on :
            (b : Branch) (ok' : BranchOk a Start w b) (groups : List (Option Bitset))
            → (g : Grouped a v b.support ok'.0 c hc a.state_count groups) → (cs : List Branch)
            → Spread (Listed cs b.trace) groups 0
            → (x : ℕ) → has b.support x ≡ true
            → HasTrace cs (b.trace ++ (observation a x c ∷ []))
        goes_on b ok' groups g cs listed x h =
            let lx = lt_of_has a.state_count b.support x ok'.0 h in
            let lo = observation-lt a v x c lx hc in
            let sized = g.sized in
            let plain : 0 + observation a x c ≡ observation a x c = omega arith in
            subst (λ o. HasTrace cs (b.trace ++ (o ∷ []))) plain
              (listed (observation a x c) (omega arith) (λ e.
                let nothing =
                  subst (GroupBelow a v b.support ok'.0 c hc a.state_count (observation a x c)) e
                    (g.each (observation a x c) lo) in
                nothing (transition a x c) (x, lx, h, refl, refl)))
