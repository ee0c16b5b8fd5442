-- ===== src/Oracle/Fill.antt =====
-- sg_oracle_fill_pairs: each pair in its place, with the pair and the outputs behind each action.
use sync_kgraph.Base.{
  ℕ, zero, suc, ◌+◌, ◌*◌, ◌≤◌, ◌<◌, ◌≡◌, ◌≢◌, ◌∙◌, refl, sym, ap, subst, inl, inr, false, not,
  arith, ◌==◌, Bool-cases, length, length-set, get_or, set, get_or-set_self, get_or-set_ne,
}
use sync_kgraph.Automaton.{Automaton, cell, transition, observation}
use sync_kgraph.Automaton.Laws.{cell_lt, cell_injective}
use sync_kgraph.Sync.{pair_index}
use sync_kgraph.Oracle.{Oracle, fill_edges, fill_pair, fill_row, fill_rows, fill_pairs}
use sync_kgraph.Oracle.Pairs.{
  triangle, triangle_double, pair_index-triangle, pair_index-lt, pair_index-suc,
  pair_index-next_row, pair_index_injective,
}

-- the edge of an action leads from the pair of two states to that of their successors
abbrev pub EdgeOk : Automaton → Oracle → ℕ → ℕ → ℕ → ℕ → Type 0
EdgeOk a o p q pair c =
    (get_or o.next (cell a.action_count pair c) 0
      ≡ pair_index a.state_count (transition a p c) (transition a q c))
    × (get_or o.outputs_differ (cell a.action_count pair c) false
        ≡ not (observation a p c == observation a q c))

-- the place holds the pair that it is the number of, with all its edges
pub record PairOk (a : Automaton) (o : Oracle) (pair : ℕ) : Type 0 where
  pub ordered : get_or o.first pair 0 ≤ get_or o.second pair 0
  pub inside : get_or o.second pair 0 < a.state_count
  pub named : pair_index a.state_count (get_or o.first pair 0) (get_or o.second pair 0) ≡ pair
  pub edges :
      (c : ℕ)
      → c < a.action_count
      → EdgeOk a o (get_or o.first pair 0) (get_or o.second pair 0) pair c

-- the arrays have their sizes, and the tables are as they were
pub record Sized (a : Automaton) (before o : Oracle) : Type 0 where
  pub same_automaton : o.automaton ≡ a
  pub same_count : o.pair_count ≡ triangle a.state_count
  pub same_merge : o.merge_table ≡ before.merge_table
  pub same_resolution : o.resolution_table ≡ before.resolution_table
  pub first_size : length o.first ≡ triangle a.state_count
  pub second_size : length o.second ≡ triangle a.state_count
  pub next_size : length o.next ≡ triangle a.state_count * a.action_count
  pub differ_size : length o.outputs_differ ≡ triangle a.state_count * a.action_count

module _ (a : Automaton) (before : Oracle) where
  -- what the loop over the actions of one pair leaves
  record EdgesFilled (p q pair : ℕ) (o r : Oracle) : Type 0 where
    pub sized : Sized a before r
    pub same_first : r.first ≡ o.first
    pub same_second : r.second ≡ o.second
    pub filled : (c : ℕ) → c < a.action_count → EdgeOk a r p q pair c
    pub others :
        (k c : ℕ)
        → k ≢ pair
        → c < a.action_count
        → (get_or r.next (cell a.action_count k c) 0 ≡ get_or o.next (cell a.action_count k c) 0)
          × (get_or r.outputs_differ (cell a.action_count k c) false
              ≡ get_or o.outputs_differ (cell a.action_count k c) false)

  fill_edges-EdgesFilled :
      (p q pair action left : ℕ) (o : Oracle)
      → Sized a before o
      → pair < triangle a.state_count
      → action + left ≡ a.action_count
      → ((c : ℕ) → c < action → EdgeOk a o p q pair c)
      → EdgesFilled p q pair o (fill_edges a p q pair action left o)
  unfolding fill_edges
  fill_edges-EdgesFilled p q pair action zero o z l e done = record {
    sized = z;
    same_first = refl;
    same_second = refl;
    filled = λ c h. done c (omega arith);
    others = λ k c _ _. (refl, refl);
  }
  fill_edges-EdgesFilled p q pair action (suc left) o z l e done =
      let k = a.action_count in
      let edge = cell k pair action in
      let inside = cell_lt (triangle a.state_count) k pair action l (omega arith) in
      let target = pair_index a.state_count (transition a p action) (transition a q action) in
      let differ = not (observation a p action == observation a q action) in
      let o' : Oracle = record o {
        next = set o.next edge target;
        outputs_differ = set o.outputs_differ edge differ;
      } in
      let z' : Sized a before o' = record {
        same_automaton = z.same_automaton;
        same_count = z.same_count;
        same_merge = z.same_merge;
        same_resolution = z.same_resolution;
        first_size = z.first_size;
        second_size = z.second_size;
        next_size = length-set o.next edge target ∙ z.next_size;
        differ_size = length-set o.outputs_differ edge differ ∙ z.differ_size;
      } in
      let away : (c : ℕ) → c < k → (j : ℕ) → (j ≡ pair → c ≢ action) → edge ≢ cell k j c =
        λ c h j ne x.
          let (s, t) = cell_injective k pair action j c (omega arith) h x in ne (sym s) (sym t) in
      let more : (c : ℕ) → c < action + 1 → EdgeOk a o' p q pair c = λ c h.
        elim (Bool-cases (c == action)) [
          | inl here ↦
              let s : c ≡ action = ground arith in
              rw s (
                get_or-set_self o.next edge target 0 (omega (arith, z.next_size)),
                get_or-set_self o.outputs_differ edge differ false (omega (arith, z.differ_size)),
              )
          | inr other ↦
              let ne = away c (omega arith) pair (λ _ x. ground arith) in
              (
                get_or-set_ne o.next edge (cell k pair c) target 0 ne ∙ (done c (ground arith)).0,
                get_or-set_ne o.outputs_differ edge (cell k pair c) differ false ne
                    ∙ (done c (ground arith)).1,
              )
        ] in
      let rest = fill_edges-EdgesFilled p q pair (action + 1) left o' z' l (omega arith) more in
      record {
        sized = rest.sized;
        same_first = rest.same_first;
        same_second = rest.same_second;
        filled = rest.filled;
        others = λ j c ne h.
            let x = away c h j (λ s. absurd (ne s)) in
            (
              (rest.others j c ne h).0 ∙ get_or-set_ne o.next edge (cell k j c) target 0 x,
              (rest.others j c ne h).1
                  ∙ get_or-set_ne o.outputs_differ edge (cell k j c) differ false x,
            );
      }

  -- the pairs below are in their places
  record FilledTo (pair : ℕ) (o : Oracle) : Type 0 where
    pub sized : Sized a before o
    pub ok_below : (k : ℕ) → k < pair → PairOk a o k

  -- What another pair leaves as it was is still right.
  pub PairOk-kept :
      (o r : Oracle) (k : ℕ)
      → get_or r.first k 0 ≡ get_or o.first k 0
      → get_or r.second k 0 ≡ get_or o.second k 0
      → ((c : ℕ)
          → c < a.action_count
          → (get_or r.next (cell a.action_count k c) 0 ≡ get_or o.next (cell a.action_count k c) 0)
            × (get_or r.outputs_differ (cell a.action_count k c) false
                ≡ get_or o.outputs_differ (cell a.action_count k c) false))
      → PairOk a o k
      → PairOk a r k
  PairOk-kept o r k ef es ee g = record {
    ordered = omega (arith, g.ordered);
    inside = omega (arith, g.inside);
    named = rw ef (rw es g.named);
    edges =
        λ c h. let (n, d) = g.edges c h in let (en, ed) = ee c h in rw ef (rw es (en ∙ n, ed ∙ d));
  }

  fill_pair-FilledTo :
      (p q pair : ℕ) (o : Oracle)
      → FilledTo pair o
      → p ≤ q
      → q < a.state_count
      → pair_index a.state_count p q ≡ pair
      → FilledTo (pair + 1) (fill_pair a p q pair o)
  unfolding fill_pair
  fill_pair-FilledTo p q pair o f l h e =
      let z = f.sized in
      let inside : pair < triangle a.state_count =
        omega (arith, pair_index-lt a.state_count p q l h) in
      let o' : Oracle = record o { first = set o.first pair p; second = set o.second pair q } in
      let z' : Sized a before o' = record {
        same_automaton = z.same_automaton;
        same_count = z.same_count;
        same_merge = z.same_merge;
        same_resolution = z.same_resolution;
        first_size = length-set o.first pair p ∙ z.first_size;
        second_size = length-set o.second pair q ∙ z.second_size;
        next_size = z.next_size;
        differ_size = z.differ_size;
      } in
      let k = a.action_count in
      let r =
        fill_edges-EdgesFilled p q pair 0 k o' z' inside (omega arith)
          (λ c x. absurd (omega arith)) in
      record {
        sized = r.sized;
        ok_below = λ j b. elim (Bool-cases (j == pair)) [
          | inl here ↦
              let s : j ≡ pair = ground arith in
              let ef =
                ap (λ xs. get_or xs pair 0) r.same_first
                ∙ get_or-set_self o.first pair p 0 (omega (arith, z.first_size)) in
              let es =
                ap (λ xs. get_or xs pair 0) r.same_second
                ∙ get_or-set_self o.second pair q 0 (omega (arith, z.second_size)) in
              rw s (record {
                ordered = omega arith;
                inside = omega arith;
                named = rw ef (rw es e);
                edges = λ c x. rw ef (rw es (r.filled c x));
              })
          | inr other ↦
              let ne : j ≢ pair = λ s. ground arith in
              PairOk-kept o _ j
                (ap (λ xs. get_or xs j 0) r.same_first
                  ∙ get_or-set_ne o.first pair j p 0 (λ s. ne (sym s)))
                (ap (λ xs. get_or xs j 0) r.same_second
                  ∙ get_or-set_ne o.second pair j q 0 (λ s. ne (sym s)))
                (λ c x. r.others j c ne x) (f.ok_below j (ground arith))
        ];
      }

  fill_row-FilledTo :
      (p q left pair : ℕ) (o : Oracle)
      → FilledTo pair o
      → p ≤ q
      → q + left ≡ a.state_count
      → (0 < left → pair_index a.state_count p q ≡ pair)
      → ((fill_row a p q left pair o).1 ≡ pair + left)
        × FilledTo (pair + left) (fill_row a p q left pair o).0
  unfolding fill_row
  fill_row-FilledTo p q zero pair o f l e start =
      let s : pair + 0 ≡ pair = omega arith in (omega arith, subst (λ k. FilledTo k o) (sym s) f)
  fill_row-FilledTo p q (suc left) pair o f l e start =
      let rest =
        fill_row-FilledTo p (q + 1) left (pair + 1) (fill_pair a p q pair o)
          (fill_pair-FilledTo p q pair o f l (omega arith) (start (omega arith))) (omega arith)
          (omega arith)
          (λ x.
            let s : q + 1 ≡ suc q = omega arith in
            rw s (
              omega
                (arith, pair_index-suc a.state_count p q l (omega arith), start (omega arith)))) in
      let s : pair + suc left ≡ pair + 1 + left = omega arith in rw s rest

  fill_rows-FilledTo :
      (p left pair : ℕ) (o : Oracle)
      → FilledTo pair o
      → p + left ≡ a.state_count
      → (0 < left → pair_index a.state_count p p ≡ pair)
      → (left ≡ 0 → pair ≡ triangle a.state_count)
      → FilledTo (triangle a.state_count) (fill_rows a p left pair o)
  unfolding fill_rows
  fill_rows-FilledTo p zero pair o f e start end = subst (λ k. FilledTo k o) (end refl) f
  fill_rows-FilledTo p (suc left) pair o f e start end =
      let n = a.state_count in
      let row =
        fill_row-FilledTo p p (suc left) pair o f (omega arith) e (λ _. start (omega arith)) in
      let s = row.0 in
      fill_rows-FilledTo (p + 1) left (fill_row a p p (suc left) pair o).1
        (fill_row a p p (suc left) pair o).0
        (subst (λ k. FilledTo k (fill_row a p p (suc left) pair o).0) (sym s) row.1) (omega arith)
        (λ more.
          let t : p + 1 ≡ suc p = omega arith in
          rw t (omega (arith, pair_index-next_row n p (omega arith), start (omega arith), row.0)))
        (λ last.
          let t = pair_index-triangle n p p (omega arith) (omega arith) in
          let d : n ≡ suc p = omega arith in
          let u : triangle n ≡ triangle p + suc p = ap triangle d in
          let v = triangle_double n in
          let x = ap (λ (y : ℕ). y * n) d in
          let more : suc p * n ≡ p * n + n = grind arith in
          let w : n * (n + 1) ≡ n * n + n = grind arith in
          omega (arith, start (omega arith), row.0))

-- All pairs are in their places.
abbrev pub Filled : Automaton → Oracle → Oracle → Type 0
Filled a before o = Sized a before o × ((k : ℕ) → k < triangle a.state_count → PairOk a o k)

pub fill_pairs-Filled :
    (a : Automaton) (o : Oracle) → 0 < a.state_count → Sized a o o → Filled a o (fill_pairs o)
unfolding fill_pairs pair_index
fill_pairs-Filled a o pos z =
    subst (λ b. Filled a o (fill_rows b 0 b.state_count 0 o)) (sym z.same_automaton)
      (let r =
          fill_rows-FilledTo a o 0 a.state_count 0 o
            (record { sized = z; ok_below = λ k h. absurd (omega arith) }) (omega arith)
            (λ _. ground arith) (λ none_left. absurd (omega arith)) in
        (r.sized, r.ok_below))

-- The place of a pair holds the pair itself.
pub Filled-pair :
    (a : Automaton) (before o : Oracle) (p q : ℕ)
    → Filled a before o
    → p ≤ q
    → q < a.state_count
    → (get_or o.first (pair_index a.state_count p q) 0 ≡ p)
      × (get_or o.second (pair_index a.state_count p q) 0 ≡ q)
Filled-pair a before o p q (z, ok_at) l h =
    let k = pair_index a.state_count p q in
    let g = ok_at k (pair_index-lt a.state_count p q l h) in
    pair_index_injective a.state_count (get_or o.first k 0) (get_or o.second k 0) p q g.ordered
      g.inside l h g.named
