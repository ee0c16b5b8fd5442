-- ===== src/Oracle/Buckets.antt =====
-- sg_predecessors_build: a counting sort that puts the edges into a pair one behind the other.
use sync_kgraph.Base.{
  ℕ, zero, suc, ◌+◌, ◌*◌, ◌≤◌, ◌<◌, ◌≡◌, ◌≢◌, ◌∙◌, refl, sym, ap, subst, inl, inr, arith, ltb,
  ltb→lt, ◌==◌, Bool-cases, if◌then◌else◌, List, length, length-set, length-replicate, get_or,
  get_or-replicate, set, replicate, get_or-set_self, get_or-set_ne, Status, Ensures, Ensures-return,
  Ensures-bind, Ensures-request_all,
}
use sync_kgraph.Automaton.{cell}
use sync_kgraph.Automaton.Laws.{cell_lt, cell_injective}
use sync_kgraph.Oracle.{
  Oracle, Predecessors, next_of, count_targets, sum_offsets, place_edge, place_actions, place_pairs,
  predecessors_build,
}

module _ (o : Oracle) where
  abbrev target : ℕ → ℕ
  target edge = get_or o.next edge 0

  abbrev hit : ℕ → ℕ → ℕ
  hit t edge = if target edge == t then 1 else 0

  -- how many of the first edges lead to a pair
  abbrev rank : ℕ → ℕ → ℕ
  rank t zero = 0
  rank t (suc edge) = rank t edge + hit t edge

  -- how many of the first edges lead to a pair below
  abbrev start : ℕ → ℕ → ℕ
  start zero edge = 0
  start (suc t) edge = start t edge + rank t edge

  rank_mono : (t e d : ℕ) → e ≤ d → rank t e ≤ rank t d
  rank_mono t e zero h = let z : e ≡ 0 = omega arith in rw z (omega arith)
  rank_mono t e (suc d) h = elim (Bool-cases (ltb d e)) [
    | inl last ↦ let z : e ≡ suc d = ground arith in rw z (omega arith)
    | inr before ↦ omega (arith, rank_mono t e d (ground arith))
  ]

  start_mono : (t u e : ℕ) → t ≤ u → start t e ≤ start u e
  start_mono t zero e h = let z : t ≡ 0 = omega arith in rw z (omega arith)
  start_mono t (suc u) e h = elim (Bool-cases (ltb u t)) [
    | inl last ↦ let z : t ≡ suc u = ground arith in rw z (omega arith)
    | inr before ↦ omega (arith, start_mono t u e (ground arith))
  ]

  start_zero : (t : ℕ) → start t 0 ≡ 0
  start_zero zero = refl
  start_zero (suc t) = omega (arith, start_zero t)

  start-suc : (t e : ℕ) → start t (suc e) ≡ start t e + (if ltb (target e) t then 1 else 0)
  start-suc zero e = ground arith
  start-suc (suc t) e = let ih = start-suc t e in ground arith

  -- Every edge counts once.
  start_all : (t e : ℕ) → ((d : ℕ) → d < e → target d < t) → start t e ≡ e
  start_all t zero h = start_zero t
  start_all t (suc e) h =
      let ih = start_all t e (λ d l. h d (omega arith)) in
      let l = h e (omega arith) in let s = start-suc t e in ground arith

  -- The places of different pairs are apart.
  place_apart :
      (e t u i : ℕ)
      → start t e ≤ i
      → i < start (suc t) e
      → start u e ≤ i
      → i < start (suc u) e
      → t ≡ u
  place_apart e t u i a b c d = elim (Bool-cases (ltb t u)) [
    | inl below ↦ absurd (omega (arith, start_mono (suc t) u e (omega (arith, ltb→lt t u below))))
    | inr above ↦ elim (Bool-cases (ltb u t)) [
      | inl over ↦ absurd (omega (arith, start_mono (suc u) t e (omega (arith, ltb→lt u t over))))
      | inr level ↦ ground arith
    ]
  ]

  abbrev actions : ℕ
  actions = o.automaton.action_count

  abbrev edges : ℕ
  edges = o.pair_count * actions

  -- the place of an edge among those of its target
  abbrev At : Predecessors → ℕ → ℕ → ℕ → Type 0
  At p pair action i = (get_or p.pairs i 0 ≡ pair) × (get_or p.actions i 0 ≡ action)

  -- the edges into each pair, and no others, stand from its offset to the next
  pub record Grouped (p : Predecessors) : Type 0 where
    pub sound :
        (t i : ℕ)
        → t < o.pair_count
        → get_or p.offsets t 0 ≤ i
        → i < get_or p.offsets (t + 1) 0
        → (get_or p.pairs i 0 < o.pair_count)
          × (get_or p.actions i 0 < actions)
          × (next_of o (get_or p.pairs i 0) (get_or p.actions i 0) ≡ t)
    pub complete :
        (s c : ℕ)
        → s < o.pair_count
        → c < actions
        → (i : ℕ) × (get_or p.offsets (next_of o s c) 0 ≤ i)
          × (i < get_or p.offsets (next_of o s c + 1) 0)
          × At p s c i

  module _ (inside : (e : ℕ) → e < edges → target e < o.pair_count) where
    count_targets-rank :
        (edge left : ℕ) (counts : List ℕ)
        → edge + left ≡ edges
        → length counts ≡ o.pair_count
        → ((t : ℕ) → t < o.pair_count → get_or counts t 0 ≡ rank t edge)
        → (length (count_targets o edge left counts) ≡ o.pair_count)
          × ((t : ℕ)
              → t < o.pair_count
              → get_or (count_targets o edge left counts) t 0 ≡ rank t edges)
    unfolding count_targets
    count_targets-rank edge zero counts e size has =
        let s : edge ≡ edges = omega arith in (size, λ t h. has t h ∙ ap (rank t) s)
    count_targets-rank edge (suc left) counts e size has =
        let s : edge + 1 ≡ suc edge = omega arith in
        let u = target edge in
        let l = inside edge (omega arith) in
        count_targets-rank (edge + 1) left (set counts u (get_or counts u 0 + 1)) (omega arith)
          (length-set counts u (get_or counts u 0 + 1) ∙ size)
          (λ t h. rw s (elim (Bool-cases (u == t)) [
            | inl here ↦
                let x : u ≡ t = ground arith in
                let g = get_or-set_self counts u (get_or counts u 0 + 1) 0 (omega arith) in
                let k = has u l in
                subst
                  (λ y.
                    get_or (set counts u (get_or counts u 0 + 1)) y 0 ≡ rank y edge + hit y edge)
                  x (ground arith)
            | inr other ↦
                let ne : u ≢ t = λ x. ground arith in
                let g = get_or-set_ne counts u t (get_or counts u 0 + 1) 0 ne in
                let k = has t h in ground arith
          ]))

    -- the offsets are the starts, and so are the counts
    record Summed (offsets counts : List ℕ) : Type 0 where
      pub offsets_size : length offsets ≡ o.pair_count + 1
      pub counts_size : length counts ≡ o.pair_count
      pub offsets_at : (t : ℕ) → t ≤ o.pair_count → get_or offsets t 0 ≡ start t edges
      pub counts_at : (t : ℕ) → t < o.pair_count → get_or counts t 0 ≡ start t edges

    sum_offsets-Summed :
        (pair left : ℕ) (offsets counts : List ℕ)
        → pair + left ≡ o.pair_count
        → length offsets ≡ o.pair_count + 1
        → length counts ≡ o.pair_count
        → ((t : ℕ) → t ≤ pair → get_or offsets t 0 ≡ start t edges)
        → ((t : ℕ) → t < pair → get_or counts t 0 ≡ start t edges)
        → ((t : ℕ) → pair ≤ t → t < o.pair_count → get_or counts t 0 ≡ rank t edges)
        → Summed (sum_offsets pair left offsets counts).0 (sum_offsets pair left offsets counts).1
    unfolding sum_offsets
    sum_offsets-Summed pair zero offsets counts e so sc at_offsets at_counts ranks = record {
      offsets_size = so;
      counts_size = sc;
      offsets_at = λ t h. at_offsets t (omega arith);
      counts_at = λ t h. at_counts t (omega arith);
    }
    sum_offsets-Summed pair (suc left) offsets counts e so sc at_offsets at_counts ranks =
        let v = get_or offsets pair 0 in
        let w = get_or counts pair 0 in
        let s : pair + 1 ≡ suc pair = omega arith in
        sum_offsets-Summed (pair + 1) left (set offsets (pair + 1) (v + w)) (set counts pair v)
          (omega arith) (length-set offsets (pair + 1) (v + w) ∙ so) (length-set counts pair v ∙ sc)
          (λ t h. elim (Bool-cases (t == pair + 1)) [
            | inl here ↦
                let x : t ≡ pair + 1 = ground arith in
                let y = at_offsets pair (omega arith) in
                let z = ranks pair (omega arith) (omega arith) in
                let last : start (pair + 1) edges ≡ v + w = rw s (omega arith) in
                rw x (get_or-set_self offsets (pair + 1) (v + w) 0 (omega arith) ∙ sym last)
            | inr other ↦
                get_or-set_ne offsets (pair + 1) t (v + w) 0 (λ x. ground arith)
                ∙ at_offsets t (ground arith)
          ])
          (λ t h. elim (Bool-cases (t == pair)) [
            | inl here ↦
                let x : t ≡ pair = ground arith in
                rw x (get_or-set_self counts pair v 0 (omega arith) ∙ at_offsets pair (omega arith))
            | inr other ↦
                get_or-set_ne counts pair t v 0 (λ x. ground arith) ∙ at_counts t (ground arith)
          ])
          (λ t h k. get_or-set_ne counts pair t v 0 (λ x. omega arith) ∙ ranks t (omega arith) k)

    -- the edge has a place among the first edges into its target
    abbrev Found : ℕ → Predecessors → ℕ → ℕ → Type 0
    Found edge p s c =
        (i : ℕ) × (start (next_of o s c) edges ≤ i)
        × (i < start (next_of o s c) edges + rank (next_of o s c) edge)
        × At p s c i

    -- the edges below are in their places, and the counts are the next free ones
    record Placed (edge : ℕ) (offsets : List ℕ) (p : Predecessors) (counts : List ℕ) : Type 0 where
      pub same_offsets : p.offsets ≡ offsets
      pub pairs_size : length p.pairs ≡ edges
      pub actions_size : length p.actions ≡ edges
      pub counts_size : length counts ≡ o.pair_count
      pub free : (t : ℕ) → t < o.pair_count → get_or counts t 0 ≡ start t edges + rank t edge
      pub sound :
          (t i : ℕ)
          → t < o.pair_count
          → start t edges ≤ i
          → i < start t edges + rank t edge
          → (get_or p.pairs i 0 < o.pair_count)
            × (get_or p.actions i 0 < actions)
            × (next_of o (get_or p.pairs i 0) (get_or p.actions i 0) ≡ t)
      pub complete :
          (s c : ℕ) → s < o.pair_count → c < actions → cell actions s c < edge → Found edge p s c

    place_edge-Placed :
        (pair action : ℕ) (offsets : List ℕ) (p : Predecessors) (counts : List ℕ)
        → pair < o.pair_count
        → action < actions
        → Placed (cell actions pair action) offsets p counts
        → Placed
            (suc (cell actions pair action))
            offsets
            (place_edge o pair action p counts).0
            (place_edge o pair action p counts).1
    unfolding place_edge
    place_edge-Placed pair action offsets p counts hp ha inv =
        let e = cell actions pair action in
        let below : e < edges = cell_lt o.pair_count actions pair action hp ha in
        let u = next_of o pair action in
        let hu : u < o.pair_count = inside e below in
        let i = get_or counts u 0 in
        let free_u : i ≡ start u edges + rank u e = inv.free u hu in
        let room : rank u (suc e) ≤ rank u edges = rank_mono u (suc e) edges below in
        let self : hit u e ≡ 1 = ground arith in
        let inner : i < start (suc u) edges = omega arith in
        let fits : i < edges =
          let whole = start_all o.pair_count edges inside in
          omega (arith, start_mono (suc u) o.pair_count edges hu) in
        let apart : (t j : ℕ)
            → t < o.pair_count
            → start t edges ≤ j
            → j < start t edges + rank t e
            → i ≢ j =
          λ t j ht lo hi x.
            let full : rank t e ≤ rank t edges = rank_mono t e edges (omega arith) in
            let same : u ≡ t =
              place_apart edges u t j (omega arith) (omega arith) lo (omega arith) in
            let r = ap (λ y. start y edges + rank y e) same in omega arith in
        record {
          same_offsets = inv.same_offsets;
          pairs_size = length-set p.pairs i pair ∙ inv.pairs_size;
          actions_size = length-set p.actions i action ∙ inv.actions_size;
          counts_size = length-set counts u (i + 1) ∙ inv.counts_size;
          free = λ t h. elim (Bool-cases (u == t)) [
            | inl here ↦
                let x : u ≡ t = ground arith in
                subst (λ y. get_or (set counts u (i + 1)) y 0 ≡ start y edges + rank y (suc e)) x
                  (let g = get_or-set_self counts u (i + 1) 0 (omega (arith, inv.counts_size)) in
                    omega arith)
            | inr other ↦
                let g = get_or-set_ne counts u t (i + 1) 0 (λ x. ground arith) in
                let k = inv.free t h in let miss : hit t e ≡ 0 = ground arith in omega arith
          ];
          sound = λ t j h lo hi. elim (Bool-cases (i == j)) [
            | inl here ↦
                let x : i ≡ j = ground arith in
                let full : rank t (suc e) ≤ rank t edges = rank_mono t (suc e) edges below in
                let same : u ≡ t =
                  place_apart edges u t j (omega arith) (omega arith) lo (omega arith) in
                let gp = get_or-set_self p.pairs i pair 0 (omega (arith, inv.pairs_size)) in
                let ga = get_or-set_self p.actions i action 0 (omega (arith, inv.actions_size)) in
                rw (← x) (rw gp (rw ga (hp, ha, same)))
            | inr other ↦
                let ne : i ≢ j = λ x. ground arith in
                let gp = get_or-set_ne p.pairs i j pair 0 ne in
                let ga = get_or-set_ne p.actions i j action 0 ne in
                let old : j < start t edges + rank t e = elim (Bool-cases (u == t)) [
                  | inl same ↦
                      let x : u ≡ t = ground arith in
                      let r = ap (λ y. start y edges + rank y e) x in ground arith
                  | inr differ ↦ let miss : hit t e ≡ 0 = ground arith in omega arith
                ] in
                rw gp (rw ga (inv.sound t j h lo old))
          ];
          complete = λ s c hs hc l. elim (Bool-cases (cell actions s c == e)) [
            | inl here ↦
                let (es, ec) = cell_injective actions s c pair action hc ha (ground arith) in
                let gp = get_or-set_self p.pairs i pair 0 (omega (arith, inv.pairs_size)) in
                let ga = get_or-set_self p.actions i action 0 (omega (arith, inv.actions_size)) in
                let p' = (place_edge o pair action p counts).0 in
                subst (λ s'. Found (suc e) p' s' c) (sym es)
                  (subst (λ c'. Found (suc e) p' pair c') (sym ec)
                    (i, omega arith, omega arith, (gp, ga)))
            | inr other ↦
                let (j, lo, hi, (jp, ja)) = inv.complete s c hs hc (ground arith) in
                let t = next_of o s c in
                let ht : t < o.pair_count =
                  inside (cell actions s c) (cell_lt o.pair_count actions s c hs hc) in
                let ne = apart t j ht lo hi in
                (
                  j,
                  lo,
                  omega arith,
                  (
                    get_or-set_ne p.pairs i j pair 0 ne ∙ jp,
                    get_or-set_ne p.actions i j action 0 ne ∙ ja,
                  ),
                )
          ];
        }

    place_actions-Placed :
        (pair action left : ℕ) (offsets : List ℕ) (p : Predecessors) (counts : List ℕ)
        → pair < o.pair_count
        → action + left ≡ actions
        → Placed (cell actions pair action) offsets p counts
        → Placed
            (cell actions (suc pair) 0)
            offsets
            (place_actions o pair action left p counts).0
            (place_actions o pair action left p counts).1
    unfolding place_actions
    place_actions-Placed pair action zero offsets p counts hp e inv =
        let s : cell actions pair action ≡ cell actions (suc pair) 0 =
          let more : suc pair * actions ≡ pair * actions + actions = grind arith in omega arith in
        subst (λ k. Placed k offsets p counts) s inv
    place_actions-Placed pair action (suc left) offsets p counts hp e inv =
        let s : suc (cell actions pair action) ≡ cell actions pair (action + 1) = omega arith in
        place_actions-Placed pair (action + 1) left offsets (place_edge o pair action p counts).0
          (place_edge o pair action p counts).1 hp (omega arith)
          (subst
            (λ k.
              Placed k offsets (place_edge o pair action p counts).0
                (place_edge o pair action p counts).1)
            s (place_edge-Placed pair action offsets p counts hp (omega arith) inv))

    place_pairs-Grouped :
        (pair left : ℕ) (offsets : List ℕ) (p : Predecessors) (counts : List ℕ)
        → pair + left ≡ o.pair_count
        → ((t : ℕ) → t ≤ o.pair_count → get_or offsets t 0 ≡ start t edges)
        → Placed (cell actions pair 0) offsets p counts
        → Grouped (place_pairs o pair left p counts)
    unfolding place_pairs
    place_pairs-Grouped pair zero offsets p counts e at_offsets inv =
        let s : cell actions pair 0 ≡ edges =
          let x = ap (λ (y : ℕ). y * actions) e in
          let z : (pair + 0) * actions ≡ pair * actions = grind arith in omega arith in
        let all_in = subst (λ k. Placed k offsets p counts) s inv in
        let at : (t : ℕ) → t ≤ o.pair_count → get_or p.offsets t 0 ≡ start t edges =
          λ t h. ap (λ xs. get_or xs t 0) inv.same_offsets ∙ at_offsets t h in
        let next : (t : ℕ)
            → t < o.pair_count
            → get_or p.offsets (t + 1) 0 ≡ start t edges + rank t edges =
          λ t h.
            let x : t + 1 ≡ suc t = omega arith in
            at (t + 1) (omega arith) ∙ ap (λ k. start k edges) x in
        record {
          sound = λ t i h lo hi.
              all_in.sound t i h (omega (arith, at t (omega arith))) (omega (arith, next t h));
          complete = λ s c hs hc.
              let l = cell_lt o.pair_count actions s c hs hc in
              let (i, lo, hi, found) = all_in.complete s c hs hc l in
              let ht = inside (cell actions s c) l in
              (
                i,
                omega (arith, at (next_of o s c) (omega arith)),
                omega (arith, next (next_of o s c) ht),
                found,
              );
        }
    place_pairs-Grouped pair (suc left) offsets p counts e at_offsets inv =
        let s : cell actions (suc pair) 0 ≡ cell actions (pair + 1) 0 =
          ap (λ k. cell actions k 0) (let x : suc pair ≡ pair + 1 = omega arith in x) in
        place_pairs-Grouped (pair + 1) left offsets (place_actions o pair 0 actions p counts).0
          (place_actions o pair 0 actions p counts).1 (omega arith) at_offsets
          (subst
            (λ k.
              Placed k offsets (place_actions o pair 0 actions p counts).0
                (place_actions o pair 0 actions p counts).1)
            s
            (place_actions-Placed pair 0 actions offsets p counts (omega arith) (omega arith) inv))

    -- sg_predecessors_build groups the edges by their targets.
    pub Ensures-predecessors_build :
        {E : Status → Type 0} → Ensures (predecessors_build o) Grouped E
    unfolding predecessors_build
    Ensures-predecessors_build =
        let counted =
          count_targets-rank 0 edges (replicate o.pair_count 0) (omega arith)
            (length-replicate o.pair_count 0) (λ t h. get_or-replicate o.pair_count t 0) in
        let counts = count_targets o 0 edges (replicate o.pair_count 0) in
        let offsets : List ℕ = replicate (o.pair_count + 1) 0 in
        let summed =
          sum_offsets-Summed 0 o.pair_count offsets counts (omega arith)
            (length-replicate (o.pair_count + 1) 0) counted.0
            (λ t h. let z : t ≡ 0 = omega arith in rw z (get_or-replicate (o.pair_count + 1) 0 0))
            (λ t h. absurd (omega arith)) (λ t _ h. counted.1 t h) in
        Ensures-bind (Ensures-request_all 4) λ _ _. Ensures-return _ (
          place_pairs-Grouped 0 o.pair_count (sum_offsets 0 o.pair_count offsets counts).0
            (record {
              offsets = (sum_offsets 0 o.pair_count offsets counts).0;
              pairs = replicate edges 0;
              actions = replicate edges 0;
            })
            (sum_offsets 0 o.pair_count offsets counts).1 (omega arith) summed.offsets_at
            (subst
              (λ k.
                Placed k (sum_offsets 0 o.pair_count offsets counts).0
                  (record {
                    offsets = (sum_offsets 0 o.pair_count offsets counts).0;
                    pairs = replicate edges 0;
                    actions = replicate edges 0;
                  })
                  (sum_offsets 0 o.pair_count offsets counts).1)
              (let z : 0 ≡ cell actions 0 0 = omega arith in z)
              (record {
                same_offsets = refl;
                pairs_size = length-replicate edges 0;
                actions_size = length-replicate edges 0;
                counts_size = summed.counts_size;
                free = λ t h. omega (arith, summed.counts_at t h);
                sound = λ t i h lo hi. absurd (omega arith);
                complete = λ s c hs hc l. absurd (omega arith);
              })))
