-- ===== src/Oracle/Seeds.antt =====
-- The loops before the two searches, and the searches as a whole.
use sync_kgraph.Base.{
  ℕ, zero, suc, ◌+◌, ◌≤◌, ◌<◌, ◌≡◌, ◌≢◌, ◌∙◌, sym, subst, inl, inr, true, ◌&&◌, arith, ◌==◌,
  Bool-cases, [], length, length-replicate, get_or, get_or-replicate, get_or-set_self,
  get_or-set_ne, replicate, index_none, Status, Ensures, Ensures-bind, Ensures-request,
}
use sync_kgraph.Sync.{Kind, merge, resolution}
use sync_kgraph.Oracle.{
  Oracle, Predecessors, Search, dist, enqueue, next_of, differs, table, seed_equal, any_differs,
  seed_differing, seeded, distances,
}
use sync_kgraph.Oracle.Buckets.{Grouped}
use sync_kgraph.Oracle.Queue.{unseen, Inv, Splits, Equal, Seen, enqueue-Inv}
use sync_kgraph.Oracle.Distances.{Found, unseen-replicate, Ensures-search_loop}

any_differs-Splits :
    (o : Oracle) (v action left : ℕ)
    → action + left ≡ o.automaton.action_count
    → any_differs o v action left ≡ true
    → Splits o resolution resolution v
unfolding any_differs
any_differs-Splits o v action zero e h = cc
any_differs-Splits o v action (suc left) e h = elim (Bool-cases (differs o v action)) [
  | inl here ↦ (action, omega arith, here)
  | inr later ↦ any_differs-Splits o v (action + 1) left (omega arith) (ground arith)
]

Splits-any_differs :
    (o : Oracle) (v action left c : ℕ)
    → action ≤ c
    → c < action + left
    → differs o v c ≡ true
    → any_differs o v action left ≡ true
unfolding any_differs
Splits-any_differs o v action zero c lo hi h = absurd (omega arith)
Splits-any_differs o v action (suc left) c lo hi h = elim (Bool-cases (differs o v action)) [
  | inl here ↦ ground arith
  | inr later ↦
      let ne : action ≢ c = λ e. let z = subst (λ x. differs o v x ≡ true) (sym e) h in cc in
      let rest = Splits-any_differs o v (action + 1) left c (omega arith) (omega arith) h in
      ground arith
]

module _ (o : Oracle) (kind : Kind) (small : o.pair_count < index_none) where
  abbrev work : Search → ℕ
  work s = unseen s.distance + length s.pending

  -- the pairs of equal states below are seeded, and no others have a distance
  record EqualSeeds (pair : ℕ) (s : Search) : Type 0 where
    pub inv : Inv o kind (λ _. ⊥) 0 s
    pub zeros : (v : ℕ) → v < o.pair_count → Seen o kind s.distance v → (dist s v ≡ 0) × (v < pair)
    pub equal : (v : ℕ) → v < pair → Equal o kind v → dist s v ≡ 0
    pub whole : work s ≡ o.pair_count

  seed_equal-EqualSeeds :
      (pair left : ℕ) (s : Search)
      → pair + left ≡ o.pair_count
      → EqualSeeds pair s
      → EqualSeeds o.pair_count (seed_equal o pair left s)
  unfolding seed_equal
  seed_equal-EqualSeeds pair zero s e h =
      let z : pair ≡ o.pair_count = omega arith in subst (λ k. EqualSeeds k s) z h
  seed_equal-EqualSeeds pair (suc left) s e h =
      elim (Bool-cases (get_or o.first pair 0 == get_or o.second pair 0)) [
        | inl same ↦
            let fresh : dist s pair ≡ index_none = elim (Bool-cases (dist s pair == index_none)) [
              | inl x ↦ ground arith
              | inr x ↦
                  absurd (let z = h.zeros pair (omega arith) (λ y. ground arith) in omega arith)
            ] in
            let own = get_or-set_self s.distance pair 0 index_none (omega (arith, h.inv.size)) in
            let w = h.whole in
            let (i, k, at, less, longer) =
              enqueue-Inv o kind (λ _. ⊥) 0 pair 0 s h.inv (omega arith) fresh small (omega arith)
                (omega arith) (λ u hu su. omega (arith, h.zeros u hu su)) (omega arith)
                (inl (own, ground arith)) in
            rw same (
              seed_equal-EqualSeeds (pair + 1) left (enqueue pair 0 s) (omega arith) (record {
                inv = i;
                zeros = λ v hv sv. elim (Bool-cases (v == pair)) [
                  | inl here ↦
                      let x : v ≡ pair = ground arith in
                      (subst (λ u. dist (enqueue pair 0 s) u ≡ 0) (sym x) at, omega arith)
                  | inr other ↦
                      let was : Seen o kind s.distance v =
                        λ y. sv (kept pair s v (λ x. ground arith) ∙ y) in
                      let z = h.zeros v hv was in (k v was ∙ z.0, omega arith)
                ];
                equal = λ v l q. elim (Bool-cases (v == pair)) [
                  | inl here ↦
                      let x : v ≡ pair = ground arith in
                      subst (λ u. dist (enqueue pair 0 s) u ≡ 0) (sym x) at
                  | inr other ↦ let z = h.equal v (ground arith) q in k v (λ x. omega arith) ∙ z
                ];
                whole = omega arith;
              }))
        | inr differ ↦ rw differ (
            seed_equal-EqualSeeds (pair + 1) left s (omega arith) (record {
              inv = h.inv;
              zeros = λ v hv sv. let z = h.zeros v hv sv in (z.0, omega arith);
              equal = λ v l q. elim (Bool-cases (v == pair)) [
                | inl here ↦
                    let x : v ≡ pair = ground arith in
                    absurd (let y = subst (Equal o kind) x q in ground arith)
                | inr other ↦ h.equal v (ground arith) q
              ];
              whole = h.whole;
            }))
      ]
    where
      kept : (pair : ℕ) (s : Search) (v : ℕ) → v ≢ pair → dist (enqueue pair 0 s) v ≡ dist s v
      kept pair s v ne = get_or-set_ne s.distance pair v 0 index_none (λ x. ne (sym x))

  -- Nothing has a distance yet.
  EqualSeeds-start :
      EqualSeeds 0 (record { distance = replicate o.pair_count index_none; pending = [] })
  EqualSeeds-start =
      let unset = λ (v : ℕ). get_or-replicate o.pair_count v index_none in
      record {
        inv = record {
          size = length-replicate o.pair_count index_none;
          queued = tt;
          ordered = tt;
          low = tt;
          high = λ v hv sv. absurd (sv (unset v));
          reason = λ v hv sv. absurd (sv (unset v));
          closed = λ v c hv hc us sn. absurd (sn (unset (next_of o v c)));
          counted = λ v hv sv. absurd (sv (unset v));
        };
        zeros = λ v hv sv. absurd (sv (unset v));
        equal = λ v l q. absurd (omega arith);
        whole = omega (arith, unseen-replicate o.pair_count);
      }

module _ (o : Oracle) (small : o.pair_count < index_none) where
  -- the pairs below that an action tells apart have a distance too
  record DifferSeeds (pair : ℕ) (s : Search) : Type 0 where
    pub inv : Inv o resolution (λ _. ⊥) 0 s
    pub equal : (v : ℕ) → v < o.pair_count → Equal o resolution v → dist s v ≡ 0
    pub splits :
        (v : ℕ) → v < pair → Splits o resolution resolution v → Seen o resolution s.distance v
    pub whole : unseen s.distance + length s.pending ≡ o.pair_count

  seed_differing-DifferSeeds :
      (pair left : ℕ) (s : Search)
      → pair + left ≡ o.pair_count
      → DifferSeeds pair s
      → DifferSeeds o.pair_count (seed_differing o pair left s)
  unfolding seed_differing
  seed_differing-DifferSeeds pair zero s e h =
      let z : pair ≡ o.pair_count = omega arith in subst (λ k. DifferSeeds k s) z h
  seed_differing-DifferSeeds pair (suc left) s e h =
      elim (Bool-cases
        (dist s pair == index_none && any_differs o pair 0 o.automaton.action_count)) [
          | inl apart ↦
              let fresh : dist s pair ≡ index_none = ground arith in
              let own = get_or-set_self s.distance pair 1 index_none (omega (arith, h.inv.size)) in
              let sp =
                any_differs-Splits o pair 0 o.automaton.action_count (omega arith) (ground arith) in
              let w = h.whole in
              let (i, k, at, less, longer) =
                enqueue-Inv o resolution (λ _. ⊥) 0 pair 1 s h.inv (omega arith) fresh small
                  (omega arith) (omega arith) h.inv.high (omega arith) (inr (inl (own, sp))) in
              rw apart (
                seed_differing-DifferSeeds (pair + 1) left (enqueue pair 1 s) (omega arith)
                  (record {
                    inv = i;
                    equal =
                        λ v hv q. k v (λ x. let z = h.equal v hv q in omega arith) ∙ h.equal v hv q;
                    splits = λ v l p. elim (Bool-cases (v == pair)) [
                      | inl here ↦
                          let x : v ≡ pair = ground arith in
                          subst (Seen o resolution (enqueue pair 1 s).distance) (sym x)
                            (λ y. let z = sym at ∙ y in omega arith)
                      | inr other ↦
                          let was = h.splits v (ground arith) p in λ y. was (sym (k v was) ∙ y)
                    ];
                    whole = omega arith;
                  }))
          | inr not_apart ↦ rw not_apart (
              seed_differing-DifferSeeds (pair + 1) left s (omega arith) (record {
                inv = h.inv;
                equal = h.equal;
                splits = λ v l p. elim (Bool-cases (v == pair)) [
                  | inl here ↦
                      let x : v ≡ pair = ground arith in
                      let (c, hc, d) = subst (Splits o resolution resolution) x p in
                      let any =
                        Splits-any_differs o pair 0 o.automaton.action_count c (omega arith)
                          (omega arith) d in
                      subst (Seen o resolution s.distance) (sym x) (λ y. ground arith)
                  | inr other ↦ h.splits v (ground arith) p
                ];
                whole = h.whole;
              }))
        ]

module _ {E : Status → Type 0} where
  -- A search ends, and its distances are those of the graph of pairs.
  pub Ensures-distances :
      (o : Oracle) (kind : Kind) (p : Predecessors)
      → o.pair_count < index_none
      → Grouped o p
      → ((v c : ℕ) → v < o.pair_count → c < o.automaton.action_count → next_of o v c < o.pair_count)
      → (table o kind).distance ≡ replicate o.pair_count index_none
      → Ensures (distances o kind p) (Found o kind) E
  unfolding distances seeded
  Ensures-distances o merge p small grouped inside blank =
      let s0 =
        seed_equal-EqualSeeds o merge small 0 o.pair_count
          (record { distance = o.merge_table.distance; pending = [] }) (omega arith)
          (subst (λ ds. EqualSeeds o merge small 0 (record { distance = ds; pending = [] }))
            (sym blank) (EqualSeeds-start o merge small)) in
      Ensures-bind Ensures-request λ _ _.
        (let r =
            seed_equal o 0 o.pair_count
              (record { distance = o.merge_table.distance; pending = [] }) in
          Ensures-search_loop o merge small p grouped inside o.pair_count 0 r.distance r.pending
            s0.inv (record { equal = λ v hv q. s0.equal v hv q; splits = λ v hv z. absurd z })
            (omega (arith, s0.whole)))
  Ensures-distances o resolution p small grouped inside blank =
      let s0 =
        seed_equal-EqualSeeds o resolution small 0 o.pair_count
          (record { distance = o.resolution_table.distance; pending = [] }) (omega arith)
          (subst (λ ds. EqualSeeds o resolution small 0 (record { distance = ds; pending = [] }))
            (sym blank) (EqualSeeds-start o resolution small)) in
      Ensures-bind Ensures-request λ _ _.
        (let s =
            seed_equal o 0 o.pair_count
              (record { distance = o.resolution_table.distance; pending = [] }) in
          let d = seed_differing-DifferSeeds o small 0 o.pair_count s (omega arith) (record {
            inv = s0.inv;
            equal = λ v hv q. s0.equal v hv q;
            splits = λ v l z. absurd (omega arith);
            whole = s0.whole;
          }) in
          let r = seed_differing o 0 o.pair_count s in
          Ensures-search_loop o resolution small p grouped inside o.pair_count 0 r.distance
            r.pending d.inv
            (record {
              equal = λ v hv q. d.equal v hv q;
              splits = λ v hv z. (d.splits v hv z, d.inv.high v hv (d.splits v hv z));
            })
            (omega (arith, d.whole)))
