-- ===== src/Oracle/Witnesses.antt =====
-- sg_choose_witnesses: each pair with a distance gets the first action that goes nearer, and the number of
-- all of them.
use sync_kgraph.Base.{
  ℕ, zero, suc, ◌+◌, ◌≤◌, ◌<◌, ◌≡◌, ◌≢◌, ◌∙◌, refl, sym, ap, subst, inl, inr, true, ◌||◌, arith,
  ◌==◌, Bool-cases, if◌then◌else◌, if-cases, List, length, length-set, get_or, get_or-set_self,
  get_or-set_ne, index_none,
}
use sync_kgraph.Sync.{Kind, merge, resolution}
use sync_kgraph.Oracle.{
  Oracle, Table, supports, next_named, support_loop, count_action, choose_actions, choose_pair,
  choose_from,
}
use sync_kgraph.Oracle.Queue.{Equal, Reason}
use sync_kgraph.Oracle.Distances.{Found}

-- the members of a record agree with the graph of pairs: `action`, `next` and `count` are those of pair
-- `v` among the distances `ds`
pub record ValidAt (o : Oracle) (kind : Kind) (ds : List ℕ) (v action next count : ℕ) : Type 0 where
  pub absent :
      get_or ds v index_none ≡ index_none
      → (action ≡ index_none) × (next ≡ index_none) × (count ≡ 0)
  pub ended :
      get_or ds v index_none ≡ 0
      → Equal o kind v × (action ≡ index_none) × (next ≡ index_none) × (count ≡ 0)
  pub onward :
      get_or ds v index_none ≢ index_none
      → get_or ds v index_none ≢ 0
      → (action < o.automaton.action_count)
        × (supports o kind ds v action ≡ true)
        × (next ≡ next_named o kind ds v action)
        × (count ≡ support_loop o kind ds v 0 o.automaton.action_count)
        × (count ≢ 0)

-- the cells of a pair
abbrev pub ValidPair : Oracle → Kind → Table → ℕ → Type 0
ValidPair o kind t v =
    ValidAt o kind t.distance v (get_or t.action v index_none) (get_or t.next v index_none)
      (get_or t.support_count v 0)

module _ (o : Oracle) (kind : Kind) (ds : List ℕ) (pair : ℕ) where
  abbrev from_action : ℕ → ℕ → ℕ
  from_action action left = support_loop o kind ds pair action left

  -- Some action goes nearer when the count is not 0.
  pub supports-count :
      (action left c : ℕ)
      → action ≤ c
      → c < action + left
      → supports o kind ds pair c ≡ true
      → support_loop o kind ds pair action left ≢ 0
  unfolding support_loop
  supports-count action zero c lo hi h e = absurd (omega arith)
  supports-count action (suc left) c lo hi h e = elim (Bool-cases (c == action)) [
    | inl here ↦
        let x : c ≡ action = ground arith in
        let own = subst (λ k. supports o kind ds pair k ≡ true) x h in
        let one = ap (λ b. if◌then◌else◌ {A = ℕ} b 1 0) own in omega arith
    | inr later ↦ supports-count (action + 1) left c (ground arith) (omega arith) h (omega arith)
  ]

  -- The loop over actions has seen those below `action`.
  record Chosen (t : Table) : Type 0 where
    pub action_size : pair < length t.action
    pub next_size : pair < length t.next
    pub count_size : pair < length t.support_count
    pub named :
        get_or t.support_count pair 0 ≢ 0
        → (get_or t.action pair index_none < o.automaton.action_count)
          × (supports o kind ds pair (get_or t.action pair index_none) ≡ true)
          × (get_or t.next pair index_none
              ≡ next_named o kind ds pair (get_or t.action pair index_none))

  -- the cells of other pairs, the distances and the sizes stay
  abbrev pub Elsewhere : Table → Table → Type 0
  Elsewhere t r =
      (r.distance ≡ t.distance)
      × (length r.action ≡ length t.action)
      × (length r.next ≡ length t.next)
      × (length r.support_count ≡ length t.support_count)
      × ((v : ℕ)
          → v ≢ pair
          → (get_or r.action v index_none ≡ get_or t.action v index_none)
            × (get_or r.next v index_none ≡ get_or t.next v index_none)
            × (get_or r.support_count v 0 ≡ get_or t.support_count v 0))

  Elsewhere-refl : (t : Table) → Elsewhere t t
  Elsewhere-refl t = (refl, refl, refl, refl, λ v ne. (refl, refl, refl))

  Elsewhere-trans : (t r s : Table) → Elsewhere t r → Elsewhere r s → Elsewhere t s
  Elsewhere-trans t r s (d, a, n, c, e) (d', a', n', c', e') = (
    d' ∙ d,
    a' ∙ a,
    n' ∙ n,
    c' ∙ c,
    λ v ne. let (x, y, z) = e v ne in let (x', y', z') = e' v ne in (x' ∙ x, y' ∙ y, z' ∙ z),
  )

  -- what a step that counts `n` actions leaves
  abbrev Counted : Table → ℕ → Table → Type 0
  Counted t n r =
      Chosen r × Elsewhere t r × (get_or r.support_count pair 0 ≡ get_or t.support_count pair 0 + n)

  count_action-Counted :
      (action : ℕ) (t : Table)
      → action < o.automaton.action_count
      → supports o kind ds pair action ≡ true
      → Chosen t
      → Counted t 1 (count_action o kind ds pair action t)
  unfolding count_action
  count_action-Counted action t ha near h =
      let found = get_or t.support_count pair 0 in
      let up = get_or-set_self t.support_count pair (found + 1) 0 h.count_size in
      let size = length-set t.support_count pair (found + 1) in
      let counts = λ (v : ℕ) (ne : v ≢ pair).
        get_or-set_ne t.support_count pair v (found + 1) 0 (λ q. ne (sym q)) in
      if-cases (Counted t 1) (found == 0)
        (λ first.
          let k = next_named o kind ds pair action in
          let own = get_or-set_self t.action pair action index_none h.action_size in
          let to = get_or-set_self t.next pair k index_none h.next_size in
          (
            record {
              action_size = omega (arith, length-set t.action pair action, h.action_size);
              next_size = omega (arith, length-set t.next pair k, h.next_size);
              count_size = omega (arith, size, h.count_size);
              named = λ _. rw own (ha, near, to);
            },
            (
              refl,
              length-set t.action pair action,
              length-set t.next pair k,
              size,
              λ v ne. (
                get_or-set_ne t.action pair v action index_none (λ q. ne (sym q)),
                get_or-set_ne t.next pair v k index_none (λ q. ne (sym q)),
                counts v ne,
              ),
            ),
            up,
          ))
        (λ more.
          let some_yet : found ≢ 0 = λ q. ground arith in
          (
            record {
              action_size = h.action_size;
              next_size = h.next_size;
              count_size = omega (arith, size, h.count_size);
              named = λ _. h.named some_yet;
            },
            (refl, refl, refl, size, λ v ne. (refl, refl, counts v ne)),
            up,
          ))

  choose_actions-Counted :
      (action left : ℕ) (t : Table)
      → action + left ≡ o.automaton.action_count
      → Chosen t
      → Counted t
          (support_loop o kind ds pair action left)
          (choose_actions o kind ds pair action left t)
  unfolding choose_actions support_loop
  choose_actions-Counted action zero t e h = (h, Elsewhere-refl t, omega arith)
  choose_actions-Counted action (suc left) t e h =
      let b = supports o kind ds pair action in
      let t' = if b then count_action o kind ds pair action t else t in
      let (c, x, n) : Counted t (if b then 1 else 0) t' =
        if-cases (λ r. Counted t (if b then 1 else 0) r) b
          (λ near.
            let one = ap (λ y. if◌then◌else◌ {A = ℕ} y 1 0) near in
            let (c, x, n) = count_action-Counted action t (omega arith) near h in
            (c, x, omega arith))
          (λ far.
            let zero_more = ap (λ y. if◌then◌else◌ {A = ℕ} y 1 0) far in
            (h, Elsewhere-refl t, omega arith)) in
      let (c', x', n') = choose_actions-Counted (action + 1) left t' (omega arith) c in
      (
        c',
        Elsewhere-trans t t' (choose_actions o kind ds pair (action + 1) left t') x x',
        omega arith,
      )

-- A pair with a distance above 0 has an action that goes nearer.
Found-supports :
    (o : Oracle) (kind : Kind) (ds : List ℕ) (v : ℕ)
    → Reason o kind ds v
    → get_or ds v index_none ≢ 0
    → (c : ℕ) × (c < o.automaton.action_count) × (supports o kind ds v c ≡ true)
Found-supports o kind ds v (inl (e, _)) ne = absurd (ne e)
Found-supports o merge ds v (inr (inl (e, sp))) ne = absurd sp
Found-supports o resolution ds v (inr (inl (e, (c, hc, d)))) ne = (c, hc, ground arith)
Found-supports o merge ds v (inr (inr (c, hc, us, sn, e))) ne = (c, hc, ground arith)
Found-supports o resolution ds v (inr (inr (c, hc, us, sn, e))) ne = (c, hc, ground arith)

module _ (o : Oracle) (kind : Kind) (ds : List ℕ) (found : Found o kind ds) where
  abbrev Blank : Table → ℕ → Type 0
  Blank t v =
      (get_or t.action v index_none ≡ index_none)
      × (get_or t.next v index_none ≡ index_none)
      × (get_or t.support_count v 0 ≡ 0)

  abbrev Right : Table → ℕ → Type 0
  Right t v =
      ValidAt o kind ds v (get_or t.action v index_none) (get_or t.next v index_none)
        (get_or t.support_count v 0)

  choose_pair-Right :
      (pair : ℕ) (t : Table)
      → pair < o.pair_count
      → length t.action ≡ o.pair_count
      → length t.next ≡ o.pair_count
      → length t.support_count ≡ o.pair_count
      → Blank t pair
      → Right (choose_pair o kind ds pair t) pair
        × Elsewhere o kind ds pair t (choose_pair o kind ds pair t)
  unfolding choose_pair
  choose_pair-Right pair t h sa sn sc (ba, bn, bc) =
      let k = o.automaton.action_count in
      if-cases (λ r. Right r pair × Elsewhere o kind ds pair t r)
        (get_or ds pair index_none == index_none || get_or ds pair index_none == 0)
        (λ stays. (
          record {
            absent = λ _. (ba, bn, bc);
            ended = λ z. (equal_of (found.reason pair h (λ x. omega arith)) z, ba, bn, bc);
            onward = λ x y. absurd (ground arith);
          },
          Elsewhere-refl o kind ds pair t,
        ))
        (λ goes.
          let seen : get_or ds pair index_none ≢ index_none = λ x. ground arith in
          let far : get_or ds pair index_none ≢ 0 = λ x. ground arith in
          let (chosen, elsewhere, counted) =
            choose_actions-Counted o kind ds pair 0 k t (omega arith) (record {
              action_size = omega arith;
              next_size = omega arith;
              count_size = omega arith;
              named = λ x. absurd (x bc);
            }) in
          let (c, hc, near) = Found-supports o kind ds pair (found.reason pair h seen) far in
          let some_near = supports-count o kind ds pair 0 k c (omega arith) (omega arith) near in
          let some_found : get_or (choose_actions o kind ds pair 0 k t).support_count pair 0 ≢ 0 =
            λ x. some_near (omega arith) in
          let (ha, hs, hn) = chosen.named some_found in
          (
            record {
              absent = λ x. absurd (seen x);
              ended = λ x. absurd (far x);
              onward = λ _ _. (ha, hs, hn, omega arith, some_found);
            },
            elsewhere,
          ))
    where
      equal_of : Reason o kind ds pair → get_or ds pair index_none ≡ 0 → Equal o kind pair
      equal_of (inl (_, e)) z = e
      equal_of (inr (inl (e, _))) z = absurd (omega arith)
      equal_of (inr (inr (c, hc, us, sn, e))) z = absurd (omega arith)

  -- What another pair leaves as it was is still right.
  Right-Elsewhere :
      (pair v : ℕ) (t r : Table) → v ≢ pair → Elsewhere o kind ds pair t r → Right t v → Right r v
  Right-Elsewhere pair v t r ne (_, _, _, _, same) h =
      let (ea, en, ec) = same v ne in rw ea (rw en (rw ec h))

  pub choose_from-ValidPair :
      (pair left : ℕ) (t : Table)
      → pair + left ≡ o.pair_count
      → t.distance ≡ ds
      → length t.action ≡ o.pair_count
      → length t.next ≡ o.pair_count
      → length t.support_count ≡ o.pair_count
      → ((v : ℕ) → v < pair → Right t v)
      → ((v : ℕ) → pair ≤ v → v < o.pair_count → Blank t v)
      → ((choose_from o kind ds pair left t).distance ≡ ds)
        × ((v : ℕ) → v < o.pair_count → ValidPair o kind (choose_from o kind ds pair left t) v)
  unfolding choose_from
  choose_from-ValidPair pair zero t e d sa sn sc done blank = (
    d,
    λ v h.
        subst
          (λ es.
            ValidAt o kind es v (get_or t.action v index_none) (get_or t.next v index_none)
              (get_or t.support_count v 0))
          (sym d) (done v (omega arith)),
  )
  choose_from-ValidPair pair (suc left) t e d sa sn sc done blank =
      let t' = choose_pair o kind ds pair t in
      let (own, elsewhere) =
        choose_pair-Right pair t (omega arith) sa sn sc (blank pair (omega arith) (omega arith)) in
      let (ed, ea, en, ec, same) = elsewhere in
      choose_from-ValidPair (pair + 1) left t' (omega arith) (ed ∙ d) (ea ∙ sa) (en ∙ sn) (ec ∙ sc)
        (λ v l. elim (Bool-cases (v == pair)) [
          | inl here ↦ let x : v ≡ pair = ground arith in subst (Right t') (sym x) own
          | inr other ↦
              Right-Elsewhere pair v t t' (λ x. ground arith) elsewhere (done v (ground arith))
        ])
        (λ v lo hi.
          let (xa, xn, xc) = same v (λ x. omega arith) in
          let (ba, bn, bc) = blank v (omega arith) hi in (xa ∙ ba, xn ∙ bn, xc ∙ bc))
