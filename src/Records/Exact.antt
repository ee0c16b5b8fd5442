-- ===== src/Records/Exact.antt =====
-- What sg_merge_record_valid and sg_resolution_record_valid demand of a record, said of the automaton: the
-- moves and the outputs of the pair's two states, and the number of the actions that go nearer.
use sync_kgraph.Base.{
  ℕ, zero, suc, ◌+◌, ◌<◌, ◌≡◌, ◌≢◌, ◌⊎◌, ◌↔◌, ◌∙◌, refl, sym, ap, subst, inl, inr, Bool, true,
  arith, Bool-cases, Bool-eq_of_iff, List, get_or, index_none,
}
use sync_kgraph.Bitset.Card.{card, card_on}
use sync_kgraph.Automaton.{transition, observation}
use sync_kgraph.Sync.{Kind, merge, resolution, pair_index}
use sync_kgraph.Oracle.{Oracle, Table, next_of, supports, next_named, immediate, support_loop}
use sync_kgraph.Oracle.Build.{IsGraph}
use sync_kgraph.Oracle.Witnesses.{ValidPair, supports-count}
use sync_kgraph.Records.{merge_record_valid, resolution_record_valid}
use sync_kgraph.Records.Valid.{merge_record_valid_iff, resolution_record_valid_iff}

-- `n` numbers below the bound have the property
abbrev pub HowMany : ℕ → ℕ → (ℕ → Type 0) → Type 0
HowMany n bound P =
    (f : ℕ → Bool) × ((c : ℕ) → c < bound → (f c ≡ true) ↔ P c) × (n ≡ card f 0 bound)

module _ (o : Oracle) (ds : List ℕ) (v : ℕ) where
  -- the pair of the states that an action leads the two states of the pair to
  abbrev pub target : ℕ → ℕ
  target c =
      pair_index o.automaton.state_count (transition o.automaton (get_or o.first v 0) c)
        (transition o.automaton (get_or o.second v 0) c)

  -- an action shows the same output at both states
  abbrev pub Alike : ℕ → Type 0
  Alike c =
      observation o.automaton (get_or o.first v 0) c
      ≡ observation o.automaton (get_or o.second v 0) c

  -- an action leads to a pair whose distance is one smaller
  abbrev pub Approaches : ℕ → Type 0
  Approaches c =
      (get_or ds (target c) index_none ≢ index_none)
      × (get_or ds (target c) index_none + 1 ≡ get_or ds v index_none)

  -- an action that goes nearer: for a resolution it may also show different outputs in the last step
  abbrev pub Nearer : Kind → ℕ → Type 0
  Nearer merge c = Approaches c
  Nearer resolution c = ((get_or ds v index_none ≡ 1) × ¬ Alike c) ⊎ (Alike c × Approaches c)

  -- an action goes nearer, and the record names the pair that it leads to, or none after a last step
  abbrev pub LeadsTo : Kind → ℕ → ℕ → Type 0
  LeadsTo merge c next = (next ≡ target c) × Approaches c
  LeadsTo resolution c next =
      ((next ≡ index_none) × (get_or ds v index_none ≡ 1) × ¬ Alike c)
      ⊎ ((next ≡ target c) × Alike c × Approaches c)

-- the cells of a pair agree with the automaton
pub record Agrees (o : Oracle) (kind : Kind) (t : Table) (v : ℕ) : Type 0 where
  pub absent :
      get_or t.distance v index_none ≡ index_none
      → (get_or t.action v index_none ≡ index_none)
        × (get_or t.next v index_none ≡ index_none)
        × (get_or t.support_count v 0 ≡ 0)
  pub ended :
      get_or t.distance v index_none ≡ 0
      → (get_or o.first v 0 ≡ get_or o.second v 0)
        × (get_or t.action v index_none ≡ index_none)
        × (get_or t.next v index_none ≡ index_none)
        × (get_or t.support_count v 0 ≡ 0)
  pub onward :
      get_or t.distance v index_none ≢ index_none
      → get_or t.distance v index_none ≢ 0
      → (get_or t.action v index_none < o.automaton.action_count)
        × LeadsTo o t.distance v kind (get_or t.action v index_none) (get_or t.next v index_none)
        × HowMany (get_or t.support_count v 0) o.automaton.action_count (Nearer o t.distance v kind)

module _ (o : Oracle) (g : IsGraph o) (v : ℕ) (hv : v < o.pair_count) where
  module _ (ds : List ℕ) (c : ℕ) (hc : c < o.automaton.action_count) where
    goes : next_of o v c ≡ target o ds v c
    goes = ((g.pairs v hv).edges c hc).0

    supports-LeadsTo :
        (kind : Kind) (next : ℕ)
        → supports o kind ds v c ≡ true
        → next ≡ next_named o kind ds v c
        → LeadsTo o ds v kind c next
    supports-LeadsTo merge next s e =
        let f = ap (λ x. get_or ds x index_none) goes in
        (e ∙ goes, ((λ x. ground arith), ground arith))
    supports-LeadsTo resolution next s e =
        let f = ap (λ x. get_or ds x index_none) goes in
        let d = ((g.pairs v hv).edges c hc).1 in
        let named = goes in
        elim (Bool-cases (immediate o ds v c)) [
          | inl now ↦ inl (ground arith, ground arith, λ x. ground arith)
          | inr later ↦ inr (ground arith, ground arith, ((λ x. ground arith), ground arith))
        ]

    LeadsTo-supports :
        (kind : Kind) (next : ℕ)
        → LeadsTo o ds v kind c next
        → (supports o kind ds v c ≡ true) × (next ≡ next_named o kind ds v c)
    LeadsTo-supports merge next (e, (seen, step)) =
        let f = ap (λ x. get_or ds x index_none) goes in
        let named = goes in (ground arith, e ∙ sym goes)
    LeadsTo-supports resolution next (inl (e, one, apart)) =
        let d = ((g.pairs v hv).edges c hc).1 in (ground arith, ground arith)
    LeadsTo-supports resolution next (inr (e, alike, (seen, step))) =
        let f = ap (λ x. get_or ds x index_none) goes in
        let d = ((g.pairs v hv).edges c hc).1 in let named = goes in (ground arith, ground arith)

    Nearer-LeadsTo : (kind : Kind) → Nearer o ds v kind c → (next : ℕ) × LeadsTo o ds v kind c next
    Nearer-LeadsTo merge h = (target o ds v c, (refl, h))
    Nearer-LeadsTo resolution (inl (one, apart)) = (index_none, inl (refl, one, apart))
    Nearer-LeadsTo resolution (inr (alike, near)) = (target o ds v c, inr (refl, alike, near))

    LeadsTo-Nearer : (kind : Kind) (next : ℕ) → LeadsTo o ds v kind c next → Nearer o ds v kind c
    LeadsTo-Nearer merge next h = h.1
    LeadsTo-Nearer resolution next (inl (e, one, apart)) = inl (one, apart)
    LeadsTo-Nearer resolution next (inr (e, alike, near)) = inr (alike, near)

    -- The tests of the loop that counts hold exactly of the actions that go nearer.
    supports_iff : (kind : Kind) → (supports o kind ds v c ≡ true) ↔ Nearer o ds v kind c
    supports_iff kind = (
      λ h. LeadsTo-Nearer kind _ (supports-LeadsTo kind (next_named o kind ds v c) h refl),
      λ h. let (next, l) = Nearer-LeadsTo kind h in (LeadsTo-supports kind next l).0,
    )

  -- The loop that counts gives the number of the actions that go nearer.
  support_loop-eq-card :
      (kind : Kind) (ds : List ℕ) (c left : ℕ)
      → support_loop o kind ds v c left ≡ card (supports o kind ds v) c left
  unfolding support_loop
  support_loop-eq-card kind ds c zero = refl
  support_loop-eq-card kind ds c (suc left) =
      let ih = support_loop-eq-card kind ds (c + 1) left in omega arith

  module _ (kind : Kind) (t : Table) where
    counted :
        HowMany
          (support_loop o kind t.distance v 0 o.automaton.action_count)
          o.automaton.action_count
          (Nearer o t.distance v kind)
    counted = (
      supports o kind t.distance v,
      λ c hc. supports_iff t.distance c hc kind,
      support_loop-eq-card kind t.distance 0 o.automaton.action_count,
    )

    counted_unique :
        (n : ℕ)
        → HowMany n o.automaton.action_count (Nearer o t.distance v kind)
        → n ≡ support_loop o kind t.distance v 0 o.automaton.action_count
    counted_unique n (f, tells, e) =
        e
        ∙ card_on f (supports o kind t.distance v) 0 o.automaton.action_count (λ c _ l.
          let hc : c < o.automaton.action_count = omega arith in
          Bool-eq_of_iff (f c) (supports o kind t.distance v c)
            (λ h. (supports_iff t.distance c hc kind).1 ((tells c hc).0 h))
            (λ h. (tells c hc).1 ((supports_iff t.distance c hc kind).0 h)))
        ∙ sym (support_loop-eq-card kind t.distance 0 o.automaton.action_count)

    ValidPair-Agrees : ValidPair o kind t v ↔ Agrees o kind t v
    ValidPair-Agrees = (
      λ h. record {
        absent = h.absent;
        ended = h.ended;
        onward = λ x y.
            let (ha, near, named, count, some_count) = h.onward x y in
            (
              ha,
              supports-LeadsTo t.distance (get_or t.action v index_none) ha kind _ near named,
              subst (λ n. HowMany n o.automaton.action_count (Nearer o t.distance v kind))
                  (sym count) counted,
            );
      },
      λ h. record {
        absent = h.absent;
        ended = h.ended;
        onward = λ x y.
            let (ha, leads, many) = h.onward x y in
            let c = get_or t.action v index_none in
            let (near, named) = LeadsTo-supports t.distance c ha kind _ leads in
            let count = counted_unique (get_or t.support_count v 0) many in
            let some_near =
              supports-count o kind t.distance v 0 o.automaton.action_count c (omega arith)
                (omega arith) near in
            (ha, near, named, count, λ z. some_near (omega arith));
      },
    )

  -- On the graph of an automaton sg_merge_record_valid holds exactly of the records that agree with the
  -- automaton: without a distance, or with the distance 0 for one state twice, no witness is named; else
  -- the action leads the two states to the pair named, whose distance is one smaller, and the count is
  -- the number of the actions that lead to a pair of such a distance.
  pub merge_record_valid-Agrees : (merge_record_valid o v ≡ true) ↔ Agrees o merge o.merge_table v
  merge_record_valid-Agrees =
      let (there, back) = merge_record_valid_iff o g v hv in
      let (agrees, valid) = ValidPair-Agrees merge o.merge_table in
      ((λ h. agrees (there h)), λ h. back (valid h))

  -- On the graph of an automaton sg_resolution_record_valid holds exactly of the records that agree with
  -- the automaton: as for a merge, but the action either shows different outputs at the two states, at
  -- distance 1 and with no pair named, or the same output; and the count is that of these actions.
  pub resolution_record_valid-Agrees :
      (resolution_record_valid o v ≡ true) ↔ Agrees o resolution o.resolution_table v
  resolution_record_valid-Agrees =
      let (there, back) = resolution_record_valid_iff o g v hv in
      let (agrees, valid) = ValidPair-Agrees resolution o.resolution_table in
      ((λ h. agrees (there h)), λ h. back (valid h))
