-- ===== src/Oracle/Distances.antt =====
-- sg_merge_distances and sg_resolution_distances: the searches end, and each leaves distances that fall by
-- one along some edge and by no more along any.
use sync_kgraph.Base.{
  ℕ, zero, suc, ◌+◌, ◌-◌, ◌≤◌, ◌<◌, ◌≡◌, ◌≢◌, ◌∙◌, refl, sym, subst, inl, inr, true, ◌&&◌, arith,
  ltb, ◌==◌, Bool-cases, List, [], ◌∷◌, length, get_or, get_or-set_self, get_or-set_ne, replicate,
  index_none, Status, Ensures, Ensures-return,
}
use sync_kgraph.Sync.{Kind}
use sync_kgraph.Oracle.{
  Oracle, Predecessors, Search, dist, enqueue, next_of, usable, relax, relax_all, expand,
  search_loop,
}
use sync_kgraph.Oracle.Buckets.{Grouped}
use sync_kgraph.Oracle.Queue.{
  unseen, Inv, Splits, Equal, Seen, Reason, Steps, Closes, Keeps, Closes-Keeps, enqueue-Inv,
}

pub unseen-replicate : (n : ℕ) → unseen (replicate n index_none) ≡ n
unseen-replicate zero = refl
unseen-replicate (suc n) = omega (arith, unseen-replicate n)

-- the distances that a search leaves
pub record Found (o : Oracle) (kind : Kind) (ds : List ℕ) : Type 0 where
  pub size : length ds ≡ o.pair_count
  pub reason : (v : ℕ) → v < o.pair_count → Seen o kind ds v → Reason o kind ds v
  pub closed :
      (v c : ℕ)
      → v < o.pair_count
      → c < o.automaton.action_count
      → usable o kind v c ≡ true
      → Seen o kind ds (next_of o v c)
      → Closes o kind ds v (next_of o v c)
  pub equal : (v : ℕ) → v < o.pair_count → Equal o kind v → get_or ds v index_none ≡ 0
  pub splits :
      (v : ℕ)
      → v < o.pair_count
      → Splits o kind kind v
      → Seen o kind ds v × (get_or ds v index_none ≤ 1)
  pub bounded :
      (v : ℕ) → v < o.pair_count → Seen o kind ds v → get_or ds v index_none ≤ o.pair_count

-- what the loops before the search have given a distance
pub record Seeded (o : Oracle) (kind : Kind) (ds : List ℕ) : Type 0 where
  pub equal : (v : ℕ) → v < o.pair_count → Equal o kind v → get_or ds v index_none ≡ 0
  pub splits :
      (v : ℕ)
      → v < o.pair_count
      → Splits o kind kind v
      → Seen o kind ds v × (get_or ds v index_none ≤ 1)

module _ (o : Oracle) (kind : Kind) (small : o.pair_count < index_none) where
  pub Keeps-refl : (ds : List ℕ) → Keeps o kind ds ds
  Keeps-refl ds v seen = refl

  pub Keeps-trans :
      (ds es fs : List ℕ) → Keeps o kind ds es → Keeps o kind es fs → Keeps o kind ds fs
  Keeps-trans ds es fs h k v seen = k v (λ e. seen (sym (h v seen) ∙ e)) ∙ h v seen

  -- the number of rounds that a state can still take
  abbrev work : Search → ℕ
  work s = unseen s.distance + length s.pending

  -- what a part of the search leaves of the state before
  record Grew (Busy : ℕ → Type 0) (level : ℕ) (s r : Search) : Type 0 where
    pub inv : Inv o kind Busy level r
    pub keeps : Keeps o kind s.distance r.distance
    pub same_work : work r ≡ work s

  module _ (p : Predecessors) (grouped : Grouped o p)
      (inside : (v c : ℕ)
        → v < o.pair_count
        → c < o.automaton.action_count
        → next_of o v c < o.pair_count) where
    relax-Grew :
        (t source action : ℕ) (s : Search)
        → t < o.pair_count
        → Seen o kind s.distance t
        → source < o.pair_count
        → action < o.automaton.action_count
        → next_of o source action ≡ t
        → Inv o kind (λ u. u ≡ t) (dist s t) s
        → Grew (λ u. u ≡ t) (dist s t) s (relax o kind t source action s)
          × (usable o kind source action ≡ true
              → Closes o kind (relax o kind t source action s).distance source t)
    unfolding relax
    relax-Grew t source action s ht seen hs ha e inv =
        elim (Bool-cases (usable o kind source action && dist s source == index_none)) [
          | inl fresh ↦
              let c = inv.counted t ht seen in
              let (i, k, own, less, longer) =
                enqueue-Inv o kind (λ u. u ≡ t) (dist s t) source (dist s t + 1) s inv hs
                  (ground arith) small (omega arith) (omega arith) inv.high (omega arith)
                  (inr (inr (reached fresh))) in
              rw fresh (
                record { inv = i; keeps = k; same_work = omega arith },
                λ _. ((λ x. let kt = k t seen in omega arith), omega (arith, k t seen)),
              )
          | inr old ↦ rw old (
            record { inv = inv; keeps = Keeps-refl s.distance; same_work = refl },
            λ us.
                let was : Seen o kind s.distance source = λ x. ground arith in
                (was, inv.high source hs was),
          )
        ]
      where
        reached :
            (usable o kind source action && dist s source == index_none) ≡ true
            → Steps o kind (enqueue source (dist s t + 1) s).distance source
        reached fresh =
            let away : source ≢ t =
              λ x. seen (subst (λ w. dist s w ≡ index_none) x (ground arith)) in
            let own =
              get_or-set_self s.distance source (dist s t + 1) index_none
                (omega (arith, inv.size)) in
            let kept = get_or-set_ne s.distance source t (dist s t + 1) index_none away in
            (
              action,
              ha,
              ground arith,
              subst
                  (λ u. get_or (enqueue source (dist s t + 1) s).distance u index_none ≢ index_none)
                  (sym e) (λ x. seen (sym kept ∙ x)),
              subst
                  (λ u.
                    get_or (enqueue source (dist s t + 1) s).distance u index_none + 1
                    ≡ get_or (enqueue source (dist s t + 1) s).distance source index_none)
                  (sym e) (omega arith),
            )

    -- the predecessors at these places are done
    abbrev Done : ℕ → List ℕ → ℕ → ℕ → Type 0
    Done t ds from upto =
        (j : ℕ)
        → from ≤ j
        → j < upto
        → usable o kind (get_or p.pairs j 0) (get_or p.actions j 0) ≡ true
        → Closes o kind ds (get_or p.pairs j 0) t

    relax_all-Grew :
        (t index left : ℕ) (s : Search)
        → t < o.pair_count
        → Seen o kind s.distance t
        → get_or p.offsets t 0 ≤ index
        → index + left ≤ get_or p.offsets (t + 1) 0
        → Inv o kind (λ u. u ≡ t) (dist s t) s
        → Grew (λ u. u ≡ t) (dist s t) s (relax_all o kind p t index left s)
          × Done t (relax_all o kind p t index left s).distance index (index + left)
    unfolding relax_all
    relax_all-Grew t index zero s ht seen lo hi inv = (
      record { inv = inv; keeps = Keeps-refl s.distance; same_work = refl },
      λ j a b us. absurd (omega arith),
    )
    relax_all-Grew t index (suc left) s ht seen lo hi inv =
        let (hs, ha, e) = grouped.sound t index ht lo (omega arith) in
        let source = get_or p.pairs index 0 in
        let action = get_or p.actions index 0 in
        let (one, near) = relax-Grew t source action s ht seen hs ha e inv in
        let s' = relax o kind t source action s in
        let kt : dist s' t ≡ dist s t = one.keeps t seen in
        let seen' : Seen o kind s'.distance t = λ x. seen (sym kt ∙ x) in
        let (rest, others) =
          relax_all-Grew t (index + 1) left s' ht seen' (omega arith) (omega arith)
            (subst (λ d. Inv o kind (λ u. u ≡ t) d s') (sym kt) one.inv) in
        (
          record {
            inv =
                subst (λ d. Inv o kind (λ u. u ≡ t) d (relax_all o kind p t (index + 1) left s')) kt
                  rest.inv;
            keeps = Keeps-trans s.distance s'.distance _ one.keeps rest.keeps;
            same_work = rest.same_work ∙ one.same_work;
          },
          λ j a b us. elim (Bool-cases (j == index)) [
            | inl here ↦
                let x : j ≡ index = ground arith in
                let c = near (
                  subst (λ i. usable o kind (get_or p.pairs i 0) (get_or p.actions i 0) ≡ true) x
                    us) in
                subst
                  (λ i.
                    Closes o kind (relax_all o kind p t (index + 1) left s').distance
                      (get_or p.pairs i 0) t)
                  (sym x) (Closes-Keeps o kind s'.distance _ source t rest.keeps seen' c)
            | inr other ↦ others j (ground arith) (omega arith) us
          ],
        )

    -- a round of the loop: the pair off the queue is no longer under way
    expand-Grew :
        (t level : ℕ) (rest ds : List ℕ)
        → Inv o kind (λ _. ⊥) level (record { distance = ds; pending = t ∷ rest })
        → Grew
            (λ _. ⊥)
            (get_or ds t index_none)
            (record { distance = ds; pending = rest })
            (expand o kind p t (record { distance = ds; pending = rest }))
    unfolding expand
    expand-Grew t level rest ds inv =
        let s : Search = record { distance = ds; pending = rest } in
        let (ht, seen) = inv.queued.0 in
        let popped : Inv o kind (λ u. u ≡ t) (dist s t) s = record {
          size = inv.size;
          queued = inv.queued.1;
          ordered = inv.ordered.1;
          low = inv.ordered.0;
          high = λ v hv sv. omega (arith, inv.high v hv sv, inv.low.0);
          reason = inv.reason;
          closed = λ v c hv hc us sn. elim (inv.closed v c hv hc us sn) [
            | inl waits ↦ elim (Bool-cases (next_of o v c == t)) [
              | inl here ↦ inr (inl (ground arith))
              | inr other ↦ inl (ground arith)
            ]
            | inr (inl busy) ↦ absurd busy
            | inr (inr near) ↦ inr (inr near)
          ];
          counted = inv.counted;
        } in
        let from = get_or p.offsets t 0 in
        let upto = get_or p.offsets (t + 1) 0 in
        elim (Bool-cases (ltb upto from)) [
          | inl none_in ↦
              let z : upto - from ≡ 0 = ground arith in
              subst (λ k. Grew (λ _. ⊥) (dist s t) s (relax_all o kind p t from k s)) (sym z)
                (record {
                  inv = settle t s popped (λ v c hv hc us e.
                      let (i, lo, hi, _) = grouped.complete v c hv hc in
                      absurd (
                        let x =
                          subst (λ w. (get_or p.offsets w 0 ≤ i) × (i < get_or p.offsets (w + 1) 0))
                            e (lo, hi) in
                        ground arith));
                  keeps = Keeps-refl s.distance;
                  same_work = refl;
                })
          | inr some_in ↦
              let (g, done) =
                relax_all-Grew t from (upto - from) s ht seen (omega arith) (ground arith) popped in
              record {
                inv =
                    settle t (relax_all o kind p t from (upto - from) s)
                      (subst
                        (λ d. Inv o kind (λ u. u ≡ t) d (relax_all o kind p t from (upto - from) s))
                        refl g.inv)
                      (λ v c hv hc us e.
                        let (i, lo, hi, (ip, ia)) = grouped.complete v c hv hc in
                        let (lo', hi') =
                          subst (λ w. (get_or p.offsets w 0 ≤ i) × (i < get_or p.offsets (w + 1) 0))
                            e (lo, hi) in
                        subst
                          (λ w.
                            Closes o kind (relax_all o kind p t from (upto - from) s).distance w t)
                          ip (done i lo' (ground arith) (rw ip (rw ia us))));
                keeps = g.keeps;
                same_work = g.same_work;
              }
        ]
      where
        settle :
            (t : ℕ) (r : Search) {level : ℕ}
            → Inv o kind (λ u. u ≡ t) level r
            → ((v c : ℕ)
                → v < o.pair_count
                → c < o.automaton.action_count
                → usable o kind v c ≡ true
                → next_of o v c ≡ t
                → Closes o kind r.distance v t)
            → Inv o kind (λ _. ⊥) level r
        settle t r i done = record {
          size = i.size;
          queued = i.queued;
          ordered = i.ordered;
          low = i.low;
          high = i.high;
          reason = i.reason;
          closed = λ v c hv hc us sn. elim (i.closed v c hv hc us sn) [
            | inl waits ↦ inl waits
            | inr (inl busy) ↦ inr (
                inr (subst (λ w. Closes o kind r.distance v w) (sym busy) (done v c hv hc us busy)))
            | inr (inr near) ↦ inr (inr near)
          ];
          counted = i.counted;
        }

    Seeded-Keeps : (ds es : List ℕ) → Keeps o kind ds es → Seeded o kind ds → Seeded o kind es
    Seeded-Keeps ds es k h = record {
      equal = λ v hv e. k v (λ x. let z = h.equal v hv e in omega arith) ∙ h.equal v hv e;
      splits = λ v hv sp.
          let (seen, l) = h.splits v hv sp in
          ((λ x. seen (sym (k v seen) ∙ x)), omega (arith, k v seen));
    }

    pub Ensures-search_loop :
        {E : Status → Type 0} (rounds level : ℕ) (ds pending : List ℕ)
        → Inv o kind (λ _. ⊥) level (record { distance = ds; pending = pending })
        → Seeded o kind ds
        → unseen ds + length pending ≤ rounds
        → Ensures
            (search_loop o kind p rounds (record { distance = ds; pending = pending }))
            (Found o kind)
            E
    unfolding search_loop
    Ensures-search_loop {E} rounds level ds [] inv h fits = finished rounds
      where
        ends : Found o kind ds
        ends = record {
          size = inv.size;
          reason = inv.reason;
          closed = λ v c hv hc us sn. elim (inv.closed v c hv hc us sn) [
            | inl waits ↦ cc
            | inr (inl busy) ↦ absurd busy
            | inr (inr near) ↦ near
          ];
          equal = h.equal;
          splits = h.splits;
          bounded = λ v hv sv. omega (arith, inv.counted v hv sv);
        }

        finished :
            (rounds : ℕ)
            → Ensures
                (search_loop o kind p rounds (record { distance = ds; pending = [] }))
                (Found o kind)
                E
        finished zero = Ensures-return ds ends
        finished (suc rounds) = Ensures-return ds ends
    Ensures-search_loop {E} zero level ds (t ∷ rest) inv h fits = absurd (omega arith)
    Ensures-search_loop {E} (suc rounds) level ds (t ∷ rest) inv h fits =
        let g = expand-Grew t level rest ds inv in
        let r = expand o kind p t (record { distance = ds; pending = rest }) in
        Ensures-search_loop rounds (get_or ds t index_none) r.distance r.pending g.inv
          (Seeded-Keeps ds r.distance g.keeps h) (omega (arith, g.same_work))
