-- ===== src/Records/Agree.antt =====
-- Two oracles of one automaton whose records agree: the graph of pairs is the same, and so is what the
-- records say.
use sync_kgraph.Base.{
  ℕ, zero, suc, ◌+◌, ◌≤◌, ◌<◌, ◌≡◌, ◌∙◌, refl, sym, ap, subst, false, not, arith, ◌==◌,
  if◌then◌else◌, List, get_or, index_none,
}
use sync_kgraph.Automaton.{Automaton, cell, transition, observation}
use sync_kgraph.Sync.{Kind, merge, resolution, pair_index}
use sync_kgraph.Oracle.{Oracle, next_of, differs, support_loop, supports, next_named}
use sync_kgraph.Oracle.Pairs.{triangle, pair_index_injective}
use sync_kgraph.Oracle.Fill.{PairOk}
use sync_kgraph.Oracle.Build.{IsGraph, IsGraph-inside}
use sync_kgraph.Oracle.Witnesses.{ValidAt}

-- the graphs of two oracles are one
pub record SameGraph (o r : Oracle) : Type 0 where
  pub same_actions : r.automaton.action_count ≡ o.automaton.action_count
  pub same_count : r.pair_count ≡ o.pair_count
  pub same_first : (v : ℕ) → v < o.pair_count → get_or r.first v 0 ≡ get_or o.first v 0
  pub same_second : (v : ℕ) → v < o.pair_count → get_or r.second v 0 ≡ get_or o.second v 0
  pub same_next :
      (v c : ℕ) → v < o.pair_count → c < o.automaton.action_count → next_of r v c ≡ next_of o v c
  pub same_differs :
      (v c : ℕ) → v < o.pair_count → c < o.automaton.action_count → differs r v c ≡ differs o v c

pub IsGraph-SameGraph :
    (o r : Oracle) → IsGraph o → IsGraph r → r.automaton ≡ o.automaton → SameGraph o r
IsGraph-SameGraph o r g h same =
    let count : r.pair_count ≡ o.pair_count =
      h.count ∙ ap (λ (a : Automaton). triangle a.state_count) same ∙ sym g.count in
    let at =
      λ (v : ℕ) (l : v < o.pair_count). subst (λ a. PairOk a r v) same (h.pairs v (omega arith)) in
    let actions = ap (λ (a : Automaton). a.action_count) same in
    record {
      same_actions = actions;
      same_count = count;
      same_first = λ v l. (states v l (at v l)).0;
      same_second = λ v l. (states v l (at v l)).1;
      same_next = λ v c l hc. (edge v c l hc (at v l) actions).0;
      same_differs = λ v c l hc. (edge v c l hc (at v l) actions).1;
    }
  where
    states :
        (v : ℕ)
        → v < o.pair_count
        → PairOk o.automaton r v
        → (get_or r.first v 0 ≡ get_or o.first v 0) × (get_or r.second v 0 ≡ get_or o.second v 0)
    states v l k =
        let j = g.pairs v l in
        pair_index_injective o.automaton.state_count (get_or r.first v 0) (get_or r.second v 0)
          (get_or o.first v 0) (get_or o.second v 0) k.ordered k.inside j.ordered j.inside
          (k.named ∙ sym j.named)

    edge :
        (v c : ℕ)
        → v < o.pair_count
        → c < o.automaton.action_count
        → PairOk o.automaton r v
        → r.automaton.action_count ≡ o.automaton.action_count
        → (next_of r v c ≡ next_of o v c) × (differs r v c ≡ differs o v c)
    edge v c l hc k actions =
        let a = o.automaton in
        let j = g.pairs v l in
        let (e, d) = k.edges c hc in
        let (e', d') = j.edges c hc in
        let (f, s) = states v l k in
        (
          ap (λ m. get_or r.next (cell m v c) 0) actions
              ∙ e
              ∙ ap
                  (λ x.
                    pair_index a.state_count (transition a x c)
                      (transition a (get_or r.second v 0) c))
                  f
              ∙ ap
                  (λ x.
                    pair_index a.state_count (transition a (get_or o.first v 0) c)
                      (transition a x c))
                  s
              ∙ sym e',
          ap (λ m. get_or r.outputs_differ (cell m v c) false) actions
              ∙ d
              ∙ ap (λ x. not (observation a x c == observation a (get_or r.second v 0) c)) f
              ∙ ap (λ x. not (observation a (get_or o.first v 0) c == observation a x c)) s
              ∙ sym d',
        )

module _ (o r : Oracle) (g : IsGraph o) (s : SameGraph o r) (ds es : List ℕ)
    (same : (v : ℕ) → v < o.pair_count → get_or es v index_none ≡ get_or ds v index_none) where
  supports-same :
      (kind : Kind) (v c : ℕ)
      → v < o.pair_count
      → c < o.automaton.action_count
      → (supports r kind es v c ≡ supports o kind ds v c)
        × (next_named r kind es v c ≡ next_named o kind ds v c)
  supports-same merge v c hv hc =
      let n = s.same_next v c hv hc in
      let d = same v hv in
      let e = same (next_of o v c) (IsGraph-inside o g v c hv hc) in
      let f = ap (λ x. get_or es x index_none) n in (ground arith, n)
  supports-same resolution v c hv hc =
      let n = s.same_next v c hv hc in
      let x = s.same_differs v c hv hc in
      let d = same v hv in
      let e = same (next_of o v c) (IsGraph-inside o g v c hv hc) in
      let f = ap (λ x. get_or es x index_none) n in (ground arith, ground arith)

  support_loop-same :
      (kind : Kind) (v c left : ℕ)
      → v < o.pair_count
      → c + left ≤ o.automaton.action_count
      → support_loop r kind es v c left ≡ support_loop o kind ds v c left
  unfolding support_loop
  support_loop-same kind v c zero hv l = refl
  support_loop-same kind v c (suc left) hv l =
      let ih = support_loop-same kind v (c + 1) left hv (omega arith) in
      let e = ap (λ b. if◌then◌else◌ {A = ℕ} b 1 0) (supports-same kind v c hv (omega arith)).0 in
      omega arith

  -- What a record says of the one graph it says of the other.
  pub ValidAt-same :
      (kind : Kind) (v action next count : ℕ)
      → v < o.pair_count
      → ValidAt o kind ds v action next count
      → ValidAt r kind es v action next count
  ValidAt-same kind v action next count hv h =
      let d = same v hv in
      record {
        absent = λ x. h.absent (sym d ∙ x);
        ended = λ x.
            let (e, x1, x2, x3) = h.ended (sym d ∙ x) in
            (s.same_first v hv ∙ e ∙ sym (s.same_second v hv), x1, x2, x3);
        onward = λ x y.
            let (ha, sup, named, counts, some_count) = h.onward (λ z. x (d ∙ z)) (λ z. y (d ∙ z)) in
            let (es', en) = supports-same kind v action hv ha in
            (
              omega (arith, s.same_actions),
              es' ∙ sup,
              named ∙ sym en,
              counts
                  ∙ sym (support_loop-same kind v 0 o.automaton.action_count hv (omega arith))
                  ∙ ap (support_loop r kind es v 0) (sym s.same_actions),
              some_count,
            );
      }
