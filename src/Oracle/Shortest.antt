-- ===== src/Oracle/Shortest.antt =====
-- The distances of the oracle are the lengths of shortest words.
use sync_kgraph.Base.{
  ℕ, ◌≤◌, ◌<◌, ◌≡◌, ◌⊎◌, ◌↔◌, ◌∙◌, refl, sym, ap, subst, inl, inr, false, arith, ltb, Bool-cases,
  List, [], ◌∷◌, length, get_or, index_none,
}
use sync_kgraph.Automaton.{Automaton, transition, observation}
use sync_kgraph.Automaton.Laws.{transition-lt}
use sync_kgraph.Motion.Image.{run, Actions}
use sync_kgraph.Motion.Traces.{outputs}
use sync_kgraph.Sync.{Kind, merge, resolution, pair_index}
use sync_kgraph.Oracle.{Oracle, next_of, differs}
use sync_kgraph.Oracle.Pairs.{pair_index_comm, pair_index_bound, pair_index_injective}
use sync_kgraph.Oracle.Queue.{Equal, Seen}
use sync_kgraph.Oracle.Distances.{Found}
use sync_kgraph.Oracle.Build.{IsGraph}

-- what a word does to two states: it merges them, or it resolves them, when equal outputs come with
-- equal ends
abbrev pub Solves : Kind → Automaton → ℕ → ℕ → List ℕ → Type 0
Solves merge a p q w = run a p w ≡ run a q w
Solves resolution a p q w = outputs a p w ≡ outputs a q w → run a p w ≡ run a q w

module _ (o : Oracle) (g : IsGraph o) (p q : ℕ) (hp : p < o.automaton.state_count)
    (hq : q < o.automaton.state_count) where
  abbrev pub place : ℕ
  place = pair_index o.automaton.state_count p q

  pub place-lt : place < o.pair_count
  place-lt = omega (arith, pair_index_bound o.automaton.state_count p q hp hq, g.count)

  -- The place of two states holds them, in one order or the other.
  holds :
      ((get_or o.first place 0 ≡ p) × (get_or o.second place 0 ≡ q))
      ⊎ ((get_or o.first place 0 ≡ q) × (get_or o.second place 0 ≡ p))
  holds =
      let k = g.pairs place place-lt in
      let n = o.automaton.state_count in
      elim (Bool-cases (ltb q p)) [
        | inl above ↦ inr (
            pair_index_injective n (get_or o.first place 0) (get_or o.second place 0) q p k.ordered
              k.inside (ground arith) hp (k.named ∙ pair_index_comm n p q))
        | inr below ↦ inl (
            pair_index_injective n (get_or o.first place 0) (get_or o.second place 0) p q k.ordered
              k.inside (ground arith) hq k.named)
      ]

  pub Equal-iff : (kind : Kind) → Equal o kind place ↔ (p ≡ q)
  Equal-iff kind = elim holds [
    | inl (x, y) ↦ ((λ e. omega arith), λ e. omega arith)
    | inr (x, y) ↦ ((λ e. omega arith), λ e. omega arith)
  ]

  pub next-place :
      (c : ℕ)
      → c < o.automaton.action_count
      → next_of o place c
        ≡ pair_index o.automaton.state_count
            (transition o.automaton p c)
            (transition o.automaton q c)
  next-place c hc =
      let n = o.automaton.state_count in
      let t = λ (x : ℕ). transition o.automaton x c in
      let e = ((g.pairs place place-lt).edges c hc).0 in
      elim holds [
        | inl (x, y) ↦ e ∙ (rw x (rw y refl))
        | inr (x, y) ↦ e ∙ (rw x (rw y (pair_index_comm n (t q) (t p))))
      ]

  pub differs_iff :
      (c : ℕ)
      → c < o.automaton.action_count
      → (differs o place c ≡ false) ↔ (observation o.automaton p c ≡ observation o.automaton q c)
  differs_iff c hc =
      let e = ((g.pairs place place-lt).edges c hc).1 in
      let s = λ (x : ℕ). observation o.automaton x c in
      elim holds [
        | inl (x, y) ↦ let u = ap s x in let v = ap s y in ((λ h. ground arith), λ h. ground arith)
        | inr (x, y) ↦ let u = ap s x in let v = ap s y in ((λ h. ground arith), λ h. ground arith)
      ]

module _ (o : Oracle) (g : IsGraph o) where
  -- No word that solves the pair is shorter than its distance, and a pair that a word solves has one.
  pub Found-least :
      (kind : Kind) (ds : List ℕ) (p q : ℕ) (w : List ℕ)
      → Found o kind ds
      → p < o.automaton.state_count
      → q < o.automaton.state_count
      → Actions o.automaton w
      → Solves kind o.automaton p q w
      → Seen o kind ds (pair_index o.automaton.state_count p q)
        × (get_or ds (pair_index o.automaton.state_count p q) index_none ≤ length w)
  Found-least merge ds p q [] f hp hq h s =
      let z =
        f.equal (place o g p q hp hq) (place-lt o g p q hp hq)
          ((Equal-iff o g p q hp hq merge).1 s) in
      ((λ x. omega arith), omega arith)
  Found-least resolution ds p q [] f hp hq h s =
      let z =
        f.equal (place o g p q hp hq) (place-lt o g p q hp hq)
          ((Equal-iff o g p q hp hq resolution).1 (s refl)) in
      ((λ x. omega arith), omega arith)
  Found-least merge ds p q (c ∷ w) f hp hq (hc, h) s =
      let a = o.automaton in
      let e = next-place o g p q hp hq c hc in
      let (seen, l) =
        Found-least merge ds (transition a p c) (transition a q c) w f
          (transition-lt a g.valid p c hp hc) (transition-lt a g.valid q c hq hc) h s in
      let k =
        f.closed (place o g p q hp hq) c (place-lt o g p q hp hq) hc refl
          (subst (Seen o merge ds) (sym e) seen) in
      (k.0, omega (arith, ap (λ x. get_or ds x index_none) e))
  Found-least resolution ds p q (c ∷ w) f hp hq (hc, h) s =
      let a = o.automaton in
      let e = next-place o g p q hp hq c hc in
      elim (Bool-cases (differs o (place o g p q hp hq) c)) [
        | inl apart ↦
            let k = f.splits (place o g p q hp hq) (place-lt o g p q hp hq) (c, hc, apart) in
            (k.0, omega arith)
        | inr alike ↦
            let same = (differs_iff o g p q hp hq c hc).0 alike in
            let (seen, l) =
              Found-least resolution ds (transition a p c) (transition a q c) w f
                (transition-lt a g.valid p c hp hc) (transition-lt a g.valid q c hq hc) h
                (λ x. s (cc)) in
            let k =
              f.closed (place o g p q hp hq) c (place-lt o g p q hp hq) hc (ground arith)
                (subst (Seen o resolution ds) (sym e) seen) in
            (k.0, omega (arith, ap (λ x. get_or ds x index_none) e))
      ]
