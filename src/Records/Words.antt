-- ===== src/Records/Words.antt =====
-- sg_witness_word: the words that the witnesses of a pair oracle spell.
use sync_kgraph.Base.{
  ℕ, ◌+◌, ◌*◌, ◌≤◌, ◌<◌, ◌≡◌, ◌≢◌, ◌⊎◌, ◌∙◌, refl, sym, ap, subst, inl, inr, not, ◌&&◌, arith, ltb,
  ◌==◌, List, length, get_or, index_none, size_mod, Status, alloc, invalid_argument, not_found,
  ◌>>=◌, Ensures, Ensures-bind, Ensures-guard, Ensures-mono,
}
use sync_kgraph.Automaton.{Automaton}
use sync_kgraph.Automaton.Laws.{IsValid}
use sync_kgraph.Word.{Word, empty_word}
use sync_kgraph.Motion.Image.{Actions}
use sync_kgraph.Sync.{Kind, pair_index}
use sync_kgraph.Oracle.{Oracle, table, oracle_build}
use sync_kgraph.Oracle.Pairs.{triangle_double}
use sync_kgraph.Oracle.Build.{IsOracle, le_mul, Ensures-oracle_build}
use sync_kgraph.Oracle.Shortest.{Solves, place-lt, Found-least}
use sync_kgraph.Records.{witness_word}
use sync_kgraph.Records.Follow.{Ensures-follow}

-- the states are not both states of the automaton
abbrev pub NoStates : Automaton → ℕ → ℕ → Type 0
NoStates a p q = ¬ ((p < a.state_count) × (q < a.state_count))

-- the word of the witnesses: it solves the pair, and its length is the distance
abbrev pub WitnessFor : Oracle → Kind → ℕ → ℕ → Word → Type 0
WitnessFor o kind p q w =
    (length w.actions
      ≡ get_or (table o kind).distance (pair_index o.automaton.state_count p q) index_none)
    × Actions o.automaton w.actions
    × Solves kind o.automaton p q w.actions

-- why there is no word: what is asked for are no states, the pair has no distance, or the word does not
-- fit into memory
abbrev pub NoWord : Oracle → Kind → ℕ → ℕ → Status → Type 0
NoWord o kind p q e =
    let distance =
      get_or (table o kind).distance (pair_index o.automaton.state_count p q) index_none in
    ((e ≡ invalid_argument) × NoStates o.automaton p q)
    ⊎ ((e ≡ not_found)
        × (p < o.automaton.state_count)
        × (q < o.automaton.state_count)
        × (distance ≡ index_none))
    ⊎ ((e ≡ alloc)
        × (p < o.automaton.state_count)
        × (q < o.automaton.state_count)
        × (distance ≢ index_none)
        × (size_mod ≤ 16 * distance))

-- sg_pair_oracle_merge_word and sg_pair_oracle_resolution_word on an oracle with valid records: the
-- word merges the two states, or its outputs tell where they end, and it is as long as their distance.
-- The walk ends. NOT_FOUND is for a pair with no distance, INVALID_ARGUMENT for what is no state, and
-- ALLOC for a word that does not fit into memory; INVALID_MODEL does not occur.
pub witness_word_solves :
    (o : Oracle) (kind : Kind) (p q : ℕ)
    → IsOracle o
    → Ensures
        (witness_word o kind p q)
        (λ w.
          (p < o.automaton.state_count) × (q < o.automaton.state_count) × WitnessFor o kind p q w)
        (NoWord o kind p q)
unfolding witness_word
witness_word_solves o kind p q v =
    let n = o.automaton.state_count in
    let d = get_or (table o kind).distance (pair_index n p q) index_none in
    Ensures-bind
      (Ensures-guard (ltb p n && ltb q n) invalid_argument
        (λ z. inl (refl, λ (hp, hq). ground arith)))
      λ _ states.
        let hp : p < n = ground arith in
        let hq : q < n = ground arith in
        Ensures-bind
          (Ensures-guard (not (d == index_none)) not_found
            (λ z. inr (inl (refl, hp, hq, ground arith))))
          λ _ some_way.
            Ensures-mono (λ w (u, e, l, h, s). (hp, hq, (ap length e ∙ l, rw e h, rw e s)))
              (λ e (x, large). inr (inr (x, hp, hq, (λ y. ground arith), omega arith)))
              (Ensures-follow o v kind (d + 1) p q empty_word hp hq (λ x. ground arith)
                (omega arith) (omega arith, omega arith))

-- the word solves the pair, and no word that does is shorter
abbrev pub Shortest : Kind → Automaton → ℕ → ℕ → List ℕ → Type 0
Shortest kind a p q w =
    Actions a w
    × Solves kind a p q w
    × ((u : List ℕ) → Actions a u → Solves kind a p q u → length w ≤ length u)

-- no word solves the pair
abbrev pub Unsolvable : Kind → Automaton → ℕ → ℕ → Type 0
Unsolvable kind a p q = (u : List ℕ) → Actions a u → ¬ Solves kind a p q u

-- why there is no shortest word: no states, nothing solves them, or too little memory
abbrev pub NoShortest : Kind → Automaton → ℕ → ℕ → Status → Type 0
NoShortest kind a p q e =
    ((e ≡ invalid_argument) × NoStates a p q)
    ⊎ ((e ≡ not_found) × Unsolvable kind a p q)
    ⊎ ((e ≡ alloc) × (size_mod ≤ 16 * (a.state_count * (a.state_count + 1) * a.action_count)))

-- The oracle that sg_pair_oracle_build makes of a valid automaton gives, for every two states, a
-- shortest word that merges them, or a shortest one whose outputs tell where they end; NOT_FOUND means
-- that there is none. Both calls end, and they fail otherwise only for what is no state, or when the
-- oracle or the word does not fit into memory.
pub build_witness_word-Shortest :
    (a : Automaton) (kind : Kind) (p q : ℕ)
    → IsValid a
    → Ensures
        (do o ← oracle_build a; witness_word o kind p q)
        (λ w. Shortest kind a p q w.actions)
        (NoShortest kind a p q)
build_witness_word-Shortest a kind p q v =
    Ensures-bind
      (Ensures-mono (λ _ h. h) (λ e (x, large). inr (inr (x, omega arith)))
        (Ensures-oracle_build a v))
      λ o (same, ok_o, found).
        let f = found kind in
        let n = o.automaton.state_count in
        Ensures-mono
          (λ w (hp, hq, (l, h, s)). (
            subst (λ b. Actions b w.actions) same h,
            subst (λ b. Solves kind b p q w.actions) same s,
            λ u hu su.
                let least =
                  Found-least o ok_o.graph kind (table o kind).distance p q u f hp hq
                    (subst (λ b. Actions b u) (sym same) hu)
                    (subst (λ b. Solves kind b p q u) (sym same) su) in
                omega arith,
          ))
          (λ e z. elim z [
            | inl (x, bad) ↦ inl (x, subst (λ b. NoStates b p q) same bad)
            | inr (inl (x, hp, hq, none_set)) ↦ inr (
                inl (
                  x,
                  λ u hu su.
                      let least =
                        Found-least o ok_o.graph kind (table o kind).distance p q u f hp hq
                          (subst (λ b. Actions b u) (sym same) hu)
                          (subst (λ b. Solves kind b p q u) (sym same) su) in
                      least.0 none_set,
                ))
            | inr (inr (x, hp, hq, seen, large)) ↦
                let g = ok_o.graph in
                let bound = f.bounded (pair_index n p q) (place-lt o g p q hp hq) seen in
                let states = ap (λ (b : Automaton). b.state_count) same in
                let pairs = ap (λ (k : ℕ). k * (k + 1)) states in
                inr (
                  inr (
                    x,
                    omega (
                      arith,
                      g.count,
                      triangle_double n,
                      le_mul (a.state_count * (a.state_count + 1)) a.action_count v.actions_pos,
                    ),
                  ))
          ])
          (witness_word_solves o kind p q ok_o)
