-- ===== src/Records/Follow.antt =====
-- The loop of sg_pair_oracle_witness_word: the word that the witnesses spell solves the pair.
use mathlib.Core.List.{append_assoc, append-nil}
use sync_kgraph.Base.{
  ℕ, zero, suc, ◌+◌, ◌*◌, ◌≤◌, ◌<◌, ◌≡◌, ◌≢◌, ◌⊎◌, ◌∙◌, refl, sym, ap, subst, inl, inr, true, false,
  not, ◌&&◌, arith, ltb, ◌==◌, Bool-cases, if◌then◌else◌, List, [], ◌∷◌, ◌++◌, length,
  length-append, get_or, index_none, size_mod, Status, alloc, invalid_model, ◌>>◌, return, guard,
  Ensures, Ensures-return, Ensures-bind, Ensures-if, Ensures-guard, Ensures-mono,
}
use sync_kgraph.Automaton.{Automaton, transition, observation}
use sync_kgraph.Automaton.Laws.{transition-lt}
use sync_kgraph.Word.{Word, Fits, Ensures-append}
use sync_kgraph.Motion.Image.{Actions}
use sync_kgraph.Sync.{Kind, merge, resolution, is_resolution, pair_index}
use sync_kgraph.Oracle.{Oracle, table, next_of, differs, supports, next_named, immediate}
use sync_kgraph.Oracle.Queue.{Seen}
use sync_kgraph.Oracle.Build.{IsGraph-inside, IsOracle}
use sync_kgraph.Oracle.Shortest.{Solves, place-lt, Equal-iff, next-place, differs_iff}
use sync_kgraph.Records.{follow}

-- what a record says of the action that it names
abbrev Goes : Oracle → Kind → List ℕ → ℕ → ℕ → ℕ → Type 0
Goes o merge ds v action next =
    (next ≡ next_of o v action)
    × Seen o merge ds next
    × (get_or ds next index_none + 1 ≡ get_or ds v index_none)
Goes o resolution ds v action next =
    ((next ≡ index_none) × (get_or ds v index_none ≡ 1) × (differs o v action ≡ true))
    ⊎ ((next ≡ next_of o v action)
        × (differs o v action ≡ false)
        × Seen o resolution ds next
        × (get_or ds next index_none + 1 ≡ get_or ds v index_none))

supports-Goes :
    (o : Oracle) (kind : Kind) (ds : List ℕ) (v action next : ℕ)
    → supports o kind ds v action ≡ true
    → next ≡ next_named o kind ds v action
    → Goes o kind ds v action next
supports-Goes o merge ds v action next s e = rw e (refl, (λ x. ground arith), ground arith)
supports-Goes o resolution ds v action next s e = elim (Bool-cases (immediate o ds v action)) [
  | inl now ↦ inl (
    e ∙ ap (λ b. if◌then◌else◌ b index_none (next_of o v action)) now,
    ground arith,
    ground arith,
  )
  | inr later ↦
      let f = e ∙ ap (λ b. if◌then◌else◌ b index_none (next_of o v action)) later in
      let x : get_or ds (next_of o v action) index_none ≢ index_none = λ y. ground arith in
      let y : get_or ds (next_of o v action) index_none + 1 ≡ get_or ds v index_none =
        ground arith in
      inr (
        f,
        ground arith,
        subst (λ n. get_or ds n index_none ≢ index_none) (sym f) x,
        subst (λ n. get_or ds n index_none + 1 ≡ get_or ds v index_none) (sym f) y,
      )
]

-- One step before a word that solves the next pair.
Solves-cons :
    (kind : Kind) (a : Automaton) (p q c : ℕ) (w : List ℕ)
    → (kind ≡ resolution → observation a p c ≡ observation a q c)
    → Solves kind a (transition a p c) (transition a q c) w
    → Solves kind a p q (c ∷ w)
Solves-cons merge a p q c w h s = s
Solves-cons resolution a p q c w h s = λ e. s (cc)

-- the word goes on with one that solves the pair and has its distance as length
abbrev Spelled : Oracle → Kind → ℕ → ℕ → ℕ → List ℕ → Word → Type 0
Spelled o kind p q distance before t =
    (u : List ℕ) × (t.actions ≡ before ++ u)
    × (length u ≡ distance)
    × Actions o.automaton u
    × Solves kind o.automaton p q u

mul_at_least : (n k : ℕ) → 0 < n → k ≤ n * k
mul_at_least zero k h = absurd (omega arith)
mul_at_least (suc n) k h = grind arith

module _ (o : Oracle) (v : IsOracle o) where
  abbrev distance_at : Kind → ℕ → ℕ
  distance_at kind pair = get_or (table o kind).distance pair index_none

  abbrev spot : ℕ → ℕ → ℕ
  spot p q = pair_index o.automaton.state_count p q

  abbrev TooLong : Kind → Word → ℕ → Status → Type 0
  TooLong kind word pair e =
      (e ≡ alloc) × (size_mod ≤ 16 * (length word.actions + distance_at kind pair))

  -- what the loop does for two states when it has so many rounds
  abbrev Follows : Kind → ℕ → Type 0
  Follows kind rounds =
      (p q : ℕ) (word : Word)
      → p < o.automaton.state_count
      → q < o.automaton.state_count
      → distance_at kind (spot p q) ≢ index_none
      → distance_at kind (spot p q) < rounds
      → Fits word
      → Ensures (follow o kind rounds (spot p q) word)
          (Spelled o kind p q (distance_at kind (spot p q)) word.actions)
          (TooLong kind word (spot p q))

  -- the rest of a round, when the witness goes on at the next pair
  Ensures-go_on :
      (kind : Kind) (rounds p q action next : ℕ) (word longer : Word)
      → Follows kind rounds
      → p < o.automaton.state_count
      → q < o.automaton.state_count
      → action < o.automaton.action_count
      → (kind ≡ resolution → observation o.automaton p action ≡ observation o.automaton q action)
      → next ≡ next_of o (spot p q) action
      → distance_at kind next ≢ index_none
      → distance_at kind next + 1 ≡ distance_at kind (spot p q)
      → distance_at kind (spot p q) < suc rounds
      → longer.actions ≡ word.actions ++ (action ∷ [])
      → Fits longer
      → Ensures
          (follow o kind rounds next longer)
          (Spelled o kind p q (distance_at kind (spot p q)) word.actions)
          (TooLong kind word (spot p q))
  Ensures-go_on kind rounds p q action next word longer ih hp hq ha alike e seen nearer l el fits =
      let a = o.automaton in
      let p' = transition a p action in
      let q' = transition a q action in
      let to : next ≡ spot p' q' = e ∙ next-place o v.graph p q hp hq action ha in
      let rest =
        ih p' q' longer (transition-lt a v.graph.valid p action hp ha)
          (transition-lt a v.graph.valid q action hq ha)
          (subst (λ k. distance_at kind k ≢ index_none) to seen)
          (omega (arith, ap (distance_at kind) to)) fits in
      subst
        (λ k.
          Ensures (follow o kind rounds k longer)
            (Spelled o kind p q (distance_at kind (spot p q)) word.actions)
            (TooLong kind word (spot p q)))
        (sym to)
        (Ensures-mono
          (λ t (u, eu, lu, hu, su). (
            action ∷ u,
            eu ∙ ap (λ xs. xs ++ u) el ∙ append_assoc word.actions (action ∷ []) u,
            omega (arith, ap (distance_at kind) to),
            (ha, hu),
            Solves-cons kind a p q action u alike su,
          ))
          (λ x (ex, large). (
            ex,
            omega (
              arith,
              ap (distance_at kind) to,
              ap length el,
              length-append word.actions (action ∷ []),
            ),
          ))
          rest)

  Ensures-step :
      (kind : Kind) (rounds p q action next : ℕ) (word longer : Word)
      → Follows kind rounds
      → p < o.automaton.state_count
      → q < o.automaton.state_count
      → action < o.automaton.action_count
      → Goes o kind (table o kind).distance (spot p q) action next
      → distance_at kind (spot p q) < suc rounds
      → longer.actions ≡ word.actions ++ (action ∷ [])
      → Fits longer
      → Ensures
          (if is_resolution kind && next == index_none
            then return longer
            else (do guard (ltb next o.pair_count) invalid_model; follow o kind rounds next longer))
          (Spelled o kind p q (distance_at kind (spot p q)) word.actions)
          (TooLong kind word (spot p q))
  Ensures-step merge rounds p q action next word longer ih hp hq ha (e, seen, near) l el fits =
      let inside = IsGraph-inside o v.graph (spot p q) action (place-lt o v.graph p q hp hq) ha in
      Ensures-bind (Ensures-guard _ invalid_model (λ z. absurd (ground arith))) λ _ _.
        Ensures-go_on merge rounds p q action next word longer ih hp hq ha (λ z. cc) e seen near l
          el fits
  Ensures-step resolution rounds p q action next word longer ih hp hq ha (inl (e, one, apart)) l el
        fits =
      Ensures-if (next == index_none)
        (λ _. Ensures-return longer (
          action ∷ [],
          el,
          sym one,
          (ha, tt),
          λ same. absurd (let d = (differs_iff o v.graph p q hp hq action ha).1 (cc) in cc),
        ))
        (λ z. absurd (ground arith))
  Ensures-step resolution rounds p q action next word longer ih hp hq ha
        (inr (e, alike, seen, near)) l el fits =
      let inside = IsGraph-inside o v.graph (spot p q) action (place-lt o v.graph p q hp hq) ha in
      let small = v.graph.small in
      Ensures-if (next == index_none) (λ z. absurd (ground arith))
        (λ _. Ensures-bind (Ensures-guard _ invalid_model (λ z. absurd (ground arith))) λ _ _.
          Ensures-go_on resolution rounds p q action next word longer ih hp hq ha
            (λ _. (differs_iff o v.graph p q hp hq action ha).0 alike) e seen near l el fits)

  pub Ensures-follow : (kind : Kind) (rounds : ℕ) → Follows kind rounds
  unfolding follow
  Ensures-follow kind zero p q word hp hq seen l fits = absurd (omega arith)
  Ensures-follow kind (suc rounds) p q word hp hq seen l fits =
      let k = spot p q in
      let t = table o kind in
      let r = v.records kind k (place-lt o v.graph p q hp hq) in
      Ensures-if (get_or t.distance k index_none == 0)
        (λ near.
          let z : get_or t.distance k index_none ≡ 0 = ground arith in
          let same = (Equal-iff o v.graph p q hp hq kind).0 (r.ended z).0 in
          Ensures-return _ ([], sym (append-nil word.actions), sym z, tt, ends kind same))
        (λ far.
          let (ha, sup, named, _, _) = r.onward seen (λ z. ground arith) in
          let action = get_or t.action k index_none in
          let next = get_or t.next k index_none in
          let goes = supports-Goes o kind t.distance k action next sup named in
          Ensures-bind
            (Ensures-guard (not (action == index_none)) invalid_model
              (λ z. absurd (let s = actions_small in ground arith)))
            λ _ _.
              Ensures-bind (Ensures-append word action (λ large. (refl, ground arith)) fits)
                λ longer (e, fits').
                  Ensures-step kind rounds p q action next word longer (Ensures-follow kind rounds)
                    hp hq ha goes (omega arith) e fits')
    where
      ends : (kind : Kind) → p ≡ q → Solves kind o.automaton p q []
      ends merge same = same
      ends resolution same = λ _. same

      actions_small : o.automaton.action_count < size_mod
      actions_small =
          let c = v.graph.valid.cells_small in
          omega (
            arith,
            mul_at_least o.automaton.state_count o.automaton.action_count v.graph.valid.states_pos,
          )
