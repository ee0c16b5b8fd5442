-- ===== src/Automaton/Laws.antt =====
-- What the automaton's calls promise: ids in range, the laws of `set_cell`, copies, lookup by key.
use sync_kgraph.Base.{
  ℕ, suc, ◌+◌, ◌*◌, ◌<◌, ◌≡◌, ◌∙◌, refl, sym, ap, ◌≢◌, ◌⊎◌, inl, inr, true, false, not, ◌&&◌, ◌||◌,
  List, [], ◌∷◌, arith, ltb, ltb→lt, ◌==◌, Bool-cases, length, length-set, get_or, set,
  get_or-set_self, get_or-set_ne, All, All-set, All-get_or, index_none, size_mod, Status, alloc,
  invalid_argument, invalid_model, Ensures, Ensures-return, Ensures-bind, Ensures-guard,
  Ensures-request, Ensures-request_all, Never, Ensures-size_bytes,
}
use sync_kgraph.Automaton.{
  Automaton, Key, key_equal, find_from, find, cell, transition, observation, set_cell, copy_each,
  copy_keys, clone_generation,
}

-- A complete automaton: both tables are full, their cells are ids in range, and the sizes leave room
-- for the bitsets over states and outputs.
pub record IsValid (a : Automaton) : Type 0 where
  pub states_pos : 0 < a.state_count
  pub actions_pos : 0 < a.action_count
  pub outputs_pos : 0 < a.output_count
  pub states_small : a.state_count + 63 < size_mod
  pub outputs_small : a.output_count + 63 < size_mod
  pub cells_small : a.state_count * a.action_count < size_mod
  pub transitions_size : length a.transitions ≡ a.state_count * a.action_count
  pub observations_size : length a.observations ≡ a.state_count * a.action_count
  pub targets : All (λ t. t < a.state_count) a.transitions
  pub outputs : All (λ o. o < a.output_count) a.observations

-- A cell lies in the table, so the product and sum of its index stay below the table's size.
pub cell_lt : (n k q c : ℕ) → q < n → c < k → cell k q c < n * k
cell_lt n k q c p r = grind arith

cell_mono : (k q c q' c' : ℕ) → q < q' → c < k → cell k q c < cell k q' c'
cell_mono k q c q' c' p r = grind arith

pub cell_injective :
    (k q c q' c' : ℕ) → c < k → c' < k → cell k q c ≡ cell k q' c' → (q ≡ q') × (c ≡ c')
cell_injective k q c q' c' p p' e = elim (Bool-cases (ltb q q')) [
  | inl below ↦ absurd (omega (arith, cell_mono k q c q' c' (ltb→lt q q' below) p))
  | inr above ↦ elim (Bool-cases (ltb q' q)) [
    | inl over ↦ absurd (omega (arith, cell_mono k q' c' q c (ltb→lt q' q over) p'))
    | inr level ↦ let s : q ≡ q' = ground arith in (s, omega (arith, ap (λ (t : ℕ). t * k) s))
  ]
]

module _ (a : Automaton) (v : IsValid a) (q c : ℕ) (hq : q < a.state_count)
    (hc : c < a.action_count) where
  -- The successor of a state is a state.
  pub transition-lt : transition a q c < a.state_count
  unfolding transition
  transition-lt =
      let inside = cell_lt a.state_count a.action_count q c hq hc in
      let t =
        All-get_or (λ t. t < a.state_count) a.transitions (cell a.action_count q c) index_none
          v.targets (omega (arith, v.transitions_size)) in
      ground arith

  pub observation-lt : observation a q c < a.output_count
  unfolding observation
  observation-lt =
      let inside = cell_lt a.state_count a.action_count q c hq hc in
      let t =
        All-get_or (λ t. t < a.output_count) a.observations (cell a.action_count q c) index_none
          v.outputs (omega (arith, v.observations_size)) in
      ground arith

module _ (a : Automaton) (v : IsValid a) (q c t o : ℕ) where
  -- the two other cells of a table are told apart by their indices
  other_cell :
      (q' c' : ℕ)
      → c < a.action_count
      → c' < a.action_count
      → (q' ≡ q → c' ≢ c)
      → cell a.action_count q c ≢ cell a.action_count q' c'
  other_cell q' c' l l' ne e =
      let (s, r) = cell_injective a.action_count q c q' c' l l' e in ne (sym s) (sym r)

  abbrev written : Automaton
  written = record a {
    transitions = set a.transitions (cell a.action_count q c) t;
    observations = set a.observations (cell a.action_count q c) o;
  }

  written-IsValid : t < a.state_count → o < a.output_count → IsValid written
  written-IsValid ht ho = record {
    states_pos = v.states_pos;
    actions_pos = v.actions_pos;
    outputs_pos = v.outputs_pos;
    states_small = v.states_small;
    outputs_small = v.outputs_small;
    cells_small = v.cells_small;
    transitions_size = length-set a.transitions (cell a.action_count q c) t ∙ v.transitions_size;
    observations_size = length-set a.observations (cell a.action_count q c) o ∙ v.observations_size;
    targets =
        All-set (λ x. x < a.state_count) a.transitions (cell a.action_count q c) t v.targets ht;
    outputs =
        All-set (λ x. x < a.output_count) a.observations (cell a.action_count q c) o v.outputs ho;
  }

  -- the cell reads as it was written, and every other cell as before
  abbrev pub Written : Automaton → Type 0
  Written b =
      IsValid b
      × (transition b q c ≡ t)
      × (observation b q c ≡ o)
      × ((q' c' : ℕ)
          → (q' ≡ q → c' ≢ c)
          → (transition b q' c' ≡ transition a q' c') × (observation b q' c' ≡ observation a q' c'))

  reads_back :
      q < a.state_count
      → c < a.action_count
      → (transition written q c ≡ t) × (observation written q c ≡ o)
  unfolding transition observation
  reads_back hq hc =
      let inside = cell_lt a.state_count a.action_count q c hq hc in
      let et =
        get_or-set_self a.transitions (cell a.action_count q c) t index_none
          (omega (arith, v.transitions_size)) in
      let eo =
        get_or-set_self a.observations (cell a.action_count q c) o index_none
          (omega (arith, v.observations_size)) in
      (ground arith, ground arith)

  keeps_others :
      c < a.action_count
      → (q' c' : ℕ) → (q' ≡ q → c' ≢ c)
      → (transition written q' c' ≡ transition a q' c')
        × (observation written q' c' ≡ observation a q' c')
  unfolding transition observation
  keeps_others hc q' c' ne = elim (Bool-cases (ltb c' a.action_count)) [
    | inl inside ↦
        let apart = other_cell q' c' hc (ltb→lt c' a.action_count inside) ne in
        (
          rw (
              get_or-set_ne a.transitions (cell a.action_count q c) (cell a.action_count q' c') t
                index_none apart),
          rw (
              get_or-set_ne a.observations (cell a.action_count q c) (cell a.action_count q' c') o
                index_none apart),
        )
    | inr outside ↦ (ground arith, ground arith)
  ]

  -- sg_automaton_set_cell writes one cell of each table and keeps the automaton valid, or rejects an
  -- id out of range.
  pub set_cell_writes : Ensures (set_cell a q c t o) Written (λ e.
      (e ≡ invalid_argument)
      × ¬ ((q < a.state_count) × (c < a.action_count) × (t < a.state_count) × (o < a.output_count)))
  unfolding set_cell
  set_cell_writes =
      Ensures-bind
        (Ensures-guard
          (ltb q a.state_count
            && ltb c a.action_count
            && ltb t a.state_count
            && ltb o a.output_count)
          invalid_argument (λ no. (refl, λ (p, r, s, u). ground arith)))
        λ _ g.
          let p : q < a.state_count = ground arith in
          let r : c < a.action_count = ground arith in
          let back = reads_back p r in
          Ensures-return written
            (written-IsValid (ground arith) (ground arith), back.0, back.1, keeps_others r)

-- the keys of whose length sg_string_duplicate can add one
abbrev pub Copyable : List Key → Type 0
Copyable ks = All (λ k. length k ≢ index_none) ks

module _ {E : Status → Type 0} where
  Ensures-copy_each :
      (ks : List Key) → (¬ Copyable ks → E alloc) → Ensures (copy_each ks) (λ t. t ≡ ks) E
  unfolding copy_each
  Ensures-copy_each [] allow = Ensures-return [] refl
  Ensures-copy_each (k ∷ ks) allow =
      Ensures-bind
        (Ensures-guard (not (length k == index_none)) alloc (λ z. allow (λ c. c.0 (ground arith))))
        λ _ _. Ensures-bind Ensures-request λ _ _.
          Ensures-bind (Ensures-copy_each ks (λ z. allow (λ c. z c.1)))
            λ rest e. Ensures-return (k ∷ rest) (rw e)

  -- sg_copy_keys gives equal keys; it fails only when a key is too long.
  pub Ensures-copy_keys :
      (ks : List Key) → (¬ Copyable ks → E alloc) → Ensures (copy_keys ks) (λ t. t ≡ ks) E
  unfolding copy_keys
  Ensures-copy_keys ks allow = Ensures-bind Ensures-request λ _ _. Ensures-copy_each ks allow

-- A clone of a valid automaton with copyable keys is that automaton with the new generation; the call
-- fails only when the allocator refuses.
pub clone_generation_copies :
    (a : Automaton) (g : ℕ)
    → IsValid a
    → Copyable a.state_keys
    → Copyable a.action_keys
    → Copyable a.output_keys
    → Ensures (clone_generation a g) (λ b. (b ≡ record a { generation = g }) × IsValid b) Never
unfolding clone_generation
clone_generation_copies a g v cs ca co =
    let sp = v.states_pos in
    let ap' = v.actions_pos in
    let op = v.outputs_pos in
    Ensures-bind
      (Ensures-guard (not (a.state_count == 0 || a.action_count == 0 || a.output_count == 0))
        invalid_model (λ no. absurd (ground arith)))
      λ _ _. Ensures-bind Ensures-request λ _ _.
        Ensures-bind (Ensures-copy_keys a.state_keys (λ no. absurd (no cs))) λ sk es.
          Ensures-bind (Ensures-copy_keys a.action_keys (λ no. absurd (no ca))) λ ak ea.
            Ensures-bind (Ensures-copy_keys a.output_keys (λ no. absurd (no co))) λ ok' eo.
              Ensures-bind
                (Ensures-size_bytes a.state_count a.action_count
                  (λ large. absurd (let l = v.cells_small in omega arith)))
                λ cells ec.
                  Ensures-bind
                    (Ensures-guard (not (cells == 0)) invalid_model
                      (λ no. absurd (no_cells cells ec.0 no)))
                    λ _ _.
                      Ensures-bind (Ensures-request_all 2)
                        λ _ _. Ensures-return _ (rw (es, ea, eo), rw (es, ea, eo) (renamed))
  where
    no_cells : (cells : ℕ) → cells ≡ a.state_count * a.action_count → not (cells == 0) ≡ false → ⊥
    no_cells cells e h = let sp = v.states_pos in let ap' = v.actions_pos in grind arith

    renamed : IsValid (record a { generation = g })
    renamed = record {
      states_pos = v.states_pos;
      actions_pos = v.actions_pos;
      outputs_pos = v.outputs_pos;
      states_small = v.states_small;
      outputs_small = v.outputs_small;
      cells_small = v.cells_small;
      transitions_size = v.transitions_size;
      observations_size = v.observations_size;
      targets = v.targets;
      outputs = v.outputs;
    }

key_equal_sound : (a b : Key) → key_equal a b ≡ true → a ≡ b
unfolding key_equal
key_equal_sound [] [] h = refl
key_equal_sound [] (y ∷ ys) h = cc
key_equal_sound (x ∷ xs) [] h = cc
key_equal_sound (x ∷ xs) (y ∷ ys) h = ground (arith, key_equal_sound xs ys)

key_equal_refl : (a : Key) → key_equal a a ≡ true
unfolding key_equal
key_equal_refl [] = refl
key_equal_refl (x ∷ xs) = ground (arith, key_equal_refl xs)

find_from-cases :
    (ks : List Key) (k : Key) (i : ℕ)
    → (find_from ks k i ≡ index_none)
      ⊎ ((j : ℕ) × (find_from ks k i ≡ i + j) × (j < length ks) × (get_or ks j [] ≡ k))
unfolding find_from
find_from-cases [] k i = inl refl
find_from-cases (x ∷ ks) k i = elim (Bool-cases (key_equal x k)) [
  | inl same ↦ inr (0, rw same (omega arith), omega arith, key_equal_sound x k same)
  | inr other ↦ elim (find_from-cases ks k (i + 1)) [
    | inl no_key ↦ inl (rw other no_key)
    | inr (j, e, l, g) ↦ inr (suc j, rw other (omega (arith, e)), omega arith, g)
  ]
]

-- An id that sg_string_array_find returns is one of the array, and the key's.
pub find_lem :
    (ks : List Key) (k : Key)
    → find ks k ≢ index_none
    → (find ks k < length ks) × (get_or ks (find ks k) [] ≡ k)
unfolding find
find_lem ks k h = elim (find_from-cases ks k 0) [
  | inl no_key ↦ absurd (h no_key)
  | inr (j, e, l, g) ↦ let e' : find_from ks k 0 ≡ j = omega arith in rw e' (l, g)
]
