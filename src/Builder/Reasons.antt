-- ===== src/Builder/Reasons.antt =====
-- Why sg_resolve_entries refuses entries: what an entry and an earlier one say of the same cell, and
-- which cells no entry sets.
use sync_kgraph.Base.{
  ℕ, zero, suc, ◌*◌, ◌<◌, ◌≡◌, ◌≢◌, ◌⊎◌, ◌∙◌, refl, sym, ap, inl, inr, false, not, ◌||◌, List, [],
  ◌∷◌, arith, ltb, ◌-◌, Ensures-both, Ensures-mono, ◌==◌, Bool-cases, length, length-set, get_or,
  set, get_or-set_self, get_or-set_ne, All, index_none, Status, not_found, duplicate,
  nondeterministic, Ensures, Ensures-return, Ensures-bind, Ensures-guard,
}
use sync_kgraph.Automaton.{Key, find, cell}
use sync_kgraph.Automaton.Laws.{cell_lt, cell_injective, find_lem}
use sync_kgraph.Builder.{Entry, resolve_entries, complete}
use sync_kgraph.Builder.Resolve.{OkCell, Holds, Known, Resolved, resolve_entries_resolves}

-- an entry of the list has the property
abbrev pub Some : (Entry → Type 0) → List Entry → Type 0
Some P [] = ⊥
Some P (e ∷ es) = P e ⊎ Some P es

-- an entry stands in the relation to one before it, or to one of those already done
abbrev pub Collides : (Entry → Entry → Type 0) → List Entry → List Entry → Type 0
Collides R done [] = ⊥
Collides R done (e ∷ es) = Some (λ d. R d e) done ⊎ Collides R (e ∷ done) es

-- two entries say the same
abbrev pub SameFact : Entry → Entry → Type 0
SameFact d e = (d.source ≡ e.source) × (d.action ≡ e.action) × (d.value ≡ e.value)

-- two entries of one source and action have different values
abbrev pub Conflict : Entry → Entry → Type 0
Conflict d e = (d.source ≡ e.source) × (d.action ≡ e.action) × (d.value ≢ e.value)

Some-map :
    (P Q : Entry → Type 0) (es : List Entry) → ((e : Entry) → P e → Q e) → Some P es → Some Q es
Some-map P Q [] f h = absurd h
Some-map P Q (e ∷ es) f (inl p) = inl (f e p)
Some-map P Q (e ∷ es) f (inr h) = inr (Some-map P Q es f h)

-- Keys of one id are one key.
find_injective :
    (ks : List Key) (j k : Key) → find ks j ≢ index_none → find ks j ≡ find ks k → j ≡ k
find_injective ks j k known e =
    let a = (find_lem ks j known).1 in
    let b = (find_lem ks k (λ z. known (e ∙ z))).1 in sym a ∙ ap (λ i. get_or ks i []) e ∙ b

module _ (states actions values : List Key) where
  abbrev cell_of : Entry → ℕ
  cell_of e = cell (length actions) (find states e.source) (find actions e.action)

  -- an entry that set the cell
  abbrev Set : List ℕ → ℕ → Entry → Type 0
  Set t i d =
      Known states actions values d
      × (i ≡ cell_of d)
      × (get_or t i index_none ≡ find values d.value)

  -- every cell that is set was set by an entry
  abbrev Filled : List Entry → List ℕ → Type 0
  Filled done t = (i : ℕ) → get_or t i index_none ≢ index_none → Some (Set t i) done

  -- Entries of one cell are of one source and action.
  one_cell :
      (d e : Entry)
      → Known states actions values d
      → Known states actions values e
      → cell_of e ≡ cell_of d
      → (d.source ≡ e.source) × (d.action ≡ e.action)
  one_cell d e kd ke same =
      let ad = find_lem actions d.action kd.1 in
      let ae = find_lem actions e.action ke.1 in
      let (s, c) =
        cell_injective (length actions) (find states e.source) (find actions e.action)
          (find states d.source) (find actions d.action) ae.0 ad.0 same in
      (
        find_injective states d.source e.source kd.0 (sym s),
        find_injective actions d.action e.action kd.1 (sym c),
      )

  Filled-set :
      (done : List Entry) (t : List ℕ) (e : Entry)
      → Known states actions values e
      → cell_of e < length t
      → Filled done t
      → Filled (e ∷ done) (set t (cell_of e) (find values e.value))
  Filled-set done t e k inside f i taken = elim (Bool-cases (i == cell_of e)) [
    | inl here ↦
        let x : i ≡ cell_of e = ground arith in
        inl (
          k,
          x,
          ap (λ j. get_or (set t (cell_of e) (find values e.value)) j index_none) x
              ∙ get_or-set_self t (cell_of e) (find values e.value) index_none inside,
        )
    | inr other ↦
        let same =
          get_or-set_ne t (cell_of e) i (find values e.value) index_none (λ x. ground arith) in
        inr (
          Some-map (Set t i) (Set (set t (cell_of e) (find values e.value)) i) done
            (λ d (kd, c, v). (kd, c, same ∙ v)) (f i (λ z. taken (same ∙ z))))
  ]

  -- DUPLICATE means that an entry says what an earlier one says, NONDETERMINISTIC that it contradicts
  -- one.
  pub resolve_entries_explains :
      {E : Status → Type 0} (es done : List Entry) (t : List ℕ)
      → (Collides SameFact done es → E duplicate)
      → (Collides Conflict done es → E nondeterministic)
      → E not_found
      → length t ≡ length states * length actions
      → Filled done t
      → Ensures (resolve_entries states actions values es t) (λ _. Unit {0}) E
  unfolding resolve_entries
  resolve_entries_explains [] done t dup nd nf size f = Ensures-return t tt
  resolve_entries_explains (e ∷ es) done t dup nd nf size f =
      let s = find states e.source in
      let c = find actions e.action in
      let v = find values e.value in
      let i = cell (length actions) s c in
      let held = get_or t i index_none in
      Ensures-bind
        (Ensures-guard (not (s == index_none || c == index_none || v == index_none)) not_found
          (λ _. nf))
        λ _ known.
          let k : Known states actions values e =
            ((λ z. ground arith), (λ z. ground arith), λ z. ground arith) in
          Ensures-bind
            (Ensures-guard (held == index_none || not (held == v)) duplicate
              (λ z. dup (inl (repeats k (λ y. ground arith) (ground arith)))))
            λ _ fresh.
              Ensures-bind
                (Ensures-guard (held == index_none) nondeterministic
                  (λ z. nd (inl (conflicts k (λ y. ground arith) (λ y. ground arith)))))
                λ _ free.
                  let inside =
                    cell_lt (length states) (length actions) s c (find_lem states e.source k.0).0
                      (find_lem actions e.action k.1).0 in
                  resolve_entries_explains es (e ∷ done) (set t i v) (λ z. dup (inr z))
                    (λ z. nd (inr z)) nf (length-set t i v ∙ size)
                    (Filled-set done t e k (omega arith) f)
    where
      repeats :
          Known states actions values e
          → get_or t (cell_of e) index_none ≢ index_none
          → get_or t (cell_of e) index_none ≡ find values e.value
          → Some (λ d. SameFact d e) done
      repeats k taken same =
          Some-map (Set t (cell_of e)) (λ d. SameFact d e) done
            (λ d (kd, here, held).
              let (s, c) = one_cell d e kd k here in
              (s, c, find_injective values d.value e.value kd.2 (sym held ∙ same)))
            (f (cell_of e) taken)

      conflicts :
          Known states actions values e
          → get_or t (cell_of e) index_none ≢ index_none
          → get_or t (cell_of e) index_none ≢ find values e.value
          → Some (λ d. Conflict d e) done
      conflicts k taken differ =
          Some-map (Set t (cell_of e)) (λ d. Conflict d e) done
            (λ d (kd, here, held).
              let (s, c) = one_cell d e kd k here in
              (s, c, λ z. differ (held ∙ ap (find values) z)))
            (f (cell_of e) taken)

-- why the entries are refused
abbrev pub Refusal : List Key → List Key → List Key → List Entry → Status → Type 0
Refusal states actions values es e =
    ((e ≡ not_found) × ¬ All (Known states actions values) es)
    ⊎ ((e ≡ duplicate) × Collides SameFact [] es)
    ⊎ ((e ≡ nondeterministic) × Collides Conflict [] es)

-- sg_resolve_entries on a table without values: each refusal has its reason.
pub Ensures-resolve_entries :
    (states actions values : List Key) (es : List Entry) (t : List ℕ)
    → length values < index_none
    → length t ≡ length states * length actions
    → All (OkCell (length values)) t
    → ((i : ℕ) → get_or t i index_none ≡ index_none)
    → Ensures
        (resolve_entries states actions values es t)
        (Resolved states actions values t es)
        (Refusal states actions values es)
Ensures-resolve_entries states actions values es t small size cells blank =
    Ensures-mono (λ _ h. h)
      (λ e (seen, (same, other)). elim seen [
        | inl d ↦ inr (inl (d, same d))
        | inr (inl n) ↦ inr (inr (n, other n))
        | inr (inr (u, missing)) ↦ inl (u, missing)
      ])
      (Ensures-both
        (resolve_entries_resolves states actions values
          {E = λ e.
            (e ≡ duplicate)
            ⊎ (e ≡ nondeterministic)
            ⊎ ((e ≡ not_found) × ¬ All (Known states actions values) es)}
          (inl refl) (inr (inl refl)) small es t (λ no. inr (inr (refl, no))) size cells)
        (resolve_entries_explains states actions values
          {E = λ e.
            (e ≡ duplicate → Collides SameFact [] es)
            × (e ≡ nondeterministic → Collides Conflict [] es)}
          es [] t (λ h. ((λ _. h), λ z. absurd (cc))) (λ h. ((λ z. absurd (cc)), λ _. h))
          ((λ z. absurd (cc)), λ z. absurd (cc)) size (λ i taken. absurd (taken (blank i)))))

-- no entry gives a value for the state and the action
abbrev pub Unset : List Key → List Key → List Entry → ℕ → ℕ → Type 0
Unset states actions es s c =
    All (λ e. ¬ ((find states e.source ≡ s) × (find actions e.action ≡ c))) es

-- some state has no entry for some action
abbrev pub Misses : List Key → List Key → List Entry → Type 0
Misses states actions es =
    (s : ℕ) × (c : ℕ) × (s < length states) × (c < length actions) × Unset states actions es s c

incomplete_cell :
    (t : List ℕ)
    → complete t ≡ false
    → (i : ℕ) × (i < length t) × (get_or t i index_none ≡ index_none)
unfolding complete
incomplete_cell [] h = absurd (cc)
incomplete_cell (c ∷ cs) h = elim (Bool-cases (c == index_none)) [
  | inl unset ↦ (0, omega arith, ground arith)
  | inr set_cell ↦ let (i, l, e) = incomplete_cell cs (ground arith) in (suc i, omega arith, e)
]

cell_split : (n k i : ℕ) → i < n * k → (s : ℕ) × (c : ℕ) × (s < n) × (c < k) × (cell k s c ≡ i)
cell_split zero k i l = absurd (omega arith)
cell_split (suc n) k i l = elim (Bool-cases (ltb i (n * k))) [
  | inl below ↦
      let (s, c, ls, lc, e) = cell_split n k i (ground arith) in (s, c, omega arith, lc, e)
  | inr last ↦ (n, i - n * k, omega arith, grind arith, ground arith)
]

-- A table that is not complete misses a cell.
pub complete-Misses :
    (states actions values : List Key) (t : List ℕ) (es : List Entry)
    → length values < index_none
    → length t ≡ length states * length actions
    → All (Holds states actions values t) es
    → complete t ≡ false
    → Misses states actions es
complete-Misses states actions values t es small size holds h =
    let (i, l, unset) = incomplete_cell t h in
    let (s, c, ls, lc, e) = cell_split (length states) (length actions) i (omega arith) in
    (s, c, ls, lc, none_names s c (ap (λ j. get_or t j index_none) e ∙ unset) es holds)
  where
    none_names :
        (s c : ℕ)
        → get_or t (cell (length actions) s c) index_none ≡ index_none
        → (es : List Entry) → All (Holds states actions values t) es
        → Unset states actions es s c
    none_names s c unset [] h = tt
    none_names s c unset (e ∷ es) (h, hs) = (
      λ (x, y).
          let held = h.held in
          let known = h.value_known in
          let z =
            ap (λ j. get_or t (cell (length actions) j (find actions e.action)) index_none) x
            ∙ ap (λ j. get_or t (cell (length actions) s j) index_none) y in
          absurd (omega arith),
      none_names s c unset es hs,
    )
