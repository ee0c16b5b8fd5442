-- ===== src/Builder/Resolve.antt =====
-- The table that sg_resolve_entries fills: each entry's cell holds the entry's value, since a cell
-- that is set is never written again.
use sync_kgraph.Base.{
  ℕ, ◌*◌, ◌<◌, ◌≡◌, ◌∙◌, refl, sym, subst, ◌≢◌, ◌⊎◌, inl, inr, true, not, ◌||◌, List, [], ◌∷◌,
  arith, ◌==◌, length, length-set, get_or, set, get_or-set_self, get_or-set_ne, All, All-set,
  index_none, Status, not_found, duplicate, nondeterministic, Ensures, Ensures-return, Ensures-bind,
  Ensures-guard, Ensures-mono,
}
use sync_kgraph.Automaton.{Key, find, cell}
use sync_kgraph.Automaton.Laws.{cell_lt, find_lem}
use sync_kgraph.Builder.{Entry, resolve_entries, complete}

-- a cell is unset, or holds an id below the bound
abbrev pub OkCell : ℕ → ℕ → Type 0
OkCell bound c = (c ≡ index_none) ⊎ (c < bound)

-- what is set stays
abbrev pub Extends : List ℕ → List ℕ → Type 0
Extends t t' =
    (i : ℕ) → get_or t i index_none ≢ index_none → get_or t' i index_none ≡ get_or t i index_none

Extends-set : (t : List ℕ) (i v : ℕ) → get_or t i index_none ≡ index_none → Extends t (set t i v)
Extends-set t i v free j taken =
    get_or-set_ne t i j v index_none
      (λ e. taken (subst (λ k. get_or t k index_none ≡ index_none) e free))

Extends-trans : (t u w : List ℕ) → Extends t u → Extends u w → Extends t w
Extends-trans t u w f g j taken = let e = f j taken in g j (λ z. taken (sym e ∙ z)) ∙ e

module _ (states actions values : List Key) where
  -- the names of the entry are declared, and its cell holds its value
  pub record Holds (table : List ℕ) (e : Entry) : Type 0 where
    pub source_known : find states e.source < length states
    pub action_known : find actions e.action < length actions
    pub value_known : find values e.value < length values
    pub held :
        get_or table
          (cell (length actions) (find states e.source) (find actions e.action))
          index_none
        ≡ find values e.value

  Holds-later :
      (t t' : List ℕ) (e : Entry)
      → length values < index_none
      → Extends t t'
      → Holds t e
      → Holds t' e
  Holds-later t t' e small ext h = record {
    source_known = h.source_known;
    action_known = h.action_known;
    value_known = h.value_known;
    held =
        ext (cell (length actions) (find states e.source) (find actions e.action))
          (λ z. let l = h.value_known in let g = h.held in omega arith)
        ∙ h.held;
  }

  abbrev pub Resolved : List ℕ → List Entry → List ℕ → Type 0
  Resolved t es t' =
      (length t' ≡ length t) × All (OkCell (length values)) t' × Extends t t' × All (Holds t') es

  -- the three names of the entry are declared
  abbrev pub Known : Entry → Type 0
  Known e =
      (find states e.source ≢ index_none)
      × (find actions e.action ≢ index_none)
      × (find values e.value ≢ index_none)

  -- sg_resolve_entries, when it succeeds, sets the cell of each entry and changes no cell that was
  -- set. NOT_FOUND means that an entry's name is not declared.
  pub resolve_entries_resolves :
      {E : Status → Type 0}
      → E duplicate
      → E nondeterministic
      → length values < index_none
      → (es : List Entry) (t : List ℕ) → (¬ All Known es → E not_found)
      → length t ≡ length states * length actions
      → All (OkCell (length values)) t
      → Ensures (resolve_entries states actions values es t) (Resolved t es) E
  unfolding resolve_entries
  resolve_entries_resolves dup nd small [] t nf size cells =
      Ensures-return t (refl, cells, (λ i _. refl), tt)
  resolve_entries_resolves dup nd small (e ∷ es) t nf size cells =
      let s = find states e.source in
      let c = find actions e.action in
      let v = find values e.value in
      let i = cell (length actions) s c in
      let held = get_or t i index_none in
      Ensures-bind
        (Ensures-guard (not (s == index_none || c == index_none || v == index_none)) not_found
          (λ z. nf (λ k. let h = k.0 in ground arith)))
        λ _ known.
          Ensures-bind (Ensures-guard (held == index_none || not (held == v)) duplicate (λ _. dup))
            λ _ _.
              Ensures-bind (Ensures-guard (held == index_none) nondeterministic (λ _. nd)) λ _ free.
                let hs = find_lem states e.source (ground arith) in
                let hc = find_lem actions e.action (ground arith) in
                let hv = find_lem values e.value (ground arith) in
                let inside = cell_lt (length states) (length actions) s c hs.0 hc.0 in
                let empty_cell : held ≡ index_none = ground arith in
                let now = get_or-set_self t i v index_none (omega arith) in
                let here : Holds (set t i v) e = record {
                  source_known = hs.0;
                  action_known = hc.0;
                  value_known = hv.0;
                  held = now;
                } in
                Ensures-mono
                  (λ t' r. (
                    r.0 ∙ length-set t i v,
                    r.1,
                    Extends-trans t (set t i v) t' (Extends-set t i v empty_cell) r.2,
                    (Holds-later (set t i v) t' e small r.2 here, r.3),
                  ))
                  (λ _ z. z)
                  (resolve_entries_resolves dup nd small es (set t i v) (λ z. nf (λ k. z k.1))
                    (length-set t i v ∙ size)
                    (All-set (OkCell (length values)) t i v cells (inr hv.0)))

-- With every cell set, a table of unset or valid cells is a table of valid cells.
pub complete-All :
    (bound : ℕ) (t : List ℕ) → All (OkCell bound) t → complete t ≡ true → All (λ c. c < bound) t
unfolding complete
complete-All bound [] h e = tt
complete-All bound (c ∷ cs) h e = (valid h.0, complete-All bound cs h.1 (ground arith))
  where
    valid : OkCell bound c → c < bound
    valid (inl unset) = absurd (ground arith)
    valid (inr l) = l
