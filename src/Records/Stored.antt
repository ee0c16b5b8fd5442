-- ===== src/Records/Stored.antt =====
-- The loop of sg_pair_oracle_restore over the records: what the cells of the pairs say after it.
use sync_kgraph.Base.{
  ℕ, ◌<◌, ◌≡◌, ◌≢◌, ◌⊎◌, ◌∙◌, refl, sym, ap, inl, inr, Bool, true, false, not, ◌&&◌, arith, ltb,
  ◌==◌, Bool-cases, if◌then◌else◌, List, [], ◌∷◌, All, length, length-set, get_or, set,
  get_or-set_self, get_or-set_ne, index_none, Status, invalid_model, Ensures, Ensures-return,
  Ensures-bind, Ensures-guard, Ensures-mono,
}
use sync_kgraph.Sync.{PairRecord}
use sync_kgraph.Oracle.{Oracle, Table}
use sync_kgraph.Oracle.Build.{IsGraph, IsGraph-with_tables}
use sync_kgraph.Records.{store_cells, store_record, store_records}

-- the cells of a pair in the arrays of one kind
abbrev pub CellsAre : Table → ℕ → ℕ → ℕ → ℕ → ℕ → Type 0
CellsAre t pair distance action next count =
    (get_or t.distance pair index_none ≡ distance)
    × (get_or t.action pair index_none ≡ action)
    × (get_or t.next pair index_none ≡ next)
    × (get_or t.support_count pair 0 ≡ count)

-- the oracle says of a pair what the record says
abbrev pub Stored : Oracle → PairRecord → Type 0
Stored o r =
    CellsAre o.merge_table r.pair (if r.mergeable then r.merge_distance else index_none)
      (if r.mergeable then r.merge_action else index_none)
      (if r.mergeable then r.merge_next_pair else index_none) r.merge_support_count
    × CellsAre o.resolution_table r.pair
        (if r.resolvable then r.resolution_distance else index_none)
        (if r.resolvable then r.resolution_action else index_none)
        (if r.resolvable then r.resolution_next_pair else index_none) r.resolution_support_count

-- one table agrees with another at a pair
abbrev pub SameCells : Table → Table → ℕ → Type 0
SameCells t u k =
    CellsAre u k (get_or t.distance k index_none) (get_or t.action k index_none)
      (get_or t.next k index_none) (get_or t.support_count k 0)

-- no two records are of one pair
abbrev pub Distinct : List PairRecord → Type 0
Distinct [] = Unit
Distinct (r ∷ rs) = All (λ s. s.pair ≢ r.pair) rs × Distinct rs

-- a record is of the pair
abbrev pub Names : ℕ → List PairRecord → Type 0
Names k [] = ⊥
Names k (r ∷ rs) = (r.pair ≡ k) ⊎ Names k rs

unfoldable pub TableSized : ℕ → Table → Type 0
TableSized n t =
    (length t.distance ≡ n)
    × (length t.action ≡ n)
    × (length t.next ≡ n)
    × (length t.support_count ≡ n)

module _ (t : Table) (n pair : ℕ) (b : Bool) (d c e s : ℕ) where
  abbrev written : Table
  written = store_cells t pair b d c e s

  -- The cells of the pair are written, and those of the others kept.
  store_cells-CellsAre :
      TableSized n t
      → pair < n
      → TableSized n written
        × CellsAre written pair
            (if b then d else index_none)
            (if b then c else index_none)
            (if b then e else index_none)
            s
        × ((k : ℕ) → pair ≢ k → SameCells t written k)
  unfolding TableSized store_cells
  store_cells-CellsAre (x, y, z, w) h = (
    (
      length-set t.distance pair (if b then d else index_none) ∙ x,
      length-set t.action pair (if b then c else index_none) ∙ y,
      length-set t.next pair (if b then e else index_none) ∙ z,
      length-set t.support_count pair s ∙ w,
    ),
    (
      get_or-set_self t.distance pair _ index_none (omega (arith, x)),
      get_or-set_self t.action pair _ index_none (omega (arith, y)),
      get_or-set_self t.next pair _ index_none (omega (arith, z)),
      get_or-set_self t.support_count pair s 0 (omega (arith, w)),
    ),
    λ k ne. (
      get_or-set_ne t.distance pair k _ index_none ne,
      get_or-set_ne t.action pair k _ index_none ne,
      get_or-set_ne t.next pair k _ index_none ne,
      get_or-set_ne t.support_count pair k s 0 ne,
    ),
  )

-- the arrays of both kinds and the marks of the pairs have a place for each pair
pub record Room (o : Oracle) (seen : List Bool) : Type 0 where
  pub graph : IsGraph o
  pub merge_sized : TableSized o.pair_count o.merge_table
  pub resolution_sized : TableSized o.pair_count o.resolution_table
  pub seen_sized : length seen ≡ o.pair_count

-- what a loop over records leaves of the pairs marked before it
pub record Kept (o : Oracle) (seen : List Bool) (r : Oracle) (seen' : List Bool) : Type 0 where
  pub room : Room r seen'
  pub same : r.automaton ≡ o.automaton
  pub count : r.pair_count ≡ o.pair_count
  pub marks : (k : ℕ) → get_or seen k false ≡ true → get_or seen' k false ≡ true
  pub merge_cells : (k : ℕ) → get_or seen k false ≡ true → SameCells o.merge_table r.merge_table k
  pub resolution_cells :
      (k : ℕ) → get_or seen k false ≡ true → SameCells o.resolution_table r.resolution_table k

SameCells-CellsAre :
    (t u : Table) (k d c e s : ℕ) → SameCells t u k → CellsAre t k d c e s → CellsAre u k d c e s
SameCells-CellsAre t u k d c e s (x, y, z, w) (x', y', z', w') = (x ∙ x', y ∙ y', z ∙ z', w ∙ w')

Kept-trans :
    (o r q : Oracle) (s s' s'' : List Bool) → Kept o s r s' → Kept r s' q s'' → Kept o s q s''
Kept-trans o r q s s' s'' x y = record {
  room = y.room;
  same = y.same ∙ x.same;
  count = y.count ∙ x.count;
  marks = λ k h. y.marks k (x.marks k h);
  merge_cells = λ k h.
      SameCells-CellsAre r.merge_table q.merge_table k _ _ _ _ (y.merge_cells k (x.marks k h))
        (x.merge_cells k h);
  resolution_cells = λ k h.
      SameCells-CellsAre r.resolution_table q.resolution_table k _ _ _ _
        (y.resolution_cells k (x.marks k h)) (x.resolution_cells k h);
}

-- One record goes to a place that is not marked.
store_record-Kept :
    (x : PairRecord) (seen : List Bool) (o : Oracle)
    → Room o seen
    → x.pair < o.pair_count
    → get_or seen x.pair false ≡ false
    → Kept o seen (store_record x o) (set seen x.pair true) × Stored (store_record x o) x
unfolding store_record
store_record-Kept x seen o room l new =
    let P = o.pair_count in
    let (ms, mc, mk) =
      store_cells-CellsAre o.merge_table P x.pair x.mergeable x.merge_distance x.merge_action
        x.merge_next_pair x.merge_support_count room.merge_sized l in
    let (ts, tc, tk) =
      store_cells-CellsAre o.resolution_table P x.pair x.resolvable x.resolution_distance
        x.resolution_action x.resolution_next_pair x.resolution_support_count room.resolution_sized
        l in
    let apart : (k : ℕ) → get_or seen k false ≡ true → x.pair ≢ k =
      λ k h e. let f = ap (λ j. get_or seen j false) e in let g = sym new ∙ f ∙ h in cc in
    (
      record {
        room = record {
          graph =
              IsGraph-with_tables o (store_record x o).merge_table
                (store_record x o).resolution_table room.graph;
          merge_sized = ms;
          resolution_sized = ts;
          seen_sized = length-set seen x.pair true ∙ room.seen_sized;
        };
        same = refl;
        count = refl;
        marks = λ k h. get_or-set_ne seen x.pair k true false (apart k h) ∙ h;
        merge_cells = λ k h. mk k (apart k h);
        resolution_cells = λ k h. tk k (apart k h);
      },
      (mc, tc),
    )

-- the pair of each record is marked and holds what the record says
unfoldable pub Held : Oracle → List Bool → PairRecord → Type 0
Held o seen r = (get_or seen r.pair false ≡ true) × Stored o r

-- the records are of different pairs, which are not marked yet
unfoldable pub Fresh : Oracle → List Bool → List PairRecord → Type 0
Fresh o seen rs =
    Distinct rs × All (λ r. (r.pair < o.pair_count) × (get_or seen r.pair false ≡ false)) rs

-- what the loop over records leaves when they are fresh
pub record StoredAll (o : Oracle) (seen : List Bool) (rs : List PairRecord)
    (done : Oracle × List Bool) : Type 0 where
  pub kept : Kept o seen done.0 done.1
  pub held : All (Held done.0 done.1) rs
  pub fresh : Fresh o seen rs
  pub named : (k : ℕ) → get_or done.1 k false ≡ true → (get_or seen k false ≡ true) ⊎ Names k rs

-- Exactly the records of different pairs that are not marked are stored.
pub Ensures-store_records :
    (rs : List PairRecord) (seen : List Bool) (o : Oracle) (E : Status → Type 0)
    → Room o seen
    → (¬ Fresh o seen rs → E invalid_model)
    → Ensures (store_records rs seen o) (StoredAll o seen rs) E
unfolding store_records Held Fresh
Ensures-store_records [] seen o E room refuse = Ensures-return _ (record {
  kept = record {
    room = room;
    same = refl;
    count = refl;
    marks = λ k h. h;
    merge_cells = λ k h. (refl, refl, refl, refl);
    resolution_cells = λ k h. (refl, refl, refl, refl);
  };
  held = tt;
  fresh = (tt, tt);
  named = λ k h. inl h;
})
Ensures-store_records (x ∷ rs) seen o E room refuse =
    Ensures-bind
      (Ensures-guard (ltb x.pair o.pair_count && not (get_or seen x.pair false)) invalid_model
        (λ fails. refuse (λ (_, ((l, new), _)). ground arith)))
      λ _ all_pass.
        let l : x.pair < o.pair_count = ground arith in
        let new : get_or seen x.pair false ≡ false = ground arith in
        let (kept, own) = store_record-Kept x seen o room l new in
        let inside : x.pair < length seen = omega (arith, room.seen_sized) in
        let marked = get_or-set_self seen x.pair true false inside in
        Ensures-mono
          (λ done s. record {
            kept =
                Kept-trans o (store_record x o) done.0 seen (set seen x.pair true) done.1 kept
                  s.kept;
            held = (
              (
                s.kept.marks x.pair marked,
                stored_later x (store_record x o) done.0 (set seen x.pair true) done.1 s.kept marked
                    own,
              ),
              s.held,
            );
            fresh = (
              (apart rs s.fresh.1, s.fresh.0),
              ((l, new), before rs (apart rs s.fresh.1) s.fresh.1),
            );
            named = λ k h. elim (s.named k h) [
              | inr n ↦ inr (inr n)
              | inl m ↦ elim (Bool-cases (k == x.pair)) [
                | inl here ↦ inr (inl (ground arith))
                | inr other ↦ inl (
                    sym (
                      get_or-set_ne seen x.pair k true false
                        (λ e. let f : k ≡ x.pair = sym e in ground arith))
                    ∙ m)
              ]
            ];
          })
          (λ _ h. h)
          (Ensures-store_records rs (set seen x.pair true) (store_record x o) E kept.room (λ wrong.
            refuse (λ ((distinct_x, distinct), (_, new_ones)).
              wrong (distinct, still rs distinct_x new_ones))))
  where
    stored_later :
        (y : PairRecord) (q r : Oracle) (s s' : List Bool)
        → Kept q s r s'
        → get_or s y.pair false ≡ true
        → Stored q y
        → Stored r y
    stored_later y q r s s' k marked (m, t) = (
      SameCells-CellsAre q.merge_table r.merge_table y.pair _ _ _ _ (k.merge_cells y.pair marked) m,
      SameCells-CellsAre q.resolution_table r.resolution_table y.pair _ _ _ _
          (k.resolution_cells y.pair marked) t,
    )

    still :
        (ys : List PairRecord)
        → All (λ s. s.pair ≢ x.pair) ys
        → All (λ r. (r.pair < o.pair_count) × (get_or seen r.pair false ≡ false)) ys
        → All
            (λ r. (r.pair < o.pair_count) × (get_or (set seen x.pair true) r.pair false ≡ false))
            ys
    still [] h k = tt
    still (y ∷ ys) (ne, h) ((l, new), k) =
        ((l, get_or-set_ne seen x.pair y.pair true false (λ e. ne (sym e)) ∙ new), still ys h k)

    apart :
        (ys : List PairRecord)
        → All
            (λ r. (r.pair < o.pair_count) × (get_or (set seen x.pair true) r.pair false ≡ false))
            ys
        → All (λ s. s.pair ≢ x.pair) ys
    apart [] h = tt
    apart (y ∷ ys) ((l, new), h) = (
      λ e.
          let marked = get_or-set_self seen x.pair true false (omega (arith, room.seen_sized)) in
          let f = ap (λ j. get_or (set seen x.pair true) j false) e in
          let g = sym new ∙ f ∙ marked in cc,
      apart ys h,
    )

    before :
        (ys : List PairRecord)
        → All (λ s. s.pair ≢ x.pair) ys
        → All
            (λ r. (r.pair < o.pair_count) × (get_or (set seen x.pair true) r.pair false ≡ false))
            ys
        → All (λ r. (r.pair < o.pair_count) × (get_or seen r.pair false ≡ false)) ys
    before [] h k = tt
    before (y ∷ ys) (ne, h) ((l, new), k) = (
      (l, sym (get_or-set_ne seen x.pair y.pair true false (λ e. ne (sym e))) ∙ new),
      before ys h k,
    )
