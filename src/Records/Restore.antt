-- ===== src/Records/Restore.antt =====
-- sg_pair_oracle_restore: it takes exactly records that agree, each by itself, with the graph of pairs.
use sync_kgraph.Base.{
  ℕ, zero, suc, ◌+◌, ◌≤◌, ◌<◌, ◌≡◌, ◌⊎◌, ◌∙◌, refl, sym, ap, subst, inl, inr, Bool, true, false,
  ◌&&◌, arith, ◌==◌, Bool-cases, List, [], ◌∷◌, All, length, length-replicate, get_or,
  get_or-replicate, replicate, index_none, Status, alloc, invalid_model, Ensures, Ensures-return,
  Ensures-bind, Ensures-guard, Ensures-request, Ensures-mono,
}
use sync_kgraph.Automaton.{Automaton}
use sync_kgraph.Automaton.Laws.{IsValid}
use sync_kgraph.Sync.{Kind, merge, resolution, PairRecord}
use sync_kgraph.Oracle.{Oracle, table, blank_table, fill_pairs}
use sync_kgraph.Oracle.Pairs.{triangle}
use sync_kgraph.Oracle.Build.{
  IsGraph, IsOracle, TooLarge, Ensures-oracle_allocate, fill_pairs-IsGraph,
}
use sync_kgraph.Oracle.Witnesses.{ValidPair}
use sync_kgraph.Records.{
  merge_record_valid, resolution_record_valid, store_records, check_records, oracle_restore,
}
use sync_kgraph.Records.Valid.{merge_record_valid_iff, resolution_record_valid_iff}
use sync_kgraph.Records.Agree.{SameGraph, IsGraph-SameGraph, ValidAt-same}
use sync_kgraph.Records.Stored.{
  Stored, SameCells, Distinct, Names, TableSized, Held, Fresh, StoredAll, Ensures-store_records,
}

-- the records are those of the oracle `o` of the automaton, in any order, and agree with its graph
pub record RecordsOf (a : Automaton) (records : List PairRecord) (o : Oracle) : Type 0 where
  pub same : o.automaton ≡ a
  pub is_oracle : IsOracle o
  pub count : length records ≡ o.pair_count
  pub distinct : Distinct records
  pub inside : All (λ r. r.pair < o.pair_count) records
  pub covers : (k : ℕ) → k < o.pair_count → Names k records
  pub stored : All (Stored o) records

-- The last loop lets an oracle pass when every pair is marked and has valid records.
abbrev passes : Oracle → List Bool → ℕ → Bool
passes o seen k = get_or seen k false && merge_record_valid o k && resolution_record_valid o k

Ensures-check_records :
    (o : Oracle) (seen : List Bool) (pair left : ℕ) (E : Status → Type 0)
    → pair + left ≡ o.pair_count
    → ((k : ℕ) → k < o.pair_count → passes o seen k ≡ false → E invalid_model)
    → Ensures
        (check_records o seen pair left)
        (λ _. (k : ℕ) → pair ≤ k → k < o.pair_count → passes o seen k ≡ true)
        E
unfolding check_records
Ensures-check_records o seen pair zero E e refuse =
    Ensures-return _ (λ k lo hi. absurd (omega arith))
Ensures-check_records o seen pair (suc left) E e refuse =
    Ensures-bind (Ensures-guard (passes o seen pair) invalid_model (refuse pair (omega arith)))
      λ _ all_pass.
        Ensures-mono
          (λ _ later k lo hi. elim (Bool-cases (k == pair)) [
            | inl here ↦ subst (λ j. passes o seen j ≡ true) (ground arith) all_pass
            | inr other ↦ later k (ground arith) hi
          ])
          (λ _ h. h) (Ensures-check_records o seen (pair + 1) left E (omega arith) refuse)

named_marked :
    (o : Oracle) (seen : List Bool) (k : ℕ) (rs : List PairRecord)
    → Names k rs
    → All (Held o seen) rs
    → get_or seen k false ≡ true
unfolding Held
named_marked o seen k [] n h = elim n [ ]
named_marked o seen k (r ∷ rs) (inl e) ((m, _), h) = subst (λ j. get_or seen j false ≡ true) e m
named_marked o seen k (r ∷ rs) (inr n) (_, h) = named_marked o seen k rs n h

Stored-SameCells :
    (o r : Oracle) (seen : List Bool) (k : ℕ) (rs : List PairRecord)
    → Names k rs
    → All (Held r seen) rs
    → All (Stored o) rs
    → SameCells o.merge_table r.merge_table k × SameCells o.resolution_table r.resolution_table k
unfolding Held
Stored-SameCells o r seen k [] n h s = elim n [ ]
Stored-SameCells o r seen k (x ∷ rs) (inl e) ((_, ((a, b, c, d), (a', b', c', d'))), _)
      (((f, g, h, i), (f', g', h', i')), _) =
    subst
      (λ j.
        SameCells o.merge_table r.merge_table j × SameCells o.resolution_table r.resolution_table j)
      e
      (
        (a ∙ sym f, b ∙ sym g, c ∙ sym h, d ∙ sym i),
        (a' ∙ sym f', b' ∙ sym g', c' ∙ sym h', d' ∙ sym i'),
      )
Stored-SameCells o r seen k (x ∷ rs) (inr n) (_, h) (_, s) = Stored-SameCells o r seen k rs n h s

Held-Stored :
    (r : Oracle) (seen : List Bool) (rs : List PairRecord)
    → All (Held r seen) rs
    → All (Stored r) rs
unfolding Held
Held-Stored r seen [] h = tt
Held-Stored r seen (x ∷ rs) ((_, s), h) = (s, Held-Stored r seen rs h)

-- Records that some oracle of the automaton has pass every test.
records_pass :
    (a : Automaton) (records : List PairRecord) (o r : Oracle) (seen : List Bool)
    → RecordsOf a records o
    → IsGraph r
    → r.automaton ≡ a
    → All (Held r seen) records
    → (k : ℕ) → k < r.pair_count
    → passes r seen k ≡ true
records_pass a records o r seen h g same held k l =
    let s = IsGraph-SameGraph o r h.is_oracle.graph g (same ∙ sym h.same) in
    let agree = λ (j : ℕ) (lj : j < o.pair_count).
      Stored-SameCells o r seen j records (h.covers j lj) held h.stored in
    let lo : k < o.pair_count = omega (arith, s.same_count) in
    let (m, t) = agree k lo in
    let marked = named_marked r seen k records (h.covers k lo) held in
    let vm = (merge_record_valid_iff r g k l).1 (
      valid_later merge k lo (λ j lj. (agree j lj).0.0) m.1 m.2 m.3 s
        (h.is_oracle.records merge k lo)) in
    let vt = (resolution_record_valid_iff r g k l).1 (
      valid_later resolution k lo (λ j lj. (agree j lj).1.0) t.1 t.2 t.3 s
        (h.is_oracle.records resolution k lo)) in
    ground arith
  where
    valid_later :
        (kind : Kind) (k : ℕ)
        → k < o.pair_count
        → ((j : ℕ)
            → j < o.pair_count
            → get_or (table r kind).distance j index_none
              ≡ get_or (table o kind).distance j index_none)
        → get_or (table r kind).action k index_none ≡ get_or (table o kind).action k index_none
        → get_or (table r kind).next k index_none ≡ get_or (table o kind).next k index_none
        → get_or (table r kind).support_count k 0 ≡ get_or (table o kind).support_count k 0
        → SameGraph o r
        → ValidPair o kind (table o kind) k
        → ValidPair r kind (table r kind) k
    valid_later kind k l ds ea en ec s v = rw ea (
        rw en (
          rw ec (
            ValidAt-same o r h.is_oracle.graph s (table o kind).distance (table r kind).distance ds
              kind k _ _ _ l v)))

blank-TableSized : (n : ℕ) → TableSized n (blank_table n)
unfolding TableSized
blank-TableSized n = (
  length-replicate n index_none,
  length-replicate n index_none,
  length-replicate n index_none,
  length-replicate n 0,
)

-- what is restored when the tests pass
restored-RecordsOf :
    (a : Automaton) (records : List PairRecord) (o : Oracle) (done : Oracle × List Bool)
    → o.automaton ≡ a
    → length records ≡ o.pair_count
    → StoredAll o (replicate o.pair_count false) records done
    → ((k : ℕ) → 0 ≤ k → k < done.0.pair_count → passes done.0 done.1 k ≡ true)
    → RecordsOf a records done.0
unfolding Fresh
restored-RecordsOf a records o done same count s pass_all =
    let r = done.0 in
    let P = o.pair_count in
    let g = s.kept.room.graph in
    record {
      same = s.kept.same ∙ same;
      is_oracle = record {
        graph = g;
        records = λ kind k l. agrees kind k l g (pass_all k (omega arith) l);
      };
      count = count ∙ sym s.kept.count;
      distinct = s.fresh.0;
      inside = inside_later records s.fresh.1;
      covers = λ k l.
          let p = pass_all k (omega arith) l in
          elim (s.named k (ground arith)) [
            | inl m ↦ let z = get_or-replicate P k false in absurd (let c = sym z ∙ m in cc)
            | inr n ↦ n
          ];
      stored = Held-Stored r done.1 records s.held;
    }
  where
    agrees :
        (kind : Kind) (k : ℕ)
        → k < done.0.pair_count
        → IsGraph done.0
        → passes done.0 done.1 k ≡ true
        → ValidPair done.0 kind (table done.0 kind) k
    agrees merge k l g p = (merge_record_valid_iff done.0 g k l).0 (ground arith)
    agrees resolution k l g p = (resolution_record_valid_iff done.0 g k l).0 (ground arith)

    inside_later :
        (rs : List PairRecord)
        → All
            (λ r.
              (r.pair < o.pair_count)
              × (get_or (replicate o.pair_count false) r.pair false ≡ false))
            rs
        → All (λ r. r.pair < done.0.pair_count) rs
    inside_later [] h = tt
    inside_later (x ∷ rs) ((l, _), h) = (omega (arith, s.kept.count), inside_later rs h)

Distinct-Fresh :
    (o : Oracle) (n : ℕ) (rs : List PairRecord)
    → n ≡ o.pair_count
    → Distinct rs
    → All (λ r. r.pair < n) rs
    → Fresh o (replicate o.pair_count false) rs
unfolding Fresh
Distinct-Fresh o n rs e d h = (d, unmarked rs h)
  where
    unmarked :
        (ys : List PairRecord)
        → All (λ r. r.pair < n) ys
        → All
            (λ r.
              (r.pair < o.pair_count)
              × (get_or (replicate o.pair_count false) r.pair false ≡ false))
            ys
    unmarked [] h = tt
    unmarked (y ∷ ys) (l, h) =
        ((omega arith, get_or-replicate o.pair_count y.pair false), unmarked ys h)

-- why records are not restored: the oracle does not fit into memory, or no oracle whose
-- records agree with the graph of pairs has them
abbrev pub NotRestored : Automaton → List PairRecord → Status → Type 0
NotRestored a records e =
    ((e ≡ alloc) × TooLarge a) ⊎ ((e ≡ invalid_model) × ((o : Oracle) → ¬ RecordsOf a records o))

-- On a valid automaton restoring takes exactly records, in any order and one for each pair, of which
-- each agrees with the graph of pairs of the automaton, and the oracle that it makes has them: it ends,
-- fails with INVALID_MODEL only when no oracle with such records has these, and otherwise only when the
-- oracle does not fit into memory. Agreement does not say that a pair without a distance has none.
pub oracle_restore_decides :
    (a : Automaton) (records : List PairRecord)
    → IsValid a
    → Ensures (oracle_restore a records) (RecordsOf a records) (NotRestored a records)
unfolding oracle_restore
oracle_restore_decides a records v =
    Ensures-bind (Ensures-oracle_allocate a _ v (λ large. inl (refl, large))) λ created c.
      let o = fill_pairs created in
      let (same, graph, merge_blank, resolution_blank) = fill_pairs-IsGraph a created v c in
      let counts : (r : Oracle) → RecordsOf a records r → r.pair_count ≡ o.pair_count = λ r h.
        h.is_oracle.graph.count
        ∙ ap (λ (b : Automaton). triangle b.state_count) (h.same ∙ sym same)
        ∙ sym graph.count in
      let kept : o.pair_count ≡ created.pair_count =
        graph.count
        ∙ ap (λ (b : Automaton). triangle b.state_count) same
        ∙ sym c.sized.same_count in
      Ensures-bind
        (Ensures-guard (length records == created.pair_count) invalid_model
          (λ fails. inr (refl, λ r h. let x = counts r h in let y = h.count in ground arith)))
        λ _ sized. Ensures-bind Ensures-request λ _ _.
          Ensures-bind
            (subst
              (λ n.
                Ensures (store_records records (replicate n false) o)
                  (StoredAll o (replicate o.pair_count false) records) (NotRestored a records))
              kept
              (Ensures-store_records records (replicate o.pair_count false) o _
                (record {
                  graph = graph;
                  merge_sized =
                      subst (TableSized o.pair_count) (sym merge_blank)
                        (blank-TableSized o.pair_count);
                  resolution_sized =
                      subst (TableSized o.pair_count) (sym resolution_blank)
                        (blank-TableSized o.pair_count);
                  seen_sized = length-replicate o.pair_count false;
                })
                (λ wrong. inr (
                  refl,
                  λ r h.
                      wrong
                        (Distinct-Fresh o r.pair_count records (counts r h) h.distinct h.inside),
                ))))
            λ done s.
              let r = done.0 in
              Ensures-bind
                (Ensures-check_records r done.1 0 r.pair_count _ (omega arith) (λ k l fails. inr (
                  refl,
                  λ q h.
                      let p =
                        records_pass a records q r done.1 h s.kept.room.graph (s.kept.same ∙ same)
                          s.held k l in
                      cc,
                )))
                λ _ all_pass.
                  Ensures-return _
                    (restored-RecordsOf a records o done same (ground arith) s all_pass)
