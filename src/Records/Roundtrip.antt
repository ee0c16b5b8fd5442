-- ===== src/Records/Roundtrip.antt =====
-- The records that sg_pair_oracle_record reads, one for each pair, restore the oracle.
use sync_kgraph.Base.{
  ℕ, zero, suc, ◌+◌, ◌≤◌, ◌<◌, ◌≡◌, ◌≢◌, ◌∙◌, refl, sym, ap, subst, inl, inr, not, arith, ltb, ◌==◌,
  Bool-cases, if◌then◌else◌, List, [], ◌∷◌, All, length, get_or, index_none, alloc,
  invalid_argument, M, ◌>>=◌, return, Ensures, Ensures-return, Ensures-bind, Ensures-guard,
  Ensures-mono,
}
use sync_kgraph.Sync.{Kind, merge, resolution, PairRecord}
use sync_kgraph.Oracle.{Oracle, table}
use sync_kgraph.Oracle.Build.{IsOracle, TooLarge}
use sync_kgraph.Records.{oracle_record, record_of, oracle_restore}
use sync_kgraph.Records.Stored.{CellsAre, Stored, Distinct, Names}
use sync_kgraph.Records.Restore.{RecordsOf, oracle_restore_decides}

-- the calls of sg_pair_oracle_record that the round trip starts with, for every pair from `pair` on
unfoldable pub read_records : Oracle → ℕ → ℕ → M (List PairRecord)
read_records o pair zero = return []
read_records o pair (suc left) = do
  r ← oracle_record o pair
  rest ← read_records o (pair + 1) left
  return (r ∷ rest)

module _ (o : Oracle) (h : IsOracle o) where
  -- what a record of the oracle says of each kind is what the cells say
  shown :
      (kind : Kind) (k : ℕ)
      → k < o.pair_count
      → (d : ℕ) → get_or (table o kind).distance k index_none ≡ d
      → CellsAre
          (table o kind)
          k
          (if not (d == index_none) then d else index_none)
          (if not (d == index_none) then get_or (table o kind).action k index_none else index_none)
          (if not (d == index_none) then get_or (table o kind).next k index_none else index_none)
          (get_or (table o kind).support_count k 0)
  shown kind k l d e = elim (Bool-cases (d == index_none)) [
    | inl away ↦
        let (x, y, z) = (h.records kind k l).absent (e ∙ (ground arith)) in
        rw away (e ∙ (ground arith), x, y, refl)
    | inr there ↦ rw there (e, refl, refl, refl)
  ]

  record_of-Stored : (k : ℕ) → k < o.pair_count → Stored o (record_of o k)
  record_of-Stored k l = (
    shown merge k l (get_or o.merge_table.distance k index_none) refl,
    shown resolution k l (get_or o.resolution_table.distance k index_none) refl,
  )

  -- the records of the pairs from `pair` on
  record InOrder (pair left : ℕ) (rs : List PairRecord) : Type 0 where
    pub count : length rs ≡ left
    pub own : All (λ r. r ≡ record_of o r.pair) rs
    pub above : All (λ r. pair ≤ r.pair) rs
    pub below : All (λ r. r.pair < o.pair_count) rs
    pub distinct : Distinct rs
    pub covers : (k : ℕ) → pair ≤ k → k < o.pair_count → Names k rs

  Ensures-read_records :
      (pair left : ℕ)
      → pair + left ≡ o.pair_count
      → Ensures (read_records o pair left) (InOrder pair left) (λ _. ⊥)
  unfolding read_records oracle_record
  Ensures-read_records pair zero e = Ensures-return [] (record {
    count = refl;
    own = tt;
    above = tt;
    below = tt;
    distinct = tt;
    covers = λ k lo hi. absurd (omega arith);
  })
  Ensures-read_records pair (suc left) e =
      Ensures-bind {P = λ r. r ≡ record_of o pair}
        (Ensures-bind
          (Ensures-guard (ltb pair o.pair_count) invalid_argument (λ x. absurd (ground arith)))
          λ _ _. Ensures-return _ refl)
        λ r er. Ensures-bind (Ensures-read_records (pair + 1) left (omega arith)) λ rest i.
          Ensures-return _ (
            rw er (record {
              count = ap suc i.count;
              own = (refl, i.own);
              above = (omega arith, later rest i.above);
              below = (omega arith, i.below);
              distinct = (others rest i.above, i.distinct);
              covers = λ k lo hi. elim (Bool-cases (k == pair)) [
                | inl here ↦ inl (ground arith)
                | inr other ↦ inr (i.covers k (ground arith) hi)
              ];
            }))
    where
      later : (rs : List PairRecord) → All (λ r. pair + 1 ≤ r.pair) rs → All (λ r. pair ≤ r.pair) rs
      later [] l = tt
      later (r ∷ rs) (l, ls) = (omega arith, later rs ls)

      others :
          (rs : List PairRecord) → All (λ r. pair + 1 ≤ r.pair) rs → All (λ r. r.pair ≢ pair) rs
      others [] l = tt
      others (r ∷ rs) (l, ls) = ((λ x. omega arith), others rs ls)

  InOrder-Stored :
      (rs : List PairRecord)
      → All (λ r. r ≡ record_of o r.pair) rs
      → All (λ r. r.pair < o.pair_count) rs
      → All (Stored o) rs
  InOrder-Stored [] e l = tt
  InOrder-Stored (r ∷ rs) (e, es) (l, ls) =
      (subst (Stored o) (sym e) (record_of-Stored r.pair l), InOrder-Stored rs es ls)

  InOrder-RecordsOf :
      (rs : List PairRecord) → InOrder 0 o.pair_count rs → RecordsOf o.automaton rs o
  InOrder-RecordsOf rs i = record {
    same = refl;
    is_oracle = h;
    count = i.count;
    distinct = i.distinct;
    inside = i.below;
    covers = λ k l. i.covers k (omega arith) l;
    stored = InOrder-Stored rs i.own i.below;
  }

Names-Stored :
    (o r : Oracle) (k : ℕ) (rs : List PairRecord)
    → Names k rs
    → All (λ x. x ≡ record_of o x.pair) rs
    → All (Stored r) rs
    → Stored r (record_of o k)
Names-Stored o r k [] n e s = elim n [ ]
Names-Stored o r k (x ∷ rs) (inl same) (e, _) (s, _) =
    subst (λ j. Stored r (record_of o j)) same (subst (Stored r) e s)
Names-Stored o r k (x ∷ rs) (inr n) (_, e) (_, s) = Names-Stored o r k rs n e s

-- Two oracles that hold the same record of a pair give the same one.
same_record :
    (o r : Oracle) (k : ℕ)
    → Stored o (record_of o k)
    → Stored r (record_of o k)
    → record_of r k ≡ record_of o k
same_record o r k ((a, b, c, d), (a', b', c', d')) ((f, g, h, i), (f', g', h', i')) =
    let ed = f ∙ sym a in
    let ea = g ∙ sym b in
    let en = h ∙ sym c in
    let ec = i ∙ sym d in
    let ed' = f' ∙ sym a' in
    let ea' = g' ∙ sym b' in let en' = h' ∙ sym c' in let ec' = i' ∙ sym d' in cc

-- what a pair oracle and one restored from its records have in common: the automaton, and every record
abbrev pub SameRecords : Oracle → Oracle → Type 0
SameRecords o r =
    IsOracle r
    × (r.automaton ≡ o.automaton)
    × (r.pair_count ≡ o.pair_count)
    × ((k : ℕ) → k < o.pair_count → record_of r k ≡ record_of o k)

-- The records that sg_pair_oracle_record reads of an oracle, one for each pair, restore an oracle with the
-- same records. Both calls end, no record is refused, and they fail only when the oracle does not fit
-- into memory.
pub read_records-oracle_restore :
    (o : Oracle)
    → IsOracle o
    → Ensures
        (do records ← read_records o 0 o.pair_count; oracle_restore o.automaton records)
        (SameRecords o)
        (λ e. (e ≡ alloc) × TooLarge o.automaton)
read_records-oracle_restore o h =
    Ensures-bind
      (Ensures-mono (λ _ i. i) (λ e z. absurd z)
        (Ensures-read_records o h 0 o.pair_count (omega arith)))
      λ records i.
        let held = InOrder-RecordsOf o h records i in
        Ensures-mono
          (λ r back. (
            back.is_oracle,
            back.same,
            sym back.count ∙ i.count,
            λ k l.
                same_record o r k (record_of-Stored o h k l)
                  (Names-Stored o r k records (i.covers k (omega arith) l) i.own back.stored),
          ))
          (λ e z. elim z [ inl x ↦ x | inr (_, none_has) ↦ absurd (none_has o held) ])
          (oracle_restore_decides o.automaton records h.graph.valid)
