-- ===== src/OracleSync/Sound.antt =====
-- The records of a pair oracle agree with its automaton in the way that the planner relies on.
use sync_kgraph.Base.{
  ℕ, zero, suc, ◌-◌, ◌≤◌, ◌<◌, ◌≡◌, ◌≢◌, ◌∙◌, refl, sym, ap, inl, inr, arith, ltb, ◌==◌, Bool-cases,
  if◌then◌else◌, List, [], ◌∷◌, All, map, get_or, index_none, Never, Ensures, Ensures-return,
  Ensures-bind, Ensures-guard, invalid_argument,
}
use sync_kgraph.Sync.{merge}
use sync_kgraph.Sync.Sound.{SoundTable}
use sync_kgraph.Oracle.{Oracle, next_of}
use sync_kgraph.Oracle.Pairs.{half-eq-triangle}
use sync_kgraph.Oracle.Build.{IsGraph-inside, IsOracle}
use sync_kgraph.Oracle.Shortest.{place, place-lt, Equal-iff, next-place}
use sync_kgraph.Records.{record_of, oracle_record}
use sync_kgraph.OracleSync.{oracle_record_reader}

-- A function that takes every value below `m` on the numbers below `n` needs that many of them.
values_le : (m n : ℕ) (f : ℕ → ℕ) → ((i : ℕ) → i < m → (v : ℕ) × (v < n) × (f v ≡ i)) → m ≤ n
values_le zero n f h = omega arith
values_le (suc m) zero f h = let (v, l, e) = h 0 (omega arith) in absurd (omega arith)
values_le (suc m) (suc n) f h =
    let j = f n in
    let skip : ℕ → ℕ = λ v. if ltb j (f v) then f v - 1 else f v in
    let rest = values_le m n skip λ i l. elim (Bool-cases (ltb i j)) [
      | inl below ↦
          let (v, lv, e) = h i (omega arith) in
          (
            v,
            elim (Bool-cases (v == n)) [
              | inl last ↦ let x = ap f (let s : v ≡ n = ground arith in s) in ground arith
              | inr other ↦ ground arith
            ],
            ground arith,
          )
      | inr above ↦
          let (v, lv, e) = h (suc i) (omega arith) in
          (
            v,
            elim (Bool-cases (v == n)) [
              | inl last ↦ let x = ap f (let s : v ≡ n = ground arith in s) in ground arith
              | inr other ↦ ground arith
            ],
            ground arith,
          )
    ] in
    omega arith

module _ (o : Oracle) (h : IsOracle o) where
  -- A pair with a distance has pairs of every smaller distance behind it.
  smaller :
      (d v i : ℕ)
      → v < o.pair_count
      → get_or o.merge_table.distance v index_none ≡ d
      → d ≢ index_none
      → i ≤ d
      → (w : ℕ) × (w < o.pair_count) × (get_or o.merge_table.distance w index_none ≡ i)
  smaller zero v i hv e ne l = (v, hv, omega arith)
  smaller (suc d) v i hv e ne l = elim (Bool-cases (i == suc d)) [
    | inl here ↦ (v, hv, ground arith)
    | inr below ↦
        let ds = o.merge_table.distance in
        let c = get_or o.merge_table.action v index_none in
        let (hc, sup, _, _, _) =
          (h.records merge v hv).onward (λ x. ne (sym e ∙ x)) (λ x. omega arith) in
        smaller d (next_of o v c) i (IsGraph-inside o h.graph v c hv hc) (ground arith)
          (λ x. ground arith) (ground arith)
  ]

  merge_distance_lt :
      (v : ℕ)
      → v < o.pair_count
      → get_or o.merge_table.distance v index_none ≢ index_none
      → get_or o.merge_table.distance v index_none < o.pair_count
  merge_distance_lt v hv ne =
      let d = get_or o.merge_table.distance v index_none in
      let l =
        values_le (suc d) o.pair_count (λ w. get_or o.merge_table.distance w index_none)
          (λ i l. smaller d v i hv refl ne (omega arith)) in
      omega arith

  -- The records of an oracle are what the planner takes for sound.
  pub record_of-SoundTable : SoundTable o.automaton (record_of o)
  record_of-SoundTable p q hp hq =
      let a = o.automaton in
      let g = h.graph in
      let v = place o g p q hp hq in
      let hv = place-lt o g p q hp hq in
      let ok_v = h.records merge v hv in
      let d = get_or o.merge_table.distance v index_none in
      let c = get_or o.merge_table.action v index_none in
      record {
        numbered = refl;
        absent = λ away.
            let e : d ≡ index_none = ground arith in let (x, y, z) = ok_v.absent e in (e, x, y, z);
        ended = λ there zero_d.
            let (e, x, y, z) = ok_v.ended zero_d in ((Equal-iff o g p q hp hq merge).0 e, x, y, z);
        onward = λ there far.
            let (hc, sup, named, counts, some_count) = ok_v.onward (λ e. ground arith) far in
            let next = named ∙ next-place o g p q hp hq c hc in
            let at : get_or o.merge_table.next v index_none ≡ next_of o v c = named in
            let same = ap (λ (k : ℕ). get_or o.merge_table.distance k index_none) at in
            (hc, some_count, next, ground arith, ground arith);
        bounded = λ there.
            let l = merge_distance_lt v hv (λ e. ground arith) in
            omega (arith, g.count, half-eq-triangle a.state_count);
      }

  -- It answers for the pairs of the oracle, in order.
  pub Ensures-oracle_record_reader :
      (ids : List ℕ)
      → All (λ k. k < o.pair_count) ids
      → Ensures (oracle_record_reader o ids) (λ rs. rs ≡ map (record_of o) ids) Never
  unfolding oracle_record_reader oracle_record
  Ensures-oracle_record_reader [] l = Ensures-return [] refl
  Ensures-oracle_record_reader (k ∷ ids) (hk, l) =
      Ensures-bind {P = λ r. r ≡ record_of o k}
        (Ensures-bind
          (Ensures-guard (ltb k o.pair_count) invalid_argument (λ x. absurd (ground arith)))
          λ _ _. Ensures-return _ refl)
        λ r e.
          Ensures-bind (Ensures-oracle_record_reader ids l)
            λ rs es. Ensures-return _ (rw e (rw es refl))
