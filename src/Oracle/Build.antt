-- ===== src/Oracle/Build.antt =====
-- sg_pair_oracle_build: the oracle of a valid automaton.
use sync_kgraph.Base.{
  ℕ, zero, suc, ◌+◌, ◌-◌, ltb, ltb→lt, Bool-cases, ◌*◌, ◌/◌, ◌≤◌, ◌<◌, ◌≡◌, ◌∙◌, refl, sym, ap,
  subst, inl, inr, false, not, arith, ◌==◌, List, length, length-replicate, get_or,
  get_or-replicate, index_none, size_mod, Status, alloc, Ensures, Ensures-return, Ensures-bind,
  Ensures-guard, Ensures-request, Ensures-request_all, Ensures-size_bytes,
}
use sync_kgraph.Automaton.{Automaton, cell, transition}
use sync_kgraph.Automaton.Laws.{IsValid, transition-lt}
use sync_kgraph.Sync.{Kind, merge, resolution}
use sync_kgraph.Oracle.{
  Oracle, Table, support_loop, table, next_of, pair_count, blank_table, oracle_allocate, fill_pairs,
  choose_from, choose_witnesses, oracle_build,
}
use sync_kgraph.Oracle.Pairs.{triangle, triangle_double, half-eq-triangle, pair_index_bound}
use sync_kgraph.Oracle.Fill.{PairOk, PairOk-kept, Sized, fill_pairs-Filled}
use sync_kgraph.Oracle.Buckets.{Grouped, Ensures-predecessors_build}
use sync_kgraph.Oracle.Distances.{Found}
use sync_kgraph.Oracle.Seeds.{Ensures-distances}
use sync_kgraph.Oracle.Witnesses.{ValidAt, ValidPair, choose_from-ValidPair}

-- the graph of pairs is that of the automaton
pub record IsGraph (o : Oracle) : Type 0 where
  pub valid : IsValid o.automaton
  pub count : o.pair_count ≡ triangle o.automaton.state_count
  pub small : o.pair_count < index_none
  pub pairs : (k : ℕ) → k < o.pair_count → PairOk o.automaton o k

-- an oracle whose records agree with its graph
pub record IsOracle (o : Oracle) : Type 0 where
  pub graph : IsGraph o
  pub records : (kind : Kind) (v : ℕ) → v < o.pair_count → ValidPair o kind (table o kind) v

-- An edge leads to a pair.
pub IsGraph-inside :
    (o : Oracle)
    → IsGraph o
    → (v c : ℕ) → v < o.pair_count
    → c < o.automaton.action_count
    → next_of o v c < o.pair_count
IsGraph-inside o g v c hv hc =
    let k = g.pairs v hv in
    let n = o.automaton.state_count in
    let first = get_or o.first v 0 in
    let second = get_or o.second v 0 in
    let bound =
      pair_index_bound n (transition o.automaton first c) (transition o.automaton second c)
        (transition-lt o.automaton g.valid first c (omega (arith, k.ordered, k.inside)) hc)
        (transition-lt o.automaton g.valid second c k.inside hc) in
    omega (arith, (k.edges c hc).0, g.count)

-- the tables do not matter for the graph
abbrev pub with_tables : Oracle → Table → Table → Oracle
with_tables o m r = record o { merge_table = m; resolution_table = r }

module _ (o : Oracle) (m r : Table) where
  pub IsGraph-with_tables : IsGraph o → IsGraph (with_tables o m r)
  IsGraph-with_tables g = record {
    valid = g.valid;
    count = g.count;
    small = g.small;
    pairs = λ k h.
        PairOk-kept o.automaton o o (with_tables o m r) k refl refl (λ c _. (refl, refl))
          (g.pairs k h);
  }

  Found-with_tables :
      (kind : Kind) (ds : List ℕ) → Found o kind ds → Found (with_tables o m r) kind ds
  Found-with_tables merge ds f = record {
    size = f.size;
    reason = f.reason;
    closed = f.closed;
    equal = f.equal;
    splits = f.splits;
    bounded = f.bounded;
  }
  Found-with_tables resolution ds f = record {
    size = f.size;
    reason = f.reason;
    closed = f.closed;
    equal = f.equal;
    splits = f.splits;
    bounded = f.bounded;
  }

  Grouped-with_tables : (p : _) → Grouped o p → Grouped (with_tables o m r) p
  Grouped-with_tables p g = record { sound = g.sound; complete = g.complete }

ValidAt-with_tables :
    (o : Oracle) (m r : Table) (kind : Kind) (ds : List ℕ) (v action next count : ℕ)
    → ValidAt o kind ds v action next count
    → ValidAt (with_tables o m r) kind ds v action next count
unfolding support_loop
ValidAt-with_tables o m r merge ds v action next count h = record {
  absent = h.absent;
  ended = h.ended;
  onward = λ x y.
      let (a, s, n, c, z) = h.onward x y in (a, s, n, c ∙ counts 0 o.automaton.action_count, z);
}
  where
    counts :
        (k left : ℕ)
        → support_loop o merge ds v k left ≡ support_loop (with_tables o m r) merge ds v k left
    counts k zero = refl
    counts k (suc left) = let ih = counts (k + 1) left in omega arith
ValidAt-with_tables o m r resolution ds v action next count h = record {
  absent = h.absent;
  ended = h.ended;
  onward = λ x y.
      let (a, s, n, c, z) = h.onward x y in (a, s, n, c ∙ counts 0 o.automaton.action_count, z);
}
  where
    counts :
        (k left : ℕ)
        → support_loop o resolution ds v k left
          ≡ support_loop (with_tables o m r) resolution ds v k left
    counts k zero = refl
    counts k (suc left) = let ih = counts (k + 1) left in omega arith

-- the arrays of the oracle do not fit into memory
abbrev pub TooLarge : Automaton → Type 0
TooLarge a = size_mod ≤ a.state_count * (a.state_count + 1) * a.action_count

pub le_mul : (m k : ℕ) → 0 < k → m ≤ m * k
le_mul m zero h = absurd (omega arith)
le_mul m (suc k) h = grind arith

mul_mono : (p m k : ℕ) → p ≤ m → p * k ≤ m * k
mul_mono p m k h = grind arith

-- what sg_oracle_allocate leaves
pub record Allocated (a : Automaton) (o : Oracle) : Type 0 where
  pub sized : Sized a o o
  pub small : o.pair_count < index_none
  pub merge_blank : o.merge_table ≡ blank_table o.pair_count
  pub resolution_blank : o.resolution_table ≡ blank_table o.pair_count

pub Ensures-oracle_allocate :
    (a : Automaton) (E : Status → Type 0)
    → IsValid a
    → (TooLarge a → E alloc)
    → Ensures (oracle_allocate a) (Allocated a) E
unfolding oracle_allocate pair_count
Ensures-oracle_allocate a E v allow =
    let n = a.state_count in
    let k = a.action_count in
    let half = half-eq-triangle n in
    let double = triangle_double n in
    let pos = v.actions_pos in
    Ensures-bind {P = λ pairs. (pairs ≡ triangle n) × (pairs < index_none)}
      (Ensures-bind
        (Ensures-guard (not (n == index_none)) alloc
          (λ z. absurd (let s = v.states_small in ground arith)))
        λ _ _.
          Ensures-bind
            (Ensures-size_bytes n (n + 1)
              (λ large. allow (omega (arith, le_mul (n * (n + 1)) k pos))))
            λ product (e, fits).
              Ensures-return _ (let d = ap (λ (x : ℕ). x / 2) e in (d ∙ half, omega arith)))
      λ pairs (e, small).
        Ensures-bind
          (Ensures-size_bytes pairs k
            (λ large. allow (omega (arith, mul_mono pairs (n * (n + 1)) k (omega arith)))))
          λ edges (ee, fits). Ensures-bind Ensures-request λ _ _.
            Ensures-bind (Ensures-request_all 12) λ _ _. Ensures-return _ (record {
              sized = record {
                same_automaton = refl;
                same_count = e;
                same_merge = refl;
                same_resolution = refl;
                first_size = length-replicate pairs 0 ∙ e;
                second_size = length-replicate pairs 0 ∙ e;
                next_size = length-replicate edges 0 ∙ ee ∙ ap (λ (x : ℕ). x * k) e;
                differ_size = length-replicate edges false ∙ ee ∙ ap (λ (x : ℕ). x * k) e;
              };
              small = small;
              merge_blank = refl;
              resolution_blank = refl;
            })

-- The graph of a filled oracle.
pub fill_pairs-IsGraph :
    (a : Automaton) (o : Oracle)
    → IsValid a
    → Allocated a o
    → ((fill_pairs o).automaton ≡ a)
      × IsGraph (fill_pairs o)
      × ((fill_pairs o).merge_table ≡ blank_table (fill_pairs o).pair_count)
      × ((fill_pairs o).resolution_table ≡ blank_table (fill_pairs o).pair_count)
fill_pairs-IsGraph a o v h =
    let (z, at) = fill_pairs-Filled a o v.states_pos h.sized in
    let same : o.pair_count ≡ (fill_pairs o).pair_count = h.sized.same_count ∙ sym z.same_count in
    (
      z.same_automaton,
      record {
        valid = subst IsValid (sym z.same_automaton) v;
        count =
            z.same_count ∙ ap (λ (b : Automaton). triangle b.state_count) (sym z.same_automaton);
        small = omega (arith, h.small);
        pairs = λ k l.
            subst (λ b. PairOk b (fill_pairs o) k) (sym z.same_automaton)
              (at k (omega (arith, z.same_count)));
      },
      z.same_merge ∙ h.merge_blank ∙ ap blank_table same,
      z.same_resolution ∙ h.resolution_blank ∙ ap blank_table same,
    )

-- the oracle of an automaton, with the distances of both kinds
abbrev pub BuiltFor : Automaton → Oracle → Type 0
BuiltFor a o =
    (o.automaton ≡ a) × IsOracle o × ((kind : Kind) → Found o kind (table o kind).distance)

edge_split : (n k e : ℕ) → e < n * k → (v c : ℕ) × (v < n) × (c < k) × (cell k v c ≡ e)
edge_split zero k e h = absurd (omega arith)
edge_split (suc n) k e h = elim (Bool-cases (ltb e (n * k))) [
  | inl low ↦
      let (v, c, hv, hc, x) = edge_split n k e (ltb→lt e (n * k) low) in (v, c, omega arith, hc, x)
  | inr high ↦
      let more : suc n * k ≡ n * k + k = grind arith in
      let lo : n * k ≤ e = ground arith in (n, e - n * k, omega arith, omega arith, omega arith)
]

-- nothing is chosen yet in the arrays that sg_choose_witnesses writes
abbrev Unchosen : ℕ → Table → Type 0
Unchosen pairs t =
    (length t.action ≡ pairs)
    × (length t.next ≡ pairs)
    × (length t.support_count ≡ pairs)
    × ((w : ℕ)
        → (get_or t.action w index_none ≡ index_none)
          × (get_or t.next w index_none ≡ index_none)
          × (get_or t.support_count w 0 ≡ 0))

witnessed :
    {a : Automaton} (o : Oracle)
    → o.automaton ≡ a
    → IsGraph o
    → Found o merge o.merge_table.distance
    → Found o resolution o.resolution_table.distance
    → Unchosen o.pair_count o.merge_table
    → Unchosen o.pair_count o.resolution_table
    → BuiltFor a (choose_witnesses o)
unfolding choose_witnesses
witnessed o same g fm fr (ma, mn, mc, mw) (ra, rn, rc, rw') =
    let m =
      choose_from-ValidPair o merge o.merge_table.distance fm 0 o.pair_count o.merge_table
        (omega arith) refl ma mn mc (λ w l. absurd (omega arith)) (λ w _ _. mw w) in
    let r =
      choose_from-ValidPair o resolution o.resolution_table.distance fr 0 o.pair_count
        o.resolution_table (omega arith) refl ra rn rc (λ w l. absurd (omega arith))
        (λ w _ _. rw' w) in
    let m' = choose_from o merge o.merge_table.distance 0 o.pair_count o.merge_table in
    let r' =
      choose_from o resolution o.resolution_table.distance 0 o.pair_count o.resolution_table in
    (
      same,
      record {
        graph = IsGraph-with_tables o m' r' g;
        records = λ kind w h. right m' r' kind w h m.1 r.1;
      },
      λ kind. distances_of m' r' kind m.0 r.0,
    )
  where
    right :
        (m' r' : Table) (kind : Kind) (w : ℕ)
        → w < o.pair_count
        → ((v : ℕ) → v < o.pair_count → ValidPair o merge m' v)
        → ((v : ℕ) → v < o.pair_count → ValidPair o resolution r' v)
        → ValidPair (with_tables o m' r') kind (table (with_tables o m' r') kind) w
    right m' r' merge w h m r =
        ValidAt-with_tables o m' r' merge m'.distance w (get_or m'.action w index_none)
          (get_or m'.next w index_none) (get_or m'.support_count w 0) (m w h)
    right m' r' resolution w h m r =
        ValidAt-with_tables o m' r' resolution r'.distance w (get_or r'.action w index_none)
          (get_or r'.next w index_none) (get_or r'.support_count w 0) (r w h)

    distances_of :
        (m' r' : Table) (kind : Kind)
        → m'.distance ≡ o.merge_table.distance
        → r'.distance ≡ o.resolution_table.distance
        → Found (with_tables o m' r') kind (table (with_tables o m' r') kind).distance
    distances_of m' r' merge em er =
        Found-with_tables o m' r' merge m'.distance (subst (Found o merge) (sym em) fm)
    distances_of m' r' resolution em er =
        Found-with_tables o m' r' resolution r'.distance (subst (Found o resolution) (sym er) fr)

pub Ensures-oracle_build :
    (a : Automaton)
    → IsValid a
    → Ensures (oracle_build a) (BuiltFor a) (λ e. (e ≡ alloc) × TooLarge a)
unfolding oracle_build
Ensures-oracle_build a v =
    Ensures-bind (Ensures-oracle_allocate a _ v (λ large. (refl, large))) λ created h.
      let o = fill_pairs created in
      let (same, g, mb, rb) = fill_pairs-IsGraph a created v h in
      Ensures-bind (Ensures-predecessors_build o (λ e l. targets o g e l)) λ p grouped.
        Ensures-bind
          (Ensures-distances o merge p g.small grouped (IsGraph-inside o g)
            (ap (λ (t : Table). t.distance) mb))
          λ ms fm.
            let m = record o.merge_table { distance = ms } in
            let o' = with_tables o m o.resolution_table in
            Ensures-bind
              (Ensures-distances o' resolution p g.small
                (Grouped-with_tables o m o.resolution_table p grouped)
                (IsGraph-inside o' (IsGraph-with_tables o m o.resolution_table g))
                (ap (λ (t : Table). t.distance) rb))
              λ rs fr.
                let r = record o.resolution_table { distance = rs } in
                Ensures-return _ (
                  witnessed (with_tables o m r) same (IsGraph-with_tables o m r g)
                    (Found-with_tables o m r merge ms fm)
                    (Found-with_tables o' m r resolution rs fr) (sized o.merge_table mb)
                    (sized o.resolution_table rb))
  where
    -- the arrays of a blank table have their sizes and hold nothing
    sized :
        {pairs : ℕ} (t : Table)
        → t ≡ blank_table pairs
        → (length t.action ≡ pairs)
          × (length t.next ≡ pairs)
          × (length t.support_count ≡ pairs)
          × ((w : ℕ)
              → (get_or t.action w index_none ≡ index_none)
                × (get_or t.next w index_none ≡ index_none)
                × (get_or t.support_count w 0 ≡ 0))
    sized {pairs} t e = (
      ap (λ (u : Table). length u.action) e ∙ length-replicate pairs index_none,
      ap (λ (u : Table). length u.next) e ∙ length-replicate pairs index_none,
      ap (λ (u : Table). length u.support_count) e ∙ length-replicate pairs 0,
      λ w. (
        ap (λ (u : Table). get_or u.action w index_none) e ∙ get_or-replicate pairs w index_none,
        ap (λ (u : Table). get_or u.next w index_none) e ∙ get_or-replicate pairs w index_none,
        ap (λ (u : Table). get_or u.support_count w 0) e ∙ get_or-replicate pairs w 0,
      ),
    )

    targets :
        (o : Oracle)
        → IsGraph o
        → (e : ℕ) → e < o.pair_count * o.automaton.action_count
        → get_or o.next e 0 < o.pair_count
    targets o g e l =
        let (v', c, hv, hc, e') = edge_split o.pair_count o.automaton.action_count e l in
        subst (λ x. get_or o.next x 0 < o.pair_count) e' (IsGraph-inside o g v' c hv hc)
