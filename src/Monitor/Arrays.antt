-- ===== src/Monitor/Arrays.antt =====
-- sg_monitor_fill_arrays: the expected and the unexpected states.
use sync_kgraph.Base.{
  ℕ, zero, suc, ◌+◌, ◌≤◌, ◌<◌, ◌≡◌, ◌∙◌, refl, sym, inl, inr, Bool, true, false, not, ◌&&◌, ◌||◌,
  [], arith, ltb, ◌==◌, if◌then◌else◌, Bool-cases, length, Status, Ensures, Ensures-return,
  Ensures-bind, Ensures-request, Ensures-if,
}
use sync_kgraph.Bitset.{Bitset, empty, add, has, count, to_ids}
use sync_kgraph.Bitset.Laws.{IsBitset, empty-IsBitset, has-empty, has-add, add-IsBitset}
use sync_kgraph.Bitset.Members.{
  contains, contains-to_ids, length-to_ids, count_zero_iff, Ensures-init,
}
use sync_kgraph.Monitor.{MonitorResult, unexpected_loop, listed, fill_arrays}

module _ (n : ℕ) (expected reported : Bitset) (w : IsBitset n expected)
    (v : IsBitset n reported) where
  unexpected_loop-IsBitset :
      (left i : ℕ) (s : Bitset)
      → i + left ≤ n
      → IsBitset n s
      → IsBitset n (unexpected_loop expected reported left i s)
  unfolding unexpected_loop
  unexpected_loop-IsBitset zero i s h m = m
  unexpected_loop-IsBitset (suc left) i s h m =
      unexpected_loop-IsBitset left (i + 1) _ (omega arith)
        (kept (has reported i && not (has expected i)))
    where
      kept : (b : Bool) → IsBitset n (if b then add s i else s)
      kept true = add-IsBitset n s i m (omega arith)
      kept false = m

  has-unexpected_loop :
      (left i : ℕ) (s : Bitset) (r : ℕ)
      → i + left ≤ n
      → IsBitset n s
      → has (unexpected_loop expected reported left i s) r ≡ (
          has s r
          || (not (ltb r i) && ltb r (i + left) && (has reported r && not (has expected r))))
  unfolding unexpected_loop
  has-unexpected_loop zero i s r h m = ground arith
  has-unexpected_loop (suc left) i s r h m =
      elim (Bool-cases (has reported i && not (has expected i))) [
        | inl strange ↦
            let ih =
              has-unexpected_loop left (i + 1) (add s i) r (omega arith)
                (add-IsBitset n s i m (omega arith)) in
            rw strange (ih ∙ at_i (has-add n s i r m (omega arith)) strange)
        | inr fine ↦
            let ih = has-unexpected_loop left (i + 1) s r (omega arith) m in
            rw fine (ih ∙ past_i fine)
      ]
    where
      at_i :
          has (add s i) r ≡ (r == i || has s r)
          → (has reported i && not (has expected i)) ≡ true
          → (has (add s i) r
              || (not (ltb r (i + 1))
                  && ltb r (i + 1 + left)
                  && (has reported r && not (has expected r))))
            ≡ (has s r
                || (not (ltb r i)
                    && ltb r (i + suc left)
                    && (has reported r && not (has expected r))))
      at_i e f = elim (Bool-cases (r == i)) [
        | inl same ↦ let q : r ≡ i = ground arith in rw (e, q) (ground arith)
        | inr other ↦ ground arith
      ]

      past_i :
          (has reported i && not (has expected i)) ≡ false
          → (has s r
              || (not (ltb r (i + 1))
                  && ltb r (i + 1 + left)
                  && (has reported r && not (has expected r))))
            ≡ (has s r
                || (not (ltb r i)
                    && ltb r (i + suc left)
                    && (has reported r && not (has expected r))))
      past_i f = elim (Bool-cases (r == i)) [
        | inl same ↦ let q : r ≡ i = ground arith in rw q (ground arith)
        | inr other ↦ ground arith
      ]

pub Ensures-listed :
    (n : ℕ) (s : Bitset) (E : Status → Type 0)
    → IsBitset n s
    → Ensures (listed s) (λ xs. (length xs ≡ count s) × ((r : ℕ) → contains xs r ≡ has s r)) E
unfolding listed
Ensures-listed n s E m =
    Ensures-if (count s == 0)
      (λ none_in.
        let e : count s ≡ 0 = ground arith in
        Ensures-return [] (omega arith, λ r. sym ((count_zero_iff n s m).0 e r)))
      (λ _.
        Ensures-bind Ensures-request
          λ _ _. Ensures-return (to_ids s) (length-to_ids n s m, λ r. contains-to_ids n s r m))

-- the arrays and counts of a result are those of the two sets
pub record Filled (expected reported : Bitset) (before after : MonitorResult) : Type 0 where
  pub expected_listed : (r : ℕ) → contains after.expected_states r ≡ has expected r
  pub expected_counted : length after.expected_states ≡ after.expected_count
  pub unexpected_listed :
      (r : ℕ) → contains after.unexpected_states r ≡ (has reported r && not (has expected r))
  pub unexpected_counted : length after.unexpected_states ≡ after.unexpected_count
  pub same_decision : after.decision ≡ before.decision
  pub same_generation : after.generation ≡ before.generation

pub Ensures-fill_arrays :
    (n : ℕ) (expected reported : Bitset) (before : MonitorResult) (E : Status → Type 0)
    → 0 < n
    → IsBitset n expected
    → IsBitset n reported
    → Ensures (fill_arrays expected reported before) (Filled expected reported before) E
unfolding fill_arrays
Ensures-fill_arrays n expected reported before E pos w v =
    let st = w.states in
    let small = w.small in
    Ensures-bind (Ensures-listed n expected E w) λ xs ex.
      Ensures-bind (Ensures-init expected.state_count E (λ z. absurd (omega arith)) (omega arith))
        λ blank eb.
          let valid_blank : IsBitset n blank = rw (eb, st) (empty-IsBitset n small) in
          let valid =
            unexpected_loop-IsBitset n expected reported w v expected.state_count 0 blank
              (omega arith) valid_blank in
          Ensures-bind
            (Ensures-listed n (unexpected_loop expected reported expected.state_count 0 blank) E
              valid)
            λ ys ey. Ensures-return _ (record {
              expected_listed = ex.1;
              expected_counted = ex.0;
              unexpected_listed = λ r. ey.1 r ∙ unexpected_member blank valid_blank eb r;
              unexpected_counted = ey.0;
              same_decision = refl;
              same_generation = refl;
            })
  where
    unexpected_member :
        (blank : Bitset)
        → IsBitset n blank
        → blank ≡ empty expected.state_count
        → (r : ℕ)
        → has (unexpected_loop expected reported expected.state_count 0 blank) r
          ≡ (has reported r && not (has expected r))
    unexpected_member blank m e r =
        let st = w.states in
        let it =
          has-unexpected_loop n expected reported w v expected.state_count 0 blank r (omega arith)
            m in
        let nothing : has blank r ≡ false = rw e (has-empty expected.state_count r) in
        it ∙ (elim (Bool-cases (ltb r n)) [
          | inl below ↦ ground arith
          | inr above ↦ let out = v.within r (ground arith) in ground arith
        ])
