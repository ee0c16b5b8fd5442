-- ===== src/Monitor/Judge.antt =====
-- The decision on a localizer's report: equal, strictly smaller, or with unexpected states.
use sync_kgraph.Base.{ℕ, ◌≡◌, ◌↔◌, inl, inr, true, Bool-cases, Bool-eq_of_iff}
use sync_kgraph.Bitset.{Bitset, has, equal, subset}
use sync_kgraph.Bitset.Laws.{IsBitset, equal_iff, Bitset_ext}
use sync_kgraph.Bitset.Members.{subset_iff}
use sync_kgraph.Monitor.{Decision, continue, replan, model_violation, stale_generation, wait, judge}

-- What each decision says of the reported and the expected states; the three exclude one another.
abbrev pub Judged : (ℕ → Type 0) → (ℕ → Type 0) → Decision → Type 0
Judged Reported Expected continue = (r : ℕ) → Reported r ↔ Expected r
Judged Reported Expected replan =
    ((r : ℕ) → Reported r → Expected r) × ¬ ((r : ℕ) → Expected r → Reported r)
Judged Reported Expected model_violation = ¬ ((r : ℕ) → Reported r → Expected r)
Judged Reported Expected stale_generation = ⊥
Judged Reported Expected wait = ⊥

-- membership, as a predicate
abbrev pub Member : Bitset → ℕ → Type 0
Member s r = has s r ≡ true

pub Judged-mono :
    (R R' X X' : ℕ → Type 0) (d : Decision)
    → ((r : ℕ) → R r ↔ R' r)
    → ((r : ℕ) → X r ↔ X' r)
    → Judged R X d
    → Judged R' X' d
Judged-mono R R' X X' continue f g h =
    λ r. (λ m. (g r).0 ((h r).0 ((f r).1 m)), λ m. (f r).0 ((h r).1 ((g r).1 m)))
Judged-mono R R' X X' replan f g h =
    (λ r m. (g r).0 (h.0 r ((f r).1 m)), λ all. h.1 (λ r m. (f r).1 (all r ((g r).0 m))))
Judged-mono R R' X X' model_violation f g h = λ all. h (λ r m. (g r).1 (all r ((f r).0 m)))
Judged-mono R R' X X' stale_generation f g h = h
Judged-mono R R' X X' wait f g h = h

module _ (n : ℕ) (s t : Bitset) (v : IsBitset n s) (w : IsBitset n t) where
  -- The comparison of the two bitsets decides how the sets compare.
  pub judge-Judged : Judged (Member s) (Member t) (judge s t)
  unfolding judge
  judge-Judged = elim (Bool-cases (equal s t)) [
    | inl same ↦ let e = (equal_iff s t).0 same in rw same (λ r. rw e ((λ m. m), (λ m. m)))
    | inr other ↦ elim (Bool-cases (subset s t)) [
      | inl below ↦
          rw (other, below)
            (
              (subset_iff n s t v w).0 below,
              λ back.
                  let e = Bitset_ext n s t v w (λ q.
                    Bool-eq_of_iff (has s q) (has t q) ((subset_iff n s t v w).0 below q)
                      (back q)) in
                  let same = (equal_iff s t).1 e in cc,
            )
      | inr apart ↦ rw (other, apart) (λ all. let h = (subset_iff n s t v w).1 all in cc)
    ]
  ]
