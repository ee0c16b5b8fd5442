-- ===== src/Monitor/Replay.antt =====
-- The replay of sg_validate_observed_update: the states that are compatible with the outputs seen, and
-- what is reported at the first output that no such state shows.
use sync_kgraph.Base.{
  ℕ, suc, ◌+◌, ◌<◌, ◌≡◌, refl, sym, subst, ◌↔◌, true, false, List, [], ◌∷◌, arith, ◌==◌, length,
  get_or, take, Option, none, some, Status, Ensures, Ensures-return, Ensures-bind, Ensures-if,
  Ensures-mono,
}
use sync_kgraph.Bitset.{Bitset, has, count}
use sync_kgraph.Bitset.Laws.{IsBitset}
use sync_kgraph.Bitset.Members.{contains, count_zero_iff, some_of_count}
use sync_kgraph.Automaton.{Automaton, transition, observation}
use sync_kgraph.Automaton.Laws.{IsValid}
use sync_kgraph.Motion.{apply_observed_action_set}
use sync_kgraph.Motion.Image.{
  apply_observed_action_set-IsBitset, apply_observed_action_set_iff, Actions,
}
use sync_kgraph.Motion.Traces.{Shows, After}
use sync_kgraph.Monitor.{Failure, replay}
use sync_kgraph.Monitor.Outputs.{Ensures-expected_outputs}

-- The first incompatible step `k`, counted from 0: before it some state is compatible, its output is
-- one that no such state shows, and the possible outputs are listed.
pub record FailsAt (a : Automaton) (Start : ℕ → Type 0) (cs os : List ℕ) (index : ℕ) (f : Failure)
    : Type 0 where
  pub k : ℕ
  pub inside : k < length cs
  pub at_step : f.step ≡ index + k + 1
  pub at_output : f.output ≡ get_or os k 0
  pub before : (r : ℕ) × After a Start (take k cs) (take k os) r
  pub after : (r : ℕ) → ¬ After a Start (take (suc k) cs) (take (suc k) os) r
  pub possible :
      (o : ℕ)
      → (contains f.possible o ≡ true) ↔ (
          (r : ℕ) × After a Start (take k cs) (take k os) r × (observation a r (get_or cs k 0) ≡ o))

-- what the replay leaves
abbrev pub ReplayedAs :
    Automaton → (ℕ → Type 0) → List ℕ → List ℕ → ℕ → Bitset → Option Failure → Type 0
ReplayedAs a Start cs os index expected none =
    ((r : ℕ) → (has expected r ≡ true) ↔ After a Start cs os r) × ((r : ℕ) × After a Start cs os r)
ReplayedAs a Start cs os index expected (some f) =
    FailsAt a Start cs os index f × ((r : ℕ) → has expected r ≡ false)

-- equal starts give equal replays
pub ReplayedAs-mono :
    (a : Automaton) (S T : ℕ → Type 0) (cs os : List ℕ) (index : ℕ) (expected : Bitset)
    → ((q : ℕ) → S q ↔ T q)
    → (h : Option Failure) → ReplayedAs a S cs os index expected h
    → ReplayedAs a T cs os index expected h
ReplayedAs-mono a S T cs os index expected same none (all, (r, (q, hq, t))) = (
  λ x. (
    λ z. let (p, hp, s) = (all x).0 z in (p, (same p).0 hp, s),
    λ (p, hp, s). (all x).1 (p, (same p).1 hp, s),
  ),
  (r, (q, (same q).0 hq, t)),
)
ReplayedAs-mono a S T cs os index expected same (some f) (x, nothing) = (
  record {
    k = x.k;
    inside = x.inside;
    at_step = x.at_step;
    at_output = x.at_output;
    before = let (r, (q, hq, t)) = x.before in (r, (q, (same q).0 hq, t));
    after = λ r (q, hq, t). x.after r (q, (same q).1 hq, t);
    possible = λ o. (
      λ z. let (r, (q, hq, t), e) = (x.possible o).0 z in (r, (q, (same q).0 hq, t), e),
      λ (r, (q, hq, t), e). (x.possible o).1 (r, (q, (same q).1 hq, t), e),
    );
  },
  nothing,
)

module _ (a : Automaton) (Start Next : ℕ → Type 0) (c o : ℕ)
    (moves : (r : ℕ)
      → Next r ↔ ((q : ℕ) × Start q × (observation a q c ≡ o) × (transition a q c ≡ r))) where
  After-step : (cs os : List ℕ) (r : ℕ) → After a Next cs os r ↔ After a Start (c ∷ cs) (o ∷ os) r
  After-step cs os r = (
    λ (q, hq, t).
        let (p, hp, ho, e) = (moves q).0 hq in
        (p, hp, (ho, subst (λ x. Shows a x cs os r) (sym e) t)),
    λ (q, hq, (ho, t)). (transition a q c, (moves (transition a q c)).1 (q, hq, ho, refl), t),
  )

  -- the replay of the rest, seen from the step before
  ReplayedAs-step :
      (cs os : List ℕ) (index : ℕ) (expected : Bitset) (h : Option Failure)
      → ReplayedAs a Next cs os (index + 1) expected h
      → ReplayedAs a Start (c ∷ cs) (o ∷ os) index expected h
  ReplayedAs-step cs os index expected none (all, (r, t)) = (
    λ r. (λ z. (After-step cs os r).0 ((all r).0 z), λ z. (all r).1 ((After-step cs os r).1 z)),
    (r, (After-step cs os r).0 t),
  )
  ReplayedAs-step cs os index expected (some f) (x, nothing) = (
    record {
      k = suc x.k;
      inside = let l = x.inside in omega arith;
      at_step = let e = x.at_step in omega arith;
      at_output = x.at_output;
      before = (x.before.0, (After-step (take x.k cs) (take x.k os) x.before.0).0 x.before.1);
      after = λ r t. x.after r ((After-step (take (suc x.k) cs) (take (suc x.k) os) r).1 t);
      possible = λ p. (
        λ z.
            let (r, t, e) = (x.possible p).0 z in
            (r, (After-step (take x.k cs) (take x.k os) r).0 t, e),
        λ (r, t, e). (x.possible p).1 (r, (After-step (take x.k cs) (take x.k os) r).1 t, e),
      );
    },
    nothing,
  )

module _ (a : Automaton) (v : IsValid a) {E : Status → Type 0} where
  -- The replay gives exactly the compatible states, or the first incompatible step.
  pub Ensures-replay :
      (cs os : List ℕ) (index : ℕ) (current next : Bitset)
      → length cs ≡ length os
      → Actions a cs
      → IsBitset a.state_count current
      → IsBitset a.state_count next
      → ((q : ℕ) × (has current q ≡ true))
      → Ensures
          (replay a cs os index current next)
          (λ r.
            IsBitset a.state_count r.expected
            × ReplayedAs a (λ q. has current q ≡ true) cs os index r.expected r.failure)
          E
  unfolding replay
  Ensures-replay [] [] index current next e acts m w (q, hq) = Ensures-return _ (
    m,
    (
      λ r. ((λ h. (r, h, refl)), λ (p, hp, s). subst (λ x. has current x ≡ true) s hp),
      (q, (q, hq, refl)),
    ),
  )
  Ensures-replay [] (o ∷ os) index current next e acts m w some_q = absurd (omega arith)
  Ensures-replay (c ∷ cs) [] index current next e acts m w some_q = absurd (omega arith)
  Ensures-replay (c ∷ cs) (o ∷ os) index current next e acts m w (q, hq) =
      let image = apply_observed_action_set a current c o next in
      let valid = apply_observed_action_set-IsBitset a v current c acts.0 m o next w in
      let moves = λ (r : ℕ). apply_observed_action_set_iff a v current c acts.0 m o next r w in
      Ensures-if (count image == 0)
        (λ empty_image.
          let gone = (count_zero_iff a.state_count image valid).0 (ground arith) in
          Ensures-bind (Ensures-expected_outputs a v current c acts.0 m) λ possible listed.
            Ensures-return _ (
              valid,
              (
                record {
                  k = 0;
                  inside = omega arith;
                  at_step = omega arith;
                  at_output = refl;
                  before = (q, (q, hq, refl));
                  after = λ r (p, hp, (ho, s)).
                      let here = (moves r).1 (p, hp, ho, s) in let no_one = gone r in cc;
                  possible = λ p. (
                    λ z. let (r, hr, f) = (listed p).0 z in (r, (r, hr, refl), f),
                    λ (r, (x, hx, s), f).
                        (listed p).1 (x, hx, subst (λ y. observation a y c ≡ p) (sym s) f),
                  );
                },
                gone,
              ),
            ))
        (λ some_image.
          Ensures-mono
            (λ r (m', h). (
              m',
              ReplayedAs-step a (λ x. has current x ≡ true) (λ x. has image x ≡ true) c o moves cs
                  os index r.expected r.failure h,
            ))
            (λ _ z. z)
            (Ensures-replay cs os (index + 1) image current (omega arith) acts.1 valid m
              (some_of_count a.state_count image valid (λ z. ground arith))))
