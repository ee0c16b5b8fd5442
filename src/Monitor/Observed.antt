-- ===== src/Monitor/Observed.antt =====
-- sg_validate_observed_update decides by the states that are compatible with the outputs seen.
use sync_kgraph.Base.{
  ℕ, zero, suc, ◌≤◌, ◌≡◌, ◌∙◌, refl, sym, ap, ◌≢◌, ◌↔◌, inl, inr, Bool, true, false, not, List, [],
  ◌∷◌, arith, ◌==◌, ◌&&◌, ◌||◌, ltb, if◌then◌else◌, Bool-cases, length, take, Option, none, some,
  Status, Ensures, Ensures-return, Ensures-bind, Ensures-if, Ensures-mono, Ensures-guard,
  invalid_argument, index_none,
}
use sync_kgraph.Bitset.{Bitset, has}
use sync_kgraph.Bitset.Laws.{IsBitset, empty-IsBitset, has-empty}
use sync_kgraph.Bitset.Members.{contains, InRange, Ensures-init, Ensures-from_ids}
use sync_kgraph.Automaton.{Automaton}
use sync_kgraph.Automaton.Laws.{IsValid}
use sync_kgraph.Word.{Word}
use sync_kgraph.Motion.Image.{Actions}
use sync_kgraph.Motion.Apply.{Rejects}
use sync_kgraph.Monitor.{
  MonitorResult, Decision, model_violation, stale_generation, wait, waiting, judge, Failure,
  ObservedResult, prefix_valid, reported_set, conclude, validate_observed_current,
  validate_observed_update,
}
use sync_kgraph.Monitor.Judge.{Judged, Judged-mono, Member, judge-Judged}
use sync_kgraph.Monitor.Arrays.{Filled, Ensures-fill_arrays}
use sync_kgraph.Monitor.Motion.{Lists, empty_of_length, contains_some}
use sync_kgraph.Motion.Traces.{After}
use sync_kgraph.Monitor.Replay.{FailsAt, ReplayedAs, ReplayedAs-mono, Ensures-replay}

-- the states that the localizer reports
abbrev pub Reported : Bool → List ℕ → ℕ → Type 0
Reported loc ys q = (loc && contains ys q) ≡ true

-- the decision on compatible outputs, with a localizer and without
abbrev pub Decides : (ℕ → Type 0) → (ℕ → Type 0) → Bool → Decision → Type 0
Decides R X true d = Judged R X d
Decides R X false d = d ≡ wait

-- what a call of the current generation tells, with compatible outputs and without
abbrev pub ObservedReport :
    Automaton → (ℕ → Type 0) → List ℕ → List ℕ → List ℕ → Bool → Bool → ObservedResult → Type 0
ObservedReport a Start cs os ys loc true r =
    Lists r.monitor.expected_states (After a Start cs os)
    × ((q : ℕ) × After a Start cs os q)
    × Lists r.monitor.unexpected_states (λ q. Reported loc ys q × ¬ After a Start cs os q)
    × Decides (Reported loc ys) (After a Start cs os) loc r.monitor.decision
    × (r.failed_observation_step ≡ index_none)
ObservedReport a Start cs os ys loc false r =
    FailsAt a Start cs os 0 (record {
      step = r.failed_observation_step;
      output = r.observed_output;
      possible = r.expected_outputs;
    })
    × (r.monitor.decision ≡ model_violation)
    × ((q : ℕ) → contains r.monitor.expected_states q ≡ false)

-- the consumed prefix is checked as one
prefix_valid_iff :
    (a : Automaton) (cs os : List ℕ)
    → length cs ≡ length os
    → (prefix_valid a cs os ≡ true) ↔ (Actions a cs × InRange a.output_count os)
unfolding prefix_valid
prefix_valid_iff a [] [] e = ((λ _. (tt, tt)), (λ _. refl))
prefix_valid_iff a [] (o ∷ os) e = absurd (omega arith)
prefix_valid_iff a (c ∷ cs) [] e = absurd (omega arith)
prefix_valid_iff a (c ∷ cs) (o ∷ os) e =
    let ih = prefix_valid_iff a cs os (omega arith) in
    (
      λ z. let (p, r) = ih.0 (ground arith) in ((ground arith, p), (ground arith, r)),
      λ ((hc, p), (ho, r)). let rest = ih.1 (p, r) in ground arith,
    )

module _ (a : Automaton) (v : IsValid a) {E : Status → Type 0} where
  Ensures-reported_set :
      (ys : List ℕ) (loc : Bool)
      → (¬ (loc ≡ true → InRange a.state_count ys) → E invalid_argument)
      → Ensures
          (reported_set a ys loc)
          (λ t. IsBitset a.state_count t × ((q : ℕ) → has t q ≡ (loc && contains ys q)))
          E
  unfolding reported_set
  Ensures-reported_set ys loc bad =
      Ensures-if (loc && not (length ys == 0))
        (λ given.
          Ensures-mono (λ t (m, _, _, mem). (m, λ q. ground (arith, mem q))) (λ _ z. z)
            (Ensures-from_ids a.state_count E ys v.states_pos v.states_small
              (λ z. absurd (let l = ap length z in ground arith))
              (λ no. bad (λ c. no (c (ground arith))))))
        (λ not_given.
          Ensures-mono
            (λ t e. (
              rw e (empty-IsBitset a.state_count v.states_small),
              λ q. rw e (has-empty a.state_count q ∙ sym (nothing not_given q)),
            ))
            (λ _ z. z)
            (Ensures-init a.state_count E (λ z. absurd (let p = v.states_pos in omega arith))
              v.states_small))
    where
      nothing : (loc && not (length ys == 0)) ≡ false → (q : ℕ) → (loc && contains ys q) ≡ false
      nothing z q = elim (Bool-cases (length ys == 0)) [
        | inl none_in ↦ let e = empty_of_length ys none_in in rw e (ground arith)
        | inr some_in ↦ ground arith
      ]

module _ (a : Automaton) (Start : ℕ → Type 0) (cs os ys : List ℕ) (loc : Bool) (reported : Bitset)
    (m' : IsBitset a.state_count reported)
    (mem : (q : ℕ) → has reported q ≡ (loc && contains ys q)) where
  Decides-judge :
      (l : Bool) (expected : Bitset)
      → IsBitset a.state_count expected
      → ((r : ℕ) → (has expected r ≡ true) ↔ After a Start cs os r)
      → Decides
          (Reported loc ys)
          (After a Start cs os)
          l
          (if l then judge reported expected else wait)
  Decides-judge false expected m all = refl
  Decides-judge true expected m all =
      Judged-mono (Member reported) (Reported loc ys) (Member expected) (After a Start cs os)
        (judge reported expected) (λ q. ((λ z. sym (mem q) ∙ z), (λ z. mem q ∙ z))) all
        (judge-Judged a.state_count reported expected m' m)

  conclude_observes :
      (expected : Bitset) (h : Option Failure) (filled : MonitorResult)
      → IsBitset a.state_count expected
      → ReplayedAs a Start cs os 0 expected h
      → Filled expected reported (waiting a.generation) filled
      → let r = conclude (record { expected = expected; failure = h }) reported loc filled in
        (r.monitor.generation ≡ a.generation)
        × ObservedReport a Start cs os ys loc r.observation_compatible r
  unfolding conclude
  conclude_observes expected none filled m (all, some_q) f = (
    f.same_generation,
    (
      λ q. (λ z. (all q).0 (sym (f.expected_listed q) ∙ z), λ z. f.expected_listed q ∙ (all q).1 z),
      some_q,
      λ q.
          let e = f.unexpected_listed q in
          let g = mem q in
          (
            λ z. (ground arith, λ is. let here = (all q).1 is in ground arith),
            λ (r, is_not). elim (Bool-cases (has expected q)) [
              | inl here ↦ absurd (is_not ((all q).0 here))
              | inr away ↦ ground arith
            ],
          ),
      Decides-judge loc expected m all,
      refl,
    ),
  )
  conclude_observes expected (some x) filled m (fails, gone) f =
      (f.same_generation, (fails, refl, λ q. f.expected_listed q ∙ gone q))

-- what the caller must give: known states, a consumed prefix of known actions with as many known
-- outputs, and a report of known states
abbrev pub Observable : Automaton → List ℕ → List ℕ → ℕ → List ℕ → List ℕ → Bool → Type 0
Observable a xs w k os ys loc =
    (xs ≢ [])
    × (k ≤ length w)
    × (length os ≡ k)
    × InRange a.state_count xs
    × Actions a (take k w)
    × InRange a.output_count os
    × (loc ≡ true → InRange a.state_count ys)

length-take : (k : ℕ) (xs : List ℕ) → k ≤ length xs → length (take k xs) ≡ k
length-take zero xs h = refl
length-take (suc k) [] h = absurd (omega arith)
length-take (suc k) (x ∷ xs) h = omega (arith, length-take k xs)

module _ (a : Automaton) (xs : List ℕ) (w : Word) (k : ℕ) (os ys : List ℕ) (loc : Bool)
    (v : IsValid a) where
  abbrev Fails : Status → Type 0
  Fails = Rejects (Observable a xs w.actions k os ys loc)

  abbrev Start : ℕ → Type 0
  Start q = contains xs q ≡ true

  -- the start as a set or as a list
  ReplayedAs-list :
      (initial expected : Bitset) (h : Option Failure)
      → ((q : ℕ) → has initial q ≡ contains xs q)
      → ReplayedAs a (λ q. has initial q ≡ true) (take k w.actions) os 0 expected h
      → ReplayedAs a Start (take k w.actions) os 0 expected h
  ReplayedAs-list initial expected h mem r =
      ReplayedAs-mono a (λ q. has initial q ≡ true) Start (take k w.actions) os 0 expected
        (λ q. ((λ z. sym (mem q) ∙ z), (λ z. mem q ∙ z))) h r

  Ensures-observed_current :
      k ≤ length w.actions
      → length os ≡ k
      → Ensures
          (validate_observed_current a xs w k os ys loc)
          (λ r.
            (r.monitor.generation ≡ a.generation)
            × ObservedReport a Start (take k w.actions) os ys loc r.observation_compatible r)
          Fails
  unfolding validate_observed_current
  Ensures-observed_current short same =
      let cs = take k w.actions in
      let sized : length cs ≡ length os = length-take k w.actions short ∙ sym same in
      let checks = prefix_valid_iff a cs os sized in
      Ensures-bind
        (Ensures-guard (prefix_valid a cs os) invalid_argument
          (λ z. (refl, λ c. let y = checks.1 (c.4, c.5) in cc)))
        λ _ all_ids.
          Ensures-bind
            (Ensures-from_ids a.state_count Fails xs v.states_pos v.states_small
              (λ z. (refl, λ c. c.0 z)) (λ no. (refl, λ c. no c.3)))
            λ initial (m, some_id, _, mem).
              Ensures-bind
                (Ensures-init a.state_count Fails
                  (λ z. absurd (let p = v.states_pos in omega arith)) v.states_small)
                λ next e.
                  Ensures-bind (Ensures-reported_set a v ys loc (λ no. (refl, λ c. no c.6)))
                    λ reported (m', mem').
                      let (q, hq) = contains_some xs some_id in
                      Ensures-bind
                        (Ensures-replay a v cs os 0 initial next sized (checks.0 all_ids).0 m
                          (rw e (empty-IsBitset a.state_count v.states_small)) (q, mem q ∙ hq))
                        λ replayed (valid, h).
                          Ensures-bind
                            (Ensures-fill_arrays a.state_count replayed.expected reported
                              (waiting a.generation) Fails v.states_pos valid m')
                            λ filled f. Ensures-return _ (
                              conclude_observes a Start cs os ys loc reported m' mem'
                                replayed.expected replayed.failure filled valid
                                (ReplayedAs-list initial replayed.expected replayed.failure mem h)
                                f)

  -- sg_validate_observed_update answers STALE_GENERATION for another generation than the plan's. For
  -- the plan's own, with compatible outputs it lists exactly the states in which the automaton can be
  -- after the completed steps with those outputs, of which there is one, and the reported states
  -- beyond them; it answers WAIT without a localizer, and with one CONTINUE on equal sets, REPLAN on
  -- a strict subset, MODEL_VIOLATION otherwise. At the first output that no compatible state shows it
  -- reports the step from 1, the output and exactly the possible outputs, and answers MODEL_VIOLATION
  -- with no expected state. It fails only when the allocator refuses, or with INVALID_ARGUMENT for
  -- arguments that are not observable.
  pub validate_observed_update_decides :
      (g : ℕ)
      → Ensures
          (validate_observed_update a g xs w k os ys loc)
          (λ r.
            (r.monitor.generation ≡ a.generation)
            × (g ≢ a.generation → r.monitor.decision ≡ stale_generation)
            × (g ≡ a.generation
                → ObservedReport a Start (take k w.actions) os ys loc r.observation_compatible r))
          Fails
  unfolding validate_observed_update
  validate_observed_update_decides g =
      Ensures-bind
        (Ensures-guard (not (length xs == 0 || ltb (length w.actions) k || not (length os == k)))
          invalid_argument (λ z. (refl, refused z)))
        λ _ fits.
          Ensures-if (g == a.generation)
            (λ same.
              Ensures-mono (λ r (e, h). (e, (λ ne. absurd (ne (ground arith))), (λ _. h)))
                (λ _ z. z) (Ensures-observed_current (ground arith) (ground arith)))
            (λ other. Ensures-return _ (refl, (λ _. refl), (λ e. absurd (ground arith))))
    where
      refused :
          not (length xs == 0 || ltb (length w.actions) k || not (length os == k)) ≡ false
          → ¬ Observable a xs w.actions k os ys loc
      refused z c = elim (Bool-cases (length xs == 0)) [
        | inl none_in ↦ c.0 (empty_of_length xs none_in)
        | inr some_in ↦ let l = c.1 in let s = c.2 in ground arith
      ]
