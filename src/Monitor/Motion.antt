-- ===== src/Monitor/Motion.antt =====
-- sg_validate_update decides by the states that the completed steps lead to.
use sync_kgraph.Base.{
  ℕ, ◌≤◌, ◌≡◌, ◌∙◌, refl, sym, ◌≢◌, ◌↔◌, inl, inr, Bool, true, false, not, ◌&&◌, ◌||◌, List, [],
  ◌∷◌, arith, ltb, ◌==◌, if◌then◌else◌, Bool-cases, length, take, Status, invalid_argument,
  invalid_model, Ensures, Ensures-return, Ensures-bind, Ensures-guard, Ensures-request, Ensures-if,
  Ensures-mono,
}
use sync_kgraph.Bitset.{Bitset, has, count, to_ids}
use sync_kgraph.Bitset.Laws.{IsBitset, empty-IsBitset}
use sync_kgraph.Bitset.Members.{
  InRange, contains, contains-to_ids, count_zero_iff, Ensures-init, Ensures-from_ids,
}
use sync_kgraph.Automaton.{Automaton}
use sync_kgraph.Automaton.Laws.{IsValid}
use sync_kgraph.Word.{Word}
use sync_kgraph.Motion.Image.{run, images, images_iff, images-IsBitset, Actions}
use sync_kgraph.Motion.Apply.{Ensures-word_loop, Rejects}
use sync_kgraph.Monitor.{
  MonitorResult, stale_generation, wait, waiting, judge, report_expected, compare_report,
  validate_current, validate_update,
}
use sync_kgraph.Monitor.Judge.{Judged, Judged-mono, Member, judge-Judged}
use sync_kgraph.Monitor.Arrays.{Ensures-fill_arrays}

-- a word leads from some state of the list to `r`
abbrev pub Reached : Automaton → List ℕ → List ℕ → ℕ → Type 0
Reached a xs w r = (q : ℕ) × (contains xs q ≡ true) × (run a q w ≡ r)

-- the list has exactly the states of which the predicate holds
abbrev pub Lists : List ℕ → (ℕ → Type 0) → Type 0
Lists xs P = (r : ℕ) → (contains xs r ≡ true) ↔ P r

-- what a call of the current generation tells of the expected states, with and without a report
abbrev pub Monitored : (ℕ → Type 0) → List ℕ → Bool → MonitorResult → Type 0
Monitored Expected reported true r =
    Lists r.expected_states Expected
    × Lists r.unexpected_states (λ q. (contains reported q ≡ true) × ¬ Expected q)
    × Judged (λ q. contains reported q ≡ true) Expected r.decision
Monitored Expected reported false r =
    Lists r.expected_states Expected × (r.unexpected_states ≡ []) × (r.decision ≡ wait)

module _ (a : Automaton) (v : IsValid a) (expected : Bitset)
    (m : IsBitset a.state_count expected) where
  listed_lists :
      (xs : List ℕ) → ((r : ℕ) → contains xs r ≡ has expected r) → Lists xs (Member expected)
  listed_lists xs h r = ((λ z. sym (h r) ∙ z), (λ z. h r ∙ z))

  Ensures-report_expected :
      (q : ℕ) (E : Status → Type 0)
      → has expected q ≡ true
      → Ensures
          (report_expected a expected)
          (λ r. (r.generation ≡ a.generation) × Monitored (Member expected) [] false r)
          E
  unfolding report_expected
  Ensures-report_expected q E some_state =
      Ensures-bind
        (Ensures-guard (not (count expected == 0)) invalid_model (λ z. absurd (nonempty z)))
        λ _ _. Ensures-bind Ensures-request λ _ _. Ensures-return _ (
          refl,
          (
            listed_lists (to_ids expected) (λ r. contains-to_ids a.state_count expected r m),
            refl,
            refl,
          ),
        )
    where
      nonempty : not (count expected == 0) ≡ false → ⊥
      nonempty z = let e = (count_zero_iff a.state_count expected m).0 (ground arith) q in cc

  unexpected_lists :
      (xs ys : List ℕ) (reported : Bitset)
      → ((r : ℕ) → has reported r ≡ contains ys r)
      → ((r : ℕ) → contains xs r ≡ (has reported r && not (has expected r)))
      → Lists xs (λ q. (contains ys q ≡ true) × ¬ Member expected q)
  unexpected_lists xs ys reported mem h r =
      let e = mem r in
      let f = h r in
      (
        λ z. (ground arith, λ no. ground arith),
        λ (in_report, not_expected). elim (Bool-cases (has expected r)) [
          | inl here ↦ absurd (not_expected here)
          | inr away ↦ ground arith
        ],
      )

  Ensures-compare_report :
      (reported : List ℕ) (E : Status → Type 0)
      → (reported ≡ [] → E invalid_argument)
      → (¬ InRange a.state_count reported → E invalid_argument)
      → Ensures
          (compare_report a expected reported)
          (λ r. (r.generation ≡ a.generation) × Monitored (Member expected) reported true r)
          E
  unfolding compare_report
  Ensures-compare_report ys E none_in bad =
      Ensures-bind (Ensures-from_ids a.state_count E ys v.states_pos v.states_small none_in bad)
        λ reported (w, _, _, mem).
          Ensures-bind
            (Ensures-fill_arrays a.state_count expected reported (waiting a.generation) E
              v.states_pos m w)
            λ r f. Ensures-return _ (
              f.same_generation,
              (
                listed_lists r.expected_states f.expected_listed,
                unexpected_lists r.unexpected_states ys reported mem f.unexpected_listed,
                Judged-mono (Member reported) (λ q. contains ys q ≡ true) (Member expected)
                    (Member expected) (judge reported expected)
                    (λ q. ((λ z. sym (mem q) ∙ z), (λ z. mem q ∙ z))) (λ q. ((λ z. z), (λ z. z)))
                    (judge-Judged a.state_count reported expected w m),
              ),
            )

Monitored-mono :
    (X X' : ℕ → Type 0) (ys : List ℕ) (loc : Bool) (r : MonitorResult)
    → ((q : ℕ) → X q ↔ X' q)
    → Monitored X ys loc r
    → Monitored X' ys loc r
Monitored-mono X X' ys true r f h = (
  λ q. ((λ z. (f q).0 ((h.0 q).0 z)), (λ z. (h.0 q).1 ((f q).1 z))),
  λ q. (
    λ z. let (a, b) = (h.1 q).0 z in (a, λ x. b ((f q).1 x)),
    λ (a, b). (h.1 q).1 (a, λ x. b ((f q).0 x)),
  ),
  Judged-mono (λ q. contains ys q ≡ true) (λ q. contains ys q ≡ true) X X' r.decision
      (λ q. ((λ z. z), (λ z. z))) f h.2,
)
Monitored-mono X X' ys false r f h =
    (λ q. ((λ z. (f q).0 ((h.0 q).0 z)), (λ z. (h.0 q).1 ((f q).1 z))), h.1, h.2)

-- what the caller must give: known states, a consumed prefix of known actions, and, with a localizer,
-- a nonempty report of known states
abbrev pub Consumable : Automaton → List ℕ → List ℕ → ℕ → List ℕ → Bool → Type 0
Consumable a xs w k ys loc =
    (xs ≢ [])
    × (k ≤ length w)
    × InRange a.state_count xs
    × Actions a (take k w)
    × (loc ≡ true → (ys ≢ []) × InRange a.state_count ys)

pub empty_of_length : (ys : List ℕ) → (length ys == 0) ≡ true → ys ≡ []
empty_of_length [] z = refl
empty_of_length (y ∷ ys) z = ground arith

pub contains_some : (xs : List ℕ) → xs ≢ [] → (q : ℕ) × (contains xs q ≡ true)
contains_some [] h = absurd (h refl)
contains_some (x ∷ xs) h = (x, ground arith)

module _ (a : Automaton) (xs : List ℕ) (w : Word) (k : ℕ) (ys : List ℕ) (loc : Bool)
    (v : IsValid a) where
  abbrev Fails : Status → Type 0
  Fails = Rejects (Consumable a xs w.actions k ys loc)

  Ensures-validate_current :
      Ensures
        (validate_current a xs w k ys loc)
        (λ r. (r.generation ≡ a.generation) × Monitored (Reached a xs (take k w.actions)) ys loc r)
        Fails
  unfolding validate_current
  Ensures-validate_current =
      Ensures-bind
        (Ensures-from_ids a.state_count Fails xs v.states_pos v.states_small
          (λ z. (refl, λ c. c.0 z)) (λ no. (refl, λ c. no c.2)))
        λ initial (m, some_id, range, mem).
          Ensures-bind
            (Ensures-init a.state_count Fails (λ z. absurd (let p = v.states_pos in omega arith))
              v.states_small)
            λ next e.
              Ensures-bind
                (Ensures-word_loop a v (take k w.actions) initial next (λ no. (refl, λ c. no c.3)) m
                  (rw e (empty-IsBitset a.state_count v.states_small)))
                λ expected (acts, ex).
                  let images_valid = images-IsBitset a v (take k w.actions) initial acts m in
                  let valid : IsBitset a.state_count expected = rw ex images_valid in
                  Ensures-mono
                    (λ r (g, h). (
                      g,
                      Monitored-mono (Member expected) (Reached a xs (take k w.actions)) ys loc r
                          (same initial m mem expected acts ex) h,
                    ))
                    (λ _ z. z) (finish initial m mem expected acts ex valid some_id loc refl)
    where
      same :
          (initial : Bitset)
          → IsBitset a.state_count initial
          → ((q : ℕ) → has initial q ≡ contains xs q)
          → (expected : Bitset) → Actions a (take k w.actions)
          → expected ≡ images a initial (take k w.actions)
          → (r : ℕ) → Member expected r ↔ Reached a xs (take k w.actions) r
      same initial m mem expected acts ex r =
          let it = images_iff a v (take k w.actions) initial r acts m in
          (
            λ z. let (q, hq, e) = it.0 (rw ex at z) in (q, sym (mem q) ∙ hq, e),
            λ (q, hq, e). rw ex (it.1 (q, mem q ∙ hq, e)),
          )

      finish :
          (initial : Bitset)
          → IsBitset a.state_count initial
          → ((q : ℕ) → has initial q ≡ contains xs q)
          → (expected : Bitset) → Actions a (take k w.actions)
          → expected ≡ images a initial (take k w.actions)
          → IsBitset a.state_count expected
          → xs ≢ []
          → (l : Bool) → loc ≡ l
          → Ensures
              (if l then compare_report a expected ys else report_expected a expected)
              (λ r. (r.generation ≡ a.generation) × Monitored (Member expected) ys l r)
              Fails
      finish initial m mem expected acts ex valid some_id true e =
          Ensures-compare_report a v expected valid ys Fails (λ z. (refl, λ c. (c.4 e).0 z))
            (λ no. (refl, λ c. no (c.4 e).1))
      finish initial m mem expected acts ex valid some_id false e =
          let (q, hq) = contains_some xs some_id in
          Ensures-mono (λ r h. h) (λ _ z. z)
            (Ensures-report_expected a v expected valid (run a q (take k w.actions)) Fails
              ((same initial m mem expected acts ex (run a q (take k w.actions))).1 (q, hq, refl)))

  -- sg_validate_update answers STALE_GENERATION for another generation than the plan's. For the
  -- plan's own it lists exactly the states that the completed steps lead to. Without a localizer it
  -- then answers WAIT. With one it lists the reported states that are not expected, and answers
  -- CONTINUE on equal sets, REPLAN on a strict subset, and MODEL_VIOLATION otherwise. It fails
  -- only when the allocator refuses, or with INVALID_ARGUMENT for arguments that are not consumable.
  pub validate_update_decides :
      (g : ℕ)
      → Ensures
          (validate_update a g xs w k ys loc)
          (λ r.
            (r.generation ≡ a.generation)
            × (g ≢ a.generation → r.decision ≡ stale_generation)
            × (g ≡ a.generation → Monitored (Reached a xs (take k w.actions)) ys loc r))
          Fails
  unfolding validate_update
  validate_update_decides g =
      Ensures-bind
        (Ensures-guard (not (length xs == 0 || ltb (length w.actions) k || (loc && length ys == 0)))
          invalid_argument (λ z. (refl, refused z)))
        λ _ _.
          Ensures-if (g == a.generation)
            (λ same.
              Ensures-mono (λ r (e, h). (e, (λ ne. absurd (ne (ground arith))), (λ _. h)))
                (λ _ z. z) Ensures-validate_current)
            (λ other. Ensures-return _ (refl, (λ _. refl), (λ e. absurd (ground arith))))
    where
      refused :
          not (length xs == 0 || ltb (length w.actions) k || (loc && length ys == 0)) ≡ false
          → ¬ Consumable a xs w.actions k ys loc
      refused z c = elim (Bool-cases (length xs == 0)) [
        | inl none_in ↦ c.0 (empty_of_length xs none_in)
        | inr some_in ↦ elim (Bool-cases (length ys == 0)) [
          | inl no_report ↦ elim (Bool-cases loc) [
            | inl on ↦ (c.4 on).0 (empty_of_length ys no_report)
            | inr off ↦ let l = c.1 in ground arith
          ]
          | inr report ↦ let l = c.1 in ground arith
        ]
      ]
