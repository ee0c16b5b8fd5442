-- ===== src/Builder/Build.antt =====
-- sg_automaton_builder_build: a successful build gives a complete automaton that has each transition
-- and observation that was added, under the ids of the keys.
use sync_kgraph.Base.{
  ℕ, ◌+◌, ◌*◌, ◌%◌, ◌⊎◌, inr, true, false, leb, Bool-cases, get_or, get_or-replicate, Ensures-mono,
  Ensures-within_block, ◌<◌, ◌≤◌, ◌≡◌, ◌∙◌, refl, ap, inl, not, ◌&&◌, ◌||◌, List, [], ◌∷◌, arith,
  lt→ltb, ◌==◌, length, replicate, length-replicate, All-replicate, All, index_none, size_mod,
  Status, alloc, incomplete, Ensures-size_bytes, Ensures, Ensures-return, Ensures-bind,
  Ensures-guard, Ensures-request, Ensures-request_all,
}
use sync_kgraph.Automaton.{Automaton, Key, find, transition, observation}
use sync_kgraph.Automaton.Laws.{IsValid, Copyable, Ensures-copy_keys}
use sync_kgraph.Builder.{Builder, Entry, allocate, complete, resolve_entries, build}
use sync_kgraph.Builder.Resolve.{OkCell, Holds, Resolved, complete-All}
use sync_kgraph.Builder.Reasons.{Refusal, Misses, Ensures-resolve_entries, complete-Misses}

-- an array of keys that must not be empty is
abbrev pub Empty : Builder → Type 0
Empty b = (length b.states.items ≡ 0) ⊎ (length b.actions.items ≡ 0) ⊎ (length b.outputs.items ≡ 0)

-- Why a build may end with each status, when the allocator has not refused.
pub data BuildError (b : Builder) : Status → Type 0 where
  too_many :
      {e : Status}
      → e ≡ alloc
      → size_mod ≤ length b.states.items * length b.actions.items
      → BuildError b e
  too_long :
      {e : Status}
      → e ≡ alloc
      → ¬ (Copyable b.states.items × Copyable b.actions.items × Copyable b.outputs.items)
      → BuildError b e
  refused_transition :
      {e : Status}
      → Refusal b.states.items b.actions.items b.states.items b.transitions.items e
      → BuildError b e
  refused_observation :
      {e : Status}
      → Refusal b.states.items b.actions.items b.outputs.items b.observations.items e
      → BuildError b e
  nothing_declared : {e : Status} → e ≡ incomplete → Empty b → BuildError b e
  unfinished :
      {e : Status}
      → e ≡ incomplete
      → Misses b.states.items b.actions.items b.transitions.items
        ⊎ Misses b.states.items b.actions.items b.observations.items
      → BuildError b e

module _ (b : Builder) where
  abbrev pub Declares : Automaton → Type 0
  Declares a =
      All
        (λ e.
          transition a (find b.states.items e.source) (find b.actions.items e.action)
          ≡ find b.states.items e.value)
        b.transitions.items
      × All
          (λ e.
            observation a (find b.states.items e.source) (find b.actions.items e.action)
            ≡ find b.outputs.items e.value)
          b.observations.items

  -- the bytes of a table are a size_t when its cells are
  abbrev pub BytesFit : Type 0
  BytesFit =
      (size_mod ≤ length b.states.items * length b.actions.items)
      ⊎ (length b.states.items * length b.actions.items * 8 < size_mod)

  Ensures-allocate :
      BytesFit
      → Ensures
          (allocate b)
          (λ t.
            (t ≡ replicate (length b.states.items * length b.actions.items) index_none)
            × (length b.states.items * length b.actions.items < size_mod))
          (BuildError b)
  unfolding allocate
  Ensures-allocate fit = Ensures-bind Ensures-request λ _ _.
      Ensures-bind
        (Ensures-size_bytes (length b.states.items) (length b.actions.items)
          (λ large. too_many refl large))
        λ cells e. Ensures-bind (Ensures-request_all 2) λ _ _.
          Ensures-bind
            (Ensures-within_block (leb (cells * 8) (cells * 8 % size_mod)) (room cells e.0 e.1 fit))
            λ _ _. Ensures-return _ (ap (λ (n : ℕ). replicate n index_none) e.0, e.1)
    where
      room :
          (cells : ℕ)
          → cells ≡ length b.states.items * length b.actions.items
          → length b.states.items * length b.actions.items < size_mod
          → BytesFit
          → leb (cells * 8) (cells * 8 % size_mod) ≡ true
      room cells e l (inl large) = absurd (omega arith)
      room cells e l (inr fits) =
          let exact : cells * 8 % size_mod ≡ cells * 8 = omega arith in rw exact (ground arith)

  abbrev built : ℕ → List Key → List Key → List Key → List ℕ → List ℕ → Automaton
  built generation sk ak ok' transitions observations = record {
    generation = generation;
    state_count = length b.states.items;
    action_count = length b.actions.items;
    output_count = length b.outputs.items;
    state_keys = sk;
    action_keys = ak;
    output_keys = ok';
    transitions = transitions;
    observations = observations;
  }

  module _ (g : ℕ) (sk ak ok' : List Key) (t o : List ℕ) where
    transitions_hold :
        (es : List Entry)
        → All (Holds b.states.items b.actions.items b.states.items t) es
        → All
            (λ e.
              transition
                (built g sk ak ok' t o)
                (find b.states.items e.source)
                (find b.actions.items e.action)
              ≡ find b.states.items e.value)
            es
    unfolding transition
    transitions_hold [] h = tt
    transitions_hold (e ∷ es) h =
        let s = lt→ltb _ _ h.0.source_known in
        let c = lt→ltb _ _ h.0.action_known in (rw (s, c) h.0.held, transitions_hold es h.1)

    observations_hold :
        (es : List Entry)
        → All (Holds b.states.items b.actions.items b.outputs.items o) es
        → All
            (λ e.
              observation
                (built g sk ak ok' t o)
                (find b.states.items e.source)
                (find b.actions.items e.action)
              ≡ find b.outputs.items e.value)
            es
    unfolding observation
    observations_hold [] h = tt
    observations_hold (e ∷ es) h =
        let s = lt→ltb _ _ h.0.source_known in
        let c = lt→ltb _ _ h.0.action_known in (rw (s, c) h.0.held, observations_hold es h.1)

  no_key_array :
      not (length b.states.items == 0 || length b.actions.items == 0 || length b.outputs.items == 0)
        ≡ false
      → Empty b
  no_key_array h = elim (Bool-cases (length b.states.items == 0)) [
    | inl none_in ↦ inl (ground arith)
    | inr some_in ↦ elim (Bool-cases (length b.actions.items == 0)) [
      | inl none_in ↦ inr (inl (ground arith))
      | inr some_action ↦ inr (inr (ground arith))
    ]
  ]

  -- Both tables are complete, or one misses a cell.
  misses :
      (t o : List ℕ)
      → length b.states.items < index_none
      → length b.outputs.items < index_none
      → length t ≡ length b.states.items * length b.actions.items
      → length o ≡ length b.states.items * length b.actions.items
      → All (Holds b.states.items b.actions.items b.states.items t) b.transitions.items
      → All (Holds b.states.items b.actions.items b.outputs.items o) b.observations.items
      → (complete t && complete o) ≡ false
      → Misses b.states.items b.actions.items b.transitions.items
        ⊎ Misses b.states.items b.actions.items b.observations.items
  misses t o ls lo st so ht ho h = elim (Bool-cases (complete t)) [
    | inl whole ↦ inr (
        complete-Misses b.states.items b.actions.items b.outputs.items o b.observations.items lo so
          ho (ground arith))
    | inr partial ↦ inl (
        complete-Misses b.states.items b.actions.items b.states.items t b.transitions.items ls st ht
          partial)
  ]

  -- sg_automaton_builder_build, when the bytes of a table are a size_t unless its cells are too many for
  -- one: a successful build is a valid automaton of the generation, with the declared keys in their
  -- order and every declared entry. Unless the allocator refuses, it fails with ALLOC only when the
  -- sizes or a key do not fit, with NOT_FOUND only when an entry names what was not declared, with
  -- DUPLICATE only when an entry repeats an earlier one, with NONDETERMINISTIC only when it contradicts
  -- an earlier one, and with INCOMPLETE only when there is no state, no action or no output, or no entry
  -- for some state and action.
  pub build-Declares :
      (g : ℕ)
      → length b.states.items + 63 < size_mod
      → length b.outputs.items + 63 < size_mod
      → BytesFit
      → Ensures
          (build b g)
          (λ a.
            IsValid a
            × (a.generation ≡ g)
            × (a.state_keys ≡ b.states.items)
            × (a.action_keys ≡ b.actions.items)
            × (a.output_keys ≡ b.outputs.items)
            × Declares a)
          (BuildError b)
  unfolding build
  build-Declares g small_states small_outputs fit =
      Ensures-bind
        (Ensures-guard
          (not (
            length b.states.items == 0
            || length b.actions.items == 0
            || length b.outputs.items == 0))
          incomplete (λ no. nothing_declared refl (no_key_array no)))
        λ _ pos. Ensures-bind (Ensures-allocate fit) λ blank (eb, cells_fit).
          Ensures-bind (Ensures-copy_keys b.states.items (λ no. too_long refl (λ c. no c.0)))
            λ sk es.
              Ensures-bind (Ensures-copy_keys b.actions.items (λ no. too_long refl (λ c. no c.1)))
                λ ak ea.
                  Ensures-bind
                    (Ensures-copy_keys b.outputs.items (λ no. too_long refl (λ c. no c.2)))
                    λ ok' eo.
                      let size =
                        ap length eb
                        ∙ length-replicate (length b.states.items * length b.actions.items)
                            index_none in
                      Ensures-bind (resolved_states blank eb size) λ t rt.
                        Ensures-bind (resolved_outputs blank eb size) λ o ro.
                          Ensures-bind
                            (Ensures-guard (complete t && complete o) incomplete (λ no.
                              unfinished refl (
                                misses t o (omega arith) (omega arith) (rt.0 ∙ size) (ro.0 ∙ size)
                                  rt.3 ro.3 no)))
                            λ _ full. Ensures-return (built g sk ak ok' t o) (
                              record {
                                states_pos = ground arith;
                                actions_pos = ground arith;
                                outputs_pos = ground arith;
                                states_small = small_states;
                                outputs_small = small_outputs;
                                cells_small = cells_fit;
                                transitions_size = rt.0 ∙ size;
                                observations_size = ro.0 ∙ size;
                                targets = complete-All _ t rt.1 (ground arith);
                                outputs = complete-All _ o ro.1 (ground arith);
                              },
                              refl,
                              es,
                              ea,
                              eo,
                              (
                                transitions_hold g sk ak ok' t o b.transitions.items rt.3,
                                observations_hold g sk ak ok' t o b.observations.items ro.3,
                              ),
                            )
    where
      blank_cells :
          (bound : ℕ) (blank : List ℕ)
          → blank ≡ replicate (length b.states.items * length b.actions.items) index_none
          → All (OkCell bound) blank
      blank_cells bound blank e = rw e (
          All-replicate (OkCell bound) (length b.states.items * length b.actions.items) index_none
            (inl refl))

      no_values :
          (blank : List ℕ)
          → blank ≡ replicate (length b.states.items * length b.actions.items) index_none
          → (i : ℕ) → get_or blank i index_none ≡ index_none
      no_values blank e i =
          rw e (get_or-replicate (length b.states.items * length b.actions.items) i index_none)

      resolved_states :
          (blank : List ℕ)
          → blank ≡ replicate (length b.states.items * length b.actions.items) index_none
          → length blank ≡ length b.states.items * length b.actions.items
          → Ensures
              (resolve_entries b.states.items b.actions.items b.states.items b.transitions.items
                blank)
              (Resolved b.states.items b.actions.items b.states.items blank b.transitions.items)
              (BuildError b)
      resolved_states blank e size =
          Ensures-mono (λ _ h. h) (λ _ z. refused_transition z)
            (Ensures-resolve_entries b.states.items b.actions.items b.states.items
              b.transitions.items blank (omega arith) size
              (blank_cells (length b.states.items) blank e) (no_values blank e))

      resolved_outputs :
          (blank : List ℕ)
          → blank ≡ replicate (length b.states.items * length b.actions.items) index_none
          → length blank ≡ length b.states.items * length b.actions.items
          → Ensures
              (resolve_entries b.states.items b.actions.items b.outputs.items b.observations.items
                blank)
              (Resolved b.states.items b.actions.items b.outputs.items blank b.observations.items)
              (BuildError b)
      resolved_outputs blank e size =
          Ensures-mono (λ _ h. h) (λ _ z. refused_observation z)
            (Ensures-resolve_entries b.states.items b.actions.items b.outputs.items
              b.observations.items blank (omega arith) size
              (blank_cells (length b.outputs.items) blank e) (no_values blank e))
