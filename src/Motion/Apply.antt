-- ===== src/Motion/Apply.antt =====
-- sg_apply_word_set and sg_apply_word compute the image of the set under the word.
use sync_kgraph.Base.{
  ℕ, ◌≡◌, ◌∙◌, refl, sym, ap, ◌≢◌, ◌↔◌, true, false, not, List, [], ◌∷◌, arith, ltb, ltb→lt, ◌==◌,
  length, Status, invalid_argument, Ensures, Ensures-return, Ensures-bind, Ensures-guard,
  Ensures-mono,
}
use sync_kgraph.Bitset.{Bitset, to_ids}
use sync_kgraph.Bitset.Laws.{IsBitset, empty-IsBitset}
use sync_kgraph.Bitset.Members.{
  InRange, contains, contains-to_ids, Ensures-init, Ensures-copy, Ensures-from_ids,
}
use sync_kgraph.Automaton.{Automaton}
use sync_kgraph.Automaton.Laws.{IsValid}
use sync_kgraph.Word.{Word}
use sync_kgraph.Motion.{apply_action_set, word_loop, apply_word_set, apply_word}
use sync_kgraph.Motion.Image.{
  run, images, images_iff, images-IsBitset, Actions, apply_action_set-IsBitset,
  apply_action_set-fresh,
}

module _ (a : Automaton) (v : IsValid a) {E : Status → Type 0} where
  pub Ensures-word_loop :
      (w : List ℕ) (current next : Bitset)
      → (¬ Actions a w → E invalid_argument)
      → IsBitset a.state_count current
      → IsBitset a.state_count next
      → Ensures (word_loop a w current next) (λ t. Actions a w × (t ≡ images a current w)) E
  unfolding word_loop images
  Ensures-word_loop [] current next bad m m' = Ensures-return current (tt, refl)
  Ensures-word_loop (c ∷ w) current next bad m m' =
      Ensures-bind
        (Ensures-guard (ltb c a.action_count) invalid_argument
          (λ no. bad (λ h. ground (arith, h.0))))
        λ _ l.
          let hc = ltb→lt c a.action_count l in
          Ensures-mono
            (λ t p. (
              (hc, p.0),
              p.1
                  ∙ ap (λ (s : Bitset). images a s w)
                      (apply_action_set-fresh a v current c hc m next m'),
            ))
            (λ _ z. z)
            (Ensures-word_loop w (apply_action_set a current c next) current
              (λ no. bad (λ h. no h.1)) (apply_action_set-IsBitset a v current c hc m next m') m)

  -- sg_apply_word_set gives the image, or rejects an action out of range.
  pub Ensures-apply_word_set :
      (s : Bitset) (w : Word)
      → (¬ Actions a w.actions → E invalid_argument)
      → IsBitset a.state_count s
      → Ensures (apply_word_set a s w) (λ t. Actions a w.actions × (t ≡ images a s w.actions)) E
  unfolding apply_word_set
  Ensures-apply_word_set s w bad m =
      Ensures-bind (Ensures-copy a.state_count E s v.states_pos m) λ current e.
        Ensures-bind
          (Ensures-init a.state_count E (λ z. absurd (let p = v.states_pos in omega arith))
            v.states_small)
          λ next e'. rw e (
            Ensures-word_loop w.actions s next bad m
              (rw e' (empty-IsBitset a.state_count v.states_small)))

-- A nonempty list of states and a word of actions, all ids in range.
abbrev pub Acceptable : Automaton → List ℕ → List ℕ → Type 0
Acceptable a xs w = (xs ≢ []) × InRange a.state_count xs × Actions a w

-- the failures of a call that rejects what is not acceptable
abbrev pub Rejects : Type 0 → Status → Type 0
Rejects P e = (e ≡ invalid_argument) × ¬ P

-- sg_apply_word lists exactly the states that the word leads to from the given states. It fails
-- only when the allocator refuses, or with INVALID_ARGUMENT for an empty list or an id out of range.
pub apply_word_image :
    (a : Automaton) (xs : List ℕ) (w : Word)
    → IsValid a
    → Ensures
        (apply_word a xs w)
        (λ out.
          Acceptable a xs w.actions
          × ((r : ℕ)
              → (contains out r ≡ true)
                ↔ ((q : ℕ) × (contains xs q ≡ true) × (run a q w.actions ≡ r))))
        (Rejects (Acceptable a xs w.actions))
unfolding apply_word
apply_word_image a xs w v =
    Ensures-bind
      (Ensures-guard (not (length xs == 0)) invalid_argument
        (λ z. (refl, λ ok'. ok'.0 (empty_of_length xs z))))
      λ _ _.
        Ensures-bind
          (Ensures-from_ids a.state_count (Rejects (Acceptable a xs w.actions)) xs v.states_pos
            v.states_small (λ z. (refl, λ ok'. ok'.0 z)) (λ no. (refl, λ ok'. no ok'.1)))
          λ initial (m, some_id, range, mem).
            Ensures-bind (Ensures-apply_word_set a v initial w (λ no. (refl, λ ok'. no ok'.2)) m)
              λ final (acts, e).
                let im = images-IsBitset a v w.actions initial acts m in
                Ensures-return (to_ids final) (
                  (some_id, range, acts),
                  λ r.
                      let it = images_iff a v w.actions initial r acts m in
                      rw (e, contains-to_ids a.state_count (images a initial w.actions) r im)
                        (
                          λ h. let (q, hq, e') = it.0 h in (q, sym (mem q) ∙ hq, e'),
                          λ (q, hq, e'). it.1 (q, mem q ∙ hq, e'),
                        ),
                )
  where
    empty_of_length : (ys : List ℕ) → not (length ys == 0) ≡ false → ys ≡ []
    empty_of_length [] z = refl
    empty_of_length (y ∷ ys) z = ground arith
