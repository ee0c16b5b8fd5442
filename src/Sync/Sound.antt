-- ===== src/Sync/Sound.antt =====
-- sg_pair_words_load for a source whose records agree with the automaton: no answer of it is refused.
use sync_kgraph.Base.{
  ℕ, zero, suc, ◌+◌, ◌-◌, ◌*◌, ◌/◌, ◌≤◌, ◌<◌, ◌≡◌, ◌≢◌, ◌∙◌, ◌⊎◌, refl, sym, ap, subst, inl, inr,
  true, false, not, ◌&&◌, List, [], ◌∷◌, map, arith, ltb, ◌==◌, Bool-cases, if◌then◌else◌, if-cases,
  length, get_or, All, All-append, index_none, Status, alloc, invalid_model, Ensures,
  Ensures-return, Ensures-bind, Ensures-if, Ensures-guard, Ensures-request_all, Ensures-size_bytes,
}
use sync_kgraph.Automaton.{Automaton, transition}
use sync_kgraph.Automaton.Laws.{IsValid, transition-lt}
use sync_kgraph.Word.{Ensures-append}
use sync_kgraph.Motion.Image.{Actions}
use sync_kgraph.Sync.{
  Reader, merge, Candidate, PairRecord, select, planner_pair_count, end_witness, no_witness,
  follow_witness, pair_index, serve_one, zero_record, serve, any_active, asked, load_round,
  load_rounds, candidates, pair_words_load,
}
use sync_kgraph.Oracle.Pairs.{half-eq-triangle, pair_index_bound}
use sync_kgraph.Sync.Load.{CandidateOk}
use sync_kgraph.Sync.Merge.{InPairs}

-- the number of pairs
abbrev pub pairs_of : ℕ → ℕ
pairs_of n = n * (n + 1) / 2

-- the merge members of the record of a pair agree with the automaton and with the other records
pub record RecordOk (a : Automaton) (table : ℕ → PairRecord) (p q : ℕ) (r : PairRecord)
    : Type 0 where
  pub numbered : r.pair ≡ pair_index a.state_count p q
  pub absent :
      r.mergeable ≡ false
      → (r.merge_distance ≡ index_none)
        × (r.merge_action ≡ index_none)
        × (r.merge_next_pair ≡ index_none)
        × (r.merge_support_count ≡ 0)
  pub ended :
      r.mergeable ≡ true
      → r.merge_distance ≡ 0
      → (p ≡ q)
        × (r.merge_action ≡ index_none)
        × (r.merge_next_pair ≡ index_none)
        × (r.merge_support_count ≡ 0)
  pub onward :
      r.mergeable ≡ true
      → r.merge_distance ≢ 0
      → (r.merge_action < a.action_count)
        × (r.merge_support_count ≢ 0)
        × (r.merge_next_pair
            ≡ pair_index a.state_count
                (transition a p r.merge_action)
                (transition a q r.merge_action))
        × ((table r.merge_next_pair).mergeable ≡ true)
        × ((table r.merge_next_pair).merge_distance ≡ r.merge_distance - 1)
  pub bounded : r.mergeable ≡ true → r.merge_distance < pairs_of a.state_count

-- a table of records that agrees with the automaton
abbrev pub SoundTable : Automaton → (ℕ → PairRecord) → Type 0
SoundTable a table =
    (p q : ℕ)
    → p < a.state_count
    → q < a.state_count
    → RecordOk a table p q (table (pair_index a.state_count p q))

get_or-map :
    (f : ℕ → PairRecord) (xs : List ℕ) (i : ℕ) (d : PairRecord) (e : ℕ)
    → i < length xs
    → get_or (map f xs) i d ≡ f (get_or xs i e)
get_or-map f [] i d e h = absurd (omega arith)
get_or-map f (x ∷ xs) zero d e h = refl
get_or-map f (x ∷ xs) (suc i) d e h = get_or-map f xs i d e (omega arith)

module _ (a : Automaton) (table : ℕ → PairRecord) where
  -- the record that the candidate asks for
  abbrev current : Candidate → PairRecord
  current c = table (pair_index a.state_count c.first c.second)

  -- what an active candidate has before the round with so many left
  record Waiting (left : ℕ) (c : Candidate) : Type 0 where
    pub expected :
        (c.expected_distance ≡ index_none) ⊎ (c.expected_distance ≡ (current c).merge_distance)
    pub blank : (current c).mergeable ≡ false → (c.word.actions ≡ []) × (1 < left)
    pub near : (current c).mergeable ≡ true → (current c).merge_distance + 1 < left

  abbrev Follows : ℕ → Candidate → Type 0
  Follows left c =
      CandidateOk a c
      × (c.first < a.state_count)
      × (c.second < a.state_count)
      × (c.active ≡ true → Waiting left c)

  Follows-words : (left : ℕ) (cs : List Candidate) → All (Follows left) cs → All (CandidateOk a) cs
  Follows-words left [] h = tt
  Follows-words left (c ∷ cs) (h, hs) = (h.0, Follows-words left cs hs)

  -- the answers to what the candidates ask for stand from `request` on
  abbrev Answered : List PairRecord → ℕ → List ℕ → Type 0
  Answered records request ids =
      (i : ℕ) → i < length ids → get_or records (request + i) zero_record ≡ table (get_or ids i 0)

  -- The candidates ask for pairs only.
  asked_lt :
      (left : ℕ) (cs : List Candidate)
      → All (Follows left) cs
      → All (λ k. k < pairs_of a.state_count) (asked a.state_count cs)
  unfolding asked
  asked_lt left [] h = tt
  asked_lt left (c ∷ cs) ((_, hp, hq, _), hs) =
      let n = a.state_count in
      let l = pair_index_bound n c.first c.second hp hq in
      let rest = asked_lt left cs hs in
      if-cases (λ (ids : List ℕ). All (λ k. k < pairs_of n) ids) c.active
        (λ _. (omega (arith, half-eq-triangle n), rest)) (λ _. rest)

  -- Before the last round no candidate is active.
  Follows-idle : (cs : List Candidate) → All (Follows 1) cs → any_active cs ≡ false
  unfolding any_active
  Follows-idle [] h = refl
  Follows-idle (c ∷ cs) (h, hs) =
      let rest = Follows-idle cs hs in
      elim (Bool-cases c.active) [
        | inl on ↦
            let w = h.3 on in
            elim (Bool-cases (current c).mergeable) [
              | inl there ↦ absurd (let l = w.near there in omega arith)
              | inr away ↦ absurd (let l = (w.blank away).1 in omega arith)
            ]
        | inr off ↦ ground arith
      ]

module _ (a : Automaton) (v : IsValid a) (table : ℕ → PairRecord) (sound : SoundTable a table)
    {E : Status → Type 0} (no_memory : E alloc) where
  Ensures-follow_witness :
      (left : ℕ) (c : Candidate)
      → Follows a table (suc left) c
      → c.active ≡ true
      → (current a table c).mergeable ≡ true
      → (current a table c).merge_distance ≢ 0
      → Ensures
          (follow_witness a merge (select merge (current a table c)) c)
          (Follows a table left)
          E
  unfolding follow_witness select
  Ensures-follow_witness left c ((fits, acts), hp, hq, waits) on there far =
      let r = current a table c in
      let (known, supported, next, there', nearer) =
        (sound c.first c.second hp hq).onward there far in
      let w = waits on in
      let near = w.near there in
      Ensures-bind
        (Ensures-guard (ltb r.merge_action a.action_count && not (r.merge_support_count == 0))
          invalid_model (λ z. absurd (ground arith)))
        λ _ _.
          Ensures-bind (Ensures-append c.word r.merge_action (λ _. no_memory) fits)
            λ word (e, fits').
              Ensures-bind (Ensures-guard _ invalid_model (λ z. absurd (ground arith))) λ _ _.
                Ensures-return _ (
                  (
                    fits',
                    subst (Actions a) (sym e) (
                        All-append (λ x. x < a.action_count) c.word.actions (r.merge_action ∷ [])
                          acts (known, tt)),
                  ),
                  transition-lt a v c.first r.merge_action hp known,
                  transition-lt a v c.second r.merge_action hq known,
                  λ _. record {
                    expected = inr (sym nearer ∙ ap (λ k. (table k).merge_distance) next);
                    blank = λ z. absurd (let t = ap (λ k. (table k).mergeable) next in cc);
                    near = λ _. let t = ap (λ k. (table k).merge_distance) next in omega arith;
                  },
                )

  Ensures-serve_one :
      (left : ℕ) (c : Candidate)
      → Follows a table (suc left) c
      → c.active ≡ true
      → Ensures (serve_one a merge (current a table c) c) (Follows a table left) E
  unfolding serve_one end_witness no_witness select
  Ensures-serve_one left c (ok', hp, hq, waits) on =
      let r = current a table c in
      let agrees = sound c.first c.second hp hq in
      let w = waits on in
      let same = agrees.numbered in
      Ensures-bind (Ensures-guard _ invalid_model (λ z. absurd (ground arith))) λ _ _.
        Ensures-if (not r.mergeable)
          (λ away.
            let (d, x, n, s) = agrees.absent (ground arith) in
            let empty_yet = ap (λ (ys : List ℕ). length ys) (w.blank (ground arith)).0 in
            Ensures-bind (Ensures-guard _ invalid_model (λ z. absurd (ground arith)))
              λ _ _. Ensures-return _ (ok', hp, hq, λ z. absurd (ground arith)))
          (λ here.
            let there : r.mergeable ≡ true = ground arith in
            Ensures-bind
              (Ensures-guard _ invalid_model (λ z.
                absurd (elim (Bool-cases (r.merge_distance == 0)) [
                  | inl close ↦
                      let p = (agrees.ended there (ground arith)).0 in
                      elim w.expected [ inl x ↦ ground arith | inr x ↦ ground arith ]
                  | inr far ↦ elim w.expected [ inl x ↦ ground arith | inr x ↦ ground arith ]
                ])))
              λ _ _.
                Ensures-if (r.merge_distance == 0)
                  (λ close.
                    let (p, x, n, s) = agrees.ended there (ground arith) in
                    Ensures-bind (Ensures-guard _ invalid_model (λ z. absurd (ground arith)))
                      λ _ _. Ensures-return _ (ok', hp, hq, λ z. absurd (ground arith)))
                  (λ far.
                    Ensures-follow_witness left c (ok', hp, hq, waits) on there (ground arith)))

  Ensures-serve :
      (left : ℕ) (records : List PairRecord) (request : ℕ) (cs : List Candidate)
      → All (Follows a table (suc left)) cs
      → Answered a table records request (asked a.state_count cs)
      → Ensures (serve a merge records request cs) (All (Follows a table left)) E
  unfolding serve asked
  Ensures-serve left records request [] h k = Ensures-return [] tt
  Ensures-serve left records request (c ∷ cs) (h, hs) k =
      Ensures-if c.active
        (λ on.
          let ids = asked a.state_count cs in
          let pair = pair_index a.state_count c.first c.second in
          let k' : Answered a table records request (pair ∷ ids) =
            subst (λ b. Answered a table records request (if b then pair ∷ ids else ids)) on k in
          let own : current a table c ≡ get_or records request zero_record =
            subst (λ j. current a table c ≡ get_or records j zero_record)
              (let z : request + 0 ≡ request = omega arith in z) (sym (k' 0 (omega arith))) in
          let tail : Answered a table records (request + 1) ids = λ i l.
            subst (λ j. get_or records j zero_record ≡ table (get_or ids i 0))
              (let z : request + suc i ≡ request + 1 + i = omega arith in z)
              (k' (suc i) (omega arith)) in
          Ensures-bind
            (subst (λ r. Ensures (serve_one a merge r c) (Follows a table left) E) own
              (Ensures-serve_one left c h on))
            λ c' h'.
              Ensures-bind (Ensures-serve left records (request + 1) cs hs tail)
                λ rest hr. Ensures-return (c' ∷ rest) (h', hr))
        (λ off.
          let ids = asked a.state_count cs in
          let pair = pair_index a.state_count c.first c.second in
          let k' : Answered a table records request ids =
            subst (λ b. Answered a table records request (if b then pair ∷ ids else ids)) off k in
          Ensures-bind (Ensures-serve left records request cs hs k')
            λ rest hr. Ensures-return (c ∷ rest) ((h.0, h.1, h.2, λ z. absurd (ground arith)), hr))

  module _ (read : Reader)
      (reads : (ids : List ℕ)
        → All (λ k. k < pairs_of a.state_count) ids
        → Ensures (read ids) (λ rs. rs ≡ map table ids) E) where
    Ensures-load_rounds :
        (left : ℕ) (cs : List Candidate)
        → All (Follows a table left) cs
        → Ensures (load_rounds a read merge left cs) (All (CandidateOk a)) E
    unfolding load_rounds load_round
    Ensures-load_rounds zero cs h = Ensures-return cs (Follows-words a table zero cs h)
    Ensures-load_rounds (suc zero) cs h =
        rw (Follows-idle a table cs h) (Ensures-return cs (Follows-words a table 1 cs h))
    Ensures-load_rounds (suc (suc left)) cs h =
        Ensures-if (any_active cs)
          (λ _.
            Ensures-bind
              (Ensures-bind
                (reads (asked a.state_count cs) (asked_lt a table (suc (suc left)) cs h))
                λ records e. rw e (
                  Ensures-serve (suc left) (map table (asked a.state_count cs)) 0 cs h λ i l.
                    let z : 0 + i ≡ i = omega arith in
                    rw z (get_or-map table (asked a.state_count cs) i zero_record 0 l)))
              λ served hs. Ensures-load_rounds (suc left) served hs)
          (λ _. Ensures-return cs (Follows-words a table (suc (suc left)) cs h))

    candidates-Follows :
        (left : ℕ) (pairs : List (ℕ × ℕ))
        → pairs_of a.state_count < left
        → InPairs a.state_count pairs
        → All (Follows a table left) (candidates pairs)
    unfolding candidates
    candidates-Follows left [] l h = tt
    candidates-Follows left ((p, q) ∷ pairs) l ((hp, hq), h) = (
      (
        ((omega arith, omega arith), tt),
        hp,
        hq,
        λ _. record {
          expected = inl refl;
          blank = λ _. (refl, several);
          near = λ z. let d = (sound p q hp hq).bounded z in omega arith;
        },
      ),
      candidates-Follows left pairs l h,
    )
      where
        several : 1 < left
        several =
            let pos = v.states_pos in
            let one : 1 ≤ pairs_of a.state_count = grind arith in omega arith

    -- Witnesses that agree with the automaton are never refused.
    pub Ensures-sound_words_load :
        (pairs : List (ℕ × ℕ))
        → InPairs a.state_count pairs
        → Ensures (pair_words_load a read pairs merge) (All (CandidateOk a)) E
    unfolding pair_words_load planner_pair_count
    Ensures-sound_words_load pairs h =
        Ensures-bind {P = λ k. k ≡ pairs_of a.state_count}
          (Ensures-bind (Ensures-guard _ alloc (λ _. no_memory)) λ _ _.
            Ensures-bind (Ensures-size_bytes a.state_count (a.state_count + 1) (λ _. no_memory))
              λ product (e, _). Ensures-return _ (ap (λ k. k / 2) e))
          λ pair_count e. Ensures-bind (Ensures-request_all 7) λ _ _.
            Ensures-load_rounds (pair_count + 1) (candidates pairs)
              (candidates-Follows (pair_count + 1) pairs (omega arith) h)
