-- ===== src/Sync/Load.antt =====
-- sg_pair_words_load: whatever the record source answers, every witness is a word of actions.
use sync_kgraph.Base.{
  ℕ, zero, suc, ◌+◌, ◌<◌, sym, subst, inl, inr, not, ◌&&◌, List, [], ◌∷◌, arith, ltb, ◌==◌,
  Bool-cases, get_or, All, All-append, index_none, Status, alloc, invalid_model, Memory, Result,
  Post, good, bad, refused, Ensures, Ensures-return, Ensures-bind, Ensures-if, Ensures-guard,
  Ensures-request_all, Ensures-size_bytes,
}
use sync_kgraph.Automaton.{Automaton}
use sync_kgraph.Automaton.Laws.{IsValid}
use sync_kgraph.Word.{Word, Fits, Ensures-append}
use sync_kgraph.Motion.Image.{Actions}
use sync_kgraph.Sync.{
  Reader, Kind, Candidate, PairRecord, Witness, select, planner_pair_count, end_witness, no_witness,
  follow_witness, is_resolution, serve_one, zero_record, serve, any_active, asked, load_round,
  last_status, load_rounds, candidates, pair_words_load,
}

-- a word of actions in an array that is large enough
abbrev pub WordOk : Automaton → Word → Type 0
WordOk a w = Fits w × Actions a w.actions

abbrev pub CandidateOk : Automaton → Candidate → Type 0
CandidateOk a c = WordOk a c.word

module _ (a : Automaton) (v : IsValid a) (read : Reader) {E : Status → Type 0} (no_memory : E alloc)
    (no_model : E invalid_model)
    (reads : (ids : List ℕ) → Ensures (read ids) (λ _. Unit {0}) E) where
  Ensures-follow_witness :
      (kind : Kind) (w : Witness) (c : Candidate)
      → CandidateOk a c
      → Ensures (follow_witness a kind w c) (CandidateOk a) E
  unfolding follow_witness
  Ensures-follow_witness kind w c (fits, acts) =
      Ensures-bind
        (Ensures-guard (ltb w.action a.action_count && not (w.supports == 0)) invalid_model
          (λ _. no_model))
        λ _ known.
          Ensures-bind (Ensures-append c.word w.action (λ _. no_memory) fits) λ word (e, fits').
            let acts' : Actions a word.actions = subst (Actions a) (sym e) (
              All-append (λ x. x < a.action_count) c.word.actions (w.action ∷ []) acts
                (ground arith, tt)) in
            Ensures-if (is_resolution kind && w.next == index_none)
              (λ _.
                Ensures-bind (Ensures-guard _ invalid_model (λ _. no_model))
                  λ _ _. Ensures-return _ (fits', acts'))
              (λ _.
                Ensures-bind (Ensures-guard _ invalid_model (λ _. no_model))
                  λ _ _. Ensures-return _ (fits', acts'))

  Ensures-serve_one :
      (kind : Kind) (r : PairRecord) (c : Candidate)
      → CandidateOk a c
      → Ensures (serve_one a kind r c) (CandidateOk a) E
  unfolding serve_one end_witness no_witness
  Ensures-serve_one kind r c ok' =
      Ensures-bind (Ensures-guard _ invalid_model (λ _. no_model)) λ _ _.
        Ensures-if (not (select kind r).reachable)
          (λ _.
            Ensures-bind (Ensures-guard _ invalid_model (λ _. no_model))
              λ _ _. Ensures-return _ ok')
          (λ _. Ensures-bind (Ensures-guard _ invalid_model (λ _. no_model)) λ _ _.
            Ensures-if ((select kind r).distance == 0)
              (λ _.
                Ensures-bind (Ensures-guard _ invalid_model (λ _. no_model))
                  λ _ _. Ensures-return _ ok')
              (λ _. Ensures-follow_witness kind (select kind r) c ok'))

  Ensures-serve :
      (kind : Kind) (records : List PairRecord) (request : ℕ) (cs : List Candidate)
      → All (CandidateOk a) cs
      → Ensures (serve a kind records request cs) (All (CandidateOk a)) E
  unfolding serve
  Ensures-serve kind records request [] h = Ensures-return [] tt
  Ensures-serve kind records request (c ∷ cs) h =
      Ensures-if c.active
        (λ _.
          Ensures-bind (Ensures-serve_one kind (get_or records request zero_record) c h.0) λ c' x.
            Ensures-bind (Ensures-serve kind records (request + 1) cs h.1)
              λ rest xs. Ensures-return (c' ∷ rest) (x, xs))
        (λ _.
          Ensures-bind (Ensures-serve kind records request cs h.1)
            λ rest xs. Ensures-return (c ∷ rest) (h.0, xs))

  Ensures-load_round :
      (kind : Kind) (cs : List Candidate)
      → All (CandidateOk a) cs
      → Ensures (load_round a read kind cs) (All (CandidateOk a)) E
  unfolding load_round
  Ensures-load_round kind cs h =
      Ensures-bind (reads (asked a.state_count cs)) λ records _. Ensures-serve kind records 0 cs h

  last_status-Post :
      {h : Memory} {r : Result (List Candidate) × Memory}
      → Post (All (CandidateOk a)) E h r
      → Post (All (CandidateOk a)) E h (last_status any_active r)
  unfolding last_status
  last_status-Post (good {a = cs} p later) = elim (Bool-cases (any_active cs)) [
    | inl some_left ↦ rw some_left (bad no_model later)
    | inr none_left ↦ rw none_left (good p later)
  ]
  last_status-Post (bad e k) = bad no_model k
  last_status-Post (refused r) = bad no_model (λ _. r)

  Ensures-load_rounds :
      (kind : Kind) (left : ℕ) (cs : List Candidate)
      → All (CandidateOk a) cs
      → Ensures (load_rounds a read kind left cs) (All (CandidateOk a)) E
  unfolding load_rounds
  Ensures-load_rounds kind zero cs h = Ensures-return cs h
  Ensures-load_rounds kind (suc zero) cs h =
      Ensures-if (any_active cs)
        (λ _. record { run = λ mem. last_status-Post ((Ensures-load_round kind cs h).run mem) })
        (λ _. Ensures-return cs h)
  Ensures-load_rounds kind (suc (suc left)) cs h =
      Ensures-if (any_active cs)
        (λ _.
          Ensures-bind (Ensures-load_round kind cs h)
            λ served hs. Ensures-load_rounds kind (suc left) served hs)
        (λ _. Ensures-return cs h)

  candidates-CandidateOk : (pairs : List (ℕ × ℕ)) → All (CandidateOk a) (candidates pairs)
  unfolding candidates
  candidates-CandidateOk [] = tt
  candidates-CandidateOk ((p, q) ∷ pairs) =
      (((omega arith, omega arith), tt), candidates-CandidateOk pairs)

  -- the witnesses are words of actions
  pub Ensures-pair_words_load :
      (pairs : List (ℕ × ℕ)) (kind : Kind)
      → Ensures (pair_words_load a read pairs kind) (All (CandidateOk a)) E
  unfolding pair_words_load planner_pair_count
  Ensures-pair_words_load pairs kind =
      Ensures-bind
        (Ensures-bind (Ensures-guard _ alloc (λ _. no_memory)) λ _ _.
          Ensures-bind (Ensures-size_bytes a.state_count (a.state_count + 1) (λ _. no_memory))
            λ product _. Ensures-return {P = λ _. Unit {0}} _ tt)
        λ pair_count _. Ensures-bind (Ensures-request_all 7) λ _ _.
          Ensures-load_rounds kind (pair_count + 1) (candidates pairs)
            (candidates-CandidateOk pairs)
