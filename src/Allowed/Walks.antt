-- ===== src/Allowed/Walks.antt =====
-- The loops of the search of sg_allowed_merge_word: they end, with a goal or with all that can be
-- reached.
use sync_kgraph.Base.{
  ℕ, suc, ◌+◌, ◌≤◌, ◌<◌, ◌≡◌, ◌≢◌, ◌∙◌, refl, sym, ap, subst, inl, inr, true, not, arith, ltb,
  ltb→lt, ◌==◌, Bool-cases, if-cases, List, [], ◌∷◌, ◌++◌, All-append, Option, none, some, length,
  length-append, length-set, get_or, get_or-set_self, get_or-set_ne, get_or-append_left,
  get_or-append_last, index_none,
}
use sync_kgraph.Bitset.Members.{contains}
use sync_kgraph.Automaton.{Automaton, transition}
use sync_kgraph.Automaton.Laws.{IsValid, transition-lt}
use sync_kgraph.Motion.Image.{run}
use sync_kgraph.Search.Frontier.{Letters}
use sync_kgraph.Sync.{pair_index}
use sync_kgraph.Oracle.Pairs.{triangle, pair_index_bound}
use sync_kgraph.Allowed.{Walk, reach, walk_letters}
use sync_kgraph.Allowed.Reach.{
  run-append, free-set, Visited, Kept, Kept-refl, Kept-trans, Visited-Kept, Trail, start, step,
  Trail-Kept, Explained, Explained-Kept, Inv,
}

module _ (a : Automaton) (v : IsValid a) (letters : List ℕ) (legal : Letters a letters)
    (p q root : ℕ) (small : triangle a.state_count < index_none) where
  abbrev pairs : ℕ
  pairs = triangle a.state_count

  abbrev pub IsReached : Walk → ℕ → ℕ → Type 0
  IsReached w bound t = Explained a letters p q root pairs w bound t

  -- the loops end at a goal: a pair of one state
  abbrev pub GoalOk : Walk → ℕ → Type 0
  GoalOk w g =
      (b : ℕ) × (b < length w.queue)
      × (length w.queue ≤ pairs)
      × IsReached w b g
      × (get_or w.pair_first g 0 ≡ get_or w.pair_second g 0)

  module _ (w : Walk) (inv : Inv a letters p q root pairs w) (j : ℕ) (hj : j < length w.queue)
      (current : ℕ) (x : IsReached w j current) (c : ℕ) (hc : contains letters c ≡ true)
      (next_left next_right : ℕ) (el : next_left ≡ transition a (run a p x.word) c)
      (er : next_right ≡ transition a (run a q x.word) c)
      (new : get_or w.parent (pair_index a.state_count next_left next_right) index_none
        ≡ index_none)
      (hl : next_left < a.state_count) (hr : next_right < a.state_count) where
    abbrev target : ℕ
    target = pair_index a.state_count next_left next_right

    abbrev reached : Walk
    reached = reach (current) c next_left next_right target w

    target-lt : target < pairs
    target-lt = pair_index_bound a.state_count next_left next_right hl hr

    reached-Kept : Kept w reached
    unfolding reach
    reached-Kept =
        let apart : (t : ℕ) → Visited w t → target ≢ t =
          λ t h e. h (sym (ap (λ i. get_or w.parent i index_none) e) ∙ new) in
        record {
          longer = omega (arith, length-append w.queue (target ∷ []));
          entries = λ i l. get_or-append_left w.queue (target ∷ []) i 0 l;
          cells = λ t h. (
            get_or-set_ne w.parent target t (current) index_none (apart t h),
            get_or-set_ne w.parent_action target t c index_none (apart t h),
            get_or-set_ne w.pair_first target t next_left 0 (apart t h),
            get_or-set_ne w.pair_second target t next_right 0 (apart t h),
          );
        }

    reached_cells :
        (get_or reached.parent target index_none ≡ current)
        × (get_or reached.parent_action target index_none ≡ c)
        × (get_or reached.pair_first target 0 ≡ next_left)
        × (get_or reached.pair_second target 0 ≡ next_right)
    unfolding reach
    reached_cells = (
      get_or-set_self w.parent target (current) index_none (omega (arith, target-lt, inv.parents)),
      get_or-set_self w.parent_action target c index_none (omega (arith, target-lt, inv.actions)),
      get_or-set_self w.pair_first target next_left 0 (omega (arith, target-lt, inv.firsts)),
      get_or-set_self w.pair_second target next_right 0 (omega (arith, target-lt, inv.seconds)),
    )

    reached-Visited : Visited reached target
    reached-Visited e = let s = reached_cells.0 in let l = x.inside in omega arith

    -- The root was visited at the start.
    Visited-root : {t d : ℕ} {u : List ℕ} → Trail w root t d u → Visited w root
    Visited-root (start h) = h
    Visited-root (step ne h rest e) = Visited-root rest

    reached-Explained : IsReached reached (length w.queue) target
    reached-Explained =
        let (ep, ea, ef, es) = reached_cells in
        let k = reached-Kept in
        let apart : target ≢ root =
          λ e. Visited-root x.trail (sym (ap (λ i. get_or w.parent i index_none) e) ∙ new) in
        record {
          inside = target-lt;
          visited = reached-Visited;
          word = x.word ++ (c ∷ []);
          depth = suc x.depth;
          near = omega (arith, x.near);
          over = All-append (λ l. contains letters l ≡ true) x.word (c ∷ []) x.over (hc, tt);
          trail =
              step apart reached-Visited
                (subst (λ i. Trail reached root i x.depth x.word) (sym ep)
                  (Trail-Kept w reached root k x.trail))
                (ap (λ l. x.word ++ (l ∷ [])) (sym ea));
          first_end = ef ∙ el ∙ sym (run-append a p x.word (c ∷ []));
          second_end = es ∙ er ∙ sym (run-append a q x.word (c ∷ []));
          named = rw ef (rw es refl);
        }

    last_entry : get_or reached.queue (length w.queue) 0 ≡ target
    unfolding reach
    last_entry = get_or-append_last w.queue target 0

    longer : length reached.queue ≡ length w.queue + 1
    unfolding reach
    longer = length-append w.queue (target ∷ [])

    reached-Inv : next_left ≢ next_right → Inv a letters p q root pairs reached
    unfolding reach
    reached-Inv ne =
        let k = reached-Kept in
        record {
          parents = length-set w.parent target (current) ∙ inv.parents;
          actions = length-set w.parent_action target c ∙ inv.actions;
          firsts = length-set w.pair_first target next_left ∙ inv.firsts;
          seconds = length-set w.pair_second target next_right ∙ inv.seconds;
          room =
              let f =
                free-set w.parent target (current) (omega (arith, target-lt, inv.parents)) new
                  (λ e. let l = x.inside in omega arith) in
              omega (arith, longer, inv.room);
          queued = λ t l h. elim (Bool-cases (t == target)) [
            | inl here ↦ (length w.queue, omega (arith, longer), last_entry ∙ (ground arith))
            | inr other ↦
                let ne' : target ≢ t = λ e. ground arith in
                let (i, li, ei) =
                  inv.queued t l
                    (λ e. h (get_or-set_ne w.parent target t (current) index_none ne' ∙ e)) in
                (i, omega (arith, longer), k.entries i li ∙ ei)
          ];
          explained = λ i l. elim (Bool-cases (ltb i (length w.queue))) [
            | inl old ↦
                let li = ltb→lt i (length w.queue) old in
                subst (IsReached reached i) (sym (k.entries i li)) (
                  Explained-Kept a letters p q root pairs w reached i (get_or w.queue i 0) k
                    (inv.explained i li))
            | inr last ↦
                let e : i ≡ length w.queue = let z = longer in ground arith in
                subst (λ (n : ℕ). IsReached reached n (get_or reached.queue n 0)) (sym e)
                  (subst (IsReached reached (length w.queue)) (sym last_entry) reached-Explained)
          ];
          apart = λ i l. elim (Bool-cases (ltb i (length w.queue))) [
            | inl old ↦
                let li = ltb→lt i (length w.queue) old in
                let y = inv.explained i li in
                let (_, _, f, s) = k.cells (get_or w.queue i 0) y.visited in
                rw (k.entries i li) (λ e. inv.apart i li (sym f ∙ e ∙ s))
            | inr last ↦
                let e : i ≡ length w.queue = let z = longer in ground arith in
                rw e (rw last_entry (λ z. ne (sym reached_cells.2 ∙ z ∙ reached_cells.3)))
          ];
        }

  -- the successor of a pair of states
  abbrev pub after : ℕ → ℕ → ℕ → ℕ
  after left right c = pair_index a.state_count (transition a left c) (transition a right c)

  -- what a loop over letters leaves
  abbrev pub Looped : Walk → ℕ → ℕ → List ℕ → Walk × Option ℕ → Type 0
  Looped w left right ls (w', none) =
      Inv a letters p q root pairs w'
      × Kept w w'
      × ((c : ℕ) → contains ls c ≡ true → Visited w' (after left right c))
  Looped w left right ls (w', some g) = GoalOk w' g

  -- A letter before the others.
  Looped-cons :
      (w u : Walk) (left right c : ℕ) (ls : List ℕ) (r : Walk × Option ℕ)
      → Kept w u
      → Visited u (after left right c)
      → Looped u left right ls r
      → Looped w left right (c ∷ ls) r
  Looped-cons w u left right c ls (w', some g) k h r = r
  Looped-cons w u left right c ls (w', none) k h (inv, k', rest) = (
    inv,
    Kept-trans w u w' k k',
    λ d m. elim (Bool-cases (d == c)) [
      | inl here ↦
          let e : d ≡ c = ground arith in rw e (Visited-Kept u w' (after left right c) k' h)
      | inr other ↦ rest d (ground arith)
    ],
  )

  pub walk_letters-Looped :
      (ls : List ℕ) (w : Walk) (j current left right : ℕ)
      → ((c : ℕ) → contains ls c ≡ true → contains letters c ≡ true)
      → Inv a letters p q root pairs w
      → j < length w.queue
      → IsReached w j current
      → get_or w.pair_first current 0 ≡ left
      → get_or w.pair_second current 0 ≡ right
      → left < a.state_count
      → right < a.state_count
      → Looped w left right ls (walk_letters a current left right ls w)
  unfolding walk_letters
  walk_letters-Looped [] w j current left right sub inv hj x el er hl hr =
      (inv, Kept-refl w, λ c m. cc)
  walk_letters-Looped (c ∷ ls) w j current left right sub inv hj x el er hl hr =
      let hc : contains letters c ≡ true = sub c (ground arith) in
      let sub' : (d : ℕ) → contains ls d ≡ true → contains letters d ≡ true =
        λ d m. sub d (ground arith) in
      let next_left = transition a left c in
      let next_right = transition a right c in
      let t = after left right c in
      let hl' = transition-lt a v left c hl (legal c hc) in
      let hr' = transition-lt a v right c hr (legal c hc) in
      if-cases (Looped w left right (c ∷ ls)) (not (get_or w.parent t index_none == index_none))
        (λ seen.
          Looped-cons w w left right c ls (walk_letters a current left right ls w) (Kept-refl w)
            (λ e. ground arith)
            (walk_letters-Looped ls w j current left right sub' inv hj x el er hl hr))
        (λ unseen.
          let new : get_or w.parent t index_none ≡ index_none = ground arith in
          let fl = ap (λ s. transition a s c) (sym el ∙ x.first_end) in
          let fr = ap (λ s. transition a s c) (sym er ∙ x.second_end) in
          let u = reached w inv j hj current x c hc next_left next_right fl fr new hl' hr' in
          let k = reached-Kept w inv j hj current x c hc next_left next_right fl fr new hl' hr' in
          let cells =
            reached_cells w inv j hj current x c hc next_left next_right fl fr new hl' hr' in
          let grown = longer w inv j hj current x c hc next_left next_right fl fr new hl' hr' in
          let own =
            reached-Explained w inv j hj current x c hc next_left next_right fl fr new hl' hr' in
          if-cases (Looped w left right (c ∷ ls)) (next_left == next_right)
            (λ goal. (
              length w.queue,
              omega (arith, grown),
              let f =
                    free-set w.parent t current
                      (omega (
                        arith,
                        pair_index_bound a.state_count next_left next_right hl' hr',
                        inv.parents,
                      ))
                      new (λ e. let b = x.inside in omega arith) in
                  omega (arith, grown, inv.room),
              own,
              cells.2 ∙ (ground arith) ∙ sym cells.3,
            ))
            (λ onward.
              let (_, _, kf, ks) = k.cells current x.visited in
              Looped-cons w u left right c ls (walk_letters a current left right ls u) k
                (reached-Visited w inv j hj current x c hc next_left next_right fl fr new hl' hr')
                (walk_letters-Looped ls u j current left right sub'
                  (reached-Inv w inv j hj current x c hc next_left next_right fl fr new hl' hr'
                    (λ e. ground arith))
                  (omega (arith, grown)) (Explained-Kept a letters p q root pairs w u j current k x)
                  (kf ∙ el) (ks ∙ er) hl hr)))
