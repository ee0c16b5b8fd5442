-- ===== src/Allowed/Words.antt =====
-- sg_allowed_merge_word: a word over the allowed actions that merges two states, when there is one.
use mathlib.Core.List.{reverse-append, append_assoc, append-nil, reverse-reverse}
use sync_kgraph.Base.{
  ℕ, zero, suc, ◌+◌, ◌*◌, ◌/◌, ◌≤◌, ◌<◌, ◌≡◌, ◌≢◌, ◌⊎◌, ◌∙◌, refl, sym, ap, subst, inl, inr, true,
  arith, ltb, ltb→lt, ◌==◌, Bool-cases, reverse, List, [], ◌∷◌, ◌++◌, Option, none, some, length,
  length-append, length-set, length-replicate, get_or, get_or-set_self, get_or-set_ne,
  get_or-replicate, replicate, index_none, size_mod, Status, alloc, not_found, Ensures,
  Ensures-return, Ensures-fail, Ensures-mono, Ensures-if, Ensures-bind, Ensures-guard,
  Ensures-request_all, Ensures-size_bytes,
}
use sync_kgraph.Bitset.Members.{contains, InRange}
use sync_kgraph.Automaton.{Automaton, transition}
use sync_kgraph.Automaton.Laws.{IsValid, transition-lt}
use sync_kgraph.Word.{Word, Fits, Ensures-append, empty_word, reverse_actions}
use sync_kgraph.Word.Reverse.{length-reverse, reverse_actions-eq-reverse}
use sync_kgraph.Motion.Image.{run}
use sync_kgraph.Search.Nodes.{Over}
use sync_kgraph.Search.Frontier.{Letters}
use sync_kgraph.Search.Letters.{Letters-InRange}
use sync_kgraph.Sync.{pair_index, planner_pair_count}
use sync_kgraph.Oracle.Pairs.{
  triangle, triangle_double, half-eq-triangle, pair_index_bound, pair_index_comm,
}
use sync_kgraph.Allowed.{
  Walk, walk_start, walk_letters, unless_found, walk_rounds, collect_parents, spell,
  allowed_merge_word,
}
use sync_kgraph.Allowed.Reach.{
  pair_index_unordered, free-set, free-replicate, Visited, Visited-Kept, Trail, start, step, Inv,
}
use sync_kgraph.Allowed.Walks.{GoalOk, Looped, walk_letters-Looped}

module _ (a : Automaton) (v : IsValid a) (letters : List ℕ) (legal : Letters a letters) where
  run-lt : (q : ℕ) (w : List ℕ) → q < a.state_count → Over letters w → run a q w < a.state_count
  run-lt q [] h o = h
  run-lt q (c ∷ w) h (m, o) = run-lt (transition a q c) w (transition-lt a v q c h (legal c m)) o

  module _ (p q : ℕ) (hp : p < a.state_count) (hq : q < a.state_count) (differ : p ≢ q)
      (small : triangle a.state_count < index_none) where
    abbrev root : ℕ
    root = pair_index a.state_count p q

    root-lt : root < triangle a.state_count
    root-lt = pair_index_bound a.state_count p q hp hq

    abbrev Consistent : Walk → Type 0
    Consistent w = Inv a letters p q root (triangle a.state_count) w

    -- the pairs before the head have all their successors
    abbrev ClosedBelow : Walk → ℕ → Type 0
    ClosedBelow w head =
        (i c : ℕ)
        → i < head
        → contains letters c ≡ true
        → Visited w (
            pair_index a.state_count (transition a (get_or w.pair_first (get_or w.queue i 0) 0) c)
              (transition a (get_or w.pair_second (get_or w.queue i 0) 0) c))

    -- what the search leaves: a goal, or all that can be reached
    abbrev Ended : Walk × Option ℕ → Type 0
    Ended (w, none) = Consistent w × ClosedBelow w (length w.queue) × Visited w root
    Ended (w, some g) = GoalOk a v letters legal p q root small w g

    begin : Walk
    begin = walk_start (triangle a.state_count) p q root

    begin-Consistent : Consistent begin × Visited begin root × (length begin.queue ≡ 1)
    unfolding begin walk_start
    begin-Consistent =
        let P = triangle a.state_count in
        let l = root-lt in
        let lr : root < length (replicate P index_none) =
          omega (arith, length-replicate P index_none) in
        let blank : List ℕ = replicate P 0 in
        let full : length blank ≡ P = length-replicate P 0 in
        let lz : root < length blank = omega arith in
        let ep = get_or-set_self (replicate P index_none) root root index_none lr in
        let ef = get_or-set_self blank root p 0 lz in
        let es = get_or-set_self blank root q 0 lz in
        let seen : Visited begin root = λ e. omega arith in
        (
          record {
            parents = length-set (replicate P index_none) root root ∙ length-replicate P index_none;
            actions = length-replicate P index_none;
            firsts = length-set blank root p ∙ full;
            seconds = length-set blank root q ∙ full;
            room =
                let f =
                  free-set (replicate P index_none) root root lr
                    (get_or-replicate P root index_none) (λ e. omega arith) in
                omega (arith, free-replicate P);
            queued = λ t lt h. elim (Bool-cases (t == root)) [
              | inl here ↦ (0, omega arith, let e : root ≡ t = ground arith in e)
              | inr other ↦ absurd (
                  h (
                    get_or-set_ne (replicate P index_none) root t root index_none
                      (λ e. ground arith)
                    ∙ get_or-replicate P t index_none))
            ];
            explained = λ j lj.
                let z : j ≡ 0 = omega arith in
                rw z (record {
                  inside = l;
                  visited = seen;
                  word = [];
                  depth = 0;
                  near = omega arith;
                  over = tt;
                  trail = start seen;
                  first_end = ef;
                  second_end = es;
                  named = rw ef (rw es refl);
                });
            apart = λ j lj. let z : j ≡ 0 = omega arith in rw z (λ e. differ (sym ef ∙ e ∙ es));
          },
          seen,
          refl,
        )

    Ensures-walk_rounds :
        {E : Status → Type 0} (left head : ℕ) (w : Walk)
        → head + left ≡ triangle a.state_count
        → Consistent w
        → ClosedBelow w head
        → Visited w root
        → Ensures (walk_rounds a letters left head w) Ended E
    unfolding walk_rounds unless_found
    Ensures-walk_rounds zero head w e inv closed seen =
        let r = inv.room in
        Ensures-if (ltb head (length w.queue)) (λ more. absurd (ground arith))
          (λ done. Ensures-return _ (inv, (λ i c l m. closed i c (ground arith) m), seen))
    Ensures-walk_rounds {E} (suc left) head w e inv closed seen =
        Ensures-if (ltb head (length w.queue))
          (λ more.
            let l = ltb→lt head (length w.queue) more in
            let t = get_or w.queue head 0 in
            let x = inv.explained head l in
            let hl : get_or w.pair_first t 0 < a.state_count =
              subst (λ (s : ℕ). s < a.state_count) (sym x.first_end) (run-lt p x.word hp x.over) in
            let hr : get_or w.pair_second t 0 < a.state_count =
              subst (λ (s : ℕ). s < a.state_count) (sym x.second_end) (run-lt q x.word hq x.over) in
            next l (Ensures-walk_rounds left (head + 1))
              (walk_letters a t (get_or w.pair_first t 0) (get_or w.pair_second t 0) letters w)
              (walk_letters-Looped a v letters legal p q root small letters w head t
                (get_or w.pair_first t 0) (get_or w.pair_second t 0) (λ c m. m) inv l x refl refl hl
                hr))
          (λ done. Ensures-return _ (inv, (λ i c l m. closed i c (ground arith) m), seen))
      where
        next :
            (l : head < length w.queue)
            → ((u : Walk)
                → head + 1 + left ≡ triangle a.state_count
                → Consistent u
                → ClosedBelow u (head + 1)
                → Visited u root
                → Ensures (walk_rounds a letters left (head + 1) u) Ended E)
            → (r : Walk × Option ℕ)
            → Looped a v letters legal p q root small w
                (get_or w.pair_first (get_or w.queue head 0) 0)
                (get_or w.pair_second (get_or w.queue head 0) 0)
                letters
                r
            → Ensures (unless_found r (walk_rounds a letters left (head + 1))) Ended E
        next l go_on (w', some g) h = Ensures-return _ h
        next l go_on (w', none) (inv', k, successors) =
            go_on w' (omega arith) inv'
              (λ i c li m. elim (Bool-cases (i == head)) [
                | inl here ↦
                    later i c
                      (subst (λ (z : ℕ). Visited w' (after_entry z c))
                        (let z : head ≡ i = ground arith in z) (successors c m))
                      (ground arith)
                | inr other ↦
                    later i c (Visited-Kept w w' (after_entry i c) k (closed i c (ground arith) m))
                      (ground arith)
              ])
              (Visited-Kept w w' root k seen)
          where
            after_entry : ℕ → ℕ → ℕ
            after_entry i c =
                pair_index a.state_count
                  (transition a (get_or w.pair_first (get_or w.queue i 0) 0) c)
                  (transition a (get_or w.pair_second (get_or w.queue i 0) 0) c)

            later :
                (i c : ℕ)
                → Visited w' (
                    pair_index a.state_count
                      (transition a (get_or w.pair_first (get_or w.queue i 0) 0) c)
                      (transition a (get_or w.pair_second (get_or w.queue i 0) 0) c))
                → i < length w.queue
                → Visited w' (
                    pair_index a.state_count
                      (transition a (get_or w'.pair_first (get_or w'.queue i 0) 0) c)
                      (transition a (get_or w'.pair_second (get_or w'.queue i 0) 0) c))
            later i c h l =
                let (_, _, f, s) = k.cells (get_or w.queue i 0) (inv.explained i l).visited in
                rw (k.entries i l) (rw f (rw s h))

    -- A pair that was reached stands in the queue, in one order or the other.
    entry_of :
        (w : Walk) (x y : ℕ)
        → Consistent w
        → x < a.state_count
        → y < a.state_count
        → Visited w (pair_index a.state_count x y)
        → (j : ℕ) × (j < length w.queue)
          × (((get_or w.pair_first (get_or w.queue j 0) 0 ≡ x)
                × (get_or w.pair_second (get_or w.queue j 0) 0 ≡ y))
              ⊎ ((get_or w.pair_first (get_or w.queue j 0) 0 ≡ y)
                  × (get_or w.pair_second (get_or w.queue j 0) 0 ≡ x)))
    entry_of w x y inv hx hy seen =
        let n = a.state_count in
        let (j, lj, ej) = inv.queued (pair_index n x y) (pair_index_bound n x y hx hy) seen in
        let e = inv.explained j lj in
        let t = get_or w.queue j 0 in
        (
          j,
          lj,
          pair_index_unordered n (get_or w.pair_first t 0) (get_or w.pair_second t 0) x y
              (subst (λ (s : ℕ). s < n) (sym e.first_end) (run-lt p e.word hp e.over))
              (subst (λ (s : ℕ). s < n) (sym e.second_end) (run-lt q e.word hq e.over)) hx hy
              (e.named ∙ ej),
        )

    -- When the search ends without a goal no word over the letters merges two states that it reached.
    never_merged :
        (w : Walk) (u : List ℕ) (x y : ℕ)
        → Consistent w
        → ClosedBelow w (length w.queue)
        → Over letters u
        → x < a.state_count
        → y < a.state_count
        → Visited w (pair_index a.state_count x y)
        → run a x u ≢ run a y u
    never_merged w [] x y inv closed over hx hy seen = λ merged.
        let (j, lj, orders) = entry_of w x y inv hx hy seen in
        let apart = inv.apart j lj in
        elim orders [
          | inl (f, s) ↦ apart (f ∙ merged ∙ sym s)
          | inr (f, s) ↦ apart (f ∙ sym merged ∙ sym s)
        ]
    never_merged w (c ∷ u) x y inv closed (m, over) hx hy seen =
        let n = a.state_count in
        let (j, lj, orders) = entry_of w x y inv hx hy seen in
        let after = closed j c lj m in
        never_merged w u (transition a x c) (transition a y c) inv closed over
          (transition-lt a v x c hx (legal c m)) (transition-lt a v y c hy (legal c m))
          (elim orders [
            | inl (f, s) ↦
                subst (Visited w)
                  (ap
                      (λ (i : ℕ).
                        pair_index n (transition a i c)
                          (transition a (get_or w.pair_second (get_or w.queue j 0) 0) c))
                      f
                    ∙ ap (λ (i : ℕ). pair_index n (transition a x c) (transition a i c)) s)
                  after
            | inr (f, s) ↦
                subst (Visited w)
                  (ap
                      (λ (i : ℕ).
                        pair_index n (transition a i c)
                          (transition a (get_or w.pair_second (get_or w.queue j 0) 0) c))
                      f
                    ∙ ap (λ (i : ℕ). pair_index n (transition a y c) (transition a i c)) s
                    ∙ pair_index_comm n (transition a y c) (transition a x c))
                  after
          ])

-- The walk to the root ends, and collects the word backwards.
Ensures-collect_parents :
    {E : Status → Type 0} (w : Walk) (root fuel d t : ℕ) (u : List ℕ) (word : Word)
    → (size_mod ≤ 16 * length w.queue → E alloc)
    → Trail w root t d u
    → d < fuel
    → length word.actions + d ≤ length w.queue
    → Fits word
    → Ensures
        (collect_parents fuel w root t word)
        (λ z. (z.actions ≡ word.actions ++ reverse u) × Fits z)
        E
unfolding collect_parents
Ensures-collect_parents w root zero d t u word allow trail l few f = absurd (omega arith)
Ensures-collect_parents w root (suc fuel) d t u word allow (start h) l few f =
    Ensures-if (root == root) (λ _. Ensures-return _ (sym (append-nil word.actions), f))
      (λ other. absurd (ground arith))
Ensures-collect_parents w root (suc fuel) (suc d) t u word allow (step {u = u'} ne h rest e) l few
      f =
    Ensures-if (t == root) (λ here. absurd (ne (ground arith)))
      (λ _.
        Ensures-bind
          (Ensures-append word (get_or w.parent_action t index_none) (λ large. allow (omega arith))
            f)
          λ z (ze, zf).
            Ensures-mono (λ y (ye, yf). (ye ∙ regroup z ze, yf)) (λ _ y. y)
              (Ensures-collect_parents w root fuel d (get_or w.parent t index_none) u' z allow rest
                (omega arith)
                (omega (
                  arith,
                  ap length ze,
                  length-append word.actions (get_or w.parent_action t index_none ∷ []),
                ))
                zf))
  where
    regroup :
        (z : Word)
        → z.actions ≡ word.actions ++ (get_or w.parent_action t index_none ∷ [])
        → z.actions ++ reverse u' ≡ word.actions ++ reverse u
    regroup z ze =
        rw (ze, e, reverse-append u' (get_or w.parent_action t index_none ∷ []))
          (append_assoc word.actions (get_or w.parent_action t index_none ∷ []) (reverse u'))

-- the arrays of the search, or the word, do not fit into memory
abbrev pub PairsTooLarge : Automaton → Type 0
PairsTooLarge a = size_mod ≤ 8 * (a.state_count * (a.state_count + 1))

-- a word over the letters that merges two states, within the number of pairs
abbrev pub MergesOver : Automaton → List ℕ → ℕ → ℕ → Word → Type 0
MergesOver a letters p q w =
    Fits w × Over letters w.actions × (run a p w.actions ≡ run a q w.actions)

-- why there is none: no word over the letters merges the states, or memory does not suffice
abbrev pub NoMerge : Automaton → List ℕ → ℕ → ℕ → Status → Type 0
NoMerge a letters p q e =
    ((e ≡ not_found) × ((u : List ℕ) → Over letters u → run a p u ≢ run a q u))
    ⊎ ((e ≡ alloc) × PairsTooLarge a)

-- sg_allowed_merge_word of two states of a valid automaton ends: it gives a word over the allowed
-- actions that merges them, or NOT_FOUND, when no word over the allowed actions does. It fails
-- otherwise only when memory does not suffice for a cell for each pair.
pub allowed_merge_word_merges :
    (a : Automaton) (p q : ℕ) (letters : List ℕ)
    → IsValid a
    → InRange a.action_count letters
    → p < a.state_count
    → q < a.state_count
    → Ensures (allowed_merge_word a p q letters) (MergesOver a letters p q) (NoMerge a letters p q)
unfolding allowed_merge_word planner_pair_count spell begin
allowed_merge_word_merges a p q letters v known hp hq =
    let n = a.state_count in
    let legal = Letters-InRange a letters known in
    let double = triangle_double n in
    let states = v.states_small in
    Ensures-if (p == q) (λ same. Ensures-return _ ((omega arith, omega arith), tt, (ground arith)))
      (λ other.
        let differ : p ≢ q = λ e. ground arith in
        Ensures-bind {P = λ k. k ≡ triangle n}
          (Ensures-bind (Ensures-guard _ alloc (λ none_set. absurd (ground arith))) λ _ _.
            Ensures-bind (Ensures-size_bytes n (n + 1) (λ large. inr (refl, omega arith)))
              λ product (e, _). Ensures-return _ (ap (λ (k : ℕ). k / 2) e ∙ half-eq-triangle n))
          λ k e. rw e (
            Ensures-bind (Ensures-size_bytes (triangle n) 8 (λ large. inr (refl, omega arith)))
              λ bytes (_, fits).
                let small : triangle n < index_none = omega arith in
                let (inv, seen, one) = begin-Consistent a v letters legal p q hp hq differ small in
                Ensures-bind (Ensures-request_all 5) λ _ _.
                  Ensures-bind
                    (Ensures-walk_rounds a v letters legal p q hp hq differ small (triangle n) 0
                      (walk_start (triangle n) p q (pair_index n p q)) (omega arith) inv
                      (λ i c l. absurd (omega arith)) seen)
                    λ r ended. spelled legal differ small r ended))
  where
    spelled :
        (legal : Letters a letters) (differ : p ≢ q) (small : triangle a.state_count < index_none)
        (r : Walk × Option ℕ)
        → Ended a v letters legal p q hp hq differ small r
        → Ensures
            (spell (pair_index a.state_count p q) r)
            (MergesOver a letters p q)
            (NoMerge a letters p q)
    spelled legal differ small (w, none) (inv, closed, seen) = Ensures-fail not_found (
        inl (
          refl,
          λ u over.
              never_merged a v letters legal p q hp hq differ small w u p q inv closed over hp hq
                seen,
        ))
    spelled legal differ small (w, some g) (b, lb, lq, x, equal) =
        let double = triangle_double a.state_count in
        Ensures-bind
          (Ensures-collect_parents w (pair_index a.state_count p q) (length w.queue) x.depth g
            x.word empty_word (λ large. inr (refl, omega arith)) x.trail (omega (arith, x.near))
            (omega (arith, x.near)) (omega arith, omega arith))
          λ all (e, f).
            let reversed = ap (λ (z : Word). z.actions) (reverse_actions-eq-reverse all) in
            let is_word : (reverse_actions all).actions ≡ x.word =
              reversed ∙ ap reverse e ∙ reverse-reverse x.word in
            Ensures-return _ (
              rw (reverse_actions-eq-reverse all) (omega (arith, length-reverse all.actions, f)),
              subst (Over letters) (sym is_word) x.over,
              rw is_word (sym x.first_end ∙ equal ∙ x.second_end),
            )
