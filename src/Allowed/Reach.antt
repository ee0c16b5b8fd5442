-- ===== src/Allowed/Reach.antt =====
-- The pairs that the search of sg_allowed_merge_word has reached: each has a word from the root over the
-- letters, along the parents.
use sync_kgraph.Base.{
  ℕ, zero, suc, ◌+◌, ◌≤◌, ◌<◌, ◌≡◌, ◌≢◌, ◌⊎◌, ◌∙◌, refl, sym, ap, subst, inl, inr, arith, ltb, ◌==◌,
  Bool-cases, if◌then◌else◌, List, [], ◌∷◌, ◌++◌, length, get_or, set, replicate, index_none,
}
use sync_kgraph.Automaton.{Automaton, transition}
use sync_kgraph.Motion.Image.{run}
use sync_kgraph.Search.Nodes.{Over}
use sync_kgraph.Sync.{pair_index}
use sync_kgraph.Oracle.Pairs.{pair_index_comm, pair_index_injective}
use sync_kgraph.Allowed.{Walk}

pub run-append : (a : Automaton) (q : ℕ) (w u : List ℕ) → run a q (w ++ u) ≡ run a (run a q w) u
run-append a q [] u = refl
run-append a q (c ∷ w) u = run-append a (transition a q c) w u

-- Equal numbers are of the same two states, in one order or the other.
pub pair_index_unordered :
    (n p q x y : ℕ)
    → p < n
    → q < n
    → x < n
    → y < n
    → pair_index n p q ≡ pair_index n x y
    → ((p ≡ x) × (q ≡ y)) ⊎ ((p ≡ y) × (q ≡ x))
pair_index_unordered n p q x y hp hq hx hy e = elim (Bool-cases (ltb q p)) [
  | inl swapped ↦ elim (Bool-cases (ltb y x)) [
    | inl both ↦
        let (s, t) =
          pair_index_injective n q p y x (ground arith) hp (ground arith) hx
            (pair_index_comm n q p ∙ e ∙ pair_index_comm n x y) in
        inl (t, s)
    | inr one ↦
        let (s, t) =
          pair_index_injective n q p x y (ground arith) hp (ground arith) hy
            (pair_index_comm n q p ∙ e) in
        inr (t, s)
  ]
  | inr ordered ↦ elim (Bool-cases (ltb y x)) [
    | inl one ↦
        let (s, t) =
          pair_index_injective n p q y x (ground arith) hq (ground arith) hx
            (e ∙ pair_index_comm n x y) in
        inr (s, t)
    | inr none_swapped ↦
        let (s, t) = pair_index_injective n p q x y (ground arith) hq (ground arith) hy e in
        inl (s, t)
  ]
]

-- how many cells are not set
abbrev pub free : List ℕ → ℕ
free [] = 0
free (x ∷ xs) = (if x == index_none then 1 else 0) + free xs

pub free-set :
    (xs : List ℕ) (i v : ℕ)
    → i < length xs
    → get_or xs i index_none ≡ index_none
    → v ≢ index_none
    → free (set xs i v) + 1 ≡ free xs
free-set [] i v l e ne = absurd (omega arith)
free-set (x ∷ xs) zero v l e ne = ground arith
free-set (x ∷ xs) (suc i) v l e ne = let ih = free-set xs i v (omega arith) e ne in omega arith

pub free-replicate : (n : ℕ) → free (replicate n index_none) ≡ n
free-replicate zero = refl
free-replicate (suc n) = let ih = free-replicate n in ground arith

abbrev pub Visited : Walk → ℕ → Type 0
Visited w t = get_or w.parent t index_none ≢ index_none

-- the cells of a pair
abbrev SameCells : Walk → Walk → ℕ → Type 0
SameCells w w' t =
    (get_or w'.parent t index_none ≡ get_or w.parent t index_none)
    × (get_or w'.parent_action t index_none ≡ get_or w.parent_action t index_none)
    × (get_or w'.pair_first t 0 ≡ get_or w.pair_first t 0)
    × (get_or w'.pair_second t 0 ≡ get_or w.pair_second t 0)

-- nothing that was reached is lost
pub record Kept (w w' : Walk) : Type 0 where
  pub longer : length w.queue ≤ length w'.queue
  pub entries : (j : ℕ) → j < length w.queue → get_or w'.queue j 0 ≡ get_or w.queue j 0
  pub cells : (t : ℕ) → Visited w t → SameCells w w' t

pub Kept-refl : (w : Walk) → Kept w w
Kept-refl w = record {
  longer = omega arith;
  entries = λ j l. refl;
  cells = λ t h. (refl, refl, refl, refl);
}

pub Visited-Kept : (w w' : Walk) (t : ℕ) → Kept w w' → Visited w t → Visited w' t
Visited-Kept w w' t k h = λ e. h (sym (k.cells t h).0 ∙ e)

pub Kept-trans : (w u x : Walk) → Kept w u → Kept u x → Kept w x
Kept-trans w u x k l = record {
  longer = omega (arith, k.longer, l.longer);
  entries = λ j h. l.entries j (omega (arith, k.longer)) ∙ k.entries j h;
  cells = λ t h.
      let (a, b, c, d) = k.cells t h in
      let (a', b', c', d') = l.cells t (Visited-Kept w u t k h) in (a' ∙ a, b' ∙ b, c' ∙ c, d' ∙ d);
}

-- the parents lead from a pair to the root, and spell the word
pub data Trail (w : Walk) (root : ℕ) : ℕ → ℕ → List ℕ → Type 0 where
  start : Visited w root → Trail w root root 0 []
  step :
      {t d : ℕ} {u u' : List ℕ}
      → t ≢ root
      → Visited w t
      → Trail w root (get_or w.parent t index_none) d u
      → u' ≡ u ++ (get_or w.parent_action t index_none ∷ [])
      → Trail w root t (suc d) u'

pub Trail-Kept :
    (w w' : Walk) (root : ℕ)
    → Kept w w'
    → {t d : ℕ} {u : List ℕ} → Trail w root t d u
    → Trail w' root t d u
Trail-Kept w w' root k (start h) = start (Visited-Kept w w' root k h)
Trail-Kept w w' root k (step {t} {d} {u} {u'} ne h rest e) =
    let (p, c, _, _) = k.cells t h in
    step ne (Visited-Kept w w' t k h)
      (subst (λ x. Trail w' root x d u) (sym p) (Trail-Kept w w' root k rest))
      (e ∙ ap (λ x. u ++ (x ∷ [])) (sym c))

module _ (a : Automaton) (letters : List ℕ) (p q root pairs : ℕ) where
  -- how a pair was reached, with a bound on the parents up to the root
  pub record Explained (w : Walk) (bound t : ℕ) : Type 0 where
    pub inside : t < pairs
    pub visited : Visited w t
    pub word : List ℕ
    pub depth : ℕ
    pub near : depth ≤ bound
    pub over : Over letters word
    pub trail : Trail w root t depth word
    pub first_end : get_or w.pair_first t 0 ≡ run a p word
    pub second_end : get_or w.pair_second t 0 ≡ run a q word
    pub named : pair_index a.state_count (get_or w.pair_first t 0) (get_or w.pair_second t 0) ≡ t

  pub Explained-Kept :
      (w w' : Walk) (bound t : ℕ) → Kept w w' → Explained w bound t → Explained w' bound t
  Explained-Kept w w' bound t k x =
      let (_, _, f, s) = k.cells t x.visited in
      record {
        inside = x.inside;
        visited = Visited-Kept w w' t k x.visited;
        word = x.word;
        depth = x.depth;
        near = x.near;
        over = x.over;
        trail = Trail-Kept w w' root k x.trail;
        first_end = f ∙ x.first_end;
        second_end = s ∙ x.second_end;
        named = rw f (rw s x.named);
      }

  -- what holds between two steps of the search, before a goal is found
  pub record Inv (w : Walk) : Type 0 where
    pub parents : length w.parent ≡ pairs
    pub actions : length w.parent_action ≡ pairs
    pub firsts : length w.pair_first ≡ pairs
    pub seconds : length w.pair_second ≡ pairs
    pub room : length w.queue + free w.parent ≡ pairs
    pub queued :
        (t : ℕ)
        → t < pairs
        → Visited w t
        → (j : ℕ) × (j < length w.queue) × (get_or w.queue j 0 ≡ t)
    pub explained : (j : ℕ) → j < length w.queue → Explained w j (get_or w.queue j 0)
    pub apart :
        (j : ℕ)
        → j < length w.queue
        → get_or w.pair_first (get_or w.queue j 0) 0 ≢ get_or w.pair_second (get_or w.queue j 0) 0
