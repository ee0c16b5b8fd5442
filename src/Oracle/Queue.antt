-- ===== src/Oracle/Queue.antt =====
-- The state of the searches of sg_merge_distances and sg_resolution_distances, and what a pair put into
-- the queue keeps of it.
use sync_kgraph.Base.{
  ℕ, zero, suc, ◌+◌, ◌≤◌, ◌<◌, ◌≡◌, ◌≢◌, ◌⊎◌, ◌∙◌, sym, subst, inl, inr, true, ◌||◌, arith, ◌==◌,
  Bool-cases, if◌then◌else◌, List, [], ◌∷◌, ◌++◌, length, length-append, length-set, get_or, set,
  get_or-set_self, get_or-set_ne, All, All-append, index_none,
}
use sync_kgraph.Bitset.Members.{contains}
use sync_kgraph.Sync.{Kind, merge, resolution}
use sync_kgraph.Oracle.{Oracle, Search, dist, enqueue, next_of, differs, usable}

-- the pairs without a distance
abbrev pub unseen : List ℕ → ℕ
unseen [] = 0
unseen (x ∷ xs) = (if x == index_none then 1 else 0) + unseen xs

unseen-set :
    (xs : List ℕ) (i v : ℕ)
    → i < length xs
    → get_or xs i index_none ≡ index_none
    → v ≢ index_none
    → unseen (set xs i v) + 1 ≡ unseen xs
unseen-set [] i v h e n = absurd (omega arith)
unseen-set (x ∷ xs) zero v h e n = ground arith
unseen-set (x ∷ xs) (suc i) v h e n = omega (arith, unseen-set xs i v (omega arith) e n)

pub contains-append :
    (xs : List ℕ) (x q : ℕ) → contains (xs ++ (x ∷ [])) q ≡ (contains xs q || (q == x))
contains-append [] x q = ground arith
contains-append (y ∷ xs) x q = let ih = contains-append xs x q in ground arith

-- the values never fall along the list
abbrev pub Nondec : (ℕ → ℕ) → List ℕ → Type 0
Nondec f [] = Unit
Nondec f (x ∷ xs) = All (λ y. f x ≤ f y) xs × Nondec f xs

Nondec-append :
    (f : ℕ → ℕ) (xs : List ℕ) (v : ℕ)
    → Nondec f xs
    → All (λ y. f y ≤ f v) xs
    → Nondec f (xs ++ (v ∷ []))
Nondec-append f [] v h k = (tt, tt)
Nondec-append f (x ∷ xs) v h k =
    (All-append (λ y. f x ≤ f y) xs (v ∷ []) h.0 (k.0, tt), Nondec-append f xs v h.1 k.1)

All-mono : (P Q : ℕ → Type 0) (xs : List ℕ) → ((x : ℕ) → P x → Q x) → All P xs → All Q xs
All-mono P Q [] f h = tt
All-mono P Q (x ∷ xs) f h = (f x h.0, All-mono P Q xs f h.1)

module _ (o : Oracle) (kind : Kind) where
  -- some action shows different outputs at the pair
  abbrev pub Splits : Kind → ℕ → Type 0
  Splits merge v = ⊥
  Splits resolution v = (c : ℕ) × (c < o.automaton.action_count) × (differs o v c ≡ true)

  abbrev pub Equal : ℕ → Type 0
  Equal v = get_or o.first v 0 ≡ get_or o.second v 0

  abbrev pub Seen : List ℕ → ℕ → Type 0
  Seen ds v = get_or ds v index_none ≢ index_none

  -- the pair has an edge to one that is a step nearer
  abbrev pub Steps : List ℕ → ℕ → Type 0
  Steps ds v =
      (c : ℕ) × (c < o.automaton.action_count)
      × (usable o kind v c ≡ true)
      × Seen ds (next_of o v c)
      × (get_or ds (next_of o v c) index_none + 1 ≡ get_or ds v index_none)

  -- why the pair has its distance
  abbrev pub Reason : List ℕ → ℕ → Type 0
  Reason ds v =
      ((get_or ds v index_none ≡ 0) × Equal v)
      ⊎ ((get_or ds v index_none ≡ 1) × Splits kind v)
      ⊎ Steps ds v

  -- the first pair is at most a step farther than the second
  abbrev pub Closes : List ℕ → ℕ → ℕ → Type 0
  Closes ds v u = Seen ds v × (get_or ds v index_none ≤ get_or ds u index_none + 1)

  -- the pairs that have a distance keep it
  abbrev pub Keeps : List ℕ → List ℕ → Type 0
  Keeps ds es = (v : ℕ) → Seen ds v → get_or es v index_none ≡ get_or ds v index_none

  pub Closes-Keeps :
      (ds es : List ℕ) (v u : ℕ) → Keeps ds es → Seen ds u → Closes ds v u → Closes es v u
  Closes-Keeps ds es v u k su (sv, l) =
      ((λ e. sv (sym (k v sv) ∙ e)), omega (arith, k v sv, k u su))

  Reason-Keeps : (ds es : List ℕ) (v : ℕ) → Keeps ds es → Seen ds v → Reason ds v → Reason es v
  Reason-Keeps ds es v k sv (inl (e, h)) = inl (k v sv ∙ e, h)
  Reason-Keeps ds es v k sv (inr (inl (e, h))) = inr (inl (k v sv ∙ e, h))
  Reason-Keeps ds es v k sv (inr (inr (c, hc, us, sn, e))) = inr (
      inr (
        c,
        hc,
        us,
        (λ x. sn (sym (k (next_of o v c) sn) ∙ x)),
        omega (arith, k v sv, k (next_of o v c) sn),
      ))

  -- what holds between two steps of a search: `Busy` are the pairs whose predecessors are under way
  pub record Inv (Busy : ℕ → Type 0) (level : ℕ) (s : Search) : Type 0 where
    pub size : length s.distance ≡ o.pair_count
    pub queued : All (λ v. (v < o.pair_count) × Seen s.distance v) s.pending
    pub ordered : Nondec (dist s) s.pending
    pub low : All (λ v. level ≤ dist s v) s.pending
    pub high : (v : ℕ) → v < o.pair_count → Seen s.distance v → dist s v ≤ level + 1
    pub reason : (v : ℕ) → v < o.pair_count → Seen s.distance v → Reason s.distance v
    pub closed :
        (v c : ℕ)
        → v < o.pair_count
        → c < o.automaton.action_count
        → usable o kind v c ≡ true
        → Seen s.distance (next_of o v c)
        → (contains s.pending (next_of o v c) ≡ true)
          ⊎ Busy (next_of o v c)
          ⊎ Closes s.distance v (next_of o v c)
    pub counted :
        (v : ℕ) → v < o.pair_count → Seen s.distance v → dist s v + unseen s.distance ≤ o.pair_count

  pub enqueue-Keeps :
      (v x : ℕ) (s : Search) → dist s v ≡ index_none → Keeps s.distance (enqueue v x s).distance
  unfolding enqueue
  enqueue-Keeps v x s fresh u seen =
      get_or-set_ne s.distance v u x index_none
        (λ e. seen (subst (λ w. dist s w ≡ index_none) e fresh))

  pub enqueue-Inv :
      (Busy : ℕ → Type 0) (level v x : ℕ) (s : Search)
      → Inv Busy level s
      → v < o.pair_count
      → dist s v ≡ index_none
      → o.pair_count < index_none
      → level ≤ x
      → x ≤ level + 1
      → ((u : ℕ) → u < o.pair_count → Seen s.distance u → dist s u ≤ x)
      → x + unseen s.distance ≤ o.pair_count + 1
      → Reason (enqueue v x s).distance v
      → Inv Busy level (enqueue v x s)
        × Keeps s.distance (enqueue v x s).distance
        × (dist (enqueue v x s) v ≡ x)
        × (unseen (enqueue v x s).distance + 1 ≡ unseen s.distance)
        × (length (enqueue v x s).pending ≡ length s.pending + 1)
  unfolding enqueue
  enqueue-Inv Busy level v x s inv hv fresh small lo hi top count why =
      let keeps : Keeps s.distance (set s.distance v x) = enqueue-Keeps v x s fresh in
      let own : get_or (set s.distance v x) v index_none ≡ x =
        get_or-set_self s.distance v x index_none (omega (arith, inv.size)) in
      let old : (u : ℕ) → u ≢ v → get_or (set s.distance v x) u index_none ≡ dist s u =
        λ u ne. get_or-set_ne s.distance v u x index_none (λ e. ne (sym e)) in
      let shrinks : x ≢ index_none → unseen (set s.distance v x) + 1 ≡ unseen s.distance =
        λ n. unseen-set s.distance v x (omega (arith, inv.size)) fresh n in
      let pos : 0 < unseen s.distance =
        (let n : 0 ≢ index_none = λ e. omega arith in
          omega (arith, unseen-set s.distance v 0 (omega (arith, inv.size)) fresh n)) in
      let fits : x ≢ index_none = λ e. omega arith in
      let less = shrinks fits in
      (
        record {
          size = length-set s.distance v x ∙ inv.size;
          queued =
              All-append (λ u. (u < o.pair_count) × Seen (set s.distance v x) u) s.pending (v ∷ [])
                (All-mono (λ u. (u < o.pair_count) × Seen s.distance u)
                  (λ u. (u < o.pair_count) × Seen (set s.distance v x) u) s.pending
                  (λ u (l, seen). (l, λ e. seen (sym (keeps u seen) ∙ e))) inv.queued)
                ((hv, λ e. fits (sym own ∙ e)), tt);
          ordered =
              Nondec-append (λ u. get_or (set s.distance v x) u index_none) s.pending v
                (Nondec-kept s.distance (set s.distance v x) s.pending keeps inv.queued inv.ordered)
                (All-mono (λ u. (u < o.pair_count) × Seen s.distance u)
                  (λ u.
                    get_or (set s.distance v x) u index_none
                    ≤ get_or (set s.distance v x) v index_none)
                  s.pending (λ u (l, seen). omega (arith, keeps u seen, own, top u l seen))
                  inv.queued);
          low =
              All-append (λ u. level ≤ get_or (set s.distance v x) u index_none) s.pending (v ∷ [])
                (low_kept s.pending keeps inv.queued inv.low) (omega arith, tt);
          high = λ u hu seen. elim (Bool-cases (u == v)) [
            | inl here ↦ let e : u ≡ v = ground arith in rw e (omega arith)
            | inr other ↦
                let ne : u ≢ v = λ e. ground arith in
                let e = old u ne in omega (arith, inv.high u hu (λ y. seen (e ∙ y)))
          ];
          reason = λ u hu seen. elim (Bool-cases (u == v)) [
            | inl here ↦
                let e : u ≡ v = ground arith in subst (Reason (set s.distance v x)) (sym e) why
            | inr other ↦
                let ne : u ≢ v = λ e. ground arith in
                let e = old u ne in
                let before : Seen s.distance u = λ y. seen (e ∙ y) in
                Reason-Keeps s.distance (set s.distance v x) u keeps before (inv.reason u hu before)
          ];
          closed = λ u c hu hc us seen. elim (Bool-cases (next_of o u c == v)) [
            | inl here ↦ inl (let m = contains-append s.pending v (next_of o u c) in ground arith)
            | inr other ↦
                let ne : next_of o u c ≢ v = λ e. ground arith in
                let e = old (next_of o u c) ne in
                let before : Seen s.distance (next_of o u c) = λ y. seen (e ∙ y) in
                elim (inv.closed u c hu hc us before) [
                  | inl waits ↦
                      inl (let m = contains-append s.pending v (next_of o u c) in ground arith)
                  | inr (inl busy) ↦ inr (inl busy)
                  | inr (inr near) ↦ inr (
                      inr (
                        Closes-Keeps s.distance (set s.distance v x) u (next_of o u c) keeps before
                          near))
                ]
          ];
          counted = λ u hu seen. elim (Bool-cases (u == v)) [
            | inl here ↦ let e : u ≡ v = ground arith in rw e (omega arith)
            | inr other ↦
                let ne : u ≢ v = λ e. ground arith in
                let e = old u ne in omega (arith, inv.counted u hu (λ y. seen (e ∙ y)))
          ];
        },
        keeps,
        own,
        less,
        omega (arith, length-append s.pending (v ∷ [])),
      )
    where
      Nondec-kept :
          (ds es xs : List ℕ)
          → Keeps ds es
          → All (λ u. (u < o.pair_count) × Seen ds u) xs
          → Nondec (λ u. get_or ds u index_none) xs
          → Nondec (λ u. get_or es u index_none) xs
      Nondec-kept ds es [] k q h = tt
      Nondec-kept ds es (y ∷ ys) k q h =
          (heads y ys (k y q.0.1) q.1 h.0, Nondec-kept ds es ys k q.1 h.1)
        where
          heads :
              (y : ℕ) (zs : List ℕ)
              → get_or es y index_none ≡ get_or ds y index_none
              → All (λ u. (u < o.pair_count) × Seen ds u) zs
              → All (λ z. get_or ds y index_none ≤ get_or ds z index_none) zs
              → All (λ z. get_or es y index_none ≤ get_or es z index_none) zs
          heads y [] e q h = tt
          heads y (z ∷ zs) e q h = (omega (arith, k z q.0.1, h.0), heads y zs e q.1 h.1)

      low_kept :
          (xs : List ℕ)
          → Keeps s.distance (set s.distance v x)
          → All (λ u. (u < o.pair_count) × Seen s.distance u) xs
          → All (λ u. level ≤ dist s u) xs
          → All (λ u. level ≤ get_or (set s.distance v x) u index_none) xs
      low_kept [] k q h = tt
      low_kept (y ∷ ys) k q h = (omega (arith, k y q.0.1, h.0), low_kept ys k q.1 h.1)
