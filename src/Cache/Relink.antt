-- ===== src/Cache/Relink.antt =====
-- The writes of the links of one neighbour, on the part of the list that it ends.
use sync_kgraph.Base.{
  ℕ, ◌<◌, ◌≡◌, ◌≢◌, ◌∙◌, refl, sym, ap, subst, inl, inr, arith, ◌==◌, Bool-cases, List, [], ◌∷◌,
  ◌++◌, All, All-append, Option, none, some, length, length-set, set, get_or-set_self,
  get_or-set_ne,
}
use sync_kgraph.Cache.{
  Entry, Cache, entry, no_entry, set_newer, set_older, relink_older, relink_newer,
}
use sync_kgraph.Cache.Segment.{
  head_or, last_or, Absent, NoRepeat, Segment, last_All, set_older-Segment, set_newer-Segment,
}

last_some : (before : Option ℕ) (x : ℕ) (xs : List ℕ) → (i : ℕ) × (last_or before (x ∷ xs) ≡ some i)
last_some before x [] = (x, refl)
last_some before x (y ∷ ys) = last_some (some x) y ys

pub head_or-append :
    (xs ys : List ℕ) (next : Option ℕ) → head_or (xs ++ ys) next ≡ head_or xs (head_or ys next)
head_or-append [] ys next = refl
head_or-append (x ∷ xs) ys next = refl

pub last_or-append :
    (before : Option ℕ) (xs ys : List ℕ)
    → last_or before (xs ++ ys) ≡ last_or (last_or before xs) ys
last_or-append before [] ys = refl
last_or-append before (x ∷ xs) ys = last_or-append (some x) xs ys

-- no address of the first list is in the second one
abbrev pub Disjoint : List ℕ → List ℕ → Type 0
Disjoint xs ys = All (λ x. Absent x ys) xs

pub NoRepeat-split :
    (xs ys : List ℕ) → NoRepeat (xs ++ ys) → NoRepeat xs × NoRepeat ys × Disjoint xs ys
NoRepeat-split [] ys h = (tt, h, tt)
NoRepeat-split (x ∷ xs) ys (apart, h) =
    let (k, l, d) = NoRepeat-split xs ys h in let (m, n) = both xs apart in ((m, k), l, (n, d))
  where
    both : (zs : List ℕ) → Absent x (zs ++ ys) → Absent x zs × Absent x ys
    both [] h = (tt, h)
    both (z ∷ zs) (ne, h) = let (m, n) = both zs h in ((ne, m), n)

pub NoRepeat-append :
    (xs ys : List ℕ) → NoRepeat xs → NoRepeat ys → Disjoint xs ys → NoRepeat (xs ++ ys)
NoRepeat-append [] ys h k d = k
NoRepeat-append (x ∷ xs) ys (apart, h) k (m, d) =
    (All-append (λ z. z ≢ x) xs ys apart m, NoRepeat-append xs ys h k d)

pub Disjoint-tail : (xs : List ℕ) (y : ℕ) (ys : List ℕ) → Disjoint xs (y ∷ ys) → Disjoint xs ys
Disjoint-tail [] y ys d = tt
Disjoint-tail (x ∷ xs) y ys ((_, m), d) = (m, Disjoint-tail xs y ys d)

pub Disjoint-head : (xs : List ℕ) (y : ℕ) (ys : List ℕ) → Disjoint xs (y ∷ ys) → Absent y xs
Disjoint-head [] y ys d = tt
Disjoint-head (x ∷ xs) y ys ((ne, _), d) = ((λ e. ne (sym e)), Disjoint-head xs y ys d)

pub Disjoint-comm : (xs ys : List ℕ) → Disjoint xs ys → Disjoint ys xs
Disjoint-comm xs [] d = tt
Disjoint-comm xs (y ∷ ys) d =
    (Disjoint-head xs y ys d, Disjoint-comm xs ys (Disjoint-tail xs y ys d))

-- what no write to links changes
pub record Same (c c' : Cache) : Type 0 where
  pub size : length c'.heap ≡ length c.heap
  pub items : (j : ℕ) → (entry c'.heap j).item ≡ (entry c.heap j).item
  pub same_bytes : c'.bytes ≡ c.bytes
  pub same_maximum : c'.maximum_bytes ≡ c.maximum_bytes
  pub same_references : c'.references ≡ c.references

pub Same-trans : (c d e : Cache) → Same c d → Same d e → Same c e
Same-trans c d e s t = record {
  size = t.size ∙ s.size;
  items = λ j. t.items j ∙ s.items j;
  same_bytes = t.same_bytes ∙ s.same_bytes;
  same_maximum = t.same_maximum ∙ s.same_maximum;
  same_references = t.same_references ∙ s.same_references;
}

set_items :
    (heap : List Entry) (i : ℕ) (v : Entry)
    → i < length heap
    → v.item ≡ (entry heap i).item
    → (j : ℕ) → (entry (set heap i v) j).item ≡ (entry heap j).item
set_items heap i v l e j = elim (Bool-cases (i == j)) [
  | inl here ↦
      let s : i ≡ j = ground arith in
      subst (λ k. (entry (set heap i v) k).item ≡ (entry heap k).item) s
        (ap (λ (x : Entry). x.item) (get_or-set_self heap i v no_entry l) ∙ e)
  | inr other ↦ ap (λ (x : Entry). x.item) (get_or-set_ne heap i j v no_entry (λ s. ground arith))
]

pub set-Same :
    (c : Cache) (i : ℕ) (v : Entry)
    → i < length c.heap
    → v.item ≡ (entry c.heap i).item
    → Same c (record c { heap = set c.heap i v })
set-Same c i v l e = record {
  size = length-set c.heap i v;
  items = set_items c.heap i v l e;
  same_bytes = refl;
  same_maximum = refl;
  same_references = refl;
}

-- what a write of the older link at the end of a segment leaves: at its last entry, or in the cache
-- when it is empty
pub record OlderWritten (c : Cache) (xs : List ℕ) (next target : Option ℕ) (c' : Cache)
    : Type 0 where
  pub same : Same c c'
  pub frame : (j : ℕ) → Absent j xs → entry c'.heap j ≡ entry c.heap j
  pub segment : Segment c'.heap none xs target
  pub newest_first : c.newest ≡ head_or xs next → c'.newest ≡ head_or xs target
  pub same_oldest : c'.oldest ≡ c.oldest

-- what a write of the newer link at the start of a segment leaves
pub record NewerWritten (c : Cache) (ys : List ℕ) (before target : Option ℕ) (c' : Cache)
    : Type 0 where
  pub same : Same c c'
  pub frame : (j : ℕ) → Absent j ys → entry c'.heap j ≡ entry c.heap j
  pub segment : Segment c'.heap target ys none
  pub oldest_last : c.oldest ≡ last_or before ys → c'.oldest ≡ last_or target ys
  pub same_newest : c'.newest ≡ c.newest

pub Same-refl :
    (c : Cache) (newest oldest : Option ℕ) → Same c (record c { newest = newest; oldest = oldest })
Same-refl c newest oldest = record {
  size = refl;
  items = λ j. refl;
  same_bytes = refl;
  same_maximum = refl;
  same_references = refl;
}

Segment-last-lt :
    (heap : List Entry) (before : Option ℕ) (x : ℕ) (xs : List ℕ) (next : Option ℕ) (i : ℕ)
    → last_or before (x ∷ xs) ≡ some i
    → Segment heap before (x ∷ xs) next
    → i < length heap
Segment-last-lt heap before x [] next i e (l, _, _, _) =
    let s : x ≡ i = cc in subst (λ (j : ℕ). j < length heap) s l
Segment-last-lt heap before x (y ∷ ys) next i e (_, _, _, h) =
    Segment-last-lt heap (some x) y ys next i e h

pub relink_older-OlderWritten :
    (c : Cache) (xs : List ℕ) (link next target : Option ℕ)
    → link ≡ last_or none xs
    → Segment c.heap none xs next
    → NoRepeat xs
    → OlderWritten c xs next target (relink_older link target c)
unfolding relink_older set_older
relink_older-OlderWritten c [] link next target e h d =
    subst (λ l. OlderWritten c [] next target (relink_older l target c)) (sym e)
      (record {
        same = Same-refl c target c.oldest;
        frame = λ j _. refl;
        segment = tt;
        newest_first = λ _. refl;
        same_oldest = refl;
      })
relink_older-OlderWritten c (x ∷ xs) link next target e h d =
    let (i, ei) = last_some none x xs in
    let l = Segment-last-lt c.heap none x xs next i ei h in
    let v : Entry = record (entry c.heap i) { older = target } in
    subst (λ k. OlderWritten c (x ∷ xs) next target (relink_older k target c)) (sym (e ∙ ei))
      (record {
        same = set-Same c i v l refl;
        frame = λ j apart.
            get_or-set_ne c.heap i j v no_entry (λ s. last_All (λ k. k ≢ j) none x xs i ei apart s);
        segment = set_older-Segment c.heap none x xs next target i ei d h;
        newest_first = λ z. z;
        same_oldest = refl;
      })

pub relink_newer-NewerWritten :
    (c : Cache) (ys : List ℕ) (link before target : Option ℕ)
    → link ≡ head_or ys none
    → Segment c.heap before ys none
    → NoRepeat ys
    → NewerWritten c ys before target (relink_newer link target c)
unfolding relink_newer set_newer
relink_newer-NewerWritten c [] link before target e h d =
    subst (λ l. NewerWritten c [] before target (relink_newer l target c)) (sym e)
      (record {
        same = Same-refl c c.newest target;
        frame = λ j _. refl;
        segment = tt;
        oldest_last = λ _. refl;
        same_newest = refl;
      })
relink_newer-NewerWritten c (y ∷ ys) link before target e h d =
    let v : Entry = record (entry c.heap y) { newer = target } in
    subst (λ k. NewerWritten c (y ∷ ys) before target (relink_newer k target c)) (sym e)
      (record {
        same = set-Same c y v h.0 refl;
        frame = λ j apart. get_or-set_ne c.heap y j v no_entry apart.0;
        segment = set_newer-Segment c.heap before target y ys none d h;
        oldest_last = λ z. z;
        same_newest = refl;
      })

pub frame_all :
    (heap heap' : List Entry) (xs ys : List ℕ)
    → ((j : ℕ) → Absent j xs → entry heap' j ≡ entry heap j)
    → Disjoint ys xs
    → All (λ j. entry heap' j ≡ entry heap j) ys
frame_all heap heap' xs [] f d = tt
frame_all heap heap' xs (y ∷ ys) f (m, d) = (f y m, frame_all heap heap' xs ys f d)
