-- ===== src/Cache/Segment.antt =====
-- The links of the cache: a segment of the list from newer to older entries, and the writes that the
-- code makes at its ends.
use sync_kgraph.Base.{
  ℕ, ◌<◌, ◌≡◌, ◌≢◌, ◌∙◌, sym, ap, subst, arith, List, [], ◌∷◌, ◌++◌, All, Option, some, length,
  length-set, set, get_or-set_self, get_or-set_ne,
}
use sync_kgraph.Cache.{Entry, entry, no_entry, set_newer, set_older}

abbrev pub head_or : List ℕ → Option ℕ → Option ℕ
head_or [] next = next
head_or (x ∷ xs) next = some x

abbrev pub last_or : Option ℕ → List ℕ → Option ℕ
last_or before [] = before
last_or before (x ∷ xs) = last_or (some x) xs

abbrev pub Absent : ℕ → List ℕ → Type 0
Absent e xs = All (λ x. x ≢ e) xs

abbrev pub NoRepeat : List ℕ → Type 0
NoRepeat [] = Unit
NoRepeat (x ∷ xs) = Absent x xs × NoRepeat xs

-- the entries at the addresses, from newer to older ones, are linked; `before` and `next` lie behind the
-- ends
abbrev pub Segment : List Entry → Option ℕ → List ℕ → Option ℕ → Type 0
Segment heap before [] next = Unit
Segment heap before (x ∷ xs) next =
    (x < length heap)
    × ((entry heap x).newer ≡ before)
    × ((entry heap x).older ≡ head_or xs next)
    × Segment heap (some x) xs next

-- Entries that no write touches stay linked.
pub Segment-kept :
    (heap heap' : List Entry) (before : Option ℕ) (xs : List ℕ) (next : Option ℕ)
    → length heap' ≡ length heap
    → All (λ x. entry heap' x ≡ entry heap x) xs
    → Segment heap before xs next
    → Segment heap' before xs next
Segment-kept heap heap' before [] next l same h = tt
Segment-kept heap heap' before (x ∷ xs) next l (e, same) (lt, n, o, h) = (
  omega arith,
  ap (λ (y : Entry). y.newer) e ∙ n,
  ap (λ (y : Entry). y.older) e ∙ o,
  Segment-kept heap heap' (some x) xs next l same h,
)

pub set_kept :
    (heap : List Entry) (i : ℕ) (v : Entry) (xs : List ℕ)
    → Absent i xs
    → All (λ x. entry (set heap i v) x ≡ entry heap x) xs
set_kept heap i v [] h = tt
set_kept heap i v (x ∷ xs) (ne, h) =
    (get_or-set_ne heap i x v no_entry (λ e. ne (sym e)), set_kept heap i v xs h)

pub Segment-append :
    (heap : List Entry) (before : Option ℕ) (xs ys : List ℕ) (next : Option ℕ)
    → Segment heap before xs (head_or ys next)
    → Segment heap (last_or before xs) ys next
    → Segment heap before (xs ++ ys) next
Segment-append heap before [] ys next h k = k
Segment-append heap before (x ∷ []) ys next (lt, n, o, h) k = (lt, n, o, k)
Segment-append heap before (x ∷ x' ∷ xs) ys next (lt, n, o, h) k =
    (lt, n, o, Segment-append heap (some x) (x' ∷ xs) ys next h k)

pub Segment-split :
    (heap : List Entry) (before : Option ℕ) (xs ys : List ℕ) (next : Option ℕ)
    → Segment heap before (xs ++ ys) next
    → Segment heap before xs (head_or ys next) × Segment heap (last_or before xs) ys next
Segment-split heap before [] ys next h = (tt, h)
Segment-split heap before (x ∷ []) ys next (lt, n, o, h) = ((lt, n, o, tt), h)
Segment-split heap before (x ∷ x' ∷ xs) ys next (lt, n, o, h) =
    let (k, l) = Segment-split heap (some x) (x' ∷ xs) ys next h in ((lt, n, o, k), l)

pub last_All :
    (P : ℕ → Type 0) (before : Option ℕ) (x : ℕ) (xs : List ℕ) (i : ℕ)
    → last_or before (x ∷ xs) ≡ some i
    → All P (x ∷ xs)
    → P i
last_All P before x [] i e (h, _) = let s : x ≡ i = cc in subst P s h
last_All P before x (y ∷ ys) i e (_, h) = last_All P (some x) y ys i e h

-- The older link of the last entry is written.
pub set_older-Segment :
    (heap : List Entry) (before : Option ℕ) (x : ℕ) (xs : List ℕ) (next next' : Option ℕ) (i : ℕ)
    → last_or before (x ∷ xs) ≡ some i
    → NoRepeat (x ∷ xs)
    → Segment heap before (x ∷ xs) next
    → Segment (set_older heap i next') before (x ∷ xs) next'
unfolding set_older
set_older-Segment heap before x [] next next' i e _ (lt, n, o, h) =
    let s : x ≡ i = cc in
    let v : Entry = record (entry heap i) { older = next' } in
    let own : entry (set heap i v) x ≡ v =
      subst (λ j. entry (set heap i v) j ≡ v) (sym s)
        (get_or-set_self heap i v no_entry (omega arith)) in
    let old = ap (λ j. (entry heap j).newer) s in
    (
      omega (arith, length-set heap i v),
      ap (λ (y : Entry). y.newer) own ∙ sym old ∙ n,
      ap (λ (y : Entry). y.older) own,
      tt,
    )
set_older-Segment heap before x (y ∷ ys) next next' i e (apart, distinct) (lt, n, o, h) =
    let ne : i ≢ x = last_All (λ j. j ≢ x) (some x) y ys i e apart in
    let v : Entry = record (entry heap i) { older = next' } in
    let own : entry (set heap i v) x ≡ entry heap x = get_or-set_ne heap i x v no_entry ne in
    (
      omega (arith, length-set heap i v),
      ap (λ (z : Entry). z.newer) own ∙ n,
      ap (λ (z : Entry). z.older) own ∙ o,
      set_older-Segment heap (some x) y ys next next' i e distinct h,
    )

-- The newer link of the first entry is written.
pub set_newer-Segment :
    (heap : List Entry) (before before' : Option ℕ) (x : ℕ) (xs : List ℕ) (next : Option ℕ)
    → NoRepeat (x ∷ xs)
    → Segment heap before (x ∷ xs) next
    → Segment (set_newer heap x before') before' (x ∷ xs) next
unfolding set_newer
set_newer-Segment heap before before' x xs next (apart, distinct) (lt, n, o, h) =
    let v : Entry = record (entry heap x) { newer = before' } in
    let own : entry (set heap x v) x ≡ v = get_or-set_self heap x v no_entry lt in
    (
      omega (arith, length-set heap x v),
      ap (λ (y : Entry). y.newer) own,
      ap (λ (y : Entry). y.older) own ∙ o,
      Segment-kept heap (set heap x v) (some x) xs next (length-set heap x v)
          (set_kept heap x v xs apart) h,
    )
