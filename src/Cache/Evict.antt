-- ===== src/Cache/Evict.antt =====
-- The loop of sg_snapshot_cache_insert that evicts: the oldest items go, no more of them than the
-- bound asks for.
use mathlib.Core.List.{append_assoc, append-nil}
use sync_kgraph.Base.{
  ℕ, zero, suc, ◌≤◌, ◌<◌, ◌≡◌, ◌∙◌, refl, sym, ap, subst, inl, inr, arith, ltb, ◌==◌, Bool-cases,
  List, [], ◌∷◌, ◌++◌, Option, none, some, length, length-append, Status, Ensures, Ensures-return,
  Ensures-if, Ensures-mono,
}
use sync_kgraph.Cache.{Item, Cache, entry, pop_oldest, drop_oldest, evict}
use sync_kgraph.Cache.Segment.{last_or}
use sync_kgraph.Cache.Links.{pop_oldest-Linked}
use sync_kgraph.Cache.Items.{
  items_at, total, total-append, bytes_of, holds, items_at-same, Holds, items_at-append,
}

-- no more items are dropped at the end than the bound asks for
abbrev pub Needed : ℕ → List Item → List Item → Type 0
Needed remaining kept [] = Unit
Needed remaining kept (d ∷ ds) = remaining < total bytes_of (kept ++ (d ∷ []))

last_split :
    (before : Option ℕ) (x : ℕ) (xs : List ℕ)
    → (zs : List ℕ) × (e : ℕ) × (x ∷ xs ≡ zs ++ (e ∷ [])) × (last_or before (x ∷ xs) ≡ some e)
last_split before x [] = ([], x, refl, refl)
last_split before x (y ∷ ys) =
    let (zs, e, eq, l) = last_split (some x) y ys in (x ∷ zs, e, ap (λ t. x ∷ t) eq, l)

-- The oldest item is dropped, with its bytes and its reference.
drop_oldest-Holds :
    (c : Cache) (zs : List ℕ) (e : ℕ) (items : List Item) (base : ℕ → ℕ)
    → Holds c (zs ++ (e ∷ [])) items base
    → Holds (drop_oldest e c) zs (items_at c.heap zs) base
      × (items ≡ items_at c.heap zs ++ ((entry c.heap e).item ∷ []))
      × ((drop_oldest e c).maximum_bytes ≡ c.maximum_bytes)
      × (length (drop_oldest e c).heap ≡ length c.heap)
      × ((j : ℕ) → (entry (drop_oldest e c).heap j).item ≡ (entry c.heap j).item)
unfolding drop_oldest
drop_oldest-Holds c zs e items base h =
    let (linked, same) = pop_oldest-Linked c zs e h.linked in
    let c' = pop_oldest c e in
    let x = (entry c.heap e).item in
    let split : items ≡ items_at c.heap zs ++ (x ∷ []) =
      sym h.contents ∙ items_at-append c.heap zs (e ∷ []) in
    let it : (entry c'.heap e).item ≡ x = same.items e in
    (
      record {
        linked = record {
          segment = linked.segment;
          distinct = linked.distinct;
          newest_first = linked.newest_first;
          oldest_last = linked.oldest_last;
        };
        contents = items_at-same c.heap c'.heap zs same.items;
        room = omega (arith, h.room, same.size, length-append zs (e ∷ []));
        sum =
            let z = ap (total bytes_of) split in
            let b = ap bytes_of it in
            omega
              (arith, same.same_bytes, h.sum, total-append bytes_of (items_at c.heap zs) (x ∷ []));
        held = λ s.
            let z = ap (total (holds s)) split in
            let m = total-append (holds s) (items_at c.heap zs) (x ∷ []) in
            let r = ap (λ (f : ℕ → ℕ). f s) same.same_references in
            let k = h.held s in
            let b = ap (λ (i : Item). i.snapshot) it in
            elim (Bool-cases (s == (entry c'.heap e).item.snapshot)) [
              | inl own ↦ ground arith
              | inr other ↦ ground arith
            ];
      },
      split,
      same.same_maximum,
      same.size,
      same.items,
    )

-- what the loop leaves
pub record Evicted (c : Cache) (ids : List ℕ) (items : List Item) (base : ℕ → ℕ) (remaining : ℕ)
    (c' : Cache) : Type 0 where
  pub ids_kept : List ℕ
  pub ids_gone : List ℕ
  pub ids_split : ids ≡ ids_kept ++ ids_gone
  pub kept : List Item
  pub dropped : List Item
  pub split : items ≡ kept ++ dropped
  pub needed : Needed remaining kept dropped
  pub inside : Holds c' ids_kept kept base
  pub fits : c'.bytes ≤ remaining
  pub same_maximum : c'.maximum_bytes ≡ c.maximum_bytes
  pub same_size : length c'.heap ≡ length c.heap
  pub same_items : (j : ℕ) → (entry c'.heap j).item ≡ (entry c.heap j).item

Evicted-none :
    (c : Cache) (ids : List ℕ) (items : List Item) (base : ℕ → ℕ) (remaining : ℕ)
    → Holds c ids items base
    → c.bytes ≤ remaining
    → Evicted c ids items base remaining c
Evicted-none c ids items base remaining h l = record {
  ids_kept = ids;
  ids_gone = [];
  ids_split = sym (append-nil ids);
  kept = items;
  dropped = [];
  split = sym (append-nil items);
  needed = tt;
  inside = h;
  fits = l;
  same_maximum = refl;
  same_size = refl;
  same_items = λ j. refl;
}

-- One item more is dropped behind those that the rest of the loop drops.
Needed-snoc :
    (remaining : ℕ) (kept dropped : List Item) (x : Item)
    → remaining < total bytes_of ((kept ++ dropped) ++ (x ∷ []))
    → Needed remaining kept dropped
    → Needed remaining kept (dropped ++ (x ∷ []))
Needed-snoc remaining kept [] x l h =
    subst (λ t. remaining < total bytes_of (t ++ (x ∷ []))) (append-nil kept) l
Needed-snoc remaining kept (d ∷ ds) x l h = h

pub Ensures-evict :
    {E : Status → Type 0} (fuel remaining : ℕ) (c : Cache) (ids : List ℕ) (items : List Item)
    (base : ℕ → ℕ)
    → Holds c ids items base
    → length ids ≤ fuel
    → Ensures (evict fuel remaining (last_or none ids) c) (Evicted c ids items base remaining) E
unfolding evict
Ensures-evict fuel remaining c [] items base h l =
    let z = ap (total bytes_of) (sym h.contents) in
    Ensures-return c (Evicted-none c [] items base remaining h (omega (arith, h.sum)))
Ensures-evict zero remaining c (x ∷ xs) items base h l = absurd (omega arith)
Ensures-evict {E} (suc fuel) remaining c (x ∷ xs) items base h l =
    let (zs, e, eq, last) = last_split none x xs in
    let h' = subst (λ t. Holds c t items base) eq h in
    let (k, split, sm, sl, si) = drop_oldest-Holds c zs e items base h' in
    let c' = drop_oldest e c in
    let size = ap (λ (t : List ℕ). length t) eq in
    let rest =
      Ensures-evict {E = E} fuel remaining c' zs (items_at c.heap zs) base k
        (omega (arith, length-append zs (e ∷ []))) in
    subst
      (λ o. Ensures (evict (suc fuel) remaining o c) (Evicted c (x ∷ xs) items base remaining) E)
      (sym last)
      (Ensures-if (ltb remaining c.bytes)
        (λ over.
          subst
            (λ o. Ensures (evict fuel remaining o c') (Evicted c (x ∷ xs) items base remaining) E)
            (sym k.linked.oldest_last)
            (Ensures-mono
              (λ d v. record {
                ids_kept = v.ids_kept;
                ids_gone = v.ids_gone ++ (e ∷ []);
                ids_split =
                    eq
                    ∙ ap (λ t. t ++ (e ∷ [])) v.ids_split
                    ∙ append_assoc v.ids_kept v.ids_gone (e ∷ []);
                kept = v.kept;
                dropped = v.dropped ++ ((entry c.heap e).item ∷ []);
                split =
                    split
                    ∙ ap (λ t. t ++ ((entry c.heap e).item ∷ [])) v.split
                    ∙ append_assoc v.kept v.dropped ((entry c.heap e).item ∷ []);
                needed =
                    Needed-snoc remaining v.kept v.dropped (entry c.heap e).item
                      (subst (λ t. remaining < total bytes_of (t ++ ((entry c.heap e).item ∷ [])))
                        v.split
                        (subst (λ t. remaining < total bytes_of t) split
                          (let s = h.sum in ground arith)))
                      v.needed;
                inside = v.inside;
                fits = v.fits;
                same_maximum = v.same_maximum ∙ sm;
                same_size = v.same_size ∙ sl;
                same_items = λ j. v.same_items j ∙ si j;
              })
              (λ _ z. z) rest))
        (λ fits. Ensures-return c (Evicted-none c (x ∷ xs) items base remaining h (ground arith))))
