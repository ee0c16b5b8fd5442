-- ===== src/Cache/Insert.antt =====
-- sg_snapshot_cache_insert: the new item is the newest, without an item of the same key and without the
-- oldest ones that the bound leaves no place for.
use sync_kgraph.Base.{
  ℕ, ◌+◌, ◌-◌, ◌≤◌, ◌<◌, ◌≡◌, ◌⊎◌, ◌∙◌, refl, sym, ap, subst, inl, inr, Bool, true, false, ◌||◌,
  arith, ltb, ◌==◌, Bool-cases, List, [], ◌∷◌, ◌++◌, Option, none, some, length, length-append,
  get_or-append_left, get_or-append_last, Never, Ensures, Ensures-return, Ensures-bind, Ensures-if,
  Ensures-request, Ensures-request_all,
}
use sync_kgraph.Cache.{
  Item, Entry, Cache, entry, no_entry, retain, walk, key_matches, link_newest, take_out, evict,
  free_existing, insert,
}
use sync_kgraph.Cache.Segment.{Absent, Segment}
use sync_kgraph.Cache.Links.{Linked, link_newest-Linked}
use sync_kgraph.Cache.Items.{
  items_at, total, bytes_of, holds, items_at-same, Holds, IsCache, Found, Ensures-walk,
}
use sync_kgraph.Cache.Evict.{Needed, Evicted, Ensures-evict}
use sync_kgraph.Cache.TakeOut.{Removed, with_item, TakenOut, take_out-TakenOut}

-- what the call leaves: the snapshot does not fit at all and nothing changes, or it is in front of the
-- items that are kept
abbrev pub Inserted : Cache → List Item → (ℕ → ℕ) → (Item → Bool) → Item → Cache × Bool → Type 0
Inserted c items base matches new (c', false) =
    (c' ≡ c) × ((c.maximum_bytes ≡ 0) ⊎ (c.maximum_bytes < new.bytes))
Inserted c items base matches new (c', true) =
    (rest : List Item) × (kept : List Item) × (dropped : List Item) × Removed matches items rest
    × (rest ≡ kept ++ dropped)
    × Needed (c.maximum_bytes - new.bytes) kept dropped
    × IsCache c' (new ∷ kept) base
    × (c'.maximum_bytes ≡ c.maximum_bytes)

-- the heap with the new entry, which is in no list yet
created-Holds :
    (c : Cache) (ids : List ℕ) (items : List Item) (base : ℕ → ℕ) (new : Item)
    → Holds c ids items base
    → Holds
        (record c {
          heap = c.heap ++ (record { item = new; newer = none; older = none } ∷ []);
          references = retain new.snapshot c.references;
        })
        ids
        items
        (with_item new base)
      × Absent (length c.heap) ids
created-Holds c ids items base new h =
    let v : Entry = record { item = new; newer = none; older = none } in
    let heap = c.heap ++ (v ∷ []) in
    let size = length-append c.heap (v ∷ []) in
    let (kept, fresh) = old_entries none ids h.linked.segment in
    (
      record {
        linked = record {
          segment = kept;
          distinct = h.linked.distinct;
          newest_first = h.linked.newest_first;
          oldest_last = h.linked.oldest_last;
        };
        contents = old_items none ids h.linked.segment ∙ h.contents;
        room = omega (arith, h.room);
        sum = h.sum;
        held = λ s.
            let k = h.held s in
            elim (Bool-cases (s == new.snapshot)) [
              | inl own ↦ ground arith
              | inr other ↦ ground arith
            ];
      },
      fresh,
    )
  where
    grown : List Entry
    grown = c.heap ++ (record { item = new; newer = none; older = none } ∷ [])

    cell : (x : ℕ) → x < length c.heap → entry grown x ≡ entry c.heap x
    cell x l =
        get_or-append_left c.heap (record { item = new; newer = none; older = none } ∷ []) x
          no_entry l

    old_entries :
        (before : Option ℕ) (xs : List ℕ)
        → Segment c.heap before xs none
        → Segment grown before xs none × Absent (length c.heap) xs
    old_entries before [] s = (tt, tt)
    old_entries before (x ∷ xs) (l, n, o, s) =
        let (k, a) = old_entries (some x) xs s in
        (
          (
            omega (
              arith,
              length-append c.heap (record { item = new; newer = none; older = none } ∷ []),
            ),
            ap (λ (y : Entry). y.newer) (cell x l) ∙ n,
            ap (λ (y : Entry). y.older) (cell x l) ∙ o,
            k,
          ),
          ((λ e. omega arith), a),
        )

    old_items :
        (before : Option ℕ) (xs : List ℕ)
        → Segment c.heap before xs none
        → items_at grown xs ≡ items_at c.heap xs
    old_items before [] s = refl
    old_items before (x ∷ xs) (l, n, o, s) =
        let ih = old_items (some x) xs s in rw (ap (λ (y : Entry). y.item) (cell x l)) (rw ih refl)

-- freeing the entry that was taken out changes the counters only
free_existing-IsCache :
    (r : Option ℕ) (d : Cache) (ids : List ℕ) (items : List Item) (base : ℕ → ℕ)
    → Linked d ids
    → items_at d.heap ids ≡ items
    → length ids ≤ length d.heap
    → d.bytes ≡ total bytes_of items
    → d.bytes ≤ d.maximum_bytes
    → ((s : ℕ) → (free_existing r d).references s ≡ base s + total (holds s) items)
    → IsCache (free_existing r d) items base × ((free_existing r d).maximum_bytes ≡ d.maximum_bytes)
unfolding free_existing
free_existing-IsCache none d ids items base l e room sum b held = (
  record {
    ids = ids;
    inside = record { linked = l; contents = e; room = room; sum = sum; held = held };
    bounded = b;
  },
  refl,
)
free_existing-IsCache (some x) d ids items base l e room sum b held = (
  record {
    ids = ids;
    inside = record {
      linked = record {
        segment = l.segment;
        distinct = l.distinct;
        newest_first = l.newest_first;
        oldest_last = l.oldest_last;
      };
      contents = e;
      room = room;
      sum = sum;
      held = held;
    };
    bounded = b;
  },
  refl,
)

Absent-prefix : (j : ℕ) (xs ys : List ℕ) → Absent j (xs ++ ys) → Absent j xs
Absent-prefix j [] ys h = tt
Absent-prefix j (x ∷ xs) ys (ne, h) = (ne, Absent-prefix j xs ys h)

-- the new item in front of what the loop leaves
linked-Inserted :
    (c c1 c3 : Cache) (ids : List ℕ) (items : List Item) (base : ℕ → ℕ) (matches : Item → Bool)
    (new : Item) (r : Option ℕ)
    → (c1.maximum_bytes ≡ c.maximum_bytes)
      × (length c1.heap ≡ length c.heap + 1)
      × ((entry c1.heap (length c.heap)).item ≡ new)
    → Absent (length c.heap) ids
    → length ids ≤ length c.heap
    → new.bytes ≤ c.maximum_bytes
    → (t : TakenOut c1 ids items (with_item new base) matches r (take_out r c1))
    → Evicted
        (take_out r c1)
        t.ids_left
        t.rest
        t.base_left
        ((take_out r c1).maximum_bytes - new.bytes)
        c3
    → Inserted c items base matches new (
      free_existing r (record (link_newest c3 (length c.heap)) {
        bytes = (link_newest c3 (length c.heap)).bytes + new.bytes;
      }),
      true,
    )
linked-Inserted c c1 c3 ids items base matches new r (sm, sl, si) fresh room small t v =
    let e = length c.heap in
    let gone =
      Absent-prefix e v.ids_kept v.ids_gone (subst (Absent e) v.ids_split (t.absent e fresh)) in
    let (linked, same) =
      link_newest-Linked c3 e v.ids_kept (omega (arith, v.same_size, t.same_size)) gone
        v.inside.linked in
    let c4 = link_newest c3 e in
    let d : Cache = record c4 { bytes = c4.bytes + new.bytes } in
    let bound = same.same_maximum ∙ v.same_maximum ∙ t.same_maximum ∙ sm in
    let items_kept : (j : ℕ) → (entry d.heap j).item ≡ (entry c1.heap j).item =
      λ j. same.items j ∙ v.same_items j ∙ t.same_items j in
    let (cache, max_kept) =
      free_existing-IsCache r d (e ∷ v.ids_kept) (new ∷ v.kept) base
        (record {
          segment = linked.segment;
          distinct = linked.distinct;
          newest_first = linked.newest_first;
          oldest_last = linked.oldest_last;
        })
        (ap (λ x. x ∷ items_at d.heap v.ids_kept) (items_kept e ∙ si)
          ∙ ap (λ xs. new ∷ xs)
              (items_at-same c3.heap c4.heap v.ids_kept same.items ∙ v.inside.contents))
        (let z = ap (λ (t' : List ℕ). length t') v.ids_split in
          omega (
            arith,
            same.size,
            v.same_size,
            t.same_size,
            t.fewer,
            length-append v.ids_kept v.ids_gone,
          ))
        (omega (arith, same.same_bytes, v.inside.sum))
        (omega (arith, same.same_bytes, v.fits, same.same_maximum, v.same_maximum, t.same_maximum))
        (λ s.
          let held = ap (λ (f : ℕ → ℕ). f s) same.same_references ∙ v.inside.held s in
          let k = t.counted d items_kept s (total (holds s) v.kept) held in omega arith) in
    (
      t.rest,
      v.kept,
      v.dropped,
      t.removed,
      v.split,
      subst (λ m. Needed (m - new.bytes) v.kept v.dropped) (t.same_maximum ∙ sm) v.needed,
      cache,
      max_kept ∙ bound,
    )

-- sg_snapshot_cache_insert on a cache that holds the items, from the newest to the oldest: a snapshot
-- that is larger than the bound, or a bound of 0, changes nothing. Else the new item is the newest, an
-- item of the same key is gone, and of the others as few of the oldest ones are dropped as the bound
-- asks for. The bytes stay the sum of those of the items and within the bound, the links stay a list in
-- both directions, and each snapshot keeps one reference for each item that holds it. It ends, and fails
-- only when the allocator refuses.
pub insert_refines :
    (c : Cache) (items : List Item) (base : ℕ → ℕ) (new : Item)
    → IsCache c items base
    → Ensures
        (insert c new.model new.oracle_epoch new.generation new.token new.snapshot new.bytes)
        (Inserted c items base
          (key_matches new.model new.oracle_epoch new.generation new.token)
          new)
        Never
unfolding insert
insert_refines c items base new h =
    let matches = key_matches new.model new.oracle_epoch new.generation new.token in
    let v : Entry = record { item = new; newer = none; older = none } in
    let c1 : Cache = record c {
      heap = c.heap ++ (v ∷ []);
      references = retain new.snapshot c.references;
    } in
    let (inside, fresh) = created-Holds c h.ids items base new h.inside in
    let size = length-append c.heap (v ∷ []) in
    let last : (entry c1.heap (length c.heap)).item ≡ new =
      ap (λ (x : Entry). x.item) (get_or-append_last c.heap v no_entry) in
    Ensures-if (c.maximum_bytes == 0 || ltb c.maximum_bytes new.bytes)
      (λ refused.
        Ensures-return (c, false)
          (
            refl,
            elim (Bool-cases (c.maximum_bytes == 0)) [
              | inl none_fit ↦ inl (ground arith)
              | inr some_fit ↦ inr (ground arith)
            ],
          ))
      (λ fits. Ensures-bind Ensures-request λ _ _. Ensures-bind (Ensures-request_all 2) λ _ _.
        Ensures-bind
          (subst
            (λ o.
              Ensures (walk matches c1.heap (length c1.heap) o) (Found matches c1.heap h.ids) Never)
            (sym inside.linked.newest_first)
            (Ensures-walk matches c1.heap (length c1.heap) none h.ids inside.linked.segment
              inside.room))
          λ r f.
            let t = take_out-TakenOut c1 h.ids items (with_item new base) matches r inside f in
            let c2 = take_out r c1 in
            Ensures-bind
              (subst
                (λ o.
                  Ensures (evict (length c2.heap) (c2.maximum_bytes - new.bytes) o c2)
                    (Evicted c2 t.ids_left t.rest t.base_left (c2.maximum_bytes - new.bytes)) Never)
                (sym t.inside.linked.oldest_last)
                (Ensures-evict (length c2.heap) (c2.maximum_bytes - new.bytes) c2 t.ids_left t.rest
                  t.base_left t.inside t.inside.room))
              λ c3 w. Ensures-return _ (
                linked-Inserted c c1 c3 h.ids items base matches new r (refl, size, last) fresh
                  h.inside.room (ground arith) t w))
