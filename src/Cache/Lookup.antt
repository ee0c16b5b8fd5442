-- ===== src/Cache/Lookup.antt =====
-- sg_snapshot_cache_lookup: the snapshot of the first item with the key, which becomes the newest.
use sync_kgraph.Base.{
  ℕ, ◌≤◌, ◌<◌, ◌≡◌, ◌∙◌, refl, sym, ap, subst, inl, inr, Bool, true, false, arith, ◌==◌, Bool-cases,
  if-cases, List, [], ◌∷◌, ◌++◌, All, Option, none, some, length, Never, Ensures, Ensures-return,
  Ensures-bind,
}
use sync_kgraph.Automaton.{Key}
use sync_kgraph.Cache.{
  Item, Entry, Cache, entry, retain, walk, promote, answer, lookup, key_matches, unlink,
  link_newest,
}
use sync_kgraph.Cache.Segment.{Segment}
use sync_kgraph.Cache.Relink.{Same, Same-trans}
use sync_kgraph.Cache.Links.{Linked, unlink-Linked, link_newest-Linked}
use sync_kgraph.Cache.Items.{
  items_at, total, bytes_of, holds, items_at-same, Holds, IsCache, Found, Ensures-walk,
  total-middle, length-middle, items_at-append, items_at-middle, none_match,
}

-- what the call leaves: no item has the key, or the first one with it becomes the newest, and the
-- caller has one more reference to its snapshot
abbrev pub LookedUp : Cache → List Item → (ℕ → ℕ) → (Item → Bool) → Cache × Option ℕ → Type 0
LookedUp c items base matches (c', none) = All (λ x. matches x ≡ false) items × (c' ≡ c)
LookedUp c items base matches (c', some snapshot) =
    (before : List Item) × (x : Item) × (after : List Item) × (items ≡ before ++ (x ∷ after))
    × All (λ y. matches y ≡ false) before
    × (matches x ≡ true)
    × (snapshot ≡ x.snapshot)
    × IsCache c' (x ∷ (before ++ after)) (retain snapshot base)

Same-self : (c : Cache) → Same c c
Same-self c = record {
  size = refl;
  items = λ j. refl;
  same_bytes = refl;
  same_maximum = refl;
  same_references = refl;
}

-- An entry of the list becomes the newest, if it is not.
promote-Linked :
    (c : Cache) (xs : List ℕ) (e : ℕ) (ys : List ℕ)
    → Linked c (xs ++ (e ∷ ys))
    → e < length c.heap
    → Linked (promote c.newest e c) (e ∷ (xs ++ ys)) × Same c (promote c.newest e c)
unfolding promote
promote-Linked c [] e ys h l =
    subst (λ n. Linked (promote n e c) (e ∷ ys) × Same c (promote n e c)) (sym h.newest_first)
      (if-cases (λ (c' : Cache). Linked c' (e ∷ ys) × Same c c') (e == e) (λ _. (h, Same-self c))
        (λ other. absurd (ground arith)))
promote-Linked c (x ∷ xs) e ys h l =
    let (moved, same, gone) = unlink-Linked c (x ∷ xs) e ys h in
    let (front, same') =
      link_newest-Linked (unlink c e) e (x ∷ (xs ++ ys)) (omega (arith, same.size)) gone moved in
    subst (λ n. Linked (promote n e c) (e ∷ x ∷ (xs ++ ys)) × Same c (promote n e c))
      (sym h.newest_first)
      (if-cases (λ (c' : Cache). Linked c' (e ∷ x ∷ (xs ++ ys)) × Same c c') (e == x)
        (λ here. absurd (gone.0 (ground arith)))
        (λ _. (front, Same-trans c (unlink c e) (link_newest (unlink c e) e) same same')))

-- the addresses of a list are of the heap
pub Segment-lt :
    (heap : List Entry) (before : Option ℕ) (xs : List ℕ) (e : ℕ) (ys : List ℕ)
    → Segment heap before (xs ++ (e ∷ ys)) none
    → e < length heap
Segment-lt heap before [] e ys h = h.0
Segment-lt heap before (x ∷ xs) e ys (_, _, _, h) = Segment-lt heap (some x) xs e ys h

answer-LookedUp :
    (c : Cache) (ids : List ℕ) (items : List Item) (base : ℕ → ℕ) (matches : Item → Bool)
    (r : Option ℕ)
    → Holds c ids items base
    → c.bytes ≤ c.maximum_bytes
    → Found matches c.heap ids r
    → LookedUp c items base matches (answer r c)
unfolding answer
answer-LookedUp c ids items base matches none h b f =
    (subst (All (λ x. matches x ≡ false)) h.contents (none_match matches c.heap ids f), refl)
answer-LookedUp c ids items base matches (some e) h b (xs, ys, eq, hit, before) =
    let l : Linked c (xs ++ (e ∷ ys)) = subst (Linked c) eq h.linked in
    let (front, same) = promote-Linked c xs e ys l (Segment-lt c.heap none xs e ys l.segment) in
    let c' = promote c.newest e c in
    let x = (entry c.heap e).item in
    let olds = items_at c.heap xs in
    let news = items_at c.heap ys in
    let split : items ≡ olds ++ (x ∷ news) =
      sym h.contents ∙ ap (items_at c.heap) eq ∙ items_at-middle c.heap xs e ys in
    let it : (entry c'.heap e).item ≡ x = same.items e in
    let snap = ap (λ (i : Item). i.snapshot) it in
    (
      olds,
      x,
      news,
      split,
      none_match matches c.heap xs before,
      hit,
      snap,
      record {
        ids = e ∷ (xs ++ ys);
        inside = record {
          linked = record {
            segment = front.segment;
            distinct = front.distinct;
            newest_first = front.newest_first;
            oldest_last = front.oldest_last;
          };
          contents =
              items_at-same c.heap c'.heap (e ∷ (xs ++ ys)) same.items
              ∙ ap (λ t. x ∷ t) (items_at-append c.heap xs ys);
          room =
              let z = ap (λ (t : List ℕ). length t) eq in
              omega (arith, h.room, same.size, length-middle xs e ys);
          sum =
              let z = ap (total bytes_of) split in
              omega (arith, same.same_bytes, h.sum, total-middle bytes_of olds x news);
          held = λ s.
              let z = ap (total (holds s)) split in
              let m = total-middle (holds s) olds x news in
              let r = ap (λ (f : ℕ → ℕ). f s) same.same_references in
              let k = h.held s in
              elim (Bool-cases (s == (entry c'.heap e).item.snapshot)) [
                | inl own ↦ ground arith
                | inr other ↦ ground arith
              ];
        };
        bounded = omega (arith, same.same_bytes, same.same_maximum);
      },
    )

-- sg_snapshot_cache_lookup on a cache that holds the items, from the newest to the oldest: it ends, and
-- answers NULL when no item has the key, and changes nothing then; else it gives the snapshot of the
-- first item with the key, to which the caller has a new reference, and that item becomes the newest
-- while the others keep their order.
pub lookup_refines :
    (c : Cache) (items : List Item) (base : ℕ → ℕ) (model : Key) (oracle_epoch generation : ℕ)
    (token : Key)
    → IsCache c items base
    → Ensures
        (lookup c model oracle_epoch generation token)
        (LookedUp c items base (key_matches model oracle_epoch generation token))
        Never
unfolding lookup
lookup_refines c items base model oracle_epoch generation token h =
    let matches = key_matches model oracle_epoch generation token in
    let k = h.inside in
    Ensures-bind
      (subst
        (λ o. Ensures (walk matches c.heap (length c.heap) o) (Found matches c.heap h.ids) Never)
        (sym k.linked.newest_first)
        (Ensures-walk matches c.heap (length c.heap) none h.ids k.linked.segment k.room))
      λ r f. Ensures-return _ (answer-LookedUp c h.ids items base matches r k h.bounded f)
