-- ===== src/Cache/TakeOut.antt =====
-- An entry taken out of the cache for sg_snapshot_cache_insert, and its reference until it is freed.
use sync_kgraph.Base.{
  ℕ, ◌+◌, ◌≤◌, ◌≡◌, ◌⊎◌, ◌∙◌, refl, sym, ap, subst, inl, inr, Bool, true, false, arith, ◌==◌,
  Bool-cases, List, [], ◌∷◌, ◌++◌, All, Option, none, some, length,
}
use sync_kgraph.Cache.{Item, Cache, entry, unlink, take_out, free_existing}
use sync_kgraph.Cache.Segment.{Absent}
use sync_kgraph.Cache.Links.{Linked, unlink-Linked}
use sync_kgraph.Cache.Items.{
  items_at, total, bytes_of, holds, items_at-same, Holds, Found, total-middle, length-middle,
  items_at-append, items_at-middle, none_match,
}

-- the items that stay when an item with the key is taken out
abbrev pub Removed : (Item → Bool) → List Item → List Item → Type 0
Removed matches items rest =
    (All (λ x. matches x ≡ false) items × (rest ≡ items))
    ⊎ ((before : List Item) × (x : Item) × (after : List Item) × (items ≡ before ++ (x ∷ after))
        × All (λ y. matches y ≡ false) before
        × (matches x ≡ true)
        × (rest ≡ before ++ after))

-- the references that an item holds are counted in the base
abbrev pub with_item : Item → (ℕ → ℕ) → ℕ → ℕ
with_item x base s = base s + holds s x

-- what taking out leaves: the reference of the item that was taken out is in the base until it is freed
pub record TakenOut (c : Cache) (ids : List ℕ) (items : List Item) (base : ℕ → ℕ)
    (matches : Item → Bool) (r : Option ℕ) (c' : Cache) : Type 0 where
  pub ids_left : List ℕ
  pub rest : List Item
  pub base_left : ℕ → ℕ
  pub removed : Removed matches items rest
  pub inside : Holds c' ids_left rest base_left
  pub absent : (j : ℕ) → Absent j ids → Absent j ids_left
  pub fewer : length ids_left ≤ length ids
  pub same_maximum : c'.maximum_bytes ≡ c.maximum_bytes
  pub same_size : length c'.heap ≡ length c.heap
  pub same_items : (j : ℕ) → (entry c'.heap j).item ≡ (entry c.heap j).item
  pub counted :
      (d : Cache)
      → ((j : ℕ) → (entry d.heap j).item ≡ (entry c.heap j).item)
      → (s k : ℕ) → d.references s ≡ base_left s + k
      → (free_existing r d).references s ≡ base s + k

Absent-split :
    (j : ℕ) (xs : List ℕ) (e : ℕ) (ys : List ℕ) → Absent j (xs ++ (e ∷ ys)) → Absent j (xs ++ ys)
Absent-split j [] e ys (_, h) = h
Absent-split j (x ∷ xs) e ys (ne, h) = (ne, Absent-split j xs e ys h)

pub take_out-TakenOut :
    (c : Cache) (ids : List ℕ) (items : List Item) (base : ℕ → ℕ) (matches : Item → Bool)
    (r : Option ℕ)
    → Holds c ids items base
    → Found matches c.heap ids r
    → TakenOut c ids items base matches r (take_out r c)
unfolding take_out free_existing
take_out-TakenOut c ids items base matches none h f = record {
  ids_left = ids;
  rest = items;
  base_left = base;
  removed =
      inl (subst (All (λ x. matches x ≡ false)) h.contents (none_match matches c.heap ids f), refl);
  inside = h;
  absent = λ j a. a;
  fewer = omega arith;
  same_maximum = refl;
  same_size = refl;
  same_items = λ j. refl;
  counted = λ d same s k e. e;
}
take_out-TakenOut c ids items base matches (some e) h (xs, ys, eq, hit, before) =
    let (linked, same, _) = unlink-Linked c xs e ys (subst (Linked c) eq h.linked) in
    let c' = unlink c e in
    let x = (entry c.heap e).item in
    let olds = items_at c.heap xs in
    let news = items_at c.heap ys in
    let split : items ≡ olds ++ (x ∷ news) =
      sym h.contents ∙ ap (items_at c.heap) eq ∙ items_at-middle c.heap xs e ys in
    let it : (entry c'.heap e).item ≡ x = same.items e in
    record {
      ids_left = xs ++ ys;
      rest = olds ++ news;
      base_left = with_item x base;
      removed = inr (olds, x, news, split, none_match matches c.heap xs before, hit, refl);
      inside = record {
        linked = record {
          segment = linked.segment;
          distinct = linked.distinct;
          newest_first = linked.newest_first;
          oldest_last = linked.oldest_last;
        };
        contents =
            items_at-same c.heap c'.heap (xs ++ ys) same.items ∙ items_at-append c.heap xs ys;
        room =
            let z = ap (λ (t : List ℕ). length t) eq in
            omega (arith, h.room, same.size, length-middle xs e ys);
        sum =
            let z = ap (total bytes_of) split in
            let b = ap bytes_of it in
            omega (arith, same.same_bytes, h.sum, total-middle bytes_of olds x news);
        held = λ s.
            let z = ap (total (holds s)) split in
            let m = total-middle (holds s) olds x news in
            let r = ap (λ (f : ℕ → ℕ). f s) same.same_references in omega (arith, h.held s);
      };
      absent = λ j a. Absent-split j xs e ys (subst (Absent j) eq a);
      fewer = let z = ap (λ (t : List ℕ). length t) eq in omega (arith, length-middle xs e ys);
      same_maximum = same.same_maximum;
      same_size = same.size;
      same_items = same.items;
      counted = λ d kept s k e'.
          let b = ap (λ (i : Item). i.snapshot) (kept e) in
          elim (Bool-cases (s == (entry d.heap e).item.snapshot)) [
            | inl own ↦ ground arith
            | inr other ↦ ground arith
          ];
    }
