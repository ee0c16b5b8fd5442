-- ===== src/Cache/Links.antt =====
-- sg_cache_unlink, sg_cache_link_newest and sg_cache_pop_oldest on the list of entries.
use sync_kgraph.Base.{
  ℕ, ◌<◌, ◌≡◌, ◌≢◌, ◌∙◌, refl, sym, ap, subst, arith, List, [], ◌∷◌, ◌++◌, All-append, Option, none,
  some, length, length-set, set, get_or-set_self,
}
use sync_kgraph.Cache.{
  Entry, Cache, entry, no_entry, set_links, relink_older, relink_newer, unlink, link_newest,
  pop_oldest,
}
use sync_kgraph.Cache.Segment.{
  head_or, last_or, Absent, NoRepeat, Segment, Segment-kept, set_kept, Segment-append,
  Segment-split,
}
use sync_kgraph.Cache.Relink.{
  head_or-append, last_or-append, NoRepeat-split, NoRepeat-append, Disjoint-tail, Disjoint-head,
  Disjoint-comm, Same, Same-trans, set-Same, Same-refl, relink_older-OlderWritten,
  relink_newer-NewerWritten, frame_all,
}

-- the list of the cache, from the newest to the oldest entry
pub record Linked (c : Cache) (ids : List ℕ) : Type 0 where
  pub segment : Segment c.heap none ids none
  pub distinct : NoRepeat ids
  pub newest_first : c.newest ≡ head_or ids none
  pub oldest_last : c.oldest ≡ last_or none ids

-- the links of an entry that is in no list are written
set_links-kept :
    (c : Cache) (e : ℕ) (newer older : Option ℕ) (ids : List ℕ)
    → e < length c.heap
    → Absent e ids
    → Linked c ids
    → Linked (record c { heap = set_links c.heap e newer older }) ids
      × Same c (record c { heap = set_links c.heap e newer older })
unfolding set_links
set_links-kept c e newer older ids l apart h =
    let v : Entry = record (entry c.heap e) { newer = newer; older = older } in
    (
      record {
        segment =
            Segment-kept c.heap (set c.heap e v) none ids none (length-set c.heap e v)
              (set_kept c.heap e v ids apart) h.segment;
        distinct = h.distinct;
        newest_first = h.newest_first;
        oldest_last = h.oldest_last;
      },
      set-Same c e v l refl,
    )

-- An entry leaves the list.
pub unlink-Linked :
    (c : Cache) (xs : List ℕ) (e : ℕ) (ys : List ℕ)
    → Linked c (xs ++ (e ∷ ys))
    → Linked (unlink c e) (xs ++ ys) × Same c (unlink c e) × Absent e (xs ++ ys)
unfolding unlink
unlink-Linked c xs e ys h =
    let (hx, (l, en, eo, hy)) = Segment-split c.heap none xs (e ∷ ys) none h.segment in
    let (dx, (apart_y, dy), cross) = NoRepeat-split xs (e ∷ ys) h.distinct in
    let apart_x = Disjoint-head xs e ys cross in
    let d = Disjoint-tail xs e ys cross in
    let link = (entry c.heap e).newer in
    let target = (entry c.heap e).older in
    let c' = relink_older link target c in
    let o = relink_older-OlderWritten c xs link (some e) target en hx dx in
    let cell = o.frame e apart_x in
    let link' = (entry c'.heap e).older in
    let target' = (entry c'.heap e).newer in
    let eo' = ap (λ (x : Entry). x.older) cell ∙ eo in
    let en' = ap (λ (x : Entry). x.newer) cell ∙ en in
    let hy' =
      Segment-kept c.heap c'.heap (some e) ys none o.same.size
        (frame_all c.heap c'.heap xs ys o.frame (Disjoint-comm xs ys d)) hy in
    let c'' = relink_newer link' target' c' in
    let n = relink_newer-NewerWritten c' ys link' (some e) target' eo' hy' dy in
    let hx' =
      Segment-kept c'.heap c''.heap none xs target n.same.size
        (frame_all c'.heap c''.heap ys xs n.frame d) o.segment in
    let joined : Linked c'' (xs ++ ys) = record {
      segment =
          Segment-append c''.heap none xs ys none (subst (λ t. Segment c''.heap none xs t) eo hx')
            (subst (λ t. Segment c''.heap t ys none) en' n.segment);
      distinct = NoRepeat-append xs ys dx dy d;
      newest_first =
          n.same_newest
          ∙ o.newest_first (h.newest_first ∙ head_or-append xs (e ∷ ys) none)
          ∙ ap (head_or xs) eo
          ∙ sym (head_or-append xs ys none);
      oldest_last =
          n.oldest_last (o.same_oldest ∙ h.oldest_last ∙ last_or-append none xs (e ∷ ys))
          ∙ ap (λ t. last_or t ys) en'
          ∙ sym (last_or-append none xs ys);
    } in
    let gone = All-append (λ x. x ≢ e) xs ys apart_x apart_y in
    let size = Same-trans c c' c'' o.same n.same in
    let (linked, same) =
      set_links-kept c'' e none none (xs ++ ys) (omega (arith, size.size)) gone joined in
    (linked, Same-trans c c'' (unlink c e) size same, gone)

-- An entry that is in no list becomes the newest.
pub link_newest-Linked :
    (c : Cache) (e : ℕ) (ids : List ℕ)
    → e < length c.heap
    → Absent e ids
    → Linked c ids
    → Linked (link_newest c e) (e ∷ ids) × Same c (link_newest c e)
unfolding link_newest set_links
link_newest-Linked c e ids l apart h =
    let v : Entry = record (entry c.heap e) { newer = none; older = c.newest } in
    let c0 : Cache = record c { heap = set c.heap e v } in
    let (h0, s0) = set_links-kept c e none c.newest ids l apart h in
    let c' = relink_newer c.newest (some e) c0 in
    let n =
      relink_newer-NewerWritten c0 ids c.newest none (some e) h.newest_first h0.segment
        h.distinct in
    let cell : entry c'.heap e ≡ v = n.frame e apart ∙ get_or-set_self c.heap e v no_entry l in
    (
      record {
        segment = (
          omega (arith, n.same.size, s0.size),
          ap (λ (x : Entry). x.newer) cell,
          ap (λ (x : Entry). x.older) cell ∙ h.newest_first,
          n.segment,
        );
        distinct = (apart, h.distinct);
        newest_first = refl;
        oldest_last = n.oldest_last h.oldest_last;
      },
      let s = Same-trans c c0 c' s0 n.same in
          record {
            size = s.size;
            items = s.items;
            same_bytes = s.same_bytes;
            same_maximum = s.same_maximum;
            same_references = s.same_references;
          },
    )

-- The oldest entry leaves the list.
pub pop_oldest-Linked :
    (c : Cache) (xs : List ℕ) (e : ℕ)
    → Linked c (xs ++ (e ∷ []))
    → Linked (pop_oldest c e) xs × Same c (pop_oldest c e)
unfolding pop_oldest
pop_oldest-Linked c xs e h =
    let (hx, (l, en, eo, _)) = Segment-split c.heap none xs (e ∷ []) none h.segment in
    let (dx, _, cross) = NoRepeat-split xs (e ∷ []) h.distinct in
    let link = (entry c.heap e).newer in
    let c0 : Cache = record c { oldest = link } in
    let s0 = Same-refl c c.newest link in
    let c' = relink_older link none c0 in
    let o = relink_older-OlderWritten c0 xs link (some e) none en hx dx in
    let (linked, same) =
      set_links-kept c' e none none xs (omega (arith, o.same.size)) (Disjoint-head xs e [] cross)
        (record {
          segment = o.segment;
          distinct = dx;
          newest_first = o.newest_first (h.newest_first ∙ head_or-append xs (e ∷ []) none);
          oldest_last = o.same_oldest ∙ en;
        }) in
    (linked, Same-trans c c' (pop_oldest c e) (Same-trans c c0 c' s0 o.same) same)
