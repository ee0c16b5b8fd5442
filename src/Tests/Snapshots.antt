-- ===== src/Tests/Snapshots.antt =====
-- The cache of snapshots at concrete inputs.
use sync_kgraph.Base.{ℕ, ◌+◌, ◌≡◌, refl, arith, List, [], ◌∷◌, none, some, Ensures, Never}
use sync_kgraph.Cache.{Item, Cache, key_matches, lookup, insert, cache_free}
use sync_kgraph.Cache.Items.{holds, IsCache}
use sync_kgraph.Cache.Lookup.{LookedUp, lookup_refines}
use sync_kgraph.Cache.Insert.{Inserted, insert_refines}
use sync_kgraph.Cache.Lifetime.{cache_free_releases}

abbrev item_of : ℕ → ℕ → Item
item_of generation snapshot = record {
  model = 77 ∷ [];
  token = 116 ∷ [];
  oracle_epoch = 3;
  generation = generation;
  bytes = 40;
  snapshot = snapshot;
}

-- generation 50 is newer than generation 49
abbrev two_items : List Item
two_items = item_of 50 8 ∷ item_of 49 7 ∷ []

abbrev no_others : ℕ → ℕ
no_others s = 0

abbrev cache : Cache
cache = record {
  maximum_bytes = 100;
  bytes = 80;
  newest = some 1;
  oldest = some 0;
  heap =
      record { item = item_of 49 7; newer = some 1; older = none }
      ∷ record { item = item_of 50 8; newer = none; older = some 0 }
      ∷ [];
  references = λ s. holds s (item_of 50 8) + holds s (item_of 49 7);
}

cache-IsCache : IsCache cache two_items no_others
cache-IsCache = record {
  ids = 1 ∷ 0 ∷ [];
  inside = record {
    linked = record {
      segment = (omega arith, refl, refl, (omega arith, refl, refl, tt));
      distinct = (((λ e. omega arith), tt), (tt, tt));
      newest_first = refl;
      oldest_last = refl;
    };
    contents = refl;
    room = omega arith;
    sum = refl;
    held = λ s. omega arith;
  };
  bounded = omega arith;
}

lookup_example :
    Ensures
      (lookup cache (77 ∷ []) 3 49 (116 ∷ []))
      (LookedUp cache two_items no_others (key_matches (77 ∷ []) 3 49 (116 ∷ [])))
      Never
lookup_example = lookup_refines cache two_items no_others (77 ∷ []) 3 49 (116 ∷ []) cache-IsCache

insert_example :
    Ensures
      (insert cache (77 ∷ []) 3 51 (116 ∷ []) 9 40)
      (Inserted cache two_items no_others (key_matches (77 ∷ []) 3 51 (116 ∷ [])) (item_of 51 9))
      Never
insert_example = insert_refines cache two_items no_others (item_of 51 9) cache-IsCache

free_example : Ensures (cache_free cache) (λ references. (s : ℕ) → references s ≡ 0) Never
free_example = cache_free_releases cache two_items no_others cache-IsCache
