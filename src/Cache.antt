-- ===== src/Cache.antt =====
-- src/snapshot_cache.c: a cache of snapshots with a bound on their bytes, as a doubly linked list of
-- entries from the newest to the oldest. Each call holds the mutex of the cache while it reads or
-- writes the list, so a call is one step here.
pub mod Segment
pub mod Relink
pub mod Links
pub mod Items
pub mod Lookup
pub mod Evict
pub mod TakeOut
pub mod Insert
pub mod Lifetime
use sync_kgraph.Base.{
  ℕ, zero, suc, ◌+◌, ◌-◌, Bool, true, false, not, ◌&&◌, ◌||◌, List, [], ◌∷◌, ◌++◌, Option, none,
  some, ltb, ◌==◌, if◌then◌else◌, length, get_or, set, M, ◌>>=◌, ◌>>◌, return, stuck, request,
  request_all,
}
use sync_kgraph.Automaton.{Key, key_equal}

-- the members of sg_snapshot_cache_entry but its links. A snapshot is its address.
pub record Item : Type 0 where
  pub model : Key
  pub token : Key
  pub oracle_epoch : ℕ
  pub generation : ℕ
  pub bytes : ℕ
  pub snapshot : ℕ

-- sg_snapshot_cache_entry
pub record Entry : Type 0 where
  pub item : Item
  pub newer : Option ℕ
  pub older : Option ℕ

-- sg_snapshot_cache. The address of an entry is its place in `heap`; an entry that is freed stays there,
-- and no link leads to it. `references` are the counters of the snapshots.
pub record Cache : Type 0 where
  pub maximum_bytes : ℕ
  pub bytes : ℕ
  pub newest : Option ℕ
  pub oldest : Option ℕ
  pub heap : List Entry
  pub references : ℕ → ℕ

abbrev pub no_entry : Entry
no_entry = record {
  item = record {
    model = [];
    token = [];
    oracle_epoch = 0;
    generation = 0;
    bytes = 0;
    snapshot = 0;
  };
  newer = none;
  older = none;
}

abbrev pub entry : List Entry → ℕ → Entry
entry heap i = get_or heap i no_entry

-- sg_pair_snapshot_retain, and sg_pair_snapshot_release but for the end of a snapshot
abbrev pub retain : ℕ → (ℕ → ℕ) → ℕ → ℕ
retain snapshot references s = if s == snapshot then references s + 1 else references s

abbrev pub release : ℕ → (ℕ → ℕ) → ℕ → ℕ
release snapshot references s = if s == snapshot then references s - 1 else references s

unfoldable pub set_newer : List Entry → ℕ → Option ℕ → List Entry
set_newer heap i link = set heap i (record (entry heap i) { newer = link })

unfoldable pub set_older : List Entry → ℕ → Option ℕ → List Entry
set_older heap i link = set heap i (record (entry heap i) { older = link })

unfoldable pub set_links : List Entry → ℕ → Option ℕ → Option ℕ → List Entry
set_links heap i newer older = set heap i (record (entry heap i) { newer = newer; older = older })

-- the older link of the newer neighbour, or the newest entry of the cache, when there is none
unfoldable pub relink_older : Option ℕ → Option ℕ → Cache → Cache
unfolding set_older
relink_older (some i) older c = record c { heap = set_older c.heap i older }
relink_older none older c = record c { newest = older }

-- the newer link of the older neighbour, or the oldest entry of the cache, when there is none
unfoldable pub relink_newer : Option ℕ → Option ℕ → Cache → Cache
unfolding set_newer
relink_newer (some i) newer c = record c { heap = set_newer c.heap i newer }
relink_newer none newer c = record c { oldest = newer }

-- sg_cache_unlink
unfoldable pub unlink : Cache → ℕ → Cache
unfolding relink_older relink_newer set_links
unlink c e =
    let c' = relink_older (entry c.heap e).newer (entry c.heap e).older c in
    let c'' = relink_newer (entry c'.heap e).older (entry c'.heap e).newer c' in
    record c'' { heap = set_links c''.heap e none none }

-- sg_cache_link_newest
unfoldable pub link_newest : Cache → ℕ → Cache
unfolding relink_newer set_links
link_newest c e =
    let c' =
      relink_newer c.newest (some e) (record c { heap = set_links c.heap e none c.newest }) in
    record c' { newest = some e }

-- sg_cache_pop_oldest, for an entry that is the oldest
unfoldable pub pop_oldest : Cache → ℕ → Cache
unfolding relink_older set_links
pop_oldest c e =
    let newer = (entry c.heap e).newer in
    let c' = relink_older newer none (record c { oldest = newer }) in
    record c' { heap = set_links c'.heap e none none }

-- sg_cache_key_equal
unfoldable pub key_matches : Key → ℕ → ℕ → Key → Item → Bool
key_matches model oracle_epoch generation token i =
    i.oracle_epoch == oracle_epoch
    && i.generation == generation
    && key_equal i.model model
    && key_equal i.token token

-- The walks of sg_snapshot_cache_lookup and sg_snapshot_cache_insert, with fuel.
unfoldable pub walk : (Item → Bool) → List Entry → ℕ → Option ℕ → M (Option ℕ)
walk matches heap fuel none = return none
walk matches heap zero (some e) = stuck
walk matches heap (suc fuel) (some e) =
    let older = walk matches heap fuel (entry heap e).older in
    if matches (entry heap e).item then return (some e) else older

-- an entry that was found becomes the newest, unless it is
unfoldable pub promote : Option ℕ → ℕ → Cache → Cache
unfolding unlink link_newest
promote none e c = link_newest (unlink c e) e
promote (some n) e c = if e == n then c else link_newest (unlink c e) e

-- behind the walk of sg_snapshot_cache_lookup
unfoldable pub answer : Option ℕ → Cache → Cache × Option ℕ
unfolding promote
answer none c = (c, none)
answer (some e) c =
    let c' = promote c.newest e c in
    let snapshot = (entry c'.heap e).item.snapshot in
    (record c' { references = retain snapshot c'.references }, some snapshot)

-- sg_snapshot_cache_lookup
unfoldable pub lookup : Cache → Key → ℕ → ℕ → Key → M (Cache × Option ℕ)
unfolding walk key_matches answer
lookup c model oracle_epoch generation token = do
  found ← walk (key_matches model oracle_epoch generation token) c.heap (length c.heap) c.newest
  return (answer found c)

-- sg_cache_entry_free of an entry that holds a snapshot
abbrev pub free_entry : ℕ → Cache → Cache
free_entry e c = record c { references = release (entry c.heap e).item.snapshot c.references }

-- an entry of the same key leaves the list and the sum
unfoldable pub take_out : Option ℕ → Cache → Cache
unfolding unlink
take_out none c = c
take_out (some e) c =
    let c' = unlink c e in record c' { bytes = c'.bytes - (entry c'.heap e).item.bytes }

-- one round of the loop that evicts
unfoldable pub drop_oldest : ℕ → Cache → Cache
unfolding pop_oldest
drop_oldest e c =
    let c' = pop_oldest c e in
    free_entry e (record c' { bytes = c'.bytes - (entry c'.heap e).item.bytes })

-- The loop that evicts, with fuel; the third argument is the oldest entry.
unfoldable pub evict : ℕ → ℕ → Option ℕ → Cache → M Cache
unfolding drop_oldest
evict fuel remaining none c = return c
evict zero remaining (some e) c = if ltb remaining c.bytes then stuck else return c
evict (suc fuel) remaining (some e) c =
    let c' = drop_oldest e c in
    let rest = evict fuel remaining c'.oldest c' in if ltb remaining c.bytes then rest else return c

-- the entry that was taken out is freed, if there was one
unfoldable pub free_existing : Option ℕ → Cache → Cache
free_existing none c = c
free_existing (some e) c = free_entry e c

-- sg_snapshot_cache_insert. `bytes` is what sg_pair_snapshot_memory_bytes says of the snapshot; the
-- differences do not go below 0, since the sum counts each entry and the snapshot fits.
unfoldable pub insert : Cache → Key → ℕ → ℕ → Key → ℕ → ℕ → M (Cache × Bool)
unfolding walk key_matches take_out evict link_newest free_existing
insert c model oracle_epoch generation token snapshot bytes =
    if c.maximum_bytes == 0 || ltb c.maximum_bytes bytes then return (c, false) else (do
      request
      request_all 2
      let item : Item = record {
        model = model;
        token = token;
        oracle_epoch = oracle_epoch;
        generation = generation;
        bytes = bytes;
        snapshot = snapshot;
      }
      let created = length c.heap
      let c1 = record c {
        heap = c.heap ++ (record { item = item; newer = none; older = none } ∷ []);
        references = retain snapshot c.references;
      }
      existing ←
          walk (key_matches model oracle_epoch generation token) c1.heap (length c1.heap) c1.newest
      let c2 = take_out existing c1
      c3 ← evict (length c2.heap) (c2.maximum_bytes - bytes) c2.oldest c2
      let c4 = link_newest c3 created
      return (free_existing existing (record c4 { bytes = c4.bytes + bytes }), true))

-- The loop of sg_snapshot_cache_free, with fuel: the counters that it leaves.
unfoldable pub free_all : ℕ → List Entry → Option ℕ → (ℕ → ℕ) → M (ℕ → ℕ)
free_all fuel heap none references = return references
free_all zero heap (some e) references = stuck
free_all (suc fuel) heap (some e) references =
    free_all fuel heap (entry heap e).older (release (entry heap e).item.snapshot references)

-- sg_snapshot_cache_create, where the mutex is one request more
unfoldable pub create : ℕ → (ℕ → ℕ) → M Cache
create maximum_bytes references = do
  request
  request
  return (record {
    maximum_bytes = maximum_bytes;
    bytes = 0;
    newest = none;
    oldest = none;
    heap = [];
    references = references;
  })

-- sg_snapshot_cache_free
unfoldable pub cache_free : Cache → M (ℕ → ℕ)
unfolding free_all
cache_free c = free_all (length c.heap) c.heap c.newest c.references
