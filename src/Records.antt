-- ===== src/Records.antt =====
-- src/oracle.c, the calls on a pair oracle: its records, their validation, restoring an oracle from
-- them, and the words that the witnesses spell.
pub mod Follow
pub mod Words
pub mod Valid
pub mod Exact
pub mod Agree
pub mod Stored
pub mod Restore
pub mod Roundtrip
use sync_kgraph.Base.{
  ℕ, zero, suc, ◌+◌, ◌*◌, ◌%◌, Bool, true, false, not, ◌&&◌, ◌||◌, List, [], ◌∷◌, ltb, ◌==◌,
  if◌then◌else◌, length, get_or, set, replicate, index_none, size_mod, M, ◌>>=◌, ◌>>◌, return,
  stuck, guard, request, invalid_argument, invalid_model, not_found,
}
use sync_kgraph.Automaton.{Automaton, cell}
use sync_kgraph.Word.{Word, empty_word, append}
use sync_kgraph.Sync.{Kind, merge, resolution, PairRecord, is_resolution, pair_index}
use sync_kgraph.Oracle.{
  Oracle, Table, table, next_of, differs, support_loop, oracle_allocate, fill_pairs,
}

-- sg_pair_oracle_pair_edge_count
unfoldable pub pair_edge_count : Oracle → ℕ
pair_edge_count o = (o.pair_count * o.automaton.action_count) % size_mod

-- The loop of sg_reachable_pair_count.
unfoldable pub reachable_from : List ℕ → ℕ → ℕ → ℕ
reachable_from ds pair zero = 0
reachable_from ds pair (suc left) =
    (if get_or ds pair index_none == index_none then 0 else 1) + reachable_from ds (pair + 1) left

-- sg_pair_oracle_mergeable_pair_count and sg_pair_oracle_resolvable_pair_count
unfoldable pub reachable_pair_count : Oracle → Kind → ℕ
unfolding reachable_from
reachable_pair_count o kind = reachable_from (table o kind).distance 0 o.pair_count

unfoldable pub pair_states : Oracle → ℕ → M (ℕ × ℕ)
pair_states o pair = do
  guard (ltb pair o.pair_count) invalid_argument
  return (get_or o.first pair 0, get_or o.second pair 0)

unfoldable pub pair_step : Oracle → ℕ → ℕ → M (ℕ × Bool)
pair_step o pair action = do
  guard (ltb pair o.pair_count && ltb action o.automaton.action_count) invalid_argument
  return (next_of o pair action, differs o pair action)

-- the record of a pair
abbrev pub record_of : Oracle → ℕ → PairRecord
record_of o pair =
    let m = o.merge_table in
    let r = o.resolution_table in
    record {
      pair = pair;
      mergeable = not (get_or m.distance pair index_none == index_none);
      merge_distance = get_or m.distance pair index_none;
      merge_action = get_or m.action pair index_none;
      merge_next_pair = get_or m.next pair index_none;
      merge_support_count = get_or m.support_count pair 0;
      resolvable = not (get_or r.distance pair index_none == index_none);
      resolution_distance = get_or r.distance pair index_none;
      resolution_action = get_or r.action pair index_none;
      resolution_next_pair = get_or r.next pair index_none;
      resolution_support_count = get_or r.support_count pair 0;
    }

-- sg_pair_oracle_record
unfoldable pub oracle_record : Oracle → ℕ → M PairRecord
oracle_record o pair = do guard (ltb pair o.pair_count) invalid_argument; return (record_of o pair)

-- a record with no witness
abbrev pub no_witness_named : Table → ℕ → Bool
no_witness_named t pair =
    get_or t.action pair index_none == index_none
    && get_or t.next pair index_none == index_none
    && get_or t.support_count pair 0 == 0

-- sg_merge_record_valid
unfoldable pub merge_record_valid : Oracle → ℕ → Bool
merge_record_valid o pair =
    let t = o.merge_table in
    let distance = get_or t.distance pair index_none in
    let action = get_or t.action pair index_none in
    let next = get_or t.next pair index_none in
    let count = support_loop o merge t.distance pair 0 o.automaton.action_count in
    if distance == index_none
    then no_witness_named t pair
    else if distance == 0
    then get_or o.first pair 0 == get_or o.second pair 0 && no_witness_named t pair
    else ltb action o.automaton.action_count
      && ltb next o.pair_count
      && next_of o pair action == next
      && not (get_or t.distance next index_none == index_none)
      && get_or t.distance next index_none + 1 == distance
      && not (count == 0)
      && get_or t.support_count pair 0 == count

-- sg_resolution_record_valid
unfoldable pub resolution_record_valid : Oracle → ℕ → Bool
resolution_record_valid o pair =
    let t = o.resolution_table in
    let distance = get_or t.distance pair index_none in
    let action = get_or t.action pair index_none in
    let next = get_or t.next pair index_none in
    let count = support_loop o resolution t.distance pair 0 o.automaton.action_count in
    if distance == index_none
    then no_witness_named t pair
    else if distance == 0
    then get_or o.first pair 0 == get_or o.second pair 0 && no_witness_named t pair
    else if not (ltb action o.automaton.action_count)
    then false
    else if count == 0 || not (get_or t.support_count pair 0 == count)
    then false
    else if next == index_none
    then distance == 1 && differs o pair action
    else ltb next o.pair_count
      && not (differs o pair action)
      && next_of o pair action == next
      && not (get_or t.distance next index_none == index_none)
      && get_or t.distance next index_none + 1 == distance

-- the members of one kind go to their cells
unfoldable pub store_cells : Table → ℕ → Bool → ℕ → ℕ → ℕ → ℕ → Table
store_cells t pair reachable distance action next count = record {
  distance = set t.distance pair (if reachable then distance else index_none);
  action = set t.action pair (if reachable then action else index_none);
  next = set t.next pair (if reachable then next else index_none);
  support_count = set t.support_count pair count;
}

-- the body of the loop over records
unfoldable pub store_record : PairRecord → Oracle → Oracle
unfolding store_cells
store_record r o = record o {
  merge_table =
      store_cells o.merge_table r.pair r.mergeable r.merge_distance r.merge_action r.merge_next_pair
        r.merge_support_count;
  resolution_table =
      store_cells o.resolution_table r.pair r.resolvable r.resolution_distance r.resolution_action
        r.resolution_next_pair r.resolution_support_count;
}

-- The loop over records, with the pairs seen.
unfoldable pub store_records : List PairRecord → List Bool → Oracle → M (Oracle × List Bool)
unfolding store_record
store_records [] seen o = return (o, seen)
store_records (r ∷ rs) seen o = do
  guard (ltb r.pair o.pair_count && not (get_or seen r.pair false)) invalid_model
  store_records rs (set seen r.pair true) (store_record r o)

-- The loop that validates.
unfoldable pub check_records : Oracle → List Bool → ℕ → ℕ → M (Unit {0})
unfolding merge_record_valid resolution_record_valid
check_records o seen pair zero = return tt
check_records o seen pair (suc left) = do
  guard (get_or seen pair false && merge_record_valid o pair && resolution_record_valid o pair)
      invalid_model
  check_records o seen (pair + 1) left

-- sg_pair_oracle_restore
unfoldable pub oracle_restore : Automaton → List PairRecord → M Oracle
unfolding store_records check_records
oracle_restore a records = do
  created ← oracle_allocate a
  guard (length records == created.pair_count) invalid_model
  request
  stored ← store_records records (replicate created.pair_count false) (fill_pairs created)
  check_records stored.0 stored.1 0 stored.0.pair_count
  return stored.0

-- The `while` loop of sg_witness_word. `rounds` bounds it: on an oracle whose records are valid the
-- distance falls by one in each.
unfoldable pub follow : Oracle → Kind → ℕ → ℕ → Word → M Word
follow o kind zero pair word = stuck
follow o kind (suc rounds) pair word =
    let t = table o kind in
    if get_or t.distance pair index_none == 0 then return word else (do
      let action = get_or t.action pair index_none
      let next = get_or t.next pair index_none
      guard (not (action == index_none)) invalid_model
      longer ← append word action
      if is_resolution kind && next == index_none
          then return longer
          else (do guard (ltb next o.pair_count) invalid_model; follow o kind rounds next longer))

-- sg_witness_word, which sg_pair_oracle_merge_word and sg_pair_oracle_resolution_word call
unfoldable pub witness_word : Oracle → Kind → ℕ → ℕ → M Word
unfolding follow
witness_word o kind first second = do
  guard (ltb first o.automaton.state_count && ltb second o.automaton.state_count) invalid_argument
  let pair = pair_index o.automaton.state_count first second
  let distance = get_or (table o kind).distance pair index_none
  guard (not (distance == index_none)) not_found
  follow o kind (distance + 1) pair empty_word
