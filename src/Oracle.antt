-- ===== src/Oracle.antt =====
-- src/oracle.c, the pair oracle: the graph of pairs of states, its distances by breadth-first search
-- from the merged pairs backwards, and a witness for each distance.
pub mod Pairs
pub mod Fill
pub mod Buckets
pub mod Queue
pub mod Distances
pub mod Seeds
pub mod Witnesses
pub mod Build
pub mod Shortest
use sync_kgraph.Base.{
  ℕ, zero, suc, ◌+◌, ◌-◌, ◌*◌, ◌/◌, Bool, true, false, not, ◌&&◌, ◌||◌, List, [], ◌∷◌, ◌++◌, ltb,
  ◌==◌, if◌then◌else◌, get_or, set, replicate, index_none, size_bytes, M, ◌>>=◌, ◌>>◌, return,
  stuck, guard, request, request_all, alloc,
}
use sync_kgraph.Automaton.{Automaton, cell, transition, observation}
use sync_kgraph.Sync.{Kind, merge, resolution, pair_index}

-- the four arrays of one kind: merge_distance, merge_action, merge_next and merge_support_count, or
-- those of resolution
pub record Table : Type 0 where
  pub distance : List ℕ
  pub action : List ℕ
  pub next : List ℕ
  pub support_count : List ℕ

-- sg_pair_oracle
pub record Oracle : Type 0 where
  pub automaton : Automaton
  pub pair_count : ℕ
  pub first : List ℕ
  pub second : List ℕ
  pub next : List ℕ
  pub outputs_differ : List Bool
  pub merge_table : Table
  pub resolution_table : Table

abbrev pub table : Oracle → Kind → Table
table o merge = o.merge_table
table o resolution = o.resolution_table

-- the index of an edge; it does not wrap, since the product of pairs and actions did not
abbrev pub edge_of : Oracle → ℕ → ℕ → ℕ
edge_of o pair action = cell o.automaton.action_count pair action

abbrev pub next_of : Oracle → ℕ → ℕ → ℕ
next_of o pair action = get_or o.next (edge_of o pair action) 0

abbrev pub differs : Oracle → ℕ → ℕ → Bool
differs o pair action = get_or o.outputs_differ (edge_of o pair action) false

-- sg_pair_count, and the status of its caller
unfoldable pub pair_count : ℕ → M ℕ
pair_count state_count = do
  guard (not (state_count == index_none)) alloc
  product ← size_bytes state_count (state_count + 1)
  return (product / 2)

-- sg_oracle_arrays_initialize, and the zeros of calloc
abbrev pub blank_table : ℕ → Table
blank_table pairs = record {
  distance = replicate pairs index_none;
  action = replicate pairs index_none;
  next = replicate pairs index_none;
  support_count = replicate pairs 0;
}

-- sg_oracle_allocate
unfoldable pub oracle_allocate : Automaton → M Oracle
unfolding pair_count
oracle_allocate a = do
  pairs ← pair_count a.state_count
  edges ← size_bytes pairs a.action_count
  request
  request_all 12
  return (record {
    automaton = a;
    pair_count = pairs;
    first = replicate pairs 0;
    second = replicate pairs 0;
    next = replicate edges 0;
    outputs_differ = replicate edges false;
    merge_table = blank_table pairs;
    resolution_table = blank_table pairs;
  })

-- The loop over actions of sg_oracle_fill_pairs.
unfoldable pub fill_edges : Automaton → ℕ → ℕ → ℕ → ℕ → ℕ → Oracle → Oracle
fill_edges a first second pair action zero o = o
fill_edges a first second pair action (suc left) o =
    let edge = cell a.action_count pair action in
    fill_edges a first second pair (action + 1) left (record o {
      next =
          set o.next edge
            (pair_index a.state_count (transition a first action) (transition a second action));
      outputs_differ =
          set o.outputs_differ edge
            (not (observation a first action == observation a second action));
    })

-- the body of the two loops over states
unfoldable pub fill_pair : Automaton → ℕ → ℕ → ℕ → Oracle → Oracle
unfolding fill_edges
fill_pair a first second pair o =
    fill_edges a first second pair 0 a.action_count
      (record o { first = set o.first pair first; second = set o.second pair second })

-- The loop over the second state, with the number of pairs done.
unfoldable pub fill_row : Automaton → ℕ → ℕ → ℕ → ℕ → Oracle → Oracle × ℕ
unfolding fill_pair
fill_row a first second zero pair o = (o, pair)
fill_row a first second (suc left) pair o =
    fill_row a first (second + 1) left (pair + 1) (fill_pair a first second pair o)

-- The loop over the first state: the second one starts with it, and as many states are left for it.
unfoldable pub fill_rows : Automaton → ℕ → ℕ → ℕ → Oracle → Oracle
unfolding fill_row
fill_rows a first zero pair o = o
fill_rows a first (suc left) pair o =
    let (o', pair') = fill_row a first first (suc left) pair o in
    fill_rows a (first + 1) left pair' o'

-- sg_oracle_fill_pairs
unfoldable pub fill_pairs : Oracle → Oracle
unfolding fill_rows
fill_pairs o = fill_rows o.automaton 0 o.automaton.state_count 0 o

-- sg_predecessors: the edges into a pair stand from its offset up to the next one
pub record Predecessors : Type 0 where
  pub offsets : List ℕ
  pub pairs : List ℕ
  pub actions : List ℕ

-- The first loop of sg_predecessors_build: the number of edges into each pair.
unfoldable pub count_targets : Oracle → ℕ → ℕ → List ℕ → List ℕ
count_targets o edge zero counts = counts
count_targets o edge (suc left) counts =
    let target = get_or o.next edge 0 in
    count_targets o (edge + 1) left (set counts target (get_or counts target 0 + 1))

-- The second loop: the offsets, and the counts set back to them.
unfoldable pub sum_offsets : ℕ → ℕ → List ℕ → List ℕ → List ℕ × List ℕ
sum_offsets pair zero offsets counts = (offsets, counts)
sum_offsets pair (suc left) offsets counts =
    let offset = get_or offsets pair 0 in
    sum_offsets (pair + 1) left (set offsets (pair + 1) (offset + get_or counts pair 0))
      (set counts pair offset)

-- the body of the third loop: an edge goes to the next free place of its target
unfoldable pub place_edge : Oracle → ℕ → ℕ → Predecessors → List ℕ → Predecessors × List ℕ
place_edge o pair action p counts =
    let target = next_of o pair action in
    let position = get_or counts target 0 in
    (
      record p { pairs = set p.pairs position pair; actions = set p.actions position action },
      set counts target (position + 1),
    )

unfoldable pub place_actions : Oracle → ℕ → ℕ → ℕ → Predecessors → List ℕ → Predecessors × List ℕ
unfolding place_edge
place_actions o pair action zero p counts = (p, counts)
place_actions o pair action (suc left) p counts =
    let (p', counts') = place_edge o pair action p counts in
    place_actions o pair (action + 1) left p' counts'

unfoldable pub place_pairs : Oracle → ℕ → ℕ → Predecessors → List ℕ → Predecessors
unfolding place_actions
place_pairs o pair zero p counts = p
place_pairs o pair (suc left) p counts =
    let (p', counts') = place_actions o pair 0 o.automaton.action_count p counts in
    place_pairs o (pair + 1) left p' counts'

-- sg_predecessors_build
unfoldable pub predecessors_build : Oracle → M Predecessors
unfolding count_targets sum_offsets place_pairs
predecessors_build o = do
  let edges = o.pair_count * o.automaton.action_count
  request_all 4
  let counts = count_targets o 0 edges (replicate o.pair_count 0)
  let (offsets, places) = sum_offsets 0 o.pair_count (replicate (o.pair_count + 1) 0) counts
  return (
      place_pairs o 0 o.pair_count
        (record { offsets = offsets; pairs = replicate edges 0; actions = replicate edges 0 })
        places)

-- the state of a breadth-first search: `pending` is queue[head .. tail)
pub record Search : Type 0 where
  pub distance : List ℕ
  pub pending : List ℕ

abbrev pub dist : Search → ℕ → ℕ
dist s pair = get_or s.distance pair index_none

-- a pair gets its distance and a place in the queue
unfoldable pub enqueue : ℕ → ℕ → Search → Search
enqueue pair distance s = record {
  distance = set s.distance pair distance;
  pending = s.pending ++ (pair ∷ []);
}

-- The loop that starts both searches: the pairs of equal states.
unfoldable pub seed_equal : Oracle → ℕ → ℕ → Search → Search
unfolding enqueue
seed_equal o pair zero s = s
seed_equal o pair (suc left) s =
    seed_equal o (pair + 1) left
      (if get_or o.first pair 0 == get_or o.second pair 0 then enqueue pair 0 s else s)

-- whether some action shows different outputs: the inner loop, which ends at the first one
unfoldable pub any_differs : Oracle → ℕ → ℕ → ℕ → Bool
any_differs o pair action zero = false
any_differs o pair action (suc left) = differs o pair action || any_differs o pair (action + 1) left

-- The second loop of sg_resolution_distances: the pairs that an action tells apart.
unfoldable pub seed_differing : Oracle → ℕ → ℕ → Search → Search
unfolding enqueue any_differs
seed_differing o pair zero s = s
seed_differing o pair (suc left) s = seed_differing o (pair + 1) left (
    if dist s pair == index_none && any_differs o pair 0 o.automaton.action_count
    then enqueue pair 1 s
    else s)

-- whether the search of a kind goes along the edge: that for resolution does not where the outputs
-- differ
abbrev pub usable : Oracle → Kind → ℕ → ℕ → Bool
usable o merge pair action = true
usable o resolution pair action = not (differs o pair action)

-- the body of the loop over the predecessors of `target`
unfoldable pub relax : Oracle → Kind → ℕ → ℕ → ℕ → Search → Search
unfolding enqueue
relax o kind target source action s =
    if usable o kind source action && dist s source == index_none
    then enqueue source (dist s target + 1) s
    else s

unfoldable pub relax_all : Oracle → Kind → Predecessors → ℕ → ℕ → ℕ → Search → Search
unfolding relax
relax_all o kind p target index zero s = s
relax_all o kind p target index (suc left) s =
    relax_all o kind p target (index + 1) left
      (relax o kind target (get_or p.pairs index 0) (get_or p.actions index 0) s)

-- one round of the `while` loop, with `target` taken off the queue
unfoldable pub expand : Oracle → Kind → Predecessors → ℕ → Search → Search
unfolding relax_all
expand o kind p target s =
    let from = get_or p.offsets target 0 in
    relax_all o kind p target from (get_or p.offsets (target + 1) 0 - from) s

-- The `while` loop. `rounds` bounds it: each pair is queued at most once.
unfoldable pub search_loop : Oracle → Kind → Predecessors → ℕ → Search → M (List ℕ)
unfolding expand
search_loop o kind p zero s = elim s.pending [ [] ↦ return s.distance | _ ∷ _ ↦ stuck ]
search_loop o kind p (suc rounds) s = elim s.pending [
  | [] ↦ return s.distance
  | target ∷ rest ↦
      search_loop o kind p rounds
        (expand o kind p target (record { distance = s.distance; pending = rest }))
]

-- the loops before the `while` loop
unfoldable pub seeded : Oracle → Kind → Search
unfolding seed_equal seed_differing
seeded o merge =
    seed_equal o 0 o.pair_count (record { distance = o.merge_table.distance; pending = [] })
seeded o resolution =
    seed_differing o 0 o.pair_count (
      seed_equal o 0 o.pair_count (record { distance = o.resolution_table.distance; pending = [] }))

-- sg_merge_distances and sg_resolution_distances
unfoldable pub distances : Oracle → Kind → Predecessors → M (List ℕ)
unfolding seeded search_loop
distances o kind p = do request; search_loop o kind p o.pair_count (seeded o kind)

-- the tests of sg_choose_witnesses: whether the action goes one step nearer
abbrev pub via_next : Oracle → List ℕ → ℕ → ℕ → Bool
via_next o ds pair action =
    let next = next_of o pair action in
    not (get_or ds next index_none == index_none)
    && get_or ds next index_none + 1 == get_or ds pair index_none

abbrev pub immediate : Oracle → List ℕ → ℕ → ℕ → Bool
immediate o ds pair action = get_or ds pair index_none == 1 && differs o pair action

abbrev pub supports : Oracle → Kind → List ℕ → ℕ → ℕ → Bool
supports o merge ds pair action = via_next o ds pair action
supports o resolution ds pair action =
    immediate o ds pair action || (not (differs o pair action) && via_next o ds pair action)

-- the pair that a witness names behind the action
abbrev pub next_named : Oracle → Kind → List ℕ → ℕ → ℕ → ℕ
next_named o merge ds pair action = next_of o pair action
next_named o resolution ds pair action =
    if immediate o ds pair action then index_none else next_of o pair action

-- The loop of sg_merge_record_valid and sg_resolution_record_valid that counts the actions that go nearer.
unfoldable pub support_loop : Oracle → Kind → List ℕ → ℕ → ℕ → ℕ → ℕ
support_loop o kind ds pair candidate zero = 0
support_loop o kind ds pair candidate (suc left) =
    (if supports o kind ds pair candidate then 1 else 0)
    + support_loop o kind ds pair (candidate + 1) left

-- An action that goes nearer: the first one is the witness, and all of them are counted.
unfoldable pub count_action : Oracle → Kind → List ℕ → ℕ → ℕ → Table → Table
count_action o kind ds pair action t =
    let found = get_or t.support_count pair 0 in
    if found == 0
    then record t {
      action = set t.action pair action;
      next = set t.next pair (next_named o kind ds pair action);
      support_count = set t.support_count pair (found + 1);
    }
    else record t { support_count = set t.support_count pair (found + 1) }

-- The loop over actions. `ds` are the distances of the kind, which the loop only reads.
unfoldable pub choose_actions : Oracle → Kind → List ℕ → ℕ → ℕ → ℕ → Table → Table
unfolding count_action
choose_actions o kind ds pair action zero t = t
choose_actions o kind ds pair action (suc left) t =
    choose_actions o kind ds pair (action + 1) left
      (if supports o kind ds pair action then count_action o kind ds pair action t else t)

unfoldable pub choose_pair : Oracle → Kind → List ℕ → ℕ → Table → Table
unfolding choose_actions
choose_pair o kind ds pair t =
    if get_or ds pair index_none == index_none || get_or ds pair index_none == 0
    then t
    else choose_actions o kind ds pair 0 o.automaton.action_count t

-- The loop over pairs. What it does for the one kind and for the other touches other arrays, so each
-- kind has its own loop here.
unfoldable pub choose_from : Oracle → Kind → List ℕ → ℕ → ℕ → Table → Table
unfolding choose_pair
choose_from o kind ds pair zero t = t
choose_from o kind ds pair (suc left) t =
    choose_from o kind ds (pair + 1) left (choose_pair o kind ds pair t)

-- sg_choose_witnesses
unfoldable pub choose_witnesses : Oracle → Oracle
unfolding choose_from
choose_witnesses o = record o {
  merge_table = choose_from o merge o.merge_table.distance 0 o.pair_count o.merge_table;
  resolution_table =
      choose_from o resolution o.resolution_table.distance 0 o.pair_count o.resolution_table;
}

-- sg_pair_oracle_build
unfoldable pub oracle_build : Automaton → M Oracle
unfolding oracle_allocate fill_pairs predecessors_build distances choose_witnesses
oracle_build a = do
  created ← oracle_allocate a
  let o = fill_pairs created
  p ← predecessors_build o
  merges ← distances o merge p
  let o' = record o { merge_table = record o.merge_table { distance = merges } }
  resolutions ← distances o' resolution p
  return (
      choose_witnesses
        (record o' { resolution_table = record o.resolution_table { distance = resolutions } }))
