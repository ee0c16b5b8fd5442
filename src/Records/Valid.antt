-- ===== src/Records/Valid.antt =====
-- sg_merge_record_valid and sg_resolution_record_valid, member by member.
use sync_kgraph.Base.{ℕ, ◌<◌, ◌≡◌, ◌↔◌, inl, inr, true, arith, ◌==◌, Bool-cases, get_or, index_none}
use sync_kgraph.Sync.{merge, resolution}
use sync_kgraph.Oracle.{Oracle, immediate}
use sync_kgraph.Oracle.Build.{IsGraph, IsGraph-inside}
use sync_kgraph.Oracle.Witnesses.{ValidPair}
use sync_kgraph.Records.{merge_record_valid, resolution_record_valid}

module _ (o : Oracle) (g : IsGraph o) (pair : ℕ) (hp : pair < o.pair_count) where
  merge_record_valid-ValidPair :
      merge_record_valid o pair ≡ true → ValidPair o merge o.merge_table pair
  unfolding merge_record_valid
  merge_record_valid-ValidPair h = record {
    absent = λ e. ground arith;
    ended = λ e. ground arith;
    onward = λ x y. ground arith;
  }

  resolution_record_valid-ValidPair :
      resolution_record_valid o pair ≡ true → ValidPair o resolution o.resolution_table pair
  unfolding resolution_record_valid
  resolution_record_valid-ValidPair h = record {
    absent = λ e. ground arith;
    ended = λ e. ground arith;
    onward = λ x y. ground arith;
  }

  -- The tests hold exactly of the valid pairs.
  pub merge_record_valid_iff :
      (merge_record_valid o pair ≡ true) ↔ ValidPair o merge o.merge_table pair
  unfolding merge_record_valid
  merge_record_valid_iff = (merge_record_valid-ValidPair, λ v. accepted v)
    where
      accepted : ValidPair o merge o.merge_table pair → merge_record_valid o pair ≡ true
      accepted v =
          let t = o.merge_table in
          let d = get_or t.distance pair index_none in
          elim (Bool-cases (d == index_none)) [
            | inl none_set ↦ let x = v.absent (ground arith) in ground arith
            | inr some_set ↦ elim (Bool-cases (d == 0)) [
              | inl ends ↦ let x = v.ended (ground arith) in ground arith
              | inr on ↦
                  let (ha, sup, named, count, some_count) =
                    v.onward (λ e. ground arith) (λ e. ground arith) in
                  let inside = IsGraph-inside o g pair (get_or t.action pair index_none) hp ha in
                  ground arith
            ]
          ]

  pub resolution_record_valid_iff :
      (resolution_record_valid o pair ≡ true) ↔ ValidPair o resolution o.resolution_table pair
  unfolding resolution_record_valid
  resolution_record_valid_iff = (resolution_record_valid-ValidPair, λ v. accepted v)
    where
      accepted :
          ValidPair o resolution o.resolution_table pair → resolution_record_valid o pair ≡ true
      accepted v =
          let t = o.resolution_table in
          let d = get_or t.distance pair index_none in
          elim (Bool-cases (d == index_none)) [
            | inl none_set ↦ let x = v.absent (ground arith) in ground arith
            | inr some_set ↦ elim (Bool-cases (d == 0)) [
              | inl ends ↦ let x = v.ended (ground arith) in ground arith
              | inr on ↦
                  let (ha, sup, named, count, some_count) =
                    v.onward (λ e. ground arith) (λ e. ground arith) in
                  let inside = IsGraph-inside o g pair (get_or t.action pair index_none) hp ha in
                  let small = g.small in
                  elim (Bool-cases
                    (immediate o t.distance pair (get_or t.action pair index_none))) [
                      | inl now ↦ ground arith
                      | inr later ↦ ground arith
                    ]
            ]
          ]
