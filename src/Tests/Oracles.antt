-- ===== src/Tests/Oracles.antt =====
-- The theorems on pair oracles at concrete inputs.
use sync_kgraph.Base.{
  ◌≡◌, ◌⊎◌, ◌<◌, ◌↔◌, arith, ap, subst, refl, true, false, List, [], ◌∷◌, index_none, Status, alloc,
  invalid_model, Result, ok, err, diverge, Memory, Post, good, bad, refused, ◌>>=◌, runs,
  size_bytes, size_multiply, Ensures,
}
use sync_kgraph.Automaton.{transition, observation}
use sync_kgraph.Sync.{merge, resolution, PairRecord, pair_index}
use sync_kgraph.Sync.Decides.{SyncAnswers}
use sync_kgraph.Oracle.{Oracle, oracle_build}
use sync_kgraph.Oracle.Build.{BuiltFor, TooLarge, Ensures-oracle_build}
use sync_kgraph.Records.{
  oracle_restore, record_of, witness_word, merge_record_valid, resolution_record_valid,
}
use sync_kgraph.Records.Exact.{Agrees, merge_record_valid-Agrees, resolution_record_valid-Agrees}
use sync_kgraph.Records.Words.{
  Shortest, NoShortest, WitnessFor, NoWord, witness_word_solves, build_witness_word-Shortest,
}
use sync_kgraph.Records.Restore.{RecordsOf, NotRestored, oracle_restore_decides}
use sync_kgraph.Records.Roundtrip.{SameRecords, read_records, read_records-oracle_restore}
use sync_kgraph.OracleSync.{plan_sync}
use sync_kgraph.OracleSync.Calls.{NotPlanned, oracle_build-plan_sync, oracle_restore-plan_sync}
use sync_kgraph.Tests.{sample, sample-IsValid}

-- the oracle of `sample`: the pairs are both states 0, the two states, and both states 1
abbrev sample_oracle : Oracle
sample_oracle = record {
  automaton = sample;
  pair_count = 3;
  first = 0 ∷ 0 ∷ 1 ∷ [];
  second = 0 ∷ 1 ∷ 1 ∷ [];
  next = 2 ∷ 2 ∷ 2 ∷ 1 ∷ 2 ∷ 0 ∷ [];
  outputs_differ = false ∷ false ∷ false ∷ true ∷ false ∷ false ∷ [];
  merge_table = record {
    distance = 0 ∷ 1 ∷ 0 ∷ [];
    action = index_none ∷ 0 ∷ index_none ∷ [];
    next = index_none ∷ 2 ∷ index_none ∷ [];
    support_count = 0 ∷ 1 ∷ 0 ∷ [];
  };
  resolution_table = record {
    distance = 0 ∷ 1 ∷ 0 ∷ [];
    action = index_none ∷ 0 ∷ index_none ∷ [];
    next = index_none ∷ 2 ∷ index_none ∷ [];
    support_count = 0 ∷ 2 ∷ 0 ∷ [];
  };
}

built : oracle_build sample [] ≡ (ok sample_oracle, [])
unfolding runs oracle_build size_bytes size_multiply pair_index transition observation
built = refl

-- what holds of all that a call returns holds of what it did return
returned :
    {A : Type 0} (P : A → Type 0) (E : Status → Type 0) (a : A) {h : Memory} {r : Result A × Memory}
    → Post P E h r
    → r.0 ≡ ok a
    → P a
returned {A = A} P E a (good p k) e = subst P (value e) p
  where
    contents : Result A → A
    contents (ok x) = x
    contents (err x) = a
    contents diverge = a

    value : {x : A} → ok x ≡ ok a → x ≡ a
    value e = ap contents e
returned P E a (bad p k) e = absurd (let t = e in cc)
returned P E a (refused k) e = absurd (let t = e in cc)

sample_built : BuiltFor sample sample_oracle
sample_built =
    returned (BuiltFor sample) (λ e. (e ≡ alloc) × TooLarge sample) sample_oracle
      ((Ensures-oracle_build sample sample-IsValid).run []) (ap (λ r. r.0) built)

-- the records of `sample_oracle`, the last one first
abbrev sample_records : List PairRecord
sample_records =
    record_of sample_oracle 2 ∷ record_of sample_oracle 1 ∷ record_of sample_oracle 0 ∷ []

build_word_example :
    Ensures
      (do o ← oracle_build sample; witness_word o resolution 0 1)
      (λ w. Shortest resolution sample 0 1 w.actions)
      (NoShortest resolution sample 0 1)
build_word_example = build_witness_word-Shortest sample resolution 0 1 sample-IsValid

word_example :
    Ensures
      (witness_word sample_oracle merge 1 0)
      (λ w. (1 < 2) × (0 < 2) × WitnessFor sample_oracle merge 1 0 w)
      (NoWord sample_oracle merge 1 0)
word_example = witness_word_solves sample_oracle merge 1 0 sample_built.1

restore_example :
    Ensures
      (oracle_restore sample sample_records)
      (RecordsOf sample sample_records)
      (NotRestored sample sample_records)
restore_example = oracle_restore_decides sample sample_records sample-IsValid

roundtrip_example :
    Ensures
      (do records ← read_records sample_oracle 0 3; oracle_restore sample records)
      (SameRecords sample_oracle)
      (λ e. (e ≡ alloc) × TooLarge sample)
roundtrip_example = read_records-oracle_restore sample_oracle sample_built.1

built_plan_example :
    Ensures
      (do o ← oracle_build sample; plan_sync true sample o (0 ∷ 1 ∷ []) 10)
      (SyncAnswers sample (0 ∷ 1 ∷ []) 10)
      (NotPlanned sample (0 ∷ 1 ∷ []) 10)
built_plan_example = oracle_build-plan_sync sample (0 ∷ 1 ∷ []) 10 sample-IsValid

restored_plan_example :
    Ensures
      (do o ← oracle_restore sample sample_records; plan_sync true sample o (0 ∷ 1 ∷ []) 10)
      (SyncAnswers sample (0 ∷ 1 ∷ []) 10)
      (λ e.
        NotPlanned sample (0 ∷ 1 ∷ []) 10 e
        ⊎ ((e ≡ invalid_model) × ((o : Oracle) → ¬ RecordsOf sample sample_records o)))
restored_plan_example =
    oracle_restore-plan_sync sample sample_records (0 ∷ 1 ∷ []) 10 sample-IsValid

oracle_build_example :
    Ensures (oracle_build sample) (BuiltFor sample) (λ e. (e ≡ alloc) × TooLarge sample)
oracle_build_example = Ensures-oracle_build sample sample-IsValid

merge_record_example :
    (merge_record_valid sample_oracle 1 ≡ true)
    ↔ Agrees sample_oracle merge sample_oracle.merge_table 1
merge_record_example = merge_record_valid-Agrees sample_oracle sample_built.1.graph 1 (omega arith)

resolution_record_example :
    (resolution_record_valid sample_oracle 1 ≡ true)
    ↔ Agrees sample_oracle resolution sample_oracle.resolution_table 1
resolution_record_example =
    resolution_record_valid-Agrees sample_oracle sample_built.1.graph 1 (omega arith)
