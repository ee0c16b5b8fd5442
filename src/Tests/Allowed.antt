-- ===== src/Tests/Allowed.antt =====
-- The planner for a list of allowed actions at concrete inputs.
use sync_kgraph.Base.{arith, [], ◌∷◌, Ensures}
use sync_kgraph.Allowed.{allowed_merge_word, plan_sync_allowed}
use sync_kgraph.Allowed.Words.{MergesOver, NoMerge, allowed_merge_word_merges}
use sync_kgraph.Allowed.Calls.{AllowedAnswers, NotAllowed, plan_sync_allowed_decides}
use sync_kgraph.Tests.{sample, sample-IsValid}

merge_word_example :
    Ensures
      (allowed_merge_word sample 0 1 (0 ∷ []))
      (MergesOver sample (0 ∷ []) 0 1)
      (NoMerge sample (0 ∷ []) 0 1)
merge_word_example =
    allowed_merge_word_merges sample 0 1 (0 ∷ []) sample-IsValid (omega arith) (omega arith)
      (omega arith)

allowed_sync_example :
    Ensures
      (plan_sync_allowed sample (0 ∷ 1 ∷ []) (1 ∷ []) 10)
      (AllowedAnswers sample (0 ∷ 1 ∷ []) (1 ∷ []) 10)
      (NotAllowed sample (0 ∷ 1 ∷ []) (1 ∷ []) 10)
allowed_sync_example = plan_sync_allowed_decides sample (0 ∷ 1 ∷ []) (1 ∷ []) 10 sample-IsValid
