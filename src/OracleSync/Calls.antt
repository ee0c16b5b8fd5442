-- ===== src/OracleSync/Calls.antt =====
-- sg_plan_sync with an oracle that was built, and with one that was restored from records.
use sync_kgraph.Base.{
  ℕ, ◌<◌, ◌≡◌, ◌⊎◌, ◌∙◌, refl, sym, subst, inl, inr, Bool, true, false, List, All, Status, alloc,
  invalid_argument, invalid_model, ◌>>=◌, Ensures, Ensures-bind, Ensures-guard, Ensures-mono,
}
use sync_kgraph.Automaton.{Automaton}
use sync_kgraph.Automaton.Laws.{IsValid}
use sync_kgraph.Sync.{PairRecord}
use sync_kgraph.Sync.Sound.{pairs_of}
use sync_kgraph.Sync.Decides.{SyncAnswers}
use sync_kgraph.Sync.Calls.{SyncArguments, plan_sync_trusts}
use sync_kgraph.Oracle.{Oracle, oracle_build}
use sync_kgraph.Oracle.Pairs.{half-eq-triangle}
use sync_kgraph.Oracle.Build.{IsOracle, Ensures-oracle_build}
use sync_kgraph.Records.{record_of, oracle_restore}
use sync_kgraph.Records.Restore.{RecordsOf, oracle_restore_decides}
use sync_kgraph.OracleSync.{oracle_record_reader, plan_sync}
use sync_kgraph.OracleSync.Sound.{record_of-SoundTable, Ensures-oracle_record_reader}

all_inside : (m n : ℕ) (ids : List ℕ) → m ≡ n → All (λ k. k < m) ids → All (λ k. k < n) ids
all_inside m n ids e h = subst (λ (j : ℕ). All (λ (k : ℕ). k < j) ids) e h

-- With an oracle of the automaton the planner decides whether the states synchronize within the budget.
pub plan_sync-IsOracle :
    (own : Bool) (o : Oracle) (xs : List ℕ) (budget : ℕ)
    → IsOracle o
    → Ensures (plan_sync own o.automaton o xs budget) (SyncAnswers o.automaton xs budget) (λ e.
      ((e ≡ invalid_argument) × ((own ≡ false) ⊎ (¬ SyncArguments o.automaton xs budget)))
      ⊎ (e ≡ alloc))
unfolding plan_sync
plan_sync-IsOracle own o xs budget h =
    let g = h.graph in
    Ensures-bind (Ensures-guard own invalid_argument (λ x. inl (refl, inl x))) λ _ _.
      Ensures-mono (λ _ y. y) (λ e z. elim z [ inl (x, bad) ↦ inl (x, inr bad) | inr x ↦ inr x ])
        (plan_sync_trusts o.automaton (record_of o) (oracle_record_reader o) xs budget g.valid
          (record_of-SoundTable o h)
          (λ ids l. Ensures-oracle_record_reader o h ids (
            all_inside (pairs_of o.automaton.state_count) o.pair_count ids
              (half-eq-triangle o.automaton.state_count ∙ sym g.count) l)))

-- why no answer comes from a well-formed call: arguments that the call does not allow, or memory
abbrev pub NotPlanned : Automaton → List ℕ → ℕ → Status → Type 0
NotPlanned a xs budget e = ((e ≡ invalid_argument) × ¬ SyncArguments a xs budget) ⊎ (e ≡ alloc)

-- With its own automaton only the arguments are refused.
planned :
    (a : Automaton) (o : Oracle) (xs : List ℕ) (budget : ℕ)
    → o.automaton ≡ a
    → IsOracle o
    → Ensures (plan_sync true a o xs budget) (SyncAnswers a xs budget) (NotPlanned a xs budget)
planned a o xs budget same h =
    subst
      (λ b.
        Ensures (plan_sync true b o xs budget) (SyncAnswers b xs budget) (NotPlanned b xs budget))
      same
      (Ensures-mono (λ _ y. y)
        (λ e z. elim z [
          | inl (x, inl own) ↦ absurd (let t = own in cc)
          | inl (x, inr bad) ↦ inl (x, bad)
          | inr x ↦ inr x
        ])
        (plan_sync-IsOracle true o xs budget h))

-- An oracle that sg_pair_oracle_build makes of a valid automaton serves sg_plan_sync on it: the answer
-- is as sg_plan_sync_with_source promises it, no record is refused, and the two calls fail only with
-- INVALID_ARGUMENT for what sg_plan_sync does not allow, or with ALLOC.
pub oracle_build-plan_sync :
    (a : Automaton) (xs : List ℕ) (budget : ℕ)
    → IsValid a
    → Ensures
        (do o ← oracle_build a; plan_sync true a o xs budget)
        (SyncAnswers a xs budget)
        (NotPlanned a xs budget)
oracle_build-plan_sync a xs budget v =
    Ensures-bind (Ensures-mono (λ _ h. h) (λ e (x, _). inr x) (Ensures-oracle_build a v))
      λ o (same, h, _). planned a o xs budget same h

-- Records, from wherever they come, restored and used: either no oracle whose records agree with the
-- graph of pairs of the automaton has these records and the call fails with INVALID_MODEL, or the
-- planner answers as with an oracle just built, or the call fails as that one may.
pub oracle_restore-plan_sync :
    (a : Automaton) (records : List PairRecord) (xs : List ℕ) (budget : ℕ)
    → IsValid a
    → Ensures
        (do o ← oracle_restore a records; plan_sync true a o xs budget)
        (SyncAnswers a xs budget)
        (λ e.
          NotPlanned a xs budget e
          ⊎ ((e ≡ invalid_model) × ((o : Oracle) → ¬ RecordsOf a records o)))
oracle_restore-plan_sync a records xs budget v =
    Ensures-bind
      (Ensures-mono (λ _ h. h) (λ e z. elim z [ inl (x, _) ↦ inl (inr x) | inr x ↦ inr x ])
        (oracle_restore_decides a records v))
      λ o h. Ensures-mono (λ _ y. y) (λ e z. inl z) (planned a o xs budget h.same h.is_oracle)
