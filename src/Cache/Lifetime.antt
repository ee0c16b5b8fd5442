-- ===== src/Cache/Lifetime.antt =====
-- sg_snapshot_cache_create and sg_snapshot_cache_free: a cache begins empty, and gives all its references
-- back.
use sync_kgraph.Base.{
  ℕ, zero, suc, ◌+◌, ◌≤◌, ◌≡◌, ◌∙◌, refl, sym, ap, subst, inl, inr, arith, ◌==◌, Bool-cases, List,
  [], ◌∷◌, Option, none, some, length, Status, Never, Ensures, Ensures-return, Ensures-bind,
  Ensures-request,
}
use sync_kgraph.Cache.{Item, Entry, Cache, entry, release, free_all, create, cache_free}
use sync_kgraph.Cache.Segment.{head_or, Segment}
use sync_kgraph.Cache.Items.{items_at, total, holds, IsCache}

pub create-IsCache :
    (maximum_bytes : ℕ) (references : ℕ → ℕ)
    → Ensures (create maximum_bytes references) (λ c. IsCache c [] references) Never
unfolding create
create-IsCache maximum_bytes references = Ensures-bind Ensures-request λ _ _.
    Ensures-bind Ensures-request λ _ _. Ensures-return _ (record {
      ids = [];
      inside = record {
        linked = record { segment = tt; distinct = tt; newest_first = refl; oldest_last = refl };
        contents = refl;
        room = omega arith;
        sum = refl;
        held = λ s. omega arith;
      };
      bounded = omega arith;
    })

Ensures-free_all :
    {E : Status → Type 0} (fuel : ℕ) (heap : List Entry) (before : Option ℕ) (ids : List ℕ)
    (references base : ℕ → ℕ)
    → Segment heap before ids none
    → length ids ≤ fuel
    → ((s : ℕ) → references s ≡ base s + total (holds s) (items_at heap ids))
    → Ensures (free_all fuel heap (head_or ids none) references) (λ r. (s : ℕ) → r s ≡ base s) E
unfolding free_all
Ensures-free_all fuel heap before [] references base h l e =
    Ensures-return references (λ s. omega (arith, e s))
Ensures-free_all zero heap before (x ∷ ids) references base h l e = absurd (omega arith)
Ensures-free_all {E} (suc fuel) heap before (x ∷ ids) references base (_, _, eo, h) l e =
    subst
      (λ o.
        Ensures (free_all fuel heap o (release (entry heap x).item.snapshot references))
          (λ r. (s : ℕ) → r s ≡ base s) E)
      (sym eo)
      (Ensures-free_all fuel heap (some x) ids (release (entry heap x).item.snapshot references)
        base h (omega arith)
        (λ s.
          let k = e s in
          elim (Bool-cases (s == (entry heap x).item.snapshot)) [
            | inl own ↦ ground arith
            | inr other ↦ ground arith
          ]))

-- sg_snapshot_cache_free ends, and releases exactly the references that the cache holds: each snapshot
-- keeps those that `base` counts.
pub cache_free_releases :
    (c : Cache) (items : List Item) (base : ℕ → ℕ)
    → IsCache c items base
    → Ensures (cache_free c) (λ references. (s : ℕ) → references s ≡ base s) Never
unfolding cache_free
cache_free_releases c items base h =
    let k = h.inside in
    subst
      (λ o.
        Ensures (free_all (length c.heap) c.heap o c.references)
          (λ references. (s : ℕ) → references s ≡ base s) Never)
      (sym k.linked.newest_first)
      (Ensures-free_all (length c.heap) c.heap none h.ids c.references base k.linked.segment k.room
        (λ s. k.held s ∙ ap (λ (xs : List Item). base s + total (holds s) xs) (sym k.contents)))
