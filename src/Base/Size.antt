-- ===== src/Base/Size.antt =====
-- size_t on a 64-bit target, sg_size_multiply of sync.c, and the growth of an array by doubling.
use Prim.Native.Nat.{ℕ, suc, ◌≤◌, ◌*◌, ◌/◌, ◌%◌, ◌<◌}
use mathlib.Core.Path.{◌≡◌, refl}
use mathlib.Core.Logic.{◌↔◌, inl, inr}
use mathlib.Core.Bool.{not, ◌&&◌, true, false}
use mathlib.Core.Option.{Option, none, some}
use native.Mathlib.Omega.{arith}
use sync_kgraph.Base.Tests.{Bool-cases, ltb→lt, ltb, leb, ◌==◌, if◌then◌else◌, Option-cases}
use sync_kgraph.Base.Monad.{M, ◌>>=◌, ◌>>◌, guard, fail, return, request, alloc}
use sync_kgraph.Base.Monad.{
  Ensures, Status, Ensures-if, Ensures-bind, Ensures-guard, Ensures-request,
}
use sync_kgraph.Base.Monad.{Ensures-return, Ensures-fail}

-- SIZE_MAX, which is also SG_INDEX_NONE
abbrev pub index_none : ℕ
index_none = 18446744073709551615

abbrev pub size_mod : ℕ
size_mod = 18446744073709551616

-- sg_size_multiply
unfoldable pub size_multiply : ℕ → ℕ → Option ℕ
size_multiply first second =
    if not (first == 0) && ltb (index_none / first) second
    then none
    else some ((first * second) % size_mod)

-- The product is given exactly when it fits.
size_multiply_iff :
    (first second product : ℕ)
    → (size_multiply first second ≡ some product)
      ↔ ((first * second < size_mod) × (product ≡ first * second))
unfolding size_multiply
size_multiply_iff first second product = (λ h. grind arith, λ h. grind arith)

-- the product, or SG_ERR_ALLOC
unfoldable pub size_bytes : ℕ → ℕ → M ℕ
size_bytes count size = elim (size_multiply count size) [ none ↦ fail alloc | some b ↦ return b ]

-- `if (count == capacity) { double; check; realloc; }`: the new capacity.
unfoldable pub grow : ℕ → ℕ → ℕ → ℕ → M ℕ
grow initial size count capacity =
    if count == capacity
    then (do
      let next = if capacity == 0 then initial else (capacity * 2) % size_mod
      guard (leb capacity next) alloc
      bytes ← size_bytes next size
      request
      return next)
    else return capacity

module _ {E : Status → Type 0} where
  -- sg_size_multiply gives the product itself, or fails when it does not fit.
  pub Ensures-size_bytes :
      (count size : ℕ)
      → (size_mod ≤ count * size → E alloc)
      → Ensures (size_bytes count size) (λ b. (b ≡ count * size) × (count * size < size_mod)) E
  unfolding size_bytes
  Ensures-size_bytes count size allow = elim (Option-cases (size_multiply count size)) [
    | inl overflow ↦ rw (overflow, size_bytes) (Ensures-fail alloc (allow (too_large overflow)))
    | inr (b, e) ↦
        let h = (size_multiply_iff count size b).0 e in
        rw (e, size_bytes) (Ensures-return b (h.1, h.0))
  ]
    where
      too_large : size_multiply count size ≡ none → size_mod ≤ count * size
      too_large e = elim (Bool-cases (ltb (count * size) size_mod)) [
        | inl fits ↦
            let some_b = (size_multiply_iff count size (count * size)).1 (ltb→lt _ _ fits, refl) in
            cc
        | inr large ↦ ground arith
      ]

  -- Growing an array gives room for one item more and keeps its size in bytes a size_t; it fails
  -- only when twice the items do not fit.
  pub Ensures-grow :
      (initial size count capacity : ℕ)
      → (size_mod ≤ 2 * count * size → E alloc)
      → 0 < initial
      → 0 < size
      → initial * size < size_mod
      → count ≤ capacity
      → capacity * size < size_mod
      → Ensures (grow initial size count capacity) (λ c. (suc count ≤ c) × (c * size < size_mod)) E
  unfolding grow
  Ensures-grow initial size count capacity allow pos pos' first room small =
      Ensures-if (count == capacity)
        (λ full.
          Ensures-bind
            (Ensures-guard (leb capacity next) alloc (λ no. allow (wraps (ground arith) no)))
            λ _ larger.
              Ensures-bind
                (Ensures-size_bytes next size (λ large. allow (too_large (ground arith) large)))
                λ _ h.
                  Ensures-bind Ensures-request
                    λ _ _. Ensures-return next (grows larger (ground arith), h.1))
        (λ spare. Ensures-return capacity (ground arith, small))
    where
      next : ℕ
      next = if capacity == 0 then initial else (capacity * 2) % size_mod

      capacity_small : capacity < size_mod
      capacity_small = grind arith

      grows : leb capacity next ≡ true → count ≡ capacity → suc count ≤ next
      grows h e = let s = capacity_small in ground arith

      wraps : count ≡ capacity → leb capacity next ≡ false → size_mod ≤ 2 * count * size
      wraps e h =
          let s = capacity_small in
          let doubled : size_mod ≤ 2 * count = ground arith in
          let more : 2 * count * 1 ≤ 2 * count * size = grind arith in omega arith

      too_large : count ≡ capacity → size_mod ≤ next * size → size_mod ≤ 2 * count * size
      too_large e h = elim (Bool-cases (capacity == 0)) [
        | inl none_in ↦ absurd (ground arith)
        | inr some_in ↦
            let s = capacity_small in
            let l : next ≤ 2 * count = ground arith in
            let more : next * size ≤ 2 * count * size = grind arith in omega arith
      ]
