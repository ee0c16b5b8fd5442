-- ===== src/Search/Letters.antt =====
-- The letters of a search: the allowed actions, or all.
use sync_kgraph.Base.{
  ℕ, zero, suc, ◌+◌, ◌<◌, ◌≡◌, inl, inr, true, List, [], ◌∷◌, Option, none, some, arith, ◌==◌,
  Bool-cases,
}
use sync_kgraph.Bitset.Members.{contains, InRange}
use sync_kgraph.Automaton.{Automaton}
use sync_kgraph.Plan.{ids_up}
use sync_kgraph.Search.{letters_of}
use sync_kgraph.Search.Nodes.{Over}
use sync_kgraph.Search.Frontier.{Letters}

-- contains is monotone, and each list is over itself
Over-cons : (x : ℕ) (xs ys : List ℕ) → Over xs ys → Over (x ∷ xs) ys
Over-cons x xs [] o = tt
Over-cons x xs (y ∷ ys) o = (let h = o.0 in ground arith, Over-cons x xs ys o.1)

pub Over-self : (xs : List ℕ) → Over xs xs
Over-self [] = tt
Over-self (x ∷ xs) = (ground arith, Over-cons x xs xs (Over-self xs))

pub contains-ids_up : (i k c : ℕ) → contains (ids_up i k) c ≡ true → c < i + k
contains-ids_up i zero c h = cc
contains-ids_up i (suc k) c h = elim (Bool-cases (c == i)) [
  | inl same ↦ ground arith
  | inr other ↦ omega (arith, contains-ids_up (i + 1) k c (ground arith))
]

pub Letters-InRange : (a : Automaton) (xs : List ℕ) → InRange a.action_count xs → Letters a xs
Letters-InRange a [] h c m = cc
Letters-InRange a (x ∷ xs) h c m = elim (Bool-cases (c == x)) [
  | inl same ↦ let e : c ≡ x = ground arith in rw e h.0
  | inr other ↦ Letters-InRange a xs h.1 c (ground arith)
]

-- the caller's allowed actions are actions, or there are none given
abbrev pub AllowedOk : Automaton → Option (List ℕ) → Type 0
AllowedOk a none = Unit
AllowedOk a (some xs) = InRange a.action_count xs

pub Letters-letters_of :
    (a : Automaton) (allowed : Option (List ℕ))
    → AllowedOk a allowed
    → Letters a (letters_of a allowed)
unfolding letters_of
Letters-letters_of a none h c m = omega (arith, contains-ids_up 0 a.action_count c m)
Letters-letters_of a (some xs) h c m = Letters-InRange a xs h c m
