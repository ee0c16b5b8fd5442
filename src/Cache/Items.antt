-- ===== src/Cache/Items.antt =====
-- What the cache holds: its items from the newest to the oldest, with the sums that the code keeps.
use sync_kgraph.Base.{
  ℕ, zero, suc, ◌+◌, ◌≤◌, ◌≡◌, refl, sym, ap, subst, Bool, true, false, arith, ◌==◌, if◌then◌else◌,
  List, [], ◌∷◌, ◌++◌, map, All, Option, none, some, length, length-append, Status, Ensures,
  Ensures-return, Ensures-mono, Ensures-if,
}
use sync_kgraph.Cache.{Item, Entry, Cache, entry, walk}
use sync_kgraph.Cache.Segment.{head_or, Segment}
use sync_kgraph.Cache.Links.{Linked}

abbrev pub items_at : List Entry → List ℕ → List Item
items_at heap ids = map (λ i. (entry heap i).item) ids

abbrev pub total : (Item → ℕ) → List Item → ℕ
total f [] = 0
total f (x ∷ xs) = f x + total f xs

pub total-append : (f : Item → ℕ) (xs ys : List Item) → total f (xs ++ ys) ≡ total f xs + total f ys
total-append f [] ys = omega arith
total-append f (x ∷ xs) ys = let ih = total-append f xs ys in omega arith

abbrev pub bytes_of : Item → ℕ
bytes_of i = i.bytes

-- how many references to a snapshot an item has
abbrev pub holds : ℕ → Item → ℕ
holds s i = if s == i.snapshot then 1 else 0

pub items_at-same :
    (heap heap' : List Entry) (ids : List ℕ)
    → ((j : ℕ) → (entry heap' j).item ≡ (entry heap j).item)
    → items_at heap' ids ≡ items_at heap ids
items_at-same heap heap' [] h = refl
items_at-same heap heap' (x ∷ xs) h =
    let ih = items_at-same heap heap' xs h in rw (h x) (rw ih refl)

-- the list at the addresses has the items; the sum of bytes is theirs, and each snapshot has the
-- references that `base` counts and one for each item that holds it
pub record Holds (c : Cache) (ids : List ℕ) (items : List Item) (base : ℕ → ℕ) : Type 0 where
  pub linked : Linked c ids
  pub contents : items_at c.heap ids ≡ items
  pub room : length ids ≤ length c.heap
  pub sum : c.bytes ≡ total bytes_of items
  pub held : (s : ℕ) → c.references s ≡ base s + total (holds s) items

-- the items of a cache within its bound
pub record IsCache (c : Cache) (items : List Item) (base : ℕ → ℕ) : Type 0 where
  pub ids : List ℕ
  pub inside : Holds c ids items base
  pub bounded : c.bytes ≤ c.maximum_bytes

-- what the walk finds: the first entry with the key, or that there is none
abbrev pub Found : (Item → Bool) → List Entry → List ℕ → Option ℕ → Type 0
Found matches heap ids none = All (λ i. matches (entry heap i).item ≡ false) ids
Found matches heap ids (some e) =
    (xs : List ℕ) × (ys : List ℕ) × (ids ≡ xs ++ (e ∷ ys))
    × (matches (entry heap e).item ≡ true)
    × All (λ i. matches (entry heap i).item ≡ false) xs

Found-cons :
    (matches : Item → Bool) (heap : List Entry) (x : ℕ) (ids : List ℕ) (r : Option ℕ)
    → matches (entry heap x).item ≡ false
    → Found matches heap ids r
    → Found matches heap (x ∷ ids) r
Found-cons matches heap x ids none miss h = (miss, h)
Found-cons matches heap x ids (some e) miss (xs, ys, eq, hit, before) =
    (x ∷ xs, ys, ap (λ l. x ∷ l) eq, hit, (miss, before))

-- The walk ends at the first entry with the key.
pub Ensures-walk :
    {E : Status → Type 0} (matches : Item → Bool) (heap : List Entry) (fuel : ℕ) (before : Option ℕ)
    (ids : List ℕ)
    → Segment heap before ids none
    → length ids ≤ fuel
    → Ensures (walk matches heap fuel (head_or ids none)) (Found matches heap ids) E
unfolding walk
Ensures-walk matches heap fuel before [] h l = Ensures-return none tt
Ensures-walk matches heap zero before (x ∷ ids) h l = absurd (omega arith)
Ensures-walk {E} matches heap (suc fuel) before (x ∷ ids) (_, _, eo, h) l =
    let rest = Ensures-walk matches heap fuel (some x) ids h (omega arith) in
    Ensures-if (matches (entry heap x).item)
      (λ hit. Ensures-return (some x) ([], ids, refl, hit, tt))
      (λ miss.
        subst (λ o. Ensures (walk matches heap fuel o) (Found matches heap (x ∷ ids)) E) (sym eo)
          (Ensures-mono (λ r f. Found-cons matches heap x ids r miss f) (λ _ z. z) rest))

-- An item in the middle counts like one in front.
pub total-middle :
    (f : Item → ℕ) (xs : List Item) (x : Item) (ys : List Item)
    → total f (xs ++ (x ∷ ys)) ≡ f x + total f (xs ++ ys)
total-middle f xs x ys = omega (arith, total-append f xs (x ∷ ys), total-append f xs ys)

pub length-middle :
    (xs : List ℕ) (x : ℕ) (ys : List ℕ) → length (xs ++ (x ∷ ys)) ≡ length (xs ++ ys) + 1
length-middle xs x ys = omega (arith, length-append xs (x ∷ ys), length-append xs ys)

pub items_at-append :
    (heap : List Entry) (xs ys : List ℕ)
    → items_at heap (xs ++ ys) ≡ items_at heap xs ++ items_at heap ys
items_at-append heap [] ys = refl
items_at-append heap (x ∷ xs) ys = ap (λ l. (entry heap x).item ∷ l) (items_at-append heap xs ys)

-- The items around an entry of the list.
pub items_at-middle :
    (heap : List Entry) (xs : List ℕ) (e : ℕ) (ys : List ℕ)
    → items_at heap (xs ++ (e ∷ ys)) ≡ items_at heap xs ++ ((entry heap e).item ∷ items_at heap ys)
items_at-middle heap xs e ys = items_at-append heap xs (e ∷ ys)

-- What holds of no entry holds of no item.
pub none_match :
    (matches : Item → Bool) (heap : List Entry) (ids : List ℕ)
    → All (λ i. matches (entry heap i).item ≡ false) ids
    → All (λ x. matches x ≡ false) (items_at heap ids)
none_match matches heap [] h = tt
none_match matches heap (x ∷ xs) (e, h) = (e, none_match matches heap xs h)
