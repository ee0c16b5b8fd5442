-- ===== src/Bitset/Members.antt =====
-- Inclusion, cardinality and listing of an sg_bitset, and the set of a list of ids.
use sync_kgraph.Base.{
  ℕ, ◌≤◌, if◌then◌else◌, zero, suc, ◌+◌, ◌-◌, ◌*◌, ◌/◌, ◌%◌, ◌<◌, ◌≡◌, ◌∙◌, refl, sym, ap, ◌≢◌, ◌↔◌,
  inl, inr, Bool, true, false, not, ◌&&◌, ◌||◌, List, [], ◌∷◌, arith, ltb, ltb→lt, ◌==◌, Bool-cases,
  All, length, get_or, size_mod, Status, invalid_argument, Ensures, Ensures-return, Ensures-bind,
  Ensures-guard, Ensures-request, Ensures-mono,
}
use sync_kgraph.Bitset.{
  Bitset, empty, init, add, has, count, equal, subset, copy, add_ids, from_ids, ids_from, to_ids,
}
use sync_kgraph.Bitset.Bits.{bit, bit-le_one}
use sync_kgraph.Bitset.Card.{
  card, card-append, card_none, card_one, some_of_card, card_ext, card_insert, card-le, one_of_card,
  none_of_card, count_words-eq-card,
}
use sync_kgraph.Bitset.Laws.{
  IsBitset, has-bit, has-empty, empty-IsBitset, has-add, add-IsBitset, word_bit, one_bit_le,
  words_subset_sound, words_subset_complete, equal_iff, Bitset_ext,
}

-- the states of the list are the set's
abbrev pub Subset : Bitset → Bitset → Type 0
Subset s t = (q : ℕ) → has s q ≡ true → has t q ≡ true

-- a state that is in the set stands in one of its words
in_words : (n : ℕ) (s : Bitset) (q : ℕ) → IsBitset n s → has s q ≡ true → q / 64 < length s.words
in_words n s q v h = elim (Bool-cases (ltb q n)) [
  | inl below ↦ let l = ltb→lt q n below in omega (arith, v.sized)
  | inr above ↦ let e = v.within q (ground arith) in cc
]

module _ (n : ℕ) (s t : Bitset) (v : IsBitset n s) (w : IsBitset n t) where
  subset_sound : subset s t ≡ true → Subset s t
  unfolding subset
  subset_sound h q m = ground (
    arith,
    has-bit s q,
    has-bit t q,
    bit-le_one (get_or t.words (q / 64) 0) (q % 64),
    words_subset_sound s.words t.words w.bounded (ground arith) (q / 64) (q % 64)
        (in_words n s q v m) (omega arith),
  )

  subset_complete : Subset s t → subset s t ≡ true
  unfolding subset
  subset_complete h =
      let e =
        words_subset_complete s.words t.words (omega (arith, v.sized, w.sized)) v.bounded w.bounded
          (λ x k lx lk.
            one_bit_le (bit (get_or s.words x 0) k) (bit (get_or t.words x 0) k) (bit-le_one _ k)
              (bit-le_one _ k)
              (λ b. sym (word_bit t x k lk) ∙ h (64 * x + k) (word_bit s x k lk ∙ b))) in
      let a = v.states in let b = w.states in let c = v.sized in let d = w.sized in ground arith

  -- sg_bitset_subset decides inclusion.
  pub subset_iff : (subset s t ≡ true) ↔ Subset s t
  subset_iff = (subset_sound, subset_complete)

-- sg_bitset_equal, which compares words, decides whether two sets have the same states.
pub equal-has :
    (n : ℕ) (s t : Bitset)
    → IsBitset n s
    → IsBitset n t
    → (equal s t ≡ true) ↔ ((q : ℕ) → has s q ≡ has t q)
equal-has n s t v w =
    let (there, back) = equal_iff s t in
    ((λ h q. ap (λ x. has x q) (there h)), λ h. back (Bitset_ext n s t v w h))

-- sg_bitset_count is the number of states in the set.
pub count-eq-card : (n : ℕ) (s : Bitset) → IsBitset n s → count s ≡ card (has s) 0 n
unfolding count
count-eq-card n s v = omega (
  arith,
  count_words-eq-card (has s) s.words 0 (64 * length s.words) v.bounded refl
      (λ x k j lx lk e. let e' : j ≡ 64 * x + k = omega arith in rw e' (word_bit s x k lk)),
  ap (λ (m : ℕ). card (has s) 0 m) split,
  card-append (has s) 0 n (64 * length s.words - n) n (omega arith),
  card_none (has s) n (64 * length s.words - n) (λ q l u. v.within q l),
)
  where
    split : 64 * length s.words ≡ n + (64 * length s.words - n)
    split = omega (arith, v.sized)

pub count_zero_iff :
    (n : ℕ) (s : Bitset) → IsBitset n s → (count s ≡ 0) ↔ ((q : ℕ) → has s q ≡ false)
count_zero_iff n s v = (
  λ e q. elim (Bool-cases (ltb q n)) [
    | inl below ↦
        none_of_card (has s) 0 n q (omega (arith, count-eq-card n s v)) (omega arith)
          (omega (arith, ltb→lt q n below))
    | inr above ↦ v.within q (ground arith)
  ],
  λ h. omega (arith, count-eq-card n s v, card_none (has s) 0 n (λ q _ _. h q)),
)

pub count_none : (n : ℕ) → n + 63 < size_mod → count (empty n) ≡ 0
count_none n h = (count_zero_iff n (empty n) (empty-IsBitset n h)).1 (has-empty n)

-- Adding a state makes a set larger by one at most.
pub count-add :
    (n : ℕ) (s : Bitset) (x : ℕ) → IsBitset n s → x < n → count (add s x) ≤ suc (count s)
count-add n s x v h = omega (
  arith,
  count-eq-card n s v,
  count-eq-card n (add s x) (add-IsBitset n s x v h),
  card_ext (has (add s x)) (λ q. q == x || has s q) 0 n (λ q. has-add n s x q v h),
  card_insert (has s) x 0 n,
  at_most_one,
)
  where
    at_most_one : (if ltb x 0 then 0 else 1) ≤ 1
    at_most_one = ground arith

pub count-le : (n : ℕ) (s : Bitset) → IsBitset n s → count s ≤ n
count-le n s v = omega (arith, count-eq-card n s v, card-le (has s) 0 n)

pub some_of_count : (n : ℕ) (s : Bitset) → IsBitset n s → count s ≢ 0 → (q : ℕ) × (has s q ≡ true)
some_of_count n s v h =
    let (q, _, _, m) = some_of_card (has s) 0 n (λ e. h (count-eq-card n s v ∙ e)) in (q, m)

-- the set has this one state
abbrev pub Singleton : Bitset → ℕ → Type 0
Singleton s q = (has s q ≡ true) × ((r : ℕ) → has s r ≡ true → r ≡ q)

pub lt_of_has : (n : ℕ) (s : Bitset) (q : ℕ) → IsBitset n s → has s q ≡ true → q < n
lt_of_has n s q v h = elim (Bool-cases (ltb q n)) [
  | inl below ↦ ltb→lt q n below
  | inr above ↦ let e = v.within q (ground arith) in cc
]

pub Singleton-count :
    (n : ℕ) (s : Bitset) → IsBitset n s → count s ≡ 1 → (q : ℕ) × Singleton s q × (q < n)
Singleton-count n s v e =
    let (q, l, u, h, only) = one_of_card (has s) 0 n (omega (arith, count-eq-card n s v)) in
    (q, (h, λ r hr. only r (omega arith) (omega (arith, lt_of_has n s r v hr)) hr), omega arith)

pub count-Singleton : (n : ℕ) (s : Bitset) (q : ℕ) → IsBitset n s → Singleton s q → count s ≡ 1
count-Singleton n s q v h = omega (
  arith,
  count-eq-card n s v,
  card_one (has s) 0 n q (omega arith) (omega (arith, lt_of_has n s q v h.0)) h.0
      (λ r _ _ hr. h.1 r hr),
)

-- Listing: `q` stands in the list.
abbrev pub contains : List ℕ → ℕ → Bool
contains [] q = false
contains (x ∷ xs) q = q == x || contains xs q

ids_from-contains :
    (s : Bitset) (left i q : ℕ)
    → contains (ids_from s left i) q ≡ (has s q && (not (ltb q i) && ltb q (i + left)))
unfolding ids_from
ids_from-contains s zero i q = ground arith
ids_from-contains s (suc left) i q = elim (Bool-cases (q == i)) [
  | inl same ↦
      let e : q ≡ i = ground arith in rw e (ground (arith, ids_from-contains s left (i + 1) i))
  | inr other ↦ ground (arith, ids_from-contains s left (i + 1) q)
]

length-ids_from : (s : Bitset) (left i : ℕ) → length (ids_from s left i) ≡ card (has s) i left
unfolding ids_from
length-ids_from s zero i = refl
length-ids_from s (suc left) i = ground (arith, length-ids_from s left (i + 1))

-- sg_bitset_to_ids lists exactly the states of the set, as many as sg_bitset_count says.
pub contains-to_ids : (n : ℕ) (s : Bitset) (q : ℕ) → IsBitset n s → contains (to_ids s) q ≡ has s q
unfolding to_ids
contains-to_ids n s q v = elim (Bool-cases (ltb q n)) [
  | inl below ↦ let b = v.states in ground (arith, ids_from-contains s s.state_count 0 q)
  | inr above ↦
      let b = v.states in ground (arith, ids_from-contains s s.state_count 0 q, v.within q)
]

pub length-to_ids : (n : ℕ) (s : Bitset) → IsBitset n s → length (to_ids s) ≡ count s
unfolding to_ids
length-to_ids n s v = omega (
  arith,
  length-ids_from s s.state_count 0,
  count-eq-card n s v,
  ap (λ (m : ℕ). card (has s) 0 m) v.states,
)

-- the states of a list are below `n`
abbrev pub InRange : ℕ → List ℕ → Type 0
InRange n xs = All (λ x. x < n) xs

-- an array of `n` words that the allocator may refuse
module _ (n : ℕ) (E : Status → Type 0) where
  pub Ensures-init :
      (n ≡ 0 → E invalid_argument) → n + 63 < size_mod → Ensures (init n) (λ s. s ≡ empty n) E
  unfolding init
  Ensures-init zero_bad small =
      Ensures-bind (Ensures-guard (not (n == 0)) invalid_argument (λ z. zero_bad (ground arith)))
        λ _ _. Ensures-bind Ensures-request λ _ _. Ensures-return (empty n) refl

  Ensures-add_ids :
      (xs : List ℕ) (s : Bitset)
      → (¬ InRange n xs → E invalid_argument)
      → IsBitset n s
      → Ensures
          (add_ids n xs s)
          (λ t. IsBitset n t × InRange n xs × ((q : ℕ) → has t q ≡ (contains xs q || has s q)))
          E
  unfolding add_ids
  Ensures-add_ids [] s bad v = Ensures-return s (v, tt, λ q. refl)
  Ensures-add_ids (x ∷ xs) s bad v =
      Ensures-bind (Ensures-guard (ltb x n) invalid_argument (λ f. bad (λ h. ground (arith, h.0))))
        λ _ l.
          let lt = ltb→lt x n l in
          Ensures-mono (λ t p. (p.0, (lt, p.1), λ q. ground (arith, p.2 q, has-add n s x q v lt)))
            (λ e z. z)
            (Ensures-add_ids xs (add s x) (λ no. bad (λ h. no h.1)) (add-IsBitset n s x v lt))

  -- sg_bitset_from_ids gives the set of the listed states, or rejects an empty list or a state out
  -- of range.
  pub Ensures-from_ids :
      (xs : List ℕ)
      → 0 < n
      → n + 63 < size_mod
      → (xs ≡ [] → E invalid_argument)
      → (¬ InRange n xs → E invalid_argument)
      → Ensures
          (from_ids n xs)
          (λ t. IsBitset n t × (xs ≢ []) × InRange n xs × ((q : ℕ) → has t q ≡ contains xs q))
          E
  unfolding from_ids
  Ensures-from_ids xs pos small nothing bad =
      Ensures-bind
        (Ensures-guard (not (length xs == 0)) invalid_argument
          (λ z. nothing (empty_of_length xs z)))
        λ _ some_id. Ensures-bind (Ensures-init (λ z. absurd (omega arith)) small) λ s e.
          Ensures-mono (λ t p. (p.0, (λ z. cc), p.1, λ q. ground (arith, p.2 q, has-empty n q)))
            (λ e z. z) (Ensures-add_ids xs s bad (rw e (empty-IsBitset n small)))
    where
      empty_of_length : (ys : List ℕ) → not (length ys == 0) ≡ false → ys ≡ []
      empty_of_length [] z = refl
      empty_of_length (y ∷ ys) z = ground arith

pub Ensures-copy :
    (n : ℕ) (E : Status → Type 0) (s : Bitset)
    → 0 < n
    → IsBitset n s
    → Ensures (copy s) (λ t. t ≡ s) E
unfolding copy empty
Ensures-copy n E s pos v =
    let e = v.states in
    let small = v.small in
    Ensures-bind (Ensures-init s.state_count E (λ z. absurd (omega arith)) (omega arith))
      λ t e. Ensures-return _ (same t e)
  where
    same :
        (t : Bitset) → t ≡ empty s.state_count → ◌≡◌ {A = Bitset} (record t { words = s.words }) s
    same t e = rw e
