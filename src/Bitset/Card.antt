-- ===== src/Bitset/Card.antt =====
-- How many numbers of a range pass a test, and that sg_bitset_count counts so.
use sync_kgraph.Base.{
  ℕ, ◌≢◌, ltb, ◌||◌, zero, suc, ◌+◌, ◌*◌, ◌/◌, ◌≤◌, ◌<◌, ◌≡◌, refl, Bool, true, false, List, [],
  ◌∷◌, arith, ◌==◌, if◌then◌else◌, Bool-cases, inl, inr, All, length, get_or,
}
use sync_kgraph.Bitset.{count_words, word_mod}
use sync_kgraph.Bitset.Bits.{bit, ones, popcount-eq-ones}

-- the numbers of [start, start + n) at which the test holds
abbrev pub card : (ℕ → Bool) → ℕ → ℕ → ℕ
card p start zero = 0
card p start (suc n) = (if p start then 1 else 0) + card p (start + 1) n

pub card-append :
    (p : ℕ → Bool) (i m n j : ℕ) → j ≡ i + m → card p i (m + n) ≡ card p i m + card p j n
card-append p i zero n j e =
    let e' : j ≡ i = omega arith in let e'' : 0 + n ≡ n = omega arith in rw (e', e'') (omega arith)
card-append p i (suc m) n j e =
    let e' : suc m + n ≡ suc (m + n) = omega arith in
    rw e' (omega (arith, card-append p (i + 1) m n j (omega arith)))

pub card_none :
    (p : ℕ → Bool) (i n : ℕ) → ((q : ℕ) → i ≤ q → q < i + n → p q ≡ false) → card p i n ≡ 0
card_none p i zero h = refl
card_none p i (suc n) h = ground (
  arith,
  h i (omega arith) (omega arith),
  card_none p (i + 1) n (λ q l u. h q (omega arith) (omega arith)),
)

pub none_of_card : (p : ℕ → Bool) (i n q : ℕ) → card p i n ≡ 0 → i ≤ q → q < i + n → p q ≡ false
none_of_card p i zero q h l u = absurd (omega arith)
none_of_card p i (suc n) q h l u = elim (Bool-cases (q == i)) [
  | inl same ↦ let e : q ≡ i = ground arith in rw e (ground arith)
  | inr other ↦ none_of_card p (i + 1) n q (ground arith) (ground arith) (omega arith)
]

pub card-le : (p : ℕ → Bool) (i n : ℕ) → card p i n ≤ n
card-le p i zero = omega arith
card-le p i (suc n) = ground (arith, card-le p (i + 1) n)

pub card_ext : (p r : ℕ → Bool) (i n : ℕ) → ((q : ℕ) → p q ≡ r q) → card p i n ≡ card r i n
card_ext p r i zero h = refl
card_ext p r i (suc n) h = let e = h i in rw e (omega (arith, card_ext p r (i + 1) n h))

pub card_on :
    (p r : ℕ → Bool) (i n : ℕ) → ((q : ℕ) → i ≤ q → q < i + n → p q ≡ r q) → card p i n ≡ card r i n
card_on p r i zero h = refl
card_on p r i (suc n) h =
    let e = h i (omega arith) (omega arith) in
    rw e (omega (arith, card_on p r (i + 1) n (λ q l u. h q (omega arith) (omega arith))))

-- One number more counts at most once.
pub card_insert :
    (p : ℕ → Bool) (x i n : ℕ)
    → card (λ q. q == x || p q) i n ≤ card p i n + (if ltb x i then 0 else 1)
card_insert p x i zero = ground arith
card_insert p x i (suc n) = ground (arith, card_insert p x (i + 1) n)

-- With some number counted, there is one.
pub some_of_card :
    (p : ℕ → Bool) (i n : ℕ) → card p i n ≢ 0 → (q : ℕ) × (i ≤ q) × (q < i + n) × (p q ≡ true)
some_of_card p i zero h = absurd (h refl)
some_of_card p i (suc n) h = elim (Bool-cases (p i)) [
  | inl here ↦ (i, omega arith, omega arith, here)
  | inr away ↦
      let (q, l, u, pq) = some_of_card p (i + 1) n (λ e. h (ground arith)) in
      (q, omega arith, omega arith, pq)
]

-- With one number that passes, there is one, and no other.
pub one_of_card :
    (p : ℕ → Bool) (i n : ℕ)
    → card p i n ≡ 1
    → (q : ℕ) × (i ≤ q)
      × (q < i + n)
      × (p q ≡ true)
      × ((r : ℕ) → i ≤ r → r < i + n → p r ≡ true → r ≡ q)
one_of_card p i zero h = absurd (omega arith)
one_of_card p i (suc n) h = elim (Bool-cases (p i)) [
  | inl here ↦ (
    i,
    omega arith,
    omega arith,
    here,
    λ r l u pr. elim (Bool-cases (r == i)) [
      | inl same ↦ ground arith
      | inr other ↦
          ground (arith, none_of_card p (i + 1) n r (ground arith) (ground arith) (omega arith))
    ],
  )
  | inr not_here ↦
      let (q, l, u, pq, only) = one_of_card p (i + 1) n (ground arith) in
      (
        q,
        omega arith,
        omega arith,
        pq,
        λ r l' u' pr. elim (Bool-cases (r == i)) [
          | inl same ↦ let e : r ≡ i = ground arith in ground arith
          | inr other ↦ only r (ground arith) (omega arith) pr
        ],
      )
]

pub card_one :
    (p : ℕ → Bool) (i n q : ℕ)
    → i ≤ q
    → q < i + n
    → p q ≡ true
    → ((r : ℕ) → i ≤ r → r < i + n → p r ≡ true → r ≡ q)
    → card p i n ≡ 1
card_one p i zero q l u h only = absurd (omega arith)
card_one p i (suc n) q l u h only = elim (Bool-cases (q == i)) [
  | inl same ↦
      let e : q ≡ i = ground arith in
      let rest = card_none p (i + 1) n (λ r l' u'. elim (Bool-cases (p r)) [
        | inl yes_r ↦ absurd (omega (arith, only r (omega arith) (omega arith) yes_r))
        | inr no_r ↦ no_r
      ]) in
      let pi = rw e at h in ground arith
  | inr other ↦
      let ih =
        card_one p (i + 1) n q (ground arith) (omega arith) h
          (λ r l' u' pr. only r (omega arith) (omega arith) pr) in
      elim (Bool-cases (p i)) [
        | inl yes_i ↦ absurd (ground (arith, only i (omega arith) (omega arith) yes_i))
        | inr no_i ↦ ground arith
      ]
]

ones-eq-card :
    (f : ℕ → Bool) (i n w : ℕ)
    → ((k j : ℕ) → k < n → j ≡ i + k → f j ≡ (bit w k == 1))
    → card f i n ≡ ones n w
ones-eq-card f i zero w h = refl
ones-eq-card f i (suc n) w h = ground (
  arith,
  h 0 i (omega arith) (omega arith),
  ones-eq-card f (i + 1) n (w / 2) (λ k j l e. h (suc k) j (omega arith) (omega arith)),
)

-- The sum of the words' counts is the number of bits set in all of them.
pub count_words-eq-card :
    (f : ℕ → Bool) (ws : List ℕ) (i n : ℕ)
    → All (λ w. w < word_mod) ws
    → n ≡ 64 * length ws
    → ((x k j : ℕ)
        → x < length ws
        → k < 64
        → j ≡ i + 64 * x + k
        → f j ≡ (bit (get_or ws x 0) k == 1))
    → count_words ws ≡ card f i n
unfolding count_words
count_words-eq-card f [] i n b e h = let e' : n ≡ 0 = omega arith in rw e'
count_words-eq-card f (w ∷ ws) i n b e h =
    let e' : n ≡ 64 + 64 * length ws = omega arith in
    rw e' (
      omega (
        arith,
        card-append f i 64 (64 * length ws) (i + 64) refl,
        ones-eq-card f i 64 w (λ k j l e''. h 0 k j (omega arith) l (omega arith)),
        popcount-eq-ones w b.0,
        count_words-eq-card f ws (i + 64) (64 * length ws) b.1 refl
            (λ x k j l l' e''. h (suc x) k j (omega arith) l' (omega arith)),
      ))
