-- ===== src/Oracle/Pairs.antt =====
-- sg_pair_index numbers the pairs first ≤ second < n from 0 on, row by row, with no gap.
use sync_kgraph.Base.{
  ℕ, zero, suc, ◌+◌, ◌*◌, ◌/◌, ◌≤◌, ◌<◌, ◌≡◌, refl, ap, inl, inr, arith, ltb, ltb→lt, Bool-cases,
}
use sync_kgraph.Sync.{pair_index}

-- 0 + 1 + ... + n
abbrev pub triangle : ℕ → ℕ
triangle zero = 0
triangle (suc n) = triangle n + suc n

pub triangle_double : (n : ℕ) → triangle n + triangle n ≡ n * (n + 1)
triangle_double zero = refl
triangle_double (suc n) = let ih = triangle_double n in grind arith

pub half-eq-triangle : (n : ℕ) → n * (n + 1) / 2 ≡ triangle n
half-eq-triangle n = omega (arith, triangle_double n)

triangle-le : (p n : ℕ) → p ≤ n → triangle p ≤ p * n
triangle-le zero n h = omega arith
triangle-le (suc p) n h = let ih = triangle-le p n (omega arith) in grind arith

-- The closed form, without the subtraction.
pub pair_index-triangle : (n p q : ℕ) → p ≤ q → q < n → pair_index n p q + triangle p ≡ p * n + q
unfolding pair_index
pair_index-triangle n p q l h =
    let e = half-eq-triangle p in let small = triangle-le p n (omega arith) in ground arith

pub pair_index_comm : (n p q : ℕ) → pair_index n p q ≡ pair_index n q p
unfolding pair_index
pair_index_comm n p q = ground arith

-- Rows start one behind the other.
row_le : (n p q : ℕ) → p ≤ q → q ≤ n → p * n + p + triangle q ≤ q * n + q + triangle p
row_le n p zero l h = let e : p ≡ 0 = omega arith in rw e (omega arith)
row_le n p (suc q) l h = elim (Bool-cases (ltb q p)) [
  | inl last ↦ let e : p ≡ suc q = ground arith in rw e (omega arith)
  | inr before ↦
      let ih = row_le n p q (ground arith) (omega arith) in
      let more : suc q * n ≡ q * n + n = grind arith in omega arith
]

pub pair_index-lt : (n p q : ℕ) → p ≤ q → q < n → pair_index n p q < triangle n
pair_index-lt n p q l h =
    let e = pair_index-triangle n p q l h in
    let r = row_le n (suc p) n (omega arith) (omega arith) in
    let d = triangle_double n in
    let more : suc p * n ≡ p * n + n = grind arith in
    let square : n * (n + 1) ≡ n * n + n = grind arith in omega arith

row_lt :
    (n p q p' q' : ℕ)
    → p < p'
    → p ≤ q
    → q < n
    → p' ≤ q'
    → q' < n
    → pair_index n p q < pair_index n p' q'
row_lt n p q p' q' up l h l' h' =
    let e = pair_index-triangle n p q l h in
    let e' = pair_index-triangle n p' q' l' h' in
    let r = row_le n (suc p) p' (omega arith) (omega arith) in
    let more : suc p * n ≡ p * n + n = grind arith in omega arith

pub pair_index_injective :
    (n p q p' q' : ℕ)
    → p ≤ q
    → q < n
    → p' ≤ q'
    → q' < n
    → pair_index n p q ≡ pair_index n p' q'
    → (p ≡ p') × (q ≡ q')
pair_index_injective n p q p' q' l h l' h' e = elim (Bool-cases (ltb p p')) [
  | inl below ↦ absurd (omega (arith, row_lt n p q p' q' (ltb→lt p p' below) l h l' h'))
  | inr above ↦ elim (Bool-cases (ltb p' p)) [
    | inl over ↦ absurd (omega (arith, row_lt n p' q' p q (ltb→lt p' p over) l' h' l h))
    | inr level ↦
        let same : p ≡ p' = ground arith in
        let t = ap triangle same in
        let m = ap (λ (x : ℕ). x * n) same in
        (same, omega (arith, pair_index-triangle n p q l h, pair_index-triangle n p' q' l' h'))
  ]
]

-- The next pair of a row, and the first one of the next row.
pub pair_index-suc : (n p q : ℕ) → p ≤ q → suc q < n → pair_index n p (suc q) ≡ pair_index n p q + 1
pair_index-suc n p q l h = omega (
  arith,
  pair_index-triangle n p q l (omega arith),
  pair_index-triangle n p (suc q) (omega arith) h,
)

pub pair_index-next_row :
    (n p : ℕ) → suc p < n → pair_index n (suc p) (suc p) + p ≡ pair_index n p p + n
pair_index-next_row n p h =
    let e = pair_index-triangle n p p (omega arith) (omega arith) in
    let e' = pair_index-triangle n (suc p) (suc p) (omega arith) h in
    let more : suc p * n ≡ p * n + n = grind arith in omega arith

-- The number of two states in any order.
pub pair_index_bound : (n p q : ℕ) → p < n → q < n → pair_index n p q < triangle n
pair_index_bound n p q hp hq = elim (Bool-cases (ltb q p)) [
  | inl above ↦ omega (arith, pair_index_comm n p q, pair_index-lt n q p (ground arith) hp)
  | inr below ↦ pair_index-lt n p q (ground arith) hq
]
