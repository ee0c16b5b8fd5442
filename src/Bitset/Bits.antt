-- ===== src/Bitset/Bits.antt =====
-- One 64-bit word as a set of bit positions: `|=`, `&`, `~` and the population count.
use Prim.Native.Nat.{bit_and, bit_or, digits, bitwise, bit_and-bitwise, bit_or-bitwise}
use native.Mathlib.Nat.{pow-suc}
use sync_kgraph.Base.{
  ℕ, ap, ◌∙◌, zero, suc, ◌+◌, ◌-◌, ◌*◌, ◌/◌, ◌%◌, ◌^◌, ◌≤◌, ◌<◌, min, max, ◌≡◌, refl, not, arith,
  ◌==◌, if◌then◌else◌, Bool-cases, inl, inr,
}
use sync_kgraph.Bitset.{popcount_loop, popcount, word_mod}

-- bit `k` of a word, 0 or 1
abbrev pub bit : ℕ → ℕ → ℕ
bit w zero = w % 2
bit w (suc k) = bit (w / 2) k

pub bit-le_one : (w k : ℕ) → bit w k ≤ 1
bit-le_one w zero = omega arith
bit-le_one w (suc k) = bit-le_one (w / 2) k

-- `digits` reads no more rounds than its first number has digits, so extra rounds change nothing.
digits-more :
    (last : ℕ → ℕ) (op : ℕ → ℕ → ℕ) (extra rounds v w : ℕ)
    → v ≤ rounds
    → digits last op (rounds + extra) v w ≡ digits last op rounds v w
digits-more last op zero zero zero w h = refl
digits-more last op (suc extra) zero zero w h =
    let plain : 0 + suc extra ≡ suc extra = omega arith in
    ap (λ (r : ℕ). digits last op r 0 w) plain
digits-more last op extra zero (suc v) w h = absurd (omega arith)
digits-more last op extra (suc rounds) zero w h =
    let plain : suc rounds + extra ≡ suc (rounds + extra) = omega arith in
    ap (λ (r : ℕ). digits last op r 0 w) plain
digits-more last op extra (suc rounds) (suc v) w h =
    let halves = digits-more last op extra rounds (suc v / 2) (w / 2) (omega arith) in
    let plain : suc rounds + extra ≡ suc (rounds + extra) = omega arith in
    ap (λ (r : ℕ). digits last op r (suc v) w) plain ∙ omega arith

-- the lowest digit and the rest of a digitwise operation
lowest_digit :
    (last : ℕ → ℕ) (op : ℕ → ℕ → ℕ) (v w : ℕ)
    → bitwise last op (suc v) w ≡ op (suc v % 2) (w % 2) + 2 * bitwise last op (suc v / 2) (w / 2)
lowest_digit last op v w =
    let half = suc v / 2 in
    let spare = v - half in
    let split : v ≡ half + spare = omega arith in
    let shorter =
      ap (λ (r : ℕ). digits last op r half (w / 2)) split
      ∙ digits-more last op spare half half (w / 2) (omega arith) in
    omega arith

or_step : (v w : ℕ) → bit_or v w ≡ max (v % 2) (w % 2) + 2 * bit_or (v / 2) (w / 2)
or_step zero w = let e = bit_or-bitwise in simp e (omega arith)
or_step (suc v) w = let e = bit_or-bitwise in simp e (lowest_digit (λ r. r) max v w)

and_step : (v w : ℕ) → bit_and v w ≡ min (v % 2) (w % 2) + 2 * bit_and (v / 2) (w / 2)
and_step zero w = let e = bit_and-bitwise in simp e (omega arith)
and_step (suc v) w = let e = bit_and-bitwise in simp e (lowest_digit (λ r. 0) min v w)

half_or : (a b : ℕ) → bit_or a b / 2 ≡ bit_or (a / 2) (b / 2)
half_or a b = omega (arith, or_step a b)

pub bit-or : (a b k : ℕ) → bit (bit_or a b) k ≡ max (bit a k) (bit b k)
bit-or a b zero = omega (arith, or_step a b)
bit-or a b (suc k) = rw half_or (bit-or (a / 2) (b / 2) k)

pub bit_or-lt : (n a b : ℕ) → a < 2 ^ n → b < 2 ^ n → bit_or a b < 2 ^ n
bit_or-lt zero zero zero p q = omega arith
bit_or-lt zero zero (suc b) p q = absurd (omega arith)
bit_or-lt zero (suc a) b p q = absurd (omega arith)
bit_or-lt (suc n) a b p q = omega (
  arith,
  or_step a b,
  pow-suc 2 n,
  bit_or-lt n (a / 2) (b / 2) (omega (arith, pow-suc 2 n)) (omega (arith, pow-suc 2 n)),
)

half_power : (k : ℕ) → 2 ^ suc k / 2 ≡ 2 ^ k
half_power k = omega (arith, pow-suc 2 k)

bit-zero : (j : ℕ) → bit 0 j ≡ 0
bit-zero zero = refl
bit-zero (suc j) = bit-zero j

-- A power of two has one bit.
pub bit-power : (k j : ℕ) → bit (2 ^ k) j ≡ (if k == j then 1 else 0)
bit-power zero zero = refl
bit-power zero (suc j) = ground (arith, bit-zero j)
bit-power (suc k) zero = ground (arith, pow-suc 2 k)
bit-power (suc k) (suc j) = ground (arith, half_power k, bit-power k j)

and-zero : (n a : ℕ) → a ≤ n → bit_and a 0 ≡ 0
and-zero n zero h = refl
and-zero zero (suc a) h = absurd (omega arith)
and-zero (suc n) (suc a) h = omega (arith, and_step (suc a) 0, and-zero n (suc a / 2) (omega arith))

-- `w & (1 << k)` tells bit `k`.
pub and-power : (w k : ℕ) → not (bit_and w (2 ^ k) == 0) ≡ (bit w k == 1)
and-power w zero = ground (arith, and_step w 1, and-zero (w / 2) (w / 2))
and-power w (suc k) =
    ground (arith, and_step w (2 ^ suc k), half_power k, pow-suc 2 k, and-power (w / 2) k)

and_self : (n a : ℕ) → a ≤ n → bit_and a a ≡ a
and_self n zero h = refl
and_self zero (suc a) h = absurd (omega arith)
and_self (suc n) (suc a) h =
    omega (arith, and_step (suc a) (suc a), and_self n (suc a / 2) (omega arith))

-- how many of the lowest `n` bits are set
abbrev pub ones : ℕ → ℕ → ℕ
ones zero w = 0
ones (suc n) w = w % 2 + ones n (w / 2)

ones-zero : (n : ℕ) → ones n 0 ≡ 0
ones-zero zero = refl
ones-zero (suc n) = omega (arith, ones-zero n)

pub ones-le : (n w : ℕ) → ones n w ≤ n
ones-le zero w = omega arith
ones-le (suc n) w = omega (arith, ones-le n (w / 2))

lowest_odd : (v : ℕ) → v % 2 ≡ 1 → (bit_and v (v - 1) % 2 ≡ 0) × (bit_and v (v - 1) / 2 ≡ v / 2)
lowest_odd v o =
    let e : (v - 1) / 2 ≡ v / 2 = omega arith in
    let s = and_step v (v - 1) in
    let s' = rw e at s in omega (arith, s', and_self (v / 2) (v / 2) (omega arith))

lowest_even :
    (v : ℕ)
    → 0 < v
    → v % 2 ≡ 0
    → (bit_and v (v - 1) % 2 ≡ 0) × (bit_and v (v - 1) / 2 ≡ bit_and (v / 2) (v / 2 - 1))
lowest_even v p o =
    let e : (v - 1) / 2 ≡ v / 2 - 1 = omega arith in
    let s = and_step v (v - 1) in let s' = rw e at s in omega (arith, s')

-- `value &= value - 1` takes away one bit.
clear_lowest :
    (n v : ℕ)
    → v < 2 ^ n
    → 0 < v
    → (suc (ones n (bit_and v (v - 1))) ≡ ones n v) × (bit_and v (v - 1) < 2 ^ n)
clear_lowest zero v h p = absurd (omega arith)
clear_lowest (suc n) v h p = elim (Bool-cases (v % 2 == 1)) [
  | inl odd ↦
      let o = lowest_odd v (ground arith) in
      (rw o.1 (ground (arith, o.0)), omega (arith, o, pow-suc 2 n))
  | inr even ↦
      let o = lowest_even v p (ground arith) in
      let s = pow-suc 2 n in
      let ih = clear_lowest n (v / 2) (omega arith) (ground arith) in
      (rw o.1 (ground (arith, o.0, ih.0)), omega (arith, o, ih.1, s))
]

popcount_loop-eq :
    (n fuel v c : ℕ) → v < 2 ^ n → ones n v ≤ fuel → popcount_loop fuel v c ≡ c + ones n v
unfolding popcount_loop
popcount_loop-eq n zero v c h f = omega arith
popcount_loop-eq n (suc fuel) v c h f =
    ground
      (arith, ones-zero n, clear_lowest n v h, popcount_loop-eq n fuel (bit_and v (v - 1)) (c + 1))

-- sg_popcount counts the bits of a 64-bit word; its loop ends within 64 rounds.
pub popcount-eq-ones : (v : ℕ) → v < word_mod → popcount v ≡ ones 64 v
unfolding popcount
popcount-eq-ones v h = omega (arith, popcount_loop-eq 64 64 v 0 h (ones-le 64 v))

-- the complement of a word, digit by digit
complement-half : (n b : ℕ) → b < 2 ^ suc n → (2 ^ suc n - 1 - b) / 2 ≡ 2 ^ n - 1 - b / 2
complement-half n b h = omega (arith, pow-suc 2 n)

complement-low : (n b : ℕ) → b < 2 ^ suc n → (2 ^ suc n - 1 - b) % 2 + b % 2 ≡ 1
complement-low n b h = omega (arith, pow-suc 2 n)

and-complement_step :
    (n a b : ℕ)
    → b < 2 ^ suc n
    → bit_and a (2 ^ suc n - 1 - b)
      ≡ bit_and (a / 2) (2 ^ n - 1 - b / 2) * 2 + min (a % 2) (1 - b % 2)
and-complement_step n a b h =
    let s = and_step a (2 ^ suc n - 1 - b) in
    let s' = rw (complement-half n b h) at s in omega (arith, s', complement-low n b h)

-- `a & ~b` is zero exactly when each bit of `a` is one of `b`.
pub bits_below_of_and :
    (n a b k : ℕ) → b < 2 ^ n → bit_and a (2 ^ n - 1 - b) ≡ 0 → k < n → bit a k ≤ bit b k
bits_below_of_and zero a b k h e l = absurd (omega arith)
bits_below_of_and (suc n) a b zero h e l = omega (arith, and-complement_step n a b h)
bits_below_of_and (suc n) a b (suc k) h e l =
    bits_below_of_and n (a / 2) (b / 2) k (omega (arith, pow-suc 2 n))
      (omega (arith, and-complement_step n a b h)) (omega arith)

zero-and : (b : ℕ) → bit_and 0 b ≡ 0
zero-and b = bit_and-bitwise 0 b

pub and_of_bits_below :
    (n a b : ℕ)
    → a < 2 ^ n
    → b < 2 ^ n
    → ((k : ℕ) → k < n → bit a k ≤ bit b k)
    → bit_and a (2 ^ n - 1 - b) ≡ 0
and_of_bits_below zero zero b p q h = zero-and _
and_of_bits_below zero (suc a) b p q h = absurd (omega arith)
and_of_bits_below (suc n) a b p q h = omega (
  arith,
  and-complement_step n a b q,
  h 0 (omega arith),
  and_of_bits_below n (a / 2) (b / 2) (omega (arith, pow-suc 2 n)) (omega (arith, pow-suc 2 n))
      (λ k l. h (suc k) (omega arith)),
)

-- A word is given by its bits.
pub bit_ext : (n a b : ℕ) → a < 2 ^ n → b < 2 ^ n → ((k : ℕ) → k < n → bit a k ≡ bit b k) → a ≡ b
bit_ext zero a b p q h = omega arith
bit_ext (suc n) a b p q h = omega (
  arith,
  h 0 (omega arith),
  bit_ext n (a / 2) (b / 2) (omega (arith, pow-suc 2 n)) (omega (arith, pow-suc 2 n))
      (λ k l. h (suc k) (omega arith)),
)
