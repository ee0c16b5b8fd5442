-- ===== src/Bitset/Laws.antt =====
-- The words of an sg_bitset behave as a finite set of states.
use native.Mathlib.Nat.{pow-suc, one-le-pow}
use sync_kgraph.Base.{
  ℕ, zero, suc, ◌+◌, ◌*◌, ◌/◌, ◌%◌, ◌^◌, ◌≤◌, ◌<◌, max, ◌≡◌, ◌∙◌, refl, sym, ◌≢◌, ◌↔◌, inl, inr,
  Bool, true, false, ◌||◌, List, [], ◌∷◌, arith, ◌==◌, if◌then◌else◌, Bool-cases, All, All-set,
  All-get_or, All-replicate, length, get_or, set, replicate, length-set, length-replicate,
  get_or-set_self, get_or-set_ne, get_or-replicate, size_mod,
}
use Prim.Native.Nat.{bit_or}
use sync_kgraph.Bitset.{
  Bitset, word_count, word_mod, empty, clear, add, has, words_equal, equal, words_subset,
}
use sync_kgraph.Bitset.Bits.{
  bit, bit-le_one, bit-or, bit_or-lt, bit-power, and-power, bits_below_of_and, and_of_bits_below,
  bit_ext,
}

-- A well-formed set of states below `n`: whole 64-bit words, and no bit at or above `n`.
pub record IsBitset (n : ℕ) (s : Bitset) : Type 0 where
  pub small : n + 63 < size_mod
  pub states : s.state_count ≡ n
  pub sized : length s.words ≡ (n + 63) / 64
  pub bounded : All (λ w. w < word_mod) s.words
  pub within : (q : ℕ) → n ≤ q → has s q ≡ false

pub has-bit : (s : Bitset) (q : ℕ) → has s q ≡ (bit (get_or s.words (q / 64) 0) (q % 64) == 1)
unfolding has
has-bit s q = and-power (get_or s.words (q / 64) 0) (q % 64)

bit-zero : (k : ℕ) → (bit 0 k == 1) ≡ false
bit-zero zero = refl
bit-zero (suc k) = bit-zero k

has_of_zeros : (s : Bitset) (m : ℕ) → s.words ≡ replicate m 0 → (q : ℕ) → has s q ≡ false
has_of_zeros s m e q =
    let z : ℕ = 0 in ground (arith, has-bit s q, get_or-replicate m (q / 64) z, bit-zero (q % 64))

pub has-empty : (n q : ℕ) → has (empty n) q ≡ false
unfolding empty
has-empty n q = has_of_zeros (empty n) (word_count n) refl q

pub empty-IsBitset : (n : ℕ) → n + 63 < size_mod → IsBitset n (empty n)
unfolding empty word_count
empty-IsBitset n h = record {
  small = h;
  states = refl;
  sized = omega (arith, length-replicate (word_count n) (let z : ℕ = 0 in z));
  bounded = All-replicate (λ w. w < word_mod) (word_count n) 0 (omega arith);
  within = λ q _. has-empty n q;
}

pub has-clear : (s : Bitset) (q : ℕ) → has (clear s) q ≡ false
unfolding clear
has-clear s q = has_of_zeros (clear s) (length s.words) refl q

pub clear-IsBitset : (n : ℕ) (s : Bitset) → IsBitset n s → IsBitset n (clear s)
unfolding clear
clear-IsBitset n s v = record {
  small = v.small;
  states = v.states;
  sized = omega (arith, v.sized, length-replicate (length s.words) (let z : ℕ = 0 in z));
  bounded = All-replicate (λ w. w < word_mod) (length s.words) 0 (omega arith);
  within = λ q _. has-clear s q;
}

max_one : (a b : ℕ) → a ≤ 1 → b ≤ 1 → (max a b == 1) ≡ (a == 1 || b == 1)
max_one a b p q = ground arith

if_one : (b : Bool) → ((if b then 1 else 0) == 1) ≡ b
if_one true = refl
if_one false = refl

same_place : (q x : ℕ) → q / 64 ≡ x / 64 → (x % 64 == q % 64) ≡ (q == x)
same_place q x h = ground arith

-- Adding a state in range adds it, and nothing else.
pub has-add :
    (n : ℕ) (s : Bitset) (x q : ℕ) → IsBitset n s → x < n → has (add s x) q ≡ (q == x || has s q)
unfolding add
has-add n s x q v h = elim (Bool-cases (q / 64 == x / 64)) [
  | inl near ↦
      let e : q / 64 ≡ x / 64 = ground arith in
      has-bit (add s x) q ∙ (rw (e, word_set, bit-or) (near_bits e))
  | inr far ↦
      let ne : x / 64 ≢ q / 64 = ground arith in
      let apart : (q == x) ≡ false = ground arith in
      has-bit (add s x) q
      ∙ (rw (get_or-set_ne s.words (x / 64) (q / 64) _ 0 ne, apart) (sym (has-bit s q)))
]
  where
    mask : ℕ
    mask = 2 ^ (x % 64)

    word_set :
        get_or (set s.words (x / 64) (bit_or (get_or s.words (x / 64) 0) mask)) (x / 64) 0
        ≡ bit_or (get_or s.words (x / 64) 0) mask
    word_set = get_or-set_self s.words (x / 64) _ 0 (omega (arith, v.sized))

    near_bits :
        q / 64 ≡ x / 64
        → (max (bit (get_or s.words (x / 64) 0) (q % 64)) (bit mask (q % 64)) == 1)
          ≡ (q == x || has s q)
    near_bits e = ground (
      arith,
      has-bit s q,
      max_one (bit (get_or s.words (x / 64) 0) (q % 64)) (bit mask (q % 64)) (bit-le_one _ (q % 64))
          (bit-le_one mask (q % 64)),
      bit-power (x % 64) (q % 64),
      same_place q x e,
    )

power_lt : (n k : ℕ) → k < n → 2 ^ k < 2 ^ n
power_lt zero k h = absurd (omega arith)
power_lt (suc n) zero h = omega (arith, pow-suc 2 n, one-le-pow n 2)
power_lt (suc n) (suc k) h = omega (arith, pow-suc 2 n, pow-suc 2 k, power_lt n k)

pub add-IsBitset : (n : ℕ) (s : Bitset) (x : ℕ) → IsBitset n s → x < n → IsBitset n (add s x)
unfolding add
add-IsBitset n s x v h = record {
  small = v.small;
  states = v.states;
  sized = omega (
    arith,
    v.sized,
    length-set s.words (x / 64) (bit_or (get_or s.words (x / 64) 0) (2 ^ (x % 64))),
  );
  bounded =
      All-set (λ w. w < word_mod) s.words (x / 64) _ v.bounded
        (bit_or-lt 64 _ _
          (All-get_or (λ w. w < word_mod) s.words (x / 64) 0 v.bounded (omega (arith, v.sized)))
          (power_lt 64 (x % 64) (omega arith)));
  within = λ q l. rw (has-add n s x q v h, v.within q l) (ground arith);
}

words_equal_sound : (vs ws : List ℕ) → words_equal vs ws ≡ true → vs ≡ ws
unfolding words_equal
words_equal_sound [] [] h = refl
words_equal_sound [] (w ∷ ws) h = cc
words_equal_sound (v ∷ vs) [] h = cc
words_equal_sound (v ∷ vs) (w ∷ ws) h = ground (arith, words_equal_sound vs ws)

words_equal_refl : (ws : List ℕ) → words_equal ws ws ≡ true
unfolding words_equal
words_equal_refl [] = refl
words_equal_refl (w ∷ ws) = ground (arith, words_equal_refl ws)

-- memcmp on equal sizes decides the equality of the representation
pub equal_iff : (s t : Bitset) → (equal s t ≡ true) ↔ (s ≡ t)
unfolding equal
equal_iff s t = (
  λ h. ground (arith, words_equal_sound s.words t.words),
  λ e. rw e (ground (arith, words_equal_refl t.words)),
)

words_ext :
    (vs ws : List ℕ)
    → length vs ≡ length ws
    → All (λ w. w < word_mod) vs
    → All (λ w. w < word_mod) ws
    → ((x k : ℕ) → x < length vs → k < 64 → bit (get_or vs x 0) k ≡ bit (get_or ws x 0) k)
    → vs ≡ ws
words_ext [] [] l a b h = refl
words_ext [] (w ∷ ws) l a b h = absurd (omega arith)
words_ext (v ∷ vs) [] l a b h = absurd (omega arith)
words_ext (v ∷ vs) (w ∷ ws) l a b h =
    let e = bit_ext 64 v w a.0 b.0 (λ k lt. h 0 k (omega arith) lt) in
    let es = words_ext vs ws (omega arith) a.1 b.1 (λ x k lx lk. h (suc x) k (omega arith) lk) in cc

place : (x k : ℕ) → k < 64 → ((64 * x + k) / 64 ≡ x) × ((64 * x + k) % 64 ≡ k)
place x k h = omega arith

-- bit `k` of word `x` is state 64 x + k
pub word_bit :
    (s : Bitset) (x k : ℕ) → k < 64 → has s (64 * x + k) ≡ (bit (get_or s.words x 0) k == 1)
word_bit s x k h = let (a, b) = place x k h in has-bit s (64 * x + k) ∙ (rw (a, b))

one_bit_eq : (a b : ℕ) → a ≤ 1 → b ≤ 1 → (a == 1) ≡ (b == 1) → a ≡ b
one_bit_eq a b p q h = ground arith

pub one_bit_le : (a b : ℕ) → a ≤ 1 → b ≤ 1 → ((a == 1) ≡ true → (b == 1) ≡ true) → a ≤ b
one_bit_le a b p q h = ground arith

-- Two well-formed sets with the same states are the same words.
pub Bitset_ext :
    (n : ℕ) (s t : Bitset) → IsBitset n s → IsBitset n t → ((q : ℕ) → has s q ≡ has t q) → s ≡ t
Bitset_ext n s t v w h =
    let e =
      words_ext s.words t.words (omega (arith, v.sized, w.sized)) v.bounded w.bounded (λ x k lx lk.
        one_bit_eq (bit (get_or s.words x 0) k) (bit (get_or t.words x 0) k) (bit-le_one _ k)
          (bit-le_one _ k) (sym (word_bit s x k lk) ∙ h (64 * x + k) ∙ word_bit t x k lk)) in
    let a = v.states in let b = w.states in ground arith

pub words_subset_sound :
    (vs ws : List ℕ)
    → All (λ w. w < word_mod) ws
    → words_subset vs ws ≡ true
    → (x k : ℕ) → x < length vs
    → k < 64
    → bit (get_or vs x 0) k ≤ bit (get_or ws x 0) k
unfolding words_subset
words_subset_sound [] ws b h x k lx lk = absurd (omega arith)
words_subset_sound (v ∷ vs) [] b h x k lx lk = cc
words_subset_sound (v ∷ vs) (w ∷ ws) b h zero k lx lk =
    bits_below_of_and 64 v w k b.0 (ground arith) lk
words_subset_sound (v ∷ vs) (w ∷ ws) b h (suc x) k lx lk =
    words_subset_sound vs ws b.1 (ground arith) x k (omega arith) lk

pub words_subset_complete :
    (vs ws : List ℕ)
    → length vs ≡ length ws
    → All (λ w. w < word_mod) vs
    → All (λ w. w < word_mod) ws
    → ((x k : ℕ) → x < length vs → k < 64 → bit (get_or vs x 0) k ≤ bit (get_or ws x 0) k)
    → words_subset vs ws ≡ true
unfolding words_subset
words_subset_complete [] ws l a b h = refl
words_subset_complete (v ∷ vs) [] l a b h = absurd (omega arith)
words_subset_complete (v ∷ vs) (w ∷ ws) l a b h =
    let e = and_of_bits_below 64 v w a.0 b.0 (λ k lk. h 0 k (omega arith) lk) in
    let es =
      words_subset_complete vs ws (omega arith) a.1 b.1
        (λ x k lx lk. h (suc x) k (omega arith) lk) in
    ground arith
