-- ===== src/Bitset.antt =====
-- src/planner.c, sg_bitset: a set of states as an array of 64-bit words. `Bits` has the laws of one
-- word, `Card` counts, and `Laws` proves that the words behave as a finite set.
pub mod Bits
pub mod Card
pub mod Laws
pub mod Members
use Prim.Native.Nat.{bit_and, bit_or}
use sync_kgraph.Base.{
  ℕ, zero, suc, ◌+◌, ◌-◌, ◌/◌, ◌%◌, ◌^◌, Bool, true, false, not, ◌&&◌, List, [], ◌∷◌, ltb, leb,
  ◌==◌, if◌then◌else◌, length, get_or, set, replicate, size_mod, M, ◌>>=◌, ◌>>◌, return, fail,
  guard, request, invalid_argument,
}

-- `word_count` is the length of `words`.
pub record Bitset : Type 0 where
  pub words : List ℕ
  pub state_count : ℕ

-- SG_BITSET_WORD_BITS
abbrev pub word_bits : ℕ
word_bits = 64

abbrev pub word_mod : ℕ
word_mod = 18446744073709551616

-- The sum is a size_t, so it wraps.
unfoldable pub word_count : ℕ → ℕ
word_count state_count = (state_count + (word_bits - 1)) % size_mod / word_bits

-- what calloc leaves
unfoldable pub empty : ℕ → Bitset
empty state_count = record {
  words = replicate (word_count state_count) 0;
  state_count = state_count;
}

unfoldable pub init : ℕ → M Bitset
init state_count = do
  guard (not (state_count == 0)) invalid_argument
  request
  return (empty state_count)

unfoldable pub clear : Bitset → Bitset
clear s = record s { words = replicate (length s.words) 0 }

-- `words[i] |= 1 << k`; a write out of bounds changes nothing, and `Laws` shows there is none.
unfoldable pub add : Bitset → ℕ → Bitset
add s state =
    let index = state / word_bits in
    record s {
      words = set s.words index (bit_or (get_or s.words index 0) (2 ^ (state % word_bits)));
    }

unfoldable pub has : Bitset → ℕ → Bool
has s state = not (bit_and (get_or s.words (state / word_bits) 0) (2 ^ (state % word_bits)) == 0)

-- The loop of sg_popcount, with fuel; `Bits.popcount-eq-ones` shows that 64 rounds are enough.
unfoldable pub popcount_loop : ℕ → ℕ → ℕ → ℕ
popcount_loop zero value count = count
popcount_loop (suc fuel) value count =
    let rest = popcount_loop fuel (bit_and value (value - 1)) (count + 1) in
    if value == 0 then count else rest

unfoldable pub popcount : ℕ → ℕ
unfolding popcount_loop
popcount value = popcount_loop word_bits value 0

-- sg_bitset_count
unfoldable pub count_words : List ℕ → ℕ
count_words [] = 0
count_words (w ∷ ws) = popcount w + count_words ws

unfoldable pub count : Bitset → ℕ
unfolding count_words popcount
count s = count_words s.words

-- memcmp on whole words
unfoldable pub words_equal : List ℕ → List ℕ → Bool
words_equal [] [] = true
words_equal [] (_ ∷ _) = false
words_equal (_ ∷ _) [] = false
words_equal (v ∷ vs) (w ∷ ws) = v == w && words_equal vs ws

unfoldable pub equal : Bitset → Bitset → Bool
unfolding words_equal
equal first second =
    first.state_count == second.state_count
    && length first.words == length second.words
    && words_equal first.words second.words

-- `(first & ~second) != 0` in some word
unfoldable pub words_subset : List ℕ → List ℕ → Bool
words_subset [] ws = true
words_subset (v ∷ vs) [] = false
words_subset (v ∷ vs) (w ∷ ws) = bit_and v (word_mod - 1 - w) == 0 && words_subset vs ws

unfoldable pub subset : Bitset → Bitset → Bool
unfolding words_subset
subset first second =
    first.state_count == second.state_count
    && length first.words == length second.words
    && words_subset first.words second.words

-- sg_bitset_copy
unfoldable pub copy : Bitset → M Bitset
copy source = do
  destination ← init source.state_count
  return (record destination { words = source.words })

unfoldable pub add_ids : ℕ → List ℕ → Bitset → M Bitset
add_ids state_count [] s = return s
add_ids state_count (x ∷ xs) s = do
  guard (ltb x state_count) invalid_argument
  add_ids state_count xs (add s x)

-- sg_bitset_from_ids
unfoldable pub from_ids : ℕ → List ℕ → M Bitset
from_ids state_count states = do
  guard (not (length states == 0)) invalid_argument
  s ← init state_count
  add_ids state_count states s

-- the loop of sg_bitset_to_ids: `left` states are to be looked at, from `state` on
unfoldable pub ids_from : Bitset → ℕ → ℕ → List ℕ
ids_from s zero state = []
ids_from s (suc left) state =
    if has s state then state ∷ ids_from s left (state + 1) else ids_from s left (state + 1)

unfoldable pub to_ids : Bitset → List ℕ
unfolding ids_from
to_ids s = ids_from s s.state_count 0
