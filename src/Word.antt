-- ===== src/Word.antt =====
-- src/sync.c, sg_word: a sequence of action ids in an array that grows by doubling.
pub mod Reverse
use sync_kgraph.Base.{
  zero, suc, set, get_or, ltb, not, ◌&&◌, ℕ, ◌+◌, ◌-◌, ◌*◌, ◌%◌, ◌≤◌, ◌≡◌, refl, List, [], ◌∷◌,
  ◌++◌, arith, leb, ◌==◌, if◌then◌else◌, length, length-append, index_none, size_mod, M, ◌>>=◌,
  ◌>>◌, return, guard, request, alloc, Status, size_bytes, Ensures, Ensures-return, Ensures-bind,
  Ensures-guard, Ensures-request, Ensures-if, Ensures-size_bytes, Ensures-mono, ap, true, ◌<◌,
  false,
}

-- `length` is the length of `actions`; the slots from there up to `capacity` are unwritten.
pub record Word : Type 0 where
  pub actions : List ℕ
  pub capacity : ℕ

-- sg_word_init, and what sg_word_free leaves
abbrev pub empty_word : Word
empty_word = record { actions = []; capacity = 0 }

unfoldable pub reserve : Word → ℕ → M Word
reserve word capacity =
    if leb capacity word.capacity
    then return word
    else (do bytes ← size_bytes capacity 8; request; return (record word { capacity = capacity }))

-- the branch of sg_word_append that makes room
unfoldable pub make_room : Word → M Word
unfolding reserve
make_room word =
    if length word.actions == word.capacity
    then (do
      let capacity = if word.capacity == 0 then 8 else (word.capacity * 2) % size_mod
      guard (leb word.capacity capacity) alloc
      reserve word capacity)
    else return word

unfoldable pub append : Word → ℕ → M Word
unfolding make_room
append word action = do
  w ← make_room word
  return (record w { actions = w.actions ++ (action ∷ []) })

unfoldable pub extend : Word → Word → M Word
unfolding reserve
extend destination source = do
  guard (leb (length source.actions) (index_none - length destination.actions)) alloc
  w ← reserve destination (length destination.actions + length source.actions)
  return (record w { actions = destination.actions ++ source.actions })

-- The swap loop at the end of the reconstructions. `rounds` bounds it: `Reverse` shows that it ends
-- by its own test within as many rounds as there are actions.
unfoldable pub swap_loop : ℕ → List ℕ → ℕ → ℕ → List ℕ
swap_loop zero actions first second = actions
swap_loop (suc rounds) actions first second =
    let second' = second - 1 in
    let swapped =
      set (set actions first (get_or actions second' 0)) second' (get_or actions first 0) in
    let rest = swap_loop rounds swapped (first + 1) second' in
    if ltb first second && not (second == 0) then rest else actions

unfoldable pub reverse_actions : Word → Word
unfolding swap_loop
reverse_actions word = record word {
  actions = swap_loop (length word.actions) word.actions 0 (length word.actions);
}

-- The actions fit the array, whose capacity is a size_t.
abbrev pub Fits : Word → Type 0
Fits w = (length w.actions ≤ w.capacity) × (w.capacity < size_mod)

module _ {E : Status → Type 0} where
  Ensures-reserve :
      (w : Word) (capacity : ℕ)
      → (size_mod ≤ capacity * 8 → E alloc)
      → w.capacity < size_mod
      → capacity < size_mod
      → Ensures
          (reserve w capacity)
          (λ t. (t.actions ≡ w.actions) × (capacity ≤ t.capacity) × (t.capacity < size_mod))
          E
  unfolding reserve
  Ensures-reserve w capacity allow small fits =
      Ensures-if (leb capacity w.capacity) (λ b. Ensures-return w (refl, ground arith, small))
        (λ b.
          Ensures-bind (Ensures-size_bytes capacity 8 allow)
            λ _ _. Ensures-bind Ensures-request λ _ _. Ensures-return _ (refl, omega arith, fits))

  Ensures-make_room :
      (w : Word)
      → (size_mod ≤ 16 * length w.actions → E alloc)
      → Fits w
      → Ensures
          (make_room w)
          (λ t.
            (t.actions ≡ w.actions) × (length w.actions + 1 ≤ t.capacity) × (t.capacity < size_mod))
          E
  unfolding make_room
  Ensures-make_room w allow fits =
      Ensures-if (length w.actions == w.capacity)
        (λ full.
          Ensures-bind
            (Ensures-guard (leb w.capacity next) alloc (λ no. allow (wraps (full_eq full) no)))
            λ _ grows.
              Ensures-mono (λ t h. (h.0, omega (arith, h.1, larger grows, full_eq full), h.2))
                (λ e z. z)
                (Ensures-reserve w next (λ large. allow (too_large (full_eq full) large)) fits.1
                  next_small))
        (λ room. Ensures-return w (refl, ground arith, fits.1))
    where
      next : ℕ
      next = if w.capacity == 0 then 8 else (w.capacity * 2) % size_mod

      next_small : next < size_mod
      next_small = ground arith

      full_eq : (length w.actions == w.capacity) ≡ true → length w.actions ≡ w.capacity
      full_eq h = ground arith

      wraps :
          length w.actions ≡ w.capacity
          → leb w.capacity next ≡ false
          → size_mod ≤ 16 * length w.actions
      wraps e h = let small = fits.1 in ground arith

      too_large :
          length w.actions ≡ w.capacity → size_mod ≤ next * 8 → size_mod ≤ 16 * length w.actions
      too_large e h = let small = fits.1 in ground arith

      larger : leb w.capacity next ≡ true → w.capacity + 1 ≤ next
      larger h = let small = fits.1 in ground arith

  -- sg_word_append adds the action behind the others; it fails only when the array would not fit.
  pub Ensures-append :
      (w : Word) (action : ℕ)
      → (size_mod ≤ 16 * length w.actions → E alloc)
      → Fits w
      → Ensures (append w action) (λ t. (t.actions ≡ w.actions ++ (action ∷ [])) × Fits t) E
  unfolding append
  Ensures-append w action allow fits = Ensures-bind (Ensures-make_room w allow fits) λ t h.
      Ensures-return _
        (rw h.0, (omega (arith, length-append t.actions (action ∷ []), ap length h.0, h.1), h.2))

  -- sg_word_extend adds the other word's actions behind; it fails only when they do not fit.
  pub Ensures-extend :
      (w source : Word)
      → (size_mod ≤ 8 * (length w.actions + length source.actions) → E alloc)
      → Fits w
      → Ensures (extend w source) (λ t. (t.actions ≡ w.actions ++ source.actions) × Fits t) E
  unfolding extend
  Ensures-extend w source allow fits =
      Ensures-bind
        (Ensures-guard (leb (length source.actions) (index_none - length w.actions)) alloc
          (λ no. allow (let f = fits.1 in let g = fits.0 in ground arith)))
        λ _ room.
          Ensures-bind
            (Ensures-reserve w _ (λ large. allow (omega arith)) fits.1
              (let f = fits.1 in let g = fits.0 in ground arith))
            λ t h.
              Ensures-return _
                (refl, (omega (arith, h, length-append w.actions source.actions), h.2))
