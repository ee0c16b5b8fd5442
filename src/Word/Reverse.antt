-- ===== src/Word/Reverse.antt =====
-- The in-place swap loop of the reconstructions reverses the actions.
use mathlib.Core.List.{reverse-append}
use sync_kgraph.Base.{
  ℕ, zero, suc, ◌+◌, ◌-◌, ◌≤◌, ◌<◌, ◌≡◌, ◌∙◌, refl, sym, ap, inl, inr, true, not, ◌&&◌, List, [],
  ◌∷◌, ◌++◌, reverse, arith, ltb, leb, ◌==◌, if◌then◌else◌, Bool-cases, length, length-set,
  length-append, get_or, set, get_or-set_self, get_or-set_ne, get_or-append_left,
  get_or-append_last,
}
use sync_kgraph.Word.{Word, swap_loop, reverse_actions}

-- the two writes of one round
abbrev swapped : List ℕ → ℕ → ℕ → List ℕ
swapped xs i j = set (set xs i (get_or xs j 0)) j (get_or xs i 0)

length-swapped : (xs : List ℕ) (i j : ℕ) → length (swapped xs i j) ≡ length xs
length-swapped xs i j =
    length-set (set xs i (get_or xs j 0)) j (get_or xs i 0) ∙ length-set xs i (get_or xs j 0)

get_or-swapped :
    (xs : List ℕ) (i j k : ℕ)
    → i < length xs
    → j < length xs
    → get_or (swapped xs i j) k 0
      ≡ (if k == j then get_or xs i 0 else if k == i then get_or xs j 0 else get_or xs k 0)
get_or-swapped xs i j k hi hj = elim (Bool-cases (k == j)) [
  | inl at_j ↦
      let e : k ≡ j = ground arith in
      rw (at_j, e)
        (get_or-set_self (set xs i (get_or xs j 0)) j (get_or xs i 0) 0
          (omega (arith, length-set xs i (get_or xs j 0))))
  | inr off_j ↦
      rw (off_j, get_or-set_ne (set xs i (get_or xs j 0)) j k (get_or xs i 0) 0 (ground arith))
        (elim (Bool-cases (k == i)) [
          | inl at_i ↦
              let e : k ≡ i = ground arith in
              rw (at_i, e) (get_or-set_self xs i (get_or xs j 0) 0 hi)
          | inr off_i ↦ rw off_i (get_or-set_ne xs i k (get_or xs j 0) 0 (ground arith))
        ])
]

length-swap_loop : (r : ℕ) (xs : List ℕ) (f s : ℕ) → length (swap_loop r xs f s) ≡ length xs
unfolding swap_loop
length-swap_loop zero xs f s = refl
length-swap_loop (suc r) xs f s = elim (Bool-cases (ltb f s && not (s == 0))) [
  | inl more ↦
      rw more
        (length-swap_loop r (swapped xs f (s - 1)) (f + 1) (s - 1) ∙ length-swapped xs f (s - 1))
  | inr done ↦ rw done
]

-- the positions from `f` up to `s` change places end for end
get_or-swap_loop :
    (r : ℕ) (xs : List ℕ) (f s i : ℕ)
    → s ≤ length xs
    → s ≤ f + r + r
    → get_or (swap_loop r xs f s) i 0
      ≡ (if leb f i && ltb i s then get_or xs (f + s - 1 - i) 0 else get_or xs i 0)
unfolding swap_loop
get_or-swap_loop zero xs f s i h m = ground arith
get_or-swap_loop (suc r) xs f s i h m = elim (Bool-cases (ltb f s && not (s == 0))) [
  | inl more ↦
      let ih =
        get_or-swap_loop r (swapped xs f (s - 1)) (f + 1) (s - 1) i
          (ground (arith, length-swapped xs f (s - 1))) (ground arith) in
      rw more (ih ∙ step more)
  | inr done ↦ rw done (ground arith)
]
  where
    step :
        (ltb f s && not (s == 0)) ≡ true
        → (if leb (f + 1) i && ltb i (s - 1)
            then get_or (swapped xs f (s - 1)) (f + 1 + (s - 1) - 1 - i) 0
            else get_or (swapped xs f (s - 1)) i 0)
          ≡ (if leb f i && ltb i s then get_or xs (f + s - 1 - i) 0 else get_or xs i 0)
    step more =
        let e : f + 1 + (s - 1) - 1 - i ≡ f + s - 1 - i = ground arith in
        let a = get_or-swapped xs f (s - 1) i (ground arith) (ground arith) in
        let b = get_or-swapped xs f (s - 1) (f + s - 1 - i) (ground arith) (ground arith) in
        rw e (ground (arith, a, b))

list_ext :
    (xs ys : List ℕ)
    → length xs ≡ length ys
    → ((i : ℕ) → i < length xs → get_or xs i 0 ≡ get_or ys i 0)
    → xs ≡ ys
list_ext [] [] l h = refl
list_ext [] (y ∷ ys) l h = absurd (omega arith)
list_ext (x ∷ xs) [] l h = absurd (omega arith)
list_ext (x ∷ xs) (y ∷ ys) l h =
    let e = h 0 (omega arith) in
    let es = list_ext xs ys (omega arith) (λ i p. h (suc i) (omega arith)) in cc

reverse-cons : (x : ℕ) (xs : List ℕ) → reverse (x ∷ xs) ≡ reverse xs ++ (x ∷ [])
reverse-cons x xs = reverse-append (x ∷ []) xs

pub length-reverse : (xs : List ℕ) → length (reverse xs) ≡ length xs
length-reverse [] = refl
length-reverse (x ∷ xs) =
    omega
      (arith, ap length (reverse-cons x xs), length-append (reverse xs) (x ∷ []), length-reverse xs)

get_or-reverse :
    (xs : List ℕ) (i : ℕ)
    → i < length xs
    → get_or (reverse xs) i 0 ≡ get_or xs (length xs - 1 - i) 0
get_or-reverse [] i h = absurd (omega arith)
get_or-reverse (x ∷ xs) i h = elim (Bool-cases (ltb i (length xs))) [
  | inl inside ↦
      let e : length (x ∷ xs) - 1 - i ≡ suc (length xs - 1 - i) = ground arith in
      ap (λ (l : List ℕ). get_or l i 0) (reverse-cons x xs)
      ∙ get_or-append_left (reverse xs) (x ∷ []) i 0 (ground (arith, length-reverse xs))
      ∙ get_or-reverse xs i (ground arith)
      ∙ sym (ap (λ (k : ℕ). get_or (x ∷ xs) k 0) e)
  | inr last ↦
      let e : i ≡ length (reverse xs) = ground (arith, length-reverse xs) in
      let e' : length (x ∷ xs) - 1 - i ≡ 0 = ground (arith, length-reverse xs) in
      ap (λ (l : List ℕ). get_or l i 0) (reverse-cons x xs)
      ∙ ap (λ (k : ℕ). get_or (reverse xs ++ (x ∷ [])) k 0) e
      ∙ get_or-append_last (reverse xs) x 0
      ∙ sym (ap (λ (k : ℕ). get_or (x ∷ xs) k 0) e')
]

-- The loop reverses the word, whatever its length.
pub reverse_actions-eq-reverse :
    (w : Word) → reverse_actions w ≡ record w { actions = reverse w.actions }
unfolding reverse_actions
reverse_actions-eq-reverse w =
    let e =
      list_ext (swap_loop (length w.actions) w.actions 0 (length w.actions)) (reverse w.actions)
        (length-swap_loop (length w.actions) w.actions 0 (length w.actions)
          ∙ sym (length-reverse w.actions))
        (λ i h.
          get_or-swap_loop (length w.actions) w.actions 0 (length w.actions) i (omega arith)
            (omega arith)
          ∙ (let l = length-swap_loop (length w.actions) w.actions 0 (length w.actions) in
              ground (arith, get_or-reverse w.actions i))) in
    ap (λ (xs : List ℕ). record w { actions = xs }) e
