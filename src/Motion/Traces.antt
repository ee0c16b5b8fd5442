-- ===== src/Motion/Traces.antt =====
-- The outputs that an automaton shows under a word, and the states in which it may then be.
use sync_kgraph.Base.{ℕ, ◌≡◌, refl, ap, List, [], ◌∷◌, ◌++◌, arith, length}
use sync_kgraph.Automaton.{Automaton, transition, observation}
use sync_kgraph.Motion.Image.{run}

-- from `q` the actions show the outputs and end in `r`
abbrev pub Shows : Automaton → ℕ → List ℕ → List ℕ → ℕ → Type 0
Shows a q [] [] r = q ≡ r
Shows a q [] (_ ∷ _) r = ⊥
Shows a q (_ ∷ _) [] r = ⊥
Shows a q (c ∷ cs) (o ∷ os) r = (observation a q c ≡ o) × Shows a (transition a q c) cs os r

-- some starting state shows the outputs under the actions and ends in `r`
abbrev pub After : Automaton → (ℕ → Type 0) → List ℕ → List ℕ → ℕ → Type 0
After a Start cs os r = (q : ℕ) × Start q × Shows a q cs os r

-- the outputs have as many steps as the word
pub Shows-length :
    (a : Automaton) (q : ℕ) (cs os : List ℕ) (r : ℕ) → Shows a q cs os r → length os ≡ length cs
Shows-length a q [] [] r s = refl
Shows-length a q [] (o ∷ os) r s = absurd s
Shows-length a q (c ∷ cs) [] r s = absurd s
Shows-length a q (c ∷ cs) (o ∷ os) r s =
    omega (arith, Shows-length a (transition a q c) cs os r s.1)

-- the end is the state that the word leads to
pub Shows-run :
    (a : Automaton) (q : ℕ) (cs os : List ℕ) (r : ℕ) → Shows a q cs os r → run a q cs ≡ r
Shows-run a q [] [] r s = s
Shows-run a q [] (o ∷ os) r s = absurd s
Shows-run a q (c ∷ cs) [] r s = absurd s
Shows-run a q (c ∷ cs) (o ∷ os) r s = Shows-run a (transition a q c) cs os r s.1

-- one step more at the end
pub Shows-last :
    (a : Automaton) (q : ℕ) (cs os : List ℕ) (r c : ℕ)
    → Shows a q cs os r
    → Shows a q (cs ++ (c ∷ [])) (os ++ (observation a r c ∷ [])) (transition a r c)
Shows-last a q [] [] r c s = rw s (refl, refl)
Shows-last a q [] (o ∷ os) r c s = absurd s
Shows-last a q (d ∷ cs) [] r c s = absurd s
Shows-last a q (d ∷ cs) (o ∷ os) r c s = (s.0, Shows-last a (transition a q d) cs os r c s.1)

-- what comes before the last step
pub Shows-init :
    (a : Automaton) (q : ℕ) (cs os : List ℕ) (t c o : ℕ)
    → Shows a q (cs ++ (c ∷ [])) (os ++ (o ∷ [])) t
    → (r : ℕ) × Shows a q cs os r × (observation a r c ≡ o) × (transition a r c ≡ t)
Shows-init a q [] [] t c o s = (q, refl, s.0, s.1)
Shows-init a q [] (p ∷ []) t c o s = absurd s.1
Shows-init a q [] (p ∷ y ∷ os) t c o s = absurd s.1
Shows-init a q (d ∷ []) [] t c o s = absurd s.1
Shows-init a q (d ∷ y ∷ cs) [] t c o s = absurd s.1
Shows-init a q (d ∷ cs) (p ∷ os) t c o s =
    let (r, rest, e, f) = Shows-init a (transition a q d) cs os t c o s.1 in (r, (s.0, rest), e, f)

-- λ(q, w): the outputs from a state
abbrev pub outputs : Automaton → ℕ → List ℕ → List ℕ
outputs a q [] = []
outputs a q (c ∷ w) = observation a q c ∷ outputs a (transition a q c) w

pub Shows-outputs : (a : Automaton) (q : ℕ) (w : List ℕ) → Shows a q w (outputs a q w) (run a q w)
Shows-outputs a q [] = refl
Shows-outputs a q (c ∷ w) = (refl, Shows-outputs a (transition a q c) w)

pub outputs-Shows :
    (a : Automaton) (q : ℕ) (w os : List ℕ) (r : ℕ) → Shows a q w os r → outputs a q w ≡ os
outputs-Shows a q [] [] r s = refl
outputs-Shows a q [] (o ∷ os) r s = absurd s
outputs-Shows a q (c ∷ w) [] r s = absurd s
outputs-Shows a q (c ∷ w) (o ∷ os) r s =
    let e = outputs-Shows a (transition a q c) w os r s.1 in let f = s.0 in cc

pub outputs-append :
    (a : Automaton) (q : ℕ) (w : List ℕ) (c : ℕ)
    → outputs a q (w ++ (c ∷ [])) ≡ outputs a q w ++ (observation a (run a q w) c ∷ [])
outputs-append a q [] c = refl
outputs-append a q (d ∷ w) c =
    ap (λ (os : List ℕ). observation a q d ∷ os) (outputs-append a (transition a q d) w c)
