-- ===== src/Base/Monad.antt =====
-- include/sync_kgraph/sync.h, the status codes, and how a call ends. A call that allocates reads the
-- allocator's answers from `Memory`: `malloc`, `calloc` and `realloc` may refuse at any time.
use mathlib.Core.Path.{◌≡◌, refl}
use mathlib.Core.Bool.{Bool, true, false, ◌&&◌}
use Prim.Native.Nat.{ℕ, zero, suc}
use mathlib.Core.List.{List, [], ◌∷◌}
use sync_kgraph.Base.Tests.{if◌then◌else◌}

-- sg_status, without SG_OK
pub data Status : Type 0 where
  alloc : Status
  invalid_argument : Status
  duplicate : Status
  not_found : Status
  incomplete : Status
  nondeterministic : Status
  invalid_model : Status
  resource_bound : Status
  stale_generation : Status

-- SG_OK with what the call stores through its out parameters, or another status. `diverge` is the
-- model's own: a `while` loop that used up the fuel that it was given, or a write past the end of a
-- block, after which the code has no defined behaviour.
pub data Result (A : Type 0) : Type 0 where
  ok : A → Result A
  err : Status → Result A
  diverge : Result A

-- The answers to the coming requests, in order; when none is left the allocator grants them all.
abbrev pub Memory : Type 0
Memory = List Bool

abbrev pub M : Type 0 → Type 0
M A = Memory → Result A × Memory

module _ {A B : Type 0} where
  abbrev pub bind_result : Result A × Memory → (A → M B) → Result B × Memory
  bind_result (ok a, h) f = f a h
  bind_result (err e, h) f = (err e, h)
  bind_result (diverge, h) f = (diverge, h)

infixl 5 ◌>>=◌ ◌>>◌
unfoldable pub ◌>>=◌ : {A B : Type 0} → M A → (A → M B) → M B
◌>>=◌ m f h = bind_result (m h) f

abbrev pub ◌>>◌ : {B : Type 0} → M (Unit {0}) → M B → M B
m >> k = m >>= λ _. k

unfoldable pub return : {A : Type 0} → A → M A
return a h = (ok a, h)

unfoldable pub fail : {A : Type 0} → Status → M A
fail e h = (err e, h)

unfoldable pub stuck : {A : Type 0} → M A
stuck h = (diverge, h)

unfoldable pub guard : Bool → Status → M (Unit {0})
unfolding return fail
guard true e = return tt
guard false e = fail e

-- one call of malloc, calloc or realloc, and the NULL test behind it
unfoldable pub request : M (Unit {0})
request [] = (ok tt, [])
request (true ∷ h) = (ok tt, h)
request (false ∷ h) = (err alloc, h)

-- the answers to `n` requests: whether all were granted
unfoldable pub answers : ℕ → Memory → Bool × Memory
answers zero h = (true, h)
answers (suc n) [] = (true, [])
answers (suc n) (b ∷ h) = let (rest, h') = answers n h in (b && rest, h')

-- `n` allocations with the NULL tests behind the last one
unfoldable pub request_all : ℕ → M (Unit {0})
unfolding answers
request_all n h = if (answers n h).0 then (ok tt, (answers n h).1) else (err alloc, (answers n h).1)

-- a write that stays within its block when the test holds
unfoldable pub within_block : Bool → M (Unit {0})
unfolding return stuck
within_block true = return tt
within_block false = stuck

-- what a test by evaluation opens
unfoldable pub runs : Unit {0}
unfolding ◌>>=◌ return fail stuck guard within_block request request_all answers
runs = tt

-- some request is refused
abbrev pub Refuses : Memory → Type 0
Refuses [] = ⊥
Refuses (true ∷ h) = Refuses h
Refuses (false ∷ h) = Unit

-- A call ends well with `P`, or with a status in `E`, or with SG_ERR_ALLOC when the allocator refused
-- a request; it does not run forever.
pub data Post {A : Type 0} (P : A → Type 0) (E : Status → Type 0) (h : Memory)
    : Result A × Memory → Type 0 where
  good : {a : A} {h' : Memory} → P a → (Refuses h' → Refuses h) → Post P E h (ok a, h')
  bad : {e : Status} {h' : Memory} → E e → (Refuses h' → Refuses h) → Post P E h (err e, h')
  refused : {h' : Memory} → Refuses h → Post P E h (err alloc, h')

pub record Ensures {A : Type 0} (m : M A) (P : A → Type 0) (E : Status → Type 0) : Type 0 where
  pub run : (h : Memory) → Post P E h (m h)

-- the errors of a call that fails only when the allocator refuses
abbrev pub Never : Status → Type 0
Never e = ⊥

module _ {A : Type 0} {P : A → Type 0} {E : Status → Type 0} where
  pub Ensures-return : (a : A) → P a → Ensures (return a) P E
  unfolding return
  Ensures-return a p = record { run = λ h. good p (λ r. r) }

  pub Ensures-fail : (e : Status) → E e → Ensures {A = A} (fail e) P E
  unfolding fail
  Ensures-fail e p = record { run = λ h. bad p (λ r. r) }

  pub Post-mono :
      {Q : A → Type 0} {F : Status → Type 0} {h : Memory}
      → ((a : A) → P a → Q a)
      → ((e : Status) → E e → F e)
      → {r : Result A × Memory} → Post P E h r
      → Post Q F h r
  Post-mono f g (good p k) = good (f _ p) k
  Post-mono f g (bad p k) = bad (g _ p) k
  Post-mono f g (refused r) = refused r

  pub Ensures-mono :
      {Q : A → Type 0} {F : Status → Type 0} {m : M A}
      → ((a : A) → P a → Q a)
      → ((e : Status) → E e → F e)
      → Ensures m P E
      → Ensures m Q F
  Ensures-mono f g s = record { run = λ h. Post-mono f g (s.run h) }

-- What two theorems say of how a call fails holds together.
Post-both :
    {A : Type 0} {P : A → Type 0} {Q : A → Type 0} {E F : Status → Type 0} (h : Memory)
    (r : Result A × Memory)
    → Post P E h r
    → Post Q F h r
    → Post P (λ e. E e × F e) h r
Post-both h (ok a, h') (good p k) s = good p k
Post-both h (err e, h') (bad p k) (bad q j) = bad (p, q) k
Post-both h (err e, h') (bad p k) (refused x) = refused x
Post-both h (err e, h') (refused x) s = refused x
Post-both h (diverge, h') p s = elim p [ ]

pub Ensures-both :
    {A : Type 0} {P : A → Type 0} {Q : A → Type 0} {E F : Status → Type 0} {m : M A}
    → Ensures m P E
    → Ensures m Q F
    → Ensures m P (λ e. E e × F e)
Ensures-both {m = m} s t = record { run = λ h. Post-both h (m h) (s.run h) (t.run h) }

-- what is refused later is refused
Post-later :
    {B : Type 0} {Q : B → Type 0} {E : Status → Type 0} {r : Result B × Memory} (h h' : Memory)
    → (Refuses h' → Refuses h)
    → Post Q E h' r
    → Post Q E h r
Post-later h h' f (good q k) = good q (λ r. f (k r))
Post-later h h' f (bad e k) = bad e (λ r. f (k r))
Post-later h h' f (refused r) = refused (f r)

module _ {A B : Type 0} {P : A → Type 0} {Q : B → Type 0} {E : Status → Type 0} (h : Memory) where
  Post-bind_result :
      {r : Result A × Memory} (f : A → M B)
      → Post P E h r
      → ((a : A) → P a → Ensures (f a) Q E)
      → Post Q E h (bind_result r f)
  Post-bind_result f (good {a} {h'} p k) c = Post-later h h' k ((c a p).run h')
  Post-bind_result f (bad e k) c = bad e k
  Post-bind_result f (refused r) c = refused r

module _ {A B : Type 0} {P : A → Type 0} {Q : B → Type 0} {E : Status → Type 0} where
  pub Ensures-bind :
      {m : M A} {f : A → M B}
      → Ensures m P E
      → ((a : A) → P a → Ensures (f a) Q E)
      → Ensures (m >>= f) Q E
  unfolding ◌>>=◌
  Ensures-bind {m} {f} s k = record { run = λ h. Post-bind_result h f (s.run h) k }

-- A guard lets pass what its test holds of.
pub Ensures-guard :
    {E : Status → Type 0} (b : Bool) (e : Status)
    → (b ≡ false → E e)
    → Ensures (guard b e) (λ _. b ≡ true) E
unfolding guard return fail
Ensures-guard true e f = record { run = λ h. good refl (λ r. r) }
Ensures-guard false e f = record { run = λ h. bad (f refl) (λ r. r) }

pub Ensures-within_block :
    {E : Status → Type 0} (b : Bool) → b ≡ true → Ensures (within_block b) (λ _. Unit {0}) E
unfolding within_block return
Ensures-within_block true e = record { run = λ h. good tt (λ r. r) }
Ensures-within_block false e = absurd (cc)

answers-Refuses :
    (n : ℕ) (h : Memory)
    → ((answers n h).0 ≡ false → Refuses h) × (Refuses (answers n h).1 → Refuses h)
unfolding answers
answers-Refuses zero h = ((λ e. cc), (λ r. r))
answers-Refuses (suc n) [] = ((λ e. cc), (λ r. r))
answers-Refuses (suc n) (true ∷ h) = answers-Refuses n h
answers-Refuses (suc n) (false ∷ h) = ((λ _. tt), (λ _. tt))

module _ {E : Status → Type 0} where
  request_post : (h : Memory) → Post (λ _. Unit {0}) E h (request h)
  unfolding request
  request_post [] = good tt (λ r. r)
  request_post (true ∷ h) = good tt (λ r. r)
  request_post (false ∷ h) = refused tt

  pub Ensures-request : Ensures request (λ _. Unit {0}) E
  Ensures-request = record { run = request_post }

  -- one test behind several requests
  pub Ensures-request_all : (n : ℕ) → Ensures (request_all n) (λ _. Unit {0}) E
  unfolding request_all
  Ensures-request_all n = record {
    run = λ h.
        let (denied, later) = answers-Refuses n h in
        settle_post (answers n h).0 (answers n h).1 h denied later;
  }
    where
      settle_post :
          (b : Bool) (h' h : Memory)
          → (b ≡ false → Refuses h)
          → (Refuses h' → Refuses h)
          → Post {A = Unit {0}} (λ _. Unit {0}) E h (if b then (ok tt, h') else (err alloc, h'))
      settle_post true h' h denied later = good tt later
      settle_post false h' h denied later = refused (denied refl)

pub Ensures-if :
    {A : Type 0} {P : A → Type 0} {E : Status → Type 0} {m n : M A} (b : Bool)
    → (b ≡ true → Ensures m P E)
    → (b ≡ false → Ensures n P E)
    → Ensures (if b then m else n) P E
Ensures-if true f g = f refl
Ensures-if false f g = g refl
