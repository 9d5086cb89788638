-- ===== src/Common/Keeping.antt =====
-- What every run keeps of the state, carried through the code that writes it.
use mathlib.Core.Bool.{Bool, true, false}
use cc_tunnel.Common.Tests.{if◌then◌else◌}
use mathlib.Core.Path.{◌≡◌, refl}
use cc_tunnel.Common.Posts.{Holds}
use cc_tunnel.Common.Results.{Result, ok, err, Action, unless_ok, ◌>>=◌}

module _ {ℓ κ} {S : Type ℓ} (I : S → Type κ) where
  abbrev pub Keeps : {A : Type ℓ} → Action S A → Type (ℓ ⊔ κ)
  Keeps m = (s : S) → I s → I (m s).1

  module _ {A : Type ℓ} where
    pub Keeps-if : (b : Bool) (m n : Action S A) → Keeps m → Keeps n → Keeps (if b then m else n)
    Keeps-if true m n h k = h
    Keeps-if false m n h k = k

    pub Keeps-elim :
        (b : Bool) (m n : Action S A)
        → Keeps m
        → Keeps n
        → (s : S) → I s
        → I ((elim b as (λ _. Action S A) [ true ↦ m | false ↦ n ]) s).1
    Keeps-elim true m n h k = h
    Keeps-elim false m n h k = k

  module _ {A B : Type ℓ} where
    pub Keeps-bind :
        (m : Action S A) (f : A → Action S B) → Keeps m → ((a : A) → Keeps (f a)) → Keeps (m >>= f)
    Keeps-bind m f h k s i = go (m s) (h s i)
      where
        go : (p : Result A × S) → I p.1 → I (((λ _. p) >>= f) s).1
        go (ok a, s') j = k a s' j
        go (err e, s') j = j

    pub Keeps-unless_ok :
        (m : Action S A) (n : Action S B) (f : A → Action S B)
        → Keeps m
        → Keeps n
        → ((a : A) → Keeps (f a))
        → Keeps (unless_ok m n f)
    Keeps-unless_ok m n f h l k s i = go (m s) (h s i)
      where
        go : (p : Result A × S) → I p.1 → I (unless_ok (λ _. p) n f s).1
        go (ok a, s') j = k a s' j
        go (err e, s') j = l s' j

-- What holds of the state after a result, and what after an error.
module _ {ℓ κ} {S A : Type ℓ} where
  abbrev pub Ends : (A → S → Type κ) → (S → Type κ) → Result A × S → Type κ
  Ends P Q (ok a, s) = P a s
  Ends P Q (err e, s) = Q s

  pub Keeps-Ends : (I : S → Type κ) (p : Result A × S) → I p.1 → Ends (λ _. I) I p
  Keeps-Ends I (ok a, s) h = h
  Keeps-Ends I (err e, s) h = h

  pub Ends-either : (I : S → Type κ) (p : Result A × S) → Ends (λ _. I) I p → I p.1
  Ends-either I (ok a, s) h = h
  Ends-either I (err e, s) h = h

  pub Ends-with :
      (P : A → S → Type κ) (Q J : S → Type κ) (p : Result A × S)
      → Ends P Q p
      → J p.1
      → Ends (λ a s. P a s × J s) (λ s. Q s × J s) p
  Ends-with P Q J (ok a, s) h j = (h, j)
  Ends-with P Q J (err e, s) h j = (h, j)

  pub Ends-weaken :
      {P P' : A → S → Type κ} {Q Q' : S → Type κ}
      → ((a : A) (s : S) → P a s → P' a s)
      → ((s : S) → Q s → Q' s)
      → (p : Result A × S) → Ends P Q p
      → Ends P' Q' p
  Ends-weaken f g (ok a, s) h = f a s h
  Ends-weaken f g (err e, s) h = g s h

  pub Holds-result :
      (P : A → S → Type κ) (p : Result A × S) → ((a : A) → p.0 ≡ ok a → P a p.1) → Holds P p
  Holds-result P (ok a, s) h = h a refl
  Holds-result P (err e, s) h = tt

  -- What is kept, and what a result brings.
  pub Ends-result :
      (I : S → Type κ) (P : A → S → Type κ) (p : Result A × S)
      → I p.1
      → Holds P p
      → Ends (λ a s. I s × P a s) I p
  Ends-result I P (ok a, s) h k = (h, k)
  Ends-result I P (err e, s) h k = h

  pub Ends-if :
      (P : A → S → Type κ) (Q : S → Type κ) (b : Bool) (m n : Action S A) (s : S)
      → Ends P Q (m s)
      → Ends P Q (n s)
      → Ends P Q ((if b then m else n) s)
  Ends-if P Q true m n s h k = h
  Ends-if P Q false m n s h k = k

module _ {ℓ κ} {S A B : Type ℓ} (P : A → S → Type κ) (Q : S → Type κ) (R : B → S → Type κ) where
  pub Ends-bind :
      (m : Action S A) (f : A → Action S B) (s : S)
      → Ends P Q (m s)
      → ((a : A) (s' : S) → P a s' → Ends R Q (f a s'))
      → Ends R Q ((m >>= f) s)
  Ends-bind m f s h k = go (m s) h
    where
      go : (p : Result A × S) → Ends P Q p → Ends R Q (((λ _. p) >>= f) s)
      go (ok a, s') q = k a s' q
      go (err e, s') q = q

  pub Ends-unless_ok :
      (m : Action S A) (n : Action S B) (f : A → Action S B) (s : S)
      → Ends P Q (m s)
      → ((a : A) (s' : S) → P a s' → Ends R Q (f a s'))
      → ((s' : S) → Q s' → Ends R Q (n s'))
      → Ends R Q (unless_ok m n f s)
  Ends-unless_ok m n f s h k l = go (m s) h
    where
      go : (p : Result A × S) → Ends P Q p → Ends R Q (unless_ok (λ _. p) n f s)
      go (ok a, s') q = k a s' q
      go (err e, s') q = l s' q
