-- ===== src/Common/Posts.antt =====
-- What holds of every result without an error, carried through the code that makes it.
use mathlib.Core.Bool.{Bool, true, false}
use cc_tunnel.Common.Tests.{if◌then◌else◌}
use mathlib.Core.Path.{◌≡◌, ap}
use cc_tunnel.Common.Results.{Result, ok, err, Action, unless_ok, ◌>>=◌}

module _ {ℓ κ} {S A : Type ℓ} where
  abbrev pub Holds : (A → S → Type κ) → Result A × S → Type κ
  Holds P (ok a, s) = P a s
  Holds P (err e, s) = Unit

module _ {ℓ} {S A : Type ℓ} where
  pub Holds-all : (p : Result A × S) → Holds (λ _ _. Unit {0}) p
  Holds-all (ok a, s) = tt
  Holds-all (err e, s) = tt

module _ {ℓ κ μ} {S A B : Type ℓ} (P : A → S → Type κ) (Q : B → S → Type μ) where
  pub Holds-bind :
      (m : Action S A) (f : A → Action S B) (s : S)
      → Holds P (m s)
      → ((a : A) (s' : S) → P a s' → Holds Q (f a s'))
      → Holds Q ((m >>= f) s)
  Holds-bind m f s h k = go (m s) h
    where
      go : (p : Result A × S) → Holds P p → Holds Q (((λ _. p) >>= f) s)
      go (ok a, s') q = k a s' q
      go (err e, s') q = tt

  pub Holds-unless_ok :
      (m : Action S A) (n : Action S B) (f : A → Action S B) (s : S)
      → Holds P (m s)
      → ((a : A) (s' : S) → P a s' → Holds Q (f a s'))
      → ((s' : S) → Holds Q (n s'))
      → Holds Q (unless_ok m n f s)
  Holds-unless_ok m n f s h k l = go (m s) h
    where
      go : (p : Result A × S) → Holds P p → Holds Q (unless_ok (λ _. p) n f s)
      go (ok a, s') q = k a s' q
      go (err e, s') q = l s'

module _ {ℓ κ} {S A : Type ℓ} (P : A → S → Type κ) where
  pub Holds-if :
      (b : Bool) (m n : Action S A) (s : S)
      → Holds P (m s)
      → Holds P (n s)
      → Holds P ((if b then m else n) s)
  Holds-if true m n s h k = h
  Holds-if false m n s h k = k

-- What a call that is followed by either of two continuations comes to.
module _ {ℓ} {S A B : Type ℓ} (m : Action S A) (n : Action S B) (f : A → Action S B) (s v : S) where
  pub unless_ok-ok : (a : A) → m s ≡ (ok a, v) → unless_ok m n f s ≡ f a v
  unless_ok-ok a h = ap (λ p. unless_ok (λ _. p) n f s) h
