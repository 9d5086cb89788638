-- ===== src/Common/Results.antt =====
-- Go's (value, error) results, and code that mutates a state and may return an error.

-- The errors that callers of the modelled code tell apart.
pub data Error : Type 0 where
  no_rows constraint unavailable timeout not_found exhausted : Error

pub data Result {ℓ} (A : Type ℓ) : Type ℓ where
  ok : A → Result A
  err : Error → Result A

-- What was written before an error stays written, so the state comes back beside the error too.
abbrev pub Action {ℓ} : Type ℓ → Type ℓ → Type ℓ
Action S A = S → Result A × S

module _ {ℓ} {S A : Type ℓ} where
  abbrev pub pure : A → Action S A
  pure a s = (ok a, s)

  abbrev pub fail : Error → Action S A
  fail e s = (err e, s)

module _ {ℓ} {S A B : Type ℓ} where
  -- Go's `if err != nil { return err }` between a call and what follows.
  abbrev pub resume : (A → Action S B) → Result A × S → Result B × S
  resume f (ok a, s) = f a s
  resume f (err e, s) = (err e, s)

  -- A call whose result and error the code looks at itself.
  abbrev pub attempt : Action S A → (Result A → Action S B) → Action S B
  attempt m k s = let (r, s') = m s in k r s'

  -- Go's `_ = call()` and `if err != nil { slog.Warn(…) }`: the error is dropped.
  abbrev pub ignoring : Action S A → Action S B → Action S B
  ignoring m n = attempt m (λ _. n)

  -- Go's `if err != nil { return … }` with another result than the error.
  abbrev pub unless_ok : Action S A → Action S B → (A → Action S B) → Action S B
  unless_ok m n f s =
      let (r, s') = m s in (elim r as (λ _. Action S B) [ ok a ↦ f a | err e ↦ n ]) s'

  infixl 5 ◌>>=◌ ◌>>◌
  abbrev pub ◌>>=◌ : Action S A → (A → Action S B) → Action S B
  ◌>>=◌ m f s = resume f (m s)

  abbrev pub ◌>>◌ : Action S A → Action S B → Action S B
  ◌>>◌ m n s = resume (λ _. n) (m s)
