-- ===== src/Common/Tables.antt =====
-- Laws of the selections and updates of tables, for tests that read a row's key.
use mathlib.Core.Path.{◌≡◌, refl}
use mathlib.Core.Logic.{◌⊎◌, inl, inr}
use mathlib.Core.List.{Memᴰ}
use mathlib.Core.List.Memᴰ.{not-nil, cases_cons}
use mathlib.Core.Bool.{Bool, true, false, ◌||◌, not}
use mathlib.Core.List.{List, [], ◌∷◌, ◌++◌}
use mathlib.Core.Option
use mathlib.Core.Option.{Option, none, some}
use native.Mathlib.Omega.{arith}
use cc_tunnel.Common.Tests.{Bool-cases}
use cc_tunnel.Common.Lists.{select, update_where, find_first, any, All, Text, same_text}

module _ {ℓ} {A : Type ℓ} where
  pub any-append : (p : A → Bool) (xs ys : List A) → any p (xs ++ ys) ≡ (any p xs || any p ys)
  any-append p [] ys = refl
  any-append p (x ∷ xs) ys = ground (arith, any-append p xs ys)

  pub any-select : (p q : A → Bool) (xs : List A) → any p xs ≡ false → any p (select q xs) ≡ false
  any-select p q [] h = refl
  any-select p q (x ∷ xs) h = ground (arith, any-select p q xs)

  -- A row that fails no selection test is still found.
  pub any-select_kept :
      (p q : A → Bool)
      → ((a : A) → p a ≡ true → q a ≡ true)
      → (xs : List A) → any p (select q xs) ≡ any p xs
  any-select_kept p q keep [] = refl
  any-select_kept p q keep (x ∷ xs) = ground (arith, keep x, any-select_kept p q keep xs)

  -- An update that leaves the tested key alone does not show.
  pub any-update_where :
      (p q : A → Bool) (f : A → A)
      → ((a : A) → p (f a) ≡ p a)
      → (xs : List A) → any p (update_where q f xs) ≡ any p xs
  any-update_where p q f same [] = refl
  any-update_where p q f same (x ∷ xs) = ground (arith, same x, any-update_where p q f same xs)

  pub All-update_where {κ} :
      (P : A → Type κ) (q : A → Bool) (f : A → A)
      → ((a : A) → P a → P (f a))
      → (xs : List A) → All P xs
      → All P (update_where q f xs)
  All-update_where P q f keep [] h = tt
  All-update_where P q f keep (x ∷ xs) h = elim (Bool-cases (q x)) [
    | inl e ↦ rw e (keep x h.0, All-update_where P q f keep xs h.1)
    | inr e ↦ rw e (h.0, All-update_where P q f keep xs h.1)
  ]

  -- A search that succeeds gives a row that passes.
  pub find_first-holds :
      (p : A → Bool) (xs : List A) (a : A) → find_first p xs ≡ some a → p a ≡ true
  find_first-holds p [] a h = cc
  find_first-holds p (x ∷ xs) a h = ground (arith, find_first-holds p xs a)

  pub find_first-none : (p : A → Bool) (xs : List A) → any p xs ≡ false → find_first p xs ≡ none
  find_first-none p [] h = refl
  find_first-none p (x ∷ xs) h = ground (arith, find_first-none p xs)

  -- A row that fails the removal test is found as before.
  pub find_first-select :
      (p q : A → Bool)
      → ((a : A) → p a ≡ true → q a ≡ true)
      → (xs : List A) → find_first p (select q xs) ≡ find_first p xs
  find_first-select p q keep [] = refl
  find_first-select p q keep (x ∷ xs) = ground (arith, keep x, find_first-select p q keep xs)

  -- An update of rows that the search passes over does not show.
  pub find_first-update_other :
      (p q : A → Bool) (f : A → A)
      → ((a : A) → p (f a) ≡ p a)
      → ((a : A) → p a ≡ true → q a ≡ false)
      → (xs : List A) → find_first p (update_where q f xs) ≡ find_first p xs
  find_first-update_other p q f same apart [] = refl
  find_first-update_other p q f same apart (x ∷ xs) =
      ground (arith, same x, apart x, find_first-update_other p q f same apart xs)

  -- An update of rows that the search looks for shows in what it finds.
  pub find_first-update_same :
      (p : A → Bool) (f : A → A)
      → ((a : A) → p (f a) ≡ p a)
      → (xs : List A) → find_first p (update_where p f xs) ≡ Option.map f (find_first p xs)
  find_first-update_same p f same [] = refl
  find_first-update_same p f same (x ∷ xs) =
      ground (arith, same x, find_first-update_same p f same xs)

  pub find_first-append :
      (p : A → Bool) (xs : List A) (y : A)
      → p y ≡ false
      → find_first p (xs ++ y ∷ []) ≡ find_first p xs
  find_first-append p [] y h = ground arith
  find_first-append p (x ∷ xs) y h = ground (arith, find_first-append p xs y h)

  pub find_first-append_new :
      (p : A → Bool) (xs : List A) (y : A)
      → any p xs ≡ false
      → p y ≡ true
      → find_first p (xs ++ y ∷ []) ≡ some y
  find_first-append_new p [] y h k = ground arith
  find_first-append_new p (x ∷ xs) y h k = ground (arith, find_first-append_new p xs y)

  pub find_first-select_absent :
      (p : A → Bool) (xs : List A) → find_first p (select (λ x. not (p x)) xs) ≡ none
  find_first-select_absent p [] = refl
  find_first-select_absent p (x ∷ xs) = ground (arith, find_first-select_absent p xs)

  pub find_first-some :
      (p : A → Bool) (xs : List A) → any p xs ≡ true → (a : A) × (find_first p xs ≡ some a)
  find_first-some p [] h = absurd (cc)
  find_first-some p (x ∷ xs) h = elim (Bool-cases (p x)) [
    | inl e ↦ (x, rw e refl)
    | inr e ↦ rw e (find_first-some p xs (rw e at h))
  ]

  pub select-last :
      (p : A → Bool) (xs : List A) (y : A)
      → p y ≡ true
      → select p (xs ++ y ∷ []) ≡ select p xs ++ y ∷ []
  select-last p [] y h = ground arith
  select-last p (x ∷ xs) y h = ground (arith, select-last p xs y)

  pub update_where-last :
      (p : A → Bool) (f : A → A) (xs : List A) (y : A)
      → any p xs ≡ false
      → p y ≡ true
      → update_where p f (xs ++ y ∷ []) ≡ xs ++ f y ∷ []
  update_where-last p f [] y h k = ground arith
  update_where-last p f (x ∷ xs) y h k = ground (arith, update_where-last p f xs y)

  pub any-mem : (p : A → Bool) {a : A} {xs : List A} → Memᴰ a xs → p a ≡ true → any p xs ≡ true
  any-mem p (Memᴰ.head e) h = rw (← e, h)
  any-mem p (Memᴰ.tail {x = x} {xs = xs} m) h = ground (arith, any-mem p m h)

  pub Memᴰ-select :
      (p : A → Bool) {a : A} (xs : List A) → Memᴰ a (select p xs) → Memᴰ a xs × (p a ≡ true)
  Memᴰ-select p [] m = absurd (not-nil m)
  Memᴰ-select p {a} (x ∷ xs) m = elim (Bool-cases (p x)) [
    | inl e ↦ found e (cases_cons (rw e at m)) (λ n. Memᴰ-select p xs n)
    | inr e ↦ let (n, q) = Memᴰ-select p xs (rw e at m) in (Memᴰ.tail n, q)
  ]
    where
      found :
          p x ≡ true
          → (a ≡ x) ⊎ Memᴰ a (select p xs)
          → (Memᴰ a (select p xs) → Memᴰ a xs × (p a ≡ true))
          → Memᴰ a (x ∷ xs) × (p a ≡ true)
      found e (inl same) rest = (Memᴰ.head same, rw same e)
      found e (inr n) rest = let (k, q) = rest n in (Memᴰ.tail k, q)

pub same_text_refl : (t : Text) → same_text t t ≡ true
same_text_refl [] = refl
same_text_refl (c ∷ t) = ground (arith, same_text_refl t)

pub same_text-≡ : (a b : Text) → same_text a b ≡ true → a ≡ b
same_text-≡ [] [] h = refl
same_text-≡ [] (x ∷ b) h = cc
same_text-≡ (x ∷ a) [] h = cc
same_text-≡ (x ∷ a) (y ∷ b) h = ground (arith, same_text-≡ a b)
