-- ===== src/Common/Lists.antt =====
-- Lists as tables of rows: Boolean selection, in-place update, search, and their laws.
use Prim.Native.Nat.{ℕ, zero, suc, ◌+◌, ◌≤◌, ◌<◌}
use Prim.Native.Char.{code}
use Prim.Native.String.{String}
use mathlib.Core.Path.{◌≡◌, refl}
use mathlib.Core.Bool.{◌&&◌, Bool, true, false, ◌||◌}
use mathlib.Core.Logic.{◌⊎◌, inl, inr}
use mathlib.Core.List.{List, [], ◌∷◌, ◌++◌, reverse, reverse-cons, Memᴰ}
use mathlib.Core.List.Memᴰ.{not-nil, cases_cons}
use mathlib.Core.Option.{Option, none, some}
use native.Mathlib.Omega.{arith}
use cc_tunnel.Common.Tests.{ltb, ◌==◌, if◌then◌else◌, Bool-cases}

-- The bytes of a Go string.
abbrev pub Text : Type 0
Text = List ℕ

-- The code points of a literal: its bytes, where it is ASCII.
abbrev pub codes : String → Text
codes String.[] = []
codes (String.◌∷◌ c s) = code c ∷ codes s

abbrev pub is_empty {ℓ} : {A : Type ℓ} → List A → Bool
is_empty [] = true
is_empty (x ∷ xs) = false

-- Go's == on strings.
abbrev pub same_text : Text → Text → Bool
same_text [] [] = true
same_text (a ∷ s) (b ∷ t) = a == b && same_text s t
same_text _ _ = false

module _ {ℓ} {A : Type ℓ} where
  abbrev pub length : List A → ℕ
  length [] = 0
  length (x ∷ xs) = suc (length xs)

  abbrev pub take : ℕ → List A → List A
  take zero xs = []
  take (suc n) [] = []
  take (suc n) (x ∷ xs) = x ∷ take n xs

  -- The rows that pass a test, in order.
  abbrev pub select : (A → Bool) → List A → List A
  select p [] = []
  select p (x ∷ xs) = let rest = select p xs in if p x then x ∷ rest else rest

  -- UPDATE: each row that passes the test is replaced.
  abbrev pub update_where : (A → Bool) → (A → A) → List A → List A
  update_where p f [] = []
  update_where p f (x ∷ xs) = (if p x then f x else x) ∷ update_where p f xs

  abbrev pub find_first : (A → Bool) → List A → Option A
  find_first p [] = none
  find_first p (x ∷ xs) = if p x then some x else find_first p xs

  abbrev pub any : (A → Bool) → List A → Bool
  any p [] = false
  any p (x ∷ xs) = p x || any p xs

  abbrev pub All {κ} : (A → Type κ) → List A → Type κ
  All P [] = Unit
  All P (x ∷ xs) = P x × All P xs

  pub length-append : (xs ys : List A) → length (xs ++ ys) ≡ length xs + length ys
  length-append [] ys = omega arith
  length-append (x ∷ xs) ys = omega (arith, length-append xs ys)

  pub length-take : (n : ℕ) (xs : List A) → length (take n xs) ≤ n
  length-take zero xs = omega arith
  length-take (suc n) [] = omega arith
  length-take (suc n) (x ∷ xs) = omega (arith, length-take n xs)

  pub All-select {κ} :
      (P : A → Type κ) (p : A → Bool) (xs : List A) → All P xs → All P (select p xs)
  All-select P p [] h = tt
  All-select P p (x ∷ xs) h = ground (arith, All-select P p xs h.1)

  pub All-append {κ} : (P : A → Type κ) (xs ys : List A) → All P xs → All P ys → All P (xs ++ ys)
  All-append P [] ys hx hy = hy
  All-append P (x ∷ xs) ys hx hy = (hx.0, All-append P xs ys hx.1 hy)

  pub All-map {κ μ} :
      (P : A → Type κ) {Q : A → Type μ} (f : (a : A) → P a → Q a) (xs : List A)
      → All P xs
      → All Q xs
  All-map P f [] h = tt
  All-map P f (x ∷ xs) h = (f x h.0, All-map P f xs h.1)

  pub All-reverse {κ} : (P : A → Type κ) (xs : List A) → All P xs → All P (reverse xs)
  All-reverse P [] h = tt
  All-reverse P (x ∷ xs) h =
      rw (reverse-cons x xs) (All-append P (reverse xs) (x ∷ []) (All-reverse P xs h.1) (h.0, tt))

  pub All-take {κ} : (P : A → Type κ) (n : ℕ) (xs : List A) → All P xs → All P (take n xs)
  All-take P zero xs h = tt
  All-take P (suc n) [] h = tt
  All-take P (suc n) (x ∷ xs) h = (h.0, All-take P n xs h.1)

-- ORDER BY a key: a stable insertion sort.
module _ {ℓ} {A : Type ℓ} (k : A → ℕ) where
  abbrev pub insert_by : A → List A → List A
  insert_by x [] = x ∷ []
  insert_by x (y ∷ ys) =
      let rest = insert_by x ys in if ltb (k x) (k y) then x ∷ y ∷ ys else y ∷ rest

  abbrev sort_onto : List A → List A → List A
  sort_onto acc [] = acc
  sort_onto acc (x ∷ xs) = sort_onto (insert_by x acc) xs

  unfoldable pub sort_by : List A → List A
  sort_by = sort_onto []

  insert_by-mem : {a : A} (x : A) (xs : List A) → Memᴰ a (insert_by x xs) → (a ≡ x) ⊎ Memᴰ a xs
  insert_by-mem x [] m = cases_cons m
  insert_by-mem x (y ∷ ys) m = elim (Bool-cases (ltb (k x) (k y))) [
    | inl e ↦ cases_cons (rw e at m)
    | inr e ↦ elim (cases_cons (rw e at m)) [
      | inl same ↦ inr (Memᴰ.head same)
      | inr n ↦ elim (insert_by-mem x ys n) [
        | inl same ↦ inl same
        | inr there ↦ inr (Memᴰ.tail there)
      ]
    ]
  ]

  sort_onto-mem : {a : A} (acc xs : List A) → Memᴰ a (sort_onto acc xs) → Memᴰ a acc ⊎ Memᴰ a xs
  sort_onto-mem acc [] m = inl m
  sort_onto-mem acc (x ∷ xs) m = elim (sort_onto-mem (insert_by x acc) xs m) [
    | inr n ↦ inr (Memᴰ.tail n)
    | inl n ↦ elim (insert_by-mem x acc n) [
      | inl same ↦ inr (Memᴰ.head same)
      | inr there ↦ inl there
    ]
  ]

  -- A row of the sorted table is one of the table.
  pub sort_by-mem : {a : A} (xs : List A) → Memᴰ a (sort_by xs) → Memᴰ a xs
  unfolding sort_by
  sort_by-mem xs m = elim (sort_onto-mem [] xs m) [ inl n ↦ absurd (not-nil n) | inr n ↦ n ]

  insert_by-AllBelow :
      (n : ℕ) (x : A) (xs : List A)
      → k x < n
      → All (λ y. k y < n) xs
      → All (λ y. k y < n) (insert_by x xs)
  insert_by-AllBelow n x [] h hs = (h, tt)
  insert_by-AllBelow n x (y ∷ ys) h hs = ground (arith, insert_by-AllBelow n x ys h hs.1)

  insert_by-last : (x : A) (xs : List A) → All (λ y. k y < k x) xs → insert_by x xs ≡ xs ++ x ∷ []
  insert_by-last x [] h = refl
  insert_by-last x (y ∷ ys) h = ground (arith, insert_by-last x ys h.1)

  sort_onto-last :
      (x : A) (acc xs : List A)
      → All (λ y. k y < k x) acc
      → All (λ y. k y < k x) xs
      → sort_onto acc (xs ++ x ∷ []) ≡ sort_onto acc xs ++ x ∷ []
  sort_onto-last x acc [] h hs = insert_by-last x acc h
  sort_onto-last x acc (y ∷ ys) h hs =
      sort_onto-last x (insert_by y acc) ys (insert_by-AllBelow (k x) y acc hs.0 h) hs.1

  -- A row that is later than all others comes last.
  pub sort_by-last :
      (x : A) (xs : List A)
      → All (λ y. k y < k x) xs
      → sort_by (xs ++ x ∷ []) ≡ sort_by xs ++ x ∷ []
  unfolding sort_by
  sort_by-last x xs h = sort_onto-last x [] xs tt h
