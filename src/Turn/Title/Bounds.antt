-- ===== src/Turn/Title/Bounds.antt =====
-- What a title looks like, and that the passes over it end by themselves.
use cc_tunnel.Common.{
  ℕ, zero, suc, ◌+◌, ◌≡◌, refl, ◌≤◌, inl, inr, Bool, false, ◌||◌, Option, none, some, [], ◌∷◌, ◌++◌,
  Text, ◌==◌, length, take, codes, All, All-append, All-reverse, All-take, Bool-cases, any, ltb, ap,
  arith, length-append, length-take,
}
use mathlib.Core.List.{reverse}
use mathlib.Core.Option.{some-injective}
use cc_tunnel.Turn.Title.{
  is_blank, is_space, single_spaces, trim_start, trim_space, plain, generate_title, shorten,
  unformatted, replace_marked, unmark, match_marked, match_with, between, drop_marks, starts_with,
}

-- A blank rune other than the space.
abbrev pub is_break : ℕ → Bool
is_break c = (c == 9) || (c == 10) || (c == 12) || (c == 13)

abbrev pub IsOnLine : ℕ → Type 0
IsOnLine c = is_break c ≡ false

single_spaces-OnLine : (b : Bool) (s : Text) → All IsOnLine (single_spaces b s)
unfolding single_spaces
single_spaces-OnLine b [] = tt
single_spaces-OnLine b (c ∷ s) = ground (arith, single_spaces-OnLine (is_blank c) s)

trim_start-OnLine : (s : Text) → All IsOnLine s → All IsOnLine (trim_start s)
trim_start-OnLine [] h = tt
trim_start-OnLine (c ∷ s) h = elim (Bool-cases (is_space c)) [
  | inl e ↦ rw e (trim_start-OnLine s h.1)
  | inr e ↦ rw e h
]

trim_space-OnLine : (s : Text) → All IsOnLine s → All IsOnLine (trim_space s)
unfolding trim_space
trim_space-OnLine s h = All-reverse IsOnLine (trim_start (reverse (trim_start s))) (
    trim_start-OnLine (reverse (trim_start s))
      (All-reverse IsOnLine (trim_start s) (trim_start-OnLine s h)))

plain-OnLine : (text : Text) → All IsOnLine (plain text)
unfolding plain
plain-OnLine text =
    trim_space-OnLine (single_spaces false (unformatted text))
      (single_spaces-OnLine false (unformatted text))

abbrev pub IsTitle : Text → Type 0
IsTitle t = (1 ≤ length t) × (length t ≤ 63) × All IsOnLine t

cut-IsTitle : (t : Text) → All IsOnLine t → IsTitle (take 60 t ++ codes "...")
cut-IsTitle t k = (
  omega (arith, length-append (take 60 t) (codes "...")),
  omega (arith, length-append (take 60 t) (codes "..."), length-take 60 t),
  All-append IsOnLine (take 60 t) (codes "...") (All-take IsOnLine 60 t k)
      (refl, (refl, (refl, tt))),
)

All-not : (p : ℕ → Bool) (s : Text) → any p s ≡ false → All (λ c. p c ≡ false) s
All-not p [] h = tt
All-not p (c ∷ s) h = ground (arith, All-not p s)

shorten-IsTitle : (t : Text) → All IsOnLine t → IsTitle (shorten t)
unfolding shorten
shorten-IsTitle [] h = (omega arith, omega arith, All-not is_break (codes "New Conversation") refl)
shorten-IsTitle (c ∷ s) h = elim (Bool-cases (ltb 60 (length (c ∷ s)))) [
  | inl e ↦ rw e (cut-IsTitle (c ∷ s) h)
  | inr e ↦ rw e (omega arith, ground (arith, e), h)
]

-- The title made of any text has from 1 to 63 runes, none of them a tab, a newline, a form feed
-- or a carriage return.
pub generate_title-IsTitle : (text : Text) → IsTitle (generate_title text)
unfolding generate_title
generate_title-IsTitle text = shorten-IsTitle (plain text) (plain-OnLine text)

length-drop_marks : (max mark n : ℕ) (s : Text) → length (drop_marks max mark n s) ≤ length s
length-drop_marks max mark zero s = omega arith
length-drop_marks max mark (suc n) [] = omega arith
length-drop_marks max mark (suc n) (c ∷ s) = ground (arith, length-drop_marks max mark n s)

length-between :
    (max mark : ℕ) (s : Text)
    → length (between max mark s).0 + length (between max mark s).1 ≡ length s
length-between max mark [] = refl
length-between max mark (c ∷ s) = ground (arith, length-between max mark s)

-- A match uses up runes.
match_marked-shorter :
    (max mark c : ℕ) (s inside rest : Text)
    → match_marked max mark (c ∷ s) ≡ some (inside, rest)
    → length rest ≤ length s
match_marked-shorter max mark c s inside rest h =
    split (between max mark (drop_marks max mark max (c ∷ s))) refl h
  where
    split :
        (p : Text × Text)
        → between max mark (drop_marks max mark max (c ∷ s)) ≡ p
        → match_with max mark (c ∷ s) p ≡ some (inside, rest)
        → length rest ≤ length s
    split ([], r) e k = grind arith
    split (x ∷ i, r) e k = elim (Bool-cases (starts_with mark (c ∷ s))) [
      | inr a ↦ grind arith
      | inl a ↦ elim (Bool-cases (starts_with mark r)) [
        | inr b ↦ grind arith
        | inl b ↦
            let same = ap (λ q. q.1) (some-injective _ _ (rw (a, b) at k)) in
            rw (← same) (
              omega (
                arith,
                length-drop_marks max mark max r,
                rw e at (length-between max mark (drop_marks max mark max (c ∷ s))),
                length-drop_marks max mark max (c ∷ s),
              ))
      ]
    ]

unmark-agree :
    (max mark n k : ℕ) (s : Text)
    → length s ≤ n
    → length s ≤ k
    → unmark max mark n s ≡ unmark max mark k s
unfolding unmark
unmark-agree max mark zero zero [] h l = refl
unmark-agree max mark zero (suc k) [] h l = refl
unmark-agree max mark (suc n) zero [] h l = refl
unmark-agree max mark (suc n) (suc k) [] h l = refl
unmark-agree max mark zero k (c ∷ s) h l = absurd (omega arith)
unmark-agree max mark (suc n) zero (c ∷ s) h l = absurd (omega arith)
unmark-agree max mark (suc n) (suc k) (c ∷ s) h l =
    step (match_marked max mark (c ∷ s)) refl
      (unmark-agree max mark n k s (omega arith) (omega arith))
      (λ t m. unmark-agree max mark n k t (omega arith) (omega arith))
  where
    step :
        (o : Option (Text × Text))
        → match_marked max mark (c ∷ s) ≡ o
        → unmark max mark n s ≡ unmark max mark k s
        → ((t : Text) → length t ≤ length s → unmark max mark n t ≡ unmark max mark k t)
        → elim o as (λ _. Text) [
          | some (inside, rest) ↦ inside ++ unmark max mark n rest
          | none ↦ c ∷ unmark max mark n s
        ]
          ≡ elim o as (λ _. Text) [
            | some (inside, rest) ↦ inside ++ unmark max mark k rest
            | none ↦ c ∷ unmark max mark k s
          ]
    step none e same rec = ap (◌∷◌ c) same
    step (some (inside, rest)) e same rec =
        ap (◌++◌ inside) (rec rest (match_marked-shorter max mark c s inside rest e))

-- Replacing the marked parts of a text takes no more steps than the text has runes: with any
-- number of steps from there on, the result is the same.
unmark-enough :
    (max mark n : ℕ) (s : Text) → length s ≤ n → unmark max mark n s ≡ replace_marked max mark s
unfolding replace_marked
unmark-enough max mark n s h = unmark-agree max mark n (length s) s h (omega arith)
