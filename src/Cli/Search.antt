-- ===== src/Cli/Search.antt =====
-- containsAny and containsResumeError of executor.go, against what a substring is.
use mathlib.Core.List.{Memᴰ}
use mathlib.Core.Bool.{true≢false}
use cc_tunnel.Common.{
  any-mem, ◌⊎◌, ℕ, zero, suc, ◌+◌, ◌-◌, ◌<◌, ◌≡◌, refl, sym, ap, ◌∙◌, Bool, true, false, ◌||◌, List,
  [], ◌∷◌, ◌++◌, Text, if◌then◌else◌, leb, codes, length, take, length-append, same_text,
  same_text_refl, same_text-≡, arith, inl, inr, Bool-cases, any,
}

abbrev tail : Text → Text
tail [] = []
tail (c ∷ t) = t

-- The loop over i, by the number of its turns that are left; `s` is s[i:].
unfoldable pub search : Text → ℕ → Text → Bool
search sub zero s = false
search sub (suc n) s = same_text (take (length sub) s) sub || search sub n (tail s)

unfoldable pub contains : Text → Text → Bool
unfolding search
contains s sub =
    if leb (length sub) (length s) then search sub (length s - length sub + 1) s else false

unfoldable pub contains_any : Text → List Text → Bool
unfolding contains
contains_any s = any (contains s)

unfoldable pub contains_resume_error : Text → Bool
unfolding contains_any
contains_resume_error line =
    contains_any line
      (codes "session not found" ∷ codes "resume failed" ∷ codes "invalid session" ∷ [])

-- `sub` is a substring of `s`.
pub record IsPart (sub s : Text) : Type 0 where
  pub before : Text
  pub after : Text
  pub whole : s ≡ before ++ (sub ++ after)

take-rest : (k : ℕ) (s : Text) → (rest : Text) × (s ≡ take k s ++ rest)
take-rest zero s = (s, refl)
take-rest (suc k) [] = ([], refl)
take-rest (suc k) (c ∷ s) = let (rest, e) = take-rest k s in (rest, ap (◌∷◌ c) e)

take-whole : (a b : Text) → take (length a) (a ++ b) ≡ a
take-whole [] b = refl
take-whole (c ∷ a) b = ap (◌∷◌ c) (take-whole a b)

search-IsPart : (sub : Text) (n : ℕ) (s : Text) → search sub n s ≡ true → IsPart sub s
unfolding search
search-IsPart sub zero s h = cc
search-IsPart sub (suc n) s h = elim (Bool-cases (same_text (take (length sub) s) sub)) [
  | inl e ↦
      let (rest, p) = take-rest (length sub) s in
      record { before = []; after = rest; whole = p ∙ ap (λ t. t ++ rest) (same_text-≡ _ sub e) }
  | inr e ↦ later s (search-IsPart sub n (tail s) (ground arith))
]
  where
    later : (s : Text) → IsPart sub (tail s) → IsPart sub s
    later [] p = p
    later (c ∷ s) p = record { before = c ∷ p.before; after = p.after; whole = ap (◌∷◌ c) p.whole }

search-found :
    (sub before after : Text) (n : ℕ)
    → length before < n
    → search sub n (before ++ (sub ++ after)) ≡ true
unfolding search
search-found sub before after zero h = absurd (omega arith)
search-found sub [] after (suc n) h = rw (take-whole sub after, same_text_refl sub) refl
search-found sub (c ∷ before) after (suc n) h = ground (arith, search-found sub before after n)

contains-IsPart : (s sub : Text) → contains s sub ≡ true → IsPart sub s
unfolding contains
contains-IsPart s sub h = elim (Bool-cases (leb (length sub) (length s))) [
  | inl e ↦ search-IsPart sub _ s (rw e at h)
  | inr e ↦ absurd (ground arith)
]

IsPart-contains : (s sub : Text) → IsPart sub s → contains s sub ≡ true
unfolding contains
IsPart-contains s sub p =
    rw (p.whole, fits) (search-found sub p.before p.after _ (omega (arith, len)))
  where
    len : length (p.before ++ (sub ++ p.after)) ≡ length p.before + (length sub + length p.after)
    len =
        length-append p.before (sub ++ p.after)
        ∙ ap (λ n. length p.before + n) (length-append sub p.after)

    fits : leb (length sub) (length (p.before ++ (sub ++ p.after))) ≡ true
    fits = ground (arith, len)

one_found :
    (s : Text) (subs : List Text)
    → contains_any s subs ≡ true
    → (sub : Text) × Memᴰ sub subs × IsPart sub s
unfolding contains_any
one_found s [] h = cc
one_found s (sub ∷ subs) h = elim (Bool-cases (contains s sub)) [
  | inl e ↦ (sub, Memᴰ.head refl, contains-IsPart s sub e)
  | inr e ↦ let (other, m, p) = one_found s subs (ground arith) in (other, Memᴰ.tail m, p)
]

-- containsAny answers true for a text of which one of the given texts is a substring, and false
-- for a text of which none is.
pub contains_any-decides :
    (s : Text) (subs : List Text)
    → ((contains_any s subs ≡ true) × ((sub : Text) × Memᴰ sub subs × IsPart sub s))
      ⊎ ((contains_any s subs ≡ false) × ((sub : Text) → Memᴰ sub subs → ¬ IsPart sub s))
unfolding contains_any
contains_any-decides s subs = elim (Bool-cases (contains_any s subs)) [
  | inl e ↦ inl (e, one_found s subs e)
  | inr e ↦
      inr (e, λ sub m p. true≢false (sym (any-mem (contains s) m (IsPart-contains s sub p)) ∙ e))
]
