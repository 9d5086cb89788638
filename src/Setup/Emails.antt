-- ===== src/Setup/Emails.antt =====
-- The emails that splitAndTrim reads back. Texts are runes here.
use cc_tunnel.Common.{
  ℕ, ◌≡◌, refl, ap, ◌∙◌, inl, inr, false, not, List, [], ◌∷◌, ◌++◌, Text, map, arith, any, All,
  select, ◌==◌, ==_iff, is_empty, Bool-cases,
}
use cc_tunnel.Turn.Title.{trim_space}
use cc_tunnel.Server.Admin.{new_reconcile_vms_handler}
use cc_tunnel.Setup.{split, split_and_trim}

-- The pieces with a separator between each two.
abbrev pub join : ℕ → List Text → Text
join sep [] = []
join sep (p ∷ []) = p
join sep (p ∷ q ∷ ps) = p ++ sep ∷ join sep (q ∷ ps)

abbrev pub Lacks : ℕ → Text → Type 0
Lacks sep p = any (λ c. c == sep) p ≡ false

split-alone : (sep : ℕ) (p : Text) → Lacks sep p → split sep p ≡ p ∷ []
unfolding split
split-alone sep [] h = refl
split-alone sep (c ∷ p) h = elim (Bool-cases (c == sep)) [
  | inl e ↦ ground (arith, e, h)
  | inr e ↦ rw (split-alone sep p (ground (arith, e, h)), e) refl
]

split-append : (sep : ℕ) (p s : Text) → Lacks sep p → split sep (p ++ sep ∷ s) ≡ p ∷ split sep s
unfolding split
split-append sep [] s h = rw ((==_iff sep sep).1 refl) refl
split-append sep (c ∷ p) s h = elim (Bool-cases (c == sep)) [
  | inl e ↦ ground (arith, e, h)
  | inr e ↦ rw (split-append sep p s (ground (arith, e, h)), e) refl
]

split-join :
    (sep : ℕ) (p : Text) (ps : List Text)
    → All (Lacks sep) (p ∷ ps)
    → split sep (join sep (p ∷ ps)) ≡ p ∷ ps
split-join sep p [] h = split-alone sep p h.0
split-join sep p (q ∷ ps) h =
    split-append sep p (join sep (q ∷ ps)) h.0 ∙ ap (◌∷◌ p) (split-join sep q ps h.1)

not-empty : (p : Text) (c : ℕ) (s : Text) → is_empty (p ++ c ∷ s) ≡ false
not-empty [] c s = refl
not-empty (d ∷ p) c s = refl

-- splitAndTrim of pieces joined by the separator, none of which has it inside, gives the pieces less
-- their blanks, without those of which nothing is left.
pub split_and_trim-join :
    (sep : ℕ) (ps : List Text)
    → All (Lacks sep) ps
    → split_and_trim sep (join sep ps) ≡ select (λ p. not (is_empty p)) (map trim_space ps)
unfolding split_and_trim
split_and_trim-join sep [] h = refl
split_and_trim-join sep ([] ∷ []) h = unfold trim_space in refl
split_and_trim-join sep ((c ∷ p) ∷ []) h =
    ap (λ ps. select (λ q. not (is_empty q)) (map trim_space ps)) (split-alone sep (c ∷ p) h.0)
split_and_trim-join sep (p ∷ q ∷ ps) h =
    rw (not-empty p sep (join sep (q ∷ ps)), split-join sep p (q ∷ ps) h) refl

-- What is left of an entry is the entry.
abbrev pub IsEntry : ℕ → Text → Type 0
IsEntry sep e = Lacks sep e × (trim_space e ≡ e) × (is_empty e ≡ false)

entries-Lacks : (sep : ℕ) (es : List Text) → All (IsEntry sep) es → All (Lacks sep) es
entries-Lacks sep [] h = tt
entries-Lacks sep (e ∷ es) h = (h.0.0, entries-Lacks sep es h.1)

select-entries :
    (sep : ℕ) (es : List Text)
    → All (IsEntry sep) es
    → select (λ p. not (is_empty p)) (map trim_space es) ≡ es
select-entries sep [] h = refl
select-entries sep (e ∷ es) h = rw (h.0.1, h.0.2, select-entries sep es h.1) refl

pub allowed-entries :
    (es : List Text)
    → All (IsEntry 44) es
    → new_reconcile_vms_handler (split_and_trim 44 (join 44 es)) ≡ es
unfolding new_reconcile_vms_handler
allowed-entries es h =
    rw (split_and_trim-join 44 es (entries-Lacks 44 es h), select-entries 44 es h)
      (select-entries 44 es h)
