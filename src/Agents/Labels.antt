-- ===== src/Agents/Labels.antt =====
-- Which labels a container gets.
use cc_tunnel.Common.{
  ℕ, zero, suc, ◌≡◌, refl, ◌≤◌, inl, inr, Bool, true, false, Option, none, some, [], ◌∷◌, Text,
  take, length, ltb, same_text, same_text-≡, if◌then◌else◌, Bool-cases, arith, length-take, All, ap,
  sym,
}
use mathlib.Core.Option
use mathlib.Core.Bool.{true≢false}
use cc_tunnel.Agents.{Labels}
use cc_tunnel.Agents.Api.{is_allowed, capped, filter_labels}

-- The value of a key, by the first entry.
abbrev pub label : Text → Labels → Option Text
label key [] = none
label key ((k, v) ∷ rest) = if same_text k key then some v else label key rest

abbrev pub IsLabel : Text × Text → Type 0
IsLabel (k, v) = (is_allowed k ≡ true) × (length v ≤ 256)

abbrev pub allowed_value : Bool → Option Text → Option Text
allowed_value allowed v = if allowed then Option.map (take 256) v else none

take-short : (n : ℕ) (v : Text) → length v ≤ n → take n v ≡ v
take-short zero [] h = refl
take-short (suc n) [] h = refl
take-short zero (c ∷ v) h = absurd (omega arith)
take-short (suc n) (c ∷ v) h = ap (◌∷◌ c) (take-short n v (omega arith))

capped-take : (v : Text) → capped v ≡ take 256 v
capped-take v = elim (Bool-cases (ltb 256 (length v))) [
  | inl e ↦ rw e refl
  | inr e ↦ rw e (sym (take-short 256 v (ground (arith, e))))
]

module _ (key k v : Text) (rest : Labels) where
  -- One more label, once it is known what the others give.
  label-step :
      (same allowed allowed_key : Bool) (out : Labels)
      → same_text k key ≡ same
      → (same ≡ true → allowed ≡ allowed_key)
      → label key out ≡ allowed_value allowed_key (label key rest)
      → label key (if allowed then (k, capped v) ∷ out else out)
        ≡ allowed_value allowed_key (label key ((k, v) ∷ rest))
  label-step true true true out e agree ih = rw e (ap some (capped-take v))
  label-step true true false out e agree ih = absurd (true≢false (agree refl))
  label-step true false true out e agree ih = absurd (true≢false (sym (agree refl)))
  label-step true false false out e agree ih = ih
  label-step false true a out e agree ih = rw e ih
  label-step false false a out e agree ih = rw e ih

-- Of the labels of a request, a key keeps the first 256 bytes of its value if it is
-- conversation_id, vm_instance_id or component, and is dropped otherwise.
label-filter_labels :
    (key : Text) (labels : Labels)
    → label key (filter_labels labels) ≡ allowed_value (is_allowed key) (label key labels)
unfolding filter_labels
label-filter_labels key [] = ground arith
label-filter_labels key ((k, v) ∷ rest) =
    label-step key k v rest (same_text k key) (is_allowed k) (is_allowed key) (filter_labels rest)
      refl (λ e. ap is_allowed (same_text-≡ k key e)) (label-filter_labels key rest)

pub filter_labels-IsLabel : (labels : Labels) → All IsLabel (filter_labels labels)
unfolding filter_labels
filter_labels-IsLabel [] = tt
filter_labels-IsLabel ((k, v) ∷ rest) = elim (Bool-cases (is_allowed k)) [
  | inl e ↦
      rw e (
        (e, omega (arith, length-take 256 v, ap length (capped-take v))),
        filter_labels-IsLabel rest,
      )
  | inr e ↦ rw e (filter_labels-IsLabel rest)
]
