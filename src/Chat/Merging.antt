-- ===== src/Chat/Merging.antt =====
-- Reading a key of a merged object.
use cc_tunnel.Common.{
  ◌≡◌, refl, sym, ap, ◌∙◌, inl, inr, true, false, none, some, Text, same_text, same_text-≡,
  if◌then◌else◌, Bool-cases, arith,
}
use mathlib.Core.Bool.{true≢false}
use cc_tunnel.Chat.{Fields, end, field, get, has_key, merge}

get-absent : (k : Text) (b : Fields) → has_key k b ≡ false → get k b ≡ none
get-absent k end h = refl
get-absent k (field key v fs) h = ground (arith, get-absent k fs)

-- A key of `b` is not the other key, which `b` lacks.
other_key :
    (k key : Text) (b : Fields)
    → has_key key b ≡ true
    → has_key k b ≡ false
    → same_text key k ≡ false
other_key k key b h absent = elim (Bool-cases (same_text key k)) [
  | inr e ↦ e
  | inl e ↦ absurd (true≢false (sym h ∙ ap (λ t. has_key t b) (same_text-≡ key k e) ∙ absent))
]

pub get-merge_kept : (k : Text) (a b : Fields) → has_key k b ≡ false → get k (merge a b) ≡ get k a
unfolding merge
get-merge_kept k end b h = get-absent k b h
get-merge_kept k (field key v fs) b h = elim (Bool-cases (has_key key b)) [
  | inl e ↦ rw (e, other_key k key b e h) (get-merge_kept k fs b h)
  | inr e ↦ rw e (ap (λ o. if same_text key k then some v else o) (get-merge_kept k fs b h))
]

pub get-merge_new : (k : Text) (a b : Fields) → has_key k b ≡ true → get k (merge a b) ≡ get k b
unfolding merge
get-merge_new k end b h = refl
get-merge_new k (field key v fs) b h = elim (Bool-cases (has_key key b)) [
  | inl e ↦ rw e (get-merge_new k fs b h)
  | inr e ↦ rw (e, lacking e) (get-merge_new k fs b h)
]
  where
    lacking : has_key key b ≡ false → same_text key k ≡ false
    lacking e = elim (Bool-cases (same_text key k)) [
      | inr d ↦ d
      | inl d ↦ absurd (true≢false (sym h ∙ ap (λ t. has_key t b) (sym (same_text-≡ key k d)) ∙ e))
    ]
