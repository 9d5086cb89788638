-- ===== src/Stream/Results.antt =====
-- What the two updates of a tool call keep: its key, and the bound on results.
use cc_tunnel.Common.{
  ◌≡◌, refl, ◌≤◌, ◌+◌, ℕ, List, [], ◌∷◌, map, Text, Option, none, some, arith, length, take, codes,
  length-append, length-take, All, Bool-cases, inl, inr, ltb, same_text,
}
use cc_tunnel.Stream.{ToolCall}
use cc_tunnel.Stream.Aggregate.{truncated, set_result, add_input}

-- The marker that a cut text ends with has 14 bytes.
pub length-truncated : (max_len : ℕ) (t : Text) → length (truncated max_len t) ≤ max_len + 14
unfolding truncated
length-truncated max_len t = elim (Bool-cases (ltb max_len (length t))) [
  | inl e ↦
      rw (e, length-append (take max_len t) (codes "...[truncated]"))
        (omega (arith, length-take max_len t))
  | inr e ↦ rw e (ground arith)
]

abbrev IsShort : Option Text → Type 0
IsShort none = Unit
IsShort (some t) = length t ≤ 2014

-- Every result that a tool call has is at most 2014 bytes long.
abbrev pub ShortResults : List ToolCall → Type 0
ShortResults = All (λ c. IsShort c.result)

pub set_result-Short :
    (i t : Text) (cs : List ToolCall)
    → length t ≤ 2014
    → ShortResults cs
    → ShortResults (set_result i t cs)
unfolding set_result
set_result-Short i t [] h s = tt
set_result-Short i t (c ∷ cs) h s = elim (Bool-cases (same_text c.tool_use_id i)) [
  | inl e ↦ rw e (h, s.1)
  | inr e ↦ rw e (s.0, set_result-Short i t cs h s.1)
]

pub add_input-Short :
    (t : Text) (cs : List ToolCall) → ShortResults cs → ShortResults (add_input t cs)
unfolding add_input
add_input-Short t [] s = tt
add_input-Short t (c ∷ []) s = s
add_input-Short t (c ∷ d ∷ cs) s = (s.0, add_input-Short t (d ∷ cs) s.1)

-- The name and id of a call, which nothing changes later.
abbrev pub key : ToolCall → Text × Text
key c = (c.tool_use_id, c.tool_name)

pub map-key-set_result :
    (i t : Text) (cs : List ToolCall) → map key (set_result i t cs) ≡ map key cs
unfolding set_result
map-key-set_result i t [] = refl
map-key-set_result i t (c ∷ cs) = elim (Bool-cases (same_text c.tool_use_id i)) [
  | inl e ↦ rw e
  | inr e ↦ rw (e, map-key-set_result i t cs)
]

pub map-key-add_input : (t : Text) (cs : List ToolCall) → map key (add_input t cs) ≡ map key cs
unfolding add_input
map-key-add_input t [] = refl
map-key-add_input t (c ∷ []) = refl
map-key-add_input t (c ∷ d ∷ cs) = rw (map-key-add_input t (d ∷ cs))
