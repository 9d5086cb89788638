-- ===== src/Turn/Title.antt =====
-- apps/cc-tunnel/internal/api/title.go. A string is here the list of its runes, as it is for the
-- regular expressions and for the last cut.
pub mod Bounds
use cc_tunnel.Common.{
  ℕ, zero, suc, Bool, true, false, ◌&&◌, ◌||◌, not, Option, none, some, List, [], ◌∷◌, ◌++◌, map,
  Text, ltb, leb, ◌==◌, if◌then◌else◌, is_empty, length, take, codes, any,
}
use mathlib.Core.List.{reverse}

abbrev pub starts_with : ℕ → Text → Bool
starts_with a [] = false
starts_with a (c ∷ s) = c == a

-- strings.ReplaceAll(text, "\r\n", "\n")
abbrev pub crlf_to_lf : Text → Text
crlf_to_lf [] = []
crlf_to_lf (c ∷ s) =
    let rest = crlf_to_lf s in if c == 13 && starts_with 10 s then rest else c ∷ rest

abbrev pub replace_rune : ℕ → ℕ → Text → Text
replace_rune a b = map (λ c. if c == a then b else c)

-- strings.TrimLeft with one rune.
abbrev pub trim_left : ℕ → Text → Text
trim_left a [] = []
trim_left a (c ∷ s) = let rest = trim_left a s in if c == a then rest else c ∷ s

-- strings.Split at newlines: the first line, and the others.
abbrev pub split_lines : Text → Text × List Text
split_lines [] = ([], [])
split_lines (c ∷ s) =
    let (line, lines) = split_lines s in if c == 10 then ([], line ∷ lines) else (c ∷ line, lines)

abbrev pub join_lines : Text → List Text → Text
join_lines line [] = line
join_lines line (next ∷ lines) = line ++ (10 ∷ join_lines next lines)

-- A line without its heading marks (35 is #).
unfoldable pub without_heading : Text → Text
without_heading line =
    let stripped = trim_left 35 line in
    if ltb (length stripped) (length line) then trim_left 32 stripped else stripped

unfoldable pub without_headings : Text → Text
unfolding without_heading
without_headings text =
    let (line, lines) = split_lines text in
    join_lines (without_heading line) (map without_heading lines)

-- The regular expression MARK{1,max}([^MARK\n]+)MARK{1,max}. Marks and what lies between them
-- have no rune in common, so each part takes all it can: after `max` marks another mark leaves
-- nothing for the middle.
module _ (max mark : ℕ) where
  abbrev pub drop_marks : ℕ → Text → Text
  drop_marks zero s = s
  drop_marks (suc n) [] = []
  drop_marks (suc n) (c ∷ s) = let rest = drop_marks n s in if c == mark then rest else c ∷ s

  abbrev pub between : Text → Text × Text
  between [] = ([], [])
  between (c ∷ s) =
      let (inside, rest) = between s in
      if (c == mark) || (c == 10) then ([], c ∷ s) else (c ∷ inside, rest)

  abbrev pub match_with : Text → Text × Text → Option (Text × Text)
  match_with s (inside, rest) =
      if starts_with mark s && (not (is_empty inside) && starts_with mark rest)
      then some (inside, drop_marks max rest)
      else none

  -- A match at the start of a text: the group, and what follows the match.
  abbrev pub match_marked : Text → Option (Text × Text)
  match_marked s = match_with s (between (drop_marks max s))

  -- The leftmost matches are replaced by their group; a match uses up runes, so the length of the
  -- text is enough fuel.
  unfoldable pub unmark : ℕ → Text → Text
  unmark zero s = s
  unmark (suc n) [] = []
  unmark (suc n) (c ∷ s) = elim (match_marked (c ∷ s)) [
    | some (inside, rest) ↦ inside ++ unmark n rest
    | none ↦ c ∷ unmark n s
  ]

  unfoldable pub replace_marked : Text → Text
  unfolding unmark
  replace_marked s = unmark (length s) s

-- \s of a regular expression.
abbrev pub is_blank : ℕ → Bool
is_blank c = (c == 9) || (c == 10) || (c == 12) || (c == 13) || (c == 32)

-- reSpaces.ReplaceAllString(text, " "); the flag says that the last rune was blank.
unfoldable pub single_spaces : Bool → Text → Text
single_spaces after_blank [] = []
single_spaces after_blank (c ∷ s) =
    let blank = is_blank c in
    let rest = single_spaces blank s in
    if not blank then c ∷ rest else if after_blank then rest else 32 ∷ rest

-- unicode.IsSpace
abbrev pub is_space : ℕ → Bool
is_space c =
    (leb 9 c && leb c 13)
    || (leb 8192 c && leb c 8202)
    || any (λ x. x == c) (32 ∷ 133 ∷ 160 ∷ 5760 ∷ 8232 ∷ 8233 ∷ 8239 ∷ 8287 ∷ 12288 ∷ [])

abbrev pub trim_start : Text → Text
trim_start [] = []
trim_start (c ∷ s) = let rest = trim_start s in if is_space c then rest else c ∷ s

unfoldable pub trim_space : Text → Text
trim_space s = reverse (trim_start (reverse (trim_start s)))

-- The text without Markdown, its newlines made spaces.
unfoldable pub unformatted : Text → Text
unfolding without_headings replace_marked
unformatted text =
    let lines = without_headings (replace_rune 13 10 (crlf_to_lf text)) in
    let unmarked = replace_marked 1 96 (replace_marked 2 95 (replace_marked 2 42 lines)) in
    replace_rune 10 32 unmarked

unfoldable pub plain : Text → Text
unfolding unformatted single_spaces trim_space
plain text = trim_space (single_spaces false (unformatted text))

unfoldable pub shorten : Text → Text
shorten t =
    if is_empty t
    then codes "New Conversation"
    else if ltb 60 (length t)
    then take 60 t ++ codes "..."
    else t

unfoldable pub generate_title : Text → Text
unfolding plain shorten
generate_title text = shorten (plain text)
