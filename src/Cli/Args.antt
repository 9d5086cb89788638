-- ===== src/Cli/Args.antt =====
-- The arguments of the claude CLI as a reader of options sees them: what each one is taken for.
use cc_tunnel.Common.{
  ◌≡◌, Bool, true, false, ◌&&◌, ◌==◌, List, [], ◌∷◌, ◌++◌, Text, Option, some, if◌then◌else◌,
  is_empty, codes, same_text, any,
}

pub data Arg : Type 0 where
  set : Text → Text → Arg
  switch : Text → Arg

abbrev pub before : Arg → List Arg × Option Text → List Arg × Option Text
before a (found, p) = (a ∷ found, p)

-- The options of the CLI that take a value, of those that the executor uses.
abbrev pub takes_value : Text → Bool
takes_value a = any (same_text a) (
    codes "--resume"
    ∷ codes "--model"
    ∷ codes "--system-prompt"
    ∷ codes "--allowedTools"
    ∷ codes "--permission-mode"
    ∷ [])

-- And those that take none; the output format is a single argument.
abbrev pub switches : List Text
switches =
    codes "-p"
    ∷ codes "--output-format=stream-json"
    ∷ codes "--verbose"
    ∷ codes "--include-partial-messages"
    ∷ codes "--include-hook-events"
    ∷ codes "--dangerously-skip-permissions"
    ∷ []

abbrev pub is_switch : Text → Bool
is_switch a = any (same_text a) switches

abbrev pub is_dashed : Text → Bool
is_dashed (a ∷ b ∷ t) = a == 45 && b == 45
is_dashed (a ∷ []) = false
is_dashed [] = false

-- The first argument begins with two dashes.
abbrev pub opens : List Text → Bool
opens [] = false
opens (a ∷ rest) = is_dashed a

-- How the CLI reads its arguments, which is not this repository's code: the options in order, and
-- the prompt. An option that may take several values takes one, if the next argument is dashed; and
-- after "--" nothing is an option.
pub record OptionReader : Type 0 where
  pub read : List Text → List Arg × Option Text
  pub on_switch :
      (name : Text) (rest : List Text)
      → is_switch name ≡ true
      → read (name ∷ rest) ≡ before (switch name) (read rest)
  pub on_value :
      (name value : Text) (rest : List Text)
      → takes_value name ≡ true
      → opens rest ≡ true
      → read (name ∷ value ∷ rest) ≡ before (set name value) (read rest)
  pub on_terminator : (p : Text) → read (codes "--" ∷ p ∷ []) ≡ ([], some p)

abbrev pub set_unless_empty : Text → Text → List Arg
set_unless_empty name value = if is_empty value then [] else (set name value ∷ [])

abbrev pub switch_if : Text → Bool → List Arg
switch_if name on = if on then switch name ∷ [] else []

abbrev with_options : List Arg → List Arg × Option Text → List Arg × Option Text
with_options xs (found, p) = (xs ++ found, p)

module _ (r : OptionReader) where
  -- What is read of the arguments, which begin with two dashes.
  record Reads (args : List Text) (found : List Arg × Option Text) : Type 0 where
    dashed : opens args ≡ true
    found_in : r.read args ≡ found
