-- ===== src/Setup.antt =====
-- apps/cc-tunnel/cmd/cc-tunnel/main.go: how the server reads its environment. A variable that is not
-- set is empty, as os.Getenv has it.
pub mod Providers
pub mod Start
pub mod Emails
pub mod Route
use cc_tunnel.Common.{
  ℕ, zero, suc, ◌+◌, ◌*◌, ◌-◌, Bool, true, false, ◌&&◌, not, Option, none, some, List, [], ◌∷◌,
  Text, map, ltb, leb, ◌==◌, if◌then◌else◌, is_empty, select,
}
use cc_tunnel.Turn.Title.{trim_space}

abbrev pub Environment : Type 0
Environment = Text → Text

-- The value unless it is empty.
abbrev pub or_default : Text → Text → Text
or_default v default_value = if is_empty v then default_value else v

unfoldable pub get_env_or_default : Environment → Text → Text → Text
get_env_or_default env key default_value = or_default (env key) default_value

-- strings.Split with a separator of one rune.
abbrev pub onto_first : ℕ → List Text → List Text
onto_first c [] = (c ∷ []) ∷ []
onto_first c (p ∷ ps) = (c ∷ p) ∷ ps

unfoldable pub split : ℕ → Text → List Text
split sep [] = [] ∷ []
split sep (c ∷ s) = let rest = split sep s in if c == sep then [] ∷ rest else onto_first c rest

unfoldable pub split_and_trim : ℕ → Text → List Text
unfolding split trim_space
split_and_trim sep s =
    if is_empty s then [] else select (λ p. not (is_empty p)) (map trim_space (split sep s))

-- int, of 64 bits.
pub data ℤ : Type 0 where
  pos negsuc : ℕ → ℤ

abbrev is_digit : ℕ → Bool
is_digit c = leb 48 c && leb c 57

unfoldable pub digits : ℕ → Text → Option ℕ
digits acc [] = some acc
digits acc (c ∷ s) = let rest = digits (acc * 10 + (c - 48)) s in if is_digit c then rest else none

abbrev pub some_digits : Text → Option ℕ
some_digits [] = none
some_digits (c ∷ s) = digits 0 (c ∷ s)

abbrev pub positive : Option ℕ → Option ℤ
positive none = none
positive (some n) = if ltb n 9223372036854775808 then some (pos n) else none

abbrev negative_of : ℕ → ℤ
negative_of zero = pos zero
negative_of (suc n) = negsuc n

abbrev pub negative : Option ℕ → Option ℤ
negative none = none
negative (some n) = if leb n 9223372036854775808 then some (negative_of n) else none

-- strconv.Atoi: an optional sign, then digits only, in the range of int64.
unfoldable pub atoi : Text → Option ℤ
unfolding digits
atoi [] = none
atoi (c ∷ s) =
    if c == 45
    then negative (some_digits s)
    else if c == 43
    then positive (some_digits s)
    else positive (some_digits (c ∷ s))

abbrev pub or_number : Option ℤ → ℤ → ℤ
or_number none default_value = default_value
or_number (some n) default_value = n

-- A value that is no number counts as not set.
unfoldable pub get_env_int_or_default : Environment → Text → ℤ → ℤ
unfolding atoi
get_env_int_or_default env key default_value =
    if is_empty (env key) then default_value else or_number (atoi (env key)) default_value
