-- ===== src/Text.antt =====
-- The texts that the program walks character by character: Rust's `trim`, `split`, `split_once`,
-- `strip_prefix` and `replace` of one character.
use Prim.Native.Char.{Char, code}
use Prim.Native.String
use Prim.Native.String.{String, [], ◌∷◌}
use uni_mail.Common.{ℕ, Bool, true, false, ◌&&◌, ◌||◌, Option, none, some, leb, eqb, if◌then◌else◌}
use mathlib.Core.List.{List, [], ◌∷◌}

-- `char::is_whitespace`
unfoldable pub is_whitespace : Char → Bool
is_whitespace ch =
    let c = code ch in
    (leb 9 c && leb c 13)
    || eqb c 32
    || eqb c 0x85
    || eqb c 0xa0
    || eqb c 0x1680
    || (leb 0x2000 c && leb c 0x200a)
    || eqb c 0x2028
    || eqb c 0x2029
    || eqb c 0x202f
    || eqb c 0x205f
    || eqb c 0x3000

abbrev is_empty : String → Bool
is_empty [] = true
is_empty (c ∷ s) = false

unfoldable pub trim_start : String → String
unfolding is_whitespace
trim_start [] = []
trim_start (c ∷ s) = if is_whitespace c then trim_start s else c ∷ s

-- A character, unless it is whitespace at the end.
abbrev keep_end : Char → String → String
keep_end c s = if is_empty s && is_whitespace c then [] else c ∷ s

unfoldable pub trim_end : String → String
unfolding is_whitespace
trim_end [] = []
trim_end (c ∷ s) = keep_end c (trim_end s)

unfoldable pub trim : String → String
unfolding trim_start trim_end
trim s = trim_start (trim_end s)

abbrev prepend : Char → List String → List String
prepend c [] = (c ∷ []) ∷ []
prepend c (s ∷ rest) = (c ∷ s) ∷ rest

-- `s.split(sep)`
unfoldable pub split : ℕ → String → List String
split sep [] = [] ∷ []
split sep (c ∷ s) = let rest = split sep s in if eqb (code c) sep then [] ∷ rest else prepend c rest

abbrev extend : Char → Option (String × String) → Option (String × String)
extend c none = none
extend c (some (k, v)) = some (c ∷ k, v)

-- `s.split_once(sep)`
unfoldable pub split_once : ℕ → String → Option (String × String)
split_once sep [] = none
split_once sep (c ∷ s) =
    let rest = split_once sep s in if eqb (code c) sep then some ([], s) else extend c rest

-- `s.strip_prefix(prefix)`
unfoldable pub strip_prefix : String → String → Option String
strip_prefix [] s = some s
strip_prefix (p ∷ ps) [] = none
strip_prefix (p ∷ ps) (c ∷ s) =
    let rest = strip_prefix ps s in if eqb (code p) (code c) then rest else none

-- `s.replace(c, with)`
unfoldable pub replace : ℕ → String → String → String
replace c with [] = []
replace c with (d ∷ s) =
    let rest = replace c with s in if eqb (code d) c then String.◌++◌ with rest else d ∷ rest
