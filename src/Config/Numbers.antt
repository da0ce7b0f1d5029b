-- ===== src/Config/Numbers.antt =====
-- Rust's `parse` at `u64` and `i64`: an optional sign, then decimal digits, within the type's range.
use Prim.Native.Char.{Char, code}
use Prim.Native.String.{String, [], ◌∷◌}
use uni_mail.Common.{
  ℕ, zero, suc, ◌+◌, ◌-◌, ◌*◌, ◌^◌, ℤ, pos, negsuc, ◌&&◌, Option, none, some, leb, ltb, eqb,
  if◌then◌else◌,
}

-- A decimal digit.
unfoldable pub digit_of : Char → Option ℕ
digit_of c = if leb b'0' (code c) && leb (code c) b'9' then some (code c - b'0') else none

abbrev pub push_digit : ℕ → Option ℕ → Option ℕ
push_digit n none = none
push_digit n (some d) = some (n * 10 + d)

-- The digits behind a number that is already read.
unfoldable pub digits_from : Option ℕ → String → Option ℕ
unfolding digit_of
digits_from n [] = n
digits_from none (c ∷ s) = none
digits_from (some n) (c ∷ s) = digits_from (push_digit n (digit_of c)) s

-- At least one digit.
unfoldable pub natural : String → Option ℕ
unfolding digits_from
natural [] = none
natural (c ∷ s) = digits_from (some 0) (c ∷ s)

abbrev pub below : ℕ → Option ℕ → Option ℕ
below bound none = none
below bound (some n) = if ltb n bound then some n else none

-- `str::parse::<u64>`
unfoldable pub parse_u64 : String → Option ℕ
unfolding natural
parse_u64 [] = none
parse_u64 (c ∷ s) = below (2 ^ 64) (if eqb (code c) b'+' then natural s else natural (c ∷ s))

abbrev pub negated : Option ℕ → Option ℤ
negated none = none
negated (some zero) = some (pos 0)
negated (some (suc n)) = some (negsuc n)

abbrev pub positive : Option ℕ → Option ℤ
positive none = none
positive (some n) = some (pos n)

-- `str::parse::<i64>`: the magnitude of a negative number may be 2 ^ 63.
unfoldable pub parse_i64 : String → Option ℤ
unfolding natural
parse_i64 [] = none
parse_i64 (c ∷ s) =
    if eqb (code c) b'-'
    then negated (below (2 ^ 63 + 1) (natural s))
    else positive (below (2 ^ 63) (if eqb (code c) b'+' then natural s else natural (c ∷ s)))
