-- ===== src/Server/Limit.antt =====
-- pkg/server/server.go: parseLimit, with strconv.Atoi on 64 bits.
use vanitykeygen.Common.{
  ℕ, zero, suc, ◌+◌, ◌-◌, ◌*◌, ◌^◌, String, code, Bool, ◌&&◌, Option, none, some, ltb, leb, eqb,
  if◌then◌else◌, ◌==◌, ℤ, pos, negsuc,
}

abbrev is_digit : ℕ → Bool
is_digit c = leb b'0' c && leb c b'9'

-- the digits read so far, and those that follow; `none` is a character that is no digit
unfoldable pub digits_from : ℕ → String → Option ℕ
digits_from acc String.[] = some acc
digits_from acc (String.◌∷◌ c s) =
    let rest = digits_from (acc * 10 + (code c - b'0')) s in
    if is_digit (code c) then rest else none

-- at least one digit
unfoldable pub digits : String → Option ℕ
unfolding digits_from
digits String.[] = none
digits (String.◌∷◌ c s) = digits_from 0 (String.◌∷◌ c s)

abbrev pub in_range : Option ℕ → Option ℤ
in_range none = none
in_range (some n) = if ltb n (2 ^ 63) then some (pos n) else none

abbrev pub negated : Option ℕ → Option ℤ
negated none = none
negated (some zero) = some (pos zero)
negated (some (suc n)) = if ltb n (2 ^ 63) then some (negsuc n) else none

-- strconv.Atoi
unfoldable pub atoi : String → Option ℤ
unfolding digits
atoi String.[] = none
atoi (String.◌∷◌ c s) =
    if eqb (code c) b'-'
    then negated (digits s)
    else if eqb (code c) b'+'
    then in_range (digits s)
    else in_range (digits (String.◌∷◌ c s))

abbrev pub positive_or : ℕ → Option ℤ → ℕ
positive_or fallback (some (pos (suc n))) = suc n
positive_or fallback _ = fallback

-- parseLimit, on the value of `?limit=`, "" if there is none
unfoldable pub parse_limit : String → ℕ → ℕ
unfolding atoi
parse_limit v fallback = if v == "" then fallback else positive_or fallback (atoi v)
