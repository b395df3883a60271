-- ===== src/GroupServer/Text.antt =====
-- Texts as nymstr-group/src/message_utils.rs reads and builds them: `str::trim`, `hex::encode` of a
-- digest, and `str::parse::<i64>`.
use Prim.Native.Char.{Char, code}
use Prim.Native.String.{◌++◌, char_at}
use nymstr.Prelude.{
  ℕ, zero, suc, ◌+◌, ◌-◌, ◌*◌, ◌/◌, ◌%◌, ◌^◌, String, Bool, List, [], ◌∷◌, Option, none, some, leb,
  ltb, ◌==◌, ◌&&◌, ◌||◌, if◌then◌else◌, nat_eq, string_eq,
}
use nymstr.Prelude.Int.{ℤ, pos, negsuc}

-- The characters with Unicode's property White_Space.
is_whitespace : Char → Bool
is_whitespace c =
    (leb 9 (code c) && leb (code c) 13)
    || code c == 32
    || code c == 0x85
    || code c == 0xa0
    || code c == 0x1680
    || (leb 0x2000 (code c) && leb (code c) 0x200a)
    || code c == 0x2028
    || code c == 0x2029
    || code c == 0x202f
    || code c == 0x205f
    || code c == 0x3000

trim_start : String → String
unfolding is_whitespace
trim_start String.[] = ""
trim_start (String.◌∷◌ c s) = if is_whitespace c then trim_start s else String.◌∷◌ c s

trim_end : String → String
unfolding is_whitespace
trim_end String.[] = ""
trim_end (String.◌∷◌ c s) =
    let rest = trim_end s in if is_whitespace c && rest == "" then "" else String.◌∷◌ c rest

unfoldable pub trim : String → String
unfolding trim_start trim_end
trim s = trim_end (trim_start s)

hex_digit : ℕ → String
hex_digit d = String.◌∷◌ (char_at "0123456789abcdef" d) ""

-- `hex::encode`.
unfoldable pub hex : List ℕ → String
unfolding hex_digit
hex [] = ""
hex (b ∷ l) = hex_digit (b / 16) ++ hex_digit (b % 16) ++ hex l

digits : ℕ → String → Option ℕ
digits n String.[] = some n
digits n (String.◌∷◌ c s) =
    let rest = digits (n * 10 + (code c - b'0')) s in
    if leb b'0' (code c) && leb (code c) b'9' then rest else none

-- At least one digit.
natural : String → Option ℕ
unfolding digits
natural s = if s == "" then none else digits 0 s

positive : Option ℕ → Option ℤ
positive none = none
positive (some n) = if ltb n (2 ^ 63) then some (pos n) else none

negative : Option ℕ → Option ℤ
negative none = none
negative (some zero) = some (pos 0)
negative (some (suc n)) = if ltb n (2 ^ 63) then some (negsuc n) else none

-- `parse::<i64>()`: a sign, then digits, within the bounds of an `i64`.
unfoldable pub parse_i64 : String → Option ℤ
unfolding natural positive negative
parse_i64 String.[] = none
parse_i64 (String.◌∷◌ c s) =
    if code c == b'-'
    then negative (natural s)
    else if code c == b'+'
    then positive (natural s)
    else positive (natural (String.◌∷◌ c s))
