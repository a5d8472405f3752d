-- ===== src/Config/Numbers.antt =====
-- Integers and their decimal texts (Go's int, strconv.Atoi, strconv.ParseBool), and the bits of a float64.
use Prim.Native.Char.{code}
use Prim.Native.String.{String, slice, ◌++◌}
use mxlrc_go.Common.{
  ◌/◌, ◌%◌, zero, ℕ, suc, ◌+◌, ◌-◌, ◌*◌, ◌^◌, Bool, true, false, ◌&&◌, ◌||◌, leb, ltb, ◌==◌, Option,
  none, some, text_eq, if◌then◌else◌,
}

-- `negsuc n` is -(n + 1).
pub data ℤ : Type 0 where
  pos negsuc : ℕ → ℤ

abbrev is_digit : ℕ → Bool
is_digit c = leb 48 c && leb c 57

-- The value of the digits so far is `n`.
digits : ℕ → String → Option ℕ
digits n String.[] = some n
digits n (String.◌∷◌ c s) =
    let rest = digits (n * 10 + (code c - 48)) s in if is_digit (code c) then rest else none

some_digits : String → Option ℕ
some_digits String.[] = none
some_digits (String.◌∷◌ c s) = digits 0 (String.◌∷◌ c s)

abbrev positive : Option ℕ → Option ℤ
positive none = none
positive (some n) = if ltb n (2 ^ 63) then some (pos n) else none

abbrev negated : ℕ → ℤ
negated zero = pos 0
negated (suc n) = negsuc n

abbrev negative : Option ℕ → Option ℤ
negative none = none
negative (some n) = if leb n (2 ^ 63) then some (negated n) else none

-- strconv.Atoi on a 64-bit int
unfoldable pub atoi : String → Option ℤ
unfolding digits some_digits
atoi String.[] = none
atoi (String.◌∷◌ c s) =
    let signless = positive (some_digits (String.◌∷◌ c s)) in
    let plus = positive (some_digits s) in
    let minus = negative (some_digits s) in
    if code c == 43 then plus else if code c == 45 then minus else signless

unfoldable pub parse_bool : String → Option Bool
parse_bool s =
    if text_eq s "1"
      || text_eq s "t"
      || text_eq s "T"
      || text_eq s "true"
      || text_eq s "TRUE"
      || text_eq s "True"
    then some true
    else if text_eq s "0"
        || text_eq s "f"
        || text_eq s "F"
        || text_eq s "false"
        || text_eq s "FALSE"
        || text_eq s "False"
    then some false
    else none

-- The bits of 1.0, of +Inf and of -0.0; a bit pattern above that of an infinity of its sign is NaN.
abbrev pub one_bits : ℕ
one_bits = 4607182418800017408

abbrev pub infinity_bits : ℕ
infinity_bits = 9218868437227405312

abbrev pub sign_bit : ℕ
sign_bit = 9223372036854775808

-- x <= 0 || x > 1, which is false of NaN.
unfoldable pub out_of_unit : ℕ → Bool
out_of_unit b =
    (b == 0)
    || (ltb one_bits b && leb b infinity_bits)
    || (leb sign_bit b && leb b (sign_bit + infinity_bits))

abbrev digit : ℕ → String
digit d = slice "0123456789" d (d + 1)

-- The digits of `n` before `after`; a number has fewer digits than its value and one more.
decimal_digits : (fuel : ℕ) → ℕ → String → String
decimal_digits zero n after = after
decimal_digits (suc fuel) n after =
    let rest = decimal_digits fuel (n / 10) (digit (n % 10) ++ after) in
    if ltb n 10 then digit n ++ after else rest

-- strconv.Itoa
unfoldable pub itoa : ℤ → String
unfolding decimal_digits
itoa (pos n) = decimal_digits (suc n) n ""
itoa (negsuc n) = "-" ++ decimal_digits (suc (suc n)) (suc n) ""
