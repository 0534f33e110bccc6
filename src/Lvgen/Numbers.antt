-- ===== src/Lvgen/Numbers.antt =====
-- What the generator calls of `strconv`: 64-bit integers and their digits.
use go_libvirt.Base.{
  ℕ, zero, suc, ◌+◌, ◌*◌, ◌-◌, ◌/◌, ◌%◌, ◌^◌, ◌==◌, ltb, leb, true, false, ◌&&◌, Option, none, some,
  [], ◌∷◌, if◌then◌else◌,
}
use go_libvirt.Base.Int.{ℤ, pos, negsuc}
use go_libvirt.Base.Text.{Bytes}

-- The digits of a number in front of others, on fuel: no number has more digits than its value and one.
unfoldable pub digits : ℕ → ℕ → Bytes → Bytes
digits zero n s = s
digits (suc fuel) n s = elim (ltb n 10) [
  | true ↦ (b'0' + n) ∷ s
  | false ↦ digits fuel (n / 10) ((b'0' + n % 10) ∷ s)
]

unfoldable pub format_nat : ℕ → Bytes
format_nat n = digits (suc n) n []

-- `strconv.FormatInt(z, 10)`, and `fmt` with `%d`.
unfoldable pub format_int : ℤ → Bytes
format_int (pos n) = format_nat n
format_int (negsuc n) = b'-' ∷ format_nat (suc n)

-- The value of a digit, 36 for any other byte.
abbrev pub digit_value : ℕ → ℕ
digit_value r =
    if leb b'0' r && leb r b'9'
    then r - b'0'
    else if leb b'a' r && leb r b'z'
    then r - b'a' + 10
    else if leb b'A' r && leb r b'Z'
    then r - b'A' + 10
    else 36

unfoldable pub digits_value : ℕ → ℕ → Bytes → Option ℕ
digits_value base n [] = some n
digits_value base n (r ∷ s) =
    let rest = digits_value base (n * base + digit_value r) s in
    if ltb (digit_value r) base then rest else none

-- At least one digit, and nothing else.
unfoldable pub parse_nat : ℕ → Bytes → Option ℕ
parse_nat base [] = none
parse_nat base (r ∷ s) = digits_value base 0 (r ∷ s)

abbrev pub max_int64 : ℕ
max_int64 = 2 ^ 63 - 1

abbrev pub in_range : Option ℕ → Option ℤ
in_range none = none
in_range (some n) = if leb n max_int64 then some (pos n) else none

abbrev pub in_range_negative : Option ℕ → Option ℤ
in_range_negative none = none
in_range_negative (some zero) = some (pos zero)
in_range_negative (some (suc n)) = if leb n max_int64 then some (negsuc n) else none

-- `strconv.ParseInt(s, base, 64)`, whose error is none; `strconv.Atoi` is the same in base 10.
unfoldable pub parse_int : ℕ → Bytes → Option ℤ
parse_int base [] = none
parse_int base (r ∷ s) =
    if r == b'-'
    then in_range_negative (parse_nat base s)
    else if r == b'+'
    then in_range (parse_nat base s)
    else in_range (parse_nat base (r ∷ s))

-- `n++` on an `int64`.
abbrev pub increment : ℤ → ℤ
increment (pos n) = if n == max_int64 then negsuc max_int64 else pos (suc n)
increment (negsuc zero) = pos zero
increment (negsuc (suc n)) = negsuc n
