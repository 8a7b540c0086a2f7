-- ===== src/Text/Number.antt =====
-- Decimal numbers: the verb %d of fmt, and Atoi and ParseInt(s, 10, 64) of strconv.
use libvirt_volume_provision.Base.{
  ℕ, zero, suc, ◌+◌, ◌-◌, ◌*◌, ◌/◌, ◌%◌, ◌^◌, [], ◌∷◌, true, false, ◌&&◌, Option, none, some, ℤ,
  pos, negsuc, sub_ℕ, ltb, leb, ◌==◌, if◌then◌else◌,
}
use libvirt_volume_provision.Text.{Text}

-- Digits are put in front from the last to the first; `fuel` exceeds their number.
unfoldable pub digits : ℕ → ℕ → Text → Text
digits zero n out = out
digits (suc fuel) n out = elim (ltb n 10) [
  | true ↦ (b'0' + n) ∷ out
  | false ↦ digits fuel (n / 10) ((b'0' + n % 10) ∷ out)
]

-- fmt.Sprintf("%d", n)
unfoldable pub format_int : ℤ → Text
unfolding digits
format_int (pos n) = digits (suc n) n []
format_int (negsuc n) = b'-' ∷ digits (suc (suc n)) (suc n) []

unfoldable pub scan_digits : ℕ → Text → Option ℕ
scan_digits n [] = some n
scan_digits n (c ∷ s) =
    if leb b'0' c && leb c b'9' then scan_digits (n * 10 + (c - b'0')) s else none

-- One digit at least.
unfoldable pub scan_unsigned : Text → Option ℕ
unfolding scan_digits
scan_unsigned [] = none
scan_unsigned (c ∷ s) = scan_digits 0 (c ∷ s)

-- A value past the range of int64 is an error.
unfoldable pub in_range : Option ℕ → Option ℤ
in_range none = none
in_range (some n) = if ltb n (2 ^ 63) then some (pos n) else none

unfoldable pub in_range_neg : Option ℕ → Option ℤ
in_range_neg none = none
in_range_neg (some n) = if leb n (2 ^ 63) then some (sub_ℕ 0 n) else none

-- `none` stands for an error: no digits, another byte, or a value out of range.
unfoldable pub parse_int : Text → Option ℤ
unfolding scan_unsigned in_range in_range_neg
parse_int [] = none
parse_int (c ∷ s) =
    if c == b'-'
    then in_range_neg (scan_unsigned s)
    else if c == b'+'
    then in_range (scan_unsigned s)
    else in_range (scan_unsigned (c ∷ s))
