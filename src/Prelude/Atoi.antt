-- ===== src/Prelude/Atoi.antt =====
-- strconv.Atoi, and ParseInt in base 10: a sign, decimal digits, and the range of int64.
use Prim.Native.Char.{code}
use xk6_otel_gen.Prelude.{
  ℕ, ◌+◌, ◌-◌, ◌*◌, ◌^◌, String, Option, none, some, ◌&&◌, ltb, leb, ◌==◌, if◌then◌else◌,
}
use xk6_otel_gen.Prelude.Int.{ℤ, pos, sub_ℕ}

-- The digits of a decimal number, most significant first.
unfoldable read_digits : ℕ → String → Option ℕ
read_digits n String.[] = some n
read_digits n (String.◌∷◌ c s) =
    let rest = read_digits (n * 10 + (code c - b'0')) s in
    if leb b'0' (code c) && leb (code c) b'9' then rest else none

unfoldable digits_of : String → Option ℕ
unfolding read_digits
digits_of String.[] = none
digits_of s = read_digits 0 s

unfoldable in_range : Option ℕ → Option ℤ
in_range none = none
in_range (some n) = if ltb n (2 ^ 63) then some (pos n) else none

unfoldable negative_in_range : Option ℕ → Option ℤ
negative_in_range none = none
negative_in_range (some n) = if leb n (2 ^ 63) then some (sub_ℕ 0 n) else none

-- strconv.Atoi.
unfoldable pub atoi : String → Option ℤ
unfolding digits_of in_range negative_in_range
atoi String.[] = none
atoi (String.◌∷◌ c s) =
    if code c == b'-'
    then negative_in_range (digits_of s)
    else if code c == b'+'
    then in_range (digits_of s)
    else in_range (digits_of (String.◌∷◌ c s))
