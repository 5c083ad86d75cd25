-- ===== src/Value/Float.antt =====
-- IEEE doubles by their bit patterns: sign, exponent and significand.
use ha_truenas_ng.Base.{ℕ, ◌+◌, ◌-◌, ◌*◌, ◌/◌, ◌%◌, ◌^◌, Bool, ◌&&◌, eqb, ltb, leb, if◌then◌else◌}
use ha_truenas_ng.Base.Int.{ℤ, pos, sub_ℕ}
use ha_truenas_ng.Result.{Result, ok, err, value_error, overflow_error}

abbrev pub exponent : ℕ → ℕ
exponent bits = bits / 2 ^ 52 % 2 ^ 11

abbrev pub fraction : ℕ → ℕ
fraction bits = bits % 2 ^ 52

-- The significand: a subnormal number lacks the leading one, and has the exponent of 1.
abbrev pub significand : ℕ → ℕ
significand bits = if eqb (exponent bits) 0 then fraction bits else 2 ^ 52 + fraction bits

abbrev pub scale : ℕ → ℕ
scale bits = if eqb (exponent bits) 0 then 1 else exponent bits

-- The integer part of the magnitude.
unfoldable pub whole : ℕ → ℕ
whole bits =
    if ltb (scale bits) 1075
    then significand bits / 2 ^ (1075 - scale bits)
    else significand bits * 2 ^ (scale bits - 1075)

-- Whether the number has no fractional part (`is_integer`); false of nan and the infinities.
unfoldable pub is_whole : ℕ → Bool
is_whole bits =
    if eqb (exponent bits) 2047
    then leb 1 0
    else if ltb (scale bits) 1075
    then eqb (significand bits % 2 ^ (1075 - scale bits)) 0
    else leb 0 1

unfoldable pub signed : ℕ → ℕ → ℤ
signed bits n = if ltb (bits / 2 ^ 63) 1 then pos n else sub_ℕ 0 n

-- `int(x)`: towards zero; of nan a ValueError, of an infinity an OverflowError.
unfoldable pub int_of_float : ℕ → Result ℤ
unfolding whole signed
int_of_float bits =
    if eqb (exponent bits) 2047
    then (if eqb (fraction bits) 0 then err overflow_error else err (value_error "nan"))
    else ok (signed bits (whole bits))

-- `x > 0`: not a zero, not negative, not nan.
unfoldable pub is_positive : ℕ → Bool
is_positive bits = ltb 0 bits && leb bits 0x7ff0000000000000
