-- ===== src/Canon/Number.antt =====
-- `canonicalNumber` and `expandedNumberLength` of core/canon/json.go, on bytes and with the 64-bit
-- arithmetic of the source.
pub mod Length
use provehito.Common.{
  ℕ, zero, suc, ◌+◌, ◌-◌, ◌*◌, ◌^◌, Text, Bool, true, false, not, ◌&&◌, ◌||◌, List, [], ◌∷◌, ◌++◌,
  Option, none, some, length, take, drop, is_empty, nat_eq, ltb, leb, within, if◌then◌else◌,
}
use provehito.Common.Ints.{
  ℤ, pos, negsuc, sub_ℕ, ◌+ℤ◌, ◌-ℤ◌, int64, int_le, is_positive, is_negative,
}
use provehito.Failure.{Error, plain}
use provehito.Failure.Outcome.{Result, ok, err, ◌>>=◌, ◌>>◌, reject_if}

abbrev pub max_expanded_number_bytes : ℕ
max_expanded_number_bytes = 4096

abbrev pub replicate : ℕ → ℕ → Text
replicate zero c = []
replicate (suc n) c = c ∷ replicate n c

-- `strings.TrimLeft(t, "0")` and `strings.TrimRight(t, "0")`.
unfoldable pub trim_left_zeros : Text → Text
trim_left_zeros [] = []
trim_left_zeros (c ∷ t) = let rest = trim_left_zeros t in if nat_eq c b'0' then rest else c ∷ t

unfoldable pub trim_right_zeros : Text → Text
trim_right_zeros [] = []
trim_right_zeros (c ∷ t) =
    let rest = trim_right_zeros t in if nat_eq c b'0' && is_empty rest then [] else c ∷ rest

abbrev pub prepend : ℕ → Option (Text × Text) → Option (Text × Text)
prepend c none = none
prepend c (some (a, b)) = some (c ∷ a, b)

-- The text before the first byte that passes the test and the text after it.
unfoldable pub cut : (ℕ → Bool) → Text → Option (Text × Text)
cut p [] = none
cut p (c ∷ t) = if p c then some ([], t) else prepend c (cut p t)

-- `strconv.ParseInt(t, 10, 64)`: an optional sign, decimal digits, and the range of int64.
unfoldable parse_digits : ℕ → Text → Option ℕ
parse_digits n [] = some n
parse_digits n (c ∷ t) =
    let rest = parse_digits (n * 10 + (c - b'0')) t in if within b'0' b'9' c then rest else none

abbrev at_most : ℕ → (ℕ → ℤ) → Option ℕ → Option ℤ
at_most bound f none = none
at_most bound f (some n) = if leb n bound then some (f n) else none

unfoldable pub parse_int : Text → Option ℤ
unfolding parse_digits
parse_int [] = none
parse_int (c ∷ t) =
    if nat_eq c b'-'
    then (if is_empty t then none else at_most (2 ^ 63) (λ n. sub_ℕ 0 n) (parse_digits 0 t))
    else if nat_eq c b'+'
    then (if is_empty t then none else at_most (2 ^ 63 - 1) pos (parse_digits 0 t))
    else at_most (2 ^ 63 - 1) pos (parse_digits 0 (c ∷ t))

abbrev exponent_error : Error
exponent_error = plain "number exponent exceeds canonical expansion limit"

abbrev pub expansion_error : Error
expansion_error = plain "number exceeds canonical expansion limit"

abbrev pub is_exponent_mark : ℕ → Bool
is_exponent_mark c = nat_eq c b'e' || nat_eq c b'E'

abbrev pub is_point : ℕ → Bool
is_point c = nat_eq c b'.'

abbrev exponent_or_error : Text → Option ℤ → Result (ℤ × Text)
exponent_or_error before none = err exponent_error
exponent_or_error before (some e) = ok (e, before)

abbrev pub exponent_of : Text → Option (Text × Text) → Result (ℤ × Text)
exponent_of input none = ok (pos 0, input)
exponent_of input (some (before, after)) = exponent_or_error before (parse_int after)

-- The exponent and the number before it.
unfoldable pub split_exponent : Text → Result (ℤ × Text)
unfolding cut parse_int
split_exponent input = exponent_of input (cut is_exponent_mark input)

abbrev pub fraction_of : Text → Option (Text × Text) → Text × Text
fraction_of input none = (input, [])
fraction_of input (some (i, f)) = (i, f)

unfoldable pub split_fraction : Text → Text × Text
unfolding cut
split_fraction input = fraction_of input (cut is_point input)

-- The length of the number written without an exponent.
abbrev pub expanded : ℕ → ℤ → ℤ
expanded digits_length point =
    if int_le (pos digits_length) point
    then point
    else if is_positive point
    then pos (digits_length + 1)
    else int64 (pos 2 -ℤ point +ℤ pos digits_length)

abbrev pub bounded : ℤ → Result ℕ
bounded (negsuc n) = err expansion_error
bounded (pos n) = if ltb max_expanded_number_bytes n then err expansion_error else ok n

-- `expandedNumberLength`; its sums are of int64.
unfoldable pub expanded_number_length : ℕ → ℕ → ℤ → Result ℕ
expanded_number_length sign_length digits_length point =
    bounded (int64 (expanded digits_length point +ℤ pos sign_length))

-- `int(point)` and `int(-point)` where the source has tested the sign.
abbrev magnitude : ℤ → ℕ
magnitude (pos n) = n
magnitude (negsuc n) = suc n

-- The digits with the point at its place: the final switch.
unfoldable pub place_point : Text → ℤ → Text
place_point digits point =
    if int_le (pos (length digits)) point
    then digits ++ replicate (magnitude point - length digits) b'0'
    else if is_positive point
    then take (magnitude point) digits ++ b'.' ∷ drop (magnitude point) digits
    else b'0' ∷ b'.' ∷ replicate (magnitude point) b'0' ++ digits

-- The scale after the zeros on the right are dropped, as an int64.
abbrev pub final_scale : ℤ → Text → Text → ℤ
final_scale exponent fraction digits = int64 (
    int64 (exponent -ℤ pos (length fraction))
    +ℤ pos (length digits - length (trim_right_zeros digits)))

abbrev pub exponent_overflows : ℤ → ℤ → ℕ → Bool
exponent_overflows scale point digits_length =
    (is_positive scale && not (int_le (pos digits_length) point))
    || (is_negative scale && not (int_le point (pos digits_length)))

-- The part of `canonicalNumber` from the trimmed digits on.
unfoldable pub expand : Text → Text → ℤ → Result Text
unfolding place_point expanded_number_length
expand sign digits scale = do
  let point = int64 (pos (length digits) +ℤ scale)
  reject_if (exponent_overflows scale point (length digits)) exponent_error
  n ← expanded_number_length (length sign) (length digits) point
  reject_if (ltb max_expanded_number_bytes n) expansion_error
  ok (sign ++ place_point digits point)

-- `digits := strings.TrimLeft(integer+fraction, "0")`, and zero as "0".
unfoldable pub number_from : Text → ℤ → Text → Text → Result Text
unfolding expand trim_left_zeros trim_right_zeros
number_from sign exponent integer fraction =
    let digits = trim_left_zeros (integer ++ fraction) in
    if is_empty digits
    then ok (b'0' ∷ [])
    else expand sign (trim_right_zeros digits) (final_scale exponent fraction digits)

unfoldable pub unsigned_number : Text → Text → Result Text
unfolding number_from split_exponent split_fraction
unsigned_number sign input = do
  (exponent, mantissa) ← split_exponent input
  let (integer, fraction) = split_fraction mantissa
  number_from sign exponent integer fraction

-- `canonicalNumber`
unfoldable pub canonical_number : Text → Result Text
unfolding unsigned_number
canonical_number [] = unsigned_number [] []
canonical_number (c ∷ t) =
    if nat_eq c b'-' then unsigned_number (b'-' ∷ []) t else unsigned_number [] (c ∷ t)
