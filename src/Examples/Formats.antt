-- ===== src/Examples/Formats.antt =====
-- Canonical JSON, Git's output and exit codes.
use mathlib.Core.List.Perm
use provehito.Common.{
  Text, text, List, [], ◌∷◌, true, false, some, ◌≡◌, ◌≤◌, ◌<◌, ◌^◌, ◌↔◌, refl, arith, length,
}
use provehito.Common.Ints.{int64, ◌+ℤ◌, ◌-ℤ◌, int_le}
use provehito.Failure.{Error, integrity, new, wrapped, code_for}
use provehito.Failure.Outcome.{ok}
use provehito.Canon.Number.{canonical_number, max_expanded_number_bytes}
use provehito.Canon.Number.Length.{length-canonical_number-le}
use provehito.Canon.Parser.{parse_value, parse_fields}
use provehito.Failure.Fuel.{done, Ends}
use provehito.Canon.Value.{
  open_object, Token, string_token, null_token, close_object, Fields, end, field, object, boolean,
  null, write_value,
}
use provehito.Canon.Keys.{
  HasDistinctKeys, fields_list, write_value-object_perm, parse_fields-HasDistinctKeys, AreNew,
}
use provehito.Canon.Fuel.{parse_value-fuel}
use provehito.Release.{Finding}
use provehito.Fingerprint.Status.{parse_status}
use provehito.Fingerprint.Clean.{parse_status-clean_iff}

abbrev some_error : Error
some_error = wrapped "close lane" (new integrity "manifest load")

integrity_code : code_for integrity ≡ some 60
unfolding code_for
integrity_code = refl

parse_status-clean_iff_example : (parse_status (text "?? a") ≡ ok false) ↔ (text "?? a" ≡ [])
parse_status-clean_iff_example = parse_status-clean_iff (text "?? a")

number_expands : canonical_number (text "1.50e1") ≡ ok (text "15")
unfolding canonical_number text int64 ◌+ℤ◌ ◌-ℤ◌ int_le
number_expands = refl

short_number : length (text "1.50e1") < 2 ^ 62
unfolding text
short_number = omega arith

length-canonical_number-le_example : length (text "15") ≤ max_expanded_number_bytes
length-canonical_number-le_example =
    length-canonical_number-le (text "1.50e1") (text "15") short_number number_expands

abbrev fields_ab : Fields
fields_ab = field (text "a") null (field (text "ab") (boolean true) end)

abbrev fields_ba : Fields
fields_ba = field (text "ab") (boolean true) (field (text "a") null end)

abbrev bare : Text → Text
bare t = t

ab_HasDistinctKeys : HasDistinctKeys (fields_list fields_ab)
unfolding text
ab_HasDistinctKeys = (((λ e. cc), tt), (tt, tt))

write_value-object_perm_example :
    write_value bare (object fields_ab) ≡ write_value bare (object fields_ba)
write_value-object_perm_example =
    write_value-object_perm bare fields_ab fields_ba ab_HasDistinctKeys
      (Perm.swap (text "ab", boolean true) (text "a", null) [])

abbrev tokens : List Token
tokens = string_token (text "a") ∷ null_token ∷ close_object ∷ []

tokens_parse : parse_fields 9 [] tokens ≡ done (field (text "a") null end, [])
unfolding parse_fields text
tokens_parse = refl

parse_fields-HasDistinctKeys_example :
    HasDistinctKeys (fields_list (field (text "a") null end))
    × AreNew [] (field (text "a") null end)
parse_fields-HasDistinctKeys_example =
    parse_fields-HasDistinctKeys 9 [] tokens [] (field (text "a") null end) tokens_parse

abbrev value_tokens : List Token
value_tokens = open_object ∷ string_token (text "a") ∷ null_token ∷ close_object ∷ []

parse_value-fuel_example :
    Ends (parse_value 20 value_tokens) × (parse_value 20 value_tokens ≡ parse_value 9 value_tokens)
parse_value-fuel_example = parse_value-fuel 20 value_tokens (omega arith)

abbrev denied : Finding
denied = record { rule = text "private-denylist"; path = text "a" }

abbrev nul : Finding
nul = record { rule = text "nul-content"; path = text "b" }
