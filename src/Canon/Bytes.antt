-- ===== src/Canon/Bytes.antt =====
-- `Bytes` and `HashJSON` of core/canon/json.go.
use provehito.Common.{◌+◌, suc, Text, List, [], ◌∷◌, length}
use provehito.Failure.{plain, wrapped}
use provehito.Failure.Outcome.{Result, ok, err, ◌>>=◌, or_else}
use provehito.Failure.Fuel.{result}
use provehito.Canon.Value.{Token, bad, Value, write_value}
use provehito.Canon.Parser.{parse_value}

-- What the program takes from `encoding/json` and `crypto/sha256`: the decoder's tokens, the quoted
-- form of a string, and the hash of a text in lower-case hexadecimal digits.
pub record Json : Type 0 where
  pub tokens : Text → List Token
  pub quote : Text → Text
  pub sha256 : Text → Text

-- After the value nothing may follow: `dec.Decode(&extra)` has to see the end of the input.
abbrev only_value : Value × List Token → Result Value
only_value (v, []) = ok v
only_value (v, bad e ∷ ts) = err (wrapped "canonical JSON: trailing data" e)
only_value (v, t ∷ ts) = err (plain "canonical JSON: multiple top-level values")

module _ (json : Json) where
  open json use {tokens, quote, sha256}

  -- `Bytes`, on more fuel than twice the number of tokens.
  unfoldable pub canonical_bytes : Text → Result Text
  unfolding parse_value write_value
  canonical_bytes input = do
    r ←
        or_else (wrapped "canonical JSON") (
          result (parse_value (suc (length (tokens input) + length (tokens input))) (tokens input)))
    v ← only_value r
    or_else (wrapped "canonical JSON") (write_value quote v)

  -- `HashJSON`
  unfoldable pub hash_json : Text → Result Text
  unfolding canonical_bytes
  hash_json input = do b ← canonical_bytes input; ok (sha256 b)
