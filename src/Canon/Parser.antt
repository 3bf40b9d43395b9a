-- ===== src/Canon/Parser.antt =====
-- `parseValue` of core/canon/json.go on the tokens of the decoder.
use provehito.Common.{
  ℕ, zero, suc, Text, Bool, true, false, List, [], ◌∷◌, any_of, ◌==◌, if◌then◌else◌,
}
use provehito.Failure.{plain}
use provehito.Failure.Fuel.{Fueled, done, failed, unfinished, ◌>>=◌}
use provehito.Canon.Value.{
  Token, open_object, close_object, open_array, close_array, null_token, bool_token, string_token,
  number_token, bad, Value, null, boolean, string, number, array, object, Items, nil, cons, Fields,
  end, field,
}

-- `dec.More()`
abbrev pub more : List Token → Bool
more [] = false
more (close_object ∷ ts) = false
more (close_array ∷ ts) = false
more (t ∷ ts) = true

-- A token, or the error of `dec.Token()`.
abbrev pub next : List Token → Fueled (Token × List Token)
next [] = failed (plain "EOF")
next (bad e ∷ ts) = failed e
next (t ∷ ts) = done (t, ts)

abbrev pub key_of : Token → Fueled Text
key_of (string_token k) = done k
key_of _ = failed (plain "object key is not a string")

abbrev pub refuse_duplicate : Text → List Text → Fueled (Unit {0})
refuse_duplicate key seen =
    if any_of (λ k. key == k) seen then failed (plain "duplicate object key") else done tt

abbrev pub add_field : Text → Value → Fields × List Token → Fields × List Token
add_field k v (fs, ts) = (field k v fs, ts)

abbrev pub add_item : Value → Items × List Token → Items × List Token
add_item v (xs, ts) = (cons v xs, ts)

abbrev pub as_object : Fields × List Token → Value × List Token
as_object (fs, ts) = (object fs, ts)

abbrev pub as_array : Items × List Token → Value × List Token
as_array (xs, ts) = (array xs, ts)

abbrev pub closing : Token × List Token → List Token
closing (t, ts) = ts

-- `parseValue` with its two loops, on fuel: one for each call and each round. Without fuel it is `unfinished`.
unfoldable mutual
  unfolding any_of

  pub parse_value : ℕ → List Token → Fueled (Value × List Token)
  parse_value zero ts = unfinished
  parse_value (suc f) [] = failed (plain "EOF")
  parse_value (suc f) (open_object ∷ ts) = do r ← parse_fields f [] ts; done (as_object r)
  parse_value (suc f) (open_array ∷ ts) = do r ← parse_items f ts; done (as_array r)
  parse_value (suc f) (close_object ∷ ts) = failed (plain "unexpected delimiter")
  parse_value (suc f) (close_array ∷ ts) = failed (plain "unexpected delimiter")
  parse_value (suc f) (null_token ∷ ts) = done (null, ts)
  parse_value (suc f) (bool_token b ∷ ts) = done (boolean b, ts)
  parse_value (suc f) (string_token t ∷ ts) = done (string t, ts)
  parse_value (suc f) (number_token t ∷ ts) = done (number t, ts)
  parse_value (suc f) (bad e ∷ ts) = failed e

  pub parse_fields : ℕ → List Text → List Token → Fueled (Fields × List Token)
  parse_fields zero seen ts = unfinished
  parse_fields (suc f) seen ts = elim (more ts) [
    | false ↦ (do r ← next ts; done (end, closing r))
    | true ↦ do
      (t, after) ← next ts
      key ← key_of t
      u ← refuse_duplicate key seen
      (v, later) ← parse_value f after
      rest ← parse_fields f (key ∷ seen) later
      done (add_field key v rest)
  ]

  pub parse_items : ℕ → List Token → Fueled (Items × List Token)
  parse_items zero ts = unfinished
  parse_items (suc f) ts = elim (more ts) [
    | false ↦ (do r ← next ts; done (nil, closing r))
    | true ↦ do (v, later) ← parse_value f ts; rest ← parse_items f later; done (add_item v rest)
  ]
