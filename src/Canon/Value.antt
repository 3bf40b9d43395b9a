-- ===== src/Canon/Value.antt =====
-- The values of core/canon/json.go and `writeValue`. `encoding/json` gives the tokens of the
-- decoder and the quoted form of a string; both are parameters.
use provehito.Common.{Text, text, Bool, true, false, List, [], ◌∷◌, ◌++◌, map}
use provehito.Common.Sorting.{sort, text_le}
use provehito.Failure.{Error}
use provehito.Failure.Outcome.{Result, ok, ◌>>=◌}
use provehito.Canon.Number.{canonical_number}

-- What `json.Decoder.Token` returns, with numbers kept as their text; `bad` is its error. The end
-- of the list is the end of the input.
pub data Token : Type 0 where
  open_object close_object open_array close_array null_token : Token
  bool_token : Bool → Token
  string_token number_token : Text → Token
  bad : Error → Token

mutual
  pub data Value : Type 0 where
    null : Value
    boolean : Bool → Value
    string number : Text → Value
    array : Items → Value
    object : Fields → Value

  pub data Items : Type 0 where
    nil : Items
    cons : Value → Items → Items

  -- A Go map with the keys in the order of the input; no key stands in it twice.
  pub data Fields : Type 0 where
    end : Fields
    field : Text → Value → Fields → Fields

-- `strings.Join(parts, ",")`, as the loops of the writer lay out.
abbrev pub join : List Text → Text
join [] = []
join (p ∷ []) = p
join (p ∷ q ∷ ps) = p ++ b',' ∷ join (q ∷ ps)

abbrev pub sequence {ℓ} : {A : Type ℓ} → List (Result A) → Result (List A)
sequence [] = ok []
sequence (r ∷ rs) = do a ← r; rest ← sequence rs; ok (a ∷ rest)

-- A key with the text of its value, or the error of writing that.
abbrev pub Part : Type 0
Part = Text × Result Text

abbrev pub part_le : Part → Part → Bool
part_le p q = text_le p.0 q.0

module _ (quote : Text → Text) where
  abbrev pub entry : Part → Result Text
  entry (k, r) = do t ← r; ok (quote k ++ b':' ∷ t)

  -- The object writer: its keys in `sort.Strings` order.
  unfoldable pub write_object : List Part → Result Text
  unfolding sort text_le
  write_object parts = do
    es ← sequence (map entry (sort part_le parts))
    ok (b'{' ∷ join es ++ b'}' ∷ [])

  unfoldable mutual
    unfolding write_object text canonical_number

    -- `writeValue`
    pub write_value : Value → Result Text
    write_value null = ok (text "null")
    write_value (boolean true) = ok (text "true")
    write_value (boolean false) = ok (text "false")
    write_value (string t) = ok (quote t)
    write_value (number t) = canonical_number t
    write_value (array xs) = do es ← sequence (write_items xs); ok (b'[' ∷ join es ++ b']' ∷ [])
    write_value (object fs) = write_object (write_fields fs)

    write_items : Items → List (Result Text)
    write_items nil = []
    write_items (cons v xs) = write_value v ∷ write_items xs

    pub write_fields : Fields → List Part
    write_fields end = []
    write_fields (field k v fs) = (k, write_value v) ∷ write_fields fs
