-- ===== src/Fingerprint/Status.antt =====
-- `parseStatus`, `parseSubmoduleStatus` and `parseObjectID` of core/fingerprint/git.go, on the bytes
-- that Git prints.
use provehito.Common.{
  ℕ, Text, Bool, true, false, not, ◌&&◌, ◌||◌, List, [], ◌∷◌, Option, none, some, length, take,
  drop, is_empty, all_of, any_of, has_byte, nat_eq, ltb, if◌then◌else◌,
}
use provehito.Failure.{Error, plain, is_hex_digit}
use provehito.Failure.Outcome.{Check, Result, ok, err, ◌>>◌, reject_if}

-- `bytes.Split(data, sep)`: one part more than there are separators.
abbrev pub push : ℕ → List Text → List Text
push c [] = (c ∷ []) ∷ []
push c (p ∷ ps) = (c ∷ p) ∷ ps

unfoldable pub split : ℕ → Text → List Text
split sep [] = [] ∷ []
split sep (c ∷ t) = let parts = split sep t in if nat_eq c sep then [] ∷ parts else push c parts

abbrev pub put_back : ℕ → Option (Text × ℕ) → Option (Text × ℕ)
put_back x none = none
put_back x (some (u, l)) = some (x ∷ u, l)

-- The data without its last byte, and that byte.
unfoldable pub last_byte : Text → Option (Text × ℕ)
last_byte [] = none
last_byte (c ∷ []) = some ([], c)
last_byte (c ∷ d ∷ t) = put_back c (last_byte (d ∷ t))

-- `validStatusCode`
unfoldable valid_status_code : ℕ → Bool
valid_status_code c =
    nat_eq c b' '
    || nat_eq c b'M'
    || nat_eq c b'T'
    || nat_eq c b'A'
    || nat_eq c b'D'
    || nat_eq c b'R'
    || nat_eq c b'C'
    || nat_eq c b'U'
    || nat_eq c b'?'
    || nat_eq c b'!'

-- One of the two codes is `c` and the other is not.
abbrev half : ℕ → ℕ → ℕ → Bool
half c x y = (nat_eq x c && not (nat_eq y c)) || (nat_eq y c && not (nat_eq x c))

-- A record is two codes, a space and a path that is not empty.
unfoldable pub malformed_record : Text → Bool
unfolding valid_status_code
malformed_record (x ∷ y ∷ s ∷ path) =
    is_empty path
    || not (nat_eq s b' ')
    || not (valid_status_code x)
    || not (valid_status_code y)
    || (nat_eq x b' ' && nat_eq y b' ')
    || half b'?' x y
    || half b'!' x y
malformed_record _ = true

-- `R` or `C`: the next record is the second path.
unfoldable pub is_move : Text → Bool
is_move (x ∷ y ∷ _) = nat_eq x b'R' || nat_eq x b'C' || nat_eq y b'R' || nat_eq y b'C'
is_move _ = false

abbrev pub malformed : Error
malformed = plain "malformed status record"

abbrev missing_path : Error
missing_path = plain "rename or copy record missing second path"

-- The loop over the records; the flag is `dirty`.
unfoldable pub status_records : Bool → List Text → Result Bool
unfolding malformed_record is_move
status_records dirty [] = ok dirty
status_records dirty (r ∷ []) =
    if malformed_record r then err malformed else if is_move r then err missing_path else ok true
status_records dirty (r ∷ s ∷ rs) =
    let skip = status_records true rs in
    let next = status_records true (s ∷ rs) in
    if malformed_record r
    then err malformed
    else if is_move r
    then (if is_empty s then err missing_path else skip)
    else next

unfoldable pub status_of : Option (Text × ℕ) → Result Bool
unfolding split status_records
status_of none = ok false
status_of (some (body, last)) =
    if not (nat_eq last 0)
    then err (plain "status output is not NUL terminated")
    else status_records false (split 0 body)

-- `parseStatus`: whether the workspace is dirty.
unfoldable pub parse_status : Text → Result Bool
unfolding last_byte status_of
parse_status bytes = status_of (last_byte bytes)

-- `isObjectID`: hexadecimal and lower case.
unfoldable pub is_object_id : Text → Bool
unfolding is_hex_digit all_of
is_object_id t = (nat_eq (length t) 40 || nat_eq (length t) 64) && all_of is_hex_digit t

abbrev is_control : ℕ → Bool
is_control c = ltb c 0x20 || nat_eq c 0x7f

abbrev rest_after : ℕ → Text → Option Text
rest_after n t = elim (drop n t) [
  | [] ↦ none
  | c ∷ path ↦ if nat_eq c b' ' && is_object_id (take n t) then some path else none
]

-- The last byte of a text, if there is one.
abbrev ends_with : ℕ → Option (Text × ℕ) → Bool
ends_with c none = false
ends_with c (some (u, l)) = nat_eq l c

-- `blank t` is `len(bytes.TrimSpace(t)) == 0`, for Unicode white space.
module _ (blank : Text → Bool) where
  abbrev clean_path : Text → Bool
  clean_path path = not (blank path) && not (any_of is_control path)

  abbrev first_of_sizes : Option Text → Option Text → Bool
  first_of_sizes (some path) b = clean_path path
  first_of_sizes none (some path) = clean_path path
  first_of_sizes none none = false

  -- `validSubmoduleLine`: a mark, an object id of 40 or 64 digits, a space and a path.
  unfoldable valid_submodule_line : Text → Bool
  unfolding is_object_id all_of any_of
  valid_submodule_line (mark ∷ c ∷ t) =
      (nat_eq mark b' ' || nat_eq mark b'+' || nat_eq mark b'-' || nat_eq mark b'U')
      && first_of_sizes (rest_after 40 (c ∷ t)) (rest_after 64 (c ∷ t))
  valid_submodule_line _ = false

  abbrev bad_line : Text → Bool
  bad_line line = is_empty line || blank line || not (valid_submodule_line line)

  unfoldable pub submodule_lines : Text → ℕ → Check
  unfolding last_byte has_byte any_of split valid_submodule_line
  submodule_lines body last = do
    reject_if (not (nat_eq last b'\n') || ends_with b'\n' (last_byte body))
        (plain "submodule output must have exactly one final LF")
    reject_if (has_byte 0 body) (plain "submodule output contains NUL")
    reject_if (any_of bad_line (split b'\n' body)) (plain "malformed submodule status line")

  unfoldable pub submodules_of : Option (Text × ℕ) → Result Bool
  unfolding submodule_lines
  submodules_of none = ok false
  submodules_of (some (body, last)) = submodule_lines body last >> ok true

  -- `parseSubmoduleStatus`: whether there is a submodule.
  unfoldable pub parse_submodule_status : Text → Result Bool
  unfolding last_byte submodules_of
  parse_submodule_status bytes = submodules_of (last_byte bytes)

abbrev pub object_id_of : Option (Text × ℕ) → Option Text
object_id_of none = none
object_id_of (some (value, last)) =
    if nat_eq last b'\n' && not (has_byte b'\n' value) && is_object_id value
    then some value
    else none

-- `parseObjectID`: one line that is an object id; `none` where its flag is false.
unfoldable pub parse_object_id : Text → Option Text
unfolding last_byte has_byte is_object_id
parse_object_id bytes = object_id_of (last_byte bytes)
