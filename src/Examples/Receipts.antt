-- ===== src/Examples/Receipts.antt =====
-- A stored receipt and how it is read.
use provehito.Common.{Text, text, [], ◌∷◌, true, false, some, ◌≡◌, refl, ◌==◌}
use provehito.Failure.Outcome.{ok}
use provehito.Canon.Bytes.{Json}
use provehito.Canon.Value.{bool_token}
use provehito.Evidence.Receipt.{Reference, Receipt, validate_input}
use provehito.Evidence.Bytes.{Library, canonical_hash}
use provehito.Evidence.Store.{fresh, Files, load}
use provehito.Evidence.Address.{IsAuthentic, load-IsAuthentic}
use provehito.Examples.Lanes.{hash_a, receipt}

abbrev json : Json
json = record { tokens = λ t. bool_token true ∷ []; quote = λ t. t; sha256 = λ t. hash_a }

abbrev pub stored : Receipt
stored = receipt (text "unit") hash_a

abbrev pub library : Library
library = record {
  json = json;
  marshal_payload = λ p. ok (text "true");
  marshal_receipt = λ r. ok (text "true");
  decode_strict = λ t. ok stored;
  has_trailing = λ t. false;
  parse_time = λ t. some (true, t);
}

abbrev files : Files Text
files = record {
  root_path = λ w. ok (text "/r");
  join = λ parts. text "/r/e";
  dir = λ p. text "/r";
  check_parents = λ w p. ok tt;
  ensure_parents = λ w p. ok w;
  read_private = λ w p. ok w;
  create_file = λ w p bytes. fresh (ok bytes);
}

abbrev pub reference : Reference
reference = record { name = []; hash = hash_a; path = [] }

receipt_loads : load library files (text "true") reference ≡ ok stored
unfolding load text ◌==◌
receipt_loads = refl

load-IsAuthentic_example : IsAuthentic library stored × (canonical_hash library stored ≡ ok hash_a)
load-IsAuthentic_example = load-IsAuthentic library files (text "true") reference receipt_loads

stored_validates : validate_input stored ≡ ok tt
unfolding validate_input text ◌==◌
stored_validates = refl
