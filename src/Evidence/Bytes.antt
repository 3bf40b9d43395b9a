-- ===== src/Evidence/Bytes.antt =====
-- `payloadBytes`, `canonicalHash`, `receiptBytes` and `decodeReceipt` of core/evidence/receipt.go,
-- and the content of `Add`, `Load` and `Verify` of core/evidence/store.go.
use provehito.Common.{Text, Bool, false, not, ◌&&◌, ◌||◌, [], Option, none, some, ◌==◌}
use provehito.Failure.{plain, wrap, new, usage_or_schema, integrity, is_hash}
use provehito.Failure.Outcome.{Result, ok, ◌>>=◌, ◌>>◌, reject_if, or_else}
use provehito.Canon.Bytes.{Json, canonical_bytes}
use provehito.Evidence.Receipt.{
  Receipt, Payload, clone_receipt, clone_references, payload, validate_input,
}

-- What the receipts take from `encoding/json` and `time`: marshalling, the strict decoder, whether
-- more than the end follows the decoded value, and parsing an RFC3339 text: whether its location is
-- UTC, and how it prints.
pub record Library : Type 0 where
  pub json : Json
  pub marshal_payload : Payload → Result Text
  pub marshal_receipt : Receipt → Result Text
  pub decode_strict : Text → Result Receipt
  pub has_trailing : Text → Bool
  pub parse_time : Text → Option (Bool × Text)

abbrev is_utc : Text → Option (Bool × Text) → Bool
is_utc value none = false
is_utc value (some (utc, printed)) = utc && printed == value

module _ (lib : Library) where
  open lib use {json, marshal_payload, marshal_receipt, decode_strict, has_trailing, parse_time}

  -- `timestampValid`
  unfoldable pub timestamp_valid : Text → Bool
  timestamp_valid value = is_utc value (parse_time value)

  -- `payloadBytes`
  unfoldable payload_bytes : Receipt → Result Text
  unfolding validate_input timestamp_valid payload canonical_bytes
  payload_bytes r = do
    validate_input r
    reject_if (not (timestamp_valid r.timestamp)) (plain "receipt timestamp")
    data_ ← marshal_payload (payload (record r { artifacts = clone_references r.artifacts }))
    canonical_bytes json data_

  -- `canonicalHash`
  unfoldable pub canonical_hash : Receipt → Result Text
  unfolding payload_bytes
  canonical_hash r = do bytes ← payload_bytes r; ok (json.sha256 bytes)

  -- `receiptBytes`
  unfoldable pub receipt_bytes : Receipt → Result Text
  unfolding validate_input timestamp_valid canonical_hash canonical_bytes is_hash
  receipt_bytes r = do
    validate_input r
    reject_if (not (timestamp_valid r.timestamp) || not (is_hash r.canonical_hash))
        (plain "receipt identity")
    want ← canonical_hash r
    reject_if (not (want == r.canonical_hash)) (plain "receipt canonical hash")
    data_ ← marshal_receipt r
    canonical_bytes json data_

  -- `decodeReceipt`
  unfoldable pub decode_receipt : Text → Result Receipt
  unfolding canonical_bytes receipt_bytes
  decode_receipt bytes = do
    canonical ← or_else (wrap integrity "evidence canonicalize") (canonical_bytes json bytes)
    reject_if (not (canonical == bytes)) (new integrity "evidence non-canonical bytes")
    r ← or_else (wrap integrity "evidence decode") (decode_strict canonical)
    reject_if (has_trailing canonical) (new integrity "evidence trailing data")
    b ← or_else (wrap integrity "evidence validate") (receipt_bytes r)
    ok r

  -- `Add` up to the installation of the bytes: the stamped receipt and its bytes.
  unfoldable pub sealed_receipt : Text → Receipt → Result (Receipt × Text)
  unfolding validate_input clone_receipt canonical_hash receipt_bytes
  sealed_receipt now input = do
    or_else (wrap usage_or_schema "evidence receipt") (validate_input input)
    hash ←
        or_else (wrap usage_or_schema "evidence receipt hash")
          (canonical_hash (record (clone_receipt input) { timestamp = now; canonical_hash = [] }))
    bytes ←
        or_else (wrap usage_or_schema "evidence receipt encode")
          (receipt_bytes (record (clone_receipt input) { timestamp = now; canonical_hash = hash }))
    ok (record (clone_receipt input) { timestamp = now; canonical_hash = hash }, bytes)
