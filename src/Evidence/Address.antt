-- ===== src/Evidence/Address.antt =====
-- What a receipt that the store has read satisfies.
use provehito.Common.{
  not-false, or_left, subst, arith, Bool-cases, Text, true, false, not, ◌||◌, ◌==◌, eq_iff, ◌≡◌,
  ◌↔◌, inl, inr, ◌∙◌, ap,
}
use provehito.Common.Ints.{ℤ, pos, int_eq, int_eq_iff}
use provehito.Failure.{plain, wrap, new, integrity, is_hash, class_of, code_for, Class}
use provehito.Failure.Outcome.{
  ok, reject_if, or_else, >>=-eq-ok, >>-eq-ok, reject_if-ok, or_else-ok, guards_iff, ok-injective,
}
use provehito.Canon.Bytes.{canonical_bytes}
use provehito.Evidence.Receipt.{
  Reference, Receipt, normalize_identity, bad_result, wrong_code, result_success, validate_input,
  input_guards,
}
use provehito.Evidence.Bytes.{
  Library, timestamp_valid, canonical_hash, receipt_bytes, decode_receipt,
}
use provehito.Evidence.Store.{Files, validate_reference, load}

wrong_code-success :
    (c : Class) (code : ℤ) → wrong_code (code_for c) code ≡ false → code ≡ pos 0 → ⊥
unfolding code_for int_eq
wrong_code-success c code h k = ground arith

-- A result that is not bad has exit code zero exactly when its class is SUCCESS.
success_iff :
    (class : Text) (code : ℤ)
    → bad_result class code ≡ false
    → (code ≡ pos 0) ↔ (class ≡ result_success)
unfolding bad_result
success_iff class code h = elim (Bool-cases (class == result_success)) [
  | inl p ↦ (
    λ k. (eq_iff class result_success).0 p,
    λ k. (int_eq_iff code (pos 0)).0 (not-false (int_eq code (pos 0)) (rw p at h)),
  )
  | inr p ↦ (
    λ k. absurd (wrong_code-success (class_of class) code (rw p at h) k),
    λ k. cc (p, (eq_iff class result_success).1 k),
  )
]

-- The receipt passes its validation, has a UTC time, and carries the hash of its own payload.
pub record IsAuthentic (lib : Library) (r : Receipt) : Type 0 where
  pub valid : validate_input r ≡ ok tt
  pub timed : timestamp_valid lib r.timestamp ≡ true
  pub addressed : canonical_hash lib r ≡ ok r.canonical_hash

module _ (lib : Library) where
  receipt_bytes-IsAuthentic :
      (r : Receipt) {b : Text} → receipt_bytes lib r ≡ ok b → IsAuthentic lib r
  unfolding receipt_bytes
  receipt_bytes-IsAuthentic r h =
      let (v, h1) = >>-eq-ok (validate_input r) _ h in
      let (g, h2) =
        >>-eq-ok
          (reject_if (not (timestamp_valid lib r.timestamp) || not (is_hash r.canonical_hash))
            (plain "receipt identity"))
          _ h1 in
      let (want, c, h3) = >>=-eq-ok (canonical_hash lib r) _ h2 in
      let (e, h4) =
        >>-eq-ok (reject_if (not (want == r.canonical_hash)) (plain "receipt canonical hash")) _
          h3 in
      let same : want ≡ r.canonical_hash =
        (eq_iff want r.canonical_hash).0 (not-false _ (reject_if-ok _ _ e)) in
      record {
        valid = v;
        timed = not-false _ (or_left _ _ (reject_if-ok _ _ g));
        addressed = c ∙ ap ok same;
      }

  decode_receipt-IsAuthentic :
      (bytes : Text) {r : Receipt} → decode_receipt lib bytes ≡ ok r → IsAuthentic lib r
  unfolding decode_receipt
  decode_receipt-IsAuthentic bytes h =
      let (canonical, c, h1) =
        >>=-eq-ok
          (or_else (wrap integrity "evidence canonicalize") (canonical_bytes lib.json bytes)) _ h in
      let (e, h2) =
        >>-eq-ok
          (reject_if (not (canonical == bytes)) (new integrity "evidence non-canonical bytes")) _
          h1 in
      let (s, d, h3) =
        >>=-eq-ok (or_else (wrap integrity "evidence decode") (lib.decode_strict canonical)) _ h2 in
      let (t, h4) =
        >>-eq-ok (reject_if (lib.has_trailing canonical) (new integrity "evidence trailing data")) _
          h3 in
      let (b, rb, h5) =
        >>=-eq-ok (or_else (wrap integrity "evidence validate") (receipt_bytes lib s)) _ h4 in
      subst (IsAuthentic lib) (ok-injective h5) (receipt_bytes-IsAuthentic s (or_else-ok _ _ rb))

  module _ {World : Type 0} (files : Files World) where
    -- A receipt that the store loads is authentic, and the reference that names it is the hash of
    -- its payload.
    pub load-IsAuthentic :
        (w : World) (ref : Reference) {r : Receipt}
        → load lib files w ref ≡ ok r
        → IsAuthentic lib r × (canonical_hash lib r ≡ ok ref.hash)
    unfolding load
    load-IsAuthentic w ref h =
        let (path, p, h1) = >>=-eq-ok (validate_reference lib files w ref) _ h in
        let (bytes, b, h2) =
          >>=-eq-ok (or_else (wrap integrity "evidence load") (files.read_private w path)) _ h1 in
        let (s, d, h3) = >>=-eq-ok (decode_receipt lib bytes) _ h2 in
        let (e, h4) =
          >>-eq-ok
            (reject_if (not (s.canonical_hash == ref.hash))
              (new integrity "evidence reference hash"))
            _ h3 in
        let same = (eq_iff s.canonical_hash ref.hash).0 (not-false _ (reject_if-ok _ _ e)) in
        let authentic = decode_receipt-IsAuthentic bytes d in
        subst (λ x. IsAuthentic lib x × (canonical_hash lib x ≡ ok ref.hash)) (ok-injective h4)
          (authentic, authentic.addressed ∙ ap ok same)

-- A receipt whose input validates has exit code zero exactly when its result class is SUCCESS.
pub validate_input-success :
    (r : Receipt)
    → validate_input r ≡ ok tt
    → (r.exit_code ≡ pos 0) ↔ (r.result_class ≡ result_success)
unfolding validate_input input_guards normalize_identity
validate_input-success r h =
    let (_, (_, (_, (_, (_, (f, _)))))) = (guards_iff (input_guards (normalize_identity r))).0 h in
    success_iff r.result_class r.exit_code f
