-- ===== src/Manifest/Swap.antt =====
-- What a change of a stored manifest has checked: compare-and-swap, immutability and bounds.
use provehito.Common.{
  ◌∷◌, ℕ, suc, ◌≤◌, Text, Bool, true, false, not, ◌&&◌, ◌||◌, [], is_empty, length, take, nat_eq,
  ltb, ◌==◌, eq_iff, ◌≡◌, ◌≢◌, refl, sym, ◌∙◌, ap, subst, arith, not-false,
}
use provehito.Common.Ints.{is_negative, int_le, pos}
use provehito.Failure.{plain, new, wrap, usage_or_schema, integrity}
use provehito.Failure.Outcome.{
  ok, reject_if, or_else, >>=-eq-ok, >>-eq-ok, reject_if-ok, ok-injective, or_else-ok,
}
use provehito.Lifecycle.{Event, Snapshot, apply}
use provehito.Manifest.Model.{Manifest, lane_snapshot}
use provehito.Manifest.Normalize.{Library, normalize}
use provehito.Manifest.Validate.{validate, validate_update}
use provehito.Manifest.Update.{IsImmutable, validate_update_iff}
use provehito.Manifest.Store.{
  entry, max_manifest_bytes, read_manifest_file, Disk, load, update, stamped,
}
use provehito.Manifest.Ops.{ExpectedHash, check, moved_to, apply_event}

module _ {World : Type 0} (lib : Library) (disk : Disk World) (path : Text) (w : World)
    (now : Text) where
  -- The manifest on the disk has the expected hash, the manifest written is valid and changes
  -- nothing immutable, and what is written is its canonical bytes.
  pub record IsSwap (expected : Text) (m : Manifest) (after : World) (hash : Text) : Type 0 where
    pub current : Manifest
    pub written : Manifest
    pub bytes : Text
    pub given : expected ≢ []
    pub loaded : load lib disk path w ≡ ok (current, expected)
    pub normalized : normalize lib (stamped lib disk path current now m) ≡ ok (written, bytes, hash)
    pub immutable : IsImmutable current written
    pub valid : validate lib written ≡ ok tt
    pub stored : disk.write_atomic w bytes ≡ ok after

  -- A successful `Update` is a compare-and-swap of the manifest on the disk.
  pub update-IsSwap :
      (expected : Text) (m : Manifest) {after : World} {hash : Text}
      → update lib disk path w now expected m ≡ ok (after, hash)
      → IsSwap expected m after hash
  unfolding update
  update-IsSwap expected m h =
      let (_, h1) =
        >>-eq-ok
          (reject_if (is_empty expected) (new integrity "manifest update missing prior hash")) _
          h in
      let (_, h2) = >>-eq-ok (or_else (wrap integrity "manifest update lock") (disk.lock w)) _ h1 in
      let (current, c, h3) = >>=-eq-ok (load lib disk path w) _ h2 in
      let (s, h4) =
        >>-eq-ok
          (reject_if (not (current.1 == expected))
            (new integrity "manifest update stale prior hash"))
          _ h3 in
      let (written, n, h5) =
        >>=-eq-ok
          (or_else (wrap usage_or_schema "manifest update")
            (normalize lib (stamped lib disk path current.0 now m)))
          _ h4 in
      let (v, h6) = >>-eq-ok (validate_update lib current.1 current.0 written.0) _ h5 in
      let (k, h7) = >>-eq-ok (validate lib written.0) _ h6 in
      let (after, d, h8) = >>=-eq-ok (disk.write_atomic w written.1) _ h7 in
      let e = ok-injective h8 in
      let same : current.1 ≡ expected =
        (eq_iff current.1 expected).0 (not-false _ (reject_if-ok _ _ s)) in
      let (hh, i) = (validate_update_iff lib current.1 current.0 written.0).0 v in
      record {
        current = current.0;
        written = written.0;
        bytes = written.1;
        given = λ p. hh.nonempty (same ∙ p);
        loaded = c ∙ ap (λ x. ok (current.0, x)) same;
        normalized = or_else-ok _ _ n ∙ ap (λ x. ok (written.0, written.1, x)) (ap (λ x. x.1) e);
        immutable = i;
        valid = k;
        stored = d ∙ ap (λ x. ok (x.0)) e;
      }

  -- What a successful `Apply` has done: the lane was loaded, the caller's hash was that of the
  -- lane where it was given, the event was allowed, and the manifest with the event's state was swapped in.
  pub record IsApplied (expected : ExpectedHash) (event : Event) (mutate : Manifest → Manifest)
      (after : World) (m : Manifest) (hash : Text) : Type 0 where
    pub before : Manifest
    pub prior : Text
    pub snapshot : Snapshot
    pub loaded : load lib disk path w ≡ ok (before, prior)
    pub matched : expected.value ≢ [] → expected.value ≡ prior
    pub needed : expected.required ≡ true → expected.value ≢ []
    pub allowed : apply (lane_snapshot before) event ≡ ok snapshot
    pub result : m ≡ mutate (moved_to before snapshot)
    pub swapped : IsSwap prior m after hash

  check_iff :
      (e : ExpectedHash) (hash : Text)
      → check e hash ≡ ok tt
      → (e.value ≢ [] → e.value ≡ hash) × (e.required ≡ true → e.value ≢ [])
  unfolding check
  check_iff e hash h =
      let (a, h1) =
        >>-eq-ok
          (reject_if (e.required && is_empty e.value)
            (new integrity "expected prior hash required"))
          _ h in
      (given e.value hash (reject_if-ok _ _ h1), required e.required e.value (reject_if-ok _ _ a))
    where
      given : (v hash : Text) → (not (is_empty v) && not (v == hash)) ≡ false → v ≢ [] → v ≡ hash
      given [] hash g n = absurd (n refl)
      given (c ∷ v) hash g n = (eq_iff (c ∷ v) hash).0 (not-false _ g)

      required : (b : Bool) (v : Text) → (b && is_empty v) ≡ false → b ≡ true → v ≢ []
      required b [] g k = absurd (ground arith)
      required b (c ∷ v) g k = λ p. cc

  -- A successful `Apply` swaps in the manifest that the allowed event leads to.
  pub apply_event-IsApplied :
      (expected : ExpectedHash) (event : Event) (mutate : Manifest → Manifest) {after : World}
      {m : Manifest} {hash : Text}
      → apply_event lib disk path w now expected event mutate ≡ ok (after, m, hash)
      → IsApplied expected event mutate after m hash
  unfolding apply_event
  apply_event-IsApplied expected event mutate {after} {m} {hash} h =
      let (loaded, l, h1) = >>=-eq-ok (load lib disk path w) _ h in
      let (c, h2) = >>-eq-ok (check expected loaded.1) _ h1 in
      let (s, a, h3) = >>=-eq-ok (apply (lane_snapshot loaded.0) event) _ h2 in
      let (written, u, h4) =
        >>=-eq-ok (update lib disk path w now loaded.1 (mutate (moved_to loaded.0 s))) _ h3 in
      let e = ok-injective h4 in
      let (matched, needed) = check_iff expected loaded.1 c in
      let result = ap (λ x. x.1) e in
      record {
        before = loaded.0;
        prior = loaded.1;
        snapshot = s;
        loaded = l;
        matched = matched;
        needed = needed;
        allowed = a;
        result = sym result;
        swapped =
            subst (λ x. IsSwap loaded.1 x after hash) result
              (update-IsSwap loaded.1 (mutate (moved_to loaded.0 s))
                (u ∙ ap ok (ap (λ x. (x.0, x.2)) e)));
      }

at_most : (n max : ℕ) → ltb max n ≡ false → n ≤ max
at_most n max h = ground arith

-- A manifest file that is read has at most the maximum number of bytes.
pub read_manifest_file-bounded :
    {World : Type 0} (disk : Disk World) (w : World) {bytes : Text}
    → read_manifest_file disk w ≡ ok bytes
    → length bytes ≤ max_manifest_bytes
unfolding read_manifest_file
read_manifest_file-bounded disk w h =
    let (info, i, h1) = >>=-eq-ok (entry disk (disk.lstat w)) _ h in
    let (_, h2) =
      >>-eq-ok
        (reject_if (info.symlink || not info.regular || not (nat_eq info.perm 384))
          (plain "manifest file identity or mode"))
        _ h1 in
    let (file, f, h3) = >>=-eq-ok (disk.open_file w) _ h2 in
    let (opened, o, h4) = >>=-eq-ok file.stat _ h3 in
    let (_, h5) =
      >>-eq-ok
        (reject_if (not (nat_eq info.identity opened.identity)) (plain "manifest file identity")) _
        h4 in
    let (_, h6) =
      >>-eq-ok
        (reject_if
          (not opened.regular
            || not (nat_eq opened.perm 384)
            || is_negative opened.size
            || not (int_le opened.size (pos max_manifest_bytes)))
          (plain "manifest file size or identity"))
        _ h5 in
    let (content, c, h7) = >>=-eq-ok file.content _ h6 in
    let (b, h8) =
      >>-eq-ok
        (reject_if (ltb max_manifest_bytes (length (take (suc max_manifest_bytes) content)))
          (plain "manifest file size exceeds maximum"))
        _ h7 in
    let small = reject_if-ok _ _ b in
    subst (λ x. length x ≤ max_manifest_bytes) (ok-injective h8)
      (at_most (length (take (suc max_manifest_bytes) content)) max_manifest_bytes small)
