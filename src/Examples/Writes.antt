-- ===== src/Examples/Writes.antt =====
-- A manifest that is replaced on a disk that maps paths to bytes.
use provehito.Common.{
  Text, text, false, [], ◌∷◌, ◌++◌, All, ◌==◌, eq_iff, ◌≡◌, ◌≢◌, refl, sym, ◌∙◌, ap, inl, inr,
  Bool-cases, if◌then◌else◌,
}
use provehito.Failure.Outcome.{ok-injective, ok}
use provehito.Manifest.Write.{Calls, link_done, write_atomic}
use provehito.Manifest.Atomic.{IsLawful, IsWhole, write_atomic-IsWhole}

abbrev put : (Text → Text) → Text → Text → Text → Text
put w p bytes q = if q == p then bytes else w q

abbrev calls : Calls (Text → Text) Text
calls = record {
  look = λ w q. w q;
  dir = λ p. text "/s/lanes";
  base = λ p. p;
  contains_separator = λ b. false;
  read_dir = λ w d. ok [];
  create_temp = λ w d pattern. (w, ok pattern);
  chmod = λ w t. (w, ok tt);
  write = λ w t bytes. (put w t bytes, ok tt);
  sync = λ w t. (w, ok tt);
  close = λ w t. (w, ok tt);
  link = λ w t p. (put w p (w t), link_done);
  rename = λ w t p. (put w p (w t), ok tt);
  remove = λ w t. (put w t [], ok tt);
  open_dir = λ w d. ok tt;
  sync_dir = λ w d. ok tt;
  close_dir = λ w d. ok tt;
}

put-other : (w : Text → Text) (p bytes q : Text) → q ≢ p → put w p bytes q ≡ w q
put-other w p bytes q n = elim (Bool-cases (q == p)) [
  | inl e ↦ absurd (n ((eq_iff q p).0 e))
  | inr e ↦ rw e refl
]

put-same : (w : Text → Text) (p bytes : Text) → put w p bytes p ≡ bytes
put-same w p bytes = rw ((eq_iff p p).1 refl) refl

append_assoc : (a b c : Text) → a ++ (b ++ c) ≡ (a ++ b) ++ c
append_assoc [] b c = refl
append_assoc (x ∷ a) b c = ap (λ r. x ∷ r) (append_assoc a b c)

calls-IsLawful : IsLawful calls
unfolding text
calls-IsLawful = record {
  temp_named = λ w d b t h.
      (text "*", sym (ok-injective h) ∙ append_assoc (text "." ++ b) (text ".tmp-") (text "*"));
  temp_failed = λ w d pattern q e h. cc;
  temp_other = λ w d pattern t q h n. refl;
  chmod_other = λ w t q n. refl;
  write_other = λ w t bytes q n. put-other w t bytes q n;
  sync_other = λ w t q n. refl;
  close_other = λ w t q n. refl;
  remove_other = λ w t q n. put-other w t [] q n;
  rename_done = λ w t p h. put-same w p (w t);
  rename_failed = λ w t p e h. cc;
}

abbrev empty_disk : Text → Text
empty_disk q = []

abbrev manifest_path : Text
manifest_path = text "lane.json"

write_atomic-IsWhole_example :
    All
      (IsWhole calls calls-IsLawful empty_disk manifest_path (text "new"))
      (write_atomic calls empty_disk manifest_path (text "new")).states
write_atomic-IsWhole_example =
    write_atomic-IsWhole calls calls-IsLawful empty_disk manifest_path (text "new")
