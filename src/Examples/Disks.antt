-- ===== src/Examples/Disks.antt =====
-- A disk on which a receipt is stored, and the same receipt is added once more.
use provehito.Common.{
  has_prefix, nat_eq_iff, eq_iff, ℕ, Text, text, Bool, true, false, List, [], ◌∷◌, ◌++◌, nat_eq,
  ◌≡◌, ◌≢◌, refl, sym, ◌∙◌, ap, inl, inr, Bool-cases, if◌then◌else◌, ◌==◌,
}
use provehito.Common.Ints.{pos}
use provehito.Failure.{plain}
use provehito.Failure.Outcome.{Result, ok, err, ok-injective}
use provehito.Workspace.Paths.{broken, Presence, exists, absent}
use provehito.Evidence.Disk.{
  root_path, check_parents, read_private_file, ensure_parents, create_linked, Os, FileMode, already,
  store_files,
}
use provehito.Evidence.Store.{load, add}
use provehito.Evidence.Kept.{IsLawful, exists-injective}
use provehito.Evidence.Durable.{load-add}
use provehito.Examples.Lanes.{hash_a}
use provehito.Examples.Receipts.{library, stored, reference}

abbrev root : Text
root = text "/r"

abbrev temporary : Text
temporary = text "/r/.tmp-1"

abbrev join_all : List Text → Text
join_all [] = []
join_all (p ∷ ps) = let rest = join_all ps in text "/" ++ p ++ rest

abbrev receipt_path : Text
receipt_path =
    join_all (root ∷ text "evidence" ∷ text "sha256" ∷ text "aa" ∷ (hash_a ++ text ".json") ∷ [])

abbrev file_mode : FileMode
file_mode = record { symlink = false; directory = false; regular = true; perm = 384 }

abbrev pub dir_mode : FileMode
dir_mode = record { symlink = false; directory = true; regular = false; perm = 448 }

-- The temporary file is there or not, the receipt is a file, and every other path a directory.
abbrev stat_at : (is_temporary present is_receipt : Bool) → Presence FileMode
stat_at true true r = exists file_mode
stat_at true false r = absent (plain "no such file")
stat_at false p true = exists file_mode
stat_at false p false = exists dir_mode

abbrev pub stat : Bool → Text → Presence FileMode
stat present q = stat_at (q == temporary) present (q == receipt_path)

abbrev chmod_at : Presence FileMode → Bool → ℕ → Result Bool
chmod_at (exists m) w n = if nat_eq m.perm n then ok w else err (plain "operation not permitted")
chmod_at _ w n = err (plain "no such file")

abbrev temp_at : Bool → Result (Bool × Text)
temp_at false = ok (true, temporary)
temp_at true = err (plain "file exists")

abbrev remove_at : Bool → Result Bool
remove_at true = ok false
remove_at false = err (plain "no such file")

abbrev pub os : Os Bool
os = record {
  is_abs = λ p. true;
  clean = λ p. p;
  join = join_all;
  dir = λ p. text "/r/evidence";
  base = λ p. p;
  rel = λ p q. ok (text "evidence");
  lstat = stat;
  mkdir = λ w p. already;
  chmod = λ w p n. chmod_at (stat w p) w n;
  open_file = λ w q. ok (record { mode = file_mode; size = pos 4; content = ok (text "true") });
  create_temp = λ w d pattern. temp_at w;
  write_file = λ w t bytes. ok w;
  sync_file = λ w t. ok tt;
  close_file = λ w t. ok tt;
  link = λ w t p. already;
  remove = λ w t. remove_at (t == temporary);
  sync_dir = λ w p. ok tt;
}

regular_at :
    (b w c : Bool) (m : FileMode)
    → stat_at b w c ≡ exists m
    → m.regular ≡ true
    → m.directory ≡ false
regular_at true true c m h r = sym (ap (λ (k : FileMode). k.directory) (exists-injective h))
regular_at true false c m h r = cc
regular_at false w true m h r = sym (ap (λ (k : FileMode). k.directory) (exists-injective h))
regular_at false w false m h r = let e = ap (λ (k : FileMode). k.regular) (exists-injective h) in cc

chmod_if :
    (b : Bool) (w v : Bool)
    → (if b then ok w else err (plain "operation not permitted")) ≡ ok v
    → (v ≡ w) × (b ≡ true)
chmod_if true w v h = (sym (ok-injective h), refl)
chmod_if false w v h = cc

chmod-same :
    (p : Presence FileMode) (w v : Bool) (n : ℕ) (m : FileMode)
    → chmod_at p w n ≡ ok v
    → p ≡ exists m
    → (v ≡ w) × (m.perm ≡ n)
chmod-same (exists k) w v n m h i =
    let (same, e) = chmod_if (nat_eq k.perm n) w v h in
    (same, ap (λ (x : FileMode). x.perm) (sym (exists-injective i)) ∙ (nat_eq_iff k.perm n).0 e)
chmod-same (absent e) w v n m h i = cc
chmod-same (broken e) w v n m h i = cc

temp-made :
    (w v : Bool) (t : Text) → temp_at w ≡ ok (v, t) → (w ≡ false) × (v ≡ true) × (t ≡ temporary)
temp-made true v t h = cc
temp-made false v t h = (
  refl,
  sym (ap (λ (x : Bool × Text). x.0) (ok-injective h)),
  sym (ap (λ (x : Bool × Text). x.1) (ok-injective h)),
)

stat_at-other : (b v w c : Bool) → b ≡ false → stat_at b v c ≡ stat_at b w c
stat_at-other true v w c h = cc
stat_at-other false v w true h = refl
stat_at-other false v w false h = refl

stat-other : (v w : Bool) (q : Text) → q ≢ temporary → stat v q ≡ stat w q
stat-other v w q n =
    stat_at-other (q == temporary) v w (q == receipt_path) (elim (Bool-cases (q == temporary)) [
      | inl e ↦ absurd (n ((eq_iff q temporary).0 e))
      | inr e ↦ e
    ])

remove-if : (b w v : Bool) → remove_at b ≡ ok v → b ≡ true
remove-if true w v h = refl
remove-if false w v h = cc

pub disk-IsLawful : IsLawful os
unfolding ◌==◌ text
disk-IsLawful = record {
  regular_only = λ w q m h r. regular_at (q == temporary) w (q == receipt_path) m h r;
  mkdir_new = λ w v p m h i. cc;
  mkdir_other = λ w v p q h n. cc;
  chmod_mode = λ w v p n m h i l.
      let (e, f) = chmod-same (stat w p) w v n m h i in
      ap (λ x. stat x p) e ∙ i ∙ ap (λ k. exists (record m { perm = k })) f;
  chmod_other =
      λ w v p q n m h i l e. (ap (λ x. stat x q) (chmod-same (stat w p) w v n m h i).0, refl);
  temp_new = λ w v d pattern t m h i.
      let (e, f, g) = temp-made w v t h in
      let gone : absent (plain "no such file") ≡ exists m =
        sym (ap (λ x. stat x temporary) e) ∙ ap (stat w) (sym g) ∙ i in
      cc;
  temp_made = λ w v d pattern t h.
      let (e, f, g) = temp-made w v t h in
      (file_mode, ap (stat v) g ∙ ap (λ x. stat x temporary) f, refl);
  temp_other = λ w v d pattern t q h n.
      let (e, f, g) = temp-made w v t h in (stat-other v w q (λ r. n (r ∙ sym g)), refl);
  write_other = λ w v t bytes q h n. (ap (λ x. stat x q) (sym (ok-injective h)), refl);
  link_new = λ w v t p m h i. cc;
  link_other = λ w v t p q h n. cc;
  remove_other = λ w v t q h n. (
    stat-other v w q (λ r. n (r ∙ sym ((eq_iff t temporary).0 (remove-if (t == temporary) w v h)))),
    refl,
  );
}

receipt_loads : load library (store_files os root) false reference ≡ ok stored
unfolding load text ◌==◌ root_path check_parents has_prefix read_private_file
receipt_loads = refl

receipt_added :
    add library (store_files os root) root false (text "now") stored
    ≡ ok (false, record { name = []; hash = hash_a; path = receipt_path })
unfolding add text ◌==◌ root_path ensure_parents has_prefix create_linked read_private_file
receipt_added = refl

load-add_example : load library (store_files os root) false reference ≡ ok stored
load-add_example =
    load-add os disk-IsLawful library root refl false false (text "now") stored stored
      (record { name = []; hash = hash_a; path = receipt_path }) reference receipt_loads
      receipt_added
