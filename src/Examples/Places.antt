-- ===== src/Examples/Places.antt =====
-- A file system with the directories `/`, `/s` and `/w`.
use native.Mathlib.Omega.{arith}
use provehito.Common.{
  false, ◌↔◌, ℕ, Text, text, [], ◌∷◌, true, some, ◌≡◌, refl, drop, nat_eq, ◌==◌, if◌then◌else◌,
}
use provehito.Failure.{plain}
use provehito.Failure.Outcome.{ok}
use provehito.Workspace.Paths.{Files, exists, absent, canonical_path, validate_separation}
use provehito.Workspace.Separation.{IsSymmetric, IsSeparated, validate_separation-IsSeparated}
use provehito.Workspace.Active.{
  active_workspace_iff, IsActive, lease_record, lease_of, Lease, active_workspace, Mode, Target,
  Platform,
}

abbrev number_of : Text → ℕ
number_of t = if t == text "/s" then 1 else if t == text "/w" then 2 else 3

abbrev files : Files ℕ
files = record {
  abs = λ t. ok t;
  clean = λ t. t;
  join = λ a b. a;
  dir = λ t. text "/";
  base = λ t. t;
  rel = λ a b. ok (text "../x");
  is_abs = λ t. true;
  lstat = λ t. exists (number_of t);
  stat = λ t. exists (number_of t);
  eval_symlinks = λ t. ok t;
  same_file = nat_eq;
}

nat_eq_symm : IsSymmetric files
nat_eq_symm i j = ground arith

separate : validate_separation files (text "/s") (text "/w") ≡ ok tt
unfolding validate_separation text ◌==◌
separate = refl

validate_separation-IsSeparated_example :
    (s : Text) × (w : Text) × (canonical_path files (text "/s") ≡ ok s)
    × (canonical_path files (text "/w") ≡ ok w)
    × IsSeparated files s w
validate_separation-IsSeparated_example =
    validate_separation-IsSeparated files (text "/s") (text "/w") nat_eq_symm separate

-- The same with directories that drop a character and only `c` on the disk.
abbrev shrinking : Files ℕ
shrinking = record files {
  dir = drop 1;
  lstat = λ t. if t == text "c" then exists 0 else absent (plain "file does not exist");
}

abbrev letters : Text
letters = text "abc"

abbrev pub platform : Platform ℕ
platform = record {
  files = files;
  object_of = λ n. some (record { device = 1; inode = n });
  decimal = λ n. n ∷ [];
  hex_sha256 = λ t. t;
}

abbrev place : Target
place = record { lock_path = text "/s"; lease_path = text "/s" }

abbrev pub plain_mode : Mode
plain_mode = record { symlink = false; regular = true }

abbrev pub lease : Lease
lease = lease_of place (
    lease_record (text "lane") 7 (text "t") (text "u") (text "/w")
      (record { device = 1; inode = 2 }))

active_workspace_iff_example :
    (active_workspace platform (λ t. some plain_mode) (some lease) ≡ some (text "/w"))
    ↔ (IsActive platform (λ t. some plain_mode) lease × (text "/w" ≡ lease.identity))
active_workspace_iff_example =
    active_workspace_iff platform (λ t. some plain_mode) lease (text "/w")
