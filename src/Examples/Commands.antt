-- ===== src/Examples/Commands.antt =====
-- A state root whose directories are there, and a workspace beside it.
use provehito.Common.{
  subst, nat_eq, Text, text, Bool, true, false, [], ◌∷◌, ◌≡◌, refl, ap, ◌==◌, if◌then◌else◌, sym,
  ◌∙◌,
}
use provehito.Failure.{plain}
use provehito.Failure.Outcome.{Result, ok, err, ok-injective}
use provehito.Workspace.Paths.{Files, Presence, exists, absent, broken}
use provehito.Evidence.Disk.{FileMode}
use provehito.Evidence.Kept.{IsKept, IsKept-refl, Nowhere}
use provehito.Evidence.Parents.{IsPrivateDir}
use provehito.Command.State.{Host, init, lanes_path}
use provehito.Command.Initialised.{IsMaking, init-lanes_path}
use provehito.Examples.Disks.{os, stat, disk-IsLawful}

abbrev mode_of : Text → FileMode
mode_of t = record {
  symlink = false;
  directory = true;
  regular = false;
  perm = if t == text "/s" then 1 else if t == text "/w" then 2 else 3;
}

abbrev pub paths : Files FileMode
paths = record {
  abs = λ t. ok t;
  clean = λ t. t;
  join = λ a b. a;
  dir = λ t. text "/";
  base = λ t. t;
  rel = λ a b. ok (text "../x");
  is_abs = λ t. true;
  lstat = λ t. exists (mode_of t);
  stat = λ t. exists (mode_of t);
  eval_symlinks = λ t. ok t;
  same_file = λ a b. nat_eq a.perm b.perm;
}

abbrev make_at : Presence FileMode → Bool → Result Bool
make_at (exists m) w = ok w
make_at _ w = err (plain "not made")

abbrev host : Host Bool
host = record {
  os = os;
  paths = λ w. paths;
  mkdir_all = λ w p n. make_at (stat w p) w;
  file_exists = plain "file exists";
}

make_at-same : (p : Presence FileMode) (w v : Bool) → make_at p w ≡ ok v → w ≡ v
make_at-same (exists m) w v h = ok-injective h
make_at-same (absent e) w v h = cc
make_at-same (broken e) w v h = cc

host-IsMaking : IsMaking host
host-IsMaking = record {
  mkdir_made = λ w v p h. cc;
  mkdir_all_made = λ w v p n e h i.
      let fails : err (plain "not made") ≡ ok v = sym (ap (λ x. make_at x w) i) ∙ h in cc;
  mkdir_all_kept = λ w v p n h.
      subst (IsKept os Nowhere w) (make_at-same (stat w p) w v h) (IsKept-refl os Nowhere w);
}

initialised : init host false (text "/s") (text "/w") ≡ ok false
unfolding init text ◌==◌
initialised = refl

init-lanes_path_example :
    (lanes_path host false (text "/s") ≡ ok (os.join (text "/s" ∷ text "lanes" ∷ [])))
    × IsPrivateDir os false (os.join (text "/s" ∷ text "evidence" ∷ []))
    × IsKept os Nowhere false false
init-lanes_path_example =
    init-lanes_path host disk-IsLawful host-IsMaking false false (text "/s") (text "/w") initialised
