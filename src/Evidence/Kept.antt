-- ===== src/Evidence/Kept.antt =====
-- What the calls of the evidence store (core/evidence/store.go) leave as it is on the disk.
use native.Mathlib.Omega.{arith}
use provehito.Common.{
  ℕ, Text, true, false, nat_eq, ◌==◌, eq_iff, ◌≡◌, ◌≢◌, ◌⊎◌, refl, sym, ◌∙◌, ap, subst, inl, inr,
  Bool-cases,
}
use provehito.Failure.{new}
use provehito.Failure.Outcome.{ok}
use provehito.Workspace.Paths.{exists}
use provehito.Evidence.Disk.{Os, FileMode, made, private_dir, is_dir}

pub exists-injective : {m k : FileMode} → exists m ≡ exists k → m ≡ k
exists-injective h = cc

pub text-cases : (s t : Text) → (s ≡ t) ⊎ (s ≢ t)
text-cases s t = elim (Bool-cases (s == t)) [
  | inl h ↦ inl ((eq_iff s t).0 h)
  | inr h ↦ inr (λ e. absurd (cc (h, (eq_iff s t).1 e)))
]

not-dir-file : (m k : FileMode) → is_dir m ≡ true → m ≡ k → is_dir k ≡ false → ⊥
not-dir-file m k d e h = cc (d, ap is_dir e, h)

abbrev pub Nowhere : Text → Type 0
Nowhere q = ⊥

module _ {World : Type 0} (os : Os World) where
  open os use {join, lstat, mkdir, chmod, open_file, create_temp, write_file, link, remove}

  abbrev pub Is : World → Text → FileMode → Type 0
  Is w q m = lstat w q ≡ exists m

  -- The entry at a path is the same on both disks.
  abbrev pub IsSame : World → World → Text → Type 0
  IsSame w v q = (lstat v q ≡ lstat w q) × (open_file v q ≡ open_file w q)

  -- Two paths stand for two entries: none is spelled in two ways, and no file that is written has a second name. What
  -- the manual says of the calls: each changes the entry at the path that it is given and no other, `Mkdir` and
  -- `Link` create only a name that is not there, a temporary file has a new name and is no link, and
  -- `Chmod` changes the permissions of what is no link.
  pub record IsLawful : Type 0 where
    pub regular_only :
        (w : World) (q : Text) (m : FileMode) → Is w q m → m.regular ≡ true → m.directory ≡ false
    pub mkdir_new : (w v : World) (p : Text) (m : FileMode) → mkdir w p ≡ made v → Is w p m → ⊥
    pub mkdir_other : (w v : World) (p q : Text) → mkdir w p ≡ made v → q ≢ p → IsSame w v q
    pub chmod_mode :
        (w v : World) (p : Text) (n : ℕ) (m : FileMode)
        → chmod w p n ≡ ok v
        → Is w p m
        → m.symlink ≡ false
        → Is v p (record m { perm = n })
    pub chmod_other :
        (w v : World) (p q : Text) (n : ℕ) (m : FileMode)
        → chmod w p n ≡ ok v
        → Is w p m
        → m.symlink ≡ false
        → q ≢ p
        → IsSame w v q
    pub temp_new :
        (w v : World) (d pattern t : Text) (m : FileMode)
        → create_temp w d pattern ≡ ok (v, t)
        → Is w t m
        → ⊥
    pub temp_made :
        (w v : World) (d pattern t : Text)
        → create_temp w d pattern ≡ ok (v, t)
        → (m : FileMode) × Is v t m × (m.symlink ≡ false)
    pub temp_other :
        (w v : World) (d pattern t q : Text)
        → create_temp w d pattern ≡ ok (v, t)
        → q ≢ t
        → IsSame w v q
    pub write_other :
        (w v : World) (t bytes q : Text) → write_file w t bytes ≡ ok v → q ≢ t → IsSame w v q
    pub link_new : (w v : World) (t p : Text) (m : FileMode) → link w t p ≡ made v → Is w p m → ⊥
    pub link_other : (w v : World) (t p q : Text) → link w t p ≡ made v → q ≢ p → IsSame w v q
    pub remove_other : (w v : World) (t q : Text) → remove w t ≡ ok v → q ≢ t → IsSame w v q

  -- What has become of a directory: still one, and private if it was.
  pub record IsKeptDir (m : FileMode) (v : World) (q : Text) : Type 0 where
    pub mode : FileMode
    pub there : Is v q mode
    pub directory : is_dir mode ≡ true
    pub private : nat_eq m.perm private_dir ≡ true → nat_eq mode.perm private_dir ≡ true

  -- Every entry but those that are left out: a directory is kept, and a file is the same.
  pub record IsKept (out : Text → Type 0) (w v : World) : Type 0 where
    pub dirs :
        (q : Text) (m : FileMode) → (out q → ⊥) → Is w q m → is_dir m ≡ true → IsKeptDir m v q
    pub files : (q : Text) (m : FileMode) → (out q → ⊥) → Is w q m → is_dir m ≡ false → IsSame w v q

  pub IsKept-refl : (out : Text → Type 0) (w : World) → IsKept out w w
  IsKept-refl out w = record {
    dirs = λ q m n i d. record { mode = m; there = i; directory = d; private = λ e. e };
    files = λ q m n i d. (refl, refl);
  }

  pub IsKept-trans :
      (out : Text → Type 0) (u v w : World) → IsKept out u v → IsKept out v w → IsKept out u w
  IsKept-trans out u v w a b = record {
    dirs = λ q m n i d.
        let k = a.dirs q m n i d in
        let l = b.dirs q k.mode n k.there k.directory in
        record {
          mode = l.mode;
          there = l.there;
          directory = l.directory;
          private = λ e. l.private (k.private e);
        };
    files = λ q m n i d.
        let (s, t) = a.files q m n i d in let (x, y) = b.files q m n (s ∙ i) d in (x ∙ s, y ∙ t);
  }

  -- Where only the paths that are left out may differ.
  pub IsSame-IsKept :
      (out : Text → Type 0) (w v : World)
      → ((q : Text) → (out q → ⊥) → IsSame w v q)
      → IsKept out w v
  IsSame-IsKept out w v h = record {
    dirs = λ q m n i d. record { mode = m; there = (h q n).0 ∙ i; directory = d; private = λ e. e };
    files = λ q m n i d. h q n;
  }

  -- A path at which nothing was need not be left out.
  pub IsKept-unhide :
      (p : Text) (w v : World)
      → ((m : FileMode) → Is w p m → ⊥)
      → IsKept (λ q. q ≡ p) w v
      → IsKept Nowhere w v
  IsKept-unhide p w v new k =
      let other : (q : Text) (m : FileMode) → Is w q m → q ≢ p =
        λ q m i e. new m (subst (λ x. Is w x m) e i) in
      record {
        dirs = λ q m n i d. k.dirs q m (other q m i) i d;
        files = λ q m n i d. k.files q m (other q m i) i d;
      }

  pub IsKept-hide : (p : Text) (w v : World) → IsKept Nowhere w v → IsKept (λ q. q ≡ p) w v
  IsKept-hide p w v k = record {
    dirs = λ q m n i d. k.dirs q m (λ e. e) i d;
    files = λ q m n i d. k.files q m (λ e. e) i d;
  }

  module _ (lawful : IsLawful) where
    pub mkdir-IsKept : (w v : World) (p : Text) → mkdir w p ≡ made v → IsKept Nowhere w v
    mkdir-IsKept w v p h =
        IsKept-unhide p w v (λ m i. lawful.mkdir_new w v p m h i)
          (IsSame-IsKept (λ q. q ≡ p) w v (λ q n. lawful.mkdir_other w v p q h n))

    pub is_dir-plain : (m : FileMode) → is_dir m ≡ true → m.symlink ≡ false
    is_dir-plain m h = ground arith

    -- The chmod of a directory keeps it and makes it private.
    pub chmod-IsKept :
        (w v : World) (p : Text) (m : FileMode)
        → Is w p m
        → is_dir m ≡ true
        → chmod w p private_dir ≡ ok v
        → IsKept Nowhere w v × Is v p (record m { perm = private_dir })
    chmod-IsKept w v p m i d h =
        let plain = is_dir-plain m d in
        let now = lawful.chmod_mode w v p private_dir m h i plain in
        let same : (q : Text) → q ≢ p → IsSame w v q =
          λ q n. lawful.chmod_other w v p q private_dir m h i plain n in
        (
          record {
            dirs = λ q k n j e. elim (text-cases q p) [
              | inl r ↦ record {
                mode = record m { perm = private_dir };
                there = subst (λ x. Is v x (record m { perm = private_dir })) (sym r) now;
                directory = d;
                private = λ s. refl;
              }
              | inr r ↦ record {
                mode = k;
                there = (same q r).0 ∙ j;
                directory = e;
                private = λ s. s;
              }
            ];
            files = λ q k n j e. elim (text-cases q p) [
              | inl r ↦
                  absurd
                    (not-dir-file m k d (exists-injective (sym i ∙ subst (λ x. Is w x k) r j)) e)
              | inr r ↦ same q r
            ];
          },
          now,
        )
