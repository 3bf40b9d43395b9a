-- ===== src/Manifest/Atomic.antt =====
-- What is at a manifest's path while `writeAtomic` (core/manifest/store.go) runs, wherever it is cut off.
use native.Mathlib.Omega.{arith}
use provehito.Common.{
  String, Text, text, Bool, true, false, List, [], ◌∷◌, ◌++◌, All, length, length-append, any_of,
  has_prefix, ◌≡◌, ◌≢◌, ◌⊎◌, inl, inr, refl, sym, ◌∙◌, ap, if◌then◌else◌,
}
use provehito.Failure.{Error, wrap, new, usage_or_schema, integrity}
use provehito.Failure.Outcome.{Result, Check, ok, err, not-ok-err}
use provehito.Manifest.Write.{
  Calls, Passage, stopped, cleaned, call, after_rename, fill, created_at, bad_base, scanned,
  write_with, write_atomic,
}

longer : (b r : Text) → b ≡ text "." ++ b ++ text ".tmp-" ++ r → ⊥
unfolding text
longer b r h = omega (
  arith,
  ap length h,
  length-append (text "." ++ b ++ text ".tmp-") r,
  length-append (text "." ++ b) (text ".tmp-"),
  length-append (text ".") b,
)

-- The last of the disks that were passed through.
abbrev pub last_of : {World : Type 0} → World → List World → World
last_of w [] = w
last_of w (v ∷ vs) = last_of v vs

module _ {World Entry : Type 0} (calls : Calls World Entry) where
  open calls use {look, dir, base, read_dir, create_temp, chmod, write, sync, close, rename, remove}

  -- What the manual says of the calls: each changes the entry that it is given and no other, the name of a temporary file
  -- begins with its pattern, and a rename puts the file in the place of what was there or, on an error, leaves it there.
  pub record IsLawful : Type 0 where
    pub temp_named :
        (w : World) (d b t : Text)
        → (create_temp w d (text "." ++ b ++ text ".tmp-*")).1 ≡ ok t
        → (r : Text) × (base t ≡ text "." ++ b ++ text ".tmp-" ++ r)
    pub temp_failed :
        (w : World) (d pattern q : Text) (e : Error)
        → (create_temp w d pattern).1 ≡ err e
        → look (create_temp w d pattern).0 q ≡ look w q
    pub temp_other :
        (w : World) (d pattern t q : Text)
        → (create_temp w d pattern).1 ≡ ok t
        → q ≢ t
        → look (create_temp w d pattern).0 q ≡ look w q
    pub chmod_other : (w : World) (t q : Text) → q ≢ t → look (chmod w t).0 q ≡ look w q
    pub write_other : (w : World) (t bytes q : Text) → q ≢ t → look (write w t bytes).0 q ≡ look w q
    pub sync_other : (w : World) (t q : Text) → q ≢ t → look (sync w t).0 q ≡ look w q
    pub close_other : (w : World) (t q : Text) → q ≢ t → look (close w t).0 q ≡ look w q
    pub remove_other : (w : World) (t q : Text) → q ≢ t → look (remove w t).0 q ≡ look w q
    pub rename_done :
        (w : World) (t p : Text) → (rename w t p).1 ≡ ok tt → look (rename w t p).0 p ≡ look w t
    pub rename_failed :
        (w : World) (t p : Text) (e : Error)
        → (rename w t p).1 ≡ err e
        → look (rename w t p).0 p ≡ look w p

  -- A disk on which the temporary file was given the bytes, synced and closed, each without an error.
  pub record IsFilled (bytes : Text) (d : World) (t : Text) : Type 0 where
    pub start : World
    pub private : World
    pub written : World
    pub flushed : World
    pub chmod_ok : chmod start t ≡ (private, ok tt)
    pub write_ok : write private t bytes ≡ (written, ok tt)
    pub sync_ok : sync written t ≡ (flushed, ok tt)
    pub close_ok : close flushed t ≡ (d, ok tt)

  module _ (lawful : IsLawful) (before : World) (path bytes : Text) where
    -- The path holds what it held, or the complete new file.
    abbrev pub IsNew : World → Type 0
    IsNew u = (d : World) × (t : Text) × IsFilled bytes d t × (look u path ≡ look d t)

    abbrev pub IsWhole : World → Type 0
    IsWhole u = (look u path ≡ look before path) ⊎ IsNew u

    abbrev Old : World → Type 0
    Old u = look u path ≡ look before path

    abbrev Good : World → Passage World → Type 0
    Good v p = All IsWhole p.states × (p.result ≡ ok tt → IsNew (last_of v p.states))

    stopped-Good : (v : World) (e : Error) → Good v (stopped e)
    stopped-Good v e = (tt, λ h. absurd (not-ok-err (sym h)))

    cleaned-Good :
        (x v : World) (t : Text) (e : Error) → path ≢ t → Old v → Good x (cleaned calls v t e)
    cleaned-Good x v t e n old =
        let shut = lawful.close_other v t path n ∙ old in
        (
          (inl shut, (inl (lawful.remove_other (close v t).0 t path n ∙ shut), tt)),
          (stopped-Good (remove (close v t).0 t).0 e).1,
        )

    call-Good :
        (x : World) (op : String) (t : Text) (r : World × Check) (next : World → Passage World)
        → path ≢ t
        → Old r.0
        → ((v : World) → r ≡ (v, ok tt) → Old v → Good v (next v))
        → Good x (call calls op t r next)
    call-Good x op t (v, ok u) next n old h = let good = h v refl old in ((inl old, good.0), good.1)
    call-Good x op t (v, err e) next n old h =
        let good = cleaned-Good v v t (wrap integrity op e) n old in ((inl old, good.0), good.1)

    after_rename-Good :
        (y d : World) (t : Text) (r : World × Check)
        → rename d t path ≡ r
        → path ≢ t
        → Old d
        → IsFilled bytes d t
        → Good y (after_rename calls path t r)
    after_rename-Good y d t (v, ok u) i n old filled =
        let there : look v path ≡ look d t =
          ap (λ x. look x path) (sym (ap (λ (x : World × Check). x.0) i))
          ∙ lawful.rename_done d t path (ap (λ (x : World × Check). x.1) i) in
        let shut : IsNew (close v t).0 = (d, t, filled, lawful.close_other v t path n ∙ there) in
        ((inr (d, t, filled, there), (inr shut, tt)), λ h. shut)
    after_rename-Good y d t (v, err e) i n old filled =
        let same : Old v =
          ap (λ x. look x path) (sym (ap (λ (x : World × Check). x.0) i))
          ∙ lawful.rename_failed d t path e (ap (λ (x : World × Check). x.1) i)
          ∙ old in
        let good = cleaned-Good v v t (wrap integrity "manifest atomic rename" e) n same in
        ((inl same, good.0), good.1)

    fill-Good :
        (v : World) (t : Text)
        → path ≢ t
        → Old v
        → Good v (fill calls (λ d u. after_rename calls path u (rename d u path)) bytes v t)
    unfolding fill
    fill-Good v t n old =
        call-Good v "manifest temporary chmod" t (chmod v t) _ n
          (lawful.chmod_other v t path n ∙ old)
          (λ a ha oa.
            call-Good a "manifest temporary write" t (write a t bytes) _ n
              (lawful.write_other a t bytes path n ∙ oa)
              (λ b hb ob.
                call-Good b "manifest temporary sync" t (sync b t) _ n
                  (lawful.sync_other b t path n ∙ ob)
                  (λ c hc oc.
                    call-Good c "manifest temporary close" t (close c t) _ n
                      (lawful.close_other c t path n ∙ oc)
                      (λ d hd od. after_rename-Good d d t (rename d t path) refl n od record {
                        start = v;
                        private = a;
                        written = b;
                        flushed = c;
                        chmod_ok = ha;
                        write_ok = hb;
                        sync_ok = hc;
                        close_ok = hd;
                      }))))

    -- A temporary file has a longer name than the manifest.
    temp-other :
        (w : World) (t : Text)
        → (create_temp w (dir path) (text "." ++ base path ++ text ".tmp-*")).1 ≡ ok t
        → path ≢ t
    temp-other w t h e =
        let (r, named) = lawful.temp_named w (dir path) (base path) t h in
        longer (base path) r (ap base e ∙ named)

    created_at-Good :
        (r : World × Result Text)
        → create_temp before (dir path) (text "." ++ base path ++ text ".tmp-*") ≡ r
        → Good before
            (created_at calls (λ d u. after_rename calls path u (rename d u path)) bytes r)
    created_at-Good (v, err e) i =
        let good = stopped-Good v (wrap integrity "manifest temporary create" e) in
        (
          (
            inl (
                ap (λ x. look x path) (sym (ap (λ (x : World × Result Text). x.0) i))
                ∙ lawful.temp_failed before (dir path) (text "." ++ base path ++ text ".tmp-*") path
                    e (ap (λ (x : World × Result Text). x.1) i)),
            tt,
          ),
          good.1,
        )
    created_at-Good (v, ok t) i =
        let named = ap (λ (x : World × Result Text). x.1) i in
        let n = temp-other before t named in
        let old : Old v =
          ap (λ x. look x path) (sym (ap (λ (x : World × Result Text). x.0) i))
          ∙ lawful.temp_other before (dir path) (text "." ++ base path ++ text ".tmp-*") t path
              named n in
        let good = fill-Good v t n old in ((inl old, good.0), good.1)

    if-Good :
        (b : Bool) (p q : Passage World)
        → Good before p
        → Good before q
        → Good before (if b then p else q)
    if-Good true p q h k = h
    if-Good false p q h k = k

    scanned-Good :
        (r : Result (List Text))
        → Good before
            (scanned calls (λ d u. after_rename calls path u (rename d u path)) before path bytes r)
    scanned-Good (err e) = stopped-Good before (wrap integrity "manifest residue scan" e)
    scanned-Good (ok names) =
        if-Good (any_of (λ name. has_prefix name (text "." ++ base path ++ text ".tmp-")) names) _ _
          (stopped-Good before (new integrity "manifest temporary residue"))
          (created_at-Good (create_temp before (dir path) (text "." ++ base path ++ text ".tmp-*"))
            refl)

    write_atomic-Good : Good before (write_atomic calls before path bytes)
    unfolding write_atomic write_with
    write_atomic-Good =
        if-Good (bad_base calls (base path)) _ _
          (stopped-Good before (new usage_or_schema "manifest path"))
          (scanned-Good (read_dir before (dir path)))

    -- Where the calls keep to the manual: on every disk that `writeAtomic` passes through, the path holds what it held
    -- before or the complete new file, which was written, synced and closed without an error.
    pub write_atomic-IsWhole : All IsWhole (write_atomic calls before path bytes).states
    write_atomic-IsWhole = write_atomic-Good.0

    -- When it reports no error, the path holds the new file in the end.
    pub write_atomic-IsNew :
        (write_atomic calls before path bytes).result ≡ ok tt
        → IsNew (last_of before (write_atomic calls before path bytes).states)
    write_atomic-IsNew h = write_atomic-Good.1 h
