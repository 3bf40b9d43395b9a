-- ===== src/Process/Bounded.antt =====
-- What the two writers of a run keep (core/process/supervisor.go): never more than the limit, and
-- a prefix of what each saw, which is all of it unless its truncation is reported.
use mathlib.Core.List.{append-nil, append_assoc}
use provehito.Common.{
  subst, ◌≤◌, Bool-cases, inr, inl, ◌<◌, ◌⊎◌, ℕ, zero, suc, ◌+◌, ◌-◌, Text, Bool, true, false, List,
  [], ◌∷◌, ◌++◌, length, take, drop, leb, ◌≡◌, ◌≢◌, ◌↔◌, refl, sym, ◌∙◌, ap, arith, length-append,
}
use provehito.Common.Ints.{ℤ, pos}
use provehito.Process.Budget.{
  new_bounded_writer, take_budget, BoundedWriter, written, write, Streams, Output, to_stdout,
  to_stderr, start, write_output, write_all,
}

-- What is kept is a prefix of what was seen; a byte is missing only when nothing remains, and
-- exactly then the truncation is reported.
pub record IsHonest (remaining : ℕ) (w : BoundedWriter) : Type 0 where
  pub missing : Text
  pub prefix : w.hashed ≡ w.kept ++ missing
  pub reported : (w.truncated ≡ true) ↔ (missing ≢ [])
  pub exhausted : missing ≢ [] → remaining ≡ 0

-- The budget is spent on the bytes that are kept.
pub record IsWithin (limit : ℕ) (s : Streams) : Type 0 where
  pub left : ℕ
  pub remaining : s.remaining ≡ pos left
  pub spent : left + length s.stdout.kept + length s.stderr.kept ≡ limit
  pub stdout_IsHonest : IsHonest left s.stdout
  pub stderr_IsHonest : IsHonest left s.stderr

take_budget-cases :
    (n size : ℕ)
    → (left : ℕ) × (taken : ℕ) × (take_budget (pos n) size ≡ (pos left, taken))
      × (left + taken ≡ n)
      × ((taken ≡ size) ⊎ ((left ≡ 0) × (taken < size)))
unfolding take_budget
take_budget-cases zero zero = (0, 0, refl, refl, inl refl)
take_budget-cases zero (suc size) = (0, 0, refl, refl, inr (refl, omega arith))
take_budget-cases (suc n) size = elim (Bool-cases (leb size (suc n))) [
  | inl p ↦ (suc n - size, size, rw p refl, ground arith, inl refl)
  | inr p ↦ (0, suc n, rw p refl, omega arith, inr (refl, ground arith))
]

take-drop : (n : ℕ) (v : Text) → take n v ++ drop n v ≡ v
take-drop zero v = refl
take-drop (suc n) [] = refl
take-drop (suc n) (x ∷ v) = ap (◌∷◌ x) (take-drop n v)

take-all : (v : Text) → take (length v) v ≡ v
take-all [] = refl
take-all (x ∷ v) = ap (◌∷◌ x) (take-all v)

length-take-le : (n : ℕ) (v : Text) → n ≤ length v → length (take n v) ≡ n
length-take-le zero v h = refl
length-take-le (suc n) [] h = absurd (omega arith)
length-take-le (suc n) (x ∷ v) h = ap suc (length-take-le n v (omega arith))

drop-nonempty : (n : ℕ) (v : Text) → n < length v → drop n v ≢ []
drop-nonempty zero [] h = absurd (omega arith)
drop-nonempty zero (x ∷ v) h = λ e. cc
drop-nonempty (suc n) [] h = absurd (omega arith)
drop-nonempty (suc n) (x ∷ v) h = drop-nonempty n v (omega arith)

append-nonempty : (m v : Text) → m ≢ [] → m ++ v ≢ []
append-nonempty [] v h = absurd (h refl)
append-nonempty (x ∷ m) v h = λ e. cc

-- Writing what fits keeps a writer honest that misses nothing.
write_complete :
    (left : ℕ) (w : BoundedWriter) (value : Text) (taken : ℕ)
    → w.hashed ≡ w.kept
    → w.truncated ≡ false
    → taken ≡ length value
    → IsHonest left (written w value taken)
write_complete left w value taken e t p = record {
  missing = [];
  prefix = rw (p, take-all value, append-nil (w.kept ++ value)) (ap (λ x. x ++ value) e);
  reported = (λ h. absurd (ground arith), λ h. absurd (h refl));
  exhausted = λ h. absurd (h refl);
}

-- Writing more than fits uses up the budget.
write-truncated :
    (w : BoundedWriter) (value : Text) (taken : ℕ)
    → w.hashed ≡ w.kept
    → taken < length value
    → IsHonest 0 (written w value taken)
write-truncated w value taken e p = record {
  missing = drop taken value;
  prefix =
      ap (λ x. x ++ value) e
      ∙ ap (λ x. w.kept ++ x) (sym (take-drop taken value))
      ∙ sym (append_assoc w.kept (take taken value) (drop taken value));
  reported = (λ h. drop-nonempty taken value p, λ h. ground arith);
  exhausted = λ h. refl;
}

-- Where bytes are missing already, more are.
write-exhausted :
    (w : BoundedWriter) (value missing : Text)
    → w.hashed ≡ w.kept ++ missing
    → w.truncated ≡ true
    → missing ≢ []
    → IsHonest 0 (written w value 0)
write-exhausted w value missing e t n = record {
  missing = missing ++ value;
  prefix =
      ap (λ x. x ++ value) e
      ∙ append_assoc w.kept missing value
      ∙ ap (λ x. x ++ (missing ++ value)) (sym (append-nil w.kept));
  reported = (λ h. append-nonempty missing value n, λ h. ground arith);
  exhausted = λ h. refl;
}

-- One write of a run: what is kept is `taken` bytes, and the budget shrinks by them.
record IsWrite (n left : ℕ) (w v : BoundedWriter) : Type 0 where
  kept : ℕ
  shrunk : left + kept ≡ n
  grown : length v.kept ≡ length w.kept + kept
  honest : IsHonest left v

not_reported : (b : Bool) (missing : Text) → missing ≡ [] → (b ≡ true) ↔ (missing ≢ []) → b ≡ false
not_reported true missing e t = absurd (t.0 refl e)
not_reported false missing e t = refl

at_most_length :
    {left : ℕ} (taken size : ℕ) → (taken ≡ size) ⊎ ((left ≡ 0) × (taken < size)) → taken ≤ size
at_most_length taken size (inl p) = omega (arith, p)
at_most_length taken size (inr p) = omega (arith, p.1)

module _ (n : ℕ) (w : BoundedWriter) (value : Text) (left taken : ℕ) (sum : left + taken ≡ n)
    (fits : (taken ≡ length value) ⊎ ((left ≡ 0) × (taken < length value))) where
  written-IsHonest :
      (missing : Text)
      → w.hashed ≡ w.kept ++ missing
      → (w.truncated ≡ true) ↔ (missing ≢ [])
      → (missing ≢ [] → n ≡ 0)
      → IsHonest left (written w value taken)
  written-IsHonest [] e t z =
      let same = e ∙ append-nil w.kept in
      elim fits [
        | inl p ↦ write_complete left w value taken same (not_reported w.truncated [] refl t) p
        | inr (l, p) ↦
            subst (λ x. IsHonest x (written w value taken)) (sym l)
              (write-truncated w value taken same p)
      ]
  written-IsHonest (x ∷ m) e t z =
      let empty : n ≡ 0 = z (λ p. cc) in
      let no_left : 0 ≡ left = omega (arith, sum, empty) in
      let none_taken : 0 ≡ taken = omega (arith, sum, empty) in
      subst (λ k. IsHonest k (written w value taken)) no_left
        (subst (λ k. IsHonest 0 (written w value k)) none_taken
          (write-exhausted w value (x ∷ m) e (t.1 (λ p. cc)) (λ p. cc)))

  written-IsWrite : IsHonest n w → IsWrite n left w (written w value taken)
  written-IsWrite h = record {
    kept = taken;
    shrunk = sum;
    grown =
        length-append w.kept (take taken value)
        ∙ ap (λ k. length w.kept + k)
            (length-take-le taken value (at_most_length taken (length value) fits));
    honest = written-IsHonest h.missing h.prefix h.reported h.exhausted;
  }

write-IsWrite :
    (n : ℕ) (w : BoundedWriter) (value : Text)
    → IsHonest n w
    → (left : ℕ) × ((write (pos n) w value).0 ≡ pos left)
      × IsWrite n left w ((write (pos n) w value).1)
unfolding write
write-IsWrite n w value h =
    let (left, taken, e, sum, fits) = take_budget-cases n (length value) in
    (
      left,
      ap (λ x. x.0) e,
      subst (λ k. IsWrite n left w (written w value k)) (sym (ap (λ x. x.1) e))
          (written-IsWrite n w value left taken sum fits h),
    )

-- A stream that is not written to stays honest when the budget shrinks.
IsHonest-shrink : (n left : ℕ) (w : BoundedWriter) → left ≤ n → IsHonest n w → IsHonest left w
IsHonest-shrink n left w p h = record {
  missing = h.missing;
  prefix = h.prefix;
  reported = h.reported;
  exhausted = λ m. omega (arith, p, h.exhausted m);
}

write_at-IsWrite :
    (n : ℕ) (r : ℤ) (w : BoundedWriter) (value : Text)
    → r ≡ pos n
    → IsHonest n w
    → (left : ℕ) × ((write r w value).0 ≡ pos left) × IsWrite n left w ((write r w value).1)
write_at-IsWrite n r w value e h =
    subst
      (λ x. (left : ℕ) × ((write x w value).0 ≡ pos left) × IsWrite n left w ((write x w value).1))
      (sym e) (write-IsWrite n w value h)

write_output-IsWithin :
    (limit : ℕ) (s : Streams) (o : Output) → IsWithin limit s → IsWithin limit (write_output s o)
unfolding write_output
write_output-IsWithin limit s (to_stdout value) h =
    let (left, e, k) =
      write_at-IsWrite h.left s.remaining s.stdout value h.remaining h.stdout_IsHonest in
    record {
      left = left;
      remaining = e;
      spent = omega (arith, k.shrunk, k.grown, h.spent);
      stdout_IsHonest = k.honest;
      stderr_IsHonest =
          IsHonest-shrink h.left left s.stderr (omega (arith, k.shrunk)) h.stderr_IsHonest;
    }
write_output-IsWithin limit s (to_stderr value) h =
    let (left, e, k) =
      write_at-IsWrite h.left s.remaining s.stderr value h.remaining h.stderr_IsHonest in
    record {
      left = left;
      remaining = e;
      spent = omega (arith, k.shrunk, k.grown, h.spent);
      stdout_IsHonest =
          IsHonest-shrink h.left left s.stdout (omega (arith, k.shrunk)) h.stdout_IsHonest;
      stderr_IsHonest = k.honest;
    }

write_all-invariant :
    (limit : ℕ) (s : Streams) (os : List Output)
    → IsWithin limit s
    → IsWithin limit (write_all s os)
unfolding write_all
write_all-invariant limit s [] h = h
write_all-invariant limit s (o ∷ os) h =
    write_all-invariant limit (write_output s o) os (write_output-IsWithin limit s o h)

start-IsHonest : (limit : ℕ) → IsHonest limit new_bounded_writer
start-IsHonest limit = record {
  missing = [];
  prefix = refl;
  reported = (λ h. absurd (ground arith), λ h. absurd (h refl));
  exhausted = λ h. absurd (h refl);
}

-- Whatever a process writes to its two streams, in whatever order: the two writers keep no more than
-- the limit, each keeps a prefix of what it saw, reports the truncation exactly when bytes are missing, and
-- none is missing while the budget lasts.
pub write_all-IsWithin :
    (limit : ℕ) (os : List Output) → IsWithin limit (write_all (start (pos limit)) os)
write_all-IsWithin limit os = write_all-invariant limit (start (pos limit)) os (record {
  left = limit;
  remaining = refl;
  spent = omega arith;
  stdout_IsHonest = start-IsHonest limit;
  stderr_IsHonest = start-IsHonest limit;
})
