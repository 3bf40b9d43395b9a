-- ===== src/Process/Budget.antt =====
-- `outputBudget` and `boundedWriter` of core/process/supervisor.go. The two writers of a run share
-- one budget; a lock makes each `take` one step. A writer's hash is of all bytes that it saw, which
-- the model keeps in place of the hash.
use provehito.Common.{
  ℕ, zero, suc, ◌-◌, Text, Bool, true, false, not, List, [], ◌∷◌, ◌++◌, length, take, leb, nat_eq,
  if◌then◌else◌,
}
use provehito.Common.Ints.{ℤ, pos, negsuc}

-- `take`: the bytes that remain after it, and how many may be kept.
unfoldable pub take_budget : ℤ → ℕ → ℤ × ℕ
take_budget (negsuc n) size = (negsuc n, 0)
take_budget (pos zero) size = (pos zero, 0)
take_budget (pos (suc n)) size =
    if leb size (suc n) then (pos (suc n - size), size) else (pos 0, suc n)

pub record BoundedWriter : Type 0 where
  pub kept : Text
  pub hashed : Text
  pub truncated : Bool

abbrev pub new_bounded_writer : BoundedWriter
new_bounded_writer = record { kept = []; hashed = []; truncated = false }

-- What the writer does with a value of which `taken` bytes may be kept.
abbrev pub written : BoundedWriter → Text → ℕ → BoundedWriter
written w value taken = record {
  kept = w.kept ++ take taken value;
  hashed = w.hashed ++ value;
  truncated = if not (nat_eq taken (length value)) then true else w.truncated;
}

-- `Write`: the budget and the writer after it. It never fails, and reports all bytes as written.
unfoldable pub write : ℤ → BoundedWriter → Text → ℤ × BoundedWriter
unfolding take_budget
write remaining w value = let r = take_budget remaining (length value) in (r.0, written w value r.1)

-- The two streams of a run, and the writes of the process to them in their order.
pub record Streams : Type 0 where
  pub remaining : ℤ
  pub stdout : BoundedWriter
  pub stderr : BoundedWriter

pub data Output : Type 0 where
  to_stdout to_stderr : Text → Output

abbrev pub start : ℤ → Streams
start limit = record { remaining = limit; stdout = new_bounded_writer; stderr = new_bounded_writer }

unfoldable pub write_output : Streams → Output → Streams
unfolding write
write_output s (to_stdout value) =
    let r = write s.remaining s.stdout value in record s { remaining = r.0; stdout = r.1 }
write_output s (to_stderr value) =
    let r = write s.remaining s.stderr value in record s { remaining = r.0; stderr = r.1 }

unfoldable pub write_all : Streams → List Output → Streams
unfolding write_output
write_all s [] = s
write_all s (o ∷ os) = write_all (write_output s o) os
