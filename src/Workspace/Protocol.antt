-- ===== src/Workspace/Protocol.antt =====
-- Several lease operations on one workspace (core/workspace/lease.go), interleaved at their system calls,
-- with the lock file and the durable record that they share. The operating system is described by what its
-- manual promises: one holder of an exclusive `flock`, released when its owner ends, and `O_EXCL` creation.
use provehito.Common.{ℕ, Option, none, some, ◌≡◌, nat_eq, if◌then◌else◌}
use provehito.Failure.Outcome.{ok}
use provehito.Workspace.Lease.{
  Call, Answer, Stage, idle, acquire_open, holding, release_remove, detect_look, finished, call_of,
  resume, done, refused, failed,
}

-- Who holds the lock, and whose record lies on the disk.
pub record World : Type 0 where
  pub holder : Option ℕ
  pub lease : Option ℕ

-- The lock without the share of `p`.
unfoldable pub let_go : ℕ → Option ℕ → Option ℕ
let_go p none = none
let_go p (some q) = if nat_eq p q then none else some q

abbrev pub both : Option ℕ → Option ℕ → World
both h l = record { holder = h; lease = l }

unfoldable pub take_lock : ℕ → Answer → (holder lease : Option ℕ) → Option World
take_lock p done none l = some (both (some p) l)
take_lock p refused (some q) l = some (both (some q) l)
take_lock p (failed e) h l = some (both h l)
take_lock p _ h l = none

unfoldable pub look_at : Answer → (holder lease : Option ℕ) → Option World
look_at done h (some q) = some (both h (some q))
look_at refused h none = some (both h none)
look_at (failed e) h l = some (both h l)
look_at _ h l = none

unfoldable pub create_lease : ℕ → Answer → (holder lease : Option ℕ) → Option World
create_lease p done h none = some (both h (some p))
create_lease p (failed e) h l = some (both h l)
create_lease p _ h l = none

unfoldable pub remove_lease : Answer → (holder lease : Option ℕ) → Option World
remove_lease done h (some q) = some (both h none)
remove_lease refused h none = some (both h none)
remove_lease (failed e) h l = some (both h l)
remove_lease _ h l = none

unfoldable pub just_answer : Answer → (holder lease : Option ℕ) → Option World
just_answer refused h l = none
just_answer _ h l = some (both h l)

-- The world after the call of `p` with this answer, where the call can have it.
unfoldable pub perform : ℕ → Call → Answer → World → Option World
unfolding take_lock look_at create_lease remove_lease just_answer let_go
perform p Call.open_lock a w = just_answer a w.holder w.lease
perform p Call.try_lock a w = take_lock p a w.holder w.lease
perform p Call.look a w = look_at a w.holder w.lease
perform p Call.create a w = create_lease p a w.holder w.lease
perform p Call.fill a w = just_answer a w.holder w.lease
perform p Call.remove a w = remove_lease a w.holder w.lease
perform p Call.sync_parent a w = just_answer a w.holder w.lease
perform p Call.unlock a w = just_answer a (let_go p w.holder) w.lease

-- The call that the thread `p` is about to make at its stage.
unfoldable pub act : ℕ → Stage → Answer → World → Option World
unfolding call_of perform
act p st a w = elim (call_of st) [ none ↦ none | some c ↦ perform p c a w ]

pub record System : Type 0 where
  pub world : World
  pub stage : ℕ → Stage

abbrev pub put : ℕ → Stage → (ℕ → Stage) → ℕ → Stage
put p st stage q = if nat_eq p q then st else stage q

-- The calls of the exported functions.
pub data Starts : Stage → Stage → Type 0 where
  acquires : Starts idle acquire_open
  detects : Starts idle detect_look
  releases : Starts holding release_remove

-- One thread makes its next call or calls a function, or its process ends and the operating system drops
-- its lock.
pub data Step (s : System) : System → Type 0 where
  calls :
      (p : ℕ) (a : Answer) (w : World)
      → act p (s.stage p) a s.world ≡ some w
      → Step s (record { world = w; stage = put p (resume (s.stage p) a) s.stage })
  starts :
      (p : ℕ) (st : Stage)
      → Starts (s.stage p) st
      → Step s (record { world = s.world; stage = put p st s.stage })
  ends :
      (p : ℕ)
      → Step s (record {
        world = both (let_go p s.world.holder) s.world.lease;
        stage = put p (finished (ok tt)) s.stage;
      })

pub data Reaches (s : System) : System → Type 0 where
  stays : Reaches s s
  further : {t u : System} → Reaches s t → Step t u → Reaches s u

-- No thread runs, and the state root is empty.
abbrev pub fresh : System
fresh = record { world = record { holder = none; lease = none }; stage = λ p. idle }
