-- ===== src/Workspace/Lease.antt =====
-- `Acquire`, `Release` and `DetectAbandoned` of core/workspace/lease.go, cut at their system calls: a
-- `Stage` is the place in the code where a call is about to be made, and `resume` runs the code from the
-- call's answer to the next call. Calls of several goroutines or processes can then interleave.
use provehito.Common.{Bool, true, false, Option, none, some}
use provehito.Failure.{Error, Class, new, wrap, plain}
use provehito.Failure.Outcome.{Result, Check, ok, err, or_else, ◌>>◌}

-- What the functions ask of the operating system, for one workspace. `look` is `existingLease`, `create` is
-- `openExclusive`, `fill` is the rest of `writeLease`, `remove` is `rejectSymlink` and then `os.Remove`,
-- `unlock` is the unlocking and closing of the lock file.
pub data Call : Type 0 where
  open_lock : Call
  try_lock : Call
  look : Call
  create : Call
  fill : Call
  remove : Call
  sync_parent : Call
  unlock : Call

-- No error; the one error that the code tells apart (`errLockBusy` of `try_lock`, `os.ErrNotExist` of `look`
-- and `remove`); or any other error.
pub data Answer : Type 0 where
  done : Answer
  refused : Answer
  failed : Error → Answer

-- What `os.Lstat` says of the record.
pub data Lookup : Type 0 where
  missing : Lookup
  unreadable : Error → Lookup
  found : (symlink : Bool) → Lookup

-- `existingLease`
unfoldable pub existing_lease : Lookup → Result Bool
existing_lease missing = ok false
existing_lease (unreadable e) = err (wrap Class.integrity "workspace lease stat" e)
existing_lease (found true) = err (new Class.integrity "workspace lease symlink")
existing_lease (found false) = ok true

-- `writeLease` after the creation of the file, on the outcomes of its calls.
unfoldable pub fill_lease : (chmod write sync close parent : Check) → Check
fill_lease chmod write sync close parent = do
  or_else (wrap Class.integrity "workspace lease chmod") chmod
  or_else (wrap Class.integrity "workspace lease write") write
  or_else (wrap Class.integrity "workspace lease sync") sync
  or_else (wrap Class.integrity "workspace lease close") close
  or_else (wrap Class.integrity "workspace lease directory sync") parent

pub data Stage : Type 0 where
  idle : Stage
  acquire_open : Stage
  acquire_lock : Stage
  acquire_look : Stage
  acquire_create : Stage
  acquire_fill : Stage
  acquire_undo : Error → Stage
  holding : Stage
  release_remove : Stage
  release_sync : Stage
  release_unlock : Option Error → Stage
  detect_look : Stage
  detect_open : Stage
  detect_lock : Stage
  detect_unlock : Stage
  finished : Check → Stage

abbrev pub abandoned : Error
abandoned = new Class.concurrency "workspace abandoned lease"

-- `errLockBusy`
abbrev lock_busy : Error
lock_busy = plain "writer lock is busy"

-- The call that a stage makes.
unfoldable pub call_of : Stage → Option Call
call_of idle = none
call_of acquire_open = some Call.open_lock
call_of acquire_lock = some Call.try_lock
call_of acquire_look = some Call.look
call_of acquire_create = some Call.create
call_of acquire_fill = some Call.fill
call_of (acquire_undo e) = some Call.unlock
call_of holding = none
call_of release_remove = some Call.remove
call_of release_sync = some Call.sync_parent
call_of (release_unlock e) = some Call.unlock
call_of detect_look = some Call.look
call_of detect_open = some Call.open_lock
call_of detect_lock = some Call.try_lock
call_of detect_unlock = some Call.unlock
call_of (finished r) = none

-- The result of `Release`: the first error of the record, or that of the lock.
abbrev released : Option Error → Answer → Check
released (some e) a = err e
released none (failed e) = err (wrap Class.integrity "workspace lease unlock" e)
released none _ = ok tt

-- The code between the answer to a stage's call and the next call, of each function. A stage that gets an
-- answer its call cannot give stays as it is. First `Acquire`.
unfoldable pub resume_acquire : Stage → Answer → Stage
resume_acquire acquire_open done = acquire_lock
resume_acquire acquire_open (failed e) =
    finished (err (wrap Class.integrity "workspace lease lock" e))
resume_acquire acquire_lock done = acquire_look
resume_acquire acquire_lock refused =
    finished (err (wrap Class.concurrency "workspace writer lease" lock_busy))
resume_acquire acquire_lock (failed e) =
    finished (err (wrap Class.integrity "workspace writer lease" e))
resume_acquire acquire_look done = acquire_undo abandoned
resume_acquire acquire_look refused = acquire_create
resume_acquire acquire_look (failed e) = acquire_undo e
resume_acquire acquire_create done = acquire_fill
resume_acquire acquire_create (failed e) =
    acquire_undo (wrap Class.integrity "workspace lease create" e)
resume_acquire acquire_fill done = holding
resume_acquire acquire_fill (failed e) = acquire_undo e
resume_acquire (acquire_undo e) _ = finished (err e)
resume_acquire st _ = st

-- `Release`
unfoldable pub resume_release : Stage → Answer → Stage
resume_release release_remove done = release_sync
resume_release release_remove refused = release_unlock none
resume_release release_remove (failed e) =
    release_unlock (some (wrap Class.integrity "workspace lease release" e))
resume_release release_sync done = release_unlock none
resume_release release_sync (failed e) =
    release_unlock (some (wrap Class.integrity "workspace lease release sync" e))
resume_release (release_unlock e) a = finished (released e a)
resume_release st _ = st

-- `DetectAbandoned`
unfoldable pub resume_detect : Stage → Answer → Stage
resume_detect detect_look done = detect_open
resume_detect detect_look refused = finished (ok tt)
resume_detect detect_look (failed e) = finished (err e)
resume_detect detect_open done = detect_lock
resume_detect detect_open (failed e) =
    finished (err (wrap Class.integrity "workspace abandoned lock" e))
resume_detect detect_lock done = detect_unlock
resume_detect detect_lock refused = finished (ok tt)
resume_detect detect_lock (failed e) =
    finished (err (wrap Class.integrity "workspace abandoned lock" e))
resume_detect detect_unlock _ = finished (err abandoned)
resume_detect st _ = st

unfoldable pub resume : Stage → Answer → Stage
unfolding resume_acquire resume_release resume_detect
resume acquire_open a = resume_acquire acquire_open a
resume acquire_lock a = resume_acquire acquire_lock a
resume acquire_look a = resume_acquire acquire_look a
resume acquire_create a = resume_acquire acquire_create a
resume acquire_fill a = resume_acquire acquire_fill a
resume (acquire_undo e) a = resume_acquire (acquire_undo e) a
resume release_remove a = resume_release release_remove a
resume release_sync a = resume_release release_sync a
resume (release_unlock e) a = resume_release (release_unlock e) a
resume detect_look a = resume_detect detect_look a
resume detect_open a = resume_detect detect_open a
resume detect_lock a = resume_detect detect_lock a
resume detect_unlock a = resume_detect detect_unlock a
resume st _ = st
