-- ===== src/Workspace/Abandoned.antt =====
-- A lease whose process ended without `Release` (core/workspace/lease.go), and the answer of
-- `DetectAbandoned` while another thread releases its lease.
use native.Mathlib.Omega.{arith}
use provehito.Common.{ℕ, false, Option, some, ◌≡◌, ◌≢◌, refl, ap, inl, inr, Bool-cases}
use provehito.Failure.Outcome.{ok}
use provehito.Workspace.Lease.{
  resume_detect, resume_release, resume_acquire, Answer, Stage, idle, acquire_open, acquire_lock,
  acquire_look, acquire_create, acquire_fill, acquire_undo, holding, release_remove, release_sync,
  release_unlock, detect_look, detect_open, detect_lock, detect_unlock, finished, call_of, resume,
}
use provehito.Workspace.Protocol.{
  World, System, Step, Reaches, calls, starts, ends, Starts, perform, put, fresh, let_go, both,
  stays, further, acquires, detects, releases, act, take_lock, look_at, create_lease, remove_lease,
  just_answer,
}
use provehito.Workspace.Exclusion.{
  IsExclusive, IsSettled, records, records-owns, reached-IsExclusive, Step-IsExclusive, same-or-not,
}

-- The record of `p` lies on the disk, and no thread is about to remove it.
pub record IsAbandoned (p : ℕ) (s : System) : Type 0 where
  pub kept : s.world.lease ≡ some p
  pub unowned : (q : ℕ) → records (s.stage q) ≡ false

act-abandoned :
    (p q : ℕ) (h l : Option ℕ) (w : World) (st : Stage) (a : Answer)
    → act q st a (both h l) ≡ some w
    → l ≡ some p
    → records st ≡ false
    → IsSettled q st h l
    → (w.lease ≡ some p) × (records (resume st a) ≡ false)
unfolding act resume resume_acquire resume_release resume_detect call_of perform let_go take_lock
    look_at create_lease remove_lease just_answer
act-abandoned p q h l w idle a k o u i = ground arith
act-abandoned p q h l w acquire_open a k o u i = ground arith
act-abandoned p q h l w acquire_lock a k o u i = ground arith
act-abandoned p q h l w acquire_look a k o u i = ground arith
act-abandoned p q h l w acquire_create a k o u i = ground arith
act-abandoned p q h l w acquire_fill a k o u i = ground arith
act-abandoned p q h l w (acquire_undo e) a k o u i = ground arith
act-abandoned p q h l w holding a k o u i = ground arith
act-abandoned p q h l w release_remove a k o u i = ground arith
act-abandoned p q h l w release_sync a k o u i = ground arith
act-abandoned p q h l w (release_unlock e) a k o u i = ground arith
act-abandoned p q h l w detect_look a k o u i = ground arith
act-abandoned p q h l w detect_open a k o u i = ground arith
act-abandoned p q h l w detect_lock a k o u i = ground arith
act-abandoned p q h l w detect_unlock a k o u i = ground arith
act-abandoned p q h l w (finished r) a k o u i = ground arith

start-abandoned : (st st' : Stage) → Starts st st' → records st ≡ false → records st' ≡ false
start-abandoned _ _ acquires u = refl
start-abandoned _ _ detects u = refl
start-abandoned _ _ releases u = u

put-unowned :
    (s : System) (p : ℕ) (st : Stage)
    → records st ≡ false
    → ((q : ℕ) → p ≢ q → records (s.stage q) ≡ false)
    → (q : ℕ) → records (put p st s.stage q) ≡ false
put-unowned s p st own others q = elim (same-or-not p q) [
  | inl (e, same) ↦ rw e own
  | inr (e, n) ↦ rw e (others q n)
]

Step-IsAbandoned :
    (p : ℕ) (s t : System) → Step s t → IsExclusive s → IsAbandoned p s → IsAbandoned p t
Step-IsAbandoned p s t (calls q a w k) i b =
    let (kept, own) =
      act-abandoned p q s.world.holder s.world.lease w (s.stage q) a k b.kept (b.unowned q) (i q) in
    record {
      kept = kept;
      unowned = put-unowned s q (resume (s.stage q) a) own (λ r n. b.unowned r);
    }
Step-IsAbandoned p s t (starts q st k) i b = record {
  kept = b.kept;
  unowned =
      put-unowned s q st (start-abandoned (s.stage q) st k (b.unowned q)) (λ r n. b.unowned r);
}
Step-IsAbandoned p s t (ends q) i b = record {
  kept = b.kept;
  unowned = put-unowned s q (finished (ok tt)) refl (λ r n. b.unowned r);
}

Reaches-IsAbandoned :
    (p : ℕ) (s t : System)
    → Reaches s t
    → IsExclusive s
    → IsAbandoned p s
    → IsExclusive t × IsAbandoned p t
Reaches-IsAbandoned p s t stays i b = (i, b)
Reaches-IsAbandoned p s u (further {t} before last) i b =
    let (j, c) = Reaches-IsAbandoned p s t before i b in
    (Step-IsExclusive t u last j, Step-IsAbandoned p t u last j c)

-- The system after the process of `p` ended.
abbrev pub ended : ℕ → System → System
ended p s = record {
  world = both (let_go p s.world.holder) s.world.lease;
  stage = put p (finished (ok tt)) s.stage;
}

ended-IsAbandoned :
    (p : ℕ) (s : System) → IsExclusive s → s.stage p ≡ holding → IsAbandoned p (ended p s)
ended-IsAbandoned p s i h = record {
  kept = (i p).1 (rw h refl);
  unowned = put-unowned s p (finished (ok tt)) refl (λ q n.
      elim (Bool-cases (records (s.stage q))) [
        | inl r ↦
            let mine : s.world.holder ≡ some p = (i p).0 (rw h refl) in
            let other = (i q).0 (records-owns (s.stage q) r) in absurd (n (cc (mine, other)))
        | inr r ↦ r
      ]);
}

-- If the process of a thread that holds a lease ends without releasing it, its record stays on the disk
-- for good and no thread of any later system ever holds a lease on the workspace.
pub abandoned-blocks :
    (p q : ℕ) (s t : System)
    → Reaches fresh s
    → s.stage p ≡ holding
    → Reaches (ended p s) t
    → (t.world.lease ≡ some p) × (t.stage q ≢ holding)
abandoned-blocks p q s t before h after =
    let i = reached-IsExclusive s before in
    let (j, b) =
      Reaches-IsAbandoned p (ended p s) t after (Step-IsExclusive s (ended p s) (ends p) i)
        (ended-IsAbandoned p s i h) in
    (b.kept, λ e. let f = b.unowned q in cc (f, ap records e))
