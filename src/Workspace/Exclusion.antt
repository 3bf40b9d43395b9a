-- ===== src/Workspace/Exclusion.antt =====
-- The writer lease of core/workspace/lease.go is exclusive, and a record that its owner has not removed
-- keeps every later `Acquire` out.
use native.Mathlib.Omega.{arith}
use provehito.Common.{
  ◌∙◌, ◌⊎◌, inl, inr, subst, Bool-cases, ℕ, Bool, true, false, Option, none, some, ◌≡◌, ◌≢◌, refl,
  nat_eq,
}
use provehito.Failure.Outcome.{ok}
use provehito.Workspace.Lease.{
  resume_detect, resume_release, resume_acquire, Answer, Stage, idle, acquire_open, acquire_lock,
  acquire_look, acquire_create, acquire_fill, acquire_undo, holding, release_remove, release_sync,
  release_unlock, detect_look, detect_open, detect_lock, detect_unlock, finished, call_of, resume,
}
use provehito.Workspace.Protocol.{
  just_answer, remove_lease, create_lease, look_at, take_lock, act, World, System, Step, Reaches,
  calls, starts, ends, Starts, perform, put, fresh, let_go, both, stays, further, acquires, detects,
  releases,
}

-- The stages between taking the lock and giving it back.
abbrev owns : Stage → Bool
owns acquire_look = true
owns acquire_create = true
owns acquire_fill = true
owns (acquire_undo e) = true
owns holding = true
owns release_remove = true
owns release_sync = true
owns (release_unlock e) = true
owns detect_unlock = true
owns _ = false

-- The stages at which the thread's own record lies on the disk.
abbrev pub records : Stage → Bool
records acquire_fill = true
records holding = true
records release_remove = true
records _ = false

abbrev creates : Stage → Bool
creates acquire_create = true
creates _ = false

-- What a thread may rely on at its stage.
abbrev pub IsSettled : ℕ → Stage → (holder lease : Option ℕ) → Type 0
IsSettled p st h l =
    (owns st ≡ true → h ≡ some p)
    × (records st ≡ true → l ≡ some p)
    × (creates st ≡ true → l ≡ none)

resume-IsSettled :
    (p : ℕ) (h l : Option ℕ) (w : World) (st : Stage) (a : Answer)
    → act p st a (both h l) ≡ some w
    → IsSettled p st h l
    → IsSettled p (resume st a) w.holder w.lease
unfolding act resume resume_acquire resume_release resume_detect call_of perform let_go take_lock
    look_at create_lease remove_lease just_answer
resume-IsSettled p h l w idle a k i = ground arith
resume-IsSettled p h l w acquire_open a k i = ground arith
resume-IsSettled p h l w acquire_lock a k i = ground arith
resume-IsSettled p h l w acquire_look a k i = ground arith
resume-IsSettled p h l w acquire_create a k i = ground arith
resume-IsSettled p h l w acquire_fill a k i = ground arith
resume-IsSettled p h l w (acquire_undo e) a k i = ground arith
resume-IsSettled p h l w holding a k i = ground arith
resume-IsSettled p h l w release_remove a k i = ground arith
resume-IsSettled p h l w release_sync a k i = ground arith
resume-IsSettled p h l w (release_unlock e) a k i = ground arith
resume-IsSettled p h l w detect_look a k i = ground arith
resume-IsSettled p h l w detect_open a k i = ground arith
resume-IsSettled p h l w detect_lock a k i = ground arith
resume-IsSettled p h l w detect_unlock a k i = ground arith
resume-IsSettled p h l w (finished r) a k i = ground arith

pub records-owns : (st : Stage) → records st ≡ true → owns st ≡ true
records-owns st h = ground arith

creates-owns : (st : Stage) → creates st ≡ true → owns st ≡ true
creates-owns st h = ground arith

-- A call leaves the lock of the others, and the record if another thread has the lock.
act-holder :
    (p q : ℕ) (h l : Option ℕ) (w : World) (st : Stage) (a : Answer)
    → p ≢ q
    → act p st a (both h l) ≡ some w
    → h ≡ some q
    → w.holder ≡ some q
unfolding act resume resume_acquire resume_release resume_detect call_of perform let_go take_lock
    look_at create_lease remove_lease just_answer
act-holder p q h l w idle a n k o = ground arith
act-holder p q h l w acquire_open a n k o = ground arith
act-holder p q h l w acquire_lock a n k o = ground arith
act-holder p q h l w acquire_look a n k o = ground arith
act-holder p q h l w acquire_create a n k o = ground arith
act-holder p q h l w acquire_fill a n k o = ground arith
act-holder p q h l w (acquire_undo e) a n k o = ground arith
act-holder p q h l w holding a n k o = ground arith
act-holder p q h l w release_remove a n k o = ground arith
act-holder p q h l w release_sync a n k o = ground arith
act-holder p q h l w (release_unlock e) a n k o = ground arith
act-holder p q h l w detect_look a n k o = ground arith
act-holder p q h l w detect_open a n k o = ground arith
act-holder p q h l w detect_lock a n k o = ground arith
act-holder p q h l w detect_unlock a n k o = ground arith
act-holder p q h l w (finished r) a n k o = ground arith

act-lease :
    (p q : ℕ) (h l : Option ℕ) (w : World) (st : Stage) (a : Answer)
    → p ≢ q
    → act p st a (both h l) ≡ some w
    → IsSettled p st h l
    → h ≡ some q
    → w.lease ≡ l
unfolding act resume resume_acquire resume_release resume_detect call_of perform let_go take_lock
    look_at create_lease remove_lease just_answer
act-lease p q h l w idle a n k i o = ground arith
act-lease p q h l w acquire_open a n k i o = ground arith
act-lease p q h l w acquire_lock a n k i o = ground arith
act-lease p q h l w acquire_look a n k i o = ground arith
act-lease p q h l w acquire_create a n k i o = ground arith
act-lease p q h l w acquire_fill a n k i o = ground arith
act-lease p q h l w (acquire_undo e) a n k i o = ground arith
act-lease p q h l w holding a n k i o = ground arith
act-lease p q h l w release_remove a n k i o = ground arith
act-lease p q h l w release_sync a n k i o = ground arith
act-lease p q h l w (release_unlock e) a n k i o = ground arith
act-lease p q h l w detect_look a n k i o = ground arith
act-lease p q h l w detect_open a n k i o = ground arith
act-lease p q h l w detect_lock a n k i o = ground arith
act-lease p q h l w detect_unlock a n k i o = ground arith
act-lease p q h l w (finished r) a n k i o = ground arith

-- A thread's call leaves what another thread relies on.
other-IsSettled :
    (p q : ℕ) (h l : Option ℕ) (w : World) (st other : Stage) (a : Answer)
    → p ≢ q
    → act p st a (both h l) ≡ some w
    → IsSettled p st h l
    → IsSettled q other h l
    → IsSettled q other w.holder w.lease
other-IsSettled p q h l w st other a n k i j = (
  λ o. act-holder p q h l w st a n k (j.0 o),
  λ r. act-lease p q h l w st a n k i (j.0 (records-owns other r)) ∙ j.1 r,
  λ c. act-lease p q h l w st a n k i (j.0 (creates-owns other c)) ∙ j.2 c,
)

start-IsSettled :
    (p : ℕ) (h l : Option ℕ) (st st' : Stage)
    → Starts st st'
    → IsSettled p st h l
    → IsSettled p st' h l
start-IsSettled p h l _ _ acquires i = ground arith
start-IsSettled p h l _ _ detects i = ground arith
start-IsSettled p h l _ _ releases i = ground arith

let_go-other : (p q : ℕ) (h : Option ℕ) → p ≢ q → h ≡ some q → let_go p h ≡ some q
unfolding let_go
let_go-other p q h n e = ground arith

pub same-or-not : (p q : ℕ) → ((nat_eq p q ≡ true) × (p ≡ q)) ⊎ ((nat_eq p q ≡ false) × (p ≢ q))
same-or-not p q = elim (Bool-cases (nat_eq p q)) [
  | inl e ↦ inl (e, ground arith)
  | inr n ↦ inr (n, ground arith)
]

-- Every thread of the system is settled.
abbrev pub IsExclusive : System → Type 0
IsExclusive s = (q : ℕ) → IsSettled q (s.stage q) s.world.holder s.world.lease

-- Settled threads stay so when `p` moves to a stage at which it is settled and does not disturb the others.
put-IsExclusive :
    (s : System) (p : ℕ) (st : Stage) (w : World)
    → IsSettled p st w.holder w.lease
    → ((q : ℕ) → p ≢ q → IsSettled q (s.stage q) w.holder w.lease)
    → IsExclusive (record { world = w; stage = put p st s.stage })
put-IsExclusive s p st w own others q = elim (same-or-not p q) [
  | inl (e, same) ↦ rw e (subst (λ r. IsSettled r st w.holder w.lease) same own)
  | inr (e, n) ↦ rw e (others q n)
]

pub Step-IsExclusive : (s t : System) → Step s t → IsExclusive s → IsExclusive t
Step-IsExclusive s t (calls p a w k) i =
    let h = s.world.holder in
    let l = s.world.lease in
    put-IsExclusive s p (resume (s.stage p) a) w (resume-IsSettled p h l w (s.stage p) a k (i p))
      (λ q n. other-IsSettled p q h l w (s.stage p) (s.stage q) a n k (i p) (i q))
Step-IsExclusive s t (starts p st k) i =
    put-IsExclusive s p st s.world
      (start-IsSettled p s.world.holder s.world.lease (s.stage p) st k (i p)) (λ q n. i q)
Step-IsExclusive s t (ends p) i =
    put-IsExclusive s p (finished (ok tt)) (both (let_go p s.world.holder) s.world.lease)
      (λ o. cc, λ r. cc, λ c. cc)
      (λ q n. (λ o. let_go-other p q s.world.holder n ((i q).0 o), (i q).1, (i q).2))

Reaches-IsExclusive : (s t : System) → Reaches s t → IsExclusive s → IsExclusive t
Reaches-IsExclusive s t stays i = i
Reaches-IsExclusive s u (further {t} before last) i =
    Step-IsExclusive t u last (Reaches-IsExclusive s t before i)

fresh-IsExclusive : IsExclusive fresh
fresh-IsExclusive q = (λ o. cc, λ r. cc, λ c. cc)

pub reached-IsExclusive : (s : System) → Reaches fresh s → IsExclusive s
reached-IsExclusive s r = Reaches-IsExclusive fresh s r fresh-IsExclusive

-- Of all the threads that interleave their calls from an empty state root on, at most one holds a lease,
-- and while it does, it has the lock and its own record lies on the disk.
pub holding-one :
    (s : System) (p q : ℕ)
    → Reaches fresh s
    → s.stage p ≡ holding
    → s.stage q ≡ holding
    → (p ≡ q) × (s.world.holder ≡ some p) × (s.world.lease ≡ some p)
holding-one s p q r hp hq =
    let i = reached-IsExclusive s r in
    let lock_p = (i p).0 (rw hp refl) in
    let lock_q = (i q).0 (rw hq refl) in (cc (lock_p, lock_q), lock_p, (i p).1 (rw hp refl))
