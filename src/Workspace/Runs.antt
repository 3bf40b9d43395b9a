-- ===== src/Workspace/Runs.antt =====
-- Runs of two threads of core/workspace/lease.go, one call after the other, and the answer of
-- `DetectAbandoned` while another thread releases its lease.
use mathlib.Core.Path.{ap₂}
use provehito.Common.{ℕ, none, some, ◌≡◌, ◌≢◌, refl, sym, ap, ◌∙◌, subst, inl, inr}
use provehito.Failure.Outcome.{ok, err}
use provehito.Workspace.Lease.{
  resume_detect, resume_release, resume_acquire, refused, acquire_open, Answer, Stage, idle,
  holding, release_remove, detect_look, finished, resume, done, abandoned,
}
use provehito.Workspace.Protocol.{
  World, System, Reaches, calls, starts, Starts, put, fresh, both, stays, further, acquires,
  releases, act, let_go,
}
use provehito.Workspace.Exclusion.{reached-IsExclusive, same-or-not}

-- From `s`, a system is reached at which `p` and `q` stand at these stages of this world.
pub record Leads (s : System) (p q : ℕ) (a b : Stage) (w : World) : Type 0 where
  pub last : System
  pub run : Reaches s last
  pub here : last.stage p ≡ a
  pub there : last.stage q ≡ b
  pub now : last.world ≡ w

put-same : (p : ℕ) (st : Stage) (stage : ℕ → Stage) → put p st stage p ≡ st
put-same p st stage = elim (same-or-not p p) [
  | inl (e, _) ↦ rw e refl
  | inr (_, n) ↦ absurd (n refl)
]

put-other : (p q : ℕ) (st : Stage) (stage : ℕ → Stage) → p ≢ q → put p st stage q ≡ stage q
put-other p q st stage n = elim (same-or-not p q) [
  | inl (_, e) ↦ absurd (n e)
  | inr (e, _) ↦ rw e refl
]

module _ {s : System} {p q : ℕ} {a b : Stage} {w : World} where
  pub turn : Leads s p q a b w → Leads s q p b a w
  turn l = record { last = l.last; run = l.run; here = l.there; there = l.here; now = l.now }

  -- The next call of `p`.
  pub answers :
      p ≢ q
      → (x : Answer) (u : World) → act p a x w ≡ some u
      → Leads s p q a b w
      → Leads s p q (resume a x) b u
  answers n x u k l =
      let called =
        subst (λ st. act p st x l.last.world ≡ some u) (sym l.here)
          (subst (λ v. act p a x v ≡ some u) (sym l.now) k) in
      record {
        last = record { world = u; stage = put p (resume (l.last.stage p) x) l.last.stage };
        run = further l.run (calls p x u called);
        here = put-same p (resume (l.last.stage p) x) l.last.stage ∙ ap (λ st. resume st x) l.here;
        there = put-other p q (resume (l.last.stage p) x) l.last.stage n ∙ l.there;
        now = refl;
      }

  -- A function that `p` calls.
  pub enters : p ≢ q → (st : Stage) → Starts a st → Leads s p q a b w → Leads s p q st b w
  enters n st k l = record {
    last = record { world = l.last.world; stage = put p st l.last.stage };
    run = further l.run (starts p st (subst (λ st'. Starts st' st) (sym l.here) k));
    here = put-same p st l.last.stage;
    there = put-other p q st l.last.stage n ∙ l.there;
    now = l.now;
  }

let_go-same : (p : ℕ) → let_go p (some p) ≡ none
unfolding let_go
let_go-same p = elim (same-or-not p p) [ inl (e, _) ↦ rw e refl | inr (_, n) ↦ absurd (n refl) ]

-- `Acquire` without an error, of the thread `p` alone.
pub acquire-holding : (p q : ℕ) → p ≢ q → Leads fresh p q holding idle (both (some p) (some p))
unfolding act resume resume_acquire resume_release resume_detect
acquire-holding p q n =
    let start : Leads fresh p q idle idle (both none none) = record {
      last = fresh;
      run = stays;
      here = refl;
      there = refl;
      now = refl;
    } in
    let opened = answers n done (both none none) refl (enters n acquire_open acquires start) in
    let locked = answers n done (both (some p) none) refl opened in
    let looked = answers n refused (both (some p) none) refl locked in
    answers n done (both (some p) (some p)) refl
      (answers n done (both (some p) (some p)) refl looked)

-- If `p` holds the lease while another thread begins `DetectAbandoned`, a run without any error of the
-- operating system lets that thread report an abandoned lease although `p` has released it: in the end
-- no record lies on the disk and nobody holds the lock.
pub detect-false_alarm :
    (p q : ℕ) (s : System)
    → p ≢ q
    → Reaches fresh s
    → s.stage p ≡ holding
    → s.stage q ≡ detect_look
    → Leads s q p (finished (err abandoned)) (finished (ok tt)) (both none none)
unfolding act resume resume_acquire resume_release resume_detect
detect-false_alarm p q s n r hp hq =
    let i = reached-IsExclusive s r in
    let world : s.world ≡ both (some p) (some p) =
      ap₂ both ((i p).0 (rw hp refl)) ((i p).1 (rw hp refl)) in
    let m : q ≢ p = λ e. n (sym e) in
    let start : Leads s p q holding detect_look (both (some p) (some p)) = record {
      last = s;
      run = stays;
      here = hp;
      there = hq;
      now = world;
    } in
    let seen = answers m done (both (some p) (some p)) refl (turn start) in
    let removed =
      answers n done (both (some p) none) refl (enters n release_remove releases (turn seen)) in
    let synced = answers n done (both (some p) none) refl removed in
    let gone =
      answers n done (both none none) (ap (λ h. some (both h none)) (let_go-same p)) synced in
    let opened = answers m done (both none none) refl (turn gone) in
    let locked = answers m done (both (some q) none) refl opened in
    answers m done (both none none) (ap (λ h. some (both h none)) (let_go-same q)) locked
