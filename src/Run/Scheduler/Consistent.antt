-- ===== src/Run/Scheduler/Consistent.antt =====
-- Which statuses of a run agree with the files of its directory (src/run.rs), and what a stage of
-- `advance` must keep.
use quinte.Prelude.{
  ◌≡◌, refl, Bool, true, false, not, ◌&&◌, ◌||◌, Result, ok, err, ◌>>=◌, All, arith, if◌then◌else◌,
}
use quinte.Model.Routes.{Policy}
use quinte.Model.Status.{
  RunStatus, queued, preflight, r1_running, r1_gate, r2_packet, r2_running, r2_gate, r3_cc,
  waiting_primary_arbiter, merging, completed, degraded, cancelling, cancelled, terminal,
}
use quinte.Run.Phase.{phase_complete}
use quinte.Store.{status_eq, transition_allowed, effective_status}
use quinte.Run.Scheduler.{
  Submission, is_submitted, accepted, RunState, AdvanceError, store_failed, Session, Return, Stage,
  save, with_status, request,
}

abbrev pub is_accepted : Submission → Bool
is_accepted accepted = true
is_accepted _ = false

-- R2 has been skipped, or its lanes have all answered.
abbrev pub settled : Policy → RunState → Bool
settled p r = r.r2_skipped || (r.r2_packet_written && phase_complete p.roster r.r2)

-- Neither arbiter has answered.
abbrev unanswered : RunState → Bool
unanswered r = not r.cc_response && not (is_submitted r.submission)

-- What the files must hold for a status: all of R1 from its gate on, all of R2 from its gate on or
-- the record that it was skipped, the answer of the Counterpart Arbiter from the wait on, and an
-- accepted submission from the merge on.
abbrev supports : Policy → RunState → RunStatus → Bool
supports p r queued = not (phase_complete p.roster r.r1) && unanswered r
supports p r preflight = not (phase_complete p.roster r.r1) && unanswered r
supports p r r1_running = unanswered r
supports p r r1_gate = phase_complete p.roster r.r1 && unanswered r
supports p r r2_packet = phase_complete p.roster r.r1 && unanswered r
supports p r r2_running =
    phase_complete p.roster r.r1 && (r.r2_skipped || r.r2_packet_written) && unanswered r
supports p r r2_gate = phase_complete p.roster r.r1 && settled p r && unanswered r
supports p r r3_cc =
    phase_complete p.roster r.r1
    && settled p r
    && (r.cc_response || not (is_submitted r.submission))
supports p r waiting_primary_arbiter = phase_complete p.roster r.r1 && settled p r && r.cc_response
supports p r merging =
    phase_complete p.roster r.r1 && settled p r && r.cc_response && is_accepted r.submission
supports p r completed =
    phase_complete p.roster r.r1 && settled p r && r.cc_response && is_accepted r.submission
supports p r degraded =
    phase_complete p.roster r.r1 && settled p r && r.cc_response && is_accepted r.submission
supports p r _ = true

abbrev pub consistent : Policy → RunState → Bool
consistent p r = supports p r r.status

-- Everything that was saved is consistent, and so is the run as the scheduler holds it.
pub record IsSafe (p : Policy) (s : Session) : Type 0 where
  pub now : consistent p s.state ≡ true
  pub before : All (λ r. consistent p r ≡ true) s.saved

-- A call may return a status that is final or the wait for the primary arbiter, and the run has that
-- status; it never fails because a transition is illegal.
abbrev is_store_failure : AdvanceError → Bool
is_store_failure (store_failed e) = true
is_store_failure _ = false

abbrev pub IsProper : RunState → Result AdvanceError RunStatus → Type 0
IsProper r (ok status) =
    (r.status ≡ status) × ((terminal status || status_eq status waiting_primary_arbiter) ≡ true)
IsProper r (err e) = is_store_failure e ≡ false

abbrev pub IsReturn : Policy → Return → Type 0
IsReturn p (s, r) = IsSafe p s × IsProper s.state r

abbrev pub Keeps : {A : Type 0} → Policy → (RunState → Bool) → Stage A → Type 0
Keeps p post (ok (s, a)) = IsSafe p s × (post s.state ≡ true)
Keeps p post (err r) = IsReturn p r

pub Keeps-bind :
    {A B : Type 0} (p : Policy) (post next : RunState → Bool) (m : Stage A)
    (f : Session × A → Stage B)
    → Keeps p post m
    → ((s : Session) (a : A) → IsSafe p s → post s.state ≡ true → Keeps p next (f (s, a)))
    → Keeps p next (m >>= f)
Keeps-bind p post next (ok (s, a)) f (safe, h) step = step s a safe h
Keeps-bind p post next (err r) f h step = h

-- A test that a stage makes.
pub Keeps-if :
    {A : Type 0} (p : Policy) (post : RunState → Bool) (b : Bool) (m n : Stage A)
    → (b ≡ true → Keeps p post m)
    → (b ≡ false → Keeps p post n)
    → Keeps p post (if b then m else n)
Keeps-if p post true m n yes_case no_case = yes_case refl
Keeps-if p post false m n yes_case no_case = no_case refl

pub save-IsSafe :
    (p : Policy) (r : RunState) (s : Session)
    → IsSafe p s
    → consistent p r ≡ true
    → IsSafe p (save r s)
save-IsSafe p r s safe h = record { now = h; before = (h, safe.before) }

-- The run may be asked for a status: it is being cancelled, or the change is legal and the files
-- support the new status.
abbrev pub permits : Policy → RunState → RunStatus → Bool
permits p r to =
    status_eq r.status cancelling
    || (transition_allowed r.status to && consistent p (with_status to r))

-- The statuses that the scheduler goes on from, and those that it may return.
abbrev pub goes_on : RunStatus → Bool
goes_on to = not (terminal to) && not (status_eq to cancelling)

abbrev pub is_returned : RunStatus → Bool
is_returned to = terminal to || status_eq to waiting_primary_arbiter

effective-cancelled :
    (to : RunStatus)
    → status_eq to cancelling ≡ false
    → effective_status (λ _. true) true to ≡ cancelled
effective-cancelled to h = ground arith

pub request-running :
    (cancel : Bool) (from to : RunStatus)
    → terminal from ≡ false
    → status_eq to cancelling ≡ false
    → (cancel || transition_allowed from to) ≡ true
    → request cancel from to ≡ ok (if cancel then cancelled else to)
unfolding request transition_allowed
request-running true from to live not_cancelling h =
    ground (arith, effective-cancelled to not_cancelling)
request-running false from to live not_cancelling h = ground arith

pub request-ended :
    (cancel : Bool) (from to : RunStatus) → terminal from ≡ true → request cancel from to ≡ ok from
unfolding request
request-ended cancel from to h = ground arith
