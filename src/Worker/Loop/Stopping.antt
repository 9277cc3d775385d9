-- ===== src/Worker/Loop/Stopping.antt =====
-- server/pkg/worker/worker.go: what becomes of a worker that is stopped.
use moblog_cloud.Prelude.{ℕ, suc, true, false, ◌≡◌, ◌≢◌, refl}
use moblog_cloud.Worker.Loop.{
  Consumer, selecting, acking, working, panicked, sending, awaiting, returned, Loop, new_loop, Step,
  calls_stop, takes_ack, closes_ack, finds_nothing, ends_job, returns, takes_nil, calls_wait,
  wait_takes_ack, wait_sees_close, Run, stay, go,
}

-- How far a stop has come.
data Phase (s : Loop) : Type 0 where
  before :
      s.stopper ≢ awaiting
      → s.stopper ≢ returned
      → s.ack_closed ≡ false
      → s.closed ≡ false
      → s.consumer ≢ acking
      → s.consumer ≢ panicked
      → Phase s
  handed :
      s.stopper ≡ awaiting
      → s.ack_closed ≡ false
      → s.closed ≡ false
      → s.consumer ≢ panicked
      → Phase s
  acked :
      s.stopper ≡ awaiting
      → s.ack_closed ≡ true
      → s.closed ≡ false
      → s.consumer ≢ acking
      → s.consumer ≢ panicked
      → Phase s
  stopped : s.stopper ≡ returned → s.closed ≡ true → s.consumer ≢ acking → Phase s

Step-Phase : {s t : Loop} → Step s t → Phase s → Phase t
Step-Phase (calls_stop alive i) (before na nr a c k p) = before (λ e. cc) (λ e. cc) a c k p
Step-Phase (calls_stop alive i) (handed st a c p) = absurd cc
Step-Phase (calls_stop alive i) (acked st a c k p) = absurd cc
Step-Phase (calls_stop alive i) (stopped st c k) = absurd cc
Step-Phase (takes_ack i j) (before na nr a c k p) = handed refl a c (λ e. cc)
Step-Phase (takes_ack i j) (handed st a c p) = absurd cc
Step-Phase (takes_ack i j) (acked st a c k p) = absurd cc
Step-Phase (takes_ack i j) (stopped st c k) = absurd cc
Step-Phase (closes_ack i) (before na nr a c k p) = absurd (k i)
Step-Phase (closes_ack i) (handed st a c p) = acked st refl c (λ e. cc) (λ e. cc)
Step-Phase (closes_ack i) (acked st a c k p) = absurd (k i)
Step-Phase (closes_ack i) (stopped st c k) = absurd (k i)
Step-Phase (finds_nothing i j l) (before na nr a c k p) = before na nr a c (λ e. cc) (λ e. cc)
Step-Phase (finds_nothing i j l) (handed st a c p) = handed st a c (λ e. cc)
Step-Phase (finds_nothing i j l) (acked st a c k p) = acked st a c (λ e. cc) (λ e. cc)
Step-Phase (finds_nothing i j l) (stopped st c k) = absurd cc
Step-Phase (ends_job i) (before na nr a c k p) = before na nr a c (λ e. cc) (λ e. cc)
Step-Phase (ends_job i) (handed st a c p) = handed st a c (λ e. cc)
Step-Phase (ends_job i) (acked st a c k p) = acked st a c (λ e. cc) (λ e. cc)
Step-Phase (ends_job i) (stopped st c k) = stopped st c (λ e. cc)
Step-Phase (returns alive i j) (before na nr a c k p) = absurd cc
Step-Phase (returns alive i j) (handed st a c p) = absurd cc
Step-Phase (returns alive i j) (acked st a c k p) = stopped refl refl k
Step-Phase (returns alive i j) (stopped st c k) = absurd cc
Step-Phase (takes_nil i j) (before na nr a c k p) = absurd cc
Step-Phase (takes_nil i j) (handed st a c p) = absurd cc
Step-Phase (takes_nil i j) (acked st a c k p) = absurd cc
Step-Phase (takes_nil i j) (stopped st c k) = stopped st c (λ e. cc)
Step-Phase (calls_wait alive) (before na nr a c k p) = before na nr a c k p
Step-Phase (calls_wait alive) (handed st a c p) = handed st a c p
Step-Phase (calls_wait alive) (acked st a c k p) = acked st a c k p
Step-Phase (calls_wait alive) (stopped st c k) = stopped st c k
Step-Phase (wait_takes_ack n alive i j) (before na nr a c k p) = handed refl a c p
Step-Phase (wait_takes_ack n alive i j) (handed st a c p) = absurd cc
Step-Phase (wait_takes_ack n alive i j) (acked st a c k p) = absurd cc
Step-Phase (wait_takes_ack n alive i j) (stopped st c k) = absurd cc
Step-Phase (wait_sees_close n alive i j) (before na nr a c k p) = absurd cc
Step-Phase (wait_sees_close n alive i j) (handed st a c p) = absurd cc
Step-Phase (wait_sees_close n alive i j) (acked st a c k p) = absurd cc
Step-Phase (wait_sees_close n alive i j) (stopped st c k) = stopped st c k

Run-Phase : {s : Loop} → Run new_loop s → Phase s
Run-Phase stay = before (λ e. cc) (λ e. cc) refl refl (λ e. cc) (λ e. cc)
Run-Phase (go run step) = Step-Phase step (Run-Phase run)

-- Nothing but the end of the job at hand and the panic is left once `Stop` has returned.
abbrev IsEnding : ℕ → Loop → Type 0
IsEnding n s = (s.stopper ≡ returned) × (s.closed ≡ true) × (s.consumer ≢ acking) × (s.jobs ≡ n)

Phase-sending :
    {s : Loop}
    → Phase s
    → s.stopper ≡ sending
    → (s.ack_closed ≡ false) × (s.consumer ≢ acking) × (s.consumer ≢ panicked)
Phase-sending (before na nr a c k p) i = (a, k, p)
Phase-sending (handed st a c p) i = absurd cc
Phase-sending (acked st a c k p) i = absurd cc
Phase-sending (stopped st c k) i = absurd cc

-- `Stop` waits for an acknowledgement that nobody has.
abbrev IsStolen : Loop → Type 0
IsStolen s = (s.stopper ≡ awaiting) × (s.ack_closed ≡ false) × (s.consumer ≢ acking)

Step-IsStolen : {s t : Loop} → Step s t → IsStolen s → IsStolen t
Step-IsStolen (calls_stop alive i) (st, a, k) = absurd cc
Step-IsStolen (takes_ack i i2) (st, a, k) = absurd cc
Step-IsStolen (closes_ack i) (st, a, k) = absurd (k i)
Step-IsStolen (finds_nothing i i2 i3) (st, a, k) = (st, a, λ e. cc)
Step-IsStolen (ends_job i) (st, a, k) = (st, a, λ e. cc)
Step-IsStolen (returns alive i i2) (st, a, k) = absurd cc
Step-IsStolen (takes_nil i i2) (st, a, k) = (st, a, λ e. cc)
Step-IsStolen (calls_wait alive) (st, a, k) = (st, a, k)
Step-IsStolen (wait_takes_ack n alive i i2) (st, a, k) = absurd cc
Step-IsStolen (wait_sees_close n alive i i2) (st, a, k) = (st, a, k)

Run-IsStolen : {s t : Loop} → IsStolen s → Run s t → IsStolen t
Run-IsStolen is stay = is
Run-IsStolen is (go run step) = Step-IsStolen step (Run-IsStolen is run)

-- Where `Stop` sends while a `Wait` waits, the `Wait` can receive what `Stop` sends: it returns although
-- the worker goes on, and `Stop` waits for ever.
pub wait-steals :
    {s : Loop} (others : ℕ)
    → Run new_loop s
    → s.stopper ≡ sending
    → s.waiting ≡ suc others
    → (t : Loop) × Step s t × (t.waiting ≡ others) × ((u : Loop) → Run t u → u.stopper ≡ awaiting)
wait-steals {s} others run i w =
    let (a, k, alive) = Phase-sending (Run-Phase run) i in
    (
      _,
      wait_takes_ack others alive i w,
      refl,
      λ u more. let (st, _, _) = Run-IsStolen (refl, a, k) more in st,
    )

to_returned :
    (c : Consumer) (s : Loop)
    → s.consumer ≡ c
    → c ≢ acking
    → c ≢ panicked
    → s.stopper ≡ sending
    → (t : Loop) × Run s t × (t.stopper ≡ returned) × (t.jobs ≡ suc s.jobs)
to_returned selecting s e k p i = (
  _,
  go (go (go stay (takes_ack e i)) (closes_ack refl)) (returns (λ h. cc) refl refl),
  refl,
  refl,
)
to_returned acking s e k p i = absurd (k refl)
to_returned working s e k p i = (
  _,
  go (go (go (go stay (ends_job e)) (takes_ack refl i)) (closes_ack refl))
      (returns (λ h. cc) refl refl),
  refl,
  refl,
)
to_returned panicked s e k p i = absurd (p refl)

-- From wherever `Stop` sends, it can come to return; but the worker has begun one more job by then.
pub stop-returns :
    {s : Loop}
    → Run new_loop s
    → s.stopper ≡ sending
    → (t : Loop) × Run s t × (t.stopper ≡ returned) × (t.jobs ≡ suc s.jobs)
stop-returns {s} run i =
    let (_, k, p) = Phase-sending (Run-Phase run) i in to_returned s.consumer s refl k p i
