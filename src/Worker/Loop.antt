-- ===== src/Worker/Loop.antt =====
-- server/pkg/worker/worker.go: the goroutine that consumes jobs, `Stop` and `Wait`, as steps. The channel
-- holds nothing: what `Stop` sends on it, an acknowledgement channel, goes to one receiver. A panic ends
-- the process. `Stop` is called once; what a job does is left out.
pub mod Stopping
use moblog_cloud.Prelude.{ℕ, suc, Bool, true, false, ◌≡◌, ◌≢◌}

-- Where `consumeJobs` is: at the select, with the acknowledgement that it has received, in
-- `consumeOneJob`, or ended by a panic.
pub data Consumer : Type 0 where
  selecting acking working panicked : Consumer

-- Where `Stop` is: sending on the channel, waiting for the acknowledgement, or returned.
pub data Stopper : Type 0 where
  not_called sending awaiting returned : Stopper

-- `jobs` counts the calls of `consumeOneJob`, `waiting` the calls of `Wait` that wait.
pub record Loop : Type 0 where
  pub consumer : Consumer
  pub stopper : Stopper
  pub ack_closed : Bool
  pub closed : Bool
  pub waiting : ℕ
  pub jobs : ℕ

-- `New`
abbrev pub new_loop : Loop
new_loop = record {
  consumer = selecting;
  stopper = not_called;
  ack_closed = false;
  closed = false;
  waiting = 0;
  jobs = 0;
}

-- A step of some goroutine. The select takes its default only where nothing can be received; from the
-- closed channel it receives nil, and closing that panics.
pub data Step (s : Loop) : Loop → Type 0 where
  calls_stop :
      s.consumer ≢ panicked → s.stopper ≡ not_called → Step s (record s { stopper = sending })
  takes_ack :
      s.consumer ≡ selecting
      → s.stopper ≡ sending
      → Step s (record s { consumer = acking; stopper = awaiting })
  closes_ack :
      s.consumer ≡ acking
      → Step s (record s { consumer = working; ack_closed = true; jobs = suc s.jobs })
  finds_nothing :
      s.consumer ≡ selecting
      → s.stopper ≢ sending
      → s.closed ≡ false
      → Step s (record s { consumer = working; jobs = suc s.jobs })
  ends_job : s.consumer ≡ working → Step s (record s { consumer = selecting })
  returns :
      s.consumer ≢ panicked
      → s.stopper ≡ awaiting
      → s.ack_closed ≡ true
      → Step s (record s { stopper = returned; closed = true })
  takes_nil : s.consumer ≡ selecting → s.closed ≡ true → Step s (record s { consumer = panicked })
  calls_wait : s.consumer ≢ panicked → Step s (record s { waiting = suc s.waiting })
  wait_takes_ack :
      (others : ℕ)
      → s.consumer ≢ panicked
      → s.stopper ≡ sending
      → s.waiting ≡ suc others
      → Step s (record s { waiting = others; stopper = awaiting })
  wait_sees_close :
      (others : ℕ)
      → s.consumer ≢ panicked
      → s.closed ≡ true
      → s.waiting ≡ suc others
      → Step s (record s { waiting = others })

pub data Run (s : Loop) : Loop → Type 0 where
  stay : Run s s
  go : {t u : Loop} → Run s t → Step t u → Run s u
