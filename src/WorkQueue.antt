-- ===== src/WorkQueue.antt =====
-- server/pkg/workqueue/workqueue.go: what the queues hold. The children are the queues.
pub mod Memory
pub mod Redis
use moblog_cloud.Prelude.{ℕ, ◌*◌, GoString}

-- A job with its identifier and its time to run, in nanoseconds.
pub record JobEntry (J : Type 0) : Type 0 where
  pub id : GoString
  pub ttr : ℕ
  pub job : J
