-- ===== src/Worker.antt =====
-- server/pkg/worker/worker.go: how a worker takes one job from its queue. The disk is the parameter
-- `disk`; the rendering of a blog (renderworker.go) is an argument, with the job's time to run.
pub mod Jobs
pub mod Rendering
pub mod Loop
use moblog_cloud.Prelude.{
  ℕ, ◌*◌, GoString, codes, ◌==◌, Bool, true, false, ◌||◌, Option, none, some, List, [], ◌∷◌, ◌++◌,
  Error, message, Result, ok, err, panic, wrap_err, if◌then◌else◌,
}
use moblog_cloud.WorkQueue.{JobEntry}
use moblog_cloud.GitServer.Paths.{path_join}
use moblog_cloud.GitServer.Handlers.{RenderJob}

-- `job.Data`: the one type of job that there is, or some other value.
pub data JobData : Type 0 where
  render_job : RenderJob → JobData
  other_data : GoString → JobData

-- What the worker calls of its queue.
pub record WorkerQueue (Q : Type 0) : Type 0 where
  pub pick : ℕ → Q → Result (Option (JobEntry JobData)) × Q
  pub finish : JobEntry JobData → Q → Result (Unit {0}) × Q

pub record Disk (W : Type 0) : Type 0 where
  pub read_dir : GoString → W → Result (List GoString)
  pub remove_all : GoString → W → Result (Unit {0}) × W

abbrev pub pick_timeout : ℕ
pick_timeout = 1000000000

module _ {W Q : Type 0} (disk : Disk W) (queue : WorkerQueue Q) (work_dir : GoString)
    (render : ℕ → RenderJob → W → Result (Unit {0}) × W) where
  abbrev pub is_dots : GoString → Bool
  is_dots name = name == codes "." || name == codes ".."

  -- Goes on where the entry is gone, and ends where it is not.
  abbrev pub removed : Result (Unit {0}) × W → (W → Result (Unit {0}) × W) → Result (Unit {0}) × W
  removed (ok _, w) go_on = go_on w
  removed (err e, w) go_on = (wrap_err (err e) (codes "Error while deleting"), w)
  removed (panic, w) go_on = (panic, w)

  unfoldable pub clear_entries : GoString → List GoString → W → Result (Unit {0}) × W
  clear_entries dir [] w = (ok tt, w)
  clear_entries dir (name ∷ names) w =
      let skipped = clear_entries dir names w in
      let deleted =
        removed (disk.remove_all (path_join (dir ∷ name ∷ [])) w) (clear_entries dir names) in
      if is_dots name then skipped else deleted

  abbrev pub clear_listed : GoString → Result (List GoString) → W → Result (Unit {0}) × W
  clear_listed dir (ok names) w = clear_entries dir names w
  clear_listed dir (err e) w = (wrap_err (err e) (codes "Error while listing directory"), w)
  clear_listed dir panic w = (panic, w)

  unfoldable pub clear_directory : GoString → W → Result (Unit {0}) × W
  unfolding clear_entries
  clear_directory dir w = clear_listed dir (disk.read_dir dir w) w

  -- A failed rendering is logged.
  abbrev pub rendered : Result (Unit {0}) × W → Result (Unit {0}) × W
  rendered (panic, w) = (panic, w)
  rendered (_, w) = (ok tt, w)

  abbrev pub handle_data : ℕ → JobData → W → Result (Unit {0}) × W
  handle_data ttr (render_job job) w = rendered (render ttr job w)
  handle_data ttr (other_data text) w = (err (message (codes "Unknown job type: " ++ text)), w)

  abbrev pub handle : JobEntry JobData → Result (Unit {0}) × W → Result (Unit {0}) × W
  handle job (ok _, w) = handle_data job.ttr job.job w
  handle job (err e, w) = (wrap_err (err e) (codes "Error while clearing work directory"), w)
  handle job (panic, w) = (panic, w)

  -- The deferred `Finish`, which runs however the handling has ended; its error is logged.
  abbrev pub deferred_finish :
      JobEntry JobData → Result (Unit {0}) × W → Q → Result (Unit {0}) × W × Q
  deferred_finish job (r, w) q =
      let (answer, q') = queue.finish job q in (elim answer [ panic ↦ panic | _ ↦ r ], w, q')

  abbrev pub consume_picked : Result (Option (JobEntry JobData)) × Q → W → Result (Unit {0}) × W × Q
  consume_picked (err e, q) w = (wrap_err (err e) (codes "Error while picking job"), w, q)
  consume_picked (panic, q) w = (panic, w, q)
  consume_picked (ok none, q) w = (ok tt, w, q)
  consume_picked (ok (some job), q) w =
      deferred_finish job (handle job (clear_directory work_dir w)) q

  unfoldable pub consume_one_job : W → Q → Result (Unit {0}) × W × Q
  unfolding clear_directory
  consume_one_job w q = consume_picked (queue.pick pick_timeout q) w
