-- ===== src/Tests/Workers.antt =====
-- Tests of server/pkg/worker, on a disk that is a set of paths and a queue that is a list.
use moblog_cloud.Prelude.{
  ℕ, GoString, codes, ◌==◌, eq_refl, Bool, true, false, some, List, [], ◌∷◌, Result, ok, err,
  message, if◌then◌else◌, ◌≡◌, ◌≢◌, ◌⊎◌, refl, Bool-cases, inl, inr,
}
use moblog_cloud.WorkQueue.{JobEntry}
use moblog_cloud.GitServer.Handlers.{RenderJob}
use moblog_cloud.Worker.{JobData, other_data, WorkerQueue, Disk, pick_timeout, consume_one_job}
use moblog_cloud.Worker.Jobs.{IsDisk, consume_one_job-finishes}

abbrev PathSet : Type 0
PathSet = GoString → Bool

abbrev disk : Disk PathSet
disk = record {
  read_dir = λ dir w. ok (codes "." ∷ codes "blog" ∷ []);
  remove_all = λ path w. (ok tt, λ other. if path == other then false else w other);
}

abbrev exists : GoString → PathSet → Bool
exists path w = w path

disk-IsDisk : IsDisk disk exists
disk-IsDisk = record {
  removes = λ path w h. rw (eq_refl path) refl;
  creates_none = λ path other w h. elim (Bool-cases (path == other)) [
    | inl same ↦ rw same refl
    | inr differs ↦ rw differs h
  ];
}

abbrev strange_job : JobEntry JobData
strange_job = record { id = codes "1"; ttr = 60; job = other_data (codes "x") }

abbrev queue : WorkerQueue (List (JobEntry JobData))
queue = record {
  pick = λ timeout q. (ok (some strange_job), q);
  finish = λ job q. (ok tt, job ∷ q);
}

abbrev render : ℕ → RenderJob → PathSet → Result (Unit {0}) × PathSet
render ttr job w = (err (message []), w)

abbrev everything : PathSet
everything path = true

consume_one_job-finishes_example :
    let answer = consume_one_job disk queue (codes "/w") render everything [] in
    let (picked, rest) = queue.pick pick_timeout [] in
    ((job : JobEntry JobData) × (picked ≡ ok (some job)) × (answer.2 ≡ (queue.finish job rest).1))
    ⊎ (((job : JobEntry JobData) → picked ≢ ok (some job))
        × (answer.1 ≡ everything)
        × (answer.2 ≡ rest))
consume_one_job-finishes_example =
    consume_one_job-finishes disk queue (codes "/w") render everything []
