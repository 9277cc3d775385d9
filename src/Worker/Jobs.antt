-- ===== src/Worker/Jobs.antt =====
-- server/pkg/worker/worker.go: what becomes of a job and of the work directory.
use moblog_cloud.Prelude.{
  ℕ, GoString, Bool, true, false, Option, none, some, List, [], ◌∷◌, Result, ok, err, panic, All,
  ◌≡◌, ◌≢◌, refl, ap, sym, subst, ◌∙◌, Bool-cases, inl, inr, ◌⊎◌, ok-ne-err, ok_inj,
}
use mathlib.Core.Option.{none-ne-some}
use moblog_cloud.WorkQueue.{JobEntry}
use moblog_cloud.GitServer.Paths.{path_join}
use moblog_cloud.GitServer.Handlers.{RenderJob}
use moblog_cloud.Worker.{
  JobData, WorkerQueue, Disk, pick_timeout, is_dots, removed, clear_entries, clear_directory,
  consume_picked, consume_one_job,
}

-- What `os.RemoveAll` promises: the path is gone, and nothing comes into being.
pub record IsDisk {W : Type 0} (disk : Disk W) (exists : GoString → W → Bool) : Type 0 where
  pub removes :
      (path : GoString) (w : W)
      → (disk.remove_all path w).0 ≡ ok tt
      → exists path (disk.remove_all path w).1 ≡ false
  pub creates_none :
      (path other : GoString) (w : W)
      → exists other w ≡ false
      → exists other (disk.remove_all path w).1 ≡ false

module _ {W Q : Type 0} (disk : Disk W) (queue : WorkerQueue Q) (work_dir : GoString)
    (render : ℕ → RenderJob → W → Result (Unit {0}) × W) where
  -- Whatever a worker makes of one turn: either it picked a job, and the job is finished, once, also
  -- where the directory could not be cleared, the job is of an unknown type, or the rendering failed
  -- or panicked; or the pick gave no job, and the queue is as the pick left it and the disk as it was.
  pub consume_one_job-finishes :
      (w : W) (q : Q)
      → let answer = consume_one_job disk queue work_dir render w q in
        let (picked, rest) = queue.pick pick_timeout q in
        ((job : JobEntry JobData) × (picked ≡ ok (some job))
          × (answer.2 ≡ (queue.finish job rest).1))
        ⊎ (((job : JobEntry JobData) → picked ≢ ok (some job)) × (answer.1 ≡ w) × (answer.2 ≡ rest))
  unfolding consume_one_job
  consume_one_job-finishes w q = go (queue.pick pick_timeout q)
    where
      go :
          (p : Result (Option (JobEntry JobData)) × Q)
          → ((job : JobEntry JobData) × (p.0 ≡ ok (some job))
              × ((consume_picked disk queue work_dir render p w).2 ≡ (queue.finish job p.1).1))
            ⊎ (((job : JobEntry JobData) → p.0 ≢ ok (some job))
                × ((consume_picked disk queue work_dir render p w).1 ≡ w)
                × ((consume_picked disk queue work_dir render p w).2 ≡ p.1))
      go (err e, q') = inr ((λ job h. ok-ne-err (sym h)), refl, refl)
      go (panic, q') = inr ((λ job h. cc), refl, refl)
      go (ok none, q') = inr ((λ job h. none-ne-some job (ok_inj h)), refl, refl)
      go (ok (some job), q') = inl (job, refl, refl)

  module _ {exists : GoString → W → Bool} (is_disk : IsDisk disk exists) where
    removed-eq-ok :
        (r : Result (Unit {0}) × W) (go_on : W → Result (Unit {0}) × W)
        → (removed disk queue work_dir render r go_on).0 ≡ ok tt
        → (r.0 ≡ ok tt) × (removed disk queue work_dir render r go_on ≡ go_on r.1)
    removed-eq-ok (ok _, w) go_on h = (refl, refl)
    removed-eq-ok (err e, w) go_on h = cc
    removed-eq-ok (panic, w) go_on h = cc

    -- Clearing brings nothing back.
    clear_entries-creates_none :
        (dir other : GoString) (names : List GoString) (w : W)
        → exists other w ≡ false
        → (clear_entries disk queue work_dir render dir names w).0 ≡ ok tt
        → exists other (clear_entries disk queue work_dir render dir names w).1 ≡ false
    unfolding clear_entries
    clear_entries-creates_none dir other [] w gone h = gone
    clear_entries-creates_none dir other (name ∷ names) w gone h =
        elim (Bool-cases (is_dots disk queue work_dir render name)) [
          | inl dots ↦ rw dots (clear_entries-creates_none dir other names w gone (rw dots at h))
          | inr real ↦
              let (done, same) =
                removed-eq-ok (disk.remove_all (path_join (dir ∷ name ∷ [])) w)
                  (clear_entries disk queue work_dir render dir names) (rw real at h) in
              rw (real, same)
                (clear_entries-creates_none dir other names _ (is_disk.creates_none _ other w gone)
                  (ap (λ p. p.0) (sym same) ∙ (rw real at h)))
        ]

    -- An entry of the directory is gone, or is one of the two that stand for directories.
    abbrev pub IsGone : GoString → W → GoString → Type 0
    IsGone dir w name =
        (is_dots disk queue work_dir render name ≡ true)
        ⊎ (exists (path_join (dir ∷ name ∷ [])) w ≡ false)

    clear_entries-dots :
        (dir name : GoString) (names : List GoString) (w : W)
        → is_dots disk queue work_dir render name ≡ true
        → clear_entries disk queue work_dir render dir (name ∷ names) w
          ≡ clear_entries disk queue work_dir render dir names w
    unfolding clear_entries
    clear_entries-dots dir name names w dots = rw dots refl

    clear_entries-real :
        (dir name : GoString) (names : List GoString) (w : W)
        → is_dots disk queue work_dir render name ≡ false
        → (clear_entries disk queue work_dir render dir (name ∷ names) w).0 ≡ ok tt
        → ((disk.remove_all (path_join (dir ∷ name ∷ [])) w).0 ≡ ok tt)
          × (clear_entries disk queue work_dir render dir (name ∷ names) w
              ≡ clear_entries disk queue work_dir render dir names
                  (disk.remove_all (path_join (dir ∷ name ∷ [])) w).1)
    unfolding clear_entries
    clear_entries-real dir name names w real h =
        let (done, same) =
          removed-eq-ok (disk.remove_all (path_join (dir ∷ name ∷ [])) w)
            (clear_entries disk queue work_dir render dir names) (rw real at h) in
        (done, rw real same)

    clear_entries-IsGone :
        (dir : GoString) (names : List GoString) (w : W)
        → (clear_entries disk queue work_dir render dir names w).0 ≡ ok tt
        → All (IsGone dir (clear_entries disk queue work_dir render dir names w).1) names
    clear_entries-IsGone dir [] w h = tt
    clear_entries-IsGone dir (name ∷ names) w h =
        elim (Bool-cases (is_dots disk queue work_dir render name)) [
          | inl dots ↦
              let e = clear_entries-dots dir name names w dots in
              subst (λ p. IsGone dir p.1 name × All (IsGone dir p.1) names) (sym e)
                (inl dots, clear_entries-IsGone dir names w (ap (λ p. p.0) (sym e) ∙ h))
          | inr real ↦
              let (done, e) = clear_entries-real dir name names w real h in
              let rest_done = ap (λ p. p.0) (sym e) ∙ h in
              subst (λ p. IsGone dir p.1 name × All (IsGone dir p.1) names) (sym e)
                (
                  inr (
                      clear_entries-creates_none dir _ names _ (is_disk.removes _ w done)
                        rest_done),
                  clear_entries-IsGone dir names _ rest_done,
                )
        ]

    -- When the work directory was cleared without an error, nothing that it listed is left in it.
    pub clear_directory-IsGone :
        (dir : GoString) (w : W) (names : List GoString)
        → disk.read_dir dir w ≡ ok names
        → (clear_directory disk queue work_dir render dir w).0 ≡ ok tt
        → All (IsGone dir (clear_directory disk queue work_dir render dir w).1) names
    unfolding clear_directory
    clear_directory-IsGone dir w names listed h =
        rw listed (clear_entries-IsGone dir names w (rw listed at h))
