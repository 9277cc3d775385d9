-- ===== src/WorkQueue/Memory/System/Blocking.antt =====
-- server/pkg/workqueue/memoryworkqueue.go: what happens when `groom` reaches the bound of the channel with
-- the mutex held.
use moblog_cloud.Prelude.{
  ℕ, ◌≤◌, GoString, some, List, [], ◌∷◌, ◌≡◌, ◌≢◌, arith, length, inl, inr, sym, ◌∙◌, ap,
}
use moblog_cloud.WorkQueue.{JobEntry}
use moblog_cloud.WorkQueue.Memory.{MemoryQueue, memory_max_pending_jobs, send, new_entry}
use moblog_cloud.WorkQueue.Memory.System.{
  idle, sending, System, groom_step, Event, finished, Step, posts, refuses, receives, reserves,
  finishes, grooms, sweeps,
}
use moblog_cloud.WorkQueue.Memory.System.Reachable.{Occurs}

no_finish :
    {e : Event} (es : List Event) (id : GoString)
    → ((id : GoString) → ¬ (finished id ≡ e))
    → ¬ Occurs (finished id) es
    → ¬ Occurs (finished id) (e ∷ es)
no_finish es id not_this before (inl now) = not_this id now
no_finish es id not_this before (inr earlier) = before earlier

module _ {J : Type 0} where
  -- The groomer has an entry to put back, holds the mutex, and the channel is full.
  abbrev pub IsBlocked : System J → Type 0
  IsBlocked s =
      (entry : JobEntry J) × (ids : List GoString) × (now : ℕ) × (s.groomer ≡ sending entry ids now)
      × (memory_max_pending_jobs ≤ length s.queue.pending)

  abbrev pub IsReceive : {s t : System J} {e : Event} → Step s e t → Type 0
  IsReceive (receives entry rest h) = Unit
  IsReceive _ = ⊥

  -- Steps of which none receives from the channel.
  pub data Unserved (s : System J) : List Event → System J → Type 0 where
    none_yet : Unserved s [] s
    and_then :
        {es : List Event} {t u : System J} {e : Event}
        → Unserved s es t
        → (step : Step t e u) → ¬ IsReceive step
        → Unserved s (e ∷ es) u

  idle-ne-sending :
      {entry : JobEntry J} {ids : List GoString} {now : ℕ} → idle ≢ sending entry ids now
  idle-ne-sending h = cc

  full-send :
      (entry : JobEntry J) (q sent : MemoryQueue J)
      → memory_max_pending_jobs ≤ length q.pending
      → send entry q ≢ some sent
  unfolding send
  full-send entry q sent full h = ground arith

  stuck :
      (entry : JobEntry J) (ids : List GoString) (now : ℕ) (s t : System J)
      → memory_max_pending_jobs ≤ length s.queue.pending
      → groom_step (sending entry ids now) s ≢ some t
  unfolding groom_step
  stuck entry ids now s t full h = ground arith

  Step-IsBlocked :
      {s t : System J} {e : Event}
      → (step : Step s e t) → ¬ IsReceive step
      → IsBlocked s
      → IsBlocked t × ((id : GoString) → ¬ (finished id ≡ e))
  unfolding new_entry
  Step-IsBlocked {s} (posts job ttr sent room h) quiet b =
      absurd (full-send (new_entry job ttr s.queue).0 (new_entry job ttr s.queue).1 sent b.4 h)
  Step-IsBlocked (refuses job ttr room h) quiet b = (b, λ id f. cc)
  Step-IsBlocked (receives entry rest h) quiet b = absurd (quiet tt)
  Step-IsBlocked (reserves before after entry now g h) quiet b =
      absurd (idle-ne-sending (sym g ∙ b.3))
  Step-IsBlocked (finishes entry g) quiet b = absurd (idle-ne-sending (sym g ∙ b.3))
  Step-IsBlocked (grooms ids now g) quiet b = absurd (idle-ne-sending (sym g ∙ b.3))
  Step-IsBlocked {s} (sweeps t h) quiet b =
      absurd (stuck b.0 b.1 b.2 s t b.4 (sym (ap (λ g. groom_step g s) b.3) ∙ h))

  -- Once the groomer waits for a full channel, and as long as nothing is received from the channel,
  -- it waits on and no `Finish` returns, whatever else is called.
  pub IsBlocked-for_ever :
      {s t : System J} {es : List Event} (id : GoString)
      → IsBlocked s
      → Unserved s es t
      → IsBlocked t × ¬ Occurs (finished id) es
  IsBlocked-for_ever id b none_yet = (b, λ o. o)
  IsBlocked-for_ever id b (and_then run step quiet) =
      let (still, none_finished) = IsBlocked-for_ever id b run in
      let (stays, not_this) = Step-IsBlocked step quiet still in
      (stays, no_finish _ id not_this none_finished)
