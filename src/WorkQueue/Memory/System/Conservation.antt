-- ===== src/WorkQueue/Memory/System/Conservation.antt =====
-- server/pkg/workqueue/memoryworkqueue.go: no job is lost, and none is in two places.
use moblog_cloud.Prelude.{
  ℕ, suc, ◌+◌, ◌^◌, ◌≤◌, ◌<◌, GoString, ◌==◌, eq_iff, Option, none, some, List, [], ◌∷◌, ◌++◌,
  if◌then◌else◌, ◌≡◌, arith, refl, Option-cases, inl, inr, ap, sym, ◌∙◌,
}
use moblog_cloud.Prelude.GoMap
use moblog_cloud.Prelude.GoMap.{get-put, get-delete}
use mathlib.Core.Option.{some_inj}
use moblog_cloud.IdGenerator.{format_uint}
use moblog_cloud.WorkQueue.{JobEntry}
use moblog_cloud.WorkQueue.Memory.{
  MemoryQueue, MemoryEntryMetadata, send, receive, new_entry, reserve_entry, finish,
}
use moblog_cloud.WorkQueue.Memory.System.{
  Groomer, idle, sweeping, sending, System, visit, groom_step, Event, moved, posted, finished, Step,
  posts, refuses, receives, reserves, finishes, grooms, sweeps,
}

module _ {J : Type 0} where
  -- How often an identifier stands in a list of entries.
  unfoldable pub count : GoString → List (JobEntry J) → ℕ
  count id [] = 0
  count id (entry ∷ rest) = let n = count id rest in if entry.id == id then suc n else n

  abbrev pub held : Option (MemoryEntryMetadata J) → ℕ
  held none = 0
  held (some m) = 1

  abbrev pub in_hand : GoString → Groomer J → ℕ
  in_hand id idle = 0
  in_hand id (sweeping ids now) = 0
  in_hand id (sending entry ids now) = if entry.id == id then 1 else 0

  -- In how many places the job with an identifier is: pending, received, reserved, or on its way back
  -- into the channel.
  unfoldable pub places : GoString → System J → ℕ
  places id s =
      count id s.queue.pending
      + count id s.received
      + held (GoMap.get s.queue.metadata id)
      + in_hand id s.groomer

  count-append :
      (id : GoString) (xs ys : List (JobEntry J)) → count id (xs ++ ys) ≡ count id xs + count id ys
  unfolding count
  count-append id [] ys = omega arith
  count-append id (x ∷ xs) ys = ground (arith, count-append id xs ys)

  -- The map is keyed by the identifiers of its entries, every job is in one place at most, and the
  -- identifiers that are still to come are in none.
  pub record Inv (s : System J) : Type 0 where
    pub keyed :
        (id : GoString) (m : MemoryEntryMetadata J)
        → GoMap.get s.queue.metadata id ≡ some m
        → m.entry.id ≡ id
    pub once : (id : GoString) → places id s ≤ 1
    pub fresh :
        (n : ℕ) → s.queue.id_generator.last_id < n → n < 2 ^ 64 → places (format_uint n) s ≡ 0

  pub send-places :
      (id : GoString) (entry : JobEntry J) (q sent : MemoryQueue J)
      → send entry q ≡ some sent
      → (count id sent.pending ≡ count id q.pending + (if entry.id == id then 1 else 0))
        × (sent.metadata ≡ q.metadata)
  unfolding send count
  send-places id entry q sent h = ground (arith, count-append id q.pending (entry ∷ []))

  visit-places :
      (id key : GoString) (ids : List GoString) (now : ℕ) (s : System J)
      (m : Option (MemoryEntryMetadata J))
      → Inv s
      → s.groomer ≡ sweeping (key ∷ ids) now
      → GoMap.get s.queue.metadata key ≡ m
      → places id (visit m ids now s) ≡ places id s
  unfolding places
  visit-places id key ids now s none v g e = ground arith
  visit-places id key ids now s (some m) v g e = ground (
    arith,
    get-delete s.queue.metadata m.entry.id id,
    v.keyed key m,
    eq_iff m.entry.id id,
    eq_iff key id,
  )

  groom-places :
      (id : GoString) (g : Groomer J) (s t : System J)
      → Inv s
      → s.groomer ≡ g
      → groom_step g s ≡ some t
      → places id t ≡ places id s
  unfolding groom_step
  groom-places id idle s t v e h = cc
  groom-places id (sweeping [] now) s t v e h = unfold places in ground arith
  groom-places id (sweeping (key ∷ ids) now) s t v e h =
      ap (places id) (sym (some_inj.0 h)) ∙ visit-places id key ids now s _ v e refl
  groom-places id (sending entry ids now) s t v e h = elim (Option-cases (send entry s.queue)) [
    | inl full ↦ absurd (ground arith)
    | inr (sent, there) ↦ unfold places in ground (arith, send-places id entry s.queue sent there)
  ]

  -- What the events do to the places of a job. `Finish` forgets the reservation only: a job that was
  -- put back in the meantime stays.
  abbrev pub Effect : Event → GoString → System J → System J → Type 0
  Effect moved id s t = places id t ≡ places id s
  Effect (posted x) id s t = places id t ≡ places id s + (if x == id then 1 else 0)
  Effect (finished x) id s t =
      places id t + (if x == id then held (GoMap.get s.queue.metadata id) else 0) ≡ places id s

  -- From a state that keeps the invariant: a step that posts a job puts it in one place more, a step
  -- that finishes one takes away its reservation, if it has one, and every other step, the groomer's
  -- among them, leaves every job in as many places as it was.
  pub Step-Effect :
      (id : GoString) {s t : System J} {e : Event} → Inv s → Step s e t → Effect e id s t
  unfolding places new_entry receive reserve_entry finish
  Step-Effect id {s} v (posts job ttr sent room h) =
      ground
        (arith, send-places id (new_entry job ttr s.queue).0 (new_entry job ttr s.queue).1 sent)
  Step-Effect id v (refuses job ttr room h) = refl
  Step-Effect id {s} v (receives entry rest h) = unfold count in ground arith
  Step-Effect id {s} v (reserves before after entry now g h) =
      let n = count-append id before (entry ∷ after) in
      let m = count-append id before after in
      unfold count in
      ground (
        arith,
        n,
        m,
        v.once id,
        get-put s.queue.metadata entry.id (record { entry = entry; started = now }) id,
      )
  Step-Effect id {s} v (finishes entry g) = ground (arith, get-delete s.queue.metadata entry.id id)
  Step-Effect id v (grooms ids now g) = ground arith
  Step-Effect id {s} v (sweeps t h) = groom-places id s.groomer s t v refl h
