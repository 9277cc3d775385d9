-- ===== src/WorkQueue/Memory/System/Reachable.antt =====
-- server/pkg/workqueue/memoryworkqueue.go: what holds of the queue after any history.
use mathlib.Core.Option.{none-ne-some, some_inj}
use moblog_cloud.Prelude.{
  ℕ, ◌+◌, ◌^◌, ◌%◌, ◌≤◌, ◌<◌, GoString, ◌==◌, eq_iff, Option, none, some, List, [], ◌∷◌, ◌≡◌, arith,
  Bool-cases, inl, inr, sym, ap, ◌∙◌, ◌⊎◌, subst,
}
use moblog_cloud.Prelude.GoMap
use moblog_cloud.Prelude.GoMap.{get-put, get-delete, get-empty}
use moblog_cloud.IdGenerator.{format_uint, next}
use moblog_cloud.IdGenerator.Distinct.{format_uint-injective}
use moblog_cloud.WorkQueue.{JobEntry}
use moblog_cloud.WorkQueue.Memory.{
  MemoryQueue, MemoryEntryMetadata, new_memory_queue, send, receive, new_entry, reserve_entry,
  finish,
}
use moblog_cloud.WorkQueue.Memory.System.{
  Groomer, idle, sweeping, sending, System, visit, groom_step, Event, moved, posted, finished, Step,
  posts, refuses, receives, reserves, finishes, grooms, sweeps,
}
use moblog_cloud.WorkQueue.Memory.System.Conservation.{
  count, places, Inv, send-places, Effect, Step-Effect,
}

wraps_not : (n : ℕ) → n + 1 < 2 ^ 64 → (n + 1) % 2 ^ 64 ≡ n + 1
wraps_not n h = omega arith

abbrev pub Occurs : Event → List Event → Type 0
Occurs e [] = ⊥
Occurs e (f ∷ es) = (e ≡ f) ⊎ Occurs e es

module _ {J : Type 0} where
  abbrev last : System J → ℕ
  last s = s.queue.id_generator.last_id

  abbrev Keyed : System J → Type 0
  Keyed s =
      (id : GoString) (m : MemoryEntryMetadata J)
      → GoMap.get s.queue.metadata id ≡ some m
      → m.entry.id ≡ id

  -- A new identifier is the next number; otherwise the counter does not fall.
  abbrev Ids : Event → System J → System J → Type 0
  Ids (posted x) s t =
      (x ≡ format_uint (last s + 1)) × (last s + 1 < 2 ^ 64) × (last t ≡ last s + 1)
  Ids _ s t = last s ≤ last t

  send-last :
      (entry : JobEntry J) (q sent : MemoryQueue J)
      → send entry q ≡ some sent
      → sent.id_generator.last_id ≡ q.id_generator.last_id
  unfolding send
  send-last entry q sent h = ground arith

  groom-last : (g : Groomer J) (s t : System J) → groom_step g s ≡ some t → last t ≡ last s
  unfolding groom_step
  groom-last idle s t h = cc
  groom-last (sweeping [] now) s t h = ground arith
  groom-last (sweeping (key ∷ ids) now) s t h = ground arith
  groom-last (sending entry ids now) s t h = ground (arith, send-last entry s.queue)

  Step-Ids : {s t : System J} {e : Event} → Step s e t → Ids e s t
  unfolding new_entry next receive reserve_entry finish
  Step-Ids {s} (posts job ttr sent room h) = (
    ap format_uint (wraps_not (last s) room),
    room,
    omega (arith, send-last (new_entry job ttr s.queue).0 (new_entry job ttr s.queue).1 sent h),
  )
  Step-Ids (refuses job ttr room h) = omega arith
  Step-Ids {s} (receives entry rest h) = ground arith
  Step-Ids (reserves before after entry now g h) = omega arith
  Step-Ids (finishes entry g) = omega arith
  Step-Ids (grooms ids now g) = omega arith
  Step-Ids {s} (sweeps t h) = omega (arith, groom-last s.groomer s t h)

  visit-Keyed :
      (o : Option (MemoryEntryMetadata J)) (ids : List GoString) (now : ℕ) (s : System J)
      → Keyed s
      → Keyed (visit o ids now s)
  visit-Keyed none ids now s k id m h = k id m h
  visit-Keyed (some m') ids now s k id m h =
      k id m (ground (arith, get-delete s.queue.metadata m'.entry.id id))

  groom-Keyed : (g : Groomer J) (s t : System J) → groom_step g s ≡ some t → Keyed s → Keyed t
  unfolding groom_step
  groom-Keyed idle s t h k = cc
  groom-Keyed (sweeping [] now) s t h k = λ id m e. k id m (ground arith)
  groom-Keyed (sweeping (key ∷ ids) now) s t h k =
      subst Keyed (some_inj.0 h) (visit-Keyed (GoMap.get s.queue.metadata key) ids now s k)
  groom-Keyed (sending entry ids now) s t h k =
      λ id m e. k id m (ground (arith, send-places id entry s.queue))

  Step-Keyed : {s t : System J} {e : Event} → Step s e t → Keyed s → Keyed t
  unfolding new_entry receive reserve_entry finish
  Step-Keyed {s} (posts job ttr sent room h) k = λ id m e. k id m (
      ground
        (arith, send-places id (new_entry job ttr s.queue).0 (new_entry job ttr s.queue).1 sent))
  Step-Keyed (refuses job ttr room h) k = λ id m e. k id m e
  Step-Keyed {s} (receives entry rest h) k = λ id m e. k id m (ground arith)
  Step-Keyed {s} (reserves before after entry now g h) k = λ id m e. ground (
    arith,
    k id m,
    eq_iff entry.id id,
    get-put s.queue.metadata entry.id (record { entry = entry; started = now }) id,
  )
  Step-Keyed {s} (finishes entry g) k =
      λ id m e. k id m (ground (arith, get-delete s.queue.metadata entry.id id))
  Step-Keyed (grooms ids now g) k = λ id m e. k id m e
  Step-Keyed {s} (sweeps t h) k = groom-Keyed s.groomer s t h k

  once_after :
      (e : Event) (s t : System J)
      → Inv s
      → Ids e s t
      → (id : GoString) → Effect e id s t
      → places id t ≤ 1
  once_after moved s t v ids id effect = omega (arith, v.once id)
  once_after (posted x) s t v (x_is, room, _) id effect = elim (Bool-cases (x == id)) [
    | inl same ↦
        let new : places id s ≡ 0 =
          subst (λ i. places i s ≡ 0) (sym x_is ∙ (eq_iff x id).0 same)
            (v.fresh (last s + 1) (omega arith) room) in
        ground arith
    | inr differs ↦ ground (arith, v.once id)
  ]
  once_after (finished x) s t v ids id effect = omega (arith, v.once id)

  fresh_after :
      (e : Event) (s t : System J)
      → Inv s
      → Ids e s t
      → (n : ℕ) → last t < n
      → n < 2 ^ 64
      → Effect e (format_uint n) s t
      → places (format_uint n) t ≡ 0
  fresh_after moved s t v ids n h room effect = effect ∙ v.fresh n (omega arith) room
  fresh_after (posted x) s t v (x_is, room', counted) n h room effect =
      elim (Bool-cases (x == format_uint n)) [
        | inl same ↦ absurd (
            omega (
              arith,
              format_uint-injective (last s + 1) n room' room
                  (sym x_is ∙ (eq_iff x (format_uint n)).0 same),
            ))
        | inr differs ↦ ground (arith, v.fresh n (omega arith) room)
      ]
  fresh_after (finished x) s t v ids n h room effect = omega (arith, v.fresh n (omega arith) room)

  -- Every step of every goroutine keeps it: no job is in two places.
  pub Step-Inv : {s t : System J} {e : Event} → Inv s → Step s e t → Inv t
  Step-Inv {e = e} v step = record {
    keyed = Step-Keyed step v.keyed;
    once = λ id. once_after e _ _ v (Step-Ids step) id (Step-Effect id v step);
    fresh = λ n h room.
        fresh_after e _ _ v (Step-Ids step) n h room (Step-Effect (format_uint n) v step);
  }

  unfoldable pub start : System J
  unfolding new_memory_queue
  start = record { queue = new_memory_queue; received = []; groomer = idle }

  pub start-Inv : Inv start
  unfolding start places count
  start-Inv = record {
    keyed = λ id m e. absurd (none-ne-some m (sym (get-empty id) ∙ e));
    once = λ id. ground (arith, get-empty {V = MemoryEntryMetadata J} id);
    fresh = λ n h room. ground (arith, get-empty {V = MemoryEntryMetadata J} (format_uint n));
  }

  -- A history from the empty queue, with its events, latest first.
  pub data Reach : List Event → System J → Type 0 where
    here : Reach [] start
    next_step :
        {es : List Event} {s t : System J} {e : Event} → Reach es s → Step s e t → Reach (e ∷ es) t

  Reach-Inv : {es : List Event} {s : System J} → Reach es s → Inv s
  Reach-Inv here = start-Inv
  Reach-Inv (next_step r step) = Step-Inv (Reach-Inv r) step

  places_after :
      (e : Event) (id : GoString) (s t : System J)
      → places id t ≤ 1
      → Effect e id s t
      → (posted id ≡ e) ⊎ (places id s ≡ 1)
      → ¬ (finished id ≡ e)
      → places id t ≡ 1
  places_after moved id s t bound effect (inl new) n = cc
  places_after moved id s t bound effect (inr old) n = effect ∙ old
  places_after (posted x) id s t bound effect (inl new) n =
      let same : x ≡ id = ground arith in ground (arith, eq_iff x id)
  places_after (posted x) id s t bound effect (inr old) n = ground arith
  places_after (finished x) id s t bound effect (inl new) n = cc
  places_after (finished x) id s t bound effect (inr old) n = elim (Bool-cases (x == id)) [
    | inl same ↦ absurd (n (ap finished (sym ((eq_iff x id).0 same))))
    | inr differs ↦ ground arith
  ]

  -- In every history, whatever the goroutines do and in whatever order, a job that was accepted by
  -- `Post` and not yet finished is in exactly one place: in the channel, with the goroutine that
  -- received it, reserved, or with the groomer on its way back into the channel.
  pub posted-places :
      (id : GoString) {es : List Event} {s : System J}
      → Reach es s
      → Occurs (posted id) es
      → ¬ Occurs (finished id) es
      → places id s ≡ 1
  posted-places id here o n = absurd o
  posted-places id (next_step {es = es} {s = s} {t = t} {e = e} r step) (inl new) n =
      places_after e id s t ((Step-Inv (Reach-Inv r) step).once id)
        (Step-Effect id (Reach-Inv r) step) (inl new) (λ f. n (inl f))
  posted-places id (next_step {es = es} {s = s} {t = t} {e = e} r step) (inr before) n =
      places_after e id s t ((Step-Inv (Reach-Inv r) step).once id)
        (Step-Effect id (Reach-Inv r) step) (inr (posted-places id r before (λ f. n (inr f))))
        (λ f. n (inl f))
