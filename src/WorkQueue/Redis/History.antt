-- ===== src/WorkQueue/Redis/History.antt =====
-- server/pkg/workqueue/redis.go: what holds of the lists after any history of calls.
use moblog_cloud.Prelude.{
  ℕ, ◌≤◌, GoString, ◌==◌, eq_iff, List, [], ◌∷◌, ◌≡◌, refl, ap, sym, ◌∙◌, arith, Bool-cases, inl,
  inr, ◌⊎◌, subst,
}
use moblog_cloud.WorkQueue.Redis.{RedisLists, GobCodec}
use moblog_cloud.WorkQueue.Redis.Scripts.{count}
use moblog_cloud.WorkQueue.Redis.Counting.{places, Inv}
use moblog_cloud.WorkQueue.Redis.Places.{
  Event, moved, cleared, posted, attempted, finished, Step, posts, attempts, picks, finishes,
  grooms, clears, Effect, Step-Effect_redis,
}

abbrev pub Occurs : Event → List Event → Type 0
Occurs e [] = ⊥
Occurs e (f ∷ es) = (e ≡ f) ⊎ Occurs e es

-- The identifier of a new entry is not in use.
abbrev Unused : Event → RedisLists → Type 0
Unused (posted x) s = places x s ≡ 0
Unused (attempted x) s = places x s ≡ 0
Unused _ s = Unit

once_after :
    (e : Event) (id : GoString) (s : RedisLists) (after : ℕ)
    → Unused e s
    → places id s ≤ 1
    → Effect e id (places id s) after
    → after ≤ 1
once_after moved id s after unused bound effect = omega arith
once_after cleared id s after unused bound effect = omega arith
once_after (posted x) id s after unused bound effect = elim (Bool-cases (x == id)) [
  | inl same ↦
      let new : places id s ≡ 0 = subst (λ i. places i s ≡ 0) ((eq_iff x id).0 same) unused in
      omega (arith, rw same at effect)
  | inr differs ↦ omega (arith, rw differs at effect)
]
once_after (attempted x) id s after unused bound effect = elim (Bool-cases (x == id)) [
  | inl same ↦
      let new : places id s ≡ 0 = subst (λ i. places i s ≡ 0) ((eq_iff x id).0 same) unused in
      omega (arith, rw same at effect.1)
  | inr differs ↦ omega (arith, rw differs at effect.1)
]
once_after (finished x) id s after unused bound effect = omega (arith, effect.0)

-- Where a job that is posted now, or was in its place before, is after an event that is not its end.
places_after :
    (e : Event) (id : GoString) (s : RedisLists) (after : ℕ)
    → Unused e s
    → Effect e id (places id s) after
    → (posted id ≡ e) ⊎ (places id s ≡ 1)
    → after ≤ 1
    → ¬ (finished id ≡ e)
    → ¬ (cleared ≡ e)
    → after ≡ 1
places_after moved id s after unused effect (inl new) bound nf nc = cc
places_after moved id s after unused effect (inr old) bound nf nc = effect ∙ old
places_after cleared id s after unused effect was bound nf nc = absurd (nc refl)
places_after (posted x) id s after unused effect (inl new) bound nf nc =
    let same : x ≡ id = ground arith in omega (arith, rw ((eq_iff x id).1 same) at effect)
places_after (posted x) id s after unused effect (inr old) bound nf nc =
    elim (Bool-cases (x == id)) [
      | inl same ↦ omega (arith, rw same at effect)
      | inr differs ↦ omega (arith, rw differs at effect)
    ]
places_after (attempted x) id s after unused effect (inl new) bound nf nc = cc
places_after (attempted x) id s after unused effect (inr old) bound nf nc = omega (arith, effect.0)
places_after (finished x) id s after unused effect (inl new) bound nf nc = cc
places_after (finished x) id s after unused effect (inr old) bound nf nc =
    elim (Bool-cases (x == id)) [
      | inl same ↦ absurd (nf (ap finished (sym ((eq_iff x id).0 same))))
      | inr differs ↦ (rw differs at effect.1) ∙ old
    ]

module _ {J : Type 0} (gob : GobCodec J) (kept : ℕ → ℕ) where
  Step-Unused : {s t : RedisLists} {e : Event} → Step gob kept s e t → Unused e s
  Step-Unused (posts job ttr connection q unused done) = unused
  Step-Unused (attempts job ttr connection q unused) = unused
  Step-Unused (picks connection) = tt
  Step-Unused (finishes e connection) = tt
  Step-Unused (grooms is_master connection time) = tt
  Step-Unused (clears connection) = tt

  -- Every call keeps the lists in order: entries only, each job in one place at most.
  pub Step-Inv_redis : {s t : RedisLists} {e : Event} → Inv s → Step gob kept s e t → Inv t
  Step-Inv_redis {s = s} {e = e} v step =
      let (es, effect) = Step-Effect_redis gob kept v step in
      record {
        pending_entries = es.0;
        reserved_entries = es.1;
        once = λ id. once_after e id s _ (Step-Unused step) (v.once id) (effect id);
      }

  -- A history from empty lists, with its events, latest first.
  pub data Reach : List Event → RedisLists → Type 0 where
    here : Reach [] (record { pending = []; reserved = [] })
    next_step :
        {es : List Event} {s t : RedisLists} {e : Event}
        → Reach es s
        → Step gob kept s e t
        → Reach (e ∷ es) t

  Reach-Inv : {es : List Event} {s : RedisLists} → Reach es s → Inv s
  unfolding count
  Reach-Inv here = record { pending_entries = tt; reserved_entries = tt; once = λ id. omega arith }
  Reach-Inv (next_step r step) = Step-Inv_redis (Reach-Inv r) step

  -- In every history of any number of processes, with connections that fail at any time, a job that
  -- was posted without error, and neither finished nor cleared, is in exactly one of the two lists,
  -- once.
  pub posted-places_redis :
      (id : GoString) {es : List Event} {s : RedisLists}
      → Reach es s
      → Occurs (posted id) es
      → ¬ Occurs (finished id) es
      → ¬ Occurs cleared es
      → places id s ≡ 1
  posted-places_redis id here o nf nc = absurd o
  posted-places_redis id (next_step {es = es} {s = s} {t = t} {e = e} r step) (inl new) nf nc =
      let v = Reach-Inv r in
      places_after e id s _ (Step-Unused step) ((Step-Effect_redis gob kept v step).1 id) (inl new)
        ((Step-Inv_redis v step).once id) (λ f. nf (inl f)) (λ f. nc (inl f))
  posted-places_redis id (next_step {es = es} {s = s} {t = t} {e = e} r step) (inr before) nf nc =
      let v = Reach-Inv r in
      places_after e id s _ (Step-Unused step) ((Step-Effect_redis gob kept v step).1 id)
        (inr (posted-places_redis id r before (λ f. nf (inr f)) (λ f. nc (inr f))))
        ((Step-Inv_redis v step).once id) (λ f. nf (inl f)) (λ f. nc (inl f))
