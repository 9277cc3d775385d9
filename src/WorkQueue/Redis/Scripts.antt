-- ===== src/WorkQueue/Redis/Scripts.antt =====
-- server/pkg/workqueue/redis.go: what the scripts do to lists of entries.
use mathlib.Core.List.{reverse, reverse-cons, append_assoc}
use moblog_cloud.Prelude.{
  ℕ, ◌+◌, ◌≤◌, GoString, ◌==◌, true, none, List, [], ◌∷◌, ◌++◌, ok, if◌then◌else◌, ◌≡◌, refl, ap,
  sym, ◌∙◌, arith, Bool-cases, inl, inr,
}
use moblog_cloud.WorkQueue.Redis.{
  Item, entry, finished_word, expired_word, RedisLists, mark_finished, remove_finished,
  finish_script, re_encoded, is_overdue, seen, groom_loop, remove_expired, groom_script,
}

abbrev pub AreEntries : List Item → Type 0
AreEntries [] = Unit
AreEntries (entry e ∷ rest) = AreEntries rest
AreEntries (word ∷ rest) = ⊥

abbrev pub count_item : GoString → Item → ℕ
count_item id (entry e) = if e.id == id then 1 else 0
count_item id word = 0

-- How many entries have the identifier.
unfoldable pub count : GoString → List Item → ℕ
count id [] = 0
count id (item ∷ rest) = count_item id item + count id rest

-- The items but the entries with the identifier.
unfoldable pub others : GoString → List Item → List Item
others id [] = []
others id (entry e ∷ rest) =
    let kept = others id rest in if e.id == id then kept else entry e ∷ kept
others id (word ∷ rest) = word ∷ others id rest

mark_finished-absent :
    (id : GoString) (items : List Item)
    → AreEntries items
    → count id items ≡ 0
    → (mark_finished id items ≡ (true, items)) × (others id items ≡ items)
unfolding mark_finished others count
mark_finished-absent id [] es n = (refl, refl)
mark_finished-absent id (entry e ∷ rest) es n = elim (Bool-cases (e.id == id)) [
  | inl same ↦ absurd (ground arith)
  | inr differs ↦
      let (marks, keeps) = mark_finished-absent id rest es (ground arith) in
      (rw (marks, differs) refl, rw (differs, keeps) refl)
]
mark_finished-absent id (finished_word ∷ rest) es n = absurd es
mark_finished-absent id (expired_word ∷ rest) es n = absurd es

finish-others :
    (id : GoString) (items : List Item)
    → AreEntries items
    → count id items ≤ 1
    → ((mark_finished id items).0 ≡ true)
      × (remove_finished (mark_finished id items).1 ≡ others id items)
unfolding mark_finished remove_finished others count
finish-others id [] es n = (refl, refl)
finish-others id (entry e ∷ rest) es n = elim (Bool-cases (e.id == id)) [
  | inl same ↦
      let (marks, keeps) = mark_finished-absent id rest es (ground arith) in
      rw (marks, same, keeps) (refl, refl)
  | inr differs ↦
      let (done, ih) = finish-others id rest es (ground arith) in (done, rw (differs, ih) refl)
]
finish-others id (finished_word ∷ rest) es n = absurd es
finish-others id (expired_word ∷ rest) es n = absurd es

-- Where the reserved list has entries only, and one at most with the identifier, the finish script
-- succeeds and removes exactly that one.
pub finish_script-removes :
    (id : GoString) (lists : RedisLists)
    → AreEntries lists.reserved
    → count id lists.reserved ≤ 1
    → finish_script id lists ≡ (ok tt, record lists { reserved = others id lists.reserved })
unfolding finish_script
finish_script-removes id lists es n =
    let (done, removed) = finish-others id lists.reserved es n in rw (done, removed) refl

module _ (kept : ℕ → ℕ) (time : ℕ) where
  -- The overdue entries, as they go back to the pending list, in the order of the reserved one.
  unfoldable pub overdue_items : List Item → List Item
  overdue_items [] = []
  overdue_items (entry e ∷ rest) =
      let more = overdue_items rest in
      if is_overdue kept time e then entry (re_encoded kept e none) ∷ more else more
  overdue_items (word ∷ rest) = overdue_items rest

  -- The entries that stay reserved, each with a start.
  unfoldable pub running_items : List Item → List Item
  running_items [] = []
  running_items (entry e ∷ rest) =
      let more = running_items rest in
      if is_overdue kept time e then more else entry (seen kept time e) ∷ more
  running_items (word ∷ rest) = running_items rest

  groom_loop-moves :
      (pending items : List Item)
      → AreEntries items
      → ((groom_loop kept time pending items).0 ≡ true)
        × ((groom_loop kept time pending items).1.pending
            ≡ reverse (overdue_items items) ++ pending)
        × (remove_expired kept (groom_loop kept time pending items).1.reserved
            ≡ running_items items)
  unfolding groom_loop overdue_items running_items remove_expired
  groom_loop-moves pending [] es = (refl, refl, refl)
  groom_loop-moves pending (entry e ∷ rest) es = elim (Bool-cases (is_overdue kept time e)) [
    | inl late ↦
        let (done, queued, stays) =
          groom_loop-moves (entry (re_encoded kept e none) ∷ pending) rest es in
        rw late (
          done,
          queued
              ∙ sym (
                  append_assoc (reverse (overdue_items rest)) (entry (re_encoded kept e none) ∷ [])
                    pending)
              ∙ ap (λ l. l ++ pending)
                  (sym (reverse-cons (entry (re_encoded kept e none)) (overdue_items rest))),
          stays,
        )
    | inr early ↦
        let (done, queued, stays) = groom_loop-moves pending rest es in
        rw early (done, queued, ap (λ l. entry (seen kept time e) ∷ l) stays)
  ]
  groom_loop-moves pending (finished_word ∷ rest) es = absurd es
  groom_loop-moves pending (expired_word ∷ rest) es = absurd es

  -- Where the reserved list has entries only, the groom script succeeds: exactly the entries whose
  -- time to run has passed since it was first counted go to the back of the pending list, without
  -- their start, and the others stay reserved, with their start, in their order.
  pub groom_script-moves :
      (lists : RedisLists)
      → AreEntries lists.reserved
      → groom_script kept time lists ≡ (
        ok tt,
        record {
          pending = reverse (overdue_items lists.reserved) ++ lists.pending;
          reserved = running_items lists.reserved;
        },
      )
  unfolding groom_script
  groom_script-moves lists es =
      let (done, queued, stays) = groom_loop-moves lists.pending lists.reserved es in
      rw (done, queued, stays) refl
