-- ===== src/WorkQueue/Redis/Counting.antt =====
-- server/pkg/workqueue/redis.go: the places of a job in the lists, and what moves it between them.
use mathlib.Core.List.{reverse, reverse-cons}
use moblog_cloud.Prelude.{
  ℕ, ◌+◌, ◌≤◌, GoString, ◌==◌, eq_iff, Option, none, some, List, [], ◌∷◌, ◌++◌, if◌then◌else◌, ◌≡◌,
  refl, ap, ◌∙◌, arith, Bool-cases, Option-cases, inl, inr, subst,
}
use moblog_cloud.WorkQueue.Redis.{
  Item, entry, finished_word, expired_word, RedisLists, is_overdue, groom_script, pop_right,
  move_right,
}
use moblog_cloud.WorkQueue.Redis.Scripts.{
  AreEntries, count, count_item, others, overdue_items, running_items, groom_script-moves,
}

-- In how many places the job with an identifier is.
abbrev pub places : GoString → RedisLists → ℕ
places id lists = count id lists.pending + count id lists.reserved

-- The lists hold entries, and every job is in one place at most.
pub record Inv (lists : RedisLists) : Type 0 where
  pub pending_entries : AreEntries lists.pending
  pub reserved_entries : AreEntries lists.reserved
  pub once : (id : GoString) → places id lists ≤ 1

count-append : (id : GoString) (xs ys : List Item) → count id (xs ++ ys) ≡ count id xs + count id ys
unfolding count
count-append id [] ys = omega arith
count-append id (x ∷ xs) ys = omega (arith, count-append id xs ys)

AreEntries-append : (xs ys : List Item) → AreEntries xs → AreEntries ys → AreEntries (xs ++ ys)
AreEntries-append [] ys hx hy = hy
AreEntries-append (entry e ∷ xs) ys hx hy = AreEntries-append xs ys hx hy
AreEntries-append (finished_word ∷ xs) ys hx hy = absurd hx
AreEntries-append (expired_word ∷ xs) ys hx hy = absurd hx

parts-AreEntries : (xs ys : List Item) → AreEntries (xs ++ ys) → AreEntries xs × AreEntries ys
parts-AreEntries [] ys h = (tt, h)
parts-AreEntries (entry e ∷ xs) ys h = parts-AreEntries xs ys h
parts-AreEntries (finished_word ∷ xs) ys h = absurd h
parts-AreEntries (expired_word ∷ xs) ys h = absurd h

-- Reversing moves items about.
reverse-keeps :
    (id : GoString) (xs : List Item)
    → AreEntries xs
    → (count id (reverse xs) ≡ count id xs) × AreEntries (reverse xs)
unfolding count
reverse-keeps id [] h = (refl, tt)
reverse-keeps id (entry e ∷ xs) h =
    let (n, es) = reverse-keeps id xs h in
    rw (reverse-cons (entry e) xs) (
      omega (arith, count-append id (reverse xs) (entry e ∷ []), n),
      AreEntries-append (reverse xs) (entry e ∷ []) es tt,
    )
reverse-keeps id (finished_word ∷ xs) h = absurd h
reverse-keeps id (expired_word ∷ xs) h = absurd h

pub others-AreEntries :
    (x : GoString) (items : List Item) → AreEntries items → AreEntries (others x items)
unfolding others
others-AreEntries x [] h = tt
others-AreEntries x (entry e ∷ rest) h = elim (Bool-cases (e.id == x)) [
  | inl same ↦ rw same (others-AreEntries x rest h)
  | inr differs ↦ rw differs (others-AreEntries x rest h)
]
others-AreEntries x (finished_word ∷ rest) h = absurd h
others-AreEntries x (expired_word ∷ rest) h = absurd h

pub count-others :
    (x id : GoString) (items : List Item)
    → count id (others x items) ≡ (if x == id then 0 else count id items)
unfolding others count
count-others x id [] = ground arith
count-others x id (entry e ∷ rest) =
    ground (arith, count-others x id rest, eq_iff e.id x, eq_iff e.id id, eq_iff x id)
count-others x id (finished_word ∷ rest) = ground (arith, count-others x id rest)
count-others x id (expired_word ∷ rest) = ground (arith, count-others x id rest)

-- Every reserved entry goes one way in a groom script.
groomed-places :
    (kept : ℕ → ℕ) (time : ℕ) (id : GoString) (items : List Item)
    → AreEntries items
    → (count id (overdue_items kept time items) + count id (running_items kept time items)
        ≡ count id items)
      × AreEntries (overdue_items kept time items)
      × AreEntries (running_items kept time items)
unfolding overdue_items running_items count
groomed-places kept time id [] h = (omega arith, tt, tt)
groomed-places kept time id (entry e ∷ rest) h =
    let (n, late, early) = groomed-places kept time id rest h in
    elim (Bool-cases (is_overdue kept time e)) [
      | inl overdue ↦ rw overdue (omega (arith, n), late, early)
      | inr in_time ↦ rw in_time (seen_count e.started n, late, seen_entries e.started early)
    ]
  where
    seen_count :
        (m : Option ℕ)
        → count id (overdue_items kept time rest) + count id (running_items kept time rest)
          ≡ count id rest
        → count id (overdue_items kept time rest)
            + (count_item id (
                  entry (elim m [
                    | none ↦ record e { ttr_us = kept e.ttr_us; started = some (kept time) }
                    | some t ↦ e
                  ]))
                + count id (running_items kept time rest))
          ≡ count_item id (entry e) + count id rest
    seen_count none n = omega (arith, n)
    seen_count (some t) n = omega (arith, n)

    seen_entries :
        (m : Option ℕ)
        → AreEntries (running_items kept time rest)
        → AreEntries (
            entry (elim m [
              | none ↦ record e { ttr_us = kept e.ttr_us; started = some (kept time) }
              | some t ↦ e
            ])
            ∷ running_items kept time rest)
    seen_entries m early = early
groomed-places kept time id (finished_word ∷ rest) h = absurd h
groomed-places kept time id (expired_word ∷ rest) h = absurd h

pop_right_ne_none : (x : Item) (xs : List Item) → ¬ (pop_right (x ∷ xs) ≡ none)
unfolding pop_right
pop_right_ne_none x xs e = elim (Option-cases (pop_right xs)) [
  | inl none_left ↦ absurd (ground arith)
  | inr ((front, last), more) ↦ absurd (ground arith)
]

pop_right-append :
    (items front : List Item) (last : Item)
    → pop_right items ≡ some (front, last)
    → items ≡ front ++ last ∷ []
unfolding pop_right
pop_right-append [] front last h = cc
pop_right-append (item ∷ rest) front last h = elim (Option-cases (pop_right rest)) [
  | inl none_left ↦ only rest none_left (rw none_left at h)
  | inr ((front', last'), e) ↦
      let more = pop_right-append rest front' last' e in
      let h' = rw e at h in rw more (ground arith)
]
  where
    only :
        (rest : List Item)
        → pop_right rest ≡ none
        → ◌≡◌ {A = Option (List Item × Item)} (some ([], item)) (some (front, last))
        → item ∷ rest ≡ front ++ last ∷ []
    only [] e h = ground arith
    only (x ∷ xs) e h = absurd (pop_right_ne_none x xs e)

abbrev pub Shuffled : RedisLists → RedisLists → Type 0
Shuffled s t =
    AreEntries t.pending × AreEntries t.reserved × ((id : GoString) → places id t ≡ places id s)

pub move_right-Shuffled : (s : RedisLists) → Inv s → Shuffled s (move_right s).1
unfolding move_right
move_right-Shuffled s v = elim (Option-cases (pop_right s.pending)) [
  | inl nothing ↦ rw (move_right, nothing) (v.pending_entries, v.reserved_entries, λ id. refl)
  | inr ((front, last), e) ↦
      let same = pop_right-append s.pending front last e in
      let (es, el) = parts-AreEntries front (last ∷ []) (subst AreEntries same v.pending_entries) in
      rw (move_right, e)
        (
          es,
          one_more last el,
          λ id. moved front last id (ap (count id) same ∙ count-append id front (last ∷ [])),
        )
]
  where
    one_more : (last : Item) → AreEntries (last ∷ []) → AreEntries (last ∷ s.reserved)
    one_more (entry e) h = v.reserved_entries
    one_more finished_word h = absurd h
    one_more expired_word h = absurd h

    moved :
        (front : List Item) (last : Item) (id : GoString)
        → count id s.pending ≡ count id front + count id (last ∷ [])
        → count id front + count id (last ∷ s.reserved) ≡ count id s.pending + count id s.reserved
    moved front last id n = unfold count in omega arith

pub groom_script-Shuffled :
    (kept : ℕ → ℕ) (time : ℕ) (s : RedisLists) → Inv s → Shuffled s (groom_script kept time s).1
groom_script-Shuffled kept time s v = rw (groom_script-moves kept time s v.reserved_entries) (
  AreEntries-append (reverse (overdue_items kept time s.reserved)) s.pending
      (reverse-keeps [] (overdue_items kept time s.reserved)
        (groomed-places kept time [] s.reserved v.reserved_entries).1).1
      v.pending_entries,
  (groomed-places kept time [] s.reserved v.reserved_entries).2,
  λ id.
      let (n, late, _) = groomed-places kept time id s.reserved v.reserved_entries in
      omega (
        arith,
        n,
        (reverse-keeps id (overdue_items kept time s.reserved) late).0,
        count-append id (reverse (overdue_items kept time s.reserved)) s.pending,
      ),
)
