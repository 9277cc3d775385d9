-- ===== src/Prelude/GoMap/Assoc.antt =====
-- Association lists with string keys.
use moblog_cloud.Prelude.Tests.{if◌then◌else◌, Bool-cases}
use mathlib.Core.Logic.{◌↔◌, inl, inr}
use mathlib.Core.List.{Memᴰ}
use mathlib.Core.List.Memᴰ
use moblog_cloud.Prelude.Text.{GoString, ◌==◌, eq_iff}
use mathlib.Core.Path.{◌≡◌, refl, ap, ◌∙◌}
use mathlib.Core.Option.{Option, none, some}
use mathlib.Core.List.{List, [], ◌∷◌}
use native.Mathlib.Omega.{arith}

module _ {ℓ} {V : Type ℓ} where
  -- The value of the first entry with the name.
  unfoldable pub find : List (GoString × V) → GoString → Option V
  find [] name = none
  find ((head_name, value) ∷ rest) name =
      let later = find rest name in if head_name == name then some value else later

  -- All entries but those with the name.
  unfoldable pub erase : List (GoString × V) → GoString → List (GoString × V)
  erase [] name = []
  erase ((head_name, value) ∷ rest) name =
      let kept = erase rest name in if head_name == name then kept else (head_name, value) ∷ kept

  pub find-erase :
      (entries : List (GoString × V)) (gone name : GoString)
      → find (erase entries gone) name ≡ (if gone == name then none else find entries name)
  unfolding find erase
  find-erase [] gone name = elim (Bool-cases (gone == name)) [
    | inl same ↦ rw same refl
    | inr other ↦ rw other refl
  ]
  find-erase ((head_name, value) ∷ rest) gone name = elim (Bool-cases (head_name == gone)) [
    | inl is_gone ↦
        rw (is_gone, find-erase rest gone name, (eq_iff head_name gone).0 is_gone) (ground (arith))
    | inr stays ↦ rw stays (
        ground (
          arith,
          find-erase rest gone name,
          eq_iff head_name name,
          eq_iff gone name,
          eq_iff head_name gone,
        ))
  ]

  -- The entries that `find` finds, each key once.
  pub pairs : List (GoString × V) → List (GoString × V)
  pairs [] = []
  pairs ((k, v) ∷ l) = (k, v) ∷ erase (pairs l) k

  abbrev KeysDistinct : List (GoString × V) → Type ℓ
  KeysDistinct [] = Unit
  KeysDistinct ((k, v) ∷ l) = (find l k ≡ none) × KeysDistinct l

  erase-KeysDistinct :
      (k : GoString) (l : List (GoString × V)) → KeysDistinct l → KeysDistinct (erase l k)
  unfolding erase
  erase-KeysDistinct k [] h = tt
  erase-KeysDistinct k ((j, v) ∷ l) h =
      let ih = erase-KeysDistinct k l h.1 in
      elim (Bool-cases (j == k)) [
        | inl e ↦ rw e ih
        | inr e ↦ rw e (ground (arith, find-erase l k j), ih)
      ]

  pairs-KeysDistinct : (l : List (GoString × V)) → KeysDistinct (pairs l)
  unfolding pairs
  pairs-KeysDistinct [] = tt
  pairs-KeysDistinct ((k, v) ∷ l) = (
    ground (arith, find-erase (pairs l) k k, eq_iff k k),
    erase-KeysDistinct k (pairs l) (pairs-KeysDistinct l),
  )

  find-pairs : (k : GoString) (l : List (GoString × V)) → find (pairs l) k ≡ find l k
  unfolding pairs find
  find-pairs k [] = refl
  find-pairs k ((j, v) ∷ l) = ground (arith, find-pairs k l, find-erase (pairs l) j k, eq_iff j k)

  mem→find :
      {k : GoString} {v : V} (l : List (GoString × V))
      → KeysDistinct l
      → Memᴰ (k, v) l
      → find l k ≡ some v
  unfolding find
  mem→find [] h m = absurd (Memᴰ.not-nil m)
  mem→find {k} {v} ((j, w) ∷ l) h (Memᴰ.head e) =
      ground (arith, eq_iff j k, ap (λ p. p.0) e, ap (λ p. p.1) e)
  mem→find {k} {v} ((j, w) ∷ l) h (Memᴰ.tail m) = ground (arith, eq_iff j k, mem→find l h.1 m)

  find→mem : {k : GoString} {v : V} (l : List (GoString × V)) → find l k ≡ some v → Memᴰ (k, v) l
  unfolding find
  find→mem [] h = cc
  find→mem {k} {v} ((j, w) ∷ l) h = elim (Bool-cases (j == k)) [
    | inl e ↦ Memᴰ.head (ground (arith, eq_iff j k))
    | inr e ↦ Memᴰ.tail (find→mem l (ground arith))
  ]

  -- `pairs` lists exactly what `find` finds.
  pub mem-pairs :
      {k : GoString} {v : V} (l : List (GoString × V)) → Memᴰ (k, v) (pairs l) ↔ (find l k ≡ some v)
  mem-pairs {k} l = (
    λ m. rw (← find-pairs k l) (mem→find (pairs l) (pairs-KeysDistinct l) m),
    λ e. find→mem (pairs l) (find-pairs k l ∙ e),
  )
