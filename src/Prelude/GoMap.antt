-- ===== src/Prelude/GoMap.antt =====
-- Go's `map[string]V`. The representation is private: clients have the laws at the end.
-- A range over a map visits every entry once, in no specified order: `entries` lists them in one
-- order, and a client that ranges takes the order as a parameter.
mod Assoc
use Assoc.{find, erase, find-erase, pairs, mem-pairs}
use moblog_cloud.Prelude.Tests.{if◌then◌else◌}
use moblog_cloud.Prelude.Text.{GoString, ◌==◌, eq_iff}
use mathlib.Core.Path.{◌≡◌, refl}
use mathlib.Core.Logic.{◌↔◌}
use mathlib.Core.Option.{Option, none, some}
use mathlib.Core.List.{List, [], ◌∷◌, Memᴰ}
use native.Mathlib.Omega.{arith}

pub record GoMap {ℓ} (V : Type ℓ) : Type ℓ where
  assoc : List (GoString × V)

module _ {ℓ} {V : Type ℓ} where
  -- `map[string]V{}`
  unfoldable pub empty : GoMap V
  unfolding find
  empty = record { assoc = [] }

  -- `v, exists := m[k]`
  unfoldable pub get : GoMap V → GoString → Option V
  unfolding find
  get m k = find m.assoc k

  -- `m[k] = v`
  unfoldable pub put : GoMap V → GoString → V → GoMap V
  unfolding erase
  put m k v = record { assoc = (k, v) ∷ erase m.assoc k }

  -- `delete(m, k)`
  unfoldable pub delete : GoMap V → GoString → GoMap V
  unfolding erase
  delete m k = record { assoc = erase m.assoc k }

  pub entries : GoMap V → List (GoString × V)
  entries m = pairs m.assoc

  pub get-delete :
      (m : GoMap V) (k j : GoString) → get (delete m k) j ≡ (if k == j then none else get m j)
  unfolding get delete
  get-delete m k j = find-erase m.assoc k j

  pub get-put :
      (m : GoMap V) (k : GoString) (v : V) (j : GoString)
      → get (put m k v) j ≡ (if k == j then some v else get m j)
  unfolding get put find
  get-put m k v j = ground (arith, find-erase m.assoc k j)

  pub mem-entries :
      {k : GoString} {v : V} (m : GoMap V) → Memᴰ (k, v) (entries m) ↔ (get m k ≡ some v)
  unfolding entries get
  mem-entries m = mem-pairs m.assoc

pub get-empty {ℓ} : {V : Type ℓ} (k : GoString) → get (empty {V = V}) k ≡ none
unfolding get empty
get-empty k = refl

pub ruleset map_laws = (get-empty, get-delete, get-put)
