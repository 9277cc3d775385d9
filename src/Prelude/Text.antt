-- ===== src/Prelude/Text.antt =====
-- Go strings: sequences of bytes. A literal is written `codes "…"`; the program's literals are
-- ASCII, so their code points are their bytes.
use Prim.Native.Char.{code}
use Prim.Native.Nat.{ℕ}
use Prim.Native.String.{String}
use mathlib.Core.Path.{◌≡◌, refl}
use mathlib.Core.Logic.{◌↔◌}
use mathlib.Core.Bool.{Bool, true, false, ◌&&◌, ◌||◌}
use mathlib.Core.List.{List, [], ◌∷◌}
use native.Mathlib.Omega.{arith}
use mathlib.Core.Option.{Option, none, some}
use moblog_cloud.Prelude.Tests.{nat_eq, leb, if◌then◌else◌}

abbrev pub GoString : Type 0
GoString = List ℕ

abbrev pub codes : String → GoString
codes String.[] = []
codes (String.◌∷◌ c s) = code c ∷ codes s

-- Go's `==` on strings.
infix 50 ◌==◌
unfoldable pub ◌==◌ : GoString → GoString → Bool
[] == [] = true
[] == (d ∷ t) = false
(c ∷ s) == [] = false
(c ∷ s) == (d ∷ t) = nat_eq c d && s == t

pub eq_iff : (s t : GoString) → ((s == t) ≡ true) ↔ (s ≡ t)
unfolding ◌==◌
eq_iff [] [] = ground arith
eq_iff [] (d ∷ t) = ground arith
eq_iff (c ∷ s) [] = ground arith
eq_iff (c ∷ s) (d ∷ t) = ground (arith, eq_iff s t)

pub eq_refl : (s : GoString) → (s == s) ≡ true
eq_refl s = (eq_iff s s).1 refl

abbrev pub has_prefix : GoString → GoString → Bool
has_prefix s [] = true
has_prefix [] (c ∷ part) = false
has_prefix (d ∷ s) (c ∷ part) = nat_eq d c && has_prefix s part

-- `strings.Contains`
unfoldable pub contains : GoString → GoString → Bool
contains [] part = has_prefix [] part
contains (c ∷ s) part = has_prefix (c ∷ s) part || contains s part

-- What follows a first byte of a UTF-8 sequence: the least and the greatest of each further byte.
abbrev pub after_lead : ℕ → Option (List (ℕ × ℕ))
after_lead c =
    let more : ℕ × ℕ = (128, 191) in
    if leb c 127
    then some []
    else if leb 194 c && leb c 223
    then some (more ∷ [])
    else if nat_eq c 224
    then some ((160, 191) ∷ more ∷ [])
    else if nat_eq c 237
    then some ((128, 159) ∷ more ∷ [])
    else if leb 225 c && leb c 239
    then some (more ∷ more ∷ [])
    else if nat_eq c 240
    then some ((144, 191) ∷ more ∷ more ∷ [])
    else if leb 241 c && leb c 243
    then some (more ∷ more ∷ more ∷ [])
    else if nat_eq c 244
    then some ((128, 143) ∷ more ∷ more ∷ [])
    else none

-- Valid UTF-8, after a part that leaves bytes to come.
unfoldable utf8_after : List (ℕ × ℕ) → GoString → Bool
utf8_after [] [] = true
utf8_after (range ∷ ranges) [] = false
utf8_after ((least, greatest) ∷ ranges) (c ∷ s) =
    leb least c && leb c greatest && utf8_after ranges s
utf8_after [] (c ∷ s) = elim (after_lead c) [ none ↦ false | some ranges ↦ utf8_after ranges s ]

-- `utf8.ValidString`
unfoldable pub valid_utf8 : GoString → Bool
unfolding utf8_after
valid_utf8 s = utf8_after [] s
