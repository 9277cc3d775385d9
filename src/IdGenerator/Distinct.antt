-- ===== src/IdGenerator/Distinct.antt =====
-- server/pkg/idgenerator/string.go: identifiers do not repeat.
use Prim.Native.Nat.{zero, suc, ◌-◌, ◌*◌}
use moblog_cloud.Prelude.{
  ℕ, ◌+◌, ◌/◌, ◌%◌, ◌^◌, ◌<◌, GoString, [], ◌∷◌, ◌++◌, ◌≡◌, ◌≢◌, refl, sym, ap, ◌∙◌, arith,
}
use moblog_cloud.IdGenerator.{StringIdGenerator, digits, format_uint, next}
use native.Mathlib.Nat.{pow-suc}

value_from : ℕ → GoString → ℕ
value_from acc [] = acc
value_from acc (c ∷ s) = value_from (acc * 10 + (c - b'0')) s

-- The number that decimal digits spell.
abbrev value : GoString → ℕ
value s = value_from 0 s

value_from-append :
    (acc : ℕ) (s : GoString) (c : ℕ)
    → value_from acc (s ++ c ∷ []) ≡ value_from acc s * 10 + (c - b'0')
unfolding value_from
value_from-append acc [] c = refl
value_from-append acc (d ∷ s) c = value_from-append (acc * 10 + (d - b'0')) s c

tenth_below : (fuel n : ℕ) → n < 10 ^ suc fuel → n / 10 < 10 ^ fuel
tenth_below fuel n h = let h' : n < 10 ^ fuel * 10 = rw (← pow-suc 10 fuel) h in omega arith

value-digits : (fuel n : ℕ) → n < 10 ^ fuel → value (digits fuel n) ≡ n
unfolding digits value_from
value-digits zero n h = omega arith
value-digits (suc fuel) n h = ground (
  arith,
  value-digits fuel (n / 10) (tenth_below fuel n h),
  value_from-append 0 (digits fuel (n / 10)) (b'0' + n % 10),
)

-- A uint64 prints as a text that spells it: twenty digits are enough.
value-format_uint : (n : ℕ) → n < 2 ^ 64 → value (format_uint n) ≡ n
unfolding format_uint
value-format_uint n h = value-digits 20 n (omega arith)

pub format_uint-injective :
    (a b : ℕ) → a < 2 ^ 64 → b < 2 ^ 64 → format_uint a ≡ format_uint b → a ≡ b
format_uint-injective a b ha hb e =
    sym (value-format_uint a ha) ∙ ap value e ∙ value-format_uint b hb

-- `n` more calls.
abbrev pub after : ℕ → StringIdGenerator → StringIdGenerator
after zero g = g
after (suc n) g = after n (next g).1

last_id-after :
    (n : ℕ) (g : StringIdGenerator) → g.last_id + n < 2 ^ 64 → (after n g).last_id ≡ g.last_id + n
unfolding next
last_id-after zero g h = omega arith
last_id-after (suc n) g h = omega (arith, last_id-after n (next g).1 (omega arith))

-- Two calls return different identifiers, whatever number of calls stands between them, as long as
-- the 64-bit counter has not wrapped around.
pub next-ne-next :
    (n : ℕ) (g : StringIdGenerator)
    → g.last_id + n + 2 < 2 ^ 64
    → (next g).0 ≢ (next (after n (next g).1)).0
unfolding next
next-ne-next n g h e =
    let second = after n (next g).1 in
    let same : (g.last_id + 1) % 2 ^ 64 ≡ (second.last_id + 1) % 2 ^ 64 =
      format_uint-injective _ _ (omega arith) (omega arith) e in
    absurd (omega (arith, last_id-after n (next g).1 (omega arith)))
