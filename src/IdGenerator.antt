-- ===== src/IdGenerator.antt =====
-- server/pkg/idgenerator/string.go.
pub mod Distinct
use moblog_cloud.Prelude.{
  ℕ, zero, suc, ◌+◌, ◌/◌, ◌%◌, ◌^◌, GoString, [], ◌∷◌, ◌++◌, ltb, if◌then◌else◌,
}

pub record StringIdGenerator : Type 0 where
  pub last_id : ℕ

-- The decimal digits of a number, at most as many as the fuel.
unfoldable pub digits : ℕ → ℕ → GoString
digits zero n = []
digits (suc fuel) n =
    let more = digits fuel (n / 10) ++ (b'0' + n % 10) ∷ [] in
    if ltb n 10 then (b'0' + n) ∷ [] else more

-- `strconv.FormatUint(n, 10)`: a uint64 has at most 20 digits.
unfoldable pub format_uint : ℕ → GoString
unfolding digits
format_uint n = digits 20 n

-- `atomic.AddUint64` wraps around.
unfoldable pub next : StringIdGenerator → GoString × StringIdGenerator
unfolding format_uint
next g = let id = (g.last_id + 1) % 2 ^ 64 in (format_uint id, record g { last_id = id })
