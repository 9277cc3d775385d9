-- ===== src/GitServer/Packets.antt =====
-- server/pkg/gitserver/server.go: `writeGitPacket`.
pub mod RoundTrip
use moblog_cloud.Prelude.{
  ℕ, ◌+◌, ◌-◌, ◌*◌, ◌/◌, ◌%◌, ◌^◌, ◌≤◌, ◌<◌, GoString, codes, Bool, true, false, ◌&&◌, ◌||◌, Option,
  none, some, List, [], ◌∷◌, ◌++◌, Result, ok, err, panic, ltb, leb, length, if◌then◌else◌, ◌≡◌,
  ◌≢◌, refl, arith, zero, suc, length-append, Bool-cases, inl, inr,
}

-- A lower-case hexadecimal digit.
unfoldable pub hex_digit : ℕ → ℕ
hex_digit d = if ltb d 10 then b'0' + d else b'a' + (d - 10)

-- Hexadecimal digits, padded with zeros to at least the width (of at most 4 digits).
unfoldable pub hex_padded : ℕ → ℕ → GoString
unfolding hex_digit
hex_padded width n =
    let d₃ = hex_digit (n / 4096 % 16) in
    let d₂ = hex_digit (n / 256 % 16) in
    let d₁ = hex_digit (n / 16 % 16) in
    let d₀ = hex_digit (n % 16) in
    if leb 4 width || leb 4096 n then d₃ ∷ d₂ ∷ d₁ ∷ d₀ ∷ [] else d₂ ∷ d₁ ∷ d₀ ∷ []

-- `fmt` with `%04x` on `int16(n)`, for n below 2^16: the numbers from 2^15 on are negative, and the
-- sign takes one of the four places.
unfoldable pub format_int16 : ℕ → GoString
unfolding hex_padded
format_int16 n = if ltb n (2 ^ 15) then hex_padded 4 n else b'-' ∷ hex_padded 3 (2 ^ 16 - n)

-- What is written to `w`.
unfoldable pub write_git_packet : GoString → Result GoString
write_git_packet s =
    if ltb (65535 - 4) (length s) then panic else ok (format_int16 (length s + 4) ++ s)
