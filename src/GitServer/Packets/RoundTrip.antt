-- ===== src/GitServer/Packets/RoundTrip.antt =====
-- server/pkg/gitserver/server.go: `writeGitPacket` against the packets of the git protocol, which
-- begin with their own length in four hexadecimal digits.
use moblog_cloud.Prelude.{
  ℕ, ◌+◌, ◌-◌, ◌*◌, ◌/◌, ◌%◌, ◌^◌, ◌≤◌, ◌<◌, GoString, ◌&&◌, Option, none, some, [], ◌∷◌, ◌++◌, ok,
  panic, Bool-cases, ◌∙◌, ◌⊎◌, inl, inr, leb, length, if◌then◌else◌, ◌≡◌, refl, arith,
  length-append, ap,
}
use mathlib.Core.List.{append_assoc}
use moblog_cloud.GitServer.{take, drop}
use moblog_cloud.GitServer.Packets.{hex_digit, hex_padded, format_int16, write_git_packet}

-- A hexadecimal digit, either case.
unfoldable pub from_hex : ℕ → Option ℕ
from_hex c =
    if leb b'0' c && leb c b'9'
    then some (c - b'0')
    else if leb b'a' c && leb c b'f'
    then some (c - b'a' + 10)
    else if leb b'A' c && leb c b'F'
    then some (c - b'A' + 10)
    else none

infixl 5 ◌>>=◌
abbrev ◌>>=◌ : {A B : Type 0} → Option A → (A → Option B) → Option B
none >>= f = none
some a >>= f = f a

-- The payload of a packet that says that it is `n` bytes long.
abbrev payload : ℕ → GoString → Option (GoString × GoString)
payload n s =
    if leb 4 n && leb (n - 4) (length s) then some (take (n - 4) s, drop (n - 4) s) else none

-- A reader of one packet, and what follows it.
unfoldable pub read_git_packet : GoString → Option (GoString × GoString)
unfolding from_hex
read_git_packet (a ∷ b ∷ c ∷ d ∷ s) = do
  x₃ ← from_hex a
  x₂ ← from_hex b
  x₁ ← from_hex c
  x₀ ← from_hex d
  payload (((x₃ * 16 + x₂) * 16 + x₁) * 16 + x₀) s
read_git_packet _ = none

from_hex-hex_digit : (d : ℕ) → d < 16 → from_hex (hex_digit d) ≡ some d
unfolding from_hex hex_digit
from_hex-hex_digit d h = ground arith

take-length : (s rest : GoString) → take (length s) (s ++ rest) ≡ s
take-length [] rest = refl
take-length (c ∷ s) rest = ap (λ t. c ∷ t) (take-length s rest)

drop-length : (s rest : GoString) → drop (length s) (s ++ rest) ≡ rest
drop-length [] rest = refl
drop-length (c ∷ s) rest = drop-length s rest

hex_value :
    (n : ℕ) → n < 65536 → ((n / 4096 % 16 * 16 + n / 256 % 16) * 16 + n / 16 % 16) * 16 + n % 16 ≡ n
hex_value n h = omega arith

payload-append : (s rest : GoString) → payload (length s + 4) (s ++ rest) ≡ some (s, rest)
payload-append s rest =
    let e : length s + 4 - 4 ≡ length s = omega arith in
    rw e (ground (arith, take-length s rest, drop-length s rest, length-append s rest))

read_hex : (n : ℕ) (s : GoString) → n < 65536 → read_git_packet (hex_padded 4 n ++ s) ≡ payload n s
unfolding read_git_packet hex_padded
read_hex n s h =
    rw
      (
        from_hex-hex_digit (n / 4096 % 16) (omega arith),
        from_hex-hex_digit (n / 256 % 16) (omega arith),
        from_hex-hex_digit (n / 16 % 16) (omega arith),
        from_hex-hex_digit (n % 16) (omega arith),
        hex_value n h,
      )
      refl

format_int16_pos : (n : ℕ) → n < 2 ^ 15 → format_int16 n ≡ hex_padded 4 n
unfolding format_int16
format_int16_pos n h = ground arith

format_int16_neg : (n : ℕ) → 2 ^ 15 ≤ n → format_int16 n ≡ b'-' ∷ hex_padded 3 (2 ^ 16 - n)
unfolding format_int16
format_int16_neg n h = ground arith

read_minus : (t : GoString) → read_git_packet (b'-' ∷ t) ≡ none
unfolding read_git_packet
read_minus [] = refl
read_minus (a ∷ []) = refl
read_minus (a ∷ b ∷ []) = refl
read_minus (a ∷ b ∷ c ∷ t) = refl

writes :
    (s : GoString) → length s ≤ 65531 → write_git_packet s ≡ ok (format_int16 (length s + 4) ++ s)
unfolding write_git_packet
writes s h = ground arith

panics : (s : GoString) → 65531 < length s → write_git_packet s ≡ panic
unfolding write_git_packet
panics s h = ground arith

-- A packet of up to 32763 bytes reads back as what was written, whatever follows it.
pub read-write_git_packet :
    (s rest : GoString)
    → length s ≤ 32763
    → (out : GoString) × (write_git_packet s ≡ ok out)
      × (read_git_packet (out ++ rest) ≡ some (s, rest))
read-write_git_packet s rest h = (
  format_int16 (length s + 4) ++ s,
  writes s (omega arith),
  rw
      (
        format_int16_pos (length s + 4) (omega arith),
        append_assoc (hex_padded 4 (length s + 4)) s rest,
        read_hex (length s + 4) (s ++ rest) (omega arith),
      )
      (payload-append s rest),
)

-- The number that hexadecimal digits stand for, after those that stand for `n`.
unfoldable pub hex_number : ℕ → GoString → Option ℕ
unfolding from_hex
hex_number n [] = some n
hex_number n (c ∷ s) = do d ← from_hex c; hex_number (n * 16 + d) s

hex_number-hex_padded : (n : ℕ) → n < 65536 → hex_number 0 (hex_padded 3 n) ≡ some n
unfolding hex_number hex_padded
hex_number-hex_padded n h = elim (Bool-cases (leb 4096 n)) [
  | inl long ↦
      rw
        (
          long,
          from_hex-hex_digit (n / 4096 % 16) (omega arith),
          from_hex-hex_digit (n / 256 % 16) (omega arith),
          from_hex-hex_digit (n / 16 % 16) (omega arith),
          from_hex-hex_digit (n % 16) (omega arith),
        )
        (ap some (omega arith))
  | inr short ↦
      let small : n < 4096 = ground (arith, short) in
      rw
        (
          short,
          from_hex-hex_digit (n / 256 % 16) (omega arith),
          from_hex-hex_digit (n / 16 % 16) (omega arith),
          from_hex-hex_digit (n % 16) (omega arith),
        )
        (ap some (omega (arith, small)))
]

-- A longer packet, of up to 65531 bytes, is written all the same, without an error, with a minus sign
-- and the hexadecimal digits of 65536 less its length, as the length is taken for an int16; it reads
-- back as none, whatever follows it. A packet of more than 65531 bytes panics.
pub write_git_packet_overflow :
    (s rest : GoString)
    → 32763 < length s
    → ((length s ≤ 65531)
        × ((digits : GoString) × (write_git_packet s ≡ ok (b'-' ∷ (digits ++ s)))
            × (hex_number 0 digits ≡ some (65536 - (length s + 4)))
            × (read_git_packet (b'-' ∷ (digits ++ s) ++ rest) ≡ none)))
      ⊎ ((65531 < length s) × (write_git_packet s ≡ panic))
write_git_packet_overflow s rest h = elim (Bool-cases (leb (length s) 65531)) [
  | inl fits ↦
      let h' : length s ≤ 65531 = ground (arith, fits) in
      inl (
        h',
        (
          hex_padded 3 (2 ^ 16 - (length s + 4)),
          writes s h'
              ∙ ap (λ t. ok (t ++ s)) (format_int16_neg (length s + 4) (omega (arith, h, h'))),
          hex_number-hex_padded _ (omega (arith, h, h')),
          read_minus _,
        ),
      )
  | inr longer ↦ let h' : 65531 < length s = ground (arith, longer) in inr (h', panics s h')
]
