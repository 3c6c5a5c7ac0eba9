-- ===== src/Grammar/Rules/Hex.antt =====
-- grammar.cpp, Grammar::HexStringToString: it reads back bytes that are written in hexadecimal.
use jackalope.Prelude.{
  ℕ, ◌+◌, ◌-◌, ◌*◌, ◌/◌, ◌%◌, ◌<◌, ◌≡◌, refl, ap, true, some, [], ◌∷◌, ◌++◌, ltb, ◌==◌,
  if◌then◌else◌, length, arith,
}
use jackalope.Prelude.Memory.{Bytes}
use jackalope.Prelude.Predicates.{All}
use jackalope.Grammar.Rules.{hex_digit, hex_pairs, hex_string, hex_prefix}

abbrev pub digit_char : ℕ → ℕ
digit_char d = if ltb d 10 then b'0' + d else b'a' + (d - 10)

abbrev pub IsByte : ℕ → Type 0
IsByte b = b < 256

abbrev pub to_hex : Bytes → Bytes
to_hex [] = []
to_hex (b ∷ bytes) = digit_char (b / 16) ∷ (digit_char (b % 16) ∷ to_hex bytes)

hex_digit-digit_char : (d : ℕ) → d < 16 → hex_digit (digit_char d) ≡ some d
hex_digit-digit_char d h = ground arith

hex_pairs-to_hex : (bytes : Bytes) → All IsByte bytes → hex_pairs (to_hex bytes) ≡ some bytes
unfolding hex_pairs
hex_pairs-to_hex [] h = refl
hex_pairs-to_hex (b ∷ bytes) h =
    let value : (b / 16 * 16 + b % 16) % 256 ≡ b = omega arith in
    rw
      (
        hex_digit-digit_char (b / 16) (omega arith),
        hex_digit-digit_char (b % 16) (omega arith),
        hex_pairs-to_hex bytes h.1,
      )
      (ap (λ (k : ℕ). some (k ∷ bytes)) value)

length-to_hex : (bytes : Bytes) → length (to_hex bytes) ≡ 2 * length bytes
length-to_hex [] = refl
length-to_hex (b ∷ bytes) = omega (arith, length-to_hex bytes)

-- The bytes of `0x` and the two hexadecimal digits of each byte of a text, below 256, are read as
-- that text.
pub hex_string-to_hex :
    (bytes : Bytes) → All IsByte bytes → hex_string (hex_prefix ++ to_hex bytes) ≡ some bytes
unfolding hex_string
hex_string-to_hex bytes h =
    let even : (length (hex_prefix ++ to_hex bytes) % 2 == 0) ≡ true =
      ground (arith, length-to_hex bytes) in
    rw even (hex_pairs-to_hex bytes h)
