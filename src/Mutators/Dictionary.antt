-- ===== src/Mutators/Dictionary.antt =====
-- The escapes of dictionary files: what DictUnescape makes of an escaped value.
use jackalope.Prelude.{
  ℕ, ◌+◌, ◌-◌, ◌*◌, ◌/◌, ◌%◌, ◌<◌, ◌≡◌, refl, ap, some, [], ◌∷◌, ltb, if◌then◌else◌, arith,
}
use jackalope.Prelude.Memory.{Bytes}
use jackalope.Prelude.Predicates.{All}
use jackalope.Mutators.{hex_value, hex_byte, dict_unescape}

abbrev hex_digit : ℕ → ℕ
hex_digit v = if ltb v 10 then b'0' + v else b'a' + (v - 10)

-- A value written with an escape for each byte.
abbrev pub escaped : Bytes → Bytes
escaped [] = []
escaped (b ∷ bs) = b'\\' ∷ b'x' ∷ hex_digit (b / 16) ∷ hex_digit (b % 16) ∷ escaped bs

hex_value-hex_digit : (v : ℕ) → v < 16 → hex_value (hex_digit v) ≡ some v
hex_value-hex_digit v h = ground arith

hex_byte-digits :
    (b : ℕ) → b < 256 → hex_byte b'\\' b'x' (hex_digit (b / 16)) (hex_digit (b % 16)) ≡ some b
hex_byte-digits b h =
    let high = hex_value-hex_digit (b / 16) (omega arith) in
    let low = hex_value-hex_digit (b % 16) (omega arith) in
    let sum : 16 * (b / 16) + b % 16 ≡ b = omega arith in rw (high, low) (ap some sum)

-- A value of bytes that is written with an escape for each byte is read as it was.
pub dict_unescape-escaped : (bs : Bytes) → All (λ b. b < 256) bs → dict_unescape (escaped bs) ≡ bs
unfolding dict_unescape
dict_unescape-escaped [] h = refl
dict_unescape-escaped (b ∷ bs) h =
    rw (hex_byte-digits b h.0) (ap (λ rest. b ∷ rest) (dict_unescape-escaped bs h.1))
