-- ===== src/Mutators/Arithmetic.antt =====
-- mutator.h, FlipEndian, and mutator.cpp, ArithmeticMutator: a number in the sample is changed by at
-- most 256.
pub mod Bytewise
pub mod Change
mod Examples
use jackalope.Prelude.{
  ℕ, zero, suc, ◌+◌, ◌-◌, ◌*◌, ◌/◌, ◌%◌, ◌^◌, Option, none, some, List, Bool, true, false, ◌==◌,
  if◌then◌else◌,
}
use jackalope.Prelude.Memory.{Bytes, ◌>>=◌, store_le, load_le, read_block, write_block}
use jackalope.Sample.{Sample, content}
use jackalope.Mutators.{Prng, rand, get_rand_block}

-- The loop of FlipEndian with `n` rounds to go; `modulus` is the number of values of the type.
-- `|=` adds, since the shift has cleared the low byte.
unfoldable pub flip_loop : ℕ → ℕ → ℕ → ℕ → ℕ
flip_loop modulus zero value out = out
flip_loop modulus (suc n) value out =
    flip_loop modulus n (value / 256) (out * 256 % modulus + value % 256)

-- FlipEndian for a type of `k` bytes
unfoldable pub flip_endian : ℕ → ℕ → ℕ
unfolding flip_loop
flip_endian k value = flip_loop (256 ^ k) k value 0

-- `if(flip_endian) value = FlipEndian(value)`
abbrev pub flipped : Bool → ℕ → ℕ → ℕ
flipped true k value = flip_endian k value
flipped false k value = value

-- `value += change`, for `change` from -256 to 256, here with 256 added: it wraps around.
abbrev pub changed : ℕ → ℕ → ℕ → ℕ
changed k change value = (value + 256 ^ k + change - 256) % 256 ^ k

abbrev pub new_bytes : Bool → ℕ → ℕ → Bytes → Bytes
new_bytes flip k change block =
    store_le k (flipped flip k (changed k change (flipped flip k (load_le block))))

abbrev pub change_block : Bool → ℕ → Sample → Option (ℕ × ℕ) × Prng → Option (Sample × Prng)
change_block flip k s (none, prng) = some (s, prng)
change_block flip k s (some (blockstart, blocksize), prng) =
    let change = rand 0 512 prng in
    (do
      block ← read_block (content s) blockstart k
      b ← write_block (content s) blockstart (new_bytes flip k change.0 block)
      some (record s { bytes = some b }, change.1))

-- MutateArithmeticValue for a type of `k` bytes
unfoldable pub mutate_arithmetic_value : Bool → ℕ → Sample → Prng → Option (Sample × Prng)
unfolding get_rand_block
mutate_arithmetic_value flip k s prng = change_block flip k s (get_rand_block s.size k k prng)

abbrev pub type_size : ℕ → ℕ
type_size size = if size == 0 then 2 else if size == 1 then 4 else 8

-- ArithmeticMutator::Mutate
unfoldable pub arithmetic_mutate : Sample → Prng → Option (Sample × Prng)
unfolding mutate_arithmetic_value
arithmetic_mutate s prng =
    let flip = rand 0 1 prng in
    let size = rand 0 2 flip.1 in mutate_arithmetic_value (flip.0 == 1) (type_size size.0) s size.1
