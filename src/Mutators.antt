-- ===== src/Mutators.antt =====
-- mutator.h, mutator.cpp and prng.h: the random choices, and the mutators of bytes and blocks. Each
-- of these returns true, so the flag is left out; `none` is an access outside a buffer. Sizes are
-- below 2^31, where the casts to int change nothing.
pub mod Bounds
pub mod Blocks
pub mod Insert
pub mod Dictionary
pub mod Splice
pub mod Deterministic
pub mod Combinators
pub mod InRange
pub mod Arithmetic
mod Examples
use jackalope.Prelude.{
  ℕ, zero, suc, ◌+◌, ◌-◌, ◌*◌, ◌/◌, ◌%◌, ◌^◌, Option, none, some, List, [], ◌∷◌, ◌++◌, Bool, true,
  false, ◌&&◌, ltb, leb, ◌==◌, if◌then◌else◌, length, take, drop, replicate, get_elem?,
}
use jackalope.Prelude.Memory.{Bytes, ◌>>=◌, read_block, write_block}
use jackalope.Sample.{Sample, content, realloc}

-- The 32-bit numbers that a PRNG gives, and how many it has given.
pub record Prng : Type 0 where
  pub numbers : ℕ → ℕ
  pub given : ℕ

-- PRNG::Rand()
abbrev pub next_number : Prng → ℕ × Prng
next_number prng = (prng.numbers prng.given % 2 ^ 32, record prng { given = suc prng.given })

-- PRNG::Rand(min, max), for min up to max.
unfoldable pub rand : ℕ → ℕ → Prng → ℕ × Prng
rand min max prng = if min == max then (min, prng) else (
  (prng.numbers prng.given % 2 ^ 32) % (max - min + 1) + min,
  record prng { given = suc prng.given },
)

-- A loop that stores `(char)prng->Rand(0, 255)` in `n` places.
unfoldable pub random_bytes : ℕ → Prng → Bytes × Prng
random_bytes zero prng = ([], prng)
random_bytes (suc n) prng =
    let c = rand 0 255 prng in let rest = random_bytes n c.1 in (c.0 ∷ rest.0, rest.1)

abbrev smaller : ℕ → ℕ → ℕ
smaller size max = if ltb size max then size else max

abbrev pub block_of : ℕ → ℕ × Prng → Option (ℕ × ℕ) × Prng
block_of samplesize (blocksize, prng) =
    let start = rand 0 (samplesize - blocksize) prng in (some (start.0, blocksize), start.1)

-- Mutator::GetRandBlock: the start and the size of the block, or `none` for the return value 0.
unfoldable pub get_rand_block : ℕ → ℕ → ℕ → Prng → Option (ℕ × ℕ) × Prng
get_rand_block samplesize minblocksize maxblocksize prng =
    if samplesize == 0
    then (none, prng)
    else if ltb samplesize minblocksize
    then (none, prng)
    else block_of samplesize (rand minblocksize (smaller samplesize maxblocksize) prng)

-- ByteFlipMutator::Mutate
unfoldable pub byte_flip : Sample → Prng → Option (Sample × Prng)
byte_flip s prng =
    if s.size == 0
    then some (s, prng)
    else (let charpos = rand 0 (s.size - 1) prng in
        let c = rand 0 255 charpos.1 in
        (do
          b ← write_block (content s) charpos.0 (c.0 ∷ [])
          some (record s { bytes = some b }, c.1)))

-- The bytes that BlockFlipMutator writes: one byte `n` times, or `n` random ones.
abbrev pub flip_bytes : Bool → ℕ → Prng → Bytes × Prng
flip_bytes true n prng = let c = rand 0 255 prng in (replicate n c.0, c.1)
flip_bytes false n prng = random_bytes n prng

abbrev pub flip_block : Bool → Sample → Option (ℕ × ℕ) × Prng → Option (Sample × Prng)
flip_block uniform s (none, prng) = some (s, prng)
flip_block uniform s (some (blockpos, blocksize), prng) =
    let new = flip_bytes uniform blocksize prng in
    (do b ← write_block (content s) blockpos new.0; some (record s { bytes = some b }, new.1))

-- BlockFlipMutator::Mutate
unfoldable pub block_flip : Bool → ℕ → ℕ → Sample → Prng → Option (Sample × Prng)
unfolding get_rand_block
block_flip uniform min_block_size max_block_size s prng =
    flip_block uniform s (get_rand_block s.size min_block_size max_block_size prng)

-- `if ((old_size + n) > Sample::max_size) n = Sample::max_size - old_size`
abbrev pub fit : ℕ → ℕ → ℕ → ℕ
fit max_size old_size n = if ltb max_size (old_size + n) then max_size - old_size else n

abbrev pub append_block : Sample → ℕ → Prng → Option (Sample × Prng)
append_block s append prng =
    if append == 0
    then some (s, prng)
    else (let new = random_bytes append prng in
        (do
          b ← write_block (realloc (content s) (s.size + append)) s.size new.0
          some (record s { bytes = some b; size = s.size + append }, new.1)))

-- AppendMutator::Mutate
unfoldable pub append_mutate : ℕ → ℕ → ℕ → Sample → Prng → Option (Sample × Prng)
append_mutate max_size min_append max_append s prng =
    if leb max_size s.size
    then some (s, prng)
    else (let n = rand min_append max_append prng in append_block s (fit max_size s.size n.0) n.1)

-- The new buffer of BlockInsertMutator, which starts with indeterminate bytes, here 0.
abbrev pub insert_block : Sample → ℕ → ℕ → Prng → Option (Sample × Prng)
insert_block s place to_insert prng =
    if to_insert == 0
    then some (s, prng)
    else (let new = random_bytes to_insert prng in
        (do
          head ← read_block (content s) 0 place
          b1 ← write_block (replicate (s.size + to_insert) 0) 0 head
          b2 ← write_block b1 place new.0
          tail ← read_block (content s) place (s.size - place)
          b3 ← write_block b2 (place + to_insert) tail
          some (record s { bytes = some b3; size = s.size + to_insert }, new.1)))

-- BlockInsertMutator::Mutate
unfoldable pub block_insert : ℕ → ℕ → ℕ → Sample → Prng → Option (Sample × Prng)
block_insert max_size min_insert max_insert s prng =
    if leb max_size s.size
    then some (s, prng)
    else (let n = rand min_insert max_insert prng in
        let place = rand 0 s.size n.1 in insert_block s place.0 (fit max_size s.size n.0) place.1)

-- The loop of BlockDuplicateMutator: `n` copies from the one at `pos` on.
unfoldable pub copy_blocks : ℕ → ℕ → Bytes → Bytes → Option Bytes
copy_blocks zero pos block buf = some buf
copy_blocks (suc n) pos block buf = do
  b ← write_block buf pos block
  copy_blocks n (pos + length block) block b

abbrev pub duplicate_block : Sample → ℕ → ℕ → ℕ → Prng → Option (Sample × Prng)
duplicate_block s blockpos blocksize blockcount prng =
    if blockcount == 0 then some (s, prng) else (do
      head ← read_block (content s) 0 (blockpos + blocksize)
      b1 ← write_block (replicate (s.size + blockcount * blocksize) 0) 0 head
      block ← read_block (content s) blockpos blocksize
      b2 ← copy_blocks blockcount (blockpos + blocksize) block b1
      tail ← read_block (content s) (blockpos + blocksize) (s.size - blockpos - blocksize)
      b3 ← write_block b2 (blockpos + (blockcount + 1) * blocksize) tail
      some (record s { bytes = some b3; size = s.size + blockcount * blocksize }, prng))

abbrev pub fit_count : ℕ → ℕ → ℕ → ℕ → ℕ
fit_count max_size size blocksize count =
    if ltb max_size (size + count * blocksize) then (max_size - size) / blocksize else count

abbrev pub duplicate_times : ℕ → ℕ → ℕ → Sample → Option (ℕ × ℕ) × Prng → Option (Sample × Prng)
duplicate_times max_size min_count max_count s (none, prng) = some (s, prng)
duplicate_times max_size min_count max_count s (some (blockpos, blocksize), prng) =
    let n = rand min_count max_count prng in
    duplicate_block s blockpos blocksize (fit_count max_size s.size blocksize n.0) n.1

-- BlockDuplicateMutator::Mutate, for blocks of at least a byte.
unfoldable pub block_duplicate : ℕ → ℕ → ℕ → ℕ → ℕ → Sample → Prng → Option (Sample × Prng)
unfolding get_rand_block copy_blocks
block_duplicate max_size min_block_size max_block_size min_count max_count s prng =
    if leb max_size s.size
    then some (s, prng)
    else duplicate_times max_size min_count max_count s
        (get_rand_block s.size min_block_size max_block_size prng)

abbrev overwrite : Sample → Bytes → Option (ℕ × ℕ) × Prng → Option (Sample × Prng)
overwrite s value (none, prng) = some (s, prng)
overwrite s value (some (blockstart, blocksize), prng) = do
  b ← write_block (content s) blockstart value
  some (record s { bytes = some b }, prng)

abbrev put_value : Sample → Option Sample → Prng → Option (Sample × Prng)
put_value s none prng = none
put_value s (some v) prng = overwrite s (content v) (get_rand_block s.size v.size v.size prng)

-- InterestingValueMutator::Mutate
unfoldable pub interesting_value : List Sample → Sample → Prng → Option (Sample × Prng)
unfolding get_rand_block
interesting_value interesting_values s prng =
    if length interesting_values == 0
    then some (s, prng)
    else (let i = rand 0 (length interesting_values - 1) prng in
        put_value s (get_elem? interesting_values i.0) i.1)

-- isxdigit, and the value of such a character.
abbrev pub hex_value : ℕ → Option ℕ
hex_value c =
    if leb b'0' c && leb c b'9'
    then some (c - b'0')
    else if leb b'a' c && leb c b'f'
    then some (c - b'a' + 10)
    else if leb b'A' c && leb c b'F'
    then some (c - b'A' + 10)
    else none

-- The byte that `\xHH` stands for.
abbrev pub hex_byte : ℕ → ℕ → ℕ → ℕ → Option ℕ
hex_byte a b c d =
    if a == b'\\' && b == b'x'
    then (do high ← hex_value c; low ← hex_value d; some (16 * high + low))
    else none

abbrev pub unescape_one : Option ℕ → ℕ → Bytes → Bytes → Bytes
unescape_one none first escaped plain = first ∷ plain
unescape_one (some v) first escaped plain = v ∷ escaped

-- InterestingValueMutator::DictUnescape, which copies the last three bytes, or a shorter line, as
-- they are.
unfoldable pub dict_unescape : Bytes → Bytes
dict_unescape (a ∷ b ∷ c ∷ d ∷ rest) =
    let escaped = dict_unescape rest in
    let plain = dict_unescape (b ∷ c ∷ d ∷ rest) in unescape_one (hex_byte a b c d) a escaped plain
dict_unescape short = short
