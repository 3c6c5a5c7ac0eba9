-- ===== src/Mutators/Splice.antt =====
-- mutator.cpp, SpliceMutator::Mutate. The flag of the result is its return value, and `none` is an
-- access outside a buffer.
use jackalope.Prelude.{
  ℕ, suc, ◌+◌, ◌-◌, ◌%◌, ◌^◌, Option, none, some, List, Bool, true, false, ltb, leb, ◌==◌,
  if◌then◌else◌, length, replicate, get_elem?,
}
use jackalope.Prelude.Memory.{Bytes, ◌>>=◌, read_block, write_block}
use jackalope.Sample.{Sample, content, realloc, trim}
use jackalope.Mutators.{Prng, rand, get_rand_block}

-- The probability `displacement_p` in 2^32 - 1 parts: RandReal is a 32-bit number of these parts.
unfoldable pub displaces : ℕ → Prng → Bool × Prng
displaces displacement_p prng =
    (ltb (prng.numbers prng.given % 2 ^ 32) displacement_p, record prng { given = suc prng.given })

-- A new buffer of `n` bytes that takes two blocks.
abbrev pub join_two : ℕ → Bytes → Bytes → Option Bytes
join_two n head tail = do b1 ← write_block (replicate n 0) 0 head; write_block b1 (length head) tail

-- `if (inout_sample->size > Sample::max_size) inout_sample->Trim(Sample::max_size)`
abbrev pub cut : ℕ → Sample → Sample
cut max_size t = if ltb max_size t.size then trim t max_size else t

-- The sample cut at `point1` and continued with the other one from `point2` on.
unfoldable pub splice_one : ℕ → Sample → Sample → ℕ → ℕ → Option Sample
splice_one max_size s other point1 point2 = do
  tail ← read_block (content other) point2 (other.size - point2)
  if point1 + (other.size - point2) == s.size
      then (do b ← write_block (content s) point1 tail; some (record s { bytes = some b }))
      else (do
        head ← read_block (content s) 0 point1
        b ← join_two (point1 + (other.size - point2)) head tail
        some (cut max_size (record s { bytes = some b; size = point1 + (other.size - point2) })))

-- Two points, displaced: a block of the sample gives way to one of the other.
unfoldable pub splice_displaced : ℕ → Sample → Sample → ℕ × ℕ → ℕ × ℕ → Option Sample
splice_displaced max_size s other (start1, size1) (start2, size2) = do
  head ← read_block (content s) 0 start1
  middle ← read_block (content other) start2 size2
  tail ← read_block (content s) (start1 + size1) (s.size - (start1 + size1))
  b ← join_two (start1 + size2 + length tail) head middle
  b' ← write_block b (start1 + size2) tail
  some (
      if ltb max_size (length b')
      then record s { bytes = some (realloc b' max_size); size = max_size }
      else record s { bytes = some b'; size = length b' })

-- Two points at the same place: a block of the other sample goes to where it came from.
unfoldable pub splice_in_place : Sample → Sample → ℕ × ℕ → Option Sample
splice_in_place s other (start, size) =
    let from = if ltb s.size start then s.size else start in
    let n = if ltb s.size start then size + (start - s.size) else size in
    (do
      block ← read_block (content other) from n
      if leb (from + n) s.size
          then (do b ← write_block (content s) from block; some (record s { bytes = some b }))
          else (do
            head ← read_block (content s) 0 from
            b ← join_two (from + n) head block
            some (record s { bytes = some b; size = from + n })))

abbrev finish : Prng → Option Sample → Option ((Bool × Sample) × Prng)
finish prng none = none
finish prng (some s) = some ((true, s), prng)

abbrev second_block :
    ℕ → Sample → Sample → ℕ × ℕ → Option (ℕ × ℕ) × Prng → Option ((Bool × Sample) × Prng)
second_block max_size s other block1 (none, prng) = some ((true, s), prng)
second_block max_size s other block1 (some block2, prng) =
    finish prng (splice_displaced max_size s other block1 block2)

abbrev first_block : ℕ → Sample → Sample → Option (ℕ × ℕ) × Prng → Option ((Bool × Sample) × Prng)
first_block max_size s other (none, prng) = some ((true, s), prng)
first_block max_size s other (some block1, prng) =
    second_block max_size s other block1 (get_rand_block other.size 1 other.size prng)

abbrev place_block : Sample → Sample → Option (ℕ × ℕ) × Prng → Option ((Bool × Sample) × Prng)
place_block s other (none, prng) = some ((true, s), prng)
place_block s other (some block, prng) = finish prng (splice_in_place s other block)

-- The points of a splice with one point, and the splice.
abbrev cut_at : ℕ → Sample → Sample → Bool → Prng → Option ((Bool × Sample) × Prng)
cut_at max_size s other true prng =
    let p1 = rand 0 (s.size - 1) prng in
    let p2 = rand 0 (other.size - 1) p1.1 in finish p2.1 (splice_one max_size s other p1.0 p2.0)
cut_at max_size s other false prng =
    let p = rand 0 ((if ltb other.size s.size then other.size else s.size) - 1) prng in
    finish p.1 (splice_one max_size s other p.0 p.0)

abbrev splice_other : ℕ → ℕ → Bool → Sample → Option Sample → Prng → Option ((Bool × Sample) × Prng)
splice_other max_size points displace s none prng = none
splice_other max_size points displace s (some other) prng =
    if s.size == 0
    then some ((false, s), prng)
    else if other.size == 0
    then some ((false, s), prng)
    else if points == 1
    then cut_at max_size s other displace prng
    else if displace
    then first_block max_size s other (get_rand_block s.size 1 s.size prng)
    else place_block s other (get_rand_block other.size 2 other.size prng)

-- SpliceMutator::Mutate, for one or two points; the code stops with FATAL at other numbers.
unfoldable pub splice : ℕ → ℕ → ℕ → List Sample → Sample → Prng → Option ((Bool × Sample) × Prng)
unfolding displaces splice_one splice_displaced splice_in_place
splice max_size points displacement_p all_samples s prng =
    if length all_samples == 0
    then some ((true, s), prng)
    else (let displace = displaces displacement_p prng in
        let i = rand 0 (length all_samples - 1) displace.1 in
        splice_other max_size points displace.0 s (get_elem? all_samples i.0) i.1)
