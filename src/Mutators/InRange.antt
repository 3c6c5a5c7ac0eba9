-- ===== src/Mutators/InRange.antt =====
-- mutator.h and mutator.cpp, RangeMutator: the child mutates one of the ranges that the target read.
use jackalope.Prelude.{
  ℕ, ◌+◌, ◌-◌, ◌%◌, ◌<◌, min, ◌≡◌, refl, ap, ◌∙◌, Option, some, List, Bool, true, false, ◌==◌,
  if◌then◌else◌, length, take, drop, get_elem?, get_elem?_inside, take_all, arith,
}
use jackalope.Prelude.Memory.{Bytes, ◌>>=◌, read_block, read_block_lem}
use jackalope.Sample.{Sample, content, IsValid, new_sample, crop}
use jackalope.Sample.Contents.{crop_lem}
use jackalope.Ranges.{Range}
use jackalope.Mutators.{Prng, next_number}
use jackalope.Mutators.Blocks.{replaced}
use jackalope.Mutators.Deterministic.{store_at}
use jackalope.Mutators.Deterministic.Effects.{padded, store_at_lem}
use jackalope.Mutators.Combinators.{Child}
use native.Mathlib.Nat.{mod-lt}

-- A child's Mutate on a sample and the random numbers.
abbrev pub SampleChild : Type 0
SampleChild = Child (Sample × Prng)

-- Puts the mutated part back where it was.
abbrev pub put_back : ℕ → Sample → Bool × (Sample × Prng) → Option (Bool × (Sample × Prng))
put_back from s (ret, (part, prng)) = do
  block ← read_block (content part) 0 part.size
  t ← store_at from block s
  some (true, (t, prng))

-- The part of RangeMutator::Mutate behind the choice of the range.
unfoldable pub mutate_part : SampleChild → Range → Sample → Prng → Option (Bool × (Sample × Prng))
unfolding store_at
mutate_part child range s prng = do
  part ← crop s range.from range.to new_sample
  if s.size == 0 then child (s, prng) else (do m ← child (part, prng); put_back range.from s m)

-- RangeMutator::Mutate
unfoldable pub range_mutate : SampleChild → List Range → SampleChild
unfolding mutate_part
range_mutate child ranges (s, prng) =
    if length ranges == 0
    then child (s, prng)
    else (let n = next_number prng in
        (do range ← get_elem? ranges (n.0 % length ranges); mutate_part child range s n.1))

-- A child that on a valid sample stays inside its buffer and leaves a valid sample.
abbrev pub StaysInside : SampleChild → Type 0
StaysInside child =
    (s : Sample) (prng : Prng)
    → IsValid s
    → (b : Bool) × (t : Sample) × (prng' : Prng) × (child (s, prng) ≡ some (b, (t, prng')))
      × IsValid t

-- What the mutator made of a sample: the child's result on the part of a range is put back at the
-- start of the range.
pub record PutBack (child : SampleChild) (range : Range) (s : Sample) (prng : Prng)
    (r : Option (Bool × (Sample × Prng))) : Type 0 where
  pub part : Sample
  pub ret : Bool
  pub new : Sample
  pub later : Prng
  pub result : Sample
  pub part_is : content part ≡ take (min range.to s.size - range.from) (drop range.from (content s))
  pub child_is : child (part, prng) ≡ some (ret, (new, later))
  pub result_is : r ≡ some (true, (result, later))
  pub content_is :
      content result
      ≡ replaced (padded s (range.from + length (content new))) range.from (content new)
  pub result_valid : IsValid result

put_back_lem :
    (from : ℕ) (s new : Sample) (ret : Bool) (prng : Prng)
    → IsValid s
    → IsValid new
    → (t : Sample) × (put_back from s (ret, (new, prng)) ≡ some (true, (t, prng)))
      × IsValid t
      × (content t ≡ replaced (padded s (from + length (content new))) from (content new))
put_back_lem from s new ret prng v w =
    let (t, stored, valid, same) = store_at_lem from (content new) s v in
    let whole : read_block (content new) 0 new.size ≡ some (content new) =
      read_block_lem (content new) 0 new.size (omega arith)
      ∙ ap (λ (b : Bytes). some b) (take_all (content new) new.size (omega arith)) in
    (t, rw (whole, stored) refl, valid, same)

mutate_part_lem :
    (child : SampleChild) (range : Range) (s : Sample) (prng : Prng)
    → StaysInside child
    → IsValid s
    → 0 < s.size
    → PutBack child range s prng (mutate_part child range s prng)
unfolding mutate_part
mutate_part_lem child range s prng stays v h =
    let (part, cropped, part_is, part_valid) = crop_lem s new_sample range.from range.to v refl in
    let (ret, new, later, child_is, new_valid) = stays part prng part_valid in
    let (t, put, valid, same) = put_back_lem range.from s new ret later v new_valid in
    let full : (s.size == 0) ≡ false = ground arith in
    record {
      part = part;
      ret = ret;
      new = new;
      later = later;
      result = t;
      part_is = part_is;
      child_is = child_is;
      result_is = rw (cropped, full, child_is) put;
      content_is = same;
      result_valid = valid;
    }

-- RangeMutator on a valid sample of a byte at least, with a range at least and a child that stays
-- inside its buffer, stays inside its buffers and returns true. The child gets the bytes of a range
-- up to the end of the sample, and its result overwrites the sample from the start of the range on,
-- past its end too; zeros fill the gap to a range that starts behind the end. All else stays.
pub range_mutate-PutBack :
    (child : SampleChild) (ranges : List Range) (s : Sample) (prng : Prng)
    → StaysInside child
    → IsValid s
    → 0 < s.size
    → 0 < length ranges
    → (range : Range) × (get_elem? ranges ((next_number prng).0 % length ranges) ≡ some range)
      × PutBack child range s (next_number prng).1 (range_mutate child ranges (s, prng))
unfolding range_mutate
range_mutate-PutBack child ranges s prng stays v h some_range =
    let full : (length ranges == 0) ≡ false = ground arith in
    let (range, at) =
      get_elem?_inside ranges ((next_number prng).0 % length ranges)
        (mod-lt (next_number prng).0 some_range) in
    (range, at, rw (full, at) (mutate_part_lem child range s (next_number prng).1 stays v h))
