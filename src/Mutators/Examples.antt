-- ===== src/Mutators/Examples.antt =====
-- The mutators' theorems at a sample of three bytes and a simple sequence of random numbers.
use jackalope.Prelude.{
  ℕ, ◌+◌, ◌%◌, get_elem?, ◌*◌, ◌≤◌, ◌≡◌, refl, some, [], ◌∷◌, ◌++◌, true, length, take, drop, arith,
}
use jackalope.Prelude.Memory.{Bytes, write_block, read_block}
use jackalope.Sample.{Sample, content, IsValid, crop, resize, realloc}
use jackalope.Ranges.{Range}
use jackalope.Mutators.InRange.{SampleChild, range_mutate, PutBack, range_mutate-PutBack}
use jackalope.Mutators.{
  Prng, next_number, rand, byte_flip, append_mutate, block_insert, dict_unescape,
}
use jackalope.Mutators.Dictionary.{escaped, dict_unescape-escaped}
use jackalope.Mutators.Blocks.{append_mutate_lem}
use jackalope.Mutators.Insert.{block_insert_lem}

abbrev seven_times : Prng
seven_times = record { numbers = λ i. 7 * i + 1; given = 0 }

abbrev three : Sample
three = record { bytes = some (1 ∷ 2 ∷ 3 ∷ []); size = 3; filename = [] }

flipped :
    byte_flip three seven_times
    ≡ some (record three { bytes = some (1 ∷ 8 ∷ 3 ∷ []) }, record seven_times { given = 2 })
unfolding byte_flip rand write_block
flipped = refl

append_mutate_lem_example :
    (t : Sample) × (new : Bytes) × (prng' : Prng) × (append_mutate 10 1 4 three seven_times
      ≡ some (t, prng'))
    × (content t ≡ content three ++ new)
    × IsValid t
    × (length new ≤ 4)
    × (t.size ≤ 10)
append_mutate_lem_example =
    append_mutate_lem 10 1 4 three seven_times refl (omega arith) (omega arith)

block_insert_lem_example :
    (t : Sample) × (place : ℕ) × (new : Bytes) × (prng' : Prng) × (block_insert 10 1 4 three
        seven_times
      ≡ some (t, prng'))
    × (place ≤ 3)
    × (content t ≡ take place (content three) ++ (new ++ drop place (content three)))
    × IsValid t
    × (length new ≤ 4)
    × (t.size ≤ 10)
block_insert_lem_example =
    block_insert_lem 10 1 4 three seven_times refl (omega arith) (omega arith)

dict_unescape-escaped_example : dict_unescape (escaped (0 ∷ 255 ∷ [])) ≡ 0 ∷ 255 ∷ []
dict_unescape-escaped_example =
    dict_unescape-escaped (0 ∷ 255 ∷ []) (omega arith, (omega arith, tt))

-- A child that leaves the sample alone, and one range that starts behind its end.
abbrev idle : SampleChild
idle w = some (true, w)

range_mutate-PutBack_example :
    (range : Range) × (get_elem?
        (record { from = 5; to = 9 } ∷ [])
        ((next_number seven_times).0 % 1)
      ≡ some range)
    × PutBack idle range three
        (next_number seven_times).1
        (range_mutate idle (record { from = 5; to = 9 } ∷ []) (three, seven_times))
range_mutate-PutBack_example =
    range_mutate-PutBack idle (record { from = 5; to = 9 } ∷ []) three seven_times
      (λ s prng v. (true, s, prng, refl, v)) refl (omega arith) (omega arith)

-- The sample of three bytes has grown to five.
grown_to_range :
    range_mutate idle (record { from = 5; to = 9 } ∷ []) (three, seven_times)
    ≡ some (
      true,
      (
        record three { bytes = some (1 ∷ 2 ∷ 3 ∷ 0 ∷ 0 ∷ []); size = 5 },
        record seven_times { given = 1 },
      ),
    )
unfolding range_mutate crop resize write_block read_block realloc
grown_to_range = refl
