-- ===== src/Mutators/Deterministic/Examples.antt =====
-- Hot offsets in a small context, and the theorems about it.
use jackalope.Prelude.{ℕ, ◌+◌, ◌*◌, ◌≡◌, refl, some, List, [], ◌∷◌, ◌++◌, length, take, arith}
use jackalope.Sample.{Sample}
use jackalope.Mutators.Deterministic.{Context, create_context, add_hot_offset, get_next_byte}
use jackalope.Mutators.Deterministic.Pending.{pending, handed_out, handed_out-pending}
use jackalope.Mutators.Deterministic.Covered.{Covered}
use jackalope.Mutators.Deterministic.Calls.{hot, next, after, after-Covered_hot}
use jackalope.Mutators.Deterministic.Stage.{Stage, stage, stage_hot}
use jackalope.Mutators.Deterministic.Expected.{new_stage, places, expected}
use jackalope.Mutators.Deterministic.Rounds.{until_false-stage}
use jackalope.Mutators.Combinators.{until_false}

abbrev two_bytes : Context
two_bytes = record {
  regions =
      record { start = 5; end = 7; cur = 5; cur_progress = 1 }
      ∷ record { start = 9; end = 10; cur = 9; cur_progress = 0 }
      ∷ [];
  cur_region = 0;
}

-- With two values a byte, five calls find four pairs.
four_pairs : handed_out 2 5 two_bytes ≡ (5, 1) ∷ (6, 0) ∷ (6, 1) ∷ (9, 0) ∷ (9, 1) ∷ []
unfolding handed_out get_next_byte
four_pairs = refl

-- The region around 2 is cut at the one around 5.
cut_region :
    (add_hot_offset 2 (add_hot_offset 5 create_context)).regions
    ≡ record { start = 0; end = 2; cur = 0; cur_progress = 0 }
      ∷ record { start = 2; end = 25; cur = 2; cur_progress = 0 }
      ∷ []
unfolding add_hot_offset
cut_region = refl

handed_out-pending_example : handed_out 2 5 two_bytes ≡ take 5 (pending 2 two_bytes)
handed_out-pending_example = handed_out-pending 2 5 two_bytes (omega arith)

after-Covered_hot_example :
    Covered 2
      (after ((hot 5 ∷ (next 256 ∷ [])) ++ (hot 2 ∷ (next 256 ∷ []))) create_context).regions
after-Covered_hot_example = after-Covered_hot (hot 5 ∷ (next 256 ∷ [])) (next 256 ∷ []) 2

abbrev three : Sample
three = record { bytes = some (1 ∷ 2 ∷ 3 ∷ []); size = 3; filename = [] }

abbrev one_value : List Sample
one_value = record { bytes = some (255 ∷ 255 ∷ []); size = 2; filename = [] } ∷ []

-- 22 places with 256 byte values and one interesting value each.
until_false-stage_example :
    (w : ℕ × Stage) × (until_false 6000 (stage one_value) (stage_hot 2 (new_stage three))
      ≡ some (places 2 * 256 + places 2 * length one_value, w))
    × (w.1.mutated ≡ expected one_value three 2)
until_false-stage_example =
    until_false-stage one_value (refl, tt) (omega arith) three 2 6000 refl (omega arith)
