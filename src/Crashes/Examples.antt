-- ===== src/Crashes/Examples.antt =====
-- Crashes that are kept, at concrete descriptions.
use jackalope.Prelude.{min, ◌≡◌, refl, List, [], ◌∷◌, replicate, arith}
use jackalope.Prelude.Memory.{Bytes}
use jackalope.Crashes.{count_crash}
use jackalope.Crashes.Kept.{count_crashes, numbers, occurrences, down_from, numbers-count_crashes}

abbrev six_crashes : List (Bytes × Bytes)
six_crashes = replicate 6 (b'a' ∷ [], 7 ∷ [])

kept_files : numbers (b'a' ∷ []) (count_crashes 4 six_crashes).files ≡ 4 ∷ 3 ∷ 2 ∷ 1 ∷ []
unfolding count_crash
kept_files = refl

numbers-count_crashes_example :
    numbers (b'a' ∷ []) (count_crashes 4 six_crashes).files
    ≡ down_from (min 4 (occurrences (b'a' ∷ []) six_crashes))
numbers-count_crashes_example = numbers-count_crashes 4 (b'a' ∷ []) six_crashes (omega arith)
