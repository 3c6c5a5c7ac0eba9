-- ===== src/Sample/Examples.antt =====
-- Runs of the operations of class Sample, and its theorems at concrete samples.
use jackalope.Prelude.{ℕ, ◌≡◌, refl, ◌≢◌, some, [], ◌∷◌, take, drop, min, ◌-◌}
use jackalope.Prelude.Memory.{read_block}
use jackalope.Sample.{
  Sample, Files, done, content, IsValid, trim, crop, clear, new_sample, find_first_diff, save_bytes,
  free_memory, ensure_loaded, realloc, find_first_diff_loop,
}
use jackalope.Sample.Contents.{crop_lem}
use jackalope.Sample.FirstDiff.{PartAt, find_first_diff_parts}
use jackalope.Sample.Storage.{ensure_loaded-free_memory}

abbrev four : Sample
four = record { bytes = some (1 ∷ 2 ∷ 3 ∷ 4 ∷ []); size = 4; filename = 7 ∷ [] }

abbrev other : Sample
other = record { bytes = some (1 ∷ 2 ∷ 9 ∷ []); size = 3; filename = [] }

abbrev disk : Files
disk _ = some (1 ∷ 2 ∷ 3 ∷ 4 ∷ [])

trim_runs : content (trim four 2) ≡ 1 ∷ 2 ∷ []
unfolding trim realloc
trim_runs = refl

diff_runs : find_first_diff four other ≡ some 2
unfolding find_first_diff find_first_diff_loop
diff_runs = refl

-- Clearing a sample, which is all that cropping does with an empty range, leaves its size.
clear_keeps_size : (clear four).size ≡ 4
unfolding clear
clear_keeps_size = refl

crop_lem_example :
    (t : Sample) × (crop four 1 9 new_sample ≡ some t)
    × (content t ≡ take (min 9 four.size - 1) (drop 1 (content four)))
    × IsValid t
crop_lem_example = crop_lem four new_sample 1 9 refl refl

find_first_diff_parts_example :
    (i : ℕ) × (find_first_diff four other ≡ some i) × PartAt (content four) (content other) i
find_first_diff_parts_example = find_first_diff_parts four other refl refl

four_named : four.filename ≢ []
four_named e = cc

ensure_loaded-free_memory_example :
    (t : Sample) × (ensure_loaded disk (free_memory four) ≡ done t)
    × (content t ≡ content four)
    × (t.size ≡ four.size)
    × (t.filename ≡ four.filename)
unfolding save_bytes read_block
ensure_loaded-free_memory_example = ensure_loaded-free_memory disk four refl four_named refl
