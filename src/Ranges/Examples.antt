-- ===== src/Ranges/Examples.antt =====
-- std::sort as an insertion sort, runs of the range tracker, and its theorems at concrete ranges.
use jackalope.Prelude.{
  ℕ, ◌-◌, ◌/◌, ◌<◌, ◌≡◌, ◌↔◌, refl, ap, ◌∙◌, none, List, [], ◌∷◌, Bool, ◌||◌, if◌then◌else◌,
  replicate, arith,
}
use jackalope.Ranges.{
  Range, Sorter, IsSorted, any, consolidate_ranges, extract_ranges, range_lt, range_shm_size,
}
use jackalope.Ranges.Merge.{covers, IsSeparated, consolidate_ranges_lem}
use jackalope.Ranges.Bounds.{extract_ranges_bounds}

abbrev insert_range : Range → List Range → List Range
insert_range r [] = r ∷ []
insert_range r (s ∷ rest) = if range_lt s r then s ∷ insert_range r rest else r ∷ s ∷ rest

abbrev insertion_sort : List Range → List Range
insertion_sort [] = []
insertion_sort (r ∷ rs) = insert_range r (insertion_sort rs)

insert_range-IsSorted : (r : Range) (rs : List Range) → IsSorted rs → IsSorted (insert_range r rs)
insert_range-IsSorted r [] h = tt
insert_range-IsSorted r (s ∷ []) h = ground arith
insert_range-IsSorted r (s ∷ t ∷ rest) h = ground (arith, insert_range-IsSorted r (t ∷ rest) h.1)

insertion_sort-IsSorted : (rs : List Range) → IsSorted (insertion_sort rs)
insertion_sort-IsSorted [] = tt
insertion_sort-IsSorted (r ∷ rs) =
    insert_range-IsSorted r (insertion_sort rs) (insertion_sort-IsSorted rs)

any-insert_range :
    (p : Range → Bool) (r : Range) (rs : List Range) → any p (insert_range r rs) ≡ p r || any p rs
any-insert_range p r [] = refl
any-insert_range p r (s ∷ rest) = ground (arith, any-insert_range p r rest)

any-insertion_sort : (p : Range → Bool) (rs : List Range) → any p (insertion_sort rs) ≡ any p rs
any-insertion_sort p [] = refl
any-insertion_sort p (r ∷ rs) =
    any-insert_range p r (insertion_sort rs) ∙ ap (λ b. p r || b) (any-insertion_sort p rs)

abbrev sorter : Sorter
sorter = record {
  sort = insertion_sort;
  sort-IsSorted = insertion_sort-IsSorted;
  any-sort = any-insertion_sort;
}

abbrev three : List Range
three =
    record { from = 9; to = 12 } ∷ record { from = 0; to = 4 } ∷ record { from = 3; to = 6 } ∷ []

merged :
    consolidate_ranges sorter three []
    ≡ record { from = 0; to = 6 } ∷ record { from = 9; to = 12 } ∷ []
unfolding consolidate_ranges
merged = refl

consolidate_ranges_lem_example :
    ((x : ℕ) → any (covers x) (consolidate_ranges sorter three []) ≡ any (covers x) three)
    × IsSeparated (consolidate_ranges sorter three [])
consolidate_ranges_lem_example = consolidate_ranges_lem sorter three

-- 1000 ranges announced in a shared memory of 4096 bytes, where `max_ranges` is 1023.
extract_ranges_bounds_example :
    extract_ranges sorter range_shm_size (1000 ∷ replicate 1023 7) [] ≡ none
    ↔ (range_shm_size - 4) / 8 < 1000
extract_ranges_bounds_example =
    extract_ranges_bounds sorter range_shm_size 1000 (replicate 1023 7) [] (omega arith) refl
