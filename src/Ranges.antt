-- ===== src/Ranges.antt =====
-- range.h, rangetracker.h and rangetracker.cpp: the ranges of a sample that the target has read,
-- taken from shared memory, sorted and merged.
pub mod Merge
pub mod Bounds
mod Examples
use jackalope.Prelude.{
  ℕ, zero, suc, ◌+◌, ◌-◌, ◌*◌, ◌/◌, ◌≤◌, ◌≡◌, Option, none, some, List, [], ◌∷◌, ◌++◌, Bool, true,
  false, ◌||◌, ◌&&◌, ltb, leb, ◌==◌, if◌then◌else◌, length,
}
use jackalope.Prelude.Memory.{◌>>=◌}

-- class Range: the bytes from `from` up to, and without, `to`.
pub record Range : Type 0 where
  pub from : ℕ
  pub to : ℕ

-- Range::operator<
abbrev pub range_lt : Range → Range → Bool
range_lt a b = ltb a.from b.from

-- No later entry is less than an earlier one.
abbrev pub IsSorted : List Range → Type 0
IsSorted [] = Unit {0}
IsSorted (r ∷ []) = Unit {0}
IsSorted (r ∷ s ∷ rest) = (r.from ≤ s.from) × IsSorted (s ∷ rest)

abbrev pub any : (Range → Bool) → List Range → Bool
any p [] = false
any p (r ∷ rs) = p r || any p rs

-- What std::sort promises. It may leave equal entries in any order.
pub record Sorter : Type 0 where
  pub sort : List Range → List Range
  pub sort-IsSorted : (rs : List Range) → IsSorted (sort rs)
  pub any-sort : (p : Range → Bool) (rs : List Range) → any p (sort rs) ≡ any p rs

-- `if (currange->to > lastrange->to) lastrange->to = currange->to`
abbrev pub widen : Range → Range → Range
widen last cur = if ltb last.to cur.to then record last { to = cur.to } else last

-- The loop of ConsolidateRanges: `last` is the last entry of `outranges`, and the result what
-- stands there from it on when the loop ends.
unfoldable pub consolidate_loop : Range → List Range → List Range
consolidate_loop last [] = last ∷ []
consolidate_loop last (cur ∷ rest) = elim (leb cur.from last.to) [
  | true ↦ consolidate_loop (widen last cur) rest
  | false ↦ last ∷ consolidate_loop cur rest
]

abbrev pub consolidate_sorted : List Range → List Range
consolidate_sorted [] = []
consolidate_sorted (first ∷ rest) = consolidate_loop first rest

-- SHMRangeTracker::ConsolidateRanges: the entries that it pushes behind `outranges`.
unfoldable pub consolidate_ranges : Sorter → List Range → List Range → List Range
unfolding consolidate_loop
consolidate_ranges sorter [] outranges = outranges
consolidate_ranges sorter (r ∷ rs) outranges =
    outranges ++ consolidate_sorted (sorter.sort (r ∷ rs))

-- RANGE_SHM_SIZE
abbrev pub range_shm_size : ℕ
range_shm_size = 4096

-- The constructor of SHMRangeTracker: `max_ranges` for a shared memory of `size` bytes.
abbrev pub max_ranges : ℕ → ℕ
max_ranges size = (size - 4) / 4

-- The copying loop of ExtractRanges: `n` ranges are left and `buf` is what the pointer is at, as
-- 32-bit words up to the end of the shared memory.
unfoldable pub read_ranges : ℕ → List ℕ → Option (List Range)
read_ranges zero buf = some []
read_ranges (suc n) [] = none
read_ranges (suc n) (f ∷ []) = none
read_ranges (suc n) (f ∷ t ∷ buf) = do
  rest ← read_ranges n buf
  some (record { from = f; to = t } ∷ rest)

abbrev pub clamp_count : ℕ → ℕ → ℕ
clamp_count size n = if ltb (max_ranges size) n then max_ranges size else n

-- SHMRangeTracker::ExtractRanges over a shared memory of `size` bytes, given as 32-bit words;
-- `none` is a read past its end.
unfoldable pub extract_ranges : Sorter → ℕ → List ℕ → List Range → Option (List Range)
unfolding read_ranges consolidate_ranges
extract_ranges sorter size [] ranges = none
extract_ranges sorter size (numranges ∷ buf) ranges = if numranges == 0 then some ranges else (do
  tmpranges ← read_ranges (clamp_count size numranges) buf
  some (consolidate_ranges sorter tmpranges ranges))
