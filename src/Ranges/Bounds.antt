-- ===== src/Ranges/Bounds.antt =====
-- Whether ExtractRanges stays inside the shared memory.
use jackalope.Prelude.{
  ℕ, zero, suc, ◌-◌, ◌*◌, ◌/◌, ◌≤◌, ◌<◌, ◌≡◌, ◌↔◌, refl, inl, inr, none, some, List, [], ◌∷◌, false,
  leb, leb→le, ◌==◌, length, Bool-cases, arith,
}
use jackalope.Ranges.{Range, Sorter, read_ranges, consolidate_ranges, extract_ranges, clamp_count}

read_ranges_inside :
    (n : ℕ) (buf : List ℕ) → 2 * n ≤ length buf → (rs : List Range) × (read_ranges n buf ≡ some rs)
unfolding read_ranges
read_ranges_inside zero buf h = ([], refl)
read_ranges_inside (suc n) [] h = absurd (omega arith)
read_ranges_inside (suc n) (f ∷ []) h = absurd (omega arith)
read_ranges_inside (suc n) (f ∷ t ∷ buf) h =
    let (rs, e) = read_ranges_inside n buf (omega arith) in (record { from = f; to = t } ∷ rs, rw e)

read_ranges_outside : (n : ℕ) (buf : List ℕ) → length buf < 2 * n → read_ranges n buf ≡ none
unfolding read_ranges
read_ranges_outside zero buf h = absurd (omega arith)
read_ranges_outside (suc n) [] h = refl
read_ranges_outside (suc n) (f ∷ []) h = refl
read_ranges_outside (suc n) (f ∷ t ∷ buf) h = rw (read_ranges_outside n buf (omega arith))

-- ExtractRanges past its early return, when the copying loop succeeds.
extract_ranges_read :
    (sorter : Sorter) (size n : ℕ) (buf : List ℕ) (ranges rs : List Range)
    → (n == 0) ≡ false
    → read_ranges (clamp_count size n) buf ≡ some rs
    → extract_ranges sorter size (n ∷ buf) ranges ≡ some (consolidate_ranges sorter rs ranges)
unfolding extract_ranges
extract_ranges_read sorter size n buf ranges rs e r = rw (e, r)

-- A shared memory of `size` bytes holds the header and, at 8 bytes each, (size - 4) / 8 ranges.
-- With a count up to that number ExtractRanges stays inside it. With any greater count it reads
-- past the end, since the limit `max_ranges` is set as if a range took 4 bytes.
pub extract_ranges_bounds :
    (sorter : Sorter) (size numranges : ℕ) (buf : List ℕ) (ranges : List Range)
    → 12 ≤ size
    → length buf ≡ (size - 4) / 4
    → extract_ranges sorter size (numranges ∷ buf) ranges ≡ none ↔ (size - 4) / 8 < numranges
unfolding extract_ranges
extract_ranges_bounds sorter size n buf ranges big whole = (λ e. too_many e, outside)
  where
    inside :
        n ≤ (size - 4) / 8
        → (rs : List Range) × (extract_ranges sorter size (n ∷ buf) ranges ≡ some rs)
    inside h = elim (Bool-cases (n == 0)) [
      | inl e ↦ (ranges, rw e)
      | inr e ↦
          let (rs, r) = read_ranges_inside (clamp_count size n) buf (ground arith) in
          (consolidate_ranges sorter rs ranges, extract_ranges_read sorter size n buf ranges rs e r)
    ]

    outside : (size - 4) / 8 < n → extract_ranges sorter size (n ∷ buf) ranges ≡ none
    outside h = rw (read_ranges_outside (clamp_count size n) buf (ground arith)) (ground arith)

    too_many : extract_ranges sorter size (n ∷ buf) ranges ≡ none → (size - 4) / 8 < n
    too_many e = elim (Bool-cases (leb n ((size - 4) / 8))) [
      | inl le ↦ let (rs, r) = inside (leb→le n ((size - 4) / 8) le) in ground (arith, e, r)
      | inr gt ↦ ground arith
    ]
