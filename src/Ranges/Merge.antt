-- ===== src/Ranges/Merge.antt =====
-- Merging keeps the set of covered bytes and leaves ranges with a gap between them.
use jackalope.Prelude.{
  ℕ, ◌≤◌, ◌<◌, ◌≡◌, refl, ap, ◌∙◌, inl, inr, List, [], ◌∷◌, Bool, true, false, ◌||◌, ◌&&◌, ltb, leb,
  Bool-cases, arith,
}
use jackalope.Ranges.{
  Range, IsSorted, any, Sorter, widen, consolidate_loop, consolidate_sorted, consolidate_ranges,
}

-- The byte at `x` lies in the range.
abbrev pub covers : ℕ → Range → Bool
covers x r = leb r.from x && ltb x r.to

-- Each range ends before the next one starts.
abbrev pub IsSeparated : List Range → Type 0
IsSeparated [] = Unit {0}
IsSeparated (r ∷ []) = Unit {0}
IsSeparated (r ∷ s ∷ rest) = (r.to < s.from) × IsSeparated (s ∷ rest)

covers-widen :
    (x : ℕ) (last cur : Range)
    → last.from ≤ cur.from
    → cur.from ≤ last.to
    → covers x (widen last cur) ≡ covers x last || covers x cur
covers-widen x last cur h k = ground arith

IsSorted-widen :
    (last cur : Range) (rest : List Range)
    → IsSorted (last ∷ cur ∷ rest)
    → IsSorted (widen last cur ∷ rest)
IsSorted-widen last cur [] h = tt
IsSorted-widen last cur (r ∷ rest) h = (ground arith, h.1.1)

||_assoc : (a b c : Bool) → (a || b) || c ≡ a || (b || c)
||_assoc true b c = refl
||_assoc false b c = refl

covers-consolidate_loop :
    (x : ℕ) (last : Range) (rest : List Range)
    → IsSorted (last ∷ rest)
    → any (covers x) (consolidate_loop last rest) ≡ any (covers x) (last ∷ rest)
unfolding consolidate_loop
covers-consolidate_loop x last [] h = refl
covers-consolidate_loop x last (cur ∷ rest) h = elim (Bool-cases (leb cur.from last.to)) [
  | inl e ↦
      rw (e, consolidate_loop)
        (covers-consolidate_loop x (widen last cur) rest (IsSorted-widen last cur rest h)
          ∙ ap (λ b. b || any (covers x) rest) (covers-widen x last cur h.0 (ground arith))
          ∙ ||_assoc (covers x last) (covers x cur) (any (covers x) rest))
  | inr e ↦
      rw (e, consolidate_loop)
        (ap (λ b. covers x last || b) (covers-consolidate_loop x cur rest h.1))
]

widen-from : (last cur : Range) → (widen last cur).from ≡ last.from
widen-from last cur = ground arith

-- The merged list is separated, also behind a range that ends before it.
consolidate_loop-IsSeparated :
    (last : Range) (rest : List Range)
    → IsSeparated (consolidate_loop last rest)
      × ((prev : Range) → prev.to < last.from → IsSeparated (prev ∷ consolidate_loop last rest))
unfolding consolidate_loop
consolidate_loop-IsSeparated last [] = (tt, λ prev h. (h, tt))
consolidate_loop-IsSeparated last (cur ∷ rest) = elim (Bool-cases (leb cur.from last.to)) [
  | inl e ↦
      rw (e, consolidate_loop)
        (let ih = consolidate_loop-IsSeparated (widen last cur) rest in
          (ih.0, λ prev h. ih.1 prev (omega (arith, widen-from last cur))))
  | inr e ↦
      rw (e, consolidate_loop)
        (let ih = consolidate_loop-IsSeparated cur rest in
          let here = ih.1 last (ground arith) in (here, λ prev h. (h, here)))
]

covers-consolidate_sorted :
    (x : ℕ) (rs : List Range)
    → IsSorted rs
    → any (covers x) (consolidate_sorted rs) ≡ any (covers x) rs
covers-consolidate_sorted x [] h = refl
covers-consolidate_sorted x (r ∷ rs) h = covers-consolidate_loop x r rs h

consolidate_sorted-IsSeparated : (rs : List Range) → IsSeparated (consolidate_sorted rs)
consolidate_sorted-IsSeparated [] = tt
consolidate_sorted-IsSeparated (r ∷ rs) = (consolidate_loop-IsSeparated r rs).0

-- Whatever order std::sort leaves equal entries in, ConsolidateRanges into an empty vector covers
-- exactly the bytes that the given ranges cover, by ranges that neither overlap nor touch.
pub consolidate_ranges_lem :
    (sorter : Sorter) (rs : List Range)
    → ((x : ℕ) → any (covers x) (consolidate_ranges sorter rs []) ≡ any (covers x) rs)
      × IsSeparated (consolidate_ranges sorter rs [])
unfolding consolidate_ranges
consolidate_ranges_lem sorter [] = (λ x. refl, tt)
consolidate_ranges_lem sorter (r ∷ rs) = (
  λ x.
      covers-consolidate_sorted x (sorter.sort (r ∷ rs)) (sorter.sort-IsSorted (r ∷ rs))
      ∙ sorter.any-sort (covers x) (r ∷ rs),
  consolidate_sorted-IsSeparated (sorter.sort (r ∷ rs)),
)
